-- ===== src/Worker/Once.antt =====
-- Over the life of a worker, whatever it is handed and however often.
use message_delivery.Prelude.{◌≤◌, String, refl, Option, some, List, [], ◌∷◌, arith}
use message_delivery.Prelude.Fallible.{Fallible, ok, err}
use message_delivery.Delivery.Event.{RequestEvent, RequestError, decode_request}
use message_delivery.Delivery.Idempotency.{new_memory_idempotency_store, is_seen}
use message_delivery.Delivery.Orchestrator.{World, Env, Orchestrator}
use message_delivery.Delivery.Orchestrator.Once.{SentOnce, sent_count, handle-SentOnce}
use message_delivery.Worker.{
  Signal, cancelled, closed, delivery, handle_delivery, handle_decoded, run,
}

-- The state in which `main` starts the worker.
abbrev pub start : World
start = record { seen = some new_memory_idempotency_store; attempts = []; published = [] }

start-SentOnce : SentOnce start
unfolding is_seen
start-SentOnce = record {
  store = new_memory_idempotency_store;
  has_store = refl;
  once = λ event_id. omega arith;
}

module _ {ℓ} {Body : Type ℓ} (env : Env) (o : Orchestrator)
    (unmarshal : Body → Option RequestEvent) where
  handle_decoded-SentOnce :
      (r : Fallible RequestError RequestEvent) (w : World)
      → SentOnce w
      → SentOnce (handle_decoded env o unmarshal r w).1
  unfolding handle_decoded
  handle_decoded-SentOnce (err e) w inv = inv
  handle_decoded-SentOnce (ok event) w inv = handle-SentOnce env o (some event) w inv

  handle_delivery-SentOnce :
      (body : Body) (w : World) → SentOnce w → SentOnce (handle_delivery env o unmarshal body w).1
  unfolding handle_delivery
  handle_delivery-SentOnce body w inv =
      handle_decoded-SentOnce (decode_request unmarshal body) w inv

  run-SentOnce :
      (signals : List (Signal Body)) (w : World)
      → SentOnce w
      → SentOnce (run env o unmarshal signals w).1
  unfolding run
  run-SentOnce [] w inv = inv
  run-SentOnce (cancelled ∷ signals) w inv = inv
  run-SentOnce (closed ∷ signals) w inv = inv
  run-SentOnce (delivery body ∷ signals) w inv =
      run-SentOnce signals _ (handle_delivery-SentOnce body w inv)

  -- From its start, whatever deliveries a worker takes, in whatever order, redelivered or not, and
  -- whatever the providers and the publisher answer: at most one of all the calls that handed over a
  -- message of one event id was answered "sent".
  pub run_sends_once :
      (signals : List (Signal Body)) (event_id : String)
      → sent_count event_id (run env o unmarshal signals start).1.attempts ≤ 1
  run_sends_once signals event_id =
      let inv = run-SentOnce signals start start-SentOnce in ground (arith, inv.once event_id)
