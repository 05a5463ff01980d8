-- ===== src/Worker.antt =====
-- internal/worker/worker.go: from a delivery of the broker to its acknowledgement.
pub mod Settlements
pub mod Once
pub mod Recovery
use message_delivery.Prelude.{Bool, true, false, Option, some, List, [], ◌∷◌, ◌++◌}
use message_delivery.Prelude.Fallible.{Fallible, ok, err}
use message_delivery.Delivery.Event.{RequestEvent, RequestError, decode_request}
use message_delivery.Delivery.Orchestrator.{
  World, Env, Orchestrator, Handled, nil_request, done, not_published, handle,
}

-- `msg.Ack(false)`, and `msg.Nack(false, requeue)`.
pub data Settlement : Type 0 where
  ack : Settlement
  nack : Bool → Settlement

-- Which case of the `select` is taken: the context is done, the channel of deliveries is closed, or
-- there is a delivery.
pub data Signal {ℓ} (Body : Type ℓ) : Type ℓ where
  cancelled : Signal Body
  closed : Signal Body
  delivery : Body → Signal Body

abbrev pub settle : Handled → Settlement
settle nil_request = nack true
settle (done result) = ack
settle (not_published result) = nack true

module _ {ℓ} {Body : Type ℓ} (env : Env) (o : Orchestrator)
    (unmarshal : Body → Option RequestEvent) where
  handle_decoded : Fallible RequestError RequestEvent → World → Settlement × World
  handle_decoded (err e) w = (nack false, w)
  handle_decoded (ok event) w =
      let (handled, w') = handle env o (some event) w in (settle handled, w')

  -- `Worker.handle`
  unfoldable pub handle_delivery : Body → World → Settlement × World
  unfolding handle_decoded
  handle_delivery body w = handle_decoded (decode_request unmarshal body) w

  -- `Worker.Run`, with the settlements of the deliveries in order.
  unfoldable pub run : List (Signal Body) → World → List Settlement × World
  run [] w = ([], w)
  run (cancelled ∷ signals) w = ([], w)
  run (closed ∷ signals) w = ([], w)
  run (delivery body ∷ signals) w =
      let (settlement, w') = handle_delivery body w in
      let (settlements, final) = run signals w' in (settlement ∷ settlements, final)
