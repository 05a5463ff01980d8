-- ===== src/Tests/Worker.antt =====
-- A worker that is handed a request twice, and something that is no request.
use message_delivery.Delivery.Event.Valid.{IsValidRequest}
use message_delivery.Prelude.{
  ℕ, zero, suc, ◌≤◌, ◌≡◌, refl, true, false, Option, none, some, List, [], ◌∷◌, map, length, Bool,
  leb, arith, ◌↔◌,
}
use message_delivery.Provider.{new_unavailable}
use message_delivery.Delivery.Event.{RequestEvent, decode_request, ResultEvent}
use message_delivery.Delivery.Orchestrator.{Publication, World, Env}
use message_delivery.Delivery.Orchestrator
use message_delivery.Delivery.Orchestrator.Once.{sent_count}
use message_delivery.Worker.{Signal, cancelled, delivery, ack, nack, handle_delivery, run}
use message_delivery.Worker.Once.{start, run_sends_once}
use message_delivery.Worker.Recovery.{Acknowledged, run-Acknowledged, deliveries}
use message_delivery.Worker.Settlements.{handle_delivery_rejects_iff}
use message_delivery.Tests.Sample.{orchestrator, env, request, policy, empty_world}

-- The decoder reads body 1 as a request, and no other.
abbrev pub unmarshal : ℕ → Option RequestEvent
unmarshal (suc zero) = some (request (policy "" ("smtp" ∷ "backup" ∷ []) true))
unmarshal _ = none

abbrev pub signals : List (Signal ℕ)
signals = delivery 1 ∷ delivery 0 ∷ delivery 1 ∷ cancelled ∷ delivery 1 ∷ []

-- The first provider is unavailable and the second takes the message; the request that comes again
-- is not tried again.
run_settles : (run env orchestrator unmarshal signals start).0 ≡ ack ∷ nack false ∷ ack ∷ []
unfolding run handle_delivery decode_request Orchestrator.orchestrator new_unavailable
run_settles = refl

run_tries :
    map (λ a. a.provider) (run env orchestrator unmarshal signals start).1.attempts
    ≡ "smtp" ∷ "backup" ∷ []
unfolding run handle_delivery decode_request Orchestrator.orchestrator new_unavailable
run_tries = refl

run_sends_once_example :
    sent_count "e1" (run env orchestrator unmarshal signals start).1.attempts ≤ 1
run_sends_once_example = run_sends_once env orchestrator unmarshal signals "e1"

handle_delivery_rejects_iff_example :
    (((handle_delivery env orchestrator unmarshal 0 empty_world).0 ≡ nack false)
      ↔ ((event : RequestEvent) → unmarshal 0 ≡ some event → ¬ IsValidRequest event))
    × ((handle_delivery env orchestrator unmarshal 0 empty_world).0 ≡ nack false
        → (handle_delivery env orchestrator unmarshal 0 empty_world).1 ≡ empty_world)
handle_delivery_rejects_iff_example =
    handle_delivery_rejects_iff env orchestrator unmarshal 0 empty_world

-- A publisher that refuses the first two results.
abbrev slow : World → ResultEvent → Bool
slow w result = leb 2 (length w.published)

abbrev slow_env : Env
slow_env = record env { publisher = some slow }

recovers : (w : World) (result : ResultEvent) → 2 ≤ length w.published → slow w result ≡ true
recovers w result many = ground arith

run-Acknowledged_example :
    Acknowledged 2
      (run slow_env orchestrator unmarshal
        (deliveries slow_env orchestrator unmarshal 3 1)
        empty_world).0
unfolding decode_request
run-Acknowledged_example =
    run-Acknowledged slow_env orchestrator unmarshal 1
      (request (policy "" ("smtp" ∷ "backup" ∷ []) true)) slow 2 empty_world refl refl recovers

redelivery_runs :
    (run slow_env orchestrator unmarshal (delivery 1 ∷ delivery 1 ∷ delivery 1 ∷ []) start).0
    ≡ nack true ∷ nack true ∷ ack ∷ []
unfolding run handle_delivery decode_request Orchestrator.orchestrator new_unavailable
redelivery_runs = refl
