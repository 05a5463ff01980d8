-- ===== src/Tests/Together.antt =====
-- The worker and the webhook over one broker.
use message_delivery.Prelude.{ℕ, ◌≡◌, refl, Option, some, none, List, [], ◌∷◌, false}
use message_delivery.Prelude.Int.{ℤ}
use message_delivery.Broker.{call, then_close, publish}
use message_delivery.Broker
use message_delivery.Delivery.Event.{decode_request}
use message_delivery.Delivery.Orchestrator
use message_delivery.Provider.{new_unavailable}
use message_delivery.Webhook.{serve_http}
use message_delivery.Webhook.Connection.{Update}
use message_delivery.Worker.{ack, nack, handle_delivery}
use message_delivery.Command.Service.Running.{broker_publisher}
use message_delivery.Command.Service.Together.{
  Incoming, delivered, requested, Service, settled, answered, broker_connections, run_together,
}
use message_delivery.Command.Service.Together.Handled.{HandlesAll, run_together-HandlesAll}
use message_delivery.Tests.Sample.{orchestrator, env, empty_world}
use message_delivery.Tests.Broker.{broker}
use message_delivery.Tests.Bot.{handler, outside, outside-IsDigest, quiet_traffic, update}
use message_delivery.Tests.Worker.{unmarshal}
use message_delivery.Tests.Main.{tiring_client, marshal}

abbrev decode : ℤ → ℕ → Option Update
decode limit body = some update

-- A valid request, a connection that is asked for, and a request that cannot be read.
abbrev jobs : List (Incoming ℕ)
jobs =
    delivered 1
    ∷ requested (record { method = "POST"; secret_token = "s3cret"; body = 0 })
    ∷ delivered 0
    ∷ []

abbrev service : Service
service = record { world = empty_world; traffic = quiet_traffic; calls = [] }

-- The client takes the first publication, and so the second one is refused.
run_together_answers :
    (run_together tiring_client marshal broker env orchestrator unmarshal decode outside handler
      jobs service).0
    ≡ settled ack
      ∷ answered (record { status = 503; text = "service unavailable"; allow = none })
      ∷ settled (nack false)
      ∷ []
unfolding run_together broker_publisher broker_connections handle_delivery serve_http publish
    Broker.call then_close decode_request Orchestrator.orchestrator new_unavailable
run_together_answers = refl

run_together-HandlesAll_example :
    HandlesAll tiring_client marshal broker unmarshal decode outside handler [] jobs
      (run_together tiring_client marshal broker env orchestrator unmarshal decode outside handler
        jobs service).0
      (run_together tiring_client marshal broker env orchestrator unmarshal decode outside handler
        jobs service).1.calls
run_together-HandlesAll_example =
    run_together-HandlesAll tiring_client marshal broker unmarshal decode outside handler env
      orchestrator outside-IsDigest jobs service
