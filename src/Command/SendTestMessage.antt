-- ===== src/Command/SendTestMessage.antt =====
-- cmd/send-test-message/main.go: a program that publishes one request and waits for its result.
pub mod Request
pub mod Waited
use Prim.Native.Char.{code}
use Prim.Native.String
use message_delivery.Prelude.{
  String, Bool, not, ◌==◌, Option, none, some, List, [], ◌∷◌, if◌then◌else◌,
}
use message_delivery.Prelude.Fallible.{Fallible, ok, err, ◌>>=◌}
use message_delivery.Prelude.Dict
use message_delivery.Config.{Config, end}
use message_delivery.Delivery.Event.{RequestEvent, ResultEvent}
use message_delivery.Broker.{
  Client, Calls, Event, BrokerError, setup, consume_results_temporary, publish_request, then_close,
  ◌>>◌, Operation,
}
use message_delivery.Broker
use message_delivery.Command.SendTestMessage.Request.{
  Options, RunError, config_not_loaded, not_connected, broker_failed, waited_too_long,
  consumer_closed, result_undecodable, parse_options, Outside, build_request,
}

-- The cases of the `select`: the context is done, the channel is closed, or a message arrives.
pub data Arrival {ℓ} (Body : Type ℓ) : Type ℓ where
  done : Arrival Body
  closed : Arrival Body
  message : Body → Arrival Body

-- What is printed: the request, or its result.
pub data Printed : Type 0 where
  printed_request : RequestEvent → Printed
  printed_result : ResultEvent → Printed

module _ {ℓ} {Body : Type ℓ} (decode : Body → Option ResultEvent) where
  -- `waitForResult`; after the cases of the list it waits on.
  unfoldable pub wait_for_result :
      List (Arrival Body) → String → Option (Fallible RunError ResultEvent)
  wait_for_result [] id = none
  wait_for_result (done ∷ rest) id = some (err waited_too_long)
  wait_for_result (closed ∷ rest) id = some (err consumer_closed)
  wait_for_result (message body ∷ rest) id =
      let later = wait_for_result rest id in
      elim (decode body) [
        | none ↦ some (err result_undecodable)
        | some result ↦ if result.request_event_id == id then some (ok result) else later
      ]

-- The calls of the broker, the temporary queue being there before the request is published.
unfoldable pub exchange :
    Client → (Event → Option String) → Config → Bool → RequestEvent → Calls (Unit {0})
unfolding setup consume_results_temporary publish_request then_close
exchange client marshal cfg wait event =
    setup client cfg.broker
    >> (if wait
        then Broker.◌>>=◌ (consume_results_temporary client cfg.broker)
            (λ queue. then_close client (publish_request client marshal cfg.broker event))
        else publish_request client marshal cfg.broker event)

-- What happens after the exchange; `none` is a wait that has not ended.
abbrev after_wait : Option (Fallible RunError ResultEvent) → Option (Fallible RunError Printed)
after_wait none = none
after_wait (some (ok result)) = some (ok (printed_result result))
after_wait (some (err e)) = some (err e)

module _ {ℓ} {Body : Type ℓ} (decode : Body → Option ResultEvent) where
  unfoldable pub finish :
      Fallible BrokerError (Unit {0})
      → Bool
      → RequestEvent
      → List (Arrival Body)
      → Option (Fallible RunError Printed)
  unfolding wait_for_result
  finish (err e) wait event arrivals = some (err (broker_failed e))
  finish (ok _) wait event arrivals =
      if not wait
      then some (ok (printed_request event))
      else after_wait (wait_for_result decode arrivals event.event_id)

  -- `run` up to the printing, whose end it returns: the options, the configuration as it is loaded,
  -- whether the broker can be reached, and the client.
  unfoldable pub run_prepared :
      Client
      → (Event → Option String)
      → List (Arrival Body)
      → Options
      → Config
      → RequestEvent
      → Option (Fallible RunError Printed) × List Operation
  unfolding exchange finish
  run_prepared client marshal arrivals opts cfg event =
      let (ended, calls) = exchange client marshal cfg opts.wait_result event [] in
      (finish ended opts.wait_result event arrivals, calls)

  unfoldable pub run :
      (Options → List String → Option Options)
      → (String → Option Config)
      → Outside
      → (Config → Bool)
      → Client
      → (Event → Option String)
      → List (Arrival Body)
      → List String
      → Option (Fallible RunError Printed) × List Operation
  unfolding parse_options build_request run_prepared
  run parse load outside connects client marshal arrivals args = elim (parse_options parse args) [
    | err e ↦ (some (err e), [])
    | ok opts ↦ elim (load opts.config_path) [
      | none ↦ (some (err config_not_loaded), [])
      | some cfg ↦ elim (build_request outside opts) [
        | err e ↦ (some (err e), [])
        | ok event ↦
            if not (connects cfg)
            then (some (err not_connected), [])
            else run_prepared client marshal arrivals opts cfg event
      ]
    ]
  ]
