-- ===== src/Tests/Commands.antt =====
-- A request that is published and its result.
use message_delivery.Command.GenerateVapid.{generate_vapid, prints}
use message_delivery.Prelude.{String, true, ◌≡◌, ◌↔◌, refl, Option, some, List, [], ◌∷◌, ◌++◌}
use message_delivery.Prelude.Fallible.{ok}
use message_delivery.Config.{Config}
use message_delivery.Delivery.Event.{RequestEvent, ResultEvent}
use message_delivery.Broker.{Event, request}
use message_delivery.Broker
use message_delivery.Command.SendTestMessage.{Arrival, message, wait_for_result, exchange}
use message_delivery.Command.SendTestMessage.Request.{split_csv}
use message_delivery.Command.SendTestMessage.Waited.{
  IsFirst, wait_for_result_iff, exchange_operations, exchange_listens_first,
}
use message_delivery.Tests.Sample as Sample
use message_delivery.Tests.Broker.{broker, willing_client}

abbrev result_of : String → ResultEvent
result_of id = record {
  version = "v1";
  event_id = "r1";
  type = "message.delivery.result";
  request_event_id = id;
  status = "sent";
  recipient_type = "email";
  recipient = "a@b.example";
  provider = "smtp";
  attempt = 1;
  error_code = "";
  created_at = 7;
}

abbrev decode : String → Option ResultEvent
decode body = some (result_of body)

abbrev arrivals : List (Arrival String)
arrivals = message "e0" ∷ message "e1" ∷ Arrival.done ∷ []

wait_runs : wait_for_result decode arrivals "e1" ≡ some (ok (result_of "e1"))
unfolding wait_for_result
wait_runs = refl

wait_for_result_iff_example :
    (wait_for_result decode arrivals "e1" ≡ some (ok (result_of "e1")))
    ↔ IsFirst decode "e1" (result_of "e1") arrivals
wait_for_result_iff_example = wait_for_result_iff decode arrivals "e1" (result_of "e1")

abbrev service : Config
service = record Sample.config { broker = broker }

abbrev event : RequestEvent
event = Sample.request (Sample.policy "" [] true)

abbrev marshal : Event → Option String
marshal e = some "{}"

exchanged : (exchange willing_client marshal service true event []).0 ≡ ok tt
unfolding exchange Broker.call Broker.or_close Broker.declare_temporary Broker.publish
exchanged = refl

exchange_listens_first_example :
    (name : String) × (body : String) × (marshal (request event) ≡ some body)
    × ((exchange willing_client marshal service true event []).1
        ≡ [] ++ exchange_operations service.broker name body)
exchange_listens_first_example =
    exchange_listens_first willing_client marshal service event [] exchanged

split_csv_runs : split_csv " a, ,b" ≡ "a" ∷ "b" ∷ []
unfolding split_csv
split_csv_runs = refl

vapid_runs :
    generate_vapid (some ("k", "p"))
    ≡ prints (
        "MESSAGE_DELIVERY_WEB_PUSH_VAPID_PUBLIC_KEY=p"
        ∷ "MESSAGE_DELIVERY_WEB_PUSH_VAPID_PRIVATE_KEY=k" ∷ [])
unfolding generate_vapid
vapid_runs = refl
