-- ===== src/Tests/Main.antt =====
-- The service, from its flags to its routes and to what its worker tells the broker.
use message_delivery.Prelude.{
  String, true, false, ◌≡◌, ◌≢◌, refl, Option, none, some, List, [], ◌∷◌, All, is_some, ltb, length,
  if◌then◌else◌,
}
use message_delivery.Prelude.Fallible.{ok}
use message_delivery.Prelude.Dict
use message_delivery.Prelude.Text.{trim_space}
use message_delivery.Broker
use message_delivery.Broker.{
  setup, consume, call, then_close, or_close, Client, Event, Operation, publish,
  telegram_connection,
}
use message_delivery.Worker.{handle_delivery, ack, nack}
use message_delivery.Worker.Settlements.{taken}
use message_delivery.Command.Service.{try_round, Wired, wire, consumes}
use message_delivery.Delivery.Orchestrator
use message_delivery.Delivery.Event.{decode_request}
use message_delivery.Provider.{new_unavailable}
use message_delivery.Config.{bool_at}
use message_delivery.Config.Load.{load}
use message_delivery.Provider.Factory.{settings, brands_of}
use message_delivery.Provider.Factory.Registered.{HasBrands}
use message_delivery.Command.Service.Running.{broker_publisher, with_broker, run_worker, calls}
use message_delivery.Command.Service.Running.Served.{Serves, run_worker-Serves}
use message_delivery.Command.Service.Main.{ServeMux, Flags, main, serves, server_of, handler_of}
use message_delivery.Command.Service.Main.Reached.{
  has, is_plain, IsServeMux, endpoint_at, handler_of-eq-endpoint_at,
}
use message_delivery.Command.Service.Main.Serving.{main-serves}
use message_delivery.Tests.Sample.{orchestrator, env}
use message_delivery.Tests.Broker.{broker, willing_client}
use message_delivery.Tests.Bot.{handler}
use message_delivery.Tests.Worker.{unmarshal, signals}
use message_delivery.Tests.Service.{
  config_sources, services, publisher, loaded, is_loaded, rounds, decoded,
}

abbrev pub marshal : Event → Option String
marshal event = some "{}"

-- The first publication is taken, and no later one.
abbrev pub tiring_client : Client
tiring_client = record {
  succeeds = λ past operation. ltb (length past) 3;
  server_name = λ past. "";
}

run_worker_settles :
    (run_worker tiring_client marshal broker [] env orchestrator unmarshal signals).0
    ≡ ack ∷ nack false ∷ nack true ∷ []
unfolding run_worker broker_publisher handle_delivery publish Broker.call then_close decode_request
    Orchestrator.orchestrator new_unavailable
run_worker_settles = refl

run_worker-Serves_example :
    Serves tiring_client marshal broker unmarshal []
      (taken (with_broker tiring_client marshal broker [] env) orchestrator unmarshal signals)
      (run_worker tiring_client marshal broker [] env orchestrator unmarshal signals).0
      (calls tiring_client marshal broker []
        (run_worker tiring_client marshal broker [] env orchestrator unmarshal signals).1)
run_worker-Serves_example =
    run_worker-Serves tiring_client marshal broker unmarshal [] env orchestrator signals

abbrev mux : ServeMux
mux patterns path =
    if has path patterns then some path else if has "/" patterns then some "/" else none

mux-IsServeMux : IsServeMux mux
mux-IsServeMux patterns path pattern plain = refl

handler_of-eq-endpoint_at_example :
    handler_of mux "\"dev\"" decoded (some handler) "/health"
    ≡ endpoint_at "\"dev\"" decoded.telegram_bot.webhook_path (some handler) "/health"
unfolding is_plain
handler_of-eq-endpoint_at_example =
    handler_of-eq-endpoint_at mux "\"dev\"" decoded (some handler) "/health" mux-IsServeMux refl
      refl

abbrev flags : Flags
flags = record { config = "/etc/md/config.json"; healthcheck = "" }

brands_named : All HasBrands (settings loaded)
unfolding settings brands_of load Dict.lookup bool_at
brands_named = ((_, refl), ((_, refl), tt))

secret_there :
    loaded.telegram_bot.enabled ≡ true
    → trim_space (services.getenv loaded.telegram_bot.webhook_secret_env) ≢ ""
unfolding trim_space load Dict.lookup bool_at
secret_there _ h = cc (h)

abbrev last_calls : List Operation
last_calls = (consume willing_client loaded.broker (setup willing_client loaded.broker []).1).1

third_consumes : (try_round loaded.broker (rounds 2)).0 ≡ consumes last_calls
unfolding try_round Broker.connect call then_close or_close
third_consumes = refl

main-serves_example :
    (wired : Wired) × (wire services publisher loaded ≡ ok wired)
    × (main mux "\"dev\"" config_sources services publisher (λ url. none) rounds 3 flags
        ≡ serves (server_of loaded (handler_of mux "\"dev\"" loaded wired.webhook)) wired)
    × (is_some wired.webhook ≡ loaded.telegram_bot.enabled)
main-serves_example =
    main-serves mux "\"dev\"" config_sources services publisher (λ url. none) rounds 2 flags loaded
      last_calls refl refl is_loaded brands_named secret_there (λ k. refl) third_consumes
