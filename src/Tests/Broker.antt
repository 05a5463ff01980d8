-- ===== src/Tests/Broker.antt =====
-- A broker that does what it is asked, and one that refuses all calls but the first.
use message_delivery.Prelude.{true, ◌≡◌, refl, [], ◌∷◌, length, ltb}
use message_delivery.Prelude.Int.{pos}
use message_delivery.Prelude.Fallible.{err}
use message_delivery.Config.{BrokerConfig}
use message_delivery.Broker.{Client, setup, topology, dlq_name, declare_exchange}
use message_delivery.Broker
use message_delivery.Broker.Declared.{operations}
use message_delivery.Broker.SetUp.{IsSetUp, setup-IsSetUp}
use message_delivery.Broker.Routing.{queues_of, dead_letter_queues, topology_routes}

abbrev pub broker : BrokerConfig
broker = record {
  host = "127.0.0.1:5672";
  user = "guest";
  password = "guest";
  password_env = "";
  exchange_name = "messages.events";
  exchange_kind = "topic";
  consume_queue = "requests";
  prefetch_count = pos 8;
  routing_keys = record {
    delivery_requested = "requested";
    delivery_result = "result";
    telegram_connection_requested = "connection";
  };
}

abbrev pub willing_client : Client
willing_client = record { succeeds = λ past operation. true; server_name = λ past. "amq.gen-1" }

-- One call succeeds.
abbrev pub tired_client : Client
tired_client = record {
  succeeds = λ past operation. ltb (length past) 1;
  server_name = λ past. "amq.gen-1";
}

setup_stops : (setup tired_client broker []).0 ≡ err declare_exchange
unfolding setup Broker.call Broker.then_close
setup_stops = refl

setup-IsSetUp_example :
    IsSetUp tired_client broker [] (setup tired_client broker []).0 (setup tired_client broker []).1
setup-IsSetUp_example = setup-IsSetUp tired_client broker []

topology_routes_example :
    (queues_of broker.exchange_name broker.routing_keys.delivery_requested
        (operations (topology broker))
      ≡ broker.consume_queue ∷ [])
    × (dead_letter_queues broker.consume_queue (operations (topology broker))
        ≡ dlq_name broker ∷ [])
topology_routes_example = topology_routes broker
