-- ===== src/Broker.antt =====
-- internal/broker/broker.go: the topology, the consumers and the publications. The AMQP client is an
-- argument that tells of each call whether it succeeds.
pub mod Channel
pub mod Declared
pub mod Routing
pub mod SetUp
pub mod Made
pub mod Published
pub mod Ended
use Prim.Native.String.{◌++◌ as ◌<>◌}
use message_delivery.Prelude.{String, Bool, true, false, ◌++◌, Option, none, some, List, [], ◌∷◌}
use message_delivery.Prelude.Fallible.{ok}
use message_delivery.Config.{BrokerConfig}
use message_delivery.Delivery.Event.{RequestEvent, ResultEvent, TelegramConnectionRequestedEvent}
unfoldable pub use Channel.*

-- A publication is JSON, and persistent.
abbrev pub publishing : String → Publishing
publishing body = record {
  content_type = "application/json";
  delivery_mode = persistent;
  body = body;
}

-- The events that are published, each as what it is encoded to.
pub data Event : Type 0 where
  request : RequestEvent → Event
  result : ResultEvent → Event
  telegram_connection : TelegramConnectionRequestedEvent → Event

abbrev pub dlq_name : BrokerConfig → String
dlq_name cfg = cfg.consume_queue <> ".dlq"

abbrev pub dlq_routing_key : BrokerConfig → String
dlq_routing_key cfg = cfg.routing_keys.delivery_requested <> ".dead"

-- A durable queue that is nobody's own.
abbrev durable_queue : String → List (String × String) → Operation
durable_queue name args = queue_declare (record {
  name = name;
  durable = true;
  auto_delete = false;
  exclusive = false;
  no_wait = false;
  args = args;
})

abbrev pub bind : String → String → String → Operation
bind queue key exchange =
    queue_bind (record { queue = queue; routing_key = key; exchange = exchange; no_wait = false })

-- What `Setup` declares and binds, in order, each call with the error that its failure leads to.
unfoldable pub topology : BrokerConfig → List (Operation × BrokerError)
topology cfg =
    (
      exchange_declare (record {
        name = cfg.exchange_name;
        kind = cfg.exchange_kind;
        durable = true;
        auto_delete = false;
        internal = false;
        no_wait = false;
      }),
      declare_exchange,
    )
    ∷ (durable_queue (dlq_name cfg) [], declare_dlq)
    ∷ (bind (dlq_name cfg) (dlq_routing_key cfg) cfg.exchange_name, bind_dlq)
    ∷ (
      durable_queue cfg.consume_queue (
          ("x-dead-letter-exchange", cfg.exchange_name)
          ∷ ("x-dead-letter-routing-key", dlq_routing_key cfg)
          ∷ []),
      declare_queue,
    )
    ∷ (bind cfg.consume_queue cfg.routing_keys.delivery_requested cfg.exchange_name, bind_queue)
    ∷ []

-- What is done to connections, in order.
pub data Link : Type 0 where
  dialled closed : Link

-- `Connect`, by whether the dialling succeeds: whether there is a broker.
unfoldable pub connect : Bool → List Link → Bool × List Link
connect true links = (true, links ++ dialled ∷ [])
connect false links = (false, links)

-- `Broker.Close`, by whether there is a broker with a connection.
unfoldable pub close : Bool → List Link → List Link
close true links = links ++ Link.closed ∷ []
close false links = links

module _ (client : Client) where
  -- The calls of a list, up to the first that fails.
  unfoldable pub call_all : List (Operation × BrokerError) → Calls (Unit {0})
  call_all [] = return tt
  call_all ((operation, e) ∷ rest) = do call client operation e; call_all rest

  -- `Broker.Setup`
  unfoldable pub setup : BrokerConfig → Calls (Unit {0})
  unfolding call_all topology
  setup cfg = do
    call client open_channel open_setup_channel
    then_close client (call_all (topology cfg))

  -- `Broker.Consume`: on success the channel stays open, and the caller closes it.
  unfoldable pub consume : BrokerConfig → Calls (Unit {0})
  consume cfg = do
    call client open_channel open_consume_channel
    or_close client do
      call client (qos cfg.prefetch_count) set_qos
      call client
          (consume_queue
            (record { queue = cfg.consume_queue; auto_ack = false; exclusive = false }))
          consume_failed

  -- `Broker.ConsumeResultsTemporary`, with the queue that the server names.
  unfoldable pub consume_results_temporary : BrokerConfig → Calls String
  consume_results_temporary cfg = do
    call client open_channel open_result_channel
    or_close client do
      name ← declare_temporary client
      call client (bind name cfg.routing_keys.delivery_result cfg.exchange_name) bind_results
      call client (consume_queue (record { queue = name; auto_ack = true; exclusive = true }))
          consume_results_failed
      return name

  -- `Broker.publish`
  unfoldable pub publish :
      (Event → Option String) → BrokerConfig → String → Event → Calls (Unit {0})
  publish marshal cfg routing_key event = elim (marshal event) [
    | none ↦ fail marshal_event
    | some body ↦ do
      call client open_channel open_publish_channel
      then_close client (
          call client
            (publish_message (record {
              exchange = cfg.exchange_name;
              routing_key = routing_key;
              mandatory = false;
              immediate = false;
              publishing = publishing body;
            }))
            publish_failed)
  ]

  unfoldable pub publish_request :
      (Event → Option String) → BrokerConfig → RequestEvent → Calls (Unit {0})
  publish_request marshal cfg event =
      publish marshal cfg cfg.routing_keys.delivery_requested (request event)

  unfoldable pub publish_result :
      (Event → Option String) → BrokerConfig → ResultEvent → Calls (Unit {0})
  publish_result marshal cfg event =
      publish marshal cfg cfg.routing_keys.delivery_result (result event)

  unfoldable pub publish_telegram_connection :
      (Event → Option String) → BrokerConfig → TelegramConnectionRequestedEvent → Calls (Unit {0})
  publish_telegram_connection marshal cfg event =
      publish marshal cfg cfg.routing_keys.telegram_connection_requested (telegram_connection event)
