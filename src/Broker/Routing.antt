-- ===== src/Broker/Routing.antt =====
-- Which queues the setup binds, and by which keys.
use Prim.Native.String.{len, ◌++◌ as ◌<>◌}
use text.Mathlib.TextPositions.{len-append}
use message_delivery.Prelude.{
  String, false, ◌&&◌, ◌==◌, eq_iff, eq_refl, ◌≡◌, ap, List, [], ◌∷◌, arith, if◌then◌else◌, ◌≢◌,
}
use message_delivery.Prelude.Dict
use message_delivery.Config.{BrokerConfig}
use message_delivery.Broker.{
  Operation, queue_bind, queue_declare, exchange_declare, open_channel, close_channel, qos,
  consume_queue, publish_message, topology, dlq_name, dlq_routing_key,
}
use message_delivery.Broker.Declared.{operations}

-- The queues that are bound to an exchange by a key.
abbrev pub queues_of : String → String → List Operation → List String
queues_of exchange key [] = []
queues_of exchange key (queue_bind b ∷ ops) =
    let rest = queues_of exchange key ops in
    if b.exchange == exchange && b.routing_key == key then b.queue ∷ rest else rest
queues_of exchange key (open_channel ∷ ops) = queues_of exchange key ops
queues_of exchange key (close_channel ∷ ops) = queues_of exchange key ops
queues_of exchange key (exchange_declare e ∷ ops) = queues_of exchange key ops
queues_of exchange key (queue_declare q ∷ ops) = queues_of exchange key ops
queues_of exchange key (qos n ∷ ops) = queues_of exchange key ops
queues_of exchange key (consume_queue c ∷ ops) = queues_of exchange key ops
queues_of exchange key (publish_message p ∷ ops) = queues_of exchange key ops

-- The arguments with which a queue is declared.
abbrev pub arguments_of : String → List Operation → List (String × String)
arguments_of name [] = []
arguments_of name (queue_declare q ∷ ops) =
    let rest = arguments_of name ops in if q.name == name then q.args else rest
arguments_of name (open_channel ∷ ops) = arguments_of name ops
arguments_of name (close_channel ∷ ops) = arguments_of name ops
arguments_of name (exchange_declare e ∷ ops) = arguments_of name ops
arguments_of name (queue_bind b ∷ ops) = arguments_of name ops
arguments_of name (qos n ∷ ops) = arguments_of name ops
arguments_of name (consume_queue c ∷ ops) = arguments_of name ops
arguments_of name (publish_message p ∷ ops) = arguments_of name ops

-- The queues that are bound by the exchange and the key that a queue names for its dead letters.
abbrev pub dead_letter_queues : String → List Operation → List String
dead_letter_queues name ops =
    let args : List (String × String) = arguments_of name ops in
    queues_of (Dict.index "x-dead-letter-exchange" args)
      (Dict.index "x-dead-letter-routing-key" args) ops

longer_differs : (s t : String) → len t ≢ 0 → s <> t ≢ s
longer_differs s t h = λ same. h (omega (arith, ap len same, len-append s t))

differs_sym : (s t : String) → s ≢ t → ((s == t) ≡ false) × ((t == s) ≡ false)
differs_sym s t h = (ground (arith, eq_iff s t), ground (arith, eq_iff t s))

-- Whatever the names of the configuration, the queue of requests is the only one that the setup binds
-- by the key of requests, and the queue of dead letters is the only one that it binds by the exchange
-- and the key that the queue of requests names for its dead letters.
pub topology_routes :
    (cfg : BrokerConfig)
    → (queues_of cfg.exchange_name cfg.routing_keys.delivery_requested (operations (topology cfg))
        ≡ cfg.consume_queue ∷ [])
      × (dead_letter_queues cfg.consume_queue (operations (topology cfg)) ≡ dlq_name cfg ∷ [])
unfolding topology Dict.index Dict.lookup
topology_routes cfg =
    let key : String = cfg.routing_keys.delivery_requested in
    let (dead, alive) =
      differs_sym (dlq_routing_key cfg) key (longer_differs key ".dead" (λ h. omega arith)) in
    let (dlq, queue) =
      differs_sym (dlq_name cfg) cfg.consume_queue
        (longer_differs cfg.consume_queue ".dlq" (λ h. omega arith)) in
    (
      rw (eq_refl cfg.exchange_name, eq_refl key, dead),
      rw (dlq, eq_refl cfg.consume_queue)
          (rw (eq_refl cfg.exchange_name, eq_refl (dlq_routing_key cfg), alive)),
    )
