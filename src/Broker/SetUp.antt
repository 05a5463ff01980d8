-- ===== src/Broker/SetUp.antt =====
-- What the setup of the broker asks for, in which order, and how it ends.
use Prim.Native.String.{◌++◌ as ◌<>◌}
use message_delivery.Prelude.{
  String, Bool, true, false, ◌==◌, ◌≡◌, refl, any, eq_refl, List, [], ◌∷◌, ◌++◌, All, arith,
}
use message_delivery.Prelude.Fallible.{Fallible, err}
use message_delivery.Config.{BrokerConfig}
use message_delivery.Broker.{
  Client, Operation, BrokerError, Exchange, Queue, Binding, exchange_declare, queue_declare,
  queue_bind, open_channel, close_channel, open_setup_channel, declare_exchange, declare_dlq,
  bind_dlq, declare_queue, bind_queue, topology, dlq_name, setup,
}
use message_delivery.Broker.Declared.{Ran, IsRun, no_channel, on_channel, setup-IsRun, operations}
use message_delivery.Broker.Routing.{queues_of, dead_letter_queues, topology_routes}

-- An operation declares an exchange, or a queue, of a name.
abbrev is_exchange : String → Operation → Bool
is_exchange name (exchange_declare x) = x.name == name
is_exchange name _ = false

abbrev is_queue : String → Operation → Bool
is_queue name (queue_declare q) = q.name == name
is_queue name _ = false

-- What the setup may ask for behind other calls: the exchange of the configuration, durable; a
-- durable queue that outlives its consumers and is nobody's own; a binding of a queue to an exchange
-- that were both declared before.
pub data IsAsked (cfg : BrokerConfig) (before : List Operation) : Operation → Type 0 where
  exchange :
      (x : Exchange)
      → x.name ≡ cfg.exchange_name
      → x.kind ≡ cfg.exchange_kind
      → x.durable ≡ true
      → x.auto_delete ≡ false
      → IsAsked cfg before (exchange_declare x)
  queue :
      (q : Queue)
      → q.durable ≡ true
      → q.auto_delete ≡ false
      → q.exclusive ≡ false
      → IsAsked cfg before (queue_declare q)
  binding :
      (b : Binding)
      → any (is_queue b.queue) before ≡ true
      → any (is_exchange b.exchange) before ≡ true
      → IsAsked cfg before (queue_bind b)

abbrev pub AreAsked : BrokerConfig → List Operation → List Operation → Type 0
AreAsked cfg before [] = Unit
AreAsked cfg before (operation ∷ ops) =
    IsAsked cfg before operation × AreAsked cfg (before ++ operation ∷ []) ops

-- The error by which the failure of a call is told.
pub data IsErrorOf (cfg : BrokerConfig) : Operation → BrokerError → Type 0 where
  of_exchange : (x : Exchange) → IsErrorOf cfg (exchange_declare x) declare_exchange
  of_dlq : (q : Queue) → q.name ≡ dlq_name cfg → IsErrorOf cfg (queue_declare q) declare_dlq
  of_queue :
      (q : Queue) → q.name ≡ cfg.consume_queue → IsErrorOf cfg (queue_declare q) declare_queue
  of_dlq_binding : (b : Binding) → b.queue ≡ dlq_name cfg → IsErrorOf cfg (queue_bind b) bind_dlq
  of_binding : (b : Binding) → b.queue ≡ cfg.consume_queue → IsErrorOf cfg (queue_bind b) bind_queue

-- Calls that set the broker up, each with its error: what is bound is declared before, requests go to
-- the queue of requests alone, and what this queue gives up goes to the queue of dead letters alone.
pub record IsTopology (cfg : BrokerConfig) (calls : List (Operation × BrokerError)) : Type 0 where
  pub asked : AreAsked cfg [] (operations calls)
  pub errors : All (λ c. IsErrorOf cfg c.0 c.1) calls
  pub requests :
      queues_of cfg.exchange_name cfg.routing_keys.delivery_requested (operations calls)
      ≡ cfg.consume_queue ∷ []
  pub dead_letters :
      dead_letter_queues cfg.consume_queue (operations calls) ≡ (cfg.consume_queue <> ".dlq") ∷ []

topology-IsTopology : (cfg : BrokerConfig) → IsTopology cfg (topology cfg)
unfolding topology
topology-IsTopology cfg =
    let there = eq_refl cfg.exchange_name in
    let dlq = eq_refl (dlq_name cfg) in
    let requests = eq_refl cfg.consume_queue in
    record {
      asked = (
        exchange _ refl refl refl refl,
        (
          queue _ refl refl refl,
          (
            binding _ (ground (arith, dlq)) (ground (arith, there)),
            (
              queue _ refl refl refl,
              (binding _ (ground (arith, requests)) (ground (arith, there)), tt),
            ),
          ),
        ),
      );
      errors = (
        of_exchange _,
        (of_dlq _ refl, (of_dlq_binding _ refl, (of_queue _ refl, (of_binding _ refl, tt)))),
      );
      requests = (topology_routes cfg).0;
      dead_letters = (topology_routes cfg).1;
    }

-- The ends of a setup: without a channel; or with the calls that set the broker up made in order, up
-- to the first that fails, and the channel closed.
pub data IsSetUp (client : Client) (cfg : BrokerConfig) (past : List Operation)
    (r : Fallible BrokerError (Unit {0})) (after : List Operation) : Type 0 where
  unopened :
      client.succeeds past open_channel ≡ false
      → r ≡ err open_setup_channel
      → after ≡ past ++ open_channel ∷ []
      → IsSetUp client cfg past r after
  opened :
      (calls : List (Operation × BrokerError)) (inside : List Operation)
      → client.succeeds past open_channel ≡ true
      → IsTopology cfg calls
      → Ran client calls (past ++ open_channel ∷ []) r inside
      → after ≡ inside ++ close_channel ∷ []
      → IsSetUp client cfg past r after

IsRun-IsSetUp :
    (client : Client) (cfg : BrokerConfig) (past : List Operation)
    (r : Fallible BrokerError (Unit {0})) (after : List Operation)
    → IsRun client cfg past r after
    → IsSetUp client cfg past r after
IsRun-IsSetUp client cfg past r after (no_channel refused ended calls) =
    unopened refused ended calls
IsRun-IsSetUp client cfg past r after (on_channel inside fine ran calls) =
    opened (topology cfg) inside fine (topology-IsTopology cfg) ran calls

-- Without a channel the setup makes no other call. Otherwise it makes calls in order, up to the first
-- that fails, returns the error that tells of this one, and closes the channel. These calls declare
-- what they bind before they bind it, all of it durable; all of them together bind the queue of
-- requests alone by the key of requests, and the queue of dead letters alone by the exchange and the
-- key that the queue of requests names for its dead letters.
pub setup-IsSetUp :
    (client : Client) (cfg : BrokerConfig) (past : List Operation)
    → IsSetUp client cfg past (setup client cfg past).0 (setup client cfg past).1
setup-IsSetUp client cfg past = IsRun-IsSetUp client cfg past _ _ (setup-IsRun client cfg past)
