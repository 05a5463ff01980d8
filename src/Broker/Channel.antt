-- ===== src/Broker/Channel.antt =====
-- The calls of the AMQP client that internal/broker/broker.go makes, and their order.
use message_delivery.Prelude.{ℕ, String, Bool, List, [], ◌∷◌, ◌++◌, if◌then◌else◌}
use message_delivery.Prelude.Int.{ℤ}
use message_delivery.Prelude.Fallible.{Fallible, ok, err}

pub record Exchange : Type 0 where
  pub name : String
  pub kind : String
  pub durable : Bool
  pub auto_delete : Bool
  pub internal : Bool
  pub no_wait : Bool

pub record Queue : Type 0 where
  pub name : String
  pub durable : Bool
  pub auto_delete : Bool
  pub exclusive : Bool
  pub no_wait : Bool
  pub args : List (String × String)

pub record Binding : Type 0 where
  pub queue : String
  pub routing_key : String
  pub exchange : String
  pub no_wait : Bool

pub record Consumer : Type 0 where
  pub queue : String
  pub auto_ack : Bool
  pub exclusive : Bool

-- The arguments that are the same in all calls are left out: no consumer tag, no size of the window,
-- and the remaining flags false.
-- `amqp.Persistent`
abbrev pub persistent : ℕ
persistent = 2

pub record Publishing : Type 0 where
  pub content_type : String
  pub delivery_mode : ℕ
  pub body : String

pub record Publication : Type 0 where
  pub exchange : String
  pub routing_key : String
  pub mandatory : Bool
  pub immediate : Bool
  pub publishing : Publishing

pub data Operation : Type 0 where
  open_channel : Operation
  close_channel : Operation
  exchange_declare : Exchange → Operation
  queue_declare : Queue → Operation
  queue_bind : Binding → Operation
  qos : ℤ → Operation
  consume_queue : Consumer → Operation
  publish_message : Publication → Operation

-- One constructor for each error of the file; the last stands for what `PublishWithContext` returns.
pub data BrokerError : Type 0 where
  open_setup_channel declare_exchange declare_dlq bind_dlq declare_queue bind_queue : BrokerError
  open_consume_channel set_qos consume_failed : BrokerError
  open_result_channel declare_results bind_results consume_results_failed : BrokerError
  marshal_event open_publish_channel publish_failed : BrokerError

-- The client and the broker behind it: whether a call succeeds, by the calls before it, and the name
-- that the server gives to a queue that is declared without one.
pub record Client : Type 0 where
  pub succeeds : List Operation → Operation → Bool
  pub server_name : List Operation → String

-- A computation that makes calls, the calls so far being its state.
abbrev pub Calls {ℓ} : Type ℓ → Type ℓ
Calls A = List Operation → Fallible BrokerError A × List Operation

abbrev pub return {ℓ} : {A : Type ℓ} → A → Calls A
return a past = (ok a, past)

abbrev pub fail {ℓ} : {A : Type ℓ} → BrokerError → Calls A
fail e past = (err e, past)

abbrev pub bind_result {ℓ κ} :
    {A : Type ℓ} {B : Type κ}
    → Fallible BrokerError A
    → List Operation
    → (A → Calls B)
    → Fallible BrokerError B × List Operation
bind_result (ok a) past f = f a past
bind_result (err e) past f = (err e, past)

infixl 5 ◌>>=◌ ◌>>◌
abbrev pub ◌>>=◌ {ℓ κ} : {A : Type ℓ} {B : Type κ} → Calls A → (A → Calls B) → Calls B
◌>>=◌ m f past = let (r, past') = m past in bind_result r past' f

abbrev pub ◌>>◌ {ℓ} : {B : Type ℓ} → Calls (Unit {0}) → Calls B → Calls B
m >> k = m >>= λ _. k

-- One call, and the error that its failure leads to.
unfoldable pub call : Client → Operation → BrokerError → Calls (Unit {0})
call client operation e past =
    (if client.succeeds past operation then ok tt else err e, past ++ operation ∷ [])

-- The temporary queue: not durable, deleted with its only consumer, with the name that the server
-- gives it.
unfoldable pub declare_temporary : Client → Calls String
declare_temporary client past =
    let operation = queue_declare (record {
      name = "";
      durable = Bool.false;
      auto_delete = Bool.true;
      exclusive = Bool.true;
      no_wait = Bool.false;
      args = [];
    }) in
    (
      if client.succeeds past operation then ok (client.server_name past) else err declare_results,
      past ++ operation ∷ [],
    )

-- `defer ch.Close()`, whose error is dropped.
unfoldable pub then_close {ℓ} : {A : Type ℓ} → Client → Calls A → Calls A
then_close client m past = let (r, past') = m past in (r, past' ++ close_channel ∷ [])

abbrev pub close_if_failed {ℓ} :
    {A : Type ℓ} → Fallible BrokerError A → List Operation → Fallible BrokerError A × List Operation
close_if_failed (ok a) past = (ok a, past)
close_if_failed (err e) past = (err e, past ++ close_channel ∷ [])

-- `_ = ch.Close()` before each return of an error.
unfoldable pub or_close {ℓ} : {A : Type ℓ} → Client → Calls A → Calls A
or_close client m past = let (r, past') = m past in close_if_failed r past'
