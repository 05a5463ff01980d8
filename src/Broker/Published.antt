-- ===== src/Broker/Published.antt =====
-- What the consumer of results and the publications call when they succeed.
use message_delivery.Prelude.{
  String, true, false, ◌≡◌, refl, sym, ◌∙◌, Option, some, List, [], ◌∷◌, ◌++◌, Option-cases, inl,
  inr,
}
use mathlib.Core.List.{append_assoc, append-nil}
use message_delivery.Prelude.Fallible.{ok}
use message_delivery.Config.{BrokerConfig}
use message_delivery.Broker.{
  Client, Calls, Event, Operation, Queue, open_channel, close_channel, queue_declare, consume_queue,
  publish_message, call, bind, publishing, setup, topology, consume_results_temporary, publish,
  declare_temporary, then_close, or_close, ◌>>=◌, ◌>>◌, return, bind_results,
  consume_results_failed, publish_failed, open_publish_channel, open_result_channel,
}
use message_delivery.Broker.Declared.{operations, setup_declares}
use message_delivery.Broker.Made.{
  Makes, >>=-Makes, call-Makes, then_close-Makes, bind_result-ok, close_if_failed-ok,
}

-- The queue without a name that is declared for results.
abbrev pub temporary_queue : Queue
temporary_queue = record {
  name = "";
  durable = false;
  auto_delete = true;
  exclusive = true;
  no_wait = false;
  args = [];
}

-- The calls of a consumer of results, with the name that its queue was given.
abbrev pub result_operations : BrokerConfig → String → List Operation
result_operations cfg name =
    open_channel
    ∷ queue_declare temporary_queue
    ∷ bind name cfg.routing_keys.delivery_result cfg.exchange_name
    ∷ consume_queue (record { queue = name; auto_ack = true; exclusive = true })
    ∷ []

-- The calls of a publication.
abbrev pub publish_operations : BrokerConfig → String → String → List Operation
publish_operations cfg routing_key body =
    open_channel
    ∷ publish_message (record {
      exchange = cfg.exchange_name;
      routing_key = routing_key;
      mandatory = false;
      immediate = false;
      publishing = publishing body;
    })
    ∷ close_channel
    ∷ []

pub setup-Makes :
    (client : Client) (cfg : BrokerConfig)
    → Makes
        (setup client cfg)
        (λ _. open_channel ∷ (operations (topology cfg) ++ close_channel ∷ []))
setup-Makes client cfg past tt h = setup_declares client cfg past h

-- The calls that follow on the queue's declaration, and the operations of theirs.
abbrev bound : BrokerConfig → String → Operation
bound cfg name = bind name cfg.routing_keys.delivery_result cfg.exchange_name

abbrev consumed : String → Operation
consumed name = consume_queue (record { queue = name; auto_ack = true; exclusive = true })

abbrev bind_and_consume : Client → BrokerConfig → String → Calls String
bind_and_consume client cfg name =
    call client (bound cfg name) bind_results
    >> (call client (consumed name) consume_results_failed >> return name)

bind_and_consume-Makes :
    (client : Client) (cfg : BrokerConfig) (name : String)
    → Makes (bind_and_consume client cfg name) (λ _. bound cfg name ∷ consumed name ∷ [])
bind_and_consume-Makes client cfg name past a h =
    let consume : Calls (Unit {0}) = call client (consumed name) consume_results_failed in
    (>>=-Makes (call client (bound cfg name) bind_results) (λ _. consume >> return name)
      (λ _. bound cfg name ∷ []) (λ _ _. consumed name ∷ [])
      (call-Makes client (bound cfg name) bind_results)
      (λ _ before b made.
        (>>=-Makes consume (λ _. return name) (λ _. consumed name ∷ []) (λ _ _. [])
          (call-Makes client (consumed name) consume_results_failed)
          (λ _ last _ _. sym (append-nil last)) before b made).1)
      past a h).1

declare_temporary-Makes :
    (client : Client) → Makes (declare_temporary client) (λ _. queue_declare temporary_queue ∷ [])
unfolding declare_temporary
declare_temporary-Makes client past a h = refl

-- A consumer of results that is there has made its calls, for one name.
pub consume_results_made :
    (client : Client) (cfg : BrokerConfig) (past : List Operation) (queue : String)
    → (consume_results_temporary client cfg past).0 ≡ ok queue
    → (name : String) × ((consume_results_temporary client cfg past).1
        ≡ past ++ result_operations cfg name)
unfolding consume_results_temporary or_close call
consume_results_made client cfg past queue h =
    let after : List Operation = past ++ open_channel ∷ [] in
    let rest : Calls String = declare_temporary client >>= bind_and_consume client cfg in
    let (_, _, h1, on_channel) =
      bind_result-ok (call client open_channel open_result_channel past).0 after
        (λ _. or_close client rest) queue h in
    let (h2, kept) = close_if_failed-ok (rest after).0 (rest after).1 queue h1 in
    let (name, made) =
      >>=-Makes (declare_temporary client) (bind_and_consume client cfg)
        (λ _. queue_declare temporary_queue ∷ []) (λ given _. bound cfg given ∷ consumed given ∷ [])
        (declare_temporary-Makes client) (bind_and_consume-Makes client cfg) after queue h2 in
    (
      name,
      on_channel
          ∙ kept
          ∙ made
          ∙ append_assoc past (open_channel ∷ [])
              (queue_declare temporary_queue ∷ bound cfg name ∷ consumed name ∷ []),
    )

-- The operation that publishes a body.
abbrev pub published : BrokerConfig → String → String → Operation
published cfg routing_key body = publish_message (record {
  exchange = cfg.exchange_name;
  routing_key = routing_key;
  mandatory = false;
  immediate = false;
  publishing = publishing body;
})

-- A publication that succeeds has made its calls, with the body that the event is encoded to.
pub publish_made :
    (client : Client) (marshal : Event → Option String) (cfg : BrokerConfig) (routing_key : String)
    (event : Event) (past : List Operation)
    → (publish client marshal cfg routing_key event past).0 ≡ ok tt
    → (body : String) × (marshal event ≡ some body)
      × ((publish client marshal cfg routing_key event past).1
          ≡ past ++ publish_operations cfg routing_key body)
unfolding publish
publish_made client marshal cfg routing_key event past h = elim (Option-cases (marshal event)) [
  | inl unmarshalled ↦ cc (rw (unmarshalled, publish) at h)
  | inr (body, marshalled) ↦
      let send : Calls (Unit {0}) = call client (published cfg routing_key body) publish_failed in
      let opening : Calls (Unit {0}) = call client open_channel open_publish_channel in
      let made =
        >>=-Makes opening (λ _. then_close client send) (λ _. open_channel ∷ [])
          (λ _ _. published cfg routing_key body ∷ close_channel ∷ [])
          (call-Makes client open_channel open_publish_channel)
          (λ _.
            then_close-Makes client send (λ _. published cfg routing_key body ∷ [])
              (call-Makes client (published cfg routing_key body) publish_failed))
          past tt in
      (body, marshalled, rw (marshalled, publish) (made (rw (marshalled, publish) at h)).1)
]
