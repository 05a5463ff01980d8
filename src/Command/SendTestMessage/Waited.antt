-- ===== src/Command/SendTestMessage/Waited.antt =====
-- What the program waits for, and that it listens before it publishes.
use mathlib.Core.List.{append_assoc}
use message_delivery.Prelude.{
  String, Bool-cases, Option-cases, inl, inr, true, false, ◌==◌, eq_iff, ◌≡◌, ◌≢◌, ◌↔◌, refl, sym,
  ap, ◌∙◌, Option, some, List, [], ◌∷◌, ◌++◌, arith,
}
use message_delivery.Prelude.Fallible.{ok}
use message_delivery.Config.{Config, BrokerConfig}
use message_delivery.Delivery.Event.{RequestEvent, ResultEvent}
use message_delivery.Broker
use message_delivery.Broker.{
  Client, Calls, Event, Operation, open_channel, close_channel, topology, setup, request,
  consume_results_temporary, publish_request, then_close,
}
use message_delivery.Broker.Declared.{operations}
use message_delivery.Broker.Made.{bind_result-ok}
use message_delivery.Broker.Published.{
  setup-Makes, result_operations, publish_operations, consume_results_made, publish_made,
}
use message_delivery.Command.SendTestMessage.{
  Arrival, done, closed, message, wait_for_result, exchange,
}

-- The result is the first message that tells of the request, and the messages before it are results
-- of other requests.
pub data IsFirst {ℓ} {Body : Type ℓ} (decode : Body → Option ResultEvent) (id : String)
    (result : ResultEvent) : List (Arrival Body) → Type ℓ where
  here :
      {rest : List (Arrival Body)} (body : Body)
      → decode body ≡ some result
      → result.request_event_id ≡ id
      → IsFirst decode id result (message body ∷ rest)
  later :
      {rest : List (Arrival Body)} (body : Body) (other : ResultEvent)
      → decode body ≡ some other
      → other.request_event_id ≢ id
      → IsFirst decode id result rest
      → IsFirst decode id result (message body ∷ rest)

wait_for_result-IsFirst {ℓ} :
    {Body : Type ℓ} (decode : Body → Option ResultEvent) (arrivals : List (Arrival Body))
    (id : String) (result : ResultEvent)
    → wait_for_result decode arrivals id ≡ some (ok result)
    → IsFirst decode id result arrivals
unfolding wait_for_result
wait_for_result-IsFirst decode [] id result h = cc (h)
wait_for_result-IsFirst decode (done ∷ rest) id result h = cc (h)
wait_for_result-IsFirst decode (closed ∷ rest) id result h = cc (h)
wait_for_result-IsFirst decode (message body ∷ rest) id result h =
    elim (Option-cases (decode body)) [
      | inl garbled ↦ cc (rw (garbled, wait_for_result) at h)
      | inr (found, decoded) ↦ elim (Bool-cases (found.request_event_id == id)) [
        | inl same ↦
            let answer : found ≡ result = cc (rw (decoded, same, wait_for_result) at h) in
            here body (decoded ∙ ap (λ r. some r) answer) (
              ap (λ r. r.request_event_id) (sym answer) ∙ (eq_iff found.request_event_id id).0 same)
        | inr other ↦ later body found decoded (ground (arith, eq_iff found.request_event_id id)) (
            wait_for_result-IsFirst decode rest id result
              (rw (decoded, other, wait_for_result) at h))
      ]
    ]

IsFirst-wait_for_result {ℓ} :
    {Body : Type ℓ} (decode : Body → Option ResultEvent) (arrivals : List (Arrival Body))
    (id : String) (result : ResultEvent)
    → IsFirst decode id result arrivals
    → wait_for_result decode arrivals id ≡ some (ok result)
unfolding wait_for_result
IsFirst-wait_for_result decode [] id result first = elim first [ ]
IsFirst-wait_for_result decode (done ∷ rest) id result first = elim first [ ]
IsFirst-wait_for_result decode (closed ∷ rest) id result first = elim first [ ]
IsFirst-wait_for_result decode (message body ∷ rest) id result (here _ decoded same) =
    rw (decoded, wait_for_result, (eq_iff result.request_event_id id).1 same) refl
IsFirst-wait_for_result decode (message body ∷ rest) id result
      (later _ other decoded differs first) =
    let different : (other.request_event_id == id) ≡ false =
      ground (arith, eq_iff other.request_event_id id) in
    rw (decoded, different, wait_for_result) (IsFirst-wait_for_result decode rest id result first)

-- The wait ends with a result exactly if this is the first message that tells of the request, every
-- message before it being a result of another request.
pub wait_for_result_iff {ℓ} :
    {Body : Type ℓ} (decode : Body → Option ResultEvent) (arrivals : List (Arrival Body))
    (id : String) (result : ResultEvent)
    → (wait_for_result decode arrivals id ≡ some (ok result)) ↔ IsFirst decode id result arrivals
wait_for_result_iff decode arrivals id result = (
  wait_for_result-IsFirst decode arrivals id result,
  IsFirst-wait_for_result decode arrivals id result,
)

-- All calls of an exchange: the setup, the consumer of results with the name of its queue, and then
-- the publication of the request.
abbrev pub exchange_operations : BrokerConfig → String → String → List Operation
exchange_operations cfg name body =
    (open_channel ∷ (operations (topology cfg) ++ close_channel ∷ []))
    ++ (result_operations cfg name
        ++ (publish_operations cfg cfg.routing_keys.delivery_requested body ++ close_channel ∷ []))

-- Three steps, one after the other, and what comes last.
in_order :
    (past after1 after2 after3 first second third last : List Operation)
    → after1 ≡ past ++ first
    → after2 ≡ after1 ++ second
    → after3 ≡ after2 ++ third
    → after3 ++ last ≡ past ++ (first ++ (second ++ (third ++ last)))
in_order past after1 after2 after3 first second third last h1 h2 h3 =
    rw (h3, h2, h1) (simp (append_assoc))

-- Where the program is to wait and its calls succeed, it has declared the topology, then consumes from
-- a queue that is bound to the key of results, and only then published the request; at last it closes
-- the channel of the consumer.
pub exchange_listens_first :
    (client : Client) (marshal : Event → Option String) (cfg : Config) (event : RequestEvent)
    (past : List Operation)
    → (exchange client marshal cfg true event past).0 ≡ ok tt
    → (name : String) × (body : String) × (marshal (request event) ≡ some body)
      × ((exchange client marshal cfg true event past).1
          ≡ past ++ exchange_operations cfg.broker name body)
unfolding exchange publish_request then_close
exchange_listens_first client marshal cfg event past h =
    let publishing : Calls (Unit {0}) = publish_request client marshal cfg.broker event in
    let listening : Calls (Unit {0}) =
      Broker.◌>>=◌ (consume_results_temporary client cfg.broker)
        (λ queue. then_close client publishing) in
    let (_, is_set_up, h1, same1) =
      bind_result-ok (setup client cfg.broker past).0 (setup client cfg.broker past).1
        (λ _. listening) tt h in
    let after1 : List Operation = (setup client cfg.broker past).1 in
    let (queue, listens, h2, same2) =
      bind_result-ok (consume_results_temporary client cfg.broker after1).0
        (consume_results_temporary client cfg.broker after1).1 (λ _. then_close client publishing)
        tt h1 in
    let after2 : List Operation = (consume_results_temporary client cfg.broker after1).1 in
    let (name, listened) = consume_results_made client cfg.broker after1 queue listens in
    let (body, marshalled, published) =
      publish_made client marshal cfg.broker cfg.broker.routing_keys.delivery_requested
        (request event) after2 h2 in
    let declared = setup-Makes client cfg.broker past tt is_set_up in
    (
      name,
      body,
      marshalled,
      same1
          ∙ same2
          ∙ in_order past after1 after2 (publishing after2).1 _ _ _ (close_channel ∷ []) declared
              listened published,
    )
