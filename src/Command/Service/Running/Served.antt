-- ===== src/Command/Service/Running/Served.antt =====
-- What the broker has been told of each delivery that is settled.
use message_delivery.Prelude.{
  String, ◌≡◌, refl, ap, Bool, true, false, Option, List, [], ◌∷◌, ◌++◌, inl, inr,
}
use message_delivery.Prelude.Fallible.{Fallible, ok, err, Fallible-cases}
use message_delivery.Config.{BrokerConfig}
use message_delivery.Delivery.Event.{RequestEvent, ResultEvent, RequestError, decode_request}
use message_delivery.Delivery.Orchestrator.{World, Env, Orchestrator, Publication}
use message_delivery.Delivery.Orchestrator.Publishing.{handle_asks_publisher, outcome}
use message_delivery.Broker.{Client, Event, Operation, BrokerError, result, publish_result}
use message_delivery.Broker.Ended.{IsPublished, publish-IsPublished}
use message_delivery.Worker.{Signal, Settlement, ack, nack, settle, handle_delivery, run}
use message_delivery.Worker.Once.{start}
use message_delivery.Worker.Settlements.{taken}
use message_delivery.Command.Service.Running.{
  calls_of, calls, broker_publisher, with_broker, run_worker, succeeded,
}

calls_of-append :
    (client : Client) (marshal : Event → Option String) (cfg : BrokerConfig) (ps : List Publication)
    (p : Publication) (before : List Operation)
    → calls_of client marshal cfg (ps ++ p ∷ []) before
      ≡ (publish_result client marshal cfg p.event (calls_of client marshal cfg ps before)).1
unfolding calls_of
calls_of-append client marshal cfg [] p before = refl
calls_of-append client marshal cfg (q ∷ ps) p before =
    calls_of-append client marshal cfg ps p (publish_result client marshal cfg q.event before).1

module _ {ℓ} {Body : Type ℓ} (client : Client) (marshal : Event → Option String)
    (cfg : BrokerConfig) (unmarshal : Body → Option RequestEvent) where
  -- The end of a publication of a result, with the key of results.
  abbrev ResultEnds :
      ResultEvent → List Operation → Fallible BrokerError (Unit {0}) → List Operation → Type 0
  ResultEnds event past r after =
      IsPublished client marshal cfg cfg.routing_keys.delivery_result (result event) past r after

  -- How a delivery is settled, and the calls of the broker that this takes: an invalid one is
  -- rejected without a call; of a valid one a result with its event id is published, and it is
  -- acknowledged if that succeeds, and else handed back.
  pub data Settles (past : List Operation) (body : Body) (settlement : Settlement)
      (after : List Operation) : Type ℓ where
    rejected :
        (problem : RequestError)
        → decode_request unmarshal body ≡ err problem
        → settlement ≡ nack false
        → after ≡ past
        → Settles past body settlement after
    acknowledged :
        (event : RequestEvent) (answer : ResultEvent)
        → decode_request unmarshal body ≡ ok event
        → answer.request_event_id ≡ event.event_id
        → ResultEnds answer past (ok tt) after
        → settlement ≡ ack
        → Settles past body settlement after
    handed_back :
        (event : RequestEvent) (answer : ResultEvent) (e : BrokerError)
        → decode_request unmarshal body ≡ ok event
        → answer.request_event_id ≡ event.event_id
        → ResultEnds answer past (err e) after
        → settlement ≡ nack true
        → Settles past body settlement after

  -- Deliveries settled one after the other.
  pub data Serves : List Operation → List Body → List Settlement → List Operation → Type ℓ where
    idle : {past : List Operation} → Serves past [] [] past
    settled :
        {past during after : List Operation} {body : Body} {bodies : List Body}
        {settlement : Settlement} {settlements : List Settlement}
        → Settles past body settlement during
        → Serves during bodies settlements after
        → Serves past (body ∷ bodies) (settlement ∷ settlements) after

  -- The settlement by the end of the publication.
  settle-Settles :
      {past after : List Operation} {body : Body} (event : RequestEvent) (answer : ResultEvent)
      (r : Fallible BrokerError (Unit {0}))
      → decode_request unmarshal body ≡ ok event
      → answer.request_event_id ≡ event.event_id
      → ResultEnds answer past r after
      → Settles past body
          (settle (outcome (record { event = answer; accepted = succeeded r })))
          after
  settle-Settles event answer (ok tt) read same ends = acknowledged event answer read same ends refl
  settle-Settles event answer (err e) read same ends =
      handed_back event answer e read same ends refl

  module _ (before : List Operation) (env : Env) (o : Orchestrator) where
    -- The state behind a publication tells of its calls.
    published-Settles :
        (body : Body) (w w' : World) (event : RequestEvent) (answer : ResultEvent)
        → decode_request unmarshal body ≡ ok event
        → answer.request_event_id ≡ event.event_id
        → w'.published ≡ w.published
        → Settles
            (calls client marshal cfg before w)
            body
            (settle (
              outcome (record {
                event = answer;
                accepted = broker_publisher client marshal cfg before w' answer;
              })))
            (calls client marshal cfg before (record w' {
              published =
                  w.published
                  ++ record {
                    event = answer;
                    accepted = broker_publisher client marshal cfg before w' answer;
                  }
                    ∷ [];
            }))
    unfolding broker_publisher
    published-Settles body w w' event answer read named same =
        let past : List Operation = calls_of client marshal cfg w.published before in
        let ended : Fallible BrokerError (Unit {0}) × List Operation =
          publish_result client marshal cfg answer past in
        let accepted =
          ap
            (λ l.
              succeeded
                (publish_result client marshal cfg answer (calls_of client marshal cfg l before)).0)
            same in
        rw
          (
            accepted,
            calls_of-append client marshal cfg w.published
                (record { event = answer; accepted = succeeded ended.0 }) before,
          )
          (settle-Settles event answer ended.0 read named (
            publish-IsPublished client marshal cfg cfg.routing_keys.delivery_result (result answer)
              past))

    decoded-Settles :
        (body : Body) (w : World) (event : RequestEvent)
        → decode_request unmarshal body ≡ ok event
        → Settles
            (calls client marshal cfg before w)
            body
            (handle_delivery (with_broker client marshal cfg before env) o unmarshal body w).0
            (calls client marshal cfg before
              (handle_delivery (with_broker client marshal cfg before env) o unmarshal body w).1)
    unfolding handle_delivery
    decoded-Settles body w event read =
        let env' : Env = with_broker client marshal cfg before env in
        let publisher : World → ResultEvent → Bool = broker_publisher client marshal cfg before in
        let (answer, w', same, named, handled) =
          handle_asks_publisher env' o event w publisher refl in
        rw read (rw handled (published-Settles body w w' event answer read named same))

    -- A delivery, in any state of the worker.
    pub delivery-Settles :
        (body : Body) (w : World)
        → Settles
            (calls client marshal cfg before w)
            body
            (handle_delivery (with_broker client marshal cfg before env) o unmarshal body w).0
            (calls client marshal cfg before
              (handle_delivery (with_broker client marshal cfg before env) o unmarshal body w).1)
    unfolding handle_delivery
    delivery-Settles body w = elim (Fallible-cases (decode_request unmarshal body)) [
      | inl (event, read) ↦ decoded-Settles body w event read
      | inr (problem, unread) ↦ rw unread (rejected problem unread refl refl)
    ]

    -- With no publication so far the calls are those that were made before.
    pub calls_none :
        (w : World) → calls client marshal cfg before (record w { published = [] }) ≡ before
    unfolding calls calls_of
    calls_none w = refl

    run-Serves :
        (signals : List (Signal Body)) (w : World)
        → Serves
            (calls client marshal cfg before w)
            (taken (with_broker client marshal cfg before env) o unmarshal signals)
            (run (with_broker client marshal cfg before env) o unmarshal signals w).0
            (calls client marshal cfg before
              (run (with_broker client marshal cfg before env) o unmarshal signals w).1)
    unfolding run
    run-Serves [] w = idle
    run-Serves (Signal.cancelled ∷ signals) w = idle
    run-Serves (Signal.closed ∷ signals) w = idle
    run-Serves (Signal.delivery body ∷ signals) w =
        settled (delivery-Settles body w) (run-Serves signals _)

  -- A worker with the broker as its publisher takes each delivery before it stops, in order, and
  -- these calls of the broker are all that it makes: for an invalid request none, and the delivery is
  -- rejected for good; for a valid one a result with its event id is encoded and published with the
  -- key of results, on a channel of its own that is closed after it. The delivery is acknowledged
  -- exactly if the client took that publication, and else handed back to the queue.
  pub run_worker-Serves :
      (before : List Operation) (env : Env) (o : Orchestrator) (signals : List (Signal Body))
      → Serves before
          (taken (with_broker client marshal cfg before env) o unmarshal signals)
          (run_worker client marshal cfg before env o unmarshal signals).0
          (calls client marshal cfg before
            (run_worker client marshal cfg before env o unmarshal signals).1)
  unfolding run_worker calls calls_of
  run_worker-Serves before env o signals = run-Serves before env o signals start
