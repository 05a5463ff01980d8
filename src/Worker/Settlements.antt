-- ===== src/Worker/Settlements.antt =====
-- Which deliveries are acknowledged, rejected or handed back.
use message_delivery.Delivery.Event.Valid.{IsValidRequest, decode_request_iff}
use message_delivery.Prelude.{
  ◌≡◌, refl, Bool, true, false, Option, some, List, [], ◌∷◌, ◌++◌, arith, ap, ◌∙◌, if◌then◌else◌,
  ◌↔◌, ◌≢◌, inl, inr,
}
use message_delivery.Prelude.Fallible.{ok, err, Fallible-cases}
use message_delivery.Delivery.Event.{RequestEvent, RequestError, ResultEvent, decode_request}
use message_delivery.Delivery.Orchestrator.{
  World, Env, Orchestrator, Publication, Handled, done, handle, not_published, nil_request,
}
use message_delivery.Delivery.Orchestrator.Publishing.{handle_publishes_once}
use message_delivery.Worker.{
  Signal, cancelled, closed, delivery, Settlement, ack, nack, settle, handle_delivery,
  handle_decoded, run,
}

module _ {ℓ} {Body : Type ℓ} (env : Env) (o : Orchestrator)
    (unmarshal : Body → Option RequestEvent) where
  handle_delivery_invalid :
      (body : Body) (w : World) (problem : RequestError)
      → decode_request unmarshal body ≡ err problem
      → handle_delivery env o unmarshal body w ≡ (nack false, w)
  unfolding handle_delivery handle_decoded
  handle_delivery_invalid body w problem h = rw h

  -- A handled event is never rejected, whatever became of it.
  settle_keeps : (h : Handled) → settle h ≢ nack false
  settle_keeps nil_request h = cc (h)
  settle_keeps (done result) h = cc (h)
  settle_keeps (not_published result) h = cc (h)

  handle_delivery_keeps :
      (body : Body) (w : World) (event : RequestEvent)
      → decode_request unmarshal body ≡ ok event
      → (handle_delivery env o unmarshal body w).0 ≢ nack false
  unfolding handle_delivery handle_decoded
  handle_delivery_keeps body w event h = rw h (settle_keeps (handle env o (some event) w).0)

  -- A delivery is rejected for good exactly if its body cannot be read as a request or the request does
  -- not meet the contract, whatever the orchestrator makes of the others; and a rejected delivery
  -- changes nothing: no provider is called, no event is marked and no result is published.
  pub handle_delivery_rejects_iff :
      (body : Body) (w : World)
      → (((handle_delivery env o unmarshal body w).0 ≡ nack false)
          ↔ ((event : RequestEvent) → unmarshal body ≡ some event → ¬ IsValidRequest event))
        × ((handle_delivery env o unmarshal body w).0 ≡ nack false
            → (handle_delivery env o unmarshal body w).1 ≡ w)
  handle_delivery_rejects_iff body w = elim (Fallible-cases (decode_request unmarshal body)) [
    | inl (event, read) ↦
        let kept = handle_delivery_keeps body w event read in
        let (is_read, valid) = (decode_request_iff unmarshal body event).0 read in
        (
          (λ rejected. absurd (kept rejected), λ invalid. absurd (invalid event is_read valid)),
          λ rejected. absurd (kept rejected),
        )
    | inr (problem, unread) ↦
        let same = handle_delivery_invalid body w problem unread in
        (
          (
            λ _ event is_read valid.
                let read = (decode_request_iff unmarshal body event).1 (is_read, valid) in
                cc (read, unread),
            λ _. ap (λ d. d.0) same,
          ),
          λ _. ap (λ d. d.1) same,
        )
  ]

  -- With a publisher, a delivery that is a valid request leads to one published result, that of its
  -- event id; it is acknowledged if the publisher took the result, and handed back to the queue if not.
  pub handle_delivery_valid :
      (body : Body) (w : World) (event : RequestEvent) (publisher : World → ResultEvent → Bool)
      → decode_request unmarshal body ≡ ok event
      → env.publisher ≡ some publisher
      → (p : Publication) × ((handle_delivery env o unmarshal body w).1.published
          ≡ w.published ++ p ∷ [])
        × (p.event.request_event_id ≡ event.event_id)
        × ((handle_delivery env o unmarshal body w).0 ≡ (if p.accepted then ack else nack true))
  unfolding handle_delivery handle_decoded
  handle_delivery_valid body w event publisher h has =
      let (p, list, result, same, _, _, _, _) = handle_publishes_once env o event w publisher has in
      (p, rw h list, same, rw h (ap settle result ∙ ground arith))

  -- The deliveries that a worker takes before the context is done or the channel is closed.
  abbrev pub taken : List (Signal Body) → List Body
  taken [] = []
  taken (cancelled ∷ signals) = []
  taken (closed ∷ signals) = []
  taken (delivery body ∷ signals) = body ∷ taken signals

  -- Each delivery settled in its turn, from the state that those before it left.
  abbrev pub settle_all : List Body → World → List Settlement × World
  settle_all [] w = ([], w)
  settle_all (body ∷ bodies) w =
      let (settlement, w') = handle_delivery env o unmarshal body w in
      let (settlements, final) = settle_all bodies w' in (settlement ∷ settlements, final)

  -- A worker settles, in order, exactly the deliveries that it takes before it stops, each from the
  -- state that those before it left.
  pub run-settle_all :
      (signals : List (Signal Body)) (w : World)
      → run env o unmarshal signals w ≡ settle_all (taken signals) w
  unfolding run
  run-settle_all [] w = refl
  run-settle_all (cancelled ∷ signals) w = refl
  run-settle_all (closed ∷ signals) w = refl
  run-settle_all (delivery body ∷ signals) w = rw (run-settle_all signals)
