-- ===== src/Worker/Recovery.antt =====
-- A request whose result cannot be published for a while.
use message_delivery.Prelude.{
  ℕ, zero, suc, ◌+◌, ◌≤◌, ◌≡◌, ap, ◌∙◌, Bool, true, false, Option, some, List, [], ◌∷◌, length,
  length-append, arith, if◌then◌else◌,
}
use message_delivery.Prelude.Fallible.{ok}
use message_delivery.Delivery.Event.{RequestEvent, ResultEvent, decode_request}
use message_delivery.Delivery.Orchestrator.{World, Env, Orchestrator}
use message_delivery.Delivery.Orchestrator.Publishing.{handle_accepted}
use message_delivery.Worker.{
  Signal, delivery, Settlement, ack, nack, settle, handle_delivery, handle_decoded, run,
}
use message_delivery.Worker.Settlements.{handle_delivery_valid}

-- The publisher takes every result from some number of publications on, taken or not.
abbrev pub Recovers : (World → ResultEvent → Bool) → ℕ → Type 0
Recovers publisher n =
    (w : World) (result : ResultEvent) → n ≤ length w.published → publisher w result ≡ true

-- An acknowledgement, after at most so many deliveries that were handed back to the queue.
pub data Acknowledged : ℕ → List Settlement → Type 0 where
  now : {k : ℕ} {rest : List Settlement} → Acknowledged k (ack ∷ rest)
  after :
      {k : ℕ} {rest : List Settlement}
      → Acknowledged k rest
      → Acknowledged (suc k) (nack true ∷ rest)

-- One more delivery before, settled by whether its result was published.
settled_before :
    (accepted : Bool) (first : Settlement) {k : ℕ} (rest : List Settlement)
    → first ≡ (if accepted then ack else nack true)
    → Acknowledged k rest
    → Acknowledged (suc k) (first ∷ rest)
settled_before true first rest settled later = rw settled now
settled_before false first rest settled later = rw settled (after later)

module _ {ℓ} {Body : Type ℓ} (env : Env) (o : Orchestrator)
    (unmarshal : Body → Option RequestEvent) where
  -- The same body, delivered so many times.
  abbrev pub deliveries : ℕ → Body → List (Signal Body)
  deliveries zero body = []
  deliveries (suc n) body = delivery body ∷ deliveries n body

  -- A publisher that has recovered leads to an acknowledgement.
  recovered_acknowledges :
      (body : Body) (w : World) (event : RequestEvent) (publisher : World → ResultEvent → Bool)
      → decode_request unmarshal body ≡ ok event
      → env.publisher ≡ some publisher
      → Recovers publisher (length w.published)
      → (handle_delivery env o unmarshal body w).0 ≡ ack
  unfolding handle_delivery handle_decoded
  recovered_acknowledges body w event publisher h has recovers =
      let (result, handled) =
        handle_accepted env o event w publisher has
          (λ later found same. recovers later found (omega (arith, ap length same))) in
      rw h (ap settle handled)

  -- A request whose result the publisher refuses is handed back to the queue each time that it is
  -- delivered, and it is acknowledged once the publisher has recovered: if the publisher takes
  -- every result after `k` more publications, it takes at most `k` redeliveries.
  pub run-Acknowledged :
      (body : Body) (event : RequestEvent) (publisher : World → ResultEvent → Bool) (k : ℕ)
      (w : World)
      → decode_request unmarshal body ≡ ok event
      → env.publisher ≡ some publisher
      → Recovers publisher (k + length w.published)
      → Acknowledged k (run env o unmarshal (deliveries (suc k) body) w).0
  unfolding run
  run-Acknowledged body event publisher zero w h has recovers =
      rw
        (recovered_acknowledges body w event publisher h has
          (λ later result many. recovers later result (omega arith)))
        now
  run-Acknowledged body event publisher (suc k) w h has recovers =
      let (p, published, _, settled) =
        handle_delivery_valid env o unmarshal body w event publisher h has in
      let w' : World = (handle_delivery env o unmarshal body w).1 in
      let longer : length w'.published ≡ suc (length w.published) =
        ap length published ∙ length-append w.published (p ∷ []) ∙ omega arith in
      let later =
        run-Acknowledged body event publisher k w' h has
          (λ v result many. recovers v result (omega (arith, longer))) in
      settled_before p.accepted _ _ settled later
