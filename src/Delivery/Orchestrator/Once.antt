-- ===== src/Delivery/Orchestrator/Once.antt =====
-- No message is answered "sent" twice while the process lives.
use message_delivery.Prelude.{
  ℕ, Bool-cases, inl, inr, ◌+◌, ◌≤◌, String, ◌≡◌, refl, Bool, false, ◌&&◌, ◌||◌, Option, none, some,
  List, [], ◌∷◌, ◌++◌, arith, ◌∙◌, length, if◌then◌else◌, count, count-append, ◌==◌, eq_iff,
}
use message_delivery.Provider.{Attempt, status_sent, status_undeliverable}
use message_delivery.Template.{Rendered}
use message_delivery.Delivery.Event.{RequestEvent, ResultEvent}
use message_delivery.Delivery.Idempotency.{MemoryIdempotencyStore, is_seen, mark}
use message_delivery.Delivery.Orchestrator.Cases.{decide_cases, try_provider_cases, try_all_cases}
use message_delivery.Delivery.Orchestrator.{
  World, Env, Orchestrator, Report, Round, next, publish, publish_with, try_all, try_provider,
  after_send, attempt_of, with_attempt, message_of, decide, handle, plan_of, seen_before,
  result_event,
}

-- A call that handed a message of this event over, and that was answered "sent".
abbrev pub is_sent : String → Attempt → Bool
is_sent event_id a = a.message.event_id == event_id && a.result.status == status_sent

abbrev pub sent_count : String → List Attempt → ℕ
sent_count event_id attempts = count (is_sent event_id) attempts

-- Whatever was sent is in the store, and was sent once.
abbrev pub IsOnce : MemoryIdempotencyStore → List Attempt → Type 0
IsOnce s attempts =
    (event_id : String) → sent_count event_id attempts ≤ (if is_seen s event_id then 1 else 0)

pub record SentOnce (w : World) : Type 0 where
  pub store : MemoryIdempotencyStore
  pub has_store : w.seen ≡ some store
  pub once : IsOnce store w.attempts

pub is_seen-mark :
    (s : MemoryIdempotencyStore) (k j : String) → is_seen (mark s k) j ≡ (k == j || is_seen s j)
unfolding is_seen mark
is_seen-mark s k j = ground (arith, eq_iff k j)

-- One more call that was not answered "sent" changes no count; one that was adds one to its event's.
sent_count-append :
    (event_id : String) (attempts : List Attempt) (a : Attempt)
    → sent_count event_id (attempts ++ a ∷ [])
      ≡ sent_count event_id attempts + (if is_sent event_id a then 1 else 0)
sent_count-append event_id attempts a =
    ground (arith, count-append (is_sent event_id) attempts (a ∷ []))

IsOnce-mark :
    (s : MemoryIdempotencyStore) (attempts : List Attempt) (a : Attempt) (event_id : String)
    → IsOnce s attempts
    → is_seen s event_id ≡ false
    → a.message.event_id ≡ event_id
    → IsOnce (mark s event_id) (attempts ++ a ∷ [])
IsOnce-mark s attempts a event_id h new same k = ground (
  arith,
  sent_count-append k attempts a,
  h k,
  is_seen-mark s event_id k,
  eq_iff event_id k,
  eq_iff a.message.event_id k,
)

IsOnce-not_sent :
    (s : MemoryIdempotencyStore) (attempts : List Attempt) (a : Attempt)
    → IsOnce s attempts
    → (a.result.status == status_sent) ≡ false
    → IsOnce s (attempts ++ a ∷ [])
IsOnce-not_sent s attempts a h other k = ground (arith, sent_count-append k attempts a, h k)

module _ (e : RequestEvent) where
  -- What a round keeps: the invariant, and while the loop goes on, that the event is not seen.
  abbrev Kept : Round × World → Type 0
  Kept (round, w) = SentOnce w × (round ≡ next → seen_before w.seen e.event_id ≡ false)

  after_send-Kept :
      (name : String) (attempt : ℕ) (a : Attempt) (w : World)
      → a.message.event_id ≡ e.event_id
      → SentOnce w
      → seen_before w.seen e.event_id ≡ false
      → Kept (after_send e name attempt a.result (with_attempt a w))
  unfolding after_send
  after_send-Kept name attempt a w same inv new =
      let unseen : is_seen inv.store e.event_id ≡ false = ground (arith, inv.has_store) in
      elim (Bool-cases (a.result.status == status_sent)) [
        | inl sent ↦ rw sent (
          record {
            store = mark inv.store e.event_id;
            has_store = rw inv.has_store;
            once = IsOnce-mark inv.store w.attempts a e.event_id inv.once unseen same;
          },
          λ h. cc,
        )
        | inr other ↦
            let kept : SentOnce (with_attempt a w) = record {
              store = inv.store;
              has_store = inv.has_store;
              once = IsOnce-not_sent inv.store w.attempts a inv.once other;
            } in
            rw other (elim (Bool-cases (a.result.status == status_undeliverable)) [
              | inl undeliverable ↦ rw undeliverable (kept, λ _. new)
              | inr failed ↦ rw failed (kept, λ _. new)
            ])
      ]

  try_provider-Kept :
      (o : Orchestrator) (r : Rendered) (name : String) (attempt : ℕ) (w : World)
      → SentOnce w
      → seen_before w.seen e.event_id ≡ false
      → Kept (try_provider o e r name attempt w)
  try_provider-Kept o r name attempt w inv new =
      try_provider_cases o e r name attempt w Kept (λ _. (inv, λ _. new)) (λ _ _. (inv, λ _. new))
        (λ _ sender _.
          after_send-Kept name attempt (attempt_of e r name sender w) w (unfold message_of in refl)
            inv new)

  try_all-SentOnce :
      (o : Orchestrator) (r : Rendered) (total : ℕ) (names : List String) (attempt : ℕ) (w : World)
      → SentOnce w
      → seen_before w.seen e.event_id ≡ false
      → SentOnce (try_all o e r total names attempt w).1
  unfolding try_all
  try_all-SentOnce o r total [] attempt w inv new = inv
  try_all-SentOnce o r total (name ∷ names) attempt w inv new =
      let (inv', new') = try_provider-Kept o r name attempt w inv new in
      try_all_cases o e r (λ d. SentOnce d.1) total name names attempt w (λ report _. inv')
        (λ more. try_all-SentOnce o r total names (attempt + 1) _ inv' (new' more))

decide-SentOnce :
    (env : Env) (o : Orchestrator) (e : RequestEvent) (w : World)
    → SentOnce w
    → SentOnce (decide env o e w).1
decide-SentOnce env o e w inv =
    decide_cases env o e w (λ d. SentOnce d.1) (λ _. inv) (λ _ _. inv) (λ _. inv)
      (λ new r _. try_all-SentOnce e o r (length (plan_of o e)) (plan_of o e) 1 w inv new)

-- Publishing a result changes neither the store nor the calls.
publish_with-World :
    (found : Option (World → ResultEvent → Bool)) (event : ResultEvent) (w : World)
    → ((publish_with found event w).1.seen ≡ w.seen)
      × ((publish_with found event w).1.attempts ≡ w.attempts)
unfolding publish_with
publish_with-World found event w = ground arith

pub publish-World :
    (env : Env) (e : RequestEvent) (report : Report) (w : World)
    → ((publish env e report w).1.seen ≡ w.seen)
      × ((publish env e report w).1.attempts ≡ w.attempts)
unfolding publish
publish-World env e report w = publish_with-World env.publisher (result_event env e report w) w

-- Handling a request keeps the invariant: what was answered "sent" is in the store and was answered
-- so once. The publisher may refuse the result.
pub handle-SentOnce :
    (env : Env) (o : Orchestrator) (e : Option RequestEvent) (w : World)
    → SentOnce w
    → SentOnce (handle env o e w).1
unfolding handle
handle-SentOnce env o none w inv = inv
handle-SentOnce env o (some e) w inv =
    let (report, w') = decide env o e w in
    let inv' : SentOnce w' = decide-SentOnce env o e w inv in
    let (seen, attempts) = publish-World env e report w' in
    record {
      store = inv'.store;
      has_store = seen ∙ inv'.has_store;
      once = λ k. rw attempts (inv'.once k);
    }
