-- ===== src/Delivery/Orchestrator/Redelivery.antt =====
-- A request that was delivered is not delivered again, also when its result could not be published
-- and the broker hands the request out once more.
use message_delivery.Prelude.{
  ℕ, ◌+◌, String, ◌≡◌, Bool-cases, inl, inr, true, some, List, [], ◌∷◌, arith, length, ◌==◌, eq_iff,
  eq_refl,
}
use message_delivery.Provider.{
  Attempt, status_sent, status_failed, status_undeliverable, err_provider_not_found,
}
use message_delivery.Template.{Rendered}
use message_delivery.Delivery.Event.{RequestEvent}
use message_delivery.Delivery.Idempotency.{MemoryIdempotencyStore, mark}
use message_delivery.Delivery.Orchestrator.Cases.{decide_cases, try_provider_cases, try_all_cases}
use message_delivery.Delivery.Orchestrator.Once.{is_seen-mark, publish-World}
use message_delivery.Delivery.Orchestrator.{
  World, Env, Orchestrator, Report, Round, stop, publish, try_all, try_provider, after_send,
  attempt_of, with_attempt, passed_over, decide, handle, plan_of, seen_before, duplicate_report,
}

abbrev HasStore : World → Type 0
HasStore w = (s : MemoryIdempotencyStore) × (w.seen ≡ some s)

module _ (e : RequestEvent) where
  -- A report of "sent" comes with the mark.
  abbrev Marked : Report × World → Type 0
  Marked (report, w) = report.status ≡ status_sent → seen_before w.seen e.event_id ≡ true

  abbrev MarkedRound : Round × World → Type 0
  MarkedRound (round, w) =
      HasStore w × ((report : Report) → round ≡ stop report → Marked (report, w))

  passed_over-MarkedRound :
      (name : String) (attempt : ℕ) (code : String) (w : World)
      → HasStore w
      → MarkedRound (passed_over e name attempt code, w)
  passed_over-MarkedRound name attempt code w h =
      (h, λ report stopped sent. ground (arith, eq_iff status_failed status_sent))

  after_send-MarkedRound :
      (name : String) (attempt : ℕ) (a : Attempt) (w : World)
      → HasStore w
      → MarkedRound (after_send e name attempt a.result (with_attempt a w))
  unfolding after_send
  after_send-MarkedRound name attempt a w (s, h) =
      elim (Bool-cases (a.result.status == status_sent)) [
        | inl sent ↦ rw sent (
          (mark s e.event_id, rw h),
          λ _ _ _. rw h (ground (arith, is_seen-mark s e.event_id e.event_id, eq_refl e.event_id)),
        )
        | inr other ↦ rw other (elim (Bool-cases (a.result.status == status_undeliverable)) [
          | inl undeliverable ↦ rw undeliverable (
            (s, h),
            λ report stopped sent. ground (arith, eq_iff status_undeliverable status_sent),
          )
          | inr failed ↦
              rw failed
                ((s, h), λ report stopped sent. ground (arith, eq_iff status_failed status_sent))
        ])
      ]

  try_provider-MarkedRound :
      (o : Orchestrator) (r : Rendered) (name : String) (attempt : ℕ) (w : World)
      → HasStore w
      → MarkedRound (try_provider o e r name attempt w)
  try_provider-MarkedRound o r name attempt w h =
      try_provider_cases o e r name attempt w MarkedRound
        (λ _. passed_over-MarkedRound name attempt "provider_not_allowed" w h)
        (λ _ _. passed_over-MarkedRound name attempt err_provider_not_found w h)
        (λ _ sender _. after_send-MarkedRound name attempt (attempt_of e r name sender w) w h)

  try_all-Marked :
      (o : Orchestrator) (r : Rendered) (total : ℕ) (names : List String) (attempt : ℕ) (w : World)
      → HasStore w
      → Marked (try_all o e r total names attempt w)
  unfolding try_all
  try_all-Marked o r total [] attempt w h =
      λ sent. ground (arith, eq_iff status_undeliverable status_sent)
  try_all-Marked o r total (name ∷ names) attempt w h =
      let (h', marked) = try_provider-MarkedRound o r name attempt w h in
      try_all_cases o e r Marked total name names attempt w
        (λ report stopped. marked report stopped)
        (λ _. try_all-Marked o r total names (attempt + 1) _ h')

  decide-Marked :
      (env : Env) (o : Orchestrator) (w : World) → HasStore w → Marked (decide env o e w)
  decide-Marked env o w h =
      decide_cases env o e w Marked (λ old _. old)
        (λ _ _ sent. ground (arith, eq_iff status_failed status_sent))
        (λ _ sent. ground (arith, eq_iff status_failed status_sent))
        (λ new r _. try_all-Marked o r (length (plan_of o e)) (plan_of o e) 1 w h)

decide_duplicate :
    (env : Env) (o : Orchestrator) (e : RequestEvent) (w : World)
    → seen_before w.seen e.event_id ≡ true
    → decide env o e w ≡ (duplicate_report, w)
unfolding decide
decide_duplicate env o e w h = rw h

-- Where there is a store and a request was handled with the status "sent", any later request of the
-- same event id, handled from the state left behind, makes no call of a provider and is reported as
-- "sent" with the code "duplicate_ignored", provider "" and attempt 0. This holds also if the first
-- result could not be published.
pub decide-handle_again :
    (env env' : Env) (o o' : Orchestrator) (e e' : RequestEvent) (w : World)
    (s : MemoryIdempotencyStore)
    → w.seen ≡ some s
    → (decide env o e w).0.status ≡ status_sent
    → e'.event_id ≡ e.event_id
    → decide env' o' e' (handle env o (some e) w).1
      ≡ (duplicate_report, (handle env o (some e) w).1)
unfolding handle
decide-handle_again env env' o o' e e' w s has sent same =
    let (report, w') = decide env o e w in
    let (kept, _) = publish-World env e report w' in
    decide_duplicate env' o' e' (publish env e report w').1
      (rw (kept, same) (decide-Marked e env o w (s, has) sent))
