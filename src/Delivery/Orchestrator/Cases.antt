-- ===== src/Delivery/Orchestrator/Cases.antt =====
-- The ways in which the handling of a request makes its report, as a rule for proofs.
use message_delivery.Prelude.{
  ℕ, ◌+◌, ◌∷◌, none, some, Option-cases, ◌≡◌, refl, true, false, Bool-cases, List, inl, inr, String,
  is_empty, length,
}
use message_delivery.Prelude.Fallible.{Fallible, ok, err}
use message_delivery.Template.{Rendered, TemplateError}
use message_delivery.Provider.{Provider, get, err_provider_not_found}
use message_delivery.Config.{allowed_provider}
use message_delivery.Delivery.Event.{RequestEvent}
use message_delivery.Delivery.Orchestrator.{
  World, Round, stop, next, attempt_of, with_attempt, passed_over, after_send, try_provider, Env,
  Orchestrator, Report, failed_report, duplicate_report, try_all, decide, plan_of, rendered_of,
  after_render, seen_before,
}

module _ {ℓ} (env : Env) (o : Orchestrator) (e : RequestEvent) (w : World)
    (P : Report × World → Type ℓ) where
  after_render_cases :
      (r : Fallible TemplateError Rendered)
      → rendered_of env o e ≡ r
      → P (failed_report "template_error", w)
      → ((rendered : Rendered)
          → rendered_of env o e ≡ ok rendered
          → P (try_all o e rendered (length (plan_of o e)) (plan_of o e) 1 w))
      → P (after_render o e (plan_of o e) r w)
  after_render_cases (err problem) same broken tried = broken
  after_render_cases (ok rendered) same broken tried = tried rendered same

  pub decide_cases :
      (seen_before w.seen e.event_id ≡ true → P (duplicate_report, w))
      → (seen_before w.seen e.event_id ≡ false
          → is_empty (plan_of o e) ≡ true
          → P (failed_report "provider_chain_empty", w))
      → (seen_before w.seen e.event_id ≡ false → P (failed_report "template_error", w))
      → (seen_before w.seen e.event_id ≡ false
          → (rendered : Rendered) → rendered_of env o e ≡ ok rendered
          → P (try_all o e rendered (length (plan_of o e)) (plan_of o e) 1 w))
      → P (decide env o e w)
  unfolding decide
  decide_cases duplicate empty broken tried = elim (Bool-cases (seen_before w.seen e.event_id)) [
    | inl old ↦ rw old (duplicate old)
    | inr new ↦ elim (Bool-cases (is_empty (plan_of o e))) [
      | inl none_left ↦ rw (new, none_left) (empty new none_left)
      | inr some_left ↦
          rw (new, some_left)
            (after_render_cases (rendered_of env o e) refl (broken new) (tried new))
    ]
  ]

module _ {ℓ} (o : Orchestrator) (e : RequestEvent) (r : Rendered) (name : String) (attempt : ℕ)
    (w : World) (P : Round × World → Type ℓ) where
  pub try_provider_cases :
      (allowed_provider o.cfg e.recipient_type name ≡ false
        → P (passed_over e name attempt "provider_not_allowed", w))
      → (allowed_provider o.cfg e.recipient_type name ≡ true
          → get name o.registry ≡ none
          → P (passed_over e name attempt err_provider_not_found, w))
      → (allowed_provider o.cfg e.recipient_type name ≡ true
          → (sender : Provider) → get name o.registry ≡ some sender
          → P (
              after_send e name attempt
                (attempt_of e r name sender w).result
                (with_attempt (attempt_of e r name sender w) w)))
      → P (try_provider o e r name attempt w)
  unfolding try_provider
  try_provider_cases refused missing asked =
      elim (Bool-cases (allowed_provider o.cfg e.recipient_type name)) [
        | inl allowed ↦ elim (Option-cases (get name o.registry)) [
          | inl gone ↦ rw allowed (rw (gone, try_provider) (missing allowed gone))
          | inr (sender, found) ↦ rw allowed (rw (found, try_provider) (asked allowed sender found))
        ]
        | inr forbidden ↦ rw forbidden (refused forbidden)
      ]

module _ {ℓ} (o : Orchestrator) (e : RequestEvent) (r : Rendered)
    (P : Report × World → Type ℓ) where
  after_round :
      (total : ℕ) (names : List String) (attempt : ℕ) (round : Round) (w : World)
      → ((report : Report) → round ≡ stop report → P (report, w))
      → (round ≡ next → P (try_all o e r total names (attempt + 1) w))
      → P (elim round [
        | stop report ↦ (report, w)
        | next ↦ try_all o e r total names (attempt + 1) w
      ])
  after_round total names attempt (stop report) w stopped more = stopped report refl
  after_round total names attempt next w stopped more = more refl

  -- The loop over a plan that is not empty, by what its first round came to.
  pub try_all_cases :
      (total : ℕ) (name : String) (names : List String) (attempt : ℕ) (w : World)
      → ((report : Report)
          → (try_provider o e r name attempt w).0 ≡ stop report
          → P (report, (try_provider o e r name attempt w).1))
      → ((try_provider o e r name attempt w).0 ≡ next
          → P (try_all o e r total names (attempt + 1) (try_provider o e r name attempt w).1))
      → P (try_all o e r total (name ∷ names) attempt w)
  unfolding try_all
  try_all_cases total name names attempt w stopped more =
      let (round, w') = try_provider o e r name attempt w in
      after_round total names attempt round w' stopped more
