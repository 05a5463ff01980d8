-- ===== src/Delivery/Orchestrator/Walk/Rounds.antt =====
-- One round of the loop: what the calls so far and the report say of it.
use message_delivery.Prelude.{
  ℕ, String, ◌≡◌, ◌≢◌, ◌⊎◌, refl, Bool-cases, inl, inr, true, false, [], ◌∷◌, ◌++◌, sym, ap, not,
  ◌&&◌, ◌∙◌, arith, ◌==◌, eq_iff, is_some,
}
use message_delivery.Provider.{
  Attempt, get, status_sent, status_failed, status_undeliverable, err_provider_not_found,
}
use message_delivery.Config.{allowed_provider}
use message_delivery.Template.{Rendered}
use message_delivery.Delivery.Event.{RequestEvent}
use message_delivery.Delivery.Orchestrator.Cases.{try_provider_cases}
use message_delivery.Delivery.Orchestrator.{
  World, Orchestrator, Report, Round, stop, next, try_provider, after_send, passed_over, attempt_of,
  with_attempt, message_of,
}

-- What the report says of the answer that ended the loop.
pub record Tells (a : Attempt) (report : Report) : Type 0 where
  pub when_sent :
      a.result.status ≡ status_sent
      → (report.status ≡ status_sent) × (report.provider ≡ a.provider) × (report.error_code ≡ "")
  pub when_not_sent : a.result.status ≢ status_sent → report.status ≢ status_sent
  pub when_failed :
      a.result.status ≢ status_sent
      → a.result.status ≢ status_undeliverable
      → (report.status ≡ status_failed)
        × (report.provider ≡ a.provider)
        × (report.error_code ≡ a.result.error_code)

pub failed_ne_sent : ◌≢◌ {A = String} status_failed status_sent
failed_ne_sent = ground (arith, eq_iff status_failed status_sent)

pub undeliverable_ne_sent : ◌≢◌ {A = String} status_undeliverable status_sent
undeliverable_ne_sent = ground (arith, eq_iff status_undeliverable status_sent)

Tells-sent :
    (a : Attempt) (report : Report)
    → a.result.status ≡ status_sent
    → (report.status ≡ status_sent) × (report.provider ≡ a.provider) × (report.error_code ≡ "")
    → Tells a report
Tells-sent a report sent told = record {
  when_sent = λ _. told;
  when_not_sent = λ other. absurd (other sent);
  when_failed = λ other _. absurd (other sent);
}

Tells-undeliverable :
    (a : Attempt) (report : Report)
    → a.result.status ≡ status_undeliverable
    → report.status ≡ status_undeliverable
    → Tells a report
Tells-undeliverable a report is told = record {
  when_sent = λ sent. absurd (undeliverable_ne_sent (sym is ∙ sent));
  when_not_sent = λ _ sent. undeliverable_ne_sent (sym told ∙ sent);
  when_failed = λ _ other. absurd (other is);
}

Tells-failed :
    (a : Attempt) (report : Report)
    → a.result.status ≢ status_sent
    → (report.status ≡ status_failed)
      × (report.provider ≡ a.provider)
      × (report.error_code ≡ a.result.error_code)
    → Tells a report
Tells-failed a report other told = record {
  when_sent = λ sent. absurd (other sent);
  when_not_sent = λ _ sent. failed_ne_sent (sym told.0 ∙ sent);
  when_failed = λ _ _. told;
}

ne_of_test : (s t : String) → (s == t) ≡ false → s ≢ t
ne_of_test s t h = ground (arith, eq_iff s t)

module _ (o : Orchestrator) (e : RequestEvent) (r : Rendered) where
  -- A call that the program may make: of a provider that is allowed for the recipient type and is
  -- registered, with the rendered message of the request.
  abbrev pub IsProper : Attempt → Type 0
  IsProper a =
      (allowed_provider o.cfg e.recipient_type a.provider ≡ true)
      × (is_some (get a.provider o.registry) ≡ true)
      × (a.message ≡ message_of e r)

  abbrev pub Passed : World → Round × World → Type 0
  Passed w (round, w') =
      (w'.attempts ≡ w.attempts)
      × ((round ≡ next)
          ⊎ ((report : Report) × (round ≡ stop report) × (report.status ≢ status_sent)))

  abbrev pub Asked : String → World → Round × World → Type 0
  Asked name w (round, w') =
      (a : Attempt) × (a.provider ≡ name)
      × IsProper a
      × (w'.attempts ≡ w.attempts ++ a ∷ [])
      × (((round ≡ next) × (a.result.status ≡ status_undeliverable))
          ⊎ ((report : Report) × (round ≡ stop report) × Tells a report))

  passed_over-Passed :
      (name : String) (attempt : ℕ) (code : String) (w : World)
      → Passed w (passed_over e name attempt code, w)
  passed_over-Passed name attempt code w =
      elim (Bool-cases (e.delivery.selected_provider == name)) [
        | inl selected ↦ rw selected (refl, inr (_, refl, failed_ne_sent))
        | inr other ↦ rw other (refl, inl refl)
      ]

  pub after_send-Asked :
      (name : String) (attempt : ℕ) (a : Attempt) (w : World)
      → a.provider ≡ name
      → IsProper a
      → Asked name w (after_send e name attempt a.result (with_attempt a w))
  unfolding after_send
  after_send-Asked name attempt a w named proper =
      elim (Bool-cases (a.result.status == status_sent)) [
        | inl sent ↦ rw sent (
          a,
          named,
          proper,
          refl,
          inr (_, refl, Tells-sent a _ ((eq_iff _ _).0 sent) (refl, sym named, refl)),
        )
        | inr other ↦ rw other (elim (Bool-cases (a.result.status == status_undeliverable)) [
          | inl undeliverable ↦
              let is = (eq_iff a.result.status status_undeliverable).0 undeliverable in
              rw undeliverable
                (elim (Bool-cases
                  (e.delivery.selected_provider == name && not e.delivery.allow_fallback)) [
                    | inl ends ↦
                        rw ends
                          (a, named, proper, refl, inr (_, refl, Tells-undeliverable a _ is refl))
                    | inr goes_on ↦ rw goes_on (a, named, proper, refl, inl (refl, is))
                  ])
          | inr failed ↦ rw failed (
            a,
            named,
            proper,
            refl,
            inr (_, refl, Tells-failed a _ (ne_of_test _ _ other) (refl, sym named, refl)),
          )
        ])
      ]

  -- A round makes no call, or one proper call of the provider whose turn it is.
  pub try_provider_asks :
      (name : String) (attempt : ℕ) (w : World)
      → Passed w (try_provider o e r name attempt w)
        ⊎ Asked name w (try_provider o e r name attempt w)
  try_provider_asks name attempt w =
      try_provider_cases o e r name attempt w (λ d. Passed w d ⊎ Asked name w d)
        (λ _. inl (passed_over-Passed name attempt "provider_not_allowed" w))
        (λ _ _. inl (passed_over-Passed name attempt err_provider_not_found w))
        (λ allowed sender found. inr (
          after_send-Asked name attempt (attempt_of e r name sender w) w refl
            (allowed, ap is_some found, refl)))
