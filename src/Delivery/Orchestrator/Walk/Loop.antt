-- ===== src/Delivery/Orchestrator/Walk/Loop.antt =====
-- The walk along the plan: the calls that it makes, and the report that ends it.
use message_delivery.Prelude.{
  ℕ, false, Bool-cases, is_empty, ◌+◌, String, ◌≡◌, ◌≢◌, ◌⊎◌, sym, ap, ◌∙◌, inl, inr, List, [], ◌∷◌,
  ◌++◌, map, All, length, IsSubsequence, IsSubsequence-nil, done, skip, take,
}
use mathlib.Core.List.{append_assoc, append-nil}
use message_delivery.Provider.{Attempt, status_sent, status_undeliverable}
use message_delivery.Prelude.Fallible.{ok}
use message_delivery.Template.{Rendered}
use message_delivery.Delivery.Event.{RequestEvent}
use message_delivery.Delivery.Orchestrator.Cases.{try_all_cases}
use message_delivery.Delivery.Orchestrator.Walk.Rounds.{
  Tells, IsProper, Passed, Asked, try_provider_asks, failed_ne_sent, undeliverable_ne_sent,
}
use message_delivery.Delivery.Orchestrator.{
  World, Env, decide, rendered_of, plan_of, seen_before, Orchestrator, Report, Round, stop, next,
  try_all,
}

-- Every call but the last was answered "undeliverable", and the report tells of the last; with no
-- call at all the report is not "sent".
abbrev pub Ends : List Attempt → Report → Type 0
Ends [] report = report.status ≢ status_sent
Ends (a ∷ []) report = Tells a report
Ends (a ∷ b ∷ attempts) report =
    (a.result.status ≡ status_undeliverable) × Ends (b ∷ attempts) report

abbrev pub names_of : List Attempt → List String
names_of = map (λ a. a.provider)

module _ (o : Orchestrator) (e : RequestEvent) (r : Rendered) where
  -- The calls that led from one state to another, for a plan and a report.
  pub record Walk (plan : List String) (w : World) (report : Report) (w' : World) : Type 0 where
    pub asked : List Attempt
    pub appended : w'.attempts ≡ w.attempts ++ asked
    pub proper : All (IsProper o e r) asked
    pub in_order : IsSubsequence (names_of asked) plan
    pub ends : Ends asked report

  Ends-cons :
      (a : Attempt) (attempts : List Attempt) (report : Report)
      → a.result.status ≡ status_undeliverable
      → Ends attempts report
      → Ends (a ∷ attempts) report
  Ends-cons a [] report is ends = record {
    when_sent = λ sent. absurd (undeliverable_ne_sent (sym is ∙ sent));
    when_not_sent = λ _. ends;
    when_failed = λ _ other. absurd (other is);
  }
  Ends-cons a (b ∷ attempts) report is ends = (is, ends)

  Walk-on :
      (name : String) (names : List String) (w w' w'' : World) (round : Round) (report : Report)
      → Passed o e r w (round, w') ⊎ Asked o e r name w (round, w')
      → round ≡ next
      → Walk names w' report w''
      → Walk (name ∷ names) w report w''
  Walk-on name names w w' w'' round report (inl (same, _)) more rest = record {
    asked = rest.asked;
    appended = rest.appended ∙ ap (λ l. l ++ rest.asked) same;
    proper = rest.proper;
    in_order = skip name rest.in_order;
    ends = rest.ends;
  }
  Walk-on name names w w' w'' round report (inr (a, named, ok_a, same, inl (_, is))) more rest =
      record {
        asked = a ∷ rest.asked;
        appended =
            rest.appended
            ∙ ap (λ l. l ++ rest.asked) same
            ∙ append_assoc w.attempts (a ∷ []) rest.asked;
        proper = (ok_a, rest.proper);
        in_order = rw named (take name rest.in_order);
        ends = Ends-cons a rest.asked report is rest.ends;
      }
  Walk-on name names w w' w'' round report (inr (a, named, ok_a, same, inr (told, stopped, _))) more
        rest =
      absurd (cc)

  Walk-end :
      (name : String) (names : List String) (w w' : World) (round : Round) (report : Report)
      → Passed o e r w (round, w') ⊎ Asked o e r name w (round, w')
      → round ≡ stop report
      → Walk (name ∷ names) w report w'
  Walk-end name names w w' round report (inl (same, inl more)) stopped = absurd (cc)
  Walk-end name names w w' round report (inl (same, inr (told, is, other))) stopped = record {
    asked = [];
    appended = same ∙ sym (append-nil w.attempts);
    proper = tt;
    in_order = IsSubsequence-nil (name ∷ names);
    ends = let equal : told ≡ report = cc in rw (← equal) other;
  }
  Walk-end name names w w' round report (inr (a, named, ok_a, same, inl (more, _))) stopped =
      absurd (cc)
  Walk-end name names w w' round report (inr (a, named, ok_a, same, inr (told, is, tells)))
        stopped =
      record {
        asked = a ∷ [];
        appended = same;
        proper = (ok_a, tt);
        in_order = rw named (take name (IsSubsequence-nil names));
        ends = let equal : told ≡ report = cc in rw (← equal) tells;
      }

  pub try_all-Walk :
      (total : ℕ) (names : List String) (attempt : ℕ) (w : World)
      → let (report, w') = try_all o e r total names attempt w in Walk names w report w'
  unfolding try_all
  try_all-Walk total [] attempt w = record {
    asked = [];
    appended = sym (append-nil w.attempts);
    proper = tt;
    in_order = done;
    ends = undeliverable_ne_sent;
  }
  try_all-Walk total (name ∷ names) attempt w =
      let asks = try_provider_asks o e r name attempt w in
      try_all_cases o e r (λ d. Walk (name ∷ names) w d.0 d.1) total name names attempt w
        (λ report stopped. Walk-end name names w _ _ report asks stopped)
        (λ more. Walk-on name names w _ _ _ _ asks more (try_all-Walk total names (attempt + 1) _))

-- However a request is handled, and from whatever state: if its event was not seen before and its
-- template renders, the calls that are added
-- * are of providers that are allowed for its recipient type and registered, with its rendered
--   message;
-- * follow the order of the plan, each place of the plan being asked at most once;
-- * were all but the last answered "undeliverable".
-- If a call was made, the report is "sent" exactly where the last one was answered "sent", then
-- with its provider and no error code; an answer that is neither is reported as "failed" with the
-- provider and its error code. With no call the report is not "sent".
pub decide-Walk :
    (env : Env) (o : Orchestrator) (e : RequestEvent) (r : Rendered) (w : World)
    → seen_before w.seen e.event_id ≡ false
    → rendered_of env o e ≡ ok r
    → Walk o e r (plan_of o e) w (decide env o e w).0 (decide env o e w).1
unfolding decide
decide-Walk env o e r w new renders = elim (Bool-cases (is_empty (plan_of o e))) [
  | inl nobody ↦
      rw (new, nobody)
        (record {
          asked = [];
          appended = sym (append-nil w.attempts);
          proper = tt;
          in_order = IsSubsequence-nil (plan_of o e);
          ends = failed_ne_sent;
        })
  | inr somebody ↦
      rw (new, somebody, renders) (try_all-Walk o e r (length (plan_of o e)) (plan_of o e) 1 w)
]
