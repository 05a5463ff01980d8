-- ===== src/Delivery/Orchestrator/Selected.antt =====
-- What becomes of a request that selects a provider.
use mathlib.Core.List.{append_assoc}
use mathlib.Core.Path.{subst}
use message_delivery.Prelude.{
  ℕ, String, ◌≡◌, ◌≢◌, inl, inr, refl, sym, ap, ◌∙◌, ◌+◌, Bool-cases, Option-cases, true, false,
  some, List, [], ◌∷◌, ◌++◌, length, is_some, IsSubsequence, done, eq_iff, arith,
}
use message_delivery.Prelude.Fallible.{ok}
use message_delivery.Config.{allowed_provider}
use message_delivery.Template.{Rendered}
use message_delivery.Provider.{Attempt, Provider, get}
use message_delivery.Delivery.Event.{RequestEvent}
use message_delivery.Delivery.Plan.{provider_plan}
use message_delivery.Delivery.Plan.Order.{provider_plan_fallback}
use message_delivery.Delivery.Orchestrator.Cases.{try_provider_cases, try_all_cases}
use message_delivery.Delivery.Orchestrator.Fallback.{
  IsRefused, not_allowed, not_registered, refusal, decide_selected_refused,
}
use message_delivery.Delivery.Orchestrator.Walk.Rounds.{Asked, IsProper, after_send-Asked}
use message_delivery.Delivery.Orchestrator.Walk.Loop.{try_all-Walk, names_of}
use message_delivery.Delivery.Orchestrator.{
  World, Env, Orchestrator, Report, try_all, try_provider, attempt_of, plan_of, rendered_of,
  seen_before, decide,
}

-- The ends of a request that selects a provider, by whether this one may be asked: if not, the request
-- fails for it and nobody is asked; if so, it is asked first, and is the only one without fallback.
pub data IsSelectedFirst (o : Orchestrator) (e : RequestEvent) (r : Rendered) (name : String)
    (w : World) (report : Report) (w' : World) : Type 0 where
  refused :
      (error_code : String)
      → IsRefused o e name error_code
      → report ≡ refusal name error_code
      → w' ≡ w
      → IsSelectedFirst o e r name w report w'
  asked :
      (a : Attempt) (others : List Attempt)
      → a.provider ≡ name
      → IsProper o e r a
      → w'.attempts ≡ w.attempts ++ a ∷ others
      → (e.delivery.allow_fallback ≡ false → others ≡ [])
      → IsSelectedFirst o e r name w report w'

-- The plan begins with the selected provider, and ends with it without fallback.
plan_selected :
    (e : RequestEvent) (default_chain : List String)
    → e.delivery.selected_provider ≢ ""
    → (rest : List String) × (provider_plan e default_chain ≡ e.delivery.selected_provider ∷ rest)
      × (e.delivery.allow_fallback ≡ false → rest ≡ [])
unfolding provider_plan
plan_selected e default_chain named = elim (Bool-cases e.delivery.allow_fallback) [
  | inl fallback ↦
      (_, provider_plan_fallback e default_chain named fallback, λ h. absurd (cc (h, fallback)))
  | inr alone ↦ ([], ground (arith, named, eq_iff e.delivery.selected_provider ""), λ _. refl)
]

IsSubsequence-empty {ℓ} : {A : Type ℓ} {xs : List A} → IsSubsequence xs [] → xs ≡ []
IsSubsequence-empty done = refl

names_of-empty : (calls : List Attempt) → names_of calls ≡ [] → calls ≡ []
names_of-empty [] h = refl
names_of-empty (a ∷ calls) h = cc (h)

module _ (o : Orchestrator) (e : RequestEvent) (r : Rendered) (name : String) where
  try_provider-Asked :
      (sender : Provider) (w : World)
      → allowed_provider o.cfg e.recipient_type name ≡ true
      → get name o.registry ≡ some sender
      → Asked o e r name w (try_provider o e r name 1 w)
  try_provider-Asked sender w allowed found =
      try_provider_cases o e r name 1 w (λ d. Asked o e r name w d)
        (λ forbidden. absurd (cc (forbidden, allowed))) (λ _ missing. absurd (cc (missing, found)))
        (λ _ other there.
          after_send-Asked o e r name 1 (attempt_of e r name other w) w refl
            (allowed, ap is_some there, refl))

  try_all-asks :
      (sender : Provider) (total : ℕ) (rest : List String) (w : World)
      → allowed_provider o.cfg e.recipient_type name ≡ true
      → get name o.registry ≡ some sender
      → (e.delivery.allow_fallback ≡ false → rest ≡ [])
      → IsSelectedFirst o e r name w
          (try_all o e r total (name ∷ rest) 1 w).0
          (try_all o e r total (name ∷ rest) 1 w).1
  try_all-asks sender total rest w allowed found alone =
      let (a, named, proper, same, _) = try_provider-Asked sender w allowed found in
      let w1 : World = (try_provider o e r name 1 w).1 in
      let walk = try_all-Walk o e r total rest (1 + 1) w1 in
      try_all_cases o e r (λ d. IsSelectedFirst o e r name w d.0 d.1) total name rest 1 w
        (λ report _. asked a [] named proper same (λ _. refl))
        (λ _.
          asked a walk.asked named proper
            (walk.appended
              ∙ ap (λ l. l ++ walk.asked) same
              ∙ append_assoc w.attempts (a ∷ []) walk.asked)
            (λ h. names_of-empty walk.asked (
              IsSubsequence-empty
                (subst (IsSubsequence (names_of walk.asked)) (alone h) walk.in_order))))

planned :
    (o : Orchestrator) (e : RequestEvent)
    → e.delivery.selected_provider ≢ ""
    → (rest : List String) × (plan_of o e ≡ e.delivery.selected_provider ∷ rest)
      × (e.delivery.allow_fallback ≡ false → rest ≡ [])
unfolding plan_of
planned o e selected = plan_selected e _ selected

decide_planned :
    (env : Env) (o : Orchestrator) (e : RequestEvent) (r : Rendered) (name : String)
    (rest : List String) (w : World)
    → seen_before w.seen e.event_id ≡ false
    → rendered_of env o e ≡ ok r
    → plan_of o e ≡ name ∷ rest
    → decide env o e w ≡ try_all o e r (length (name ∷ rest)) (name ∷ rest) 1 w
unfolding decide
decide_planned env o e r name rest w new renders plan = rw (new, plan, renders) refl

-- A new request that renders and selects a provider, whatever else it and the configuration hold: if
-- the selected provider is not allowed for the recipient type or not registered, the request is
-- reported as "failed" for it with the code that tells why, and no provider is asked, whether or not
-- fallback is allowed. Otherwise the selected provider is asked before all others, with the rendered
-- message, and no other one is asked unless fallback is allowed.
pub decide-IsSelectedFirst :
    (env : Env) (o : Orchestrator) (e : RequestEvent) (r : Rendered) (w : World)
    → e.delivery.selected_provider ≢ ""
    → seen_before w.seen e.event_id ≡ false
    → rendered_of env o e ≡ ok r
    → IsSelectedFirst o e r e.delivery.selected_provider w (decide env o e w).0 (decide env o e w).1
decide-IsSelectedFirst env o e r w selected new renders =
    let name : String = e.delivery.selected_provider in
    let (rest, plan, alone) = planned o e selected in
    let ends : (error_code : String)
        → IsRefused o e name error_code
        → IsSelectedFirst o e r name w (decide env o e w).0 (decide env o e w).1 =
      λ error_code is_refused.
        let same =
          decide_selected_refused env o e r name rest error_code w new renders plan refl
            is_refused in
        refused error_code is_refused (ap (λ d. d.0) same) (ap (λ d. d.1) same) in
    elim (Bool-cases (allowed_provider o.cfg e.recipient_type name)) [
      | inr forbidden ↦ ends _ (not_allowed forbidden)
      | inl allowed ↦ elim (Option-cases (get name o.registry)) [
        | inl missing ↦ ends _ (not_registered allowed missing)
        | inr (sender, found) ↦
            subst (λ d. IsSelectedFirst o e r name w d.0 d.1)
              (sym (decide_planned env o e r name rest w new renders plan))
              (try_all-asks o e r name sender (length (name ∷ rest)) rest w allowed found alone)
      ]
    ]
