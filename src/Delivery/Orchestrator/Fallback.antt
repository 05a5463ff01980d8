-- ===== src/Delivery/Orchestrator/Fallback.antt =====
-- What the request's policy does to the walk where it selects no provider.
use message_delivery.Prelude.{
  ℕ, ◌+◌, String, ◌≡◌, refl, ap, Bool, false, List, [], ◌∷◌, arith, eq_iff, if◌then◌else◌, length,
  is_empty, some, eq_refl,
}
use message_delivery.Delivery.Plan.{provider_plan}
use message_delivery.Prelude.Fallible.{Fallible, ok, err}
use message_delivery.Config.{allowed_provider}
use message_delivery.Template.{Rendered}
use message_delivery.Delivery.Event.{RequestEvent}
use message_delivery.Delivery.Orchestrator.{
  World, Env, Orchestrator, Report, try_all, try_provider, after_send, message_of, publish,
  result_event, plan_of, rendered_of, after_render, seen_before, duplicate_report, failed_report,
  decide, handle, after_send, message_of, publish, result_event, rendered_of, plan_of,
  provider_plan, TemplateError, some, length, status_failed, stop, true, get, none,
  err_provider_not_found,
}

-- The request with the flag `allow_fallback` set anew.
abbrev pub with_fallback : Bool → RequestEvent → RequestEvent
with_fallback flag e = record e { delivery = record e.delivery { allow_fallback = flag } }

module _ (o : Orchestrator) (e : RequestEvent) (r : Rendered) (flag : Bool)
    (unselected : e.delivery.selected_provider ≡ "")
    (unnamed : allowed_provider o.cfg e.recipient_type "" ≡ false) where
  try_provider-with_fallback :
      (name : String) (attempt : ℕ) (w : World)
      → try_provider o (with_fallback flag e) r name attempt w ≡ try_provider o e r name attempt w
  unfolding try_provider after_send message_of
  try_provider-with_fallback name attempt w =
      ground (arith, eq_iff e.delivery.selected_provider name, eq_iff name "")

  try_all-with_fallback :
      (total : ℕ) (names : List String) (attempt : ℕ) (w : World)
      → try_all o (with_fallback flag e) r total names attempt w
        ≡ try_all o e r total names attempt w
  unfolding try_all
  try_all-with_fallback total [] attempt w = refl
  try_all-with_fallback total (name ∷ names) attempt w = ground (
    arith,
    try_provider-with_fallback name attempt w,
    try_all-with_fallback total names (attempt + 1) (try_provider o e r name attempt w).1,
  )

module _ (o : Orchestrator) (e : RequestEvent) (flag : Bool)
    (unselected : e.delivery.selected_provider ≡ "") where
  plan_of-with_fallback : plan_of o (with_fallback flag e) ≡ plan_of o e
  unfolding plan_of provider_plan
  plan_of-with_fallback = ground (arith, eq_iff e.delivery.selected_provider "")

after_render-with_fallback :
    (o : Orchestrator) (e : RequestEvent) (flag : Bool) (plan : List String)
    (rendered : Fallible TemplateError Rendered) (w : World)
    → ((r : Rendered)
        → try_all o (with_fallback flag e) r (length plan) plan 1 w
          ≡ try_all o e r (length plan) plan 1 w)
    → after_render o (with_fallback flag e) plan rendered w ≡ after_render o e plan rendered w
after_render-with_fallback o e flag plan (err problem) w same = refl
after_render-with_fallback o e flag plan (ok r) w same = same r

decide-with_fallback :
    (env : Env) (o : Orchestrator) (e : RequestEvent) (flag : Bool) (w : World)
    → e.delivery.selected_provider ≡ ""
    → allowed_provider o.cfg e.recipient_type "" ≡ false
    → decide env o (with_fallback flag e) w ≡ decide env o e w
unfolding decide rendered_of
decide-with_fallback env o e flag w unselected unnamed =
    let plan : List String = plan_of o e in
    rw (plan_of-with_fallback o e flag unselected) (
      ap
        (λ d.
          if seen_before w.seen e.event_id
          then (duplicate_report, w)
          else if is_empty plan
          then (failed_report "provider_chain_empty", w)
          else d)
        (after_render-with_fallback o e flag plan (rendered_of env o e) w
          (λ r. try_all-with_fallback o e r flag unselected unnamed (length plan) plan 1 w)))

-- Where the request selects no provider, and the empty name is not an allowed provider, the flag
-- `allow_fallback` has no influence at all: set either way it leads to the same calls, the same
-- published result and the same state.
pub handle-with_fallback :
    (env : Env) (o : Orchestrator) (e : RequestEvent) (flag : Bool) (w : World)
    → e.delivery.selected_provider ≡ ""
    → allowed_provider o.cfg e.recipient_type "" ≡ false
    → handle env o (some (with_fallback flag e)) w ≡ handle env o (some e) w
unfolding handle publish result_event
handle-with_fallback env o e flag w unselected unnamed =
    rw (decide-with_fallback env o e flag w unselected unnamed)

-- A provider of the plan that is not asked, with the code that tells why.
pub data IsRefused (o : Orchestrator) (e : RequestEvent) (name : String) : String → Type 0 where
  not_allowed :
      allowed_provider o.cfg e.recipient_type name ≡ false
      → IsRefused o e name "provider_not_allowed"
  not_registered :
      allowed_provider o.cfg e.recipient_type name ≡ true
      → get name o.registry ≡ none
      → IsRefused o e name err_provider_not_found

abbrev pub refusal : String → String → Report
refusal name error_code = record {
  provider = name;
  attempt = 1;
  status = status_failed;
  error_code = error_code;
}

try_provider_refused :
    (o : Orchestrator) (e : RequestEvent) (r : Rendered) (name error_code : String) (w : World)
    → e.delivery.selected_provider ≡ name
    → IsRefused o e name error_code
    → try_provider o e r name 1 w ≡ (stop (refusal name error_code), w)
unfolding try_provider
try_provider_refused o e r name _ w selected (not_allowed unallowed) =
    rw (unallowed, selected, eq_refl name) refl
try_provider_refused o e r name _ w selected (not_registered allowed missing) =
    rw (allowed, missing, selected, eq_refl name) refl

try_all_refused :
    (o : Orchestrator) (e : RequestEvent) (r : Rendered) (total : ℕ) (name : String)
    (rest : List String) (error_code : String) (w : World)
    → e.delivery.selected_provider ≡ name
    → IsRefused o e name error_code
    → try_all o e r total (name ∷ rest) 1 w ≡ (refusal name error_code, w)
unfolding try_all
try_all_refused o e r total name rest error_code w selected is_refused =
    ground (arith, try_provider_refused o e r name error_code w selected is_refused)

-- Where the plan begins with the selected provider, or with the empty name where none is selected,
-- and this one is not allowed or not registered, a new request that renders is reported as "failed"
-- with the code that tells why, whether or not fallback is allowed, and no provider is asked.
pub decide_selected_refused :
    (env : Env) (o : Orchestrator) (e : RequestEvent) (r : Rendered) (name : String)
    (rest : List String) (error_code : String) (w : World)
    → seen_before w.seen e.event_id ≡ false
    → rendered_of env o e ≡ ok r
    → plan_of o e ≡ name ∷ rest
    → e.delivery.selected_provider ≡ name
    → IsRefused o e name error_code
    → decide env o e w ≡ (
      record { provider = name; attempt = 1; status = status_failed; error_code = error_code },
      w,
    )
unfolding decide
decide_selected_refused env o e r name rest error_code w new renders plan selected is_refused =
    rw (new, plan, renders) (try_all_refused o e r _ name rest error_code w selected is_refused)

-- The case of an empty name where no provider is selected.
decide_empty_name :
    (env : Env) (o : Orchestrator) (e : RequestEvent) (r : Rendered) (rest : List String)
    (w : World)
    → seen_before w.seen e.event_id ≡ false
    → rendered_of env o e ≡ ok r
    → plan_of o e ≡ "" ∷ rest
    → e.delivery.selected_provider ≡ ""
    → allowed_provider o.cfg e.recipient_type "" ≡ false
    → decide env o e w ≡ (refusal "" "provider_not_allowed", w)
decide_empty_name env o e r rest w new renders plan unselected unnamed =
    decide_selected_refused env o e r "" rest _ w new renders plan unselected (not_allowed unnamed)
