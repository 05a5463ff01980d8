-- ===== src/Delivery/Orchestrator.antt =====
-- `Handle` of internal/delivery/orchestrator.go: one request, from its event to its published result.
mod Cases
pub mod Publishing
pub mod Walk
pub mod Fallback
pub mod Selected
pub mod Once
pub mod Redelivery
use message_delivery.Prelude.{
  ℕ, suc, ◌+◌, String, Bool, true, false, not, ◌&&◌, Option, none, some, List, [], ◌∷◌, ◌++◌, ◌==◌,
  length, is_empty, if◌then◌else◌,
}
use message_delivery.Prelude.Dict
use message_delivery.Prelude.Fallible.{Fallible, ok, err}
use message_delivery.Provider.{
  Message, Result, Attempt, Provider, Registry, get, status_sent, status_failed,
  status_undeliverable, err_provider_not_found,
}
use message_delivery.Config.{Config, allowed_provider, default_provider_chain}
use message_delivery.Template.{Files, Renderer, Rendered, TemplateError, render}
use message_delivery.Delivery.Event.{RequestEvent, ResultEvent, event_type_delivery_result}
use message_delivery.Delivery.Plan.{provider_plan}
use message_delivery.Delivery.Idempotency.{MemoryIdempotencyStore, is_seen, mark}
use message_delivery.Delivery.EventId.{new_event_id}
pub use message_delivery.Delivery.Reporting.{
  Publication, World, Env, Report, Handled, nil_request, done, not_published,
}
unfoldable pub use message_delivery.Delivery.Reporting.{result_event, publish_with, publish}

pub record Orchestrator : Type 0 where
  pub cfg : Config
  pub registry : Registry
  pub renderer : Renderer

-- How one round of the loop ends: with the next provider, or with a report to publish.
pub data Round : Type 0 where
  next : Round
  stop : Report → Round

unfoldable pub message_of : RequestEvent → Rendered → Message
message_of event rendered = record {
  event_id = event.event_id;
  template = event.template;
  subject = rendered.subject;
  body = rendered.body;
  content_type = rendered.content_type;
  recipient_type = event.recipient_type;
  recipient = event.recipient;
  variables = event.variables;
  metadata = event.metadata;
}

-- `o.seen != nil && o.seen.Seen(id)`, and the mark where there is a store.
abbrev pub seen_before : Option MemoryIdempotencyStore → String → Bool
seen_before none event_id = false
seen_before (some s) event_id = is_seen s event_id

abbrev pub mark_if_any : String → Option MemoryIdempotencyStore → Option MemoryIdempotencyStore
mark_if_any event_id none = none
mark_if_any event_id (some s) = some (mark s event_id)

-- The `switch` on the answer of the provider.
unfoldable pub after_send : RequestEvent → String → ℕ → Result → World → Round × World
after_send event name attempt result w =
    if result.status == status_sent
    then (
      stop (record { provider = name; attempt = attempt; status = status_sent; error_code = "" }),
      record w { seen = mark_if_any event.event_id w.seen },
    )
    else if result.status == status_undeliverable
    then (
      if event.delivery.selected_provider == name && not event.delivery.allow_fallback
          then stop (record {
            provider = name;
            attempt = attempt;
            status = status_undeliverable;
            error_code = result.error_code;
          })
          else next,
      w,
    )
    else (
      stop (record {
        provider = name;
        attempt = attempt;
        status = status_failed;
        error_code = result.error_code;
      }),
      w,
    )

-- A provider that cannot be asked ends the loop if it is the selected one.
abbrev pub passed_over : RequestEvent → String → ℕ → String → Round
passed_over event name attempt error_code =
    if event.delivery.selected_provider == name
    then stop (record {
      provider = name;
      attempt = attempt;
      status = status_failed;
      error_code = error_code;
    })
    else next

-- A provider's answer, as one of the calls so far.
abbrev pub attempt_of : RequestEvent → Rendered → String → Provider → World → Attempt
attempt_of event rendered name sender w =
    let message : Message = message_of event rendered in
    record { provider = name; message = message; result = sender.send w.attempts message }

abbrev pub with_attempt : Attempt → World → World
with_attempt a w = record w { attempts = w.attempts ++ a ∷ [] }

module _ (o : Orchestrator) (event : RequestEvent) (rendered : Rendered) where
  -- One round of the loop over the plan.
  unfoldable pub try_provider : String → ℕ → World → Round × World
  try_provider name attempt w =
      if allowed_provider o.cfg event.recipient_type name
      then elim (get name o.registry) [
        | none ↦ (passed_over event name attempt err_provider_not_found, w)
        | some sender ↦
            let a : Attempt = attempt_of event rendered name sender w in
            after_send event name attempt a.result (with_attempt a w)
      ]
      else (passed_over event name attempt "provider_not_allowed", w)

  -- The loop over what is left of the plan, `total` being `len(plan)`.
  unfoldable pub try_all : ℕ → List String → ℕ → World → Report × World
  try_all total [] attempt w = (
    record {
      provider = "";
      attempt = total;
      status = status_undeliverable;
      error_code = "all_providers_undeliverable";
    },
    w,
  )
  try_all total (name ∷ names) attempt w =
      let (round, w') = try_provider name attempt w in
      elim round [ stop report ↦ (report, w') | next ↦ try_all total names (attempt + 1) w' ]

abbrev pub failed_report : String → Report
failed_report error_code = record {
  provider = "";
  attempt = 0;
  status = status_failed;
  error_code = error_code;
}

abbrev pub duplicate_report : Report
duplicate_report = record {
  provider = "";
  attempt = 0;
  status = status_sent;
  error_code = "duplicate_ignored";
}

abbrev pub after_render :
    Orchestrator
    → RequestEvent
    → List String
    → Fallible TemplateError Rendered
    → World
    → Report × World
after_render o event plan (err e) w = (failed_report "template_error", w)
after_render o event plan (ok rendered) w = try_all o event rendered (length plan) plan 1 w

-- The request's chain of providers, in the order in which they are tried.
unfoldable pub plan_of : Orchestrator → RequestEvent → List String
plan_of o event = provider_plan event (default_provider_chain o.cfg event.recipient_type)

unfoldable pub rendered_of : Env → Orchestrator → RequestEvent → Fallible TemplateError Rendered
rendered_of env o event =
    render env.files o.renderer event.template (Dict.index "locale" event.metadata) event.variables

-- Everything that `Handle` does before its one call of `publish`.
unfoldable pub decide : Env → Orchestrator → RequestEvent → World → Report × World
decide env o event w =
    if seen_before w.seen event.event_id
    then (duplicate_report, w)
    else if is_empty (plan_of o event)
    then (failed_report "provider_chain_empty", w)
    else after_render o event (plan_of o event) (rendered_of env o event) w

-- `Orchestrator.Handle`
unfoldable pub handle : Env → Orchestrator → Option RequestEvent → World → Handled × World
handle env o none w = (nil_request, w)
handle env o (some event) w = let (report, w') = decide env o event w in publish env event report w'

-- Opens everything that the handling of a request computes with.
unfoldable pub orchestrator : Unit {0}
unfolding handle decide publish result_event new_event_id plan_of provider_plan
    default_provider_chain rendered_of render Dict.index try_all try_provider after_send message_of
    allowed_provider get is_seen mark
orchestrator = tt
