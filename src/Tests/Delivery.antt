-- ===== src/Tests/Delivery.antt =====
-- Plans, walks and results.
use message_delivery.Delivery.Orchestrator.Selected.{IsSelectedFirst, decide-IsSelectedFirst}
use message_delivery.Prelude.{
  ℕ, String, ◌≡◌, ◌≢◌, ◌↔◌, refl, true, false, none, some, List, [], ◌∷◌, ◌++◌, arith, eq_iff, keep,
  is_empty, ap,
}
use message_delivery.Prelude.Int.{pos}
use message_delivery.Prelude.Fallible.{ok}
use message_delivery.Prelude.Text.{char_count, all_chars}
use message_delivery.Provider.{new_unavailable}
use message_delivery.Config.{allowed_provider, default_provider_chain, set_defaults}
use message_delivery.Delivery.Event.{
  RequestEvent, TelegramConnectionRequestedEvent, validate_request, validate_connection,
  decode_request, is_lower_hex,
}
use message_delivery.Delivery.Event.Valid.{IsValidRequest, validate_request_iff, decode_request_iff}
use message_delivery.Delivery.EventId.{new_event_id}
use message_delivery.Delivery.EventId.Laws.{hex_decode, new_event_id_random}
use message_delivery.Delivery.Plan.{provider_plan}
use message_delivery.Delivery.Plan.Order.{distinct, is_named, provider_plan_fallback}
use message_delivery.Delivery.Plan.Nonempty.{IsNamed, provider_plan-IsNamed}
use message_delivery.Delivery.Orchestrator.{
  World, Env, Orchestrator, Publication, Report, decide, handle, rendered_of, plan_of,
  duplicate_report,
}
use message_delivery.Delivery.Orchestrator.Publishing.{handle_publishes_once, outcome}
use message_delivery.Delivery.Orchestrator.Redelivery.{decide-handle_again}
use message_delivery.Delivery.Orchestrator.Fallback.{with_fallback, handle-with_fallback}
use message_delivery.Delivery.Orchestrator.Walk.Loop.{Walk, decide-Walk}
use message_delivery.Delivery.Orchestrator
use message_delivery.Tests.Sample.{
  config, orchestrator, env, request, policy, rendered, store, empty_world, accept_all,
}

-- Both e-mail providers are named, the first being the selected one.
abbrev ask : RequestEvent
ask = request (policy "smtp" ("smtp" ∷ "" ∷ "backup" ∷ []) true)

plan_runs : provider_plan ask ("smtp" ∷ "backup" ∷ []) ≡ "smtp" ∷ "backup" ∷ []
unfolding provider_plan
plan_runs = refl

renders : rendered_of env orchestrator ask ≡ ok rendered
unfolding Orchestrator.orchestrator
renders = refl

-- The first provider is unavailable, and the second takes the message.
falls_back :
    (decide env orchestrator ask empty_world).0
    ≡ record { provider = "backup"; attempt = 2; status = "sent"; error_code = "" }
unfolding Orchestrator.orchestrator new_unavailable
falls_back = refl

smtp_ne_empty : ◌≢◌ {A = String} "smtp" ""
smtp_ne_empty = ground (arith, eq_iff "smtp" "")

provider_plan_fallback_example :
    provider_plan ask ("telegram" ∷ "smtp" ∷ [])
    ≡ distinct
        ("smtp" ∷ keep is_named (("smtp" ∷ "" ∷ "backup" ∷ []) ++ ("telegram" ∷ "smtp" ∷ [])))
provider_plan_fallback_example =
    provider_plan_fallback ask ("telegram" ∷ "smtp" ∷ []) smtp_ne_empty refl

ask-IsValidRequest : IsValidRequest ask
ask-IsValidRequest = (validate_request_iff ask).0 (unfold validate_request in refl)

-- Its chain names two providers.
abbrev chained : RequestEvent
chained = request (policy "" ("smtp" ∷ "backup" ∷ []) true)

chained-IsValidRequest : IsValidRequest chained
chained-IsValidRequest = (validate_request_iff chained).0 (unfold validate_request in refl)

provider_plan-IsNamed_example :
    let plan = provider_plan chained (default_provider_chain (set_defaults config) "email") in
    (is_empty plan ≡ false) × IsNamed plan
provider_plan-IsNamed_example =
    provider_plan-IsNamed config chained chained-IsValidRequest ((λ h. cc (h)), ((λ h. cc (h)), tt))
      ((λ h. cc (h)), ((λ h. cc (h)), tt)) (λ h. cc (h))

validate_request_iff_example : (validate_request ask ≡ none) ↔ IsValidRequest ask
validate_request_iff_example = validate_request_iff ask

decode_request_iff_example :
    (decode_request (λ (body : ℕ). some ask) 3 ≡ ok ask)
    ↔ ((some ask ≡ some ask) × IsValidRequest ask)
decode_request_iff_example = decode_request_iff (λ (body : ℕ). some ask) 3 ask

abbrev connection : TelegramConnectionRequestedEvent
connection = record {
  version = "1.0";
  event_id = "telegram-bot-update-7";
  type = "notification.telegram.connection.requested";
  source = "message-delivery.telegram-bot";
  update_id = pos 7;
  chat_id = pos 9;
  chat_username = "";
  start_token_hash = "00112233445566778899aabbccddeeff00112233445566778899aabbccddeeff";
  created_at = 5;
}

connection_passes : validate_connection connection ≡ none
unfolding validate_connection
connection_passes = refl

abbrev sixteen : List ℕ
sixteen = 0 ∷ 1 ∷ 2 ∷ 3 ∷ 4 ∷ 5 ∷ 6 ∷ 7 ∷ 8 ∷ 9 ∷ 10 ∷ 11 ∷ 12 ∷ 13 ∷ 14 ∷ 255 ∷ []

new_event_id_runs :
    (new_event_id (some sixteen) 7 ≡ "000102030405060708090a0b0c0d0eff")
    × (new_event_id none 1203 ≡ "event-1203")
unfolding new_event_id
new_event_id_runs = (refl, refl)

new_event_id_random_example :
    (char_count (new_event_id (some sixteen) 7) ≡ 32)
    × (all_chars is_lower_hex (new_event_id (some sixteen) 7) ≡ true)
    × (hex_decode (new_event_id (some sixteen) 7) ≡ sixteen)
new_event_id_random_example = new_event_id_random sixteen 7 refl (omega arith)

handle_publishes_once_example :
    (p : Publication) × ((handle env orchestrator (some ask) empty_world).1.published ≡ p ∷ [])
    × ((handle env orchestrator (some ask) empty_world).0 ≡ outcome p)
    × (p.event.request_event_id ≡ "e1")
    × (p.event.type ≡ "message.delivery.result")
    × (p.event.version ≡ "v1")
    × (p.event.recipient_type ≡ "email")
    × (p.event.recipient ≡ "a@b.example")
handle_publishes_once_example =
    handle_publishes_once env orchestrator ask empty_world accept_all refl

decide-handle_again_example :
    decide env orchestrator ask (handle env orchestrator (some ask) empty_world).1
    ≡ (duplicate_report, (handle env orchestrator (some ask) empty_world).1)
decide-handle_again_example =
    decide-handle_again env env orchestrator orchestrator ask ask empty_world store refl
      (ap (λ (r : Report). r.status) falls_back) refl

abbrev unselected : RequestEvent
unselected = request (policy "" ("smtp" ∷ "backup" ∷ []) true)

empty_not_allowed : allowed_provider config "email" "" ≡ false
unfolding allowed_provider
empty_not_allowed = refl

handle-with_fallback_example :
    handle env orchestrator (some (with_fallback false unselected)) empty_world
    ≡ handle env orchestrator (some unselected) empty_world
handle-with_fallback_example =
    handle-with_fallback env orchestrator unselected false empty_world refl empty_not_allowed

-- The selected provider is no adapter of the configuration, and another one would be there.
abbrev misnamed : RequestEvent
misnamed = request (policy "nobody" ("backup" ∷ []) true)

misnamed_fails :
    (decide env orchestrator misnamed empty_world).0.error_code ≡ "provider_not_allowed"
unfolding Orchestrator.orchestrator
misnamed_fails = refl

decide-IsSelectedFirst_example :
    IsSelectedFirst orchestrator misnamed rendered "nobody" empty_world
      (decide env orchestrator misnamed empty_world).0
      (decide env orchestrator misnamed empty_world).1
unfolding Orchestrator.orchestrator
decide-IsSelectedFirst_example =
    decide-IsSelectedFirst env orchestrator misnamed rendered empty_world (λ h. cc (h)) refl refl

decide-Walk_example :
    Walk orchestrator ask rendered
      (plan_of orchestrator ask)
      empty_world
      (decide env orchestrator ask empty_world).0
      (decide env orchestrator ask empty_world).1
unfolding Orchestrator.orchestrator
decide-Walk_example = decide-Walk env orchestrator ask rendered empty_world refl refl
