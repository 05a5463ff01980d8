-- ===== src/Command/Service.antt =====
-- cmd/main.go: the service. Its signals and the listening of its server are outside of the model.
pub mod Connecting
pub mod Wiring
pub mod Running
pub mod Together
pub mod Main
use message_delivery.Prelude.{
  ℕ, zero, suc, String, Bool, true, false, not, Option, none, some, List, [], ◌∷◌, ◌++◌, eqb,
  if◌then◌else◌,
}
use message_delivery.Prelude.Fallible.{Fallible, ok, err}
use message_delivery.Config.{Config, BrokerConfig}
use message_delivery.Provider.{Provider, get}
use message_delivery.Provider.Factory.{Services, new_registry_from_config}
use message_delivery.Delivery.Orchestrator.{Orchestrator}
use message_delivery.Broker.{Client, Operation, BrokerError, Link, connect, close, setup, consume}
use message_delivery.Webhook.{
  ConnectionPublisher, WebhookHandler, HandlerError, new_webhook_handler,
}

-- One round of the loop of `connectBroker`: whether the broker can be reached, what it then answers,
-- and whether the context is done before the two seconds of the pause are over.
pub record Round : Type 0 where
  pub connects : Bool
  pub client : Client
  pub done : Bool

pub data ConnectError : Type 0 where
  dial_failed : ConnectError
  setup_failed : BrokerError → ConnectError

-- A round reaches the end, with the calls of its connection, or the error that is logged. A consumer
-- that cannot be made is logged as nil: the `err` of its `if` hides the one that the line prints.
pub data Reached : Type 0 where
  consumes : List Operation → Reached
  logs : Option ConnectError → Reached

abbrev pub consumed :
    Fallible BrokerError (Unit {0}) × List Operation → List Link → Reached × List Link
consumed (ok _, calls) links = (consumes calls, links)
consumed (err e, calls) links = (logs none, close true links)

abbrev pub after_setup :
    Client
    → BrokerConfig
    → Fallible BrokerError (Unit {0}) × List Operation
    → List Link
    → Reached × List Link
after_setup client cfg (err e, calls) links = (logs (some (setup_failed e)), close true links)
after_setup client cfg (ok _, calls) links = consumed (consume client cfg calls) links

-- One round, with what it does to connections.
unfoldable pub try_round : BrokerConfig → Round → Reached × List Link
unfolding connect setup consume
try_round cfg round =
    let (there, links) = connect round.connects [] in
    if not there
    then (logs (some dial_failed), links)
    else after_setup round.client cfg (setup round.client cfg []) links

-- How the loop ends; the last where the fuel is used up.
pub data Connected : Type 0 where
  connected : List Operation → Connected
  cancelled : Connected
  unfinished : Connected

-- After a round that logged: the end, or what the later rounds come to.
abbrev pub after_pause :
    Bool
    → Option ConnectError
    → List Link
    → Connected × (List (Option ConnectError) × List Link)
    → Connected × (List (Option ConnectError) × List Link)
after_pause true problem links later = (cancelled, (problem ∷ [], links))
after_pause false problem links (ended, (problems, rest)) =
    (ended, (problem ∷ problems, links ++ rest))

-- `connectBroker`, from one of its rounds on, with the errors that it logs, and the connections that
-- it dials and closes.
unfoldable pub connect_broker :
    BrokerConfig → (ℕ → Round) → ℕ → ℕ → Connected × (List (Option ConnectError) × List Link)
unfolding try_round
connect_broker cfg rounds zero n = (unfinished, ([], []))
connect_broker cfg rounds (suc fuel) n =
    let later = connect_broker cfg rounds fuel (suc n) in
    let (reached, links) = try_round cfg (rounds n) in
    elim reached [
      | consumes calls ↦ (connected calls, ([], links))
      | logs problem ↦ after_pause (rounds n).done problem links later
    ]

pub data StartError : Type 0 where
  welcome_not_found : String → StartError
  webhook_failed : HandlerError → StartError

-- What `main` makes of a configuration that it loaded.
pub record Wired : Type 0 where
  pub orchestrator : Orchestrator
  pub webhook : Option WebhookHandler

unfoldable pub orchestrator_of : Services → Config → Orchestrator
unfolding new_registry_from_config
orchestrator_of services cfg = record {
  cfg = cfg;
  registry = new_registry_from_config services cfg;
  renderer = record { cfg = cfg.templates };
}

abbrev pub handler_or_failed :
    Fallible HandlerError WebhookHandler → Fallible StartError (Option WebhookHandler)
handler_or_failed (ok handler) = ok (some handler)
handler_or_failed (err e) = err (webhook_failed e)

-- The webhook, its greetings being sent by the provider found under the default name.
unfoldable pub webhook_of :
    Services
    → ConnectionPublisher
    → Config
    → Option Provider
    → Fallible StartError (Option WebhookHandler)
unfolding new_webhook_handler
webhook_of services publisher cfg none =
    err (welcome_not_found cfg.providers.telegram.default_provider)
webhook_of services publisher cfg (some welcome) = handler_or_failed (
    new_webhook_handler cfg.telegram_bot (services.getenv cfg.telegram_bot.webhook_secret_env)
      (some publisher) (some welcome))

unfoldable pub webhook_if :
    Bool
    → Services
    → ConnectionPublisher
    → Config
    → Option Provider
    → Fallible StartError (Option WebhookHandler)
unfolding webhook_of
webhook_if true services publisher cfg found = webhook_of services publisher cfg found
webhook_if false services publisher cfg found = ok none

abbrev pub wired :
    Orchestrator → Fallible StartError (Option WebhookHandler) → Fallible StartError Wired
wired orchestrator (ok webhook) = ok (record { orchestrator = orchestrator; webhook = webhook })
wired orchestrator (err e) = err e

unfoldable pub wire : Services → ConnectionPublisher → Config → Fallible StartError Wired
unfolding orchestrator_of webhook_if get
wire services publisher cfg =
    let orchestrator : Orchestrator = orchestrator_of services cfg in
    wired orchestrator (
      webhook_if cfg.telegram_bot.enabled services publisher cfg
        (get cfg.providers.telegram.default_provider orchestrator.registry))

-- `runHealthcheck`: the exit code, by the status of the answer, if there is one.
unfoldable pub run_healthcheck : Option ℕ → ℕ
run_healthcheck none = 1
run_healthcheck (some status_code) = if not (eqb status_code 200) then 1 else 0
