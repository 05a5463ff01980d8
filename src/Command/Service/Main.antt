-- ===== src/Command/Service/Main.antt =====
-- cmd/main.go: `main` up to the server that it starts, and the routes of this server.
pub mod Reached
pub mod Serving
use Prim.Native.String.{◌++◌ as ◌<>◌}
use message_delivery.Prelude.{
  ℕ, String, Bool, true, false, not, ◌&&◌, ◌||◌, ◌==◌, Option, none, some, List, [], ◌∷◌, map,
  if◌then◌else◌,
}
use message_delivery.Prelude.Fallible.{Fallible, ok, err}
use message_delivery.Prelude.Dict
use message_delivery.Prelude.Dict.{Dict}
use message_delivery.Config.{Config}
use message_delivery.Config.Load.{Sources, LoadError, load}
use message_delivery.Provider.Factory.{Services}
use message_delivery.Webhook.{ConnectionPublisher, WebhookHandler}
use message_delivery.Command.Service.{
  Round, Connected, connected, cancelled, unfinished, connect_broker, StartError, Wired, wire,
  run_healthcheck,
}

-- What answers a request in the end: the text of the health check, or the webhook.
pub record HealthResponse : Type 0 where
  pub content_type : String
  pub body : String

-- The health check, `quoted` being the version as `%q` writes it.
abbrev pub health_response : String → HealthResponse
health_response quoted = record {
  content_type = "application/json";
  body = "{\"status\":\"ok\",\"version\":" <> (quoted <> "}");
}

pub data Endpoint : Type 0 where
  health : HealthResponse → Endpoint
  webhook : WebhookHandler → Endpoint

-- A handler, by the path that is asked for: the endpoint that it comes to, or 404.
abbrev pub Handler : Type 0
Handler = String → Option Endpoint

-- `http.ServeMux`: which of the registered patterns it takes for a path, if any.
abbrev pub ServeMux : Type 0
ServeMux = List String → String → Option String

-- The handler of the pattern that was taken.
unfoldable pub follow : Dict Handler → String → Option String → Option Endpoint
unfolding Dict.lookup
follow handlers path none = none
follow handlers path (some pattern) = elim (Dict.lookup pattern handlers) [
  | none ↦ none
  | some handler ↦ handler path
]

module _ (mux : ServeMux) where
  -- A mux on which handlers are registered.
  unfoldable pub route : Dict Handler → Handler
  unfolding follow
  route handlers path = follow handlers path (mux (map (λ h. h.0) handlers) path)

  -- `withTelegramWebhook`
  unfoldable pub with_telegram_webhook : Handler → String → WebhookHandler → Handler
  unfolding route
  with_telegram_webhook base path handler =
      route (("/", base) ∷ (path, λ _. some (webhook handler)) ∷ [])

  -- `healthHandler`
  unfoldable pub health_handler : String → Handler
  unfolding route
  health_handler quoted = route (("/health", λ _. some (health (health_response quoted))) ∷ [])

  -- The handler that `main` makes.
  unfoldable pub handler_of : String → Config → Option WebhookHandler → Handler
  unfolding health_handler with_telegram_webhook
  handler_of quoted cfg none = health_handler quoted
  handler_of quoted cfg (some handler) =
      with_telegram_webhook (health_handler quoted) cfg.telegram_bot.webhook_path handler

-- The server, its times in seconds.
pub record Server : Type 0 where
  pub addr : String
  pub handler : Handler
  pub read_header_timeout : ℕ
  pub read_timeout : ℕ
  pub write_timeout : ℕ
  pub idle_timeout : ℕ

unfoldable pub server_of : Config → Handler → Server
server_of cfg handler = record {
  addr = cfg.host <> (":" <> cfg.port);
  handler = handler;
  read_header_timeout = 3;
  read_timeout = 5;
  write_timeout = 5;
  idle_timeout = 30;
}

pub record Flags : Type 0 where
  pub config : String
  pub healthcheck : String

-- How far `main` gets: it exits with a code; it starts the server and the worker; or it would need
-- more rounds to reach the broker.
pub data Outcome : Type 0 where
  exits : ℕ → Outcome
  serves : Server → Wired → Outcome
  connecting : Outcome

module _ (mux : ServeMux) (quoted : String) (sources : Sources) (services : Services)
    (publisher : ConnectionPublisher) where
  -- `logger.Fatalf` exits with 1.
  unfoldable pub served : Config → Fallible StartError Wired → Outcome
  unfolding server_of handler_of
  served cfg (err e) = exits 1
  served cfg (ok wired) = serves (server_of cfg (handler_of mux quoted cfg wired.webhook)) wired

  unfoldable pub after_connecting : Config → Connected → Outcome
  unfolding served wire
  after_connecting cfg (connected calls) = served cfg (wire services publisher cfg)
  after_connecting cfg cancelled = exits 1
  after_connecting cfg unfinished = connecting

  unfoldable pub after_loading : (ℕ → Round) → ℕ → Fallible LoadError Config → Outcome
  unfolding after_connecting connect_broker
  after_loading rounds fuel (err e) = exits 1
  after_loading rounds fuel (ok cfg) =
      after_connecting cfg (connect_broker cfg.broker rounds fuel 0).0

  -- `main`, over the answer to a health check and the rounds in which it tries to reach the broker.
  unfoldable pub main : (String → Option ℕ) → (ℕ → Round) → ℕ → Flags → Outcome
  unfolding after_loading load run_healthcheck
  main status_of rounds fuel flags =
      if not (flags.healthcheck == "")
      then exits (run_healthcheck (status_of flags.healthcheck))
      else after_loading rounds fuel (load sources flags.config)
