-- ===== src/Webhook.antt =====
-- internal/telegrambot/webhook.go: the endpoint at which Telegram tells the bot of messages.
pub mod Command
pub mod Connection
pub mod Asked
pub mod Served
pub mod Greeted
use Prim.Native.String.{◌++◌ as ◌<>◌}
use message_delivery.Prelude.{
  ℕ, String, Bool, not, ◌&&◌, ◌==◌, Option, none, some, List, [], ◌∷◌, ◌++◌, if◌then◌else◌,
}
use message_delivery.Prelude.Int.{ℤ}
use message_delivery.Prelude.Fallible.{Fallible, ok, err}
use message_delivery.Prelude.Text.{trim_space}
use message_delivery.Config.{TelegramBotConfig, with_defaults}
use message_delivery.Provider.{Provider, Message, Attempt}
use message_delivery.Delivery.Event.{TelegramConnectionRequestedEvent}
use message_delivery.Webhook.Command.{is_plain_start}
use message_delivery.Webhook.Connection.{
  Update, UpdateMessage, Outside, private_user_update, telegram_connection_event, update_event_id,
  show_int,
}

-- The calls of PublishTelegramConnection and those of the welcome provider's Send so far.
pub record Traffic : Type 0 where
  pub published : List TelegramConnectionRequestedEvent
  pub greeted : List Attempt

-- Whether the publisher takes an event.
abbrev pub ConnectionPublisher : Type 0
ConnectionPublisher = Traffic → TelegramConnectionRequestedEvent → Bool

pub record WebhookHandler : Type 0 where
  pub cfg : TelegramBotConfig
  pub secret : String
  pub publisher : ConnectionPublisher
  pub welcome : Provider

pub data HandlerError : Type 0 where
  webhook_disabled secret_required publisher_required welcome_required : HandlerError

-- `NewWebhookHandler`; nil publishers and providers are refused.
unfoldable pub new_webhook_handler :
    TelegramBotConfig
    → String
    → Option ConnectionPublisher
    → Option Provider
    → Fallible HandlerError WebhookHandler
unfolding trim_space with_defaults
new_webhook_handler cfg secret publisher welcome =
    if not cfg.enabled
    then err webhook_disabled
    else if trim_space secret == ""
    then err secret_required
    else elim publisher [
      | none ↦ err publisher_required
      | some publish ↦ elim welcome [
        | none ↦ err welcome_required
        | some sender ↦ ok (record {
          cfg = record cfg { presentation = with_defaults cfg.presentation };
          secret = trim_space secret;
          publisher = publish;
          welcome = sender;
        })
      ]
    ]

-- `secret_token` is the header of that name, empty where it is missing.
pub record WebhookRequest {ℓ} (Body : Type ℓ) : Type ℓ where
  pub method : String
  pub secret_token : String
  pub body : Body

-- The status and, for an error, its text and the methods that are allowed.
pub record Response : Type 0 where
  pub status : ℕ
  pub text : String
  pub allow : Option String

abbrev http_error : String → ℕ → Response
http_error text status = record { status = status; text = text; allow = none }

abbrev no_content : Response
no_content = record { status = 204; text = ""; allow = none }

-- The message that greets, with the event whose chat gets it.
unfoldable pub greeting_of : TelegramConnectionRequestedEvent → String → String → Message
unfolding show_int
greeting_of event locale presentation = record {
  event_id = event.event_id <> "-welcome";
  template = "";
  subject = "";
  body = "";
  content_type = "";
  recipient_type = "telegram";
  recipient = show_int event.chat_id;
  variables = [];
  metadata = ("telegram_presentation", presentation) ∷ ("locale", locale) ∷ [];
}

unfoldable pub send_bot_greeting :
    WebhookHandler → TelegramConnectionRequestedEvent → String → String → Traffic → Traffic
unfolding greeting_of
send_bot_greeting handler event locale presentation t =
    let message : Message = greeting_of event locale presentation in
    record t {
      greeted =
          t.greeted
          ++ (record {
            provider = handler.welcome.name;
            message = message;
            result = handler.welcome.send t.greeted message;
          })
            ∷ [];
    }

unfoldable pub send_welcome :
    WebhookHandler → TelegramConnectionRequestedEvent → String → Traffic → Traffic
unfolding send_bot_greeting
send_welcome handler event locale t = send_bot_greeting handler event locale "welcome" t

-- The event that stands for a chat that is greeted only.
abbrev pub greeted_event : Update → UpdateMessage → TelegramConnectionRequestedEvent
greeted_event update message = record {
  version = "";
  event_id = update_event_id update;
  type = "";
  source = "";
  update_id = update.update_id;
  chat_id = message.chat.id;
  chat_username = "";
  start_token_hash = "";
  created_at = 0;
}

-- An update that is no connection: a plain start is greeted.
unfoldable pub answer_plain :
    WebhookHandler → Update → Option UpdateMessage → Traffic → Response × Traffic
unfolding private_user_update is_plain_start send_bot_greeting update_event_id
answer_plain handler update none t = (no_content, t)
answer_plain handler update (some message) t = (
  no_content,
  if private_user_update update && is_plain_start message.text
      then send_bot_greeting handler (greeted_event update message) message.from.language_code
          "start" t
      else t,
)

-- A connection: it is published, and the chat is welcomed if that succeeds.
unfoldable pub connect :
    WebhookHandler
    → TelegramConnectionRequestedEvent
    → Option UpdateMessage
    → Traffic
    → Response × Traffic
unfolding send_welcome
connect handler event message t =
    let after : Traffic = record t { published = t.published ++ event ∷ [] } in
    let locale : String = elim message [ none ↦ "" | some m ↦ m.from.language_code ] in
    if handler.publisher t event
    then (no_content, send_welcome handler event locale after)
    else (http_error "service unavailable" 503, after)

-- What follows on an update, by the connection that it asks for.
unfoldable pub respond :
    WebhookHandler → Update → Option TelegramConnectionRequestedEvent → Traffic → Response × Traffic
unfolding answer_plain connect
respond handler update none t = answer_plain handler update update.message t
respond handler update (some event) t = connect handler event update.message t

unfoldable pub serve_update : Outside → WebhookHandler → Update → Traffic → Response × Traffic
unfolding telegram_connection_event respond
serve_update outside handler update t =
    respond handler update (telegram_connection_event outside update) t

-- `ServeHTTP`. The decoder reads at most so many bytes of the body as the configuration allows.
unfoldable pub serve_http {ℓ} :
    {Body : Type ℓ}
    → (ℤ → Body → Option Update)
    → Outside
    → WebhookHandler
    → WebhookRequest Body
    → Traffic
    → Response × Traffic
unfolding serve_update
serve_http decode outside handler request t =
    if not (request.method == "POST")
    then (record { status = 405; text = "method not allowed"; allow = some "POST" }, t)
    else if not (request.secret_token == handler.secret)
    then (http_error "forbidden" 403, t)
    else elim (decode handler.cfg.max_body_bytes request.body) [
      | none ↦ (http_error "invalid update" 400, t)
      | some update ↦ serve_update outside handler update t
    ]
