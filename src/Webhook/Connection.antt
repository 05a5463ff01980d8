-- ===== src/Webhook/Connection.antt =====
-- What Telegram tells of a message, and the connection that it asks for: `update`,
-- `telegramConnectionEvent` and `privateUserUpdate` of internal/telegrambot/webhook.go.
use Prim.Native.String.{◌++◌ as ◌<>◌}
use message_delivery.Prelude.{
  ℕ, suc, String, Bool, false, not, ◌&&◌, ◌==◌, Option, none, some, List, is_some, if◌then◌else◌,
}
use message_delivery.Prelude.Int.{ℤ, pos, negsuc, is_positive, same_int}
use message_delivery.Prelude.Text.{trim_space}
use message_delivery.Delivery.Event.{
  TelegramConnectionRequestedEvent, event_type_telegram_connection_requested, validate_connection,
}
use message_delivery.Delivery.EventId.{decimal, hex_encode}
use message_delivery.Webhook.Command.{start_token}

pub record Chat : Type 0 where
  pub id : ℤ
  pub type : String
  pub username : String

pub record Sender : Type 0 where
  pub id : ℤ
  pub username : String
  pub language_code : String

pub record UpdateMessage : Type 0 where
  pub text : String
  pub chat : Chat
  pub from : Sender

pub record Update : Type 0 where
  pub update_id : ℤ
  pub message : Option UpdateMessage

-- The bytes of `sha256.Sum256`, and the time in nanoseconds.
pub record Outside : Type 0 where
  pub sha256 : String → List ℕ
  pub now : ℕ

-- `%d`
unfoldable pub show_int : ℤ → String
unfolding decimal
show_int (pos n) = decimal n
show_int (negsuc n) = "-" <> decimal (suc n)

unfoldable pub update_event_id : Update → String
unfolding show_int
update_event_id update = "telegram-bot-update-" <> show_int update.update_id

unfoldable pub is_private : UpdateMessage → Bool
is_private m = m.chat.type == "private" && is_positive m.chat.id && same_int m.from.id m.chat.id

unfoldable pub private_user_update : Update → Bool
unfolding is_private
private_user_update update =
    is_positive update.update_id && elim update.message [ none ↦ false | some m ↦ is_private m ]

unfoldable pub telegram_start_token_hash : Outside → String → String
unfolding hex_encode
telegram_start_token_hash outside token = hex_encode (outside.sha256 token)

abbrev chat_username : UpdateMessage → String
chat_username m =
    if trim_space m.chat.username == ""
    then trim_space m.from.username
    else trim_space m.chat.username

unfoldable pub connection_event :
    Outside → Update → UpdateMessage → String → TelegramConnectionRequestedEvent
unfolding update_event_id trim_space telegram_start_token_hash
connection_event outside update m token = record {
  version = "1.0";
  event_id = update_event_id update;
  type = event_type_telegram_connection_requested;
  source = "message-delivery.telegram-bot";
  update_id = update.update_id;
  chat_id = m.chat.id;
  chat_username = chat_username m;
  start_token_hash = telegram_start_token_hash outside token;
  created_at = outside.now;
}

-- The event, unless its validation fails.
unfoldable pub if_valid : TelegramConnectionRequestedEvent → Option TelegramConnectionRequestedEvent
unfolding validate_connection
if_valid event = if is_some (validate_connection event) then none else some event

unfoldable pub connection_of_message :
    Outside → Update → UpdateMessage → Option TelegramConnectionRequestedEvent
unfolding start_token connection_event if_valid
connection_of_message outside update m = elim (start_token m.text) [
  | none ↦ none
  | some token ↦ if_valid (connection_event outside update m token)
]

-- `telegramConnectionEvent`
unfoldable pub telegram_connection_event :
    Outside → Update → Option TelegramConnectionRequestedEvent
unfolding private_user_update connection_of_message
telegram_connection_event outside update =
    if not (private_user_update update)
    then none
    else elim update.message [ none ↦ none | some m ↦ connection_of_message outside update m ]
