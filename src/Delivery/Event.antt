-- ===== src/Delivery/Event.antt =====
-- internal/delivery/event.go: the events and their validation. `DecodeRequest` validates what JSON
-- gave; the decoder itself is an argument.
pub mod Valid
use Prim.Native.Char.{Char, code}
use Prim.Native.String
use message_delivery.Prelude.{
  ℕ, String, Bool, true, false, not, ◌||◌, ◌&&◌, Option, none, some, List, ◌==◌, leb, eqb,
  if◌then◌else◌,
}
use message_delivery.Prelude.Int.{ℤ, is_positive}
use message_delivery.Prelude.Dict.{Dict}
use message_delivery.Prelude.Text.{all_chars, char_count}
use message_delivery.Prelude.Fallible.{Fallible, ok, err}

abbrev pub event_type_delivery_requested : String
event_type_delivery_requested = "message.delivery.requested"

abbrev pub event_type_delivery_result : String
event_type_delivery_result = "message.delivery.result"

abbrev pub event_type_telegram_connection_requested : String
event_type_telegram_connection_requested = "notification.telegram.connection.requested"

-- The times are in nanoseconds since the epoch; the program only copies them.
pub record DeliveryPolicy : Type 0 where
  pub selected_provider : String
  pub provider_chain : List String
  pub allow_fallback : Bool

pub record RequestEvent : Type 0 where
  pub version : String
  pub event_id : String
  pub type : String
  pub source : String
  pub template : String
  pub purpose : String
  pub recipient_type : String
  pub recipient : String
  pub variables : Dict String
  pub user_id : ℤ
  pub created_at : ℕ
  pub delivery : DeliveryPolicy
  pub metadata : Dict String

pub record ResultEvent : Type 0 where
  pub version : String
  pub event_id : String
  pub type : String
  pub request_event_id : String
  pub status : String
  pub recipient_type : String
  pub recipient : String
  pub provider : String
  pub attempt : ℕ
  pub error_code : String
  pub created_at : ℕ

pub record TelegramConnectionRequestedEvent : Type 0 where
  pub version : String
  pub event_id : String
  pub type : String
  pub source : String
  pub update_id : ℤ
  pub chat_id : ℤ
  pub chat_username : String
  pub start_token_hash : String
  pub created_at : ℕ

pub data RequestError : Type 0 where
  invalid_json : RequestError
  version_required : RequestError
  event_id_required : RequestError
  unsupported_type : String → RequestError
  template_required : RequestError
  unsupported_recipient_type : String → RequestError
  recipient_required : RequestError

unfoldable pub is_recipient_type : String → Bool
is_recipient_type t = t == "email" || t == "phone" || t == "push" || t == "telegram"

-- `RequestEvent.Validate`: the first check that fails, or none.
unfoldable pub validate_request : RequestEvent → Option RequestError
unfolding is_recipient_type
validate_request e =
    if e.version == ""
    then some version_required
    else if e.event_id == ""
    then some event_id_required
    else if not (e.type == event_type_delivery_requested)
    then some (unsupported_type e.type)
    else if e.template == ""
    then some template_required
    else if not (is_recipient_type e.recipient_type)
    then some (unsupported_recipient_type e.recipient_type)
    else if e.recipient == ""
    then some recipient_required
    else none

abbrev checked : RequestEvent → Option RequestError → Fallible RequestError RequestEvent
checked e none = ok e
checked e (some problem) = err problem

-- `DecodeRequest`, with what `json.Unmarshal` makes of the bytes.
unfoldable pub decode_request {ℓ} :
    {Body : Type ℓ} → (Body → Option RequestEvent) → Body → Fallible RequestError RequestEvent
unfolding validate_request
decode_request unmarshal body = elim (unmarshal body) [
  | none ↦ err invalid_json
  | some e ↦ checked e (validate_request e)
]

pub data ConnectionError : Type 0 where
  identity_required : ConnectionError
  connection_type_unsupported : String → ConnectionError
  payload_invalid : ConnectionError

abbrev pub is_lower_hex : Char → Bool
is_lower_hex c =
    (leb b'0' (code c) && leb (code c) b'9') || (leb b'a' (code c) && leb (code c) b'f')

-- The expression `^[0-9a-f]{64}$`.
unfoldable pub is_token_hash : String → Bool
unfolding all_chars char_count
is_token_hash s = eqb (char_count s) 64 && all_chars is_lower_hex s

-- `TelegramConnectionRequestedEvent.Validate`
unfoldable pub validate_connection : TelegramConnectionRequestedEvent → Option ConnectionError
unfolding is_token_hash
validate_connection e =
    if e.version == "" || e.event_id == "" || e.source == ""
    then some identity_required
    else if not (e.type == event_type_telegram_connection_requested)
    then some (connection_type_unsupported e.type)
    else if not (is_positive e.update_id)
        || not (is_positive e.chat_id)
        || not (is_token_hash e.start_token_hash)
    then some payload_invalid
    else none
