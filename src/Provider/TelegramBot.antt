-- ===== src/Provider/TelegramBot.antt =====
-- internal/provider/telegrambot/telegrambot.go: messages sent by the Telegram bot.
pub mod Html
pub mod Text
pub mod Ended
use Prim.Native.String.{◌++◌ as ◌<>◌}
use message_delivery.Prelude.{
  ℕ, String, Bool, true, false, not, ◌&&◌, ◌||◌, ◌==◌, Option, none, some, List, leb, ltb, eqb,
  if◌then◌else◌,
}
use message_delivery.Prelude.Int.{ℤ, pos, is_positive}
use message_delivery.Prelude.Text.{
  trim_space, trim_right_slash, contains_lower, number, syntax_error, range_error, atoi,
}
use message_delivery.Config.{TelegramBotPresentation, with_defaults}
use message_delivery.Provider.{
  Message, Result, Attempt, Provider, status_sent, status_failed, status_undeliverable,
}
use message_delivery.Provider.TelegramBot.Html.{Parsers}
use message_delivery.Provider.TelegramBot.Text.{InlineKeyboardButton, telegram_message}

pub record TelegramBot : Type 0 where
  pub name : String
  pub base_url : String
  pub bot_token : String
  pub public_base_url : String
  pub presentation : TelegramBotPresentation
  pub timeout : ℤ

-- `New`; the time is in nanoseconds.
unfoldable pub new_telegram_bot :
    String → String → String → String → ℤ → TelegramBotPresentation → TelegramBot
unfolding trim_space trim_right_slash with_defaults
new_telegram_bot name base_url bot_token public_base_url timeout presentation = record {
  name = name;
  base_url =
      trim_right_slash
        (trim_space (if trim_space base_url == "" then "https://api.telegram.org" else base_url));
  bot_token = trim_space bot_token;
  public_base_url = trim_right_slash (trim_space public_base_url);
  presentation = with_defaults presentation;
  timeout = if is_positive timeout then timeout else pos 10000000000;
}

-- The request's JSON object; a keyboard is one button.
pub record SendMessageRequest : Type 0 where
  pub chat_id : ℤ
  pub text : String
  pub parse_mode : String
  pub disable_web_page_preview : Bool
  pub link_preview_is_disabled : Bool
  pub reply_markup : Option InlineKeyboardButton

pub record BotResponse : Type 0 where
  pub ok : Bool
  pub description : String

-- How `http.Client.Do` ends: by an error, the time being up or not, or by a response, whose body's
-- first 2 ^ 20 bytes begin with an object or not.
pub data Answer : Type 0 where
  no_response : Bool → Answer
  response : ℕ → Option BotResponse → Answer

-- What is outside of the program: the parsers, `json.Marshal`, whether `http.NewRequestWithContext`
-- takes the address, and `http.Client.Do` with the address and the body.
pub record BotTransport : Type 0 where
  pub parsers : Parsers
  pub marshal : SendMessageRequest → Option String
  pub is_url : String → Bool
  pub exchange : List Attempt → ℤ → String → String → Answer

-- A chat has a positive number.
unfoldable pub chat_id : String → Option ℤ
unfolding trim_space atoi
chat_id recipient = elim (atoi (trim_space recipient)) [
  | number n ↦ if is_positive n then some n else none
  | syntax_error ↦ none
  | range_error n ↦ none
]

unfoldable pub telegram_chat_unavailable : String → Bool
unfolding contains_lower
telegram_chat_unavailable description =
    contains_lower description "chat not found"
    || contains_lower description "bot was blocked"
    || contains_lower description "user is deactivated"
    || contains_lower description "bot was kicked"

abbrev pub failed : String → Result
failed error_code = record { status = status_failed; error_code = error_code }

abbrev pub undeliverable : String → Result
undeliverable error_code = record { status = status_undeliverable; error_code = error_code }

unfoldable pub classify : ℕ → BotResponse → Result
unfolding telegram_chat_unavailable
classify status_code envelope =
    if leb 200 status_code && ltb status_code 300 && envelope.ok
    then record { status = status_sent; error_code = "" }
    else if eqb status_code 401
    then failed "telegram_bot_auth_failed"
    else if eqb status_code 429 || leb 500 status_code
    then failed "telegram_bot_service_unavailable"
    else if eqb status_code 403 || telegram_chat_unavailable envelope.description
    then undeliverable "telegram_bot_chat_unavailable"
    else failed "telegram_bot_rejected"

answered : Answer → Result
unfolding classify
answered (no_response true) = failed "telegram_bot_timeout"
answered (no_response false) = failed "telegram_bot_unavailable"
answered (response status_code none) = failed "telegram_bot_bad_response"
answered (response status_code (some envelope)) = classify status_code envelope

abbrev pub send_url : TelegramBot → String
send_url p = p.base_url <> "/bot" <> p.bot_token <> "/sendMessage"

post : BotTransport → TelegramBot → List Attempt → Option String → Result
unfolding answered
post t p past none = failed "telegram_bot_payload_invalid"
post t p past (some payload) =
    if not (t.is_url (send_url p))
    then failed "telegram_bot_request_invalid"
    else answered (t.exchange past p.timeout (send_url p) payload)

unfoldable pub request_of : BotTransport → TelegramBot → ℤ → Message → SendMessageRequest
unfolding telegram_message
request_of t p chat message =
    let (text, reply_markup) =
      telegram_message t.parsers message p.public_base_url p.presentation in
    record {
      chat_id = chat;
      text = text;
      parse_mode = "HTML";
      disable_web_page_preview = true;
      link_preview_is_disabled = true;
      reply_markup = reply_markup;
    }

send_to_chat : BotTransport → TelegramBot → List Attempt → Message → Option ℤ → Result
unfolding post request_of
send_to_chat t p past message none = undeliverable "telegram_bot_chat_invalid"
send_to_chat t p past message (some chat) = post t p past (t.marshal (request_of t p chat message))

-- `Provider.Send`
unfoldable pub send : BotTransport → TelegramBot → List Attempt → Message → Result
unfolding send_to_chat chat_id
send t p past message =
    if p.bot_token == ""
    then undeliverable "telegram_bot_not_configured"
    else send_to_chat t p past message (chat_id message.recipient)

unfoldable pub telegram_bot : BotTransport → TelegramBot → Provider
telegram_bot t p = record { name = p.name; send = send t p }
