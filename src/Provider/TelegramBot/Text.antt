-- ===== src/Provider/TelegramBot/Text.antt =====
-- The text of a message of the Telegram bot: `telegramMessage` and its helpers of
-- internal/provider/telegrambot/telegrambot.go.
pub mod Markup
use Prim.Native.String.{◌++◌ as ◌<>◌}
use message_delivery.Prelude.{
  ℕ, ◌-◌, String, not, ◌&&◌, ◌||◌, ◌==◌, Option, none, some, List, [], ◌∷◌, ◌++◌, leb,
  if◌then◌else◌,
}
use message_delivery.Prelude.Dict
use message_delivery.Prelude.Dict.{Dict}
use message_delivery.Prelude.Text.{
  trim_space, has_prefix, has_prefix_lower, equal_lower, char_count, take_chars, before_char,
  trim_right_slash, join, escape_string,
}
use message_delivery.Config.{TelegramBotPresentation, with_defaults}
use message_delivery.Provider.{Message}
use message_delivery.Provider.TelegramBot.Html.{Parsers, html_to_plain_text}

pub record InlineKeyboardButton : Type 0 where
  pub text : String
  pub url : String

unfoldable pub telegram_body : Parsers → Message → String
unfolding trim_space has_prefix_lower html_to_plain_text Dict.index
telegram_body parsers message =
    if not (trim_space (Dict.index "telegram_body" message.metadata) == "")
    then trim_space (Dict.index "telegram_body" message.metadata)
    else if not (has_prefix_lower (trim_space message.content_type) "text/html")
    then trim_space message.body
    else html_to_plain_text parsers (trim_space message.body)

unfoldable pub telegram_locale : String → String
unfolding trim_space before_char equal_lower
telegram_locale value =
    if equal_lower (before_char b'-' (trim_space value)) "ru" then "ru" else "en"

unfoldable pub localized : Dict String → String → String
unfolding Dict.index trim_space
localized values locale =
    if not (trim_space (Dict.index locale values) == "")
    then trim_space (Dict.index locale values)
    else trim_space (Dict.index "en" values)

unfoldable pub first_non_blank : List String → String
unfolding trim_space
first_non_blank [] = ""
first_non_blank (value ∷ values) =
    let rest = first_non_blank values in
    if not (trim_space value == "") then trim_space value else rest

unfoldable pub truncate_runes : String → ℕ → String
unfolding char_count take_chars
truncate_runes value limit =
    if leb limit 0 || leb (char_count value) limit
    then value
    else if leb limit 3
    then take_chars limit value
    else take_chars (limit - 3) value <> "..."

unfoldable pub telegram_notification_title : String → String → String → String
telegram_notification_title title event_type locale =
    if not (event_type == "chat_message_received") || title == ""
    then title
    else if locale == "ru"
    then "Новое сообщение от " <> title
    else "New message from " <> title

icon_emoji : String → String
icon_emoji icon =
    if icon == "chat"
    then "💬"
    else if icon == "card" || icon == "cash" || icon == "money"
    then "💳"
    else if icon == "pin" || icon == "map"
    then "📍"
    else if icon == "user" || icon == "profile"
    then "👤"
    else if icon == "flag"
    then "🚩"
    else if icon == "offer"
    then "✨"
    else if icon == "shield" || icon == "lock"
    then "🛡\u{fe0f}"
    else if icon == "calendar"
    then "📅"
    else "🔔"

unfoldable pub telegram_notification_emoji : Dict String → String
unfolding icon_emoji Dict.index
telegram_notification_emoji metadata =
    if Dict.index "telegram_priority" metadata == "critical"
    then "🚨"
    else icon_emoji (Dict.index "telegram_icon" metadata)

unfoldable pub telegram_target_url : Parsers → String → String → String
unfolding has_prefix trim_right_slash
telegram_target_url parsers public_base_url target_path =
    if public_base_url == "" || not (has_prefix target_path "/")
    then ""
    else elim (parsers.parse_url public_base_url) [
      | none ↦ ""
      | some base ↦
          if not (base.scheme == "https") || base.host == ""
          then ""
          else trim_right_slash public_base_url <> target_path
    ]

abbrev heading : String → String → String
heading emoji title = emoji <> " <b>" <> escape_string (truncate_runes title 320) <> "</b>"

-- The body, unless it is blank or repeats the title.
abbrev body_part : String → String → List String
body_part body title =
    if not (trim_space body == "") && not (trim_space body == title)
    then escape_string (truncate_runes (trim_space body) 3000) ∷ []
    else []

abbrev footer_part : String → List String
footer_part footer =
    if not (footer == "") then ("<i>" <> escape_string footer <> "</i>") ∷ [] else []

abbrev welcome_heading : Message → String → TelegramBotPresentation → String
welcome_heading message locale presentation =
    first_non_blank (message.subject ∷ localized presentation.welcome_title locale ∷ [])

abbrev welcome_text : Parsers → Message → String → TelegramBotPresentation → String
welcome_text parsers message locale presentation =
    first_non_blank
      (telegram_body parsers message ∷ localized presentation.welcome_body locale ∷ [])

unfoldable pub telegram_welcome_text : Parsers → Message → String → TelegramBotPresentation → String
unfolding first_non_blank localized telegram_body truncate_runes trim_space escape_string join
telegram_welcome_text parsers message locale presentation = join "\n\n" (
    heading "👋" (welcome_heading message locale presentation)
    ∷ body_part (welcome_text parsers message locale presentation)
        (welcome_heading message locale presentation))

abbrev notification_heading : Message → String → TelegramBotPresentation → String
notification_heading message locale presentation =
    telegram_notification_title
      (first_non_blank (
        Dict.index "telegram_title" message.metadata
        ∷ message.subject
        ∷ localized presentation.notification_fallback_title locale
        ∷ []))
      (Dict.index "telegram_event_type" message.metadata) locale

notification_text : Parsers → Message → String → TelegramBotPresentation → String
unfolding first_non_blank localized telegram_body telegram_notification_title
    telegram_notification_emoji truncate_runes trim_space escape_string join Dict.index
notification_text parsers message locale presentation = join "\n\n" (
    heading (telegram_notification_emoji message.metadata)
        (notification_heading message locale presentation)
      ∷ body_part (telegram_body parsers message) (notification_heading message locale presentation)
    ++ footer_part (localized presentation.notification_footer locale))

-- The button that opens the application, where there is an address for it.
button : Parsers → Message → String → String → TelegramBotPresentation → Option InlineKeyboardButton
unfolding telegram_target_url localized Dict.index
button parsers message public_base_url locale presentation =
    let target : String =
      telegram_target_url parsers public_base_url
        (Dict.index "telegram_target_path" message.metadata) in
    if not (target == "")
    then some (record { text = localized presentation.open_action_label locale; url = target })
    else none

unfoldable pub telegram_message :
    Parsers → Message → String → TelegramBotPresentation → String × Option InlineKeyboardButton
unfolding with_defaults telegram_locale telegram_welcome_text notification_text button Dict.index
telegram_message parsers message public_base_url given =
    let presentation : TelegramBotPresentation = with_defaults given in
    let locale : String = telegram_locale (Dict.index "locale" message.metadata) in
    let shown : String = Dict.index "telegram_presentation" message.metadata in
    if shown == "start"
    then (
      telegram_welcome_text parsers message locale (record presentation {
        welcome_title = presentation.start_title;
        welcome_body = presentation.start_body;
      }),
      none,
    )
    else if shown == "welcome"
    then (telegram_welcome_text parsers message locale presentation, none)
    else (
      notification_text parsers message locale presentation,
      button parsers message public_base_url locale presentation,
    )
