-- ===== src/Provider/TelegramBot/Text/Markup.antt =====
-- The markup of the bot's messages, which Telegram reads as HTML.
use Prim.Native.Char.{Char}
use Prim.Native.String.{◌++◌ as ◌<>◌}
use mathlib.Core.List.{append-nil, append_assoc}
use message_delivery.Prelude.{
  String, Bool-cases, inl, inr, true, ◌||◌, ◌==◌, ◌≡◌, ◌⊎◌, refl, sym, ap, ◌∙◌, List, [], ◌∷◌, ◌++◌,
  arith,
}
use message_delivery.Prelude.Dict
use message_delivery.Prelude.Dict.{Dict}
use message_delivery.Prelude.Text.{join, escape_string, all_chars, trim_space}
use message_delivery.Prelude.Text.Markup.{
  is_text, pick, markup_of, markup_of-text, markup_of-append, markup_of-between,
  escape_string-is_text,
}
use message_delivery.Config.{TelegramBotPresentation, with_defaults}
use message_delivery.Provider.{Message}
use message_delivery.Provider.TelegramBot.Html.{Parsers}
use message_delivery.Provider.TelegramBot.Text.{
  heading, body_part, footer_part, icon_emoji, telegram_notification_emoji, telegram_welcome_text,
  notification_text, telegram_message, truncate_runes, localized, telegram_locale, welcome_heading,
  notification_heading, telegram_body, welcome_text,
}

-- The markup of several texts, one after the other.
abbrev markup_of_all : List String → List Char
markup_of_all [] = []
markup_of_all (s ∷ ss) = markup_of s ++ markup_of_all ss

markup_of-join :
    (separator : String) (parts : List String)
    → is_text separator ≡ true
    → markup_of (join separator parts) ≡ markup_of_all parts
unfolding join
markup_of-join separator [] h = refl
markup_of-join separator (part ∷ []) h = sym (append-nil (markup_of part))
markup_of-join separator (part ∷ next ∷ parts) h =
    markup_of-between part separator (join separator (next ∷ parts)) h
    ∙ ap (λ l. markup_of part ++ l) (markup_of-join separator (next ∷ parts) h)

icon_emoji-is_text : (icon : String) → is_text (icon_emoji icon) ≡ true
unfolding icon_emoji all_chars
icon_emoji-is_text icon = pick (icon == "chat") "💬" _ refl (λ _.
    pick (icon == "card" || icon == "cash" || icon == "money") "💳" _ refl (λ _.
      pick (icon == "pin" || icon == "map") "📍" _ refl (λ _.
        pick (icon == "user" || icon == "profile") "👤" _ refl (λ _.
          pick (icon == "flag") "🚩" _ refl (λ _. pick (icon == "offer") "✨" _ refl (λ _.
            pick (icon == "shield" || icon == "lock") "🛡\u{fe0f}" _ refl
              (λ _. pick (icon == "calendar") "📅" "🔔" refl (λ _. refl))))))))

emoji-is_text : (metadata : Dict String) → is_text (telegram_notification_emoji metadata) ≡ true
unfolding telegram_notification_emoji
emoji-is_text metadata =
    pick (Dict.index "telegram_priority" metadata == "critical") "🚨"
      (icon_emoji (Dict.index "telegram_icon" metadata)) (unfold all_chars in refl)
      (λ _. icon_emoji-is_text (Dict.index "telegram_icon" metadata))

markup_of-heading :
    (emoji title : String)
    → is_text emoji ≡ true
    → markup_of (heading emoji title) ≡ markup_of "<b></b>"
markup_of-heading emoji title h =
    markup_of-append emoji (" <b>" <> escape_string (truncate_runes title 320) <> "</b>") h
    ∙ markup_of-between " <b>" (escape_string (truncate_runes title 320)) "</b>"
        (escape_string-is_text (truncate_runes title 320))

markup_of-body_part : (body title : String) → markup_of_all (body_part body title) ≡ []
markup_of-body_part body title = ground (
  arith,
  markup_of-text (escape_string (truncate_runes (trim_space body) 3000))
      (escape_string-is_text (truncate_runes (trim_space body) 3000)),
)

markup_of-footer_part :
    (footer : String)
    → (markup_of_all (footer_part footer) ≡ [])
      ⊎ (markup_of_all (footer_part footer) ≡ markup_of "<i></i>")
markup_of-footer_part footer = elim (Bool-cases (footer == "")) [
  | inl blank ↦ inl (rw blank)
  | inr shown ↦ inr (
      rw shown (
        append-nil (markup_of ("<i>" <> escape_string footer <> "</i>"))
        ∙ markup_of-between "<i>" (escape_string footer) "</i>" (escape_string-is_text footer)))
]

markup_of_all-append :
    (ss ts : List String) → markup_of_all (ss ++ ts) ≡ markup_of_all ss ++ markup_of_all ts
markup_of_all-append [] ts = refl
markup_of_all-append (s ∷ ss) ts =
    ap (λ l. markup_of s ++ l) (markup_of_all-append ss ts)
    ∙ sym (append_assoc (markup_of s) (markup_of_all ss) (markup_of_all ts))

-- A heading, perhaps a body, and then what the rest brings.
markup_of-parts :
    (emoji title body : String) (rest : List String)
    → is_text emoji ≡ true
    → markup_of (join "\n\n" (heading emoji title ∷ body_part body title ++ rest))
      ≡ markup_of "<b></b>" ++ markup_of_all rest
markup_of-parts emoji title body rest h =
    markup_of-join "\n\n" (heading emoji title ∷ body_part body title ++ rest)
      (unfold all_chars in refl)
    ∙ rw (
      markup_of-heading emoji title h,
      markup_of_all-append (body_part body title) rest,
      markup_of-body_part body title,
    )

markup_of-parts_only :
    (emoji title body : String)
    → is_text emoji ≡ true
    → markup_of (join "\n\n" (heading emoji title ∷ body_part body title)) ≡ markup_of "<b></b>"
markup_of-parts_only emoji title body h =
    ap (λ l. markup_of (join "\n\n" (heading emoji title ∷ l)))
      (sym (append-nil (body_part body title)))
    ∙ markup_of-parts emoji title body [] h

-- Just the markup of the heading, or that of the heading and of the footer.
abbrev pub IsPlainMarkup : String → Type 0
IsPlainMarkup text =
    (markup_of text ≡ markup_of "<b></b>") ⊎ (markup_of text ≡ markup_of "<b></b><i></i>")

welcome-IsPlainMarkup :
    (parsers : Parsers) (message : Message) (locale : String)
    (presentation : TelegramBotPresentation)
    → IsPlainMarkup (telegram_welcome_text parsers message locale presentation)
unfolding telegram_welcome_text
welcome-IsPlainMarkup parsers message locale presentation = inl (
    markup_of-parts_only "👋" (welcome_heading message locale presentation)
      (welcome_text parsers message locale presentation) (unfold all_chars in refl))

notification-IsPlainMarkup :
    (parsers : Parsers) (message : Message) (locale : String)
    (presentation : TelegramBotPresentation)
    → IsPlainMarkup (notification_text parsers message locale presentation)
unfolding notification_text
notification-IsPlainMarkup parsers message locale presentation =
    let parts =
      markup_of-parts (telegram_notification_emoji message.metadata)
        (notification_heading message locale presentation) (telegram_body parsers message)
        (footer_part (localized presentation.notification_footer locale))
        (emoji-is_text message.metadata) in
    elim (markup_of-footer_part (localized presentation.notification_footer locale)) [
      | inl none_shown ↦ inl (parts ∙ rw none_shown)
      | inr shown ↦ inr (parts ∙ rw shown)
    ]

-- Whatever the event, its texts, the document that its body is parsed to, and the texts of the
-- deployment hold: the text that is sent has the tags of its heading, perhaps those of its footer,
-- and no other character that opens or closes a tag or an attribute.
pub telegram_message-IsPlainMarkup :
    (parsers : Parsers) (message : Message) (public_base_url : String)
    (presentation : TelegramBotPresentation)
    → IsPlainMarkup (telegram_message parsers message public_base_url presentation).0
unfolding telegram_message
telegram_message-IsPlainMarkup parsers message public_base_url given =
    let presentation : TelegramBotPresentation = with_defaults given in
    let locale : String = telegram_locale (Dict.index "locale" message.metadata) in
    let shown : String = Dict.index "telegram_presentation" message.metadata in
    elim (Bool-cases (shown == "start")) [
      | inl start ↦ rw start (
          welcome-IsPlainMarkup parsers message locale (record presentation {
            welcome_title = presentation.start_title;
            welcome_body = presentation.start_body;
          }))
      | inr other ↦ elim (Bool-cases (shown == "welcome")) [
        | inl welcome ↦
            rw (other, welcome) (welcome-IsPlainMarkup parsers message locale presentation)
        | inr neither ↦
            rw (other, neither) (notification-IsPlainMarkup parsers message locale presentation)
      ]
    ]
