-- ===== src/Webhook/Command.antt =====
-- The two regular expressions of internal/telegrambot/webhook.go, as functions on texts. A mention
-- ends where its characters end, and so do white space and token, so there is one way to match.
pub mod Matches
pub mod Complete
use message_delivery.Prelude.{
  String, Char, code, Bool, false, ◌||◌, ◌&&◌, Option, none, some, leb, eqb, if◌then◌else◌,
}
use message_delivery.Prelude.Text.{
  all_chars, char_count, take_run, drop_run, cut_prefix, starts_with,
}

-- `[A-Za-z0-9_]`
abbrev pub is_word : Char → Bool
is_word c =
    (leb b'0' (code c) && leb (code c) b'9')
    || (leb b'A' (code c) && leb (code c) b'Z')
    || (leb b'a' (code c) && leb (code c) b'z')
    || eqb (code c) b'_'

-- `[A-Za-z0-9_-]`
abbrev pub is_token_char : Char → Bool
is_token_char c = is_word c || eqb (code c) b'-'

-- `\s`
abbrev pub is_blank : Char → Bool
is_blank c =
    eqb (code c) 9 || eqb (code c) 10 || eqb (code c) 12 || eqb (code c) 13 || eqb (code c) 32

-- `(?:@[A-Za-z0-9_]+)?`, all of it.
unfoldable pub after_mention : String → Option String
unfolding cut_prefix starts_with drop_run
after_mention s = elim (cut_prefix "@" s) [
  | none ↦ some s
  | some rest ↦ if starts_with is_word rest then some (drop_run is_word rest) else none
]

unfoldable pub after_start : String → Option String
unfolding after_mention cut_prefix
after_start text = elim (cut_prefix "/start" text) [ none ↦ none | some rest ↦ after_mention rest ]

-- `\s+([A-Za-z0-9_-]{20,64})\s*$`
unfoldable pub argument : String → Option String
unfolding starts_with take_run drop_run all_chars char_count
argument s =
    let behind : String = drop_run is_blank s in
    let token : String = take_run is_token_char behind in
    if starts_with is_blank s
      && leb 20 (char_count token)
      && leb (char_count token) 64
      && all_chars is_blank (drop_run is_token_char behind)
    then some token
    else none

-- `startCommand.FindStringSubmatch`: the token.
unfoldable pub start_token : String → Option String
unfolding after_start argument
start_token text = elim (after_start text) [ none ↦ none | some rest ↦ argument rest ]

-- `plainStartCommand.MatchString`
unfoldable pub is_plain_start : String → Bool
unfolding after_start all_chars
is_plain_start text = elim (after_start text) [ none ↦ false | some rest ↦ all_chars is_blank rest ]
