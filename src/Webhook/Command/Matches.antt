-- ===== src/Webhook/Command/Matches.antt =====
-- What the command that starts the bot with a token looks like.
use Prim.Native.String.{◌++◌ as ◌<>◌}
use Prim.Native.String.append
use mathlib.Core.Path.{subst}
use text.Mathlib.TextEquality.{Char-path}
use text.Mathlib.TextLemmas.{append_assoc}
use message_delivery.Prelude.{
  ◌≤◌, String, Char, Bool, Bool-cases, Option-cases, inl, inr, true, ◌≡◌, ◌≢◌, ◌⊎◌, refl, sym, ap,
  ◌∙◌, some, arith,
}
use message_delivery.Prelude.Text.{
  all_chars, char_count, take_run, drop_run, cut_prefix, starts_with, same_char,
}
use message_delivery.Webhook.Command.{
  is_word, is_token_char, is_blank, after_mention, after_start, argument, start_token,
}

all_chars-take_run : (p : Char → Bool) (s : String) → all_chars p (take_run p s) ≡ true
unfolding all_chars take_run
all_chars-take_run p String.[] = refl
all_chars-take_run p (String.◌∷◌ c s) = elim (Bool-cases (p c)) [
  | inl met ↦ rw met (rw met (all_chars-take_run p s))
  | inr not_met ↦ rw not_met
]

take_run-drop_run : (p : Char → Bool) (s : String) → s ≡ take_run p s <> drop_run p s
unfolding take_run drop_run
take_run-drop_run p String.[] = sym (append.nil "")
take_run-drop_run p (String.◌∷◌ c s) = elim (Bool-cases (p c)) [
  | inl met ↦ rw met (
      ap (λ t. String.◌∷◌ c t) (take_run-drop_run p s)
      ∙ sym (append.cons c (take_run p s) (drop_run p s)))
  | inr not_met ↦ rw not_met (sym (append.nil (String.◌∷◌ c s)))
]

-- A run that begins is not empty.
take_run_nonempty : (p : Char → Bool) (s : String) → starts_with p s ≡ true → take_run p s ≢ ""
unfolding take_run starts_with
take_run_nonempty p String.[] h = cc (h)
take_run_nonempty p (String.◌∷◌ c s) h = rw (h, take_run) (λ same. cc (same))

cut_prefix-eq-some : (prefix s rest : String) → cut_prefix prefix s ≡ some rest → s ≡ prefix <> rest
unfolding cut_prefix
cut_prefix-eq-some String.[] s rest h = let same : s ≡ rest = cc (h) in same ∙ sym (append.nil rest)
cut_prefix-eq-some (String.◌∷◌ p prefix) String.[] rest h = cc (h)
cut_prefix-eq-some (String.◌∷◌ p prefix) (String.◌∷◌ c s) rest h =
    elim (Bool-cases (same_char p c)) [
      | inl same ↦
          ap (λ d. String.◌∷◌ d s) (sym (Char-path p c (ground arith)))
          ∙ ap (λ t. String.◌∷◌ p t) (cut_prefix-eq-some prefix s rest (rw (same, cut_prefix) at h))
          ∙ sym (append.cons p prefix rest)
      | inr differs ↦ cc (rw (differs, cut_prefix) at h)
    ]

-- `(?:@[A-Za-z0-9_]+)?`
abbrev pub IsMention : String → Type 0
IsMention s =
    (s ≡ "") ⊎ ((name : String) × (s ≡ "@" <> name) × (name ≢ "") × (all_chars is_word name ≡ true))

after_mention-eq-some :
    (s rest : String)
    → after_mention s ≡ some rest
    → (mention : String) × (s ≡ mention <> rest) × IsMention mention
unfolding after_mention
after_mention-eq-some s rest h = elim (Option-cases (cut_prefix "@" s)) [
  | inl no_mention ↦
      let same : s ≡ rest = cc (rw (no_mention, after_mention) at h) in
      ("", same ∙ sym (append.nil rest), inl refl)
  | inr (after, has) ↦ elim (Bool-cases (starts_with is_word after)) [
    | inl named ↦
        let left : drop_run is_word after ≡ rest = cc (rw (has, named, after_mention) at h) in
        let name : String = take_run is_word after in
        (
          "@" <> name,
          cut_prefix-eq-some "@" s after has
              ∙ ap (λ t. "@" <> t) (take_run-drop_run is_word after)
              ∙ sym (append_assoc "@" name (drop_run is_word after))
              ∙ ap (λ t. ("@" <> name) <> t) left,
          inr (name, refl, take_run_nonempty is_word after named, all_chars-take_run is_word after),
        )
    | inr unnamed ↦ cc (rw (has, unnamed, after_mention) at h)
  ]
]

-- `^/start(?:@[A-Za-z0-9_]+)?\s+([A-Za-z0-9_-]{20,64})\s*$`, with the token.
pub record IsStart (text token : String) : Type 0 where
  pub mention : String
  pub blanks : String
  pub trailing : String
  pub is_text : text ≡ "/start" <> (mention <> (blanks <> (token <> trailing)))
  pub is_mention : IsMention mention
  pub some_blanks : blanks ≢ ""
  pub blank : all_chars is_blank blanks ≡ true
  pub token_chars : all_chars is_token_char token ≡ true
  pub long : 20 ≤ char_count token
  pub short : char_count token ≤ 64
  pub blank_end : all_chars is_blank trailing ≡ true

pub after_start-eq-some :
    (text rest : String)
    → after_start text ≡ some rest
    → (mention : String) × (text ≡ "/start" <> (mention <> rest)) × IsMention mention
unfolding after_start
after_start-eq-some text rest h = elim (Option-cases (cut_prefix "/start" text)) [
  | inl other ↦ cc (rw (other, after_start) at h)
  | inr (behind, begins) ↦
      let (mention, split, is_mention) =
        after_mention-eq-some behind rest (rw (begins, after_start) at h) in
      (
        mention,
        cut_prefix-eq-some "/start" text behind begins ∙ ap (λ t. "/start" <> t) split,
        is_mention,
      )
]

abbrev taken : String → String
taken s = take_run is_token_char (drop_run is_blank s)

-- What the tests on the argument make sure of.
argument_tests :
    (s token : String)
    → argument s ≡ some token
    → (taken s ≡ token)
      × (starts_with is_blank s ≡ true)
      × (20 ≤ char_count (taken s))
      × (char_count (taken s) ≤ 64)
      × (all_chars is_blank (drop_run is_token_char (drop_run is_blank s)) ≡ true)
unfolding argument
argument_tests s token h = ground arith

argument_split :
    (s : String)
    → s ≡ take_run is_blank s <> (taken s <> drop_run is_token_char (drop_run is_blank s))
argument_split s =
    take_run-drop_run is_blank s
    ∙ ap (λ t. take_run is_blank s <> t) (take_run-drop_run is_token_char (drop_run is_blank s))

-- A text that is taken for a command to start with a token is one, by the regular expression.
pub start_token-IsStart : (text token : String) → start_token text ≡ some token → IsStart text token
unfolding start_token
start_token-IsStart text token h = elim (Option-cases (after_start text)) [
  | inl other ↦ cc (rw (other, start_token) at h)
  | inr (rest, begins) ↦
      let (mention, split, is_mention) = after_start-eq-some text rest begins in
      let (same, blank, long, short, blank_end) =
        argument_tests rest token (rw (begins, start_token) at h) in
      let found : IsStart text (taken rest) = record {
        mention = mention;
        blanks = take_run is_blank rest;
        trailing = drop_run is_token_char (drop_run is_blank rest);
        is_text = split ∙ ap (λ t. "/start" <> (mention <> t)) (argument_split rest);
        is_mention = is_mention;
        some_blanks = take_run_nonempty is_blank rest blank;
        blank = all_chars-take_run is_blank rest;
        token_chars = all_chars-take_run is_token_char (drop_run is_blank rest);
        long = long;
        short = short;
        blank_end = blank_end;
      } in
      subst (IsStart text) same found
]
