-- ===== src/Webhook/Command/Complete.antt =====
-- Every text that the regular expressions match is taken for a command.
use Prim.Native.String.{◌++◌ as ◌<>◌, String}
use Prim.Native.String.append
use text.Mathlib.TextLemmas.{append_assoc}
use message_delivery.Prelude.{
  ◌≡◌, ◌≢◌, refl, ap, ◌∙◌, Bool, true, false, Char, code, String, some, none, eqb, arith, inl, inr,
  Option-cases, ◌≤◌, ◌↔◌,
}
use message_delivery.Prelude.Text.{starts_with, cut_prefix, all_chars, char_count}
use message_delivery.Prelude.Text.Joined.{
  take_run-append, drop_run-append, cut_prefix-append, starts_with-all, starts_with-apart,
  starts_with-apart_append, starts_with-append,
}
use message_delivery.Webhook.Command.Matches.{
  IsMention, IsStart, start_token-IsStart, after_start-eq-some,
}
use message_delivery.Webhook.Command.{
  is_word, is_token_char, is_blank, after_mention, after_start, argument, start_token,
  is_plain_start, Char, starts_with,
}

blank-not-word : (c : Char) → is_blank c ≡ true → is_word c ≡ false
blank-not-word c h = ground arith

blank-not-token : (c : Char) → is_blank c ≡ true → is_token_char c ≡ false
blank-not-token c h = ground arith

token-not-blank : (c : Char) → is_token_char c ≡ true → is_blank c ≡ false
token-not-blank c h = ground arith

abbrev is_at : Char → Bool
is_at c = eqb b'@' (code c)

blank-not-at : (c : Char) → is_blank c ≡ true → is_at c ≡ false
blank-not-at c h = ground arith

cut_prefix-at : (s : String) → starts_with is_at s ≡ false → cut_prefix "@" s ≡ none
unfolding cut_prefix starts_with
cut_prefix-at String.[] h = refl
cut_prefix-at (String.◌∷◌ c s) h = rw h

-- What stands behind a mention, or in place of one, begins with no character of a mention.
after_mention-append :
    (mention s : String)
    → IsMention mention
    → starts_with is_at s ≡ false
    → starts_with is_word s ≡ false
    → after_mention (mention <> s) ≡ some s
unfolding after_mention
after_mention-append mention s (inl nobody) no_at no_word =
    rw (nobody, append.nil) (rw (cut_prefix-at s no_at, after_mention))
after_mention-append mention s (inr (name, is_mention, filled, word)) no_at no_word =
    let named : starts_with is_word (name <> s) ≡ true =
      starts_with-append is_word name s filled ∙ starts_with-all is_word name filled word in
    rw (is_mention, append_assoc "@" name s)
      (rw (cut_prefix-append "@" (name <> s), after_mention)
        (rw (named, drop_run-append is_word name s word no_word)))

after_start-append :
    (mention s : String)
    → IsMention mention
    → starts_with is_at s ≡ false
    → starts_with is_word s ≡ false
    → after_start ("/start" <> (mention <> s)) ≡ some s
unfolding after_start
after_start-append mention s is_mention no_at no_word =
    rw (cut_prefix-append "/start" (mention <> s), after_start)
      (after_mention-append mention s is_mention no_at no_word)

nonempty_of_long : (s : String) → 20 ≤ char_count s → s ≢ ""
unfolding char_count
nonempty_of_long s long same = absurd (omega (arith, ap char_count same))

argument-append :
    (blanks token trailing : String)
    → blanks ≢ ""
    → all_chars is_blank blanks ≡ true
    → all_chars is_token_char token ≡ true
    → 20 ≤ char_count token
    → char_count token ≤ 64
    → all_chars is_blank trailing ≡ true
    → argument (blanks <> (token <> trailing)) ≡ some token
unfolding argument
argument-append blanks token trailing filled blank token_chars long short blank_end =
    let begins : starts_with is_blank (blanks <> (token <> trailing)) ≡ true =
      starts_with-append is_blank blanks (token <> trailing) filled
      ∙ starts_with-all is_blank blanks filled blank in
    let no_blank : starts_with is_blank (token <> trailing) ≡ false =
      starts_with-apart_append is_token_char is_blank token-not-blank token trailing
        (nonempty_of_long token long) token_chars in
    let ends : starts_with is_token_char trailing ≡ false =
      starts_with-apart is_blank is_token_char blank-not-token trailing blank_end in
    rw
      (
        begins,
        drop_run-append is_blank blanks (token <> trailing) blank no_blank,
        take_run-append is_token_char token trailing token_chars ends,
        drop_run-append is_token_char token trailing token_chars ends,
        blank_end,
      )
      (ground arith)

-- A text is taken for the command to start with a token exactly if it is one, by the regular
-- expression.
pub start_token_iff : (text token : String) → (start_token text ≡ some token) ↔ IsStart text token
unfolding start_token
start_token_iff text token = (
  start_token-IsStart text token,
  λ start.
      let rest : String = start.blanks <> (token <> start.trailing) in
      let opens : (p : Char → Bool)
          → ((c : Char) → is_blank c ≡ true → p c ≡ false)
          → starts_with p rest ≡ false =
        λ p apart.
          starts_with-apart_append is_blank p apart start.blanks (token <> start.trailing)
            start.some_blanks start.blank in
      rw start.is_text (
        rw
          (
            after_start-append start.mention rest start.is_mention (opens is_at blank-not-at)
                (opens is_word blank-not-word),
            start_token,
          )
          (argument-append start.blanks token start.trailing start.some_blanks start.blank
            start.token_chars start.long start.short start.blank_end)),
)

-- `^/start(?:@[A-Za-z0-9_]+)?\s*$`
pub record IsPlainStart (text : String) : Type 0 where
  pub mention : String
  pub trailing : String
  pub is_text : text ≡ "/start" <> (mention <> trailing)
  pub is_mention : IsMention mention
  pub blank_end : all_chars is_blank trailing ≡ true

-- A text is taken for the command without a token exactly if it is one, by the regular expression.
pub is_plain_start_iff : (text : String) → (is_plain_start text ≡ true) ↔ IsPlainStart text
unfolding is_plain_start
is_plain_start_iff text = (
  λ h. elim (Option-cases (after_start text)) [
    | inl other ↦ cc (rw (other, is_plain_start) at h)
    | inr (rest, begins) ↦
        let (mention, split, is_mention) = after_start-eq-some text rest begins in
        record {
          mention = mention;
          trailing = rest;
          is_text = split;
          is_mention = is_mention;
          blank_end = rw (begins, is_plain_start) at h;
        }
  ],
  λ start.
      let opens : (p : Char → Bool)
          → ((c : Char) → is_blank c ≡ true → p c ≡ false)
          → starts_with p start.trailing ≡ false =
        λ p apart. starts_with-apart is_blank p apart start.trailing start.blank_end in
      rw start.is_text (
        rw
          (
            after_start-append start.mention start.trailing start.is_mention
                (opens is_at blank-not-at) (opens is_word blank-not-word),
            is_plain_start,
          )
          start.blank_end),
)
