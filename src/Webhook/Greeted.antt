-- ===== src/Webhook/Greeted.antt =====
-- The chat that a greeting names, read back by the bot's provider.
use Prim.Native.Char.{Char, code}
use message_delivery.Prelude.{
  ℕ, zero, suc, ◌+◌, ◌*◌, ◌/◌, ◌%◌, ◌^◌, ◌≤◌, ◌<◌, String, Bool, Bool-cases, inl, inr, true, false,
  ◌&&◌, ◌≡◌, refl, sym, ap, ◌∙◌, some, leb, eqb, arith,
}
use message_delivery.Prelude.Int.{pos}
use message_delivery.Prelude.Text.{
  digits, digits_from, in_range, trim_left, trim_right, number, atoi, trim_space, all_chars,
  is_space, char_count,
}
use message_delivery.Delivery.EventId.{decimal, decimal_from, hex_digit}
use message_delivery.Delivery.EventId.Laws.{holds_up_to, holds_up_to_lem}
use message_delivery.Delivery.Event.{TelegramConnectionRequestedEvent}
use message_delivery.Provider.TelegramBot.{chat_id}
use message_delivery.Webhook.Connection.{show_int}
use message_delivery.Webhook.{greeting_of}

abbrev is_digit : Char → Bool
is_digit c = leb 48 (code c) && leb (code c) 57

decimal_digits : holds_up_to (λ n. eqb (code (hex_digit n)) (48 + n)) 10 ≡ true
unfolding holds_up_to hex_digit
decimal_digits = refl

decimal_digit : (n : ℕ) → n < 10 → code (hex_digit n) ≡ 48 + n
decimal_digit n h =
    let same : eqb (code (hex_digit n)) (48 + n) ≡ true =
      holds_up_to_lem (λ k. eqb (code (hex_digit k)) (48 + k)) 10 n h decimal_digits in
    ground arith

digit_step :
    (a d : ℕ) (rest : String)
    → d < 10
    → digits_from a (String.◌∷◌ (hex_digit d) rest) ≡ digits_from (a * 10 + d) rest
unfolding digits_from
digit_step a d rest h =
    let inside : leb 48 (48 + d) && leb (48 + d) 57 ≡ true = ground arith in
    rw (decimal_digit d h, inside) (ap (λ k. digits_from k rest) (omega arith))

-- Reading back what was written goes on with the number.
digits_from-decimal_from :
    (fuel n : ℕ) (rest : String)
    → n < fuel
    → digits_from 0 (decimal_from fuel n rest) ≡ digits_from n rest
unfolding decimal_from
digits_from-decimal_from zero n rest h = absurd (omega arith)
digits_from-decimal_from (suc fuel) n rest h = elim (Bool-cases (eqb (n / 10) 0)) [
  | inl last ↦
      let none_left : n / 10 ≡ 0 = ground arith in
      rw (last, decimal_from)
        (digit_step 0 (n % 10) rest (omega arith) ∙ ap (λ k. digits_from k rest) (omega arith))
  | inr more ↦
      let some_left : 0 < n / 10 = ground arith in
      rw (more, decimal_from)
        (digits_from-decimal_from fuel (n / 10) (String.◌∷◌ (hex_digit (n % 10)) rest) (omega arith)
          ∙ digit_step (n / 10) (n % 10) rest (omega arith)
          ∙ ap (λ k. digits_from k rest) (omega arith))
]

-- What is written is digits, at least one.
decimal_from-is_digit :
    (fuel n : ℕ) (rest : String)
    → all_chars is_digit rest ≡ true
    → all_chars is_digit (decimal_from fuel n rest) ≡ true
unfolding decimal_from all_chars
decimal_from-is_digit zero n rest h = h
decimal_from-is_digit (suc fuel) n rest h =
    let same = decimal_digit (n % 10) (omega arith) in
    let inside : leb 48 (48 + n % 10) && leb (48 + n % 10) 57 ≡ true = ground arith in
    let shown : all_chars is_digit (String.◌∷◌ (hex_digit (n % 10)) rest) ≡ true =
      rw (all_chars, same, inside) h in
    let later = decimal_from-is_digit fuel (n / 10) (String.◌∷◌ (hex_digit (n % 10)) rest) shown in
    elim (Bool-cases (eqb (n / 10) 0)) [
      | inl last ↦ rw (last, decimal_from) shown
      | inr more ↦ rw (more, decimal_from) later
    ]

-- A digit is no white space and no sign.
digit_plain :
    (c : Char)
    → is_digit c ≡ true
    → (is_space (code c) ≡ false) × (eqb (code c) b'-' ≡ false) × (eqb (code c) b'+' ≡ false)
unfolding is_space
digit_plain c h = ground arith

trim_right-digits : (s : String) → all_chars is_digit s ≡ true → trim_right s ≡ s
unfolding trim_right all_chars
trim_right-digits String.[] h = refl
trim_right-digits (String.◌∷◌ c String.[]) h =
    let (plain, _, _) = digit_plain c (ground arith) in rw plain refl
trim_right-digits (String.◌∷◌ c (String.◌∷◌ d s)) h =
    let same = trim_right-digits (String.◌∷◌ d s) (ground arith) in rw same refl

trim_space-digits : (s : String) → all_chars is_digit s ≡ true → trim_space s ≡ s
unfolding trim_space trim_left all_chars
trim_space-digits String.[] h = refl
trim_space-digits (String.◌∷◌ c s) h =
    let (plain, _, _) = digit_plain c (ground arith) in
    rw (plain, trim_left) (trim_right-digits (String.◌∷◌ c s) h)

decimal_from_longer :
    (fuel n : ℕ) (rest : String) → char_count rest ≤ char_count (decimal_from fuel n rest)
unfolding decimal_from char_count
decimal_from_longer zero n rest = omega arith
decimal_from_longer (suc fuel) n rest =
    let shown : String = String.◌∷◌ (hex_digit (n % 10)) rest in
    let later = decimal_from_longer fuel (n / 10) shown in
    elim (Bool-cases (eqb (n / 10) 0)) [
      | inl last ↦ rw (last, decimal_from) (omega arith)
      | inr more ↦ rw (more, decimal_from) (omega (arith, later))
    ]

decimal_nonempty : (n : ℕ) → 1 ≤ char_count (decimal n)
unfolding decimal decimal_from char_count
decimal_nonempty n =
    let later = decimal_from_longer n (n / 10) (String.◌∷◌ (hex_digit (n % 10)) "") in
    elim (Bool-cases (eqb (n / 10) 0)) [
      | inl last ↦ rw (last, decimal, decimal_from) (omega arith)
      | inr more ↦ rw (more, decimal, decimal_from) (omega (arith, later))
    ]

atoi-digits :
    (s : String)
    → all_chars is_digit s ≡ true
    → 1 ≤ char_count s
    → atoi s ≡ in_range false (digits_from 0 s)
unfolding atoi digits all_chars char_count
atoi-digits String.[] h long = absurd (omega arith)
atoi-digits (String.◌∷◌ c s) h long =
    let (_, minus, plus) = digit_plain c (ground arith) in rw (minus, plus) refl

atoi-decimal : (n : ℕ) → n < 2 ^ 63 → atoi (trim_space (decimal n)) ≡ number (pos n)
unfolding decimal
atoi-decimal n small =
    let shown = decimal_from-is_digit (suc n) n "" (unfold all_chars in refl) in
    let read : digits_from 0 (decimal_from (suc n) n "") ≡ some n =
      digits_from-decimal_from (suc n) n "" (omega arith) ∙ (unfold digits_from in refl) in
    ap atoi (trim_space-digits (decimal_from (suc n) n "") shown)
    ∙ atoi-digits (decimal_from (suc n) n "") shown (decimal_nonempty n)
    ∙ ap (in_range false) read
    ∙ (unfold in_range in ground arith)

chat_id_read :
    (text : String) (n : ℕ)
    → atoi (trim_space text) ≡ number (pos n)
    → 0 < n
    → chat_id text ≡ some (pos n)
unfolding chat_id
chat_id_read text zero read positive = absurd (omega arith)
chat_id_read text (suc n) read positive = rw (read, chat_id) refl

-- The recipient of a greeting is read back by the bot's provider as the number of the event's chat, if
-- that is positive and fits in 64 bits.
pub chat_id-greeting_of :
    (event : TelegramConnectionRequestedEvent) (locale presentation : String) (n : ℕ)
    → event.chat_id ≡ pos n
    → 0 < n
    → n < 2 ^ 63
    → chat_id (greeting_of event locale presentation).recipient ≡ some event.chat_id
unfolding greeting_of
chat_id-greeting_of event locale presentation n is_n positive small =
    let shown : show_int event.chat_id ≡ decimal n = ap show_int is_n ∙ (unfold show_int in refl) in
    ap chat_id shown
    ∙ chat_id_read (decimal n) n (atoi-decimal n small) positive
    ∙ ap (λ k. some k) (sym is_n)
