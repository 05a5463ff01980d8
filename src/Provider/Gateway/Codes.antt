-- ===== src/Provider/Gateway/Codes.antt =====
-- The codes that the gateway takes, and the error codes that it leads to.
use Prim.Native.Char.{Char, code, len_utf8, len_utf8_def}
use Prim.Native.String.{len}
use Prim.Native.String.len
use message_delivery.Prelude.{
  ℕ, zero, suc, ◌-◌, String, ◌≡◌, ◌≢◌, ◌↔◌, refl, Bool, true, false, ◌&&◌, ◌||◌, ◌==◌, leb, eqb,
  eq_iff, arith, if◌then◌else◌, Bool-cases, ap, inl, inr, ◌≤◌, ◌∙◌,
}
use message_delivery.Prelude.Text.{all_chars, nth_char, char_count}
use message_delivery.Provider.Gateway.{
  valid_numeric_code, normalize_error, normalize_chars, normalize_char, is_digit, is_capital,
}

-- A lower letter, a digit or an underscore.
abbrev pub is_code_char : Char → Bool
is_code_char c = (leb b'a' (code c) && leb (code c) b'z') || is_digit c || eqb (code c) b'_'

nth_char_passes :
    (p : Char → Bool) (n : ℕ) (c : Char) (s : String)
    → all_chars p (String.◌∷◌ c s) ≡ true
    → p (nth_char n c s) ≡ true
unfolding all_chars nth_char
nth_char_passes p n c String.[] h = ground arith
nth_char_passes p zero c (String.◌∷◌ d s) h = ground arith
nth_char_passes p (suc n) c (String.◌∷◌ d s) h = nth_char_passes p n d s (ground arith)

or_true : (a b : Bool) → a ≡ true → (a || b) ≡ true
or_true a b h = ground arith

if_passes :
    (p : Char → Bool) (t : Bool) (c d : Char)
    → (t ≡ true → p c ≡ true)
    → (t ≡ false → p d ≡ true)
    → p (if t then c else d) ≡ true
if_passes p true c d f g = f refl
if_passes p false c d f g = g refl

normalize_char_passes : (c : Char) → is_code_char (normalize_char c) ≡ true
unfolding normalize_char
normalize_char_passes c =
    if_passes is_code_char (is_capital c) _ _
      (λ h.
        nth_char_passes is_code_char (code c - b'A') "a" "bcdefghijklmnopqrstuvwxyz"
          (unfold all_chars in refl))
      (λ h.
        if_passes is_code_char ((leb b'a' (code c) && leb (code c) b'z') || is_digit c) c "_"
          (λ k. or_true _ _ k) (λ k. refl))

normalize_chars_passes : (s : String) → all_chars is_code_char (normalize_chars s) ≡ true
unfolding all_chars normalize_chars
normalize_chars_passes String.[] = refl
normalize_chars_passes (String.◌∷◌ c s) =
    ground (arith, normalize_char_passes c, normalize_chars_passes s)

cons_not_empty : (c : Char) (s : String) → (String.◌∷◌ c s == "") ≡ false
cons_not_empty c s = elim (Bool-cases (String.◌∷◌ c s == "")) [
  | inl h ↦ let same = (eq_iff (String.◌∷◌ c s) "").0 h in absurd (cc (same))
  | inr h ↦ h
]

normalize_error-cons :
    (c : Char) (s : String) → normalize_error (String.◌∷◌ c s) ≡ normalize_chars (String.◌∷◌ c s)
unfolding normalize_error
normalize_error-cons c s =
    ap (λ t. if t then "undeliverable" else normalize_chars (String.◌∷◌ c s)) (cons_not_empty c s)

-- The error code that is made of the gateway's own text holds lower letters, digits and underscores
-- only, and there is at least one.
pub normalize_error_lem :
    (value : String)
    → (all_chars is_code_char (normalize_error value) ≡ true) × (normalize_error value ≢ "")
normalize_error_lem String.[] = unfold all_chars normalize_error in (refl, λ h. cc (h))
normalize_error_lem (String.◌∷◌ c s) =
    rw (normalize_error-cons c s)
      (normalize_chars_passes (String.◌∷◌ c s), unfold normalize_chars in λ h. cc (h))

len_utf8-digit : (c : Char) → is_digit c ≡ true → len_utf8 c ≡ 1
len_utf8-digit c h = ground (arith, len_utf8_def c)

len-digits : (s : String) → all_chars is_digit s ≡ true → len s ≡ char_count s
unfolding all_chars char_count
len-digits String.[] h = len.nil
len-digits (String.◌∷◌ c s) h =
    let one = len_utf8-digit c (ground arith) in
    let rest = len-digits s (ground arith) in len.cons c s ∙ ground (arith, one, rest)

-- A code is taken exactly if it is made of four to eight decimal digits.
pub valid_numeric_code_iff :
    (code : String)
    → (valid_numeric_code code ≡ true)
      ↔ ((4 ≤ char_count code) × (char_count code ≤ 8) × (all_chars is_digit code ≡ true))
unfolding valid_numeric_code
valid_numeric_code_iff code = elim (Bool-cases (all_chars is_digit code)) [
  | inl h ↦ let same = len-digits code h in ground (arith, same)
  | inr h ↦ ground arith
]
