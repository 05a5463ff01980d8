-- ===== src/Delivery/EventId/Laws.antt =====
-- Ids made of random bytes.
use mathlib.Core.Path.{ap₂}
use Prim.Native.Char.{code}
use message_delivery.Prelude.{
  ℕ, suc, zero, ◌+◌, ◌*◌, ◌/◌, ◌%◌, ◌<◌, String, ◌≡◌, refl, Bool, true, some, List, [], ◌∷◌, arith,
  All, length, leb, ◌&&◌, eqb, if◌then◌else◌, ◌-◌,
}
use message_delivery.Prelude.Text.{char_count, all_chars}
use message_delivery.Delivery.EventId.{hex_digit, hex_encode, new_event_id}
use message_delivery.Delivery.Event.{is_lower_hex}

-- The value of a hexadecimal digit, by its code point.
abbrev pub digit_value : ℕ → ℕ
digit_value c = if leb c b'9' then c - b'0' else c - b'a' + 10

-- The numbers below a bound pass a test.
unfoldable pub holds_up_to : (ℕ → Bool) → ℕ → Bool
holds_up_to test zero = true
holds_up_to test (suc top) = holds_up_to test top && test top

pub holds_up_to_lem :
    (test : ℕ → Bool) (bound k : ℕ) → k < bound → holds_up_to test bound ≡ true → test k ≡ true
unfolding holds_up_to
holds_up_to_lem test zero k small all_hold = absurd (omega arith)
holds_up_to_lem test (suc top) k small all_hold = ground (arith, holds_up_to_lem test top k)

digit_table :
    holds_up_to (λ n. eqb (digit_value (code (hex_digit n))) n && is_lower_hex (hex_digit n)) 16
    ≡ true
unfolding holds_up_to hex_digit
digit_table = refl

hex_digit_lem :
    (n : ℕ) → n < 16 → (digit_value (code (hex_digit n)) ≡ n) × (is_lower_hex (hex_digit n) ≡ true)
hex_digit_lem n h =
    let p = λ (k : ℕ). eqb (digit_value (code (hex_digit k))) k && is_lower_hex (hex_digit k) in
    let both : p n ≡ true = holds_up_to_lem p 16 n h digit_table in ground arith

-- The bytes of a text of hexadecimal digits, two to a byte.
abbrev pub hex_decode : String → List ℕ
hex_decode String.[] = []
hex_decode (String.◌∷◌ c String.[]) = []
hex_decode (String.◌∷◌ c (String.◌∷◌ d s)) =
    (digit_value (code c) * 16 + digit_value (code d)) ∷ hex_decode s

hex_decode-hex_encode :
    (bytes : List ℕ) → All (λ b. b < 256) bytes → hex_decode (hex_encode bytes) ≡ bytes
unfolding hex_encode
hex_decode-hex_encode [] _ = refl
hex_decode-hex_encode (b ∷ bytes) (h, hs) =
    let (high, _) = hex_digit_lem (b / 16) (omega arith) in
    let (low, _) = hex_digit_lem (b % 16) (omega arith) in
    let ih = hex_decode-hex_encode bytes hs in ap₂ (λ n l. n ∷ l) (rw (high, low) (omega arith)) ih

pub hex_encode_shape :
    (bytes : List ℕ)
    → All (λ b. b < 256) bytes
    → (char_count (hex_encode bytes) ≡ 2 * length bytes)
      × (all_chars is_lower_hex (hex_encode bytes) ≡ true)
unfolding hex_encode char_count all_chars
hex_encode_shape [] _ = (refl, refl)
hex_encode_shape (b ∷ bytes) (h, hs) =
    let (_, high) = hex_digit_lem (b / 16) (omega arith) in
    let (_, low) = hex_digit_lem (b % 16) (omega arith) in
    let (count, ok_rest) = hex_encode_shape bytes hs in
    (omega (arith, count), rw (high, low) ok_rest)

-- An id made of sixteen random bytes is 32 lower-case hexadecimal digits, from which the bytes can
-- be read back: different bytes give different ids. The time plays no part in it.
pub new_event_id_random :
    (bytes : List ℕ) (now : ℕ)
    → length bytes ≡ 16
    → All (λ b. b < 256) bytes
    → (char_count (new_event_id (some bytes) now) ≡ 32)
      × (all_chars is_lower_hex (new_event_id (some bytes) now) ≡ true)
      × (hex_decode (new_event_id (some bytes) now) ≡ bytes)
unfolding new_event_id
new_event_id_random bytes now sixteen in_range =
    let (count, lower) = hex_encode_shape bytes in_range in
    (omega (arith, count), lower, hex_decode-hex_encode bytes in_range)
