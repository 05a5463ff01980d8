-- ===== src/Delivery/EventId.antt =====
-- `newEventID` of internal/delivery/orchestrator.go: sixteen random bytes in hexadecimal, or the
-- time in decimal where the source of randomness fails.
pub mod Laws
use Prim.Native.Char.{Char}
use Prim.Native.String.{◌++◌ as ◌<>◌}
use Prim.Native.String
use message_delivery.Prelude.Text.{nth_char}
use message_delivery.Prelude.{
  ℕ, zero, suc, ◌+◌, ◌/◌, ◌%◌, String, Option, none, some, List, [], ◌∷◌, eqb, if◌then◌else◌,
}

unfoldable pub hex_digit : ℕ → Char
unfolding nth_char
hex_digit n = nth_char n "0" "123456789abcdef"

-- `hex.EncodeToString`
unfoldable pub hex_encode : List ℕ → String
unfolding hex_digit
hex_encode [] = ""
hex_encode (b ∷ bytes) =
    String.◌∷◌ (hex_digit (b / 16)) (String.◌∷◌ (hex_digit (b % 16)) (hex_encode bytes))

-- `%d`; a number has at most as many digits as the fuel, which is one more than the number.
unfoldable pub decimal_from : ℕ → ℕ → String → String
unfolding hex_digit
decimal_from zero n rest = rest
decimal_from (suc fuel) n rest =
    let shown = String.◌∷◌ (hex_digit (n % 10)) rest in
    let more = decimal_from fuel (n / 10) shown in if eqb (n / 10) 0 then shown else more

unfoldable pub decimal : ℕ → String
unfolding decimal_from
decimal n = decimal_from (suc n) n ""

-- The bytes that `rand.Read` gave, if it did, and `time.Now().UnixNano()`.
unfoldable pub new_event_id : Option (List ℕ) → ℕ → String
unfolding hex_encode decimal
new_event_id none now = "event-" <> decimal now
new_event_id (some bytes) now = hex_encode bytes
