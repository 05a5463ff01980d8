-- ===== src/Prelude/Text/Atoi.antt =====
-- `strconv.Atoi` on a 64-bit machine.
use Prim.Native.Nat.{ℕ, ◌+◌, ◌*◌, ◌-◌, ◌^◌}
use Prim.Native.Char.{code}
use Prim.Native.String.{String, [], ◌∷◌}
use mathlib.Core.Bool.{Bool, true, false, ◌&&◌}
use mathlib.Core.Option.{Option, none, some}
use message_delivery.Prelude.Tests.{leb, ltb, eqb, if◌then◌else◌}
use message_delivery.Prelude.Int.{ℤ, pos, signed}

-- The number, or the error with the value that comes beside it: 0, or the nearest `int`.
pub data Parsed : Type 0 where
  number : ℤ → Parsed
  syntax_error : Parsed
  range_error : ℤ → Parsed

unfoldable pub digits_from : ℕ → String → Option ℕ
digits_from n [] = some n
digits_from n (c ∷ s) =
    let rest = digits_from (n * 10 + (code c - 48)) s in
    if leb 48 (code c) && leb (code c) 57 then rest else none

unfoldable pub digits : String → Option ℕ
unfolding digits_from
digits [] = none
digits (c ∷ s) = digits_from 0 (c ∷ s)

-- The magnitudes that fit: up to 2 ^ 63 below zero, one less above.
unfoldable pub in_range : Bool → Option ℕ → Parsed
in_range negative none = syntax_error
in_range true (some n) =
    if ltb (2 ^ 63) n then range_error (signed true (2 ^ 63)) else number (signed true n)
in_range false (some n) = if ltb n (2 ^ 63) then number (pos n) else range_error (pos (2 ^ 63 - 1))

unfoldable pub atoi : String → Parsed
unfolding digits in_range
atoi [] = syntax_error
atoi (c ∷ s) =
    if eqb (code c) b'-'
    then in_range true (digits s)
    else if eqb (code c) b'+'
    then in_range false (digits s)
    else in_range false (digits (c ∷ s))

-- `n, _ := strconv.Atoi(s)`
abbrev pub value_of : Parsed → ℤ
value_of (number n) = n
value_of syntax_error = pos 0
value_of (range_error n) = n
