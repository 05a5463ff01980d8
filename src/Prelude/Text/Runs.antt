-- ===== src/Prelude/Text/Runs.antt =====
-- The longest run of characters of a kind at the beginning of a text, and what stands behind a
-- prefix.
use Prim.Native.Char.{Char}
use Prim.Native.String.{String, [], ◌∷◌}
use mathlib.Core.Bool.{Bool, false}
use mathlib.Core.Option.{Option, none, some}
use message_delivery.Prelude.Tests.{if◌then◌else◌}
use message_delivery.Prelude.Text.Scan.{same_char}

-- The run, and the rest.
unfoldable pub take_run : (Char → Bool) → String → String
take_run p [] = ""
take_run p (c ∷ s) = let rest = take_run p s in if p c then c ∷ rest else ""

unfoldable pub drop_run : (Char → Bool) → String → String
drop_run p [] = ""
drop_run p (c ∷ s) = let rest = drop_run p s in if p c then rest else c ∷ s

-- What stands behind a prefix, if it is there: `strings.CutPrefix(s, prefix)`.
unfoldable pub cut_prefix : String → String → Option String
cut_prefix [] s = some s
cut_prefix (p ∷ ps) [] = none
cut_prefix (p ∷ ps) (c ∷ s) = let rest = cut_prefix ps s in if same_char p c then rest else none

-- A text does not begin with a character of a kind.
unfoldable pub starts_with : (Char → Bool) → String → Bool
starts_with p [] = false
starts_with p (c ∷ s) = p c
