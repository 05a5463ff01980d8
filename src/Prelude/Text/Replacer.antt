-- ===== src/Prelude/Text/Replacer.antt =====
-- `strings.NewReplacer(pairs...).Replace`: at each place the first pair whose old text stands there.
use Prim.Native.Nat.{ℕ, zero, suc, ◌-◌}
use Prim.Native.String.{String, [], ◌∷◌, ◌++◌}
use mathlib.Core.Option.{Option, none, some}
use mathlib.Core.List.{List}
use message_delivery.Prelude.Tests.{if◌then◌else◌}
use message_delivery.Prelude.Text.Scan.{has_prefix, char_count}

-- The pair that applies at the beginning of a text.
unfoldable pub find_pair : List (String × String) → String → Option (String × String)
unfolding has_prefix
find_pair List.[] s = none
find_pair (List.◌∷◌ (old, new) pairs) s =
    if has_prefix s old then some (old, new) else find_pair pairs s

-- The number counts the characters that are left of the old text just replaced, none of which is
-- empty.
unfoldable pub replace_pairs_from : List (String × String) → ℕ → String → String
unfolding find_pair char_count
replace_pairs_from pairs skip [] = ""
replace_pairs_from pairs (suc skip) (c ∷ s) = replace_pairs_from pairs skip s
replace_pairs_from pairs zero (c ∷ s) = elim (find_pair pairs (c ∷ s)) [
  | none ↦ c ∷ replace_pairs_from pairs zero s
  | some (old, new) ↦ new ++ replace_pairs_from pairs (char_count old - 1) s
]

unfoldable pub replace_pairs : List (String × String) → String → String
unfolding replace_pairs_from
replace_pairs pairs s = replace_pairs_from pairs zero s
