-- ===== src/Prelude/Text/Replace.antt =====
-- `strings.ReplaceAll`: the occurrences from the left, without overlap.
use Prim.Native.Nat.{ℕ, zero, suc, ◌-◌}
use Prim.Native.String.{String, [], ◌∷◌, ◌++◌}
use message_delivery.Prelude.Tests.{if◌then◌else◌}
use message_delivery.Prelude.Text.Scan.{has_prefix, char_count}

-- The number counts the characters that are left of the occurrence just replaced.
unfoldable pub replace_from : String → String → ℕ → String → String
unfolding has_prefix char_count
replace_from old new skip [] = ""
replace_from old new (suc skip) (c ∷ s) = replace_from old new skip s
replace_from old new zero (c ∷ s) =
    let replaced = new ++ replace_from old new (char_count old - 1) s in
    let kept = c ∷ replace_from old new zero s in if has_prefix (c ∷ s) old then replaced else kept

-- `strings.ReplaceAll(s, old, new)` at an `old` that is not empty.
unfoldable pub replace_all : String → String → String → String
unfolding replace_from
replace_all s old new = replace_from old new zero s
