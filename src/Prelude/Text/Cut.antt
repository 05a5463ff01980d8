-- ===== src/Prelude/Text/Cut.antt =====
-- Parts of a text: prefixes by characters, what stands before or behind a separator, pieces joined
-- and counted.
use Prim.Native.Nat.{ℕ, zero, suc, ◌-◌}
use Prim.Native.Char.{Char, code}
use Prim.Native.String.{String, [], ◌∷◌, ◌++◌}
use mathlib.Core.Bool.{Bool, ◌||◌}
use mathlib.Core.List.{List}
use message_delivery.Prelude.Tests.{eqb, if◌then◌else◌}
use message_delivery.Prelude.Text.Scan.{has_prefix, has_prefix_lower, char_count}

-- `string([]rune(s)[:n])`, at most the whole text.
unfoldable pub take_chars : ℕ → String → String
take_chars zero s = ""
take_chars (suc n) [] = ""
take_chars (suc n) (c ∷ s) = c ∷ take_chars n s

-- `s[:i]` at the first place `i` of a character, or the whole text.
unfoldable pub before_char : ℕ → String → String
before_char d [] = ""
before_char d (c ∷ s) = let rest = before_char d s in if eqb (code c) d then "" else c ∷ rest

after_last : ℕ → String → String → String
after_last d [] best = best
after_last d (c ∷ s) best = after_last d s (if eqb (code c) d then s else best)

-- `s[strings.LastIndexByte(s, d)+1:]`
unfoldable pub after_last_char : ℕ → String → String
unfolding after_last
after_last_char d s = after_last d s s

-- `strings.TrimRight(s, "/")`
abbrev push_unless_slash : Char → String → String
push_unless_slash c [] = if eqb (code c) b'/' then "" else c ∷ []
push_unless_slash c (d ∷ s) = c ∷ d ∷ s

unfoldable pub trim_right_slash : String → String
trim_right_slash [] = ""
trim_right_slash (c ∷ s) = push_unless_slash c (trim_right_slash s)

-- `strings.Join(parts, separator)`
unfoldable pub join : String → List String → String
join separator List.[] = ""
join separator (List.◌∷◌ part List.[]) = part
join separator (List.◌∷◌ part (List.◌∷◌ next parts)) =
    part ++ separator ++ join separator (List.◌∷◌ next parts)

-- `strings.Contains(strings.ToLower(s), part)` at a part of ASCII characters.
unfoldable pub contains_lower : String → String → Bool
unfolding has_prefix_lower
contains_lower [] part = has_prefix_lower "" part
contains_lower (c ∷ s) part = has_prefix_lower (c ∷ s) part || contains_lower s part

-- `strings.Count(s, part)` at a part that is not empty: the number counts the characters that are
-- left of the occurrence just met.
unfoldable pub count_from : String → ℕ → String → ℕ
unfolding has_prefix char_count
count_from part skip [] = 0
count_from part (suc skip) (c ∷ s) = count_from part skip s
count_from part zero (c ∷ s) =
    let met = suc (count_from part (char_count part - 1) s) in
    let rest = count_from part zero s in if has_prefix (c ∷ s) part then met else rest

unfoldable pub count_text : String → String → ℕ
unfolding count_from
count_text s part = count_from part zero s
