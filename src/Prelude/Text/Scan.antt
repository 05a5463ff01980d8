-- ===== src/Prelude/Text/Scan.antt =====
-- Tests on the characters of a text, one by one, as they are and below `ToLower`.
use Prim.Native.Nat.{ℕ, suc, ◌+◌, zero, ◌-◌}
use Prim.Native.Char.{Char, code}
use Prim.Native.String.{String, [], ◌∷◌}
use mathlib.Core.Bool.{Bool, true, false, ◌&&◌, ◌||◌}
use mathlib.Core.List.{List}
use message_delivery.Prelude.Tests.{leb, eqb, if◌then◌else◌}

abbrev pub same_char : Char → Char → Bool
same_char c d = eqb (code c) (code d)

-- `strings.HasPrefix(s, prefix)`
unfoldable pub has_prefix : String → String → Bool
has_prefix s [] = true
has_prefix [] (p ∷ ps) = false
has_prefix (c ∷ s) (p ∷ ps) = same_char c p && has_prefix s ps

-- The number of characters.
unfoldable pub char_count : String → ℕ
char_count [] = 0
char_count (c ∷ s) = suc (char_count s)

unfoldable pub all_chars : (Char → Bool) → String → Bool
all_chars p [] = true
all_chars p (c ∷ s) = p c && all_chars p s

-- The character at a place of a table, or the table's last one.
unfoldable pub nth_char : ℕ → Char → String → Char
nth_char n c [] = c
nth_char zero c (d ∷ s) = c
nth_char (suc n) c (d ∷ s) = nth_char n d s

-- Whether a code point is one of a list.
abbrev pub is_one_of : List ℕ → ℕ → Bool
is_one_of List.[] c = false
is_one_of (List.◌∷◌ d ds) c = eqb c d || is_one_of ds c

-- `strings.ContainsAny(s, chars)`, the characters given by their code points.
unfoldable pub contains_any : String → List ℕ → Bool
contains_any [] chars = false
contains_any (c ∷ s) chars = is_one_of chars (code c) || contains_any s chars

-- `unicode.ToLower`, told apart only as far as ASCII goes: besides the capitals two code points have
-- an ASCII letter for their lower case, and no other letter's lower case is ASCII.
unfoldable pub lower_code : ℕ → ℕ
lower_code c =
    if leb b'A' c && leb c b'Z'
    then c + 32
    else if eqb c 0x130
    then b'i'
    else if eqb c 0x212a
    then b'k'
    else c

-- `strings.HasPrefix(strings.ToLower(s), prefix)` at a prefix of ASCII characters.
unfoldable pub has_prefix_lower : String → String → Bool
unfolding lower_code
has_prefix_lower s [] = true
has_prefix_lower [] (p ∷ ps) = false
has_prefix_lower (c ∷ s) (p ∷ ps) = eqb (lower_code (code c)) (code p) && has_prefix_lower s ps

-- `strings.ToLower(s) == t` at a text `t` of ASCII characters.
unfoldable pub equal_lower : String → String → Bool
unfolding lower_code
equal_lower [] [] = true
equal_lower [] (d ∷ t) = false
equal_lower (c ∷ s) [] = false
equal_lower (c ∷ s) (d ∷ t) = eqb (lower_code (code c)) (code d) && equal_lower s t

-- `strings.HasSuffix(strings.ToLower(s), suffix)` at a suffix of ASCII characters.
unfoldable pub has_suffix_lower : String → String → Bool
unfolding equal_lower
has_suffix_lower [] suffix = equal_lower [] suffix
has_suffix_lower (c ∷ s) suffix = equal_lower (c ∷ s) suffix || has_suffix_lower s suffix

-- `strings.TrimSuffix(s, ".")`
unfoldable pub trim_dot : String → String
trim_dot [] = []
trim_dot (c ∷ []) = if eqb (code c) b'.' then [] else c ∷ []
trim_dot (c ∷ d ∷ s) = c ∷ trim_dot (d ∷ s)

-- `unicode.ToLower`, a letter beyond ASCII left as it is where its lower case is beyond ASCII too.
abbrev lower_char : Char → Char
lower_char c =
    if leb b'A' (code c) && leb (code c) b'Z'
    then nth_char (code c - b'A') "a" "bcdefghijklmnopqrstuvwxyz"
    else if eqb (code c) 0x130
    then "i"
    else if eqb (code c) 0x212a
    then "k"
    else c

-- `strings.ToLower(s)`, to be compared with texts of ASCII characters.
unfoldable pub to_lower : String → String
unfolding nth_char
to_lower [] = ""
to_lower (c ∷ s) = lower_char c ∷ to_lower s
