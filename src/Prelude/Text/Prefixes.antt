-- ===== src/Prelude/Text/Prefixes.antt =====
-- What stands behind a prefix of a text.
use Prim.Native.String.{String, ◌++◌ as ◌<>◌}
use Prim.Native.String.append
use text.Mathlib.TextEquality.{Char-path}
use mathlib.Core.Path.{◌≡◌, refl, sym, ap, ◌∙◌}
use mathlib.Core.Bool.{true}
use native.Mathlib.Omega.{arith}
use message_delivery.Prelude.Text.Scan.{has_prefix, has_prefix_lower, equal_lower}

-- A text behind another.
abbrev pub behind : String → String → String
behind String.[] s = s
behind (String.◌∷◌ c p) s = String.◌∷◌ c (behind p s)

pub behind-eq-append : (p s : String) → behind p s ≡ p <> s
behind-eq-append String.[] s = sym (append.nil s)
behind-eq-append (String.◌∷◌ c p) s =
    ap (λ t. String.◌∷◌ c t) (behind-eq-append p s) ∙ sym (append.cons c p s)

-- What stands behind a prefix.
pub has_prefix-behind :
    (s p : String) → has_prefix s p ≡ true → (rest : String) × (s ≡ behind p rest)
unfolding has_prefix
has_prefix-behind s String.[] h = (s, refl)
has_prefix-behind String.[] (String.◌∷◌ d p) h = cc (h)
has_prefix-behind (String.◌∷◌ c s) (String.◌∷◌ d p) h =
    let (rest, same) = has_prefix-behind s p (ground arith) in
    (rest, ap (λ e. String.◌∷◌ e s) (Char-path c d (ground arith)) ∙ ap (λ t. String.◌∷◌ d t) same)

pub has_prefix_lower-split :
    (s p : String)
    → has_prefix_lower s p ≡ true
    → (front : String) × (rest : String) × (s ≡ front <> rest) × (equal_lower front p ≡ true)
unfolding has_prefix_lower equal_lower
has_prefix_lower-split s String.[] h = ("", s, sym (append.nil s), refl)
has_prefix_lower-split String.[] (String.◌∷◌ d p) h = cc (h)
has_prefix_lower-split (String.◌∷◌ c s) (String.◌∷◌ d p) h =
    let (front, rest, split, same) = has_prefix_lower-split s p (ground arith) in
    (
      String.◌∷◌ c front,
      rest,
      ap (λ t. String.◌∷◌ c t) split ∙ sym (append.cons c front rest),
      ground (arith, same),
    )

pub has_prefix_lower-append :
    (front rest p : String) → equal_lower front p ≡ true → has_prefix_lower (front <> rest) p ≡ true
unfolding has_prefix_lower equal_lower
has_prefix_lower-append String.[] rest String.[] h = refl
has_prefix_lower-append String.[] rest (String.◌∷◌ d p) h = cc (h)
has_prefix_lower-append (String.◌∷◌ c front) rest String.[] h = refl
has_prefix_lower-append (String.◌∷◌ c front) rest (String.◌∷◌ d p) h =
    let deeper = has_prefix_lower-append front rest p (ground arith) in
    rw (append.cons c front rest) (ground (arith, deeper))
