-- ===== src/Prelude/Text/Blank.antt =====
-- Which texts are nothing but white space, and which hold none of some characters.
use Prim.Native.Nat.{ℕ}
use Prim.Native.Char.{Char, code}
use Prim.Native.String.{String}
use mathlib.Core.Path.{◌≡◌, refl, ◌∙◌}
use mathlib.Core.Logic.{◌≢◌, inl, inr}
use mathlib.Core.Bool.{Bool, false, not, ◌&&◌}
use mathlib.Core.List.{List}
use native.Mathlib.Omega.{arith}
use text.Mathlib.Text.{◌==◌}
use text.Mathlib.TextEquality.{eq_iff}
use message_delivery.Prelude.Tests.{Bool-cases}
use message_delivery.Prelude.Text.Space.{
  is_space, trim_space, trim_left, trim_right, push_unless_last_space,
}
use message_delivery.Prelude.Text.Scan.{all_chars, contains_any, is_one_of}

abbrev pub is_blank : String → Bool
is_blank s = all_chars (λ c. is_space (code c)) s

cons_ne : (c : Char) (s : String) → (String.◌∷◌ c s == "") ≡ false
cons_ne c s =
    let differs : String.◌∷◌ c s ≢ "" = λ h. cc (h) in
    ground (arith, differs, eq_iff (String.◌∷◌ c s) "")

push-blank :
    (c : Char) (t : String) → (push_unless_last_space c t == "") ≡ (is_space (code c) && (t == ""))
push-blank c String.[] = elim (Bool-cases (is_space (code c))) [
  | inl space ↦ rw space refl
  | inr other ↦ rw other (cons_ne c "")
]
push-blank c (String.◌∷◌ d t) = ground (arith, cons_ne c (String.◌∷◌ d t), cons_ne d t)

trim_right-blank : (s : String) → (trim_right s == "") ≡ is_blank s
unfolding trim_right all_chars
trim_right-blank String.[] = refl
trim_right-blank (String.◌∷◌ c s) = push-blank c (trim_right s) ∙ ground (arith, trim_right-blank s)

trim_left-blank : (s : String) → is_blank (trim_left s) ≡ is_blank s
unfolding trim_left all_chars
trim_left-blank String.[] = refl
trim_left-blank (String.◌∷◌ c s) = elim (Bool-cases (is_space (code c))) [
  | inl space ↦ rw space (trim_left-blank s)
  | inr other ↦ rw other (ground (arith, other))
]

-- Nothing is left of a text that is trimmed exactly if it is nothing but white space.
pub trim_space-blank : (s : String) → (trim_space s == "") ≡ is_blank s
unfolding trim_space
trim_space-blank s = trim_right-blank (trim_left s) ∙ trim_left-blank s

pub contains_any-all :
    (s : String) (chars : List ℕ)
    → contains_any s chars ≡ not (all_chars (λ c. not (is_one_of chars (code c))) s)
unfolding contains_any all_chars
contains_any-all String.[] chars = refl
contains_any-all (String.◌∷◌ c s) chars = ground (arith, contains_any-all s chars)
