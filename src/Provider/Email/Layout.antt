-- ===== src/Provider/Email/Layout.antt =====
-- A layout of an e-mail, cut at its slots.
pub mod Filled
use message_delivery.Prelude.Text.Prefixes.{behind, has_prefix-behind}
use Prim.Native.String.{◌++◌ as ◌<>◌}
use Prim.Native.String.append
use mathlib.Core.Path.{subst}
use text.Mathlib.TextEquality.{Char-path}
use message_delivery.Prelude.{
  ℕ, zero, suc, ◌+◌, ◌<◌, String, Char, Bool, Bool-cases, true, false, ◌≡◌, refl, sym, ap, ◌∙◌,
  none, List, [], ◌∷◌, inl, inr, arith,
}
use message_delivery.Prelude.Text.{
  has_prefix, char_count, count_text, count_from, replace_pairs, replace_pairs_from, find_pair,
  same_char,
}

char_count-behind : (p s : String) → char_count (behind p s) ≡ char_count p + char_count s
unfolding char_count
char_count-behind String.[] s = omega arith
char_count-behind (String.◌∷◌ c p) s = omega (arith, char_count-behind p s)

-- A character that is kept, or a slot.
pub data Slot : Type 0 where
  body footer : Slot

pub data Piece : Type 0 where
  keep : Char → Piece
  slot : Slot → Piece

abbrev pub name_of : Slot → String
name_of body = "{{body}}"
name_of footer = "{{footer}}"

abbrev pub other : Slot → Slot
other body = footer
other footer = body

-- The pieces of a text, from the left.
pub data Cut : String → List Piece → Type 0 where
  end : Cut String.[] []
  at_body : {s : String} {ps : List Piece} → Cut s ps → Cut (behind "{{body}}" s) (slot body ∷ ps)
  at_footer :
      {s : String} {ps : List Piece} → Cut s ps → Cut (behind "{{footer}}" s) (slot footer ∷ ps)
  at_char :
      {s : String} {ps : List Piece} (c : Char)
      → has_prefix (String.◌∷◌ c s) "{{body}}" ≡ false
      → has_prefix (String.◌∷◌ c s) "{{footer}}" ≡ false
      → Cut s ps
      → Cut (String.◌∷◌ c s) (keep c ∷ ps)

pub Cut-total : (fuel : ℕ) (s : String) → char_count s < fuel → (ps : List Piece) × Cut s ps
unfolding char_count
Cut-total zero s h = elim h [ ]
Cut-total (suc fuel) String.[] h = ([], end)
Cut-total (suc fuel) (String.◌∷◌ c s) h =
    elim (Bool-cases (has_prefix (String.◌∷◌ c s) "{{body}}")) [
      | inl has_body ↦
          let (rest, same) = has_prefix-behind (String.◌∷◌ c s) "{{body}}" has_body in
          let shorter : char_count rest < fuel =
            omega (arith, ap char_count same, char_count-behind "{{body}}" rest) in
          let (ps, cut) = Cut-total fuel rest shorter in
          (slot body ∷ ps, subst (λ t. Cut t (slot body ∷ ps)) (sym same) (at_body cut))
      | inr no_body ↦ elim (Bool-cases (has_prefix (String.◌∷◌ c s) "{{footer}}")) [
        | inl has_footer ↦
            let (rest, same) = has_prefix-behind (String.◌∷◌ c s) "{{footer}}" has_footer in
            let shorter : char_count rest < fuel =
              omega (arith, ap char_count same, char_count-behind "{{footer}}" rest) in
            let (ps, cut) = Cut-total fuel rest shorter in
            (slot footer ∷ ps, subst (λ t. Cut t (slot footer ∷ ps)) (sym same) (at_footer cut))
        | inr no_footer ↦
            let (ps, cut) = Cut-total fuel s (omega arith) in
            (keep c ∷ ps, at_char c no_body no_footer cut)
      ]
    ]

-- The text that was cut.
abbrev pub text_of : List Piece → String
text_of [] = String.[]
text_of (keep c ∷ ps) = String.◌∷◌ c (text_of ps)
text_of (slot body ∷ ps) = behind "{{body}}" (text_of ps)
text_of (slot footer ∷ ps) = behind "{{footer}}" (text_of ps)

-- The text with the slots filled.
abbrev pub filled : (Slot → String) → List Piece → String
filled values [] = String.[]
filled values (keep c ∷ ps) = String.◌∷◌ c (filled values ps)
filled values (slot k ∷ ps) = values k <> filled values ps

abbrev pub number : Slot → List Piece → ℕ
number k [] = 0
number k (keep c ∷ ps) = number k ps
number body (slot body ∷ ps) = suc (number body ps)
number body (slot footer ∷ ps) = number body ps
number footer (slot body ∷ ps) = number footer ps
number footer (slot footer ∷ ps) = suc (number footer ps)

pub Cut-text_of : {s : String} {ps : List Piece} → Cut s ps → s ≡ text_of ps
Cut-text_of end = refl
Cut-text_of (at_body cut) = ap (behind "{{body}}") (Cut-text_of cut)
Cut-text_of (at_footer cut) = ap (behind "{{footer}}") (Cut-text_of cut)
Cut-text_of (at_char c no_body no_footer cut) = ap (λ t. String.◌∷◌ c t) (Cut-text_of cut)

pub Cut-number :
    (k : Slot) {s : String} {ps : List Piece} → Cut s ps → count_text s (name_of k) ≡ number k ps
unfolding count_text
Cut-number body end = refl
Cut-number footer end = refl
Cut-number body (at_body cut) = ap (λ n. suc n) (Cut-number body cut)
Cut-number footer (at_body cut) = Cut-number footer cut
Cut-number body (at_footer cut) = Cut-number body cut
Cut-number footer (at_footer cut) = ap (λ n. suc n) (Cut-number footer cut)
Cut-number body (at_char c no_body no_footer cut) = rw no_body (Cut-number body cut)
Cut-number footer (at_char c no_body no_footer cut) = rw no_footer (Cut-number footer cut)

abbrev pub pairs : (Slot → String) → List (String × String)
pairs values = ("{{body}}", values body) ∷ ("{{footer}}", values footer) ∷ []

nothing_found :
    (values : Slot → String) (s : String)
    → has_prefix s "{{body}}" ≡ false
    → has_prefix s "{{footer}}" ≡ false
    → find_pair (pairs values) s ≡ none
unfolding find_pair
nothing_found values s no_body no_footer = rw (no_body, no_footer)

-- The slots are filled, and what fills them is not looked at again.
pub Cut-filled :
    (values : Slot → String) {s : String} {ps : List Piece}
    → Cut s ps
    → replace_pairs (pairs values) s ≡ filled values ps
unfolding replace_pairs
Cut-filled values end = refl
Cut-filled values (at_body cut) = ap (λ t. values body <> t) (Cut-filled values cut)
Cut-filled values (at_footer cut) = ap (λ t. values footer <> t) (Cut-filled values cut)
Cut-filled values (at_char {s} c no_body no_footer cut) =
    rw (nothing_found values (String.◌∷◌ c s) no_body no_footer, replace_pairs_from)
      (ap (λ t. String.◌∷◌ c t) (Cut-filled values cut))
