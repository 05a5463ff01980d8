-- ===== src/Template/Escaping.antt =====
-- Variables that `replaceVariables` puts into a template of HTML.
use Prim.Native.Char.{Char}
use Prim.Native.String.{◌++◌ as ◌<>◌, []}
use Prim.Native.String.append
use message_delivery.Prelude.{
  ℕ, zero, suc, ◌-◌, [], ◌∷◌, ◌∙◌, String, Bool, true, false, not, ◌&&◌, ◌≡◌, refl, arith,
  Bool-cases, inl, inr, ℕ, suc, All,
}
use message_delivery.Prelude.Dict.{Dict}
use message_delivery.Template.{replace_variables}
use message_delivery.Prelude.Text.Markup.{
  is_markup, is_text, markup_of, markup_of-append, all_chars-append, escape_string-is_text,
}
use message_delivery.Prelude.Text.{
  all_chars, escape_string, replace_from, has_prefix, char_count, replace_all,
}

-- The first characters of a text, as many as the number says, are no markup.
abbrev starts_as_text : ℕ → String → Bool
starts_as_text zero s = true
starts_as_text (suc n) String.[] = true
starts_as_text (suc n) (String.◌∷◌ c s) = not (is_markup c) && starts_as_text n s

has_prefix-starts_as_text :
    (s old : String)
    → has_prefix s old ≡ true
    → is_text old ≡ true
    → starts_as_text (char_count old) s ≡ true
unfolding has_prefix all_chars char_count
has_prefix-starts_as_text s String.[] h k = refl
has_prefix-starts_as_text String.[] (String.◌∷◌ p ps) h k = refl
has_prefix-starts_as_text (String.◌∷◌ c s) (String.◌∷◌ p ps) h k =
    ground (arith, has_prefix-starts_as_text s ps)

met_start :
    (c : Char) (s : String) (p : Char) (ps : String)
    → starts_as_text (char_count (String.◌∷◌ p ps)) (String.◌∷◌ c s) ≡ true
    → (is_markup c ≡ false) × (starts_as_text (char_count (String.◌∷◌ p ps) - 1) s ≡ true)
unfolding char_count
met_start c s p ps h =
    let one_less : suc (char_count ps) - 1 ≡ char_count ps = omega arith in
    (ground arith, rw one_less (ground arith))

markup_of-replace_from :
    (p : Char) (ps new : String) (skip : ℕ) (s : String)
    → is_text (String.◌∷◌ p ps) ≡ true
    → is_text new ≡ true
    → starts_as_text skip s ≡ true
    → markup_of (replace_from (String.◌∷◌ p ps) new skip s) ≡ markup_of s
unfolding replace_from
markup_of-replace_from p ps new skip String.[] old_text new_text h = refl
markup_of-replace_from p ps new (suc skip) (String.◌∷◌ c s) old_text new_text h =
    ground (arith, markup_of-replace_from p ps new skip s old_text new_text)
markup_of-replace_from p ps new zero (String.◌∷◌ c s) old_text new_text h =
    elim (Bool-cases (has_prefix (String.◌∷◌ c s) (String.◌∷◌ p ps))) [
      | inl met ↦
          let begins = has_prefix-starts_as_text (String.◌∷◌ c s) (String.◌∷◌ p ps) met old_text in
          let (plain, more) = met_start c s p ps begins in
          rw met (
            markup_of-append new
              (replace_from (String.◌∷◌ p ps) new (char_count (String.◌∷◌ p ps) - 1) s) new_text
            ∙ (markup_of-replace_from p ps new (char_count (String.◌∷◌ p ps) - 1) s old_text
                  new_text more
                ∙ ground arith))
      | inr missed ↦
          rw missed (ground (arith, markup_of-replace_from p ps new zero s old_text new_text refl))
    ]

-- Replacing a text without markup by another leaves the markup as it is.
markup_of-replace_all :
    (p : Char) (ps new s : String)
    → is_text (String.◌∷◌ p ps) ≡ true
    → is_text new ≡ true
    → markup_of (replace_all s (String.◌∷◌ p ps) new) ≡ markup_of s
unfolding replace_all
markup_of-replace_all p ps new s old_text new_text =
    markup_of-replace_from p ps new zero s old_text new_text refl

slot-cons : (key : String) → ("{{" <> key <> "}}") ≡ String.◌∷◌ "{" ("{" <> key <> "}}")
slot-cons key = append.cons "{" "{" (key <> "}}")

slot-is_text : (key : String) → is_text key ≡ true → is_text ("{" <> key <> "}}") ≡ true
slot-is_text key h =
    all_chars-append (λ d. not (is_markup d)) "{" (key <> "}}") (unfold all_chars in refl)
      (all_chars-append (λ d. not (is_markup d)) key "}}" h (unfold all_chars in refl))

-- Filling a template of HTML with escaped variables leaves its markup as it is, provided that the
-- names of the variables hold none themselves: whatever the variables say, they neither add nor take
-- away a character that opens or closes a tag or an attribute.
pub markup_of-replace_variables :
    (value : String) (variables : Dict String)
    → All (λ v. is_text v.0 ≡ true) variables
    → markup_of (replace_variables value variables true) ≡ markup_of value
unfolding replace_variables
markup_of-replace_variables value [] _ = refl
markup_of-replace_variables value ((key, variable) ∷ variables) (h, hs) =
    markup_of-replace_variables (replace_all value ("{{" <> key <> "}}") (escape_string variable))
      variables hs
    ∙ rw (slot-cons key) (
        markup_of-replace_all "{" ("{" <> key <> "}}") (escape_string variable) value
          (unfold all_chars in slot-is_text key h) (escape_string-is_text variable))
