-- ===== src/Prelude/Text/Markup.antt =====
-- The characters by which HTML is read, in a text and after `html.EscapeString`.
use Prim.Native.Char.{Char, code}
use Prim.Native.String.{String, ◌++◌ as ◌<>◌}
use Prim.Native.String.append
use mathlib.Core.Path.{◌≡◌, refl, ap, ◌∙◌}
use mathlib.Core.Bool.{Bool, true, false, not, ◌||◌}
use mathlib.Core.List.{List, [], ◌∷◌, ◌++◌}
use native.Mathlib.Omega.{arith}
use message_delivery.Prelude.Tests.{eqb, if◌then◌else◌}
use message_delivery.Prelude.Text.Scan.{all_chars}
use message_delivery.Prelude.Text.Escape.{escape_char, escape_string}

-- The characters that open or close a tag or an attribute.
abbrev pub is_markup : Char → Bool
is_markup c = eqb (code c) b'<' || eqb (code c) b'>' || eqb (code c) 34 || eqb (code c) 39

pub all_chars-append :
    (p : Char → Bool) (s t : String)
    → all_chars p s ≡ true
    → all_chars p t ≡ true
    → all_chars p (s <> t) ≡ true
unfolding all_chars
all_chars-append p String.[] t h k = rw append.nil k
all_chars-append p (String.◌∷◌ c s) t h k =
    rw (append.cons c s t) (ground (arith, all_chars-append p s t))

abbrev pub is_text : String → Bool
is_text s = all_chars (λ c. not (is_markup c)) s

pub pick :
    (test : Bool) (s t : String)
    → is_text s ≡ true
    → (test ≡ false → is_text t ≡ true)
    → is_text (if test then s else t) ≡ true
pick true s t h k = h
pick false s t h k = k refl

one_char : (c : Char) → is_markup c ≡ false → is_text (String.◌∷◌ c "") ≡ true
unfolding all_chars
one_char c h = ground arith

escape_char-is_text : (c : Char) → is_text (escape_char c) ≡ true
unfolding escape_char
escape_char-is_text c = pick (eqb (code c) b'&') "&amp;" _ (unfold all_chars in refl) (λ h0.
    pick (eqb (code c) 39) "&#39;" _ (unfold all_chars in refl) (λ h1.
      pick (eqb (code c) b'<') "&lt;" _ (unfold all_chars in refl) (λ h2.
        pick (eqb (code c) b'>') "&gt;" _ (unfold all_chars in refl) (λ h3.
          pick (eqb (code c) 34) "&#34;" (String.◌∷◌ c "") (unfold all_chars in refl)
            (λ h4. one_char c (ground arith))))))

pub escape_string-is_text : (s : String) → is_text (escape_string s) ≡ true
unfolding escape_string
escape_string-is_text String.[] = unfold all_chars in refl
escape_string-is_text (String.◌∷◌ c s) =
    all_chars-append (λ d. not (is_markup d)) (escape_char c) (escape_string s)
      (escape_char-is_text c) (escape_string-is_text s)

-- The characters of a text that open or close tags and attributes, in order.
abbrev pub markup_of : String → List Char
markup_of String.[] = []
markup_of (String.◌∷◌ c s) = let rest = markup_of s in if is_markup c then c ∷ rest else rest

pub markup_of-append : (s t : String) → is_text s ≡ true → markup_of (s <> t) ≡ markup_of t
unfolding all_chars
markup_of-append String.[] t h = rw append.nil
markup_of-append (String.◌∷◌ c s) t h =
    rw (append.cons c s t) (ground (arith, markup_of-append s t))

pub markup_of-text : (s : String) → is_text s ≡ true → markup_of s ≡ []
unfolding all_chars
markup_of-text String.[] h = refl
markup_of-text (String.◌∷◌ c s) h = ground (arith, markup_of-text s)

-- The markup of two texts, one after the other.
pub markup_of-concat : (s t : String) → markup_of (s <> t) ≡ markup_of s ++ markup_of t
markup_of-concat String.[] t = rw append.nil
markup_of-concat (String.◌∷◌ c s) t = rw (append.cons c s t) (ground (arith, markup_of-concat s t))

-- Text between two tags adds nothing to their markup.
pub markup_of-between :
    (before s after : String)
    → is_text s ≡ true
    → markup_of (before <> s <> after) ≡ markup_of before ++ markup_of after
markup_of-between before s after h =
    markup_of-concat before (s <> after)
    ∙ ap (λ l. markup_of before ++ l) (markup_of-append s after h)
