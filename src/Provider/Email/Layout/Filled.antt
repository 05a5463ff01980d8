-- ===== src/Provider/Email/Layout/Filled.antt =====
-- A layout in which each slot stands once.
use message_delivery.Prelude.Text.Prefixes.{behind-eq-append}
use Prim.Native.String.{◌++◌ as ◌<>◌}
use Prim.Native.String.append
use mathlib.Core.Path.{subst}
use message_delivery.Prelude.{refl, suc, String, Char, ◌≡◌, sym, ap, ◌∙◌, List, [], ◌∷◌, arith}
use message_delivery.Prelude.Text.{char_count, count_text, replace_pairs}
use message_delivery.Provider.Email.Layout.{
  Slot, body, footer, Piece, keep, slot, name_of, other, text_of, filled, number, pairs, Cut-total,
  Cut-text_of, Cut-number, Cut-filled,
}

text_of-slot : (k : Slot) (ps : List Piece) → text_of (slot k ∷ ps) ≡ name_of k <> text_of ps
text_of-slot body ps = behind-eq-append "{{body}}" (text_of ps)
text_of-slot footer ps = behind-eq-append "{{footer}}" (text_of ps)

-- Without slots nothing is filled.
filled_plain :
    (values : Slot → String) (ps : List Piece)
    → number body ps ≡ 0
    → number footer ps ≡ 0
    → filled values ps ≡ text_of ps
filled_plain values [] no_body no_footer = refl
filled_plain values (keep c ∷ ps) no_body no_footer =
    ap (λ t. String.◌∷◌ c t) (filled_plain values ps no_body no_footer)
filled_plain values (slot body ∷ ps) no_body no_footer = absurd (omega arith)
filled_plain values (slot footer ∷ ps) no_body no_footer = absurd (omega arith)

-- A text around one slot, and what it is filled to.
abbrev AroundOne : (Slot → String) → Slot → String → String → Type 0
AroundOne values k text out =
    (before : String) × (after : String) × (text ≡ before <> (name_of k <> after))
    × (out ≡ before <> (values k <> after))

AroundOne-keep :
    (values : Slot → String) (k : Slot) (c : Char) {text out : String}
    → AroundOne values k text out
    → AroundOne values k (String.◌∷◌ c text) (String.◌∷◌ c out)
AroundOne-keep values k c (before, after, is_text, is_out) = (
  String.◌∷◌ c before,
  after,
  ap (λ t. String.◌∷◌ c t) is_text ∙ sym (append.cons c before (name_of k <> after)),
  ap (λ t. String.◌∷◌ c t) is_out ∙ sym (append.cons c before (values k <> after)),
)

AroundOne-here :
    (values : Slot → String) (k : Slot) (ps : List Piece)
    → filled values ps ≡ text_of ps
    → AroundOne values k (text_of (slot k ∷ ps)) (filled values (slot k ∷ ps))
AroundOne-here values k ps plain = (
  "",
  text_of ps,
  text_of-slot k ps ∙ sym (append.nil (name_of k <> text_of ps)),
  ap (λ t. values k <> t) plain ∙ sym (append.nil (values k <> text_of ps)),
)

filled_once :
    (values : Slot → String) (k : Slot) (ps : List Piece)
    → number k ps ≡ 1
    → number (other k) ps ≡ 0
    → AroundOne values k (text_of ps) (filled values ps)
filled_once values k [] one none_else = absurd (omega arith)
filled_once values k (keep c ∷ ps) one none_else =
    AroundOne-keep values k c (filled_once values k ps one none_else)
filled_once values body (slot body ∷ ps) one none_else =
    AroundOne-here values body ps (filled_plain values ps (omega arith) none_else)
filled_once values footer (slot footer ∷ ps) one none_else =
    AroundOne-here values footer ps (filled_plain values ps none_else (omega arith))
filled_once values body (slot footer ∷ ps) one none_else = absurd (omega arith)
filled_once values footer (slot body ∷ ps) one none_else = absurd (omega arith)

-- A text around two slots, the first of which is given, and what it is filled to.
pub record AroundBoth (values : Slot → String) (k : Slot) (text out : String) : Type 0 where
  pub before : String
  pub between : String
  pub after : String
  pub is_text : text ≡ before <> (name_of k <> (between <> (name_of (other k) <> after)))
  pub is_out : out ≡ before <> (values k <> (between <> (values (other k) <> after)))

-- Each slot stands once, in one of the two orders.
abbrev pub IsFilled : (Slot → String) → String → String → Type 0
IsFilled values text out = (k : Slot) × AroundBoth values k text out

AroundBoth-keep :
    (values : Slot → String) (c : Char) {text out : String}
    → IsFilled values text out
    → IsFilled values (String.◌∷◌ c text) (String.◌∷◌ c out)
AroundBoth-keep values c (k, both) = (
  k,
  record {
    before = String.◌∷◌ c both.before;
    between = both.between;
    after = both.after;
    is_text =
        ap (λ t. String.◌∷◌ c t) both.is_text
        ∙ sym (
            append.cons c both.before
              (name_of k <> (both.between <> (name_of (other k) <> both.after))));
    is_out =
        ap (λ t. String.◌∷◌ c t) both.is_out
        ∙ sym (
            append.cons c both.before
              (values k <> (both.between <> (values (other k) <> both.after))));
  },
)

AroundBoth-here :
    (values : Slot → String) (k : Slot) (ps : List Piece)
    → AroundOne values (other k) (text_of ps) (filled values ps)
    → AroundBoth values k (text_of (slot k ∷ ps)) (filled values (slot k ∷ ps))
AroundBoth-here values k ps (between, after, is_text, is_out) = record {
  before = "";
  between = between;
  after = after;
  is_text =
      text_of-slot k ps
      ∙ ap (λ t. name_of k <> t) is_text
      ∙ sym (append.nil (name_of k <> (between <> (name_of (other k) <> after))));
  is_out =
      ap (λ t. values k <> t) is_out
      ∙ sym (append.nil (values k <> (between <> (values (other k) <> after))));
}

filled_both :
    (values : Slot → String) (ps : List Piece)
    → number body ps ≡ 1
    → number footer ps ≡ 1
    → IsFilled values (text_of ps) (filled values ps)
filled_both values [] one_body one_footer = absurd (omega arith)
filled_both values (keep c ∷ ps) one_body one_footer =
    AroundBoth-keep values c (filled_both values ps one_body one_footer)
filled_both values (slot body ∷ ps) one_body one_footer =
    (body, AroundBoth-here values body ps (filled_once values footer ps one_footer (omega arith)))
filled_both values (slot footer ∷ ps) one_body one_footer =
    (footer, AroundBoth-here values footer ps (filled_once values body ps one_body (omega arith)))

-- A text in which each slot stands once is filled there, and nowhere else: neither in what stands
-- around the slots nor in what fills them.
pub replace_pairs-IsFilled :
    (values : Slot → String) (text : String)
    → count_text text "{{body}}" ≡ 1
    → count_text text "{{footer}}" ≡ 1
    → IsFilled values text (replace_pairs (pairs values) text)
replace_pairs-IsFilled values text one_body one_footer =
    let (ps, cut) = Cut-total (suc (char_count text)) text (omega arith) in
    rw (Cut-filled values cut) (
      subst (λ t. IsFilled values t (filled values ps)) (sym (Cut-text_of cut))
        (filled_both values ps (sym (Cut-number body cut) ∙ one_body)
          (sym (Cut-number footer cut) ∙ one_footer)))
