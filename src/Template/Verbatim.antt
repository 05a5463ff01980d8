-- ===== src/Template/Verbatim.antt =====
-- Messages that the producer has rendered already.
use mathlib.Core.Path.{subst}
use Prim.Native.String.{len}
use Prim.Native.Char.{code}
use message_delivery.Prelude.Text.Blank.{is_blank, trim_space-blank, contains_any-all}
use message_delivery.Prelude.Text.{is_one_of, all_chars}
use message_delivery.Prelude.{
  String, true, false, ◌≡◌, ◌↔◌, sym, refl, Option, none, some, [], ◌∷◌, arith, if◌then◌else◌, ◌==◌,
  Bool-cases, inl, ap, ◌∙◌, inr, ◌⊎◌, ◌≤◌, not,
}
use message_delivery.Prelude.Dict
use message_delivery.Prelude.Dict.{Dict}
use message_delivery.Prelude.Fallible.{ok}
use message_delivery.Template.{
  Files, Renderer, Rendered, render, render_custom, is_custom, custom_accepted, text_plain,
  text_html,
}
use message_delivery.Template.Rendering.{ok-injective}

rendered_path :
    (x y : Rendered)
    → x.subject ≡ y.subject
    → x.body ≡ y.body
    → x.content_type ≡ y.content_type
    → x ≡ y
rendered_path x y p q r = λ i. record { subject = p i; body = q i; content_type = r i }

some_text : {s t : String} → some s ≡ some t → s ≡ t
some_text h = cc

-- A subject and a body that a producer may give: neither is blank, the subject is one line, and both
-- keep to their limits in bytes.
pub record IsCustomText (subject body : String) : Type 0 where
  pub subject_there : is_blank subject ≡ false
  pub body_there : is_blank body ≡ false
  pub one_line : all_chars (λ c. not (is_one_of (13 ∷ 10 ∷ []) (code c))) subject ≡ true
  pub subject_fits : len subject ≤ 4096
  pub body_fits : len body ≤ 100000

custom_accepted_iff :
    (subject body : String) → (custom_accepted subject body ≡ true) ↔ IsCustomText subject body
unfolding custom_accepted
custom_accepted_iff subject body =
    let blank_subject = trim_space-blank subject in
    let blank_body = trim_space-blank body in
    let lines = contains_any-all subject (13 ∷ 10 ∷ []) in
    (
      λ h. record {
        subject_there = ground (arith, blank_subject);
        body_there = ground (arith, blank_body);
        one_line = ground (arith, lines);
        subject_fits = ground arith;
        body_fits = ground arith;
      },
      λ h. ground (
        arith, blank_subject, blank_body, lines, h.subject_there, h.body_there, h.one_line,
        h.subject_fits, h.body_fits,
      ),
    )

-- The type of custom contents, by their key.
abbrev pub IsCustomType : String → String → Type 0
IsCustomType key content_type =
    ((key ≡ "notification_custom_text") × (content_type ≡ "text/plain; charset=UTF-8"))
    ⊎ ((key ≡ "notification_custom_html") × (content_type ≡ "text/html; charset=UTF-8"))

abbrev pub IsCustomKey : String → Type 0
IsCustomKey key = (key ≡ "notification_custom_text") ⊎ (key ≡ "notification_custom_html")

abbrev custom_type : String → String
custom_type key = if key == "notification_custom_html" then text_html else text_plain

custom_type-IsCustomType : (key : String) → IsCustomKey key → IsCustomType key (custom_type key)
custom_type-IsCustomType key (inl is_text) = inl (is_text, rw is_text refl)
custom_type-IsCustomType key (inr is_html) = inr (is_html, rw is_html refl)

IsCustomType-custom_type :
    (key content_type : String) → IsCustomType key content_type → content_type ≡ custom_type key
IsCustomType-custom_type key content_type (inl (is_text, same)) = same ∙ rw is_text refl
IsCustomType-custom_type key content_type (inr (is_html, same)) = same ∙ rw is_html refl

IsCustomKey-is_custom : (key : String) → IsCustomKey key → is_custom key ≡ true
IsCustomKey-is_custom key (inl is_text) = rw is_text refl
IsCustomKey-is_custom key (inr is_html) = rw is_html refl

-- A message that is what the producer gave.
pub record IsVerbatim (key : String) (variables : Dict String) (out : Rendered) : Type 0 where
  pub subject : Dict.lookup "template_subject" variables ≡ some out.subject
  pub body : Dict.lookup "template_body" variables ≡ some out.body
  pub accepted : IsCustomText out.subject out.body
  pub content_type : IsCustomType key out.content_type

render_custom-eq-ok :
    (key : String) (s b : Option String) (out : Rendered)
    → render_custom key s b ≡ ok out
    → (s ≡ some out.subject)
      × (b ≡ some out.body)
      × (custom_accepted out.subject out.body ≡ true)
      × (custom_type key ≡ out.content_type)
unfolding render_custom
render_custom-eq-ok key none b out h = cc (h)
render_custom-eq-ok key (some s) none out h = cc (h)
render_custom-eq-ok key (some s) (some b) out h = elim (Bool-cases (custom_accepted s b)) [
  | inl fine ↦
      let e = ok-injective (rw fine at h) in
      (
        ap (λ o. some o.subject) e,
        ap (λ o. some o.body) e,
        ap (λ o. custom_accepted o.subject o.body) (sym e) ∙ fine,
        ap (λ o. o.content_type) e,
      )
  | inr refused ↦ absurd (cc (rw refused at h))
]

render_custom-ok :
    (key s b : String) (out : Rendered)
    → s ≡ out.subject
    → b ≡ out.body
    → custom_accepted out.subject out.body ≡ true
    → custom_type key ≡ out.content_type
    → render_custom key (some s) (some b) ≡ ok out
unfolding render_custom
render_custom-ok key s b out same_subject same_body fine same_type =
    rw (same_subject, same_body, fine) (ap ok (rendered_path _ out refl refl same_type))

-- The two keys of custom contents render exactly if the producer gave a subject and a body of which
-- neither is blank, the subject holds no line break and at most 4096 bytes, and the body at most
-- 100000; and then to these texts as they are, without anything filled in, as plain text or HTML by
-- the key. Neither the configuration nor the files play a part.
pub render-IsVerbatim :
    (files : Files) (r : Renderer) (key locale : String) (variables : Dict String) (out : Rendered)
    → IsCustomKey key
    → (render files r key locale variables ≡ ok out) ↔ IsVerbatim key variables out
unfolding render
render-IsVerbatim files r key locale variables out custom =
    let is : is_custom key ≡ true = IsCustomKey-is_custom key custom in
    rw is (
      λ h.
          let (subject, body, fine, same_type) = render_custom-eq-ok key _ _ out h in
          record {
            subject = subject;
            body = body;
            accepted = (custom_accepted_iff out.subject out.body).0 fine;
            content_type = subst (IsCustomType key) same_type (custom_type-IsCustomType key custom);
          },
      λ v.
          rw (v.subject, v.body)
            (render_custom-ok key out.subject out.body out refl refl
              ((custom_accepted_iff out.subject out.body).1 v.accepted)
              (sym (IsCustomType-custom_type key out.content_type v.content_type))),
    )
