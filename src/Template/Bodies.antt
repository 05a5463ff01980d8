-- ===== src/Template/Bodies.antt =====
-- The body that an item gives for a locale.
use mathlib.Core.Path.{subst}
use message_delivery.Prelude.{
  String, ◌≡◌, ◌≢◌, inl, inr, ap, ◌∙◌, true, false, not, ◌==◌, Bool-cases, eq_iff, arith,
  if◌then◌else◌,
}
use message_delivery.Prelude.Dict.{Dict}
use message_delivery.Prelude.Fallible.{Fallible, ok, >>=-eq-ok, ◌>>=◌}
use message_delivery.Config.{TemplateConfig, TemplatesConfig}
use message_delivery.Template.{
  Files, localized, template_body, default_type, text_plain, text_html, read_template_file,
  TemplateError,
}
use message_delivery.Template.Sources.{
  IsLocalized, localized-IsLocalized, IsType, default_type-IsType,
}

pair_injective :
    {b b' c c' : String}
    → ◌≡◌ {A = Fallible TemplateError (String × String)} (ok (b, c)) (ok (b', c'))
    → (b ≡ b') × (c ≡ c')
pair_injective h = (cc (h), cc (h))

-- The body of an item for a locale, and its type: of the first of five sources that is not empty, the
-- first two being HTML and the others text, if the item has no type of its own.
module _ (files : Files) (cfg : TemplatesConfig) (item : TemplateConfig) (locale : String) where
  abbrev pub Gives : Dict String → String → Type 0
  Gives values v = IsLocalized values locale cfg.default_locale v

  pub data IsBody (body content_type : String) : Type 0 where
    html :
        Gives item.html_body body
        → body ≢ ""
        → IsType item "text/html; charset=UTF-8" content_type
        → IsBody body content_type
    html_file :
        (path : String)
        → Gives item.html_body ""
        → Gives item.html_body_file path
        → path ≢ ""
        → read_template_file files cfg path ≡ ok body
        → IsType item "text/html; charset=UTF-8" content_type
        → IsBody body content_type
    text :
        Gives item.html_body ""
        → Gives item.html_body_file ""
        → Gives item.text_body body
        → body ≢ ""
        → IsType item "text/plain; charset=UTF-8" content_type
        → IsBody body content_type
    text_file :
        (path : String)
        → Gives item.html_body ""
        → Gives item.html_body_file ""
        → Gives item.text_body ""
        → Gives item.text_body_file path
        → path ≢ ""
        → read_template_file files cfg path ≡ ok body
        → IsType item "text/plain; charset=UTF-8" content_type
        → IsBody body content_type
    general :
        Gives item.html_body ""
        → Gives item.html_body_file ""
        → Gives item.text_body ""
        → Gives item.text_body_file ""
        → Gives item.body body
        → IsType item "text/plain; charset=UTF-8" content_type
        → IsBody body content_type

  abbrev here : Dict String → String
  here values = localized values locale cfg.default_locale

  gives : (values : Dict String) → Gives values (here values)
  gives values = localized-IsLocalized values locale cfg.default_locale

  Gives-none : (values : Dict String) → not (here values == "") ≡ false → Gives values ""
  Gives-none values h =
      subst (Gives values) ((eq_iff (here values) "").0 (ground arith)) (gives values)

  not_none : (values : Dict String) → not (here values == "") ≡ true → here values ≢ ""
  not_none values h = λ empty. ground (arith, eq_iff (here values) "", empty)

  -- A text of the configuration as the body.
  given-eq-ok :
      (values : Dict String) (default : String) {body content_type : String}
      → ◌≡◌ {A = Fallible TemplateError (String × String)}
          (ok (here values, default_type item.content_type default))
          (ok (body, content_type))
      → Gives values body × (here values ≡ body) × IsType item default content_type
  given-eq-ok values default h =
      let (same, type) = pair_injective h in
      (
        subst (Gives values) same (gives values),
        same,
        subst (IsType item default) type (default_type-IsType item default),
      )

  -- A file as the body.
  abbrev from_file : String → String → Fallible TemplateError (String × String)
  from_file path default = do
    body ← read_template_file files cfg path
    ok (body, default_type item.content_type default)

  read-eq-ok :
      (path default : String) {body content_type : String}
      → from_file path default ≡ ok (body, content_type)
      → (read_template_file files cfg path ≡ ok body) × IsType item default content_type
  read-eq-ok path default h =
      let (content, read, h1) = >>=-eq-ok (read_template_file files cfg path) _ h in
      let (same, type) = pair_injective h1 in
      (read ∙ ap ok same, subst (IsType item default) type (default_type-IsType item default))

  abbrev text_source : Fallible TemplateError (String × String)
  text_source =
      let plain : String = default_type item.content_type text_plain in
      if not (here item.text_body == "")
      then ok (here item.text_body, plain)
      else if not (here item.text_body_file == "")
      then from_file (here item.text_body_file) text_plain
      else ok (here item.body, plain)

  text_source-IsBody :
      (body content_type : String)
      → Gives item.html_body ""
      → Gives item.html_body_file ""
      → text_source ≡ ok (body, content_type)
      → IsBody body content_type
  text_source-IsBody body content_type no_html no_file h =
      elim (Bool-cases (not (here item.text_body == ""))) [
        | inl is_text ↦
            let (given, same, type) = given-eq-ok item.text_body text_plain (rw is_text at h) in
            text no_html no_file given (subst (λ b. b ≢ "") same (not_none item.text_body is_text))
              type
        | inr no_text ↦ elim (Bool-cases (not (here item.text_body_file == ""))) [
          | inl is_file ↦
              let (read, type) =
                read-eq-ok (here item.text_body_file) text_plain (rw (no_text, is_file) at h) in
              text_file (here item.text_body_file) no_html no_file
                (Gives-none item.text_body no_text) (gives item.text_body_file)
                (not_none item.text_body_file is_file) read type
          | inr no_text_file ↦
              let (given, _, type) =
                given-eq-ok item.body text_plain (rw (no_text, no_text_file) at h) in
              general no_html no_file (Gives-none item.text_body no_text)
                (Gives-none item.text_body_file no_text_file) given type
        ]
      ]

  pub template_body-IsBody :
      (body content_type : String)
      → template_body files cfg item locale ≡ ok (body, content_type)
      → IsBody body content_type
  unfolding template_body
  template_body-IsBody body content_type h = elim (Bool-cases (not (here item.html_body == ""))) [
    | inl is_html ↦
        let (given, same, type) = given-eq-ok item.html_body text_html (rw is_html at h) in
        html given (subst (λ b. b ≢ "") same (not_none item.html_body is_html)) type
    | inr no_html ↦ elim (Bool-cases (not (here item.html_body_file == ""))) [
      | inl is_file ↦
          let (read, type) =
            read-eq-ok (here item.html_body_file) text_html (rw (no_html, is_file) at h) in
          html_file (here item.html_body_file) (Gives-none item.html_body no_html)
            (gives item.html_body_file) (not_none item.html_body_file is_file) read type
      | inr no_file ↦
          text_source-IsBody body content_type (Gives-none item.html_body no_html)
            (Gives-none item.html_body_file no_file) (rw (no_html, no_file) at h)
    ]
  ]
