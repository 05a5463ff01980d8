-- ===== src/Template/Rendering.antt =====
-- What a rendered message tells of its template and variables.
use message_delivery.Prelude.Text.Prefixes.{has_prefix_lower-split, has_prefix_lower-append}
use message_delivery.Template.Sources.{IsItem, IsLocalized, find_item-IsItem, localized-IsLocalized}
use message_delivery.Template.Bodies.{IsBody, template_body-IsBody}
use mathlib.Core.Path.{subst}
use Prim.Native.String.{◌++◌ as ◌<>◌}
use message_delivery.Prelude.Text.{has_prefix_lower, equal_lower}
use message_delivery.Prelude.{
  String, true, false, ◌≡◌, ◌≢◌, sym, eq_iff, refl, Option, none, some, List, [], ◌∷◌, All, arith,
  is_some, if◌then◌else◌, ◌==◌, Bool-cases, inl, ap, inr, ◌⊎◌,
}
use message_delivery.Prelude.Dict
use message_delivery.Prelude.Dict.{Dict}
use message_delivery.Prelude.Fallible.{Fallible, ok, >>=-eq-ok, guarded-eq-ok}
use message_delivery.Config.{TemplateConfig, TemplatesConfig}
use message_delivery.Template.{
  Files, Renderer, Rendered, TemplateError, body_empty, render, render_item, is_custom, find_item,
  found, required, missing_variable, template_body, fill, localized, replace_variables,
}

-- Every variable that an item asks for is there.
abbrev pub HasVariables : List String → Dict String → Type 0
HasVariables keys variables = All (λ key. is_some (Dict.lookup key variables) ≡ true) keys

missing_variable-none :
    (keys : List String) (variables : Dict String)
    → missing_variable keys variables ≡ none
    → HasVariables keys variables
unfolding missing_variable
missing_variable-none [] variables h = tt
missing_variable-none (key ∷ keys) variables h =
    ground (arith, missing_variable-none keys variables)

pub ok-injective :
    {x y : Rendered} → ◌≡◌ {A = Fallible TemplateError Rendered} (ok x) (ok y) → x ≡ y
ok-injective h = cc

required-eq-ok : (o : Option String) {u : Unit {0}} → required o ≡ ok u → o ≡ none
required-eq-ok none h = refl
required-eq-ok (some key) h = cc

found-eq-ok :
    (key : String) (o : Option TemplateConfig) {item : TemplateConfig}
    → found key o ≡ ok item
    → o ≡ some item
found-eq-ok key none h = cc
found-eq-ok key (some other) h = cc

-- The locale is the one that is asked for, or else the default one.
abbrev pub IsLocale : TemplatesConfig → String → String → Type 0
IsLocale cfg locale chosen =
    ((locale ≢ "") × (chosen ≡ locale)) ⊎ ((locale ≡ "") × (chosen ≡ cfg.default_locale))

-- A type is HTML if it begins so, in any case of letters.
abbrev pub IsHtmlType : String → Type 0
IsHtmlType content_type =
    (front : String) × (rest : String) × (content_type ≡ front <> rest)
    × (equal_lower front "text/html" ≡ true)

-- A body with the variables filled in, escaped exactly in HTML.
abbrev pub IsFilledBody : Dict String → String → String → String → Type 0
IsFilledBody variables body content_type filled =
    (IsHtmlType content_type × (filled ≡ replace_variables body variables true))
    ⊎ (¬ IsHtmlType content_type × (filled ≡ replace_variables body variables false))

chosen-IsLocale :
    (cfg : TemplatesConfig) (locale : String)
    → IsLocale cfg locale (if locale == "" then cfg.default_locale else locale)
chosen-IsLocale cfg locale = elim (Bool-cases (locale == "")) [
  | inl empty ↦ rw empty (inr ((eq_iff locale "").0 empty, refl))
  | inr named ↦ rw named (inl (λ h. ground (arith, eq_iff locale "", h), refl))
]

has_prefix_lower-IsHtmlType :
    (content_type : String)
    → has_prefix_lower content_type "text/html" ≡ false
    → ¬ IsHtmlType content_type
has_prefix_lower-IsHtmlType content_type h (front, rest, split, same) =
    let begins : has_prefix_lower content_type "text/html" ≡ true =
      rw split (has_prefix_lower-append front rest "text/html" same) in
    cc (begins, h)

filled-IsFilledBody :
    (variables : Dict String) (body content_type : String)
    → IsFilledBody variables body content_type
        (replace_variables body variables (has_prefix_lower content_type "text/html"))
filled-IsFilledBody variables body content_type =
    elim (Bool-cases (has_prefix_lower content_type "text/html")) [
      | inl is_html ↦
          rw is_html (inl (has_prefix_lower-split content_type "text/html" is_html, refl))
      | inr other ↦ rw other (inr (has_prefix_lower-IsHtmlType content_type other, refl))
    ]

-- The parts of a message that was rendered from the configuration.
pub record IsRenderedFrom (files : Files) (cfg : TemplatesConfig) (key locale : String)
    (variables : Dict String) (out : Rendered) : Type 0 where
  pub item : TemplateConfig
  pub chosen : String
  pub subject : String
  pub body : String
  pub is_item : IsItem cfg key item
  pub has_variables : HasVariables item.required_variables variables
  pub is_locale : IsLocale cfg locale chosen
  pub is_subject : IsLocalized item.subject chosen cfg.default_locale subject
  pub is_body : IsBody files cfg item chosen body out.content_type
  pub not_empty : body ≢ ""
  pub subject_filled : out.subject ≡ replace_variables subject (files.subject_order variables) false
  pub body_filled : IsFilledBody (files.body_order variables) body out.content_type out.body

render_item-IsRenderedFrom :
    (files : Files) (cfg : TemplatesConfig) (key locale : String) (variables : Dict String)
    (out : Rendered)
    → render_item files cfg key locale variables ≡ ok out
    → IsRenderedFrom files cfg key locale variables out
unfolding render_item fill
render_item-IsRenderedFrom files cfg key locale variables out h =
    let (item, is_item, h1) = >>=-eq-ok (found key (find_item cfg key)) _ h in
    let (_, present, h2) =
      >>=-eq-ok (required (missing_variable item.required_variables variables)) _ h1 in
    let chosen : String = if locale == "" then cfg.default_locale else locale in
    let ((body, content_type), is_body, h3) =
      >>=-eq-ok (template_body files cfg item chosen) _ h2 in
    let (not_empty, h4) = guarded-eq-ok (body == "") (body_empty key) _ h3 in
    let is_out = ok-injective h4 in
    let type = ap (λ (o : Rendered). o.content_type) is_out in
    record {
      item = item;
      chosen = chosen;
      subject = localized item.subject chosen cfg.default_locale;
      body = body;
      is_item = find_item-IsItem cfg key item (found-eq-ok key _ is_item);
      has_variables = missing_variable-none _ variables (required-eq-ok _ present);
      is_locale = chosen-IsLocale cfg locale;
      is_subject = localized-IsLocalized item.subject chosen cfg.default_locale;
      is_body =
          subst (IsBody files cfg item chosen body) type
            (template_body-IsBody files cfg item chosen body content_type is_body);
      not_empty = λ empty. ground (arith, not_empty, eq_iff body "", empty);
      subject_filled = sym (ap (λ (o : Rendered). o.subject) is_out);
      body_filled =
          subst
            (λ (o : Rendered). IsFilledBody (files.body_order variables) body o.content_type o.body)
            is_out (filled-IsFilledBody (files.body_order variables) body content_type);
    }

-- A key that stands for no custom contents renders only if the configuration has an item for it, its
-- own or, for a key that begins with "notification_", that of "notification"; if all variables that
-- the item requires are given; and if the item has a body that is not empty. The subject and the
-- body are those for the locale, or else for the default one, the body and its type being of the
-- first of the item's five sources that is not empty; and they are filled in with the variables,
-- which are escaped exactly in a body whose type is HTML.
pub render-IsRenderedFrom :
    (files : Files) (r : Renderer) (key locale : String) (variables : Dict String) (out : Rendered)
    → key ≢ "notification_custom_text"
    → key ≢ "notification_custom_html"
    → render files r key locale variables ≡ ok out
    → IsRenderedFrom files r.cfg key locale variables out
unfolding render
render-IsRenderedFrom files r key locale variables out no_text no_html h =
    let plain : is_custom key ≡ false = ground (
      arith,
      no_text,
      no_html,
      eq_iff key "notification_custom_text",
      eq_iff key "notification_custom_html",
    ) in
    render_item-IsRenderedFrom files r.cfg key locale variables out (rw plain at h)
