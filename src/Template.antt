-- ===== src/Template.antt =====
-- internal/template/render.go: a message's subject and body from the configured templates.
pub mod Disk
pub mod Sources
pub mod Bodies
pub mod Rendering
pub mod Verbatim
pub mod Escaping
unfoldable pub use Disk.*
use Prim.Native.String.{len, ◌++◌ as ◌<>◌}
use message_delivery.Prelude.{
  String, Bool, true, false, not, ◌||◌, ◌&&◌, Option, none, some, List, [], ◌∷◌, ◌==◌, ltb, is_some,
  if◌then◌else◌,
}
use message_delivery.Prelude.Dict
use message_delivery.Prelude.Dict.{Dict}
use message_delivery.Prelude.Fallible.{Fallible, ok, err, ◌>>=◌}
use message_delivery.Prelude.Text.{
  has_prefix, has_prefix_lower, contains_any, trim_space, escape_string, replace_all,
}
use message_delivery.Config.{TemplateConfig, TemplatesConfig}

pub record Renderer : Type 0 where
  pub cfg : TemplatesConfig

pub record Rendered : Type 0 where
  pub subject : String
  pub body : String
  pub content_type : String

abbrev pub text_plain : String
text_plain = "text/plain; charset=UTF-8"

abbrev pub text_html : String
text_html = "text/html; charset=UTF-8"

unfoldable pub localized : Dict String → String → String → String
unfolding Dict.index
localized values locale fallback =
    let v = Dict.index locale values in if v == "" then Dict.index fallback values else v

-- The loop of `replaceVariables`, over the map in the order that it is given in.
unfoldable pub replace_variables : String → Dict String → Bool → String
unfolding replace_all escape_string
replace_variables value [] escape = value
replace_variables value ((key, variable) ∷ variables) escape =
    replace_variables
      (replace_all value ("{{" <> key <> "}}")
        (if escape then escape_string variable else variable))
      variables escape

-- The first required variable that is missing, if any.
unfoldable pub missing_variable : List String → Dict String → Option String
unfolding Dict.lookup
missing_variable [] variables = none
missing_variable (key ∷ keys) variables =
    let rest = missing_variable keys variables in
    if is_some (Dict.lookup key variables) then rest else some key

abbrev pub default_type : String → String → String
default_type content_type default = if content_type == "" then default else content_type

-- `Renderer.body`: the first source that is configured for the locale, with its content type.
unfoldable pub template_body :
    Files → TemplatesConfig → TemplateConfig → String → Fallible TemplateError (String × String)
unfolding localized read_template_file
template_body files cfg item locale =
    let find = λ (values : Dict String). localized values locale cfg.default_locale in
    let plain : String = default_type item.content_type text_plain in
    let html : String = default_type item.content_type text_html in
    if not (find item.html_body == "")
    then ok (find item.html_body, html)
    else if not (find item.html_body_file == "")
    then (do body ← read_template_file files cfg (find item.html_body_file); ok (body, html))
    else if not (find item.text_body == "")
    then ok (find item.text_body, plain)
    else if not (find item.text_body_file == "")
    then (do body ← read_template_file files cfg (find item.text_body_file); ok (body, plain))
    else ok (find item.body, plain)

-- The contents that the producer has rendered already, under its two template keys.
abbrev pub is_custom : String → Bool
is_custom template_key =
    template_key == "notification_custom_text" || template_key == "notification_custom_html"

-- The limits on such contents, in bytes.
unfoldable pub custom_accepted : String → String → Bool
unfolding trim_space contains_any
custom_accepted subject body = not (
    trim_space subject == ""
    || trim_space body == ""
    || contains_any subject (13 ∷ 10 ∷ [])
    || ltb 4096 (len subject)
    || ltb 100000 (len body))

render_custom : String → Option String → Option String → Fallible TemplateError Rendered
unfolding custom_accepted
render_custom template_key none _ = err invalid_custom
render_custom template_key (some subject) none = err invalid_custom
render_custom template_key (some subject) (some body) =
    if custom_accepted subject body
    then ok (record {
      subject = subject;
      body = body;
      content_type = if template_key == "notification_custom_html" then text_html else text_plain;
    })
    else err invalid_custom

-- The item of a key; any other notification falls back on the item "notification".
unfoldable pub find_item : TemplatesConfig → String → Option TemplateConfig
unfolding Dict.lookup has_prefix
find_item cfg template_key = elim (Dict.lookup template_key cfg.items) [
  | some item ↦ some item
  | none ↦
      if has_prefix template_key "notification_" then Dict.lookup "notification" cfg.items else none
]

abbrev pub required : Option String → Fallible TemplateError (Unit {0})
required none = ok tt
required (some key) = err (variable_required key)

abbrev pub found : String → Option TemplateConfig → Fallible TemplateError TemplateConfig
found template_key none = err (not_found template_key)
found template_key (some item) = ok item

-- Subject and body are filled in by two loops, each over the map in an order of its own.
unfoldable pub fill : Files → Dict String → String → String → String → Rendered
unfolding replace_variables has_prefix_lower
fill files variables subject body content_type = record {
  subject = replace_variables subject (files.subject_order variables) false;
  body =
      replace_variables body (files.body_order variables)
        (has_prefix_lower content_type "text/html");
  content_type = content_type;
}

render_item :
    Files → TemplatesConfig → String → String → Dict String → Fallible TemplateError Rendered
unfolding find_item missing_variable localized template_body fill
render_item files cfg template_key locale variables = do
  item ← found template_key (find_item cfg template_key)
  _ ← required (missing_variable item.required_variables variables)
  let chosen : String = if locale == "" then cfg.default_locale else locale
  (body, content_type) ← template_body files cfg item chosen
  if body == "" then err (body_empty template_key) else do
    ok (fill files variables (localized item.subject chosen cfg.default_locale) body content_type)

-- `Renderer.Render`
unfoldable pub render :
    Files → Renderer → String → String → Dict String → Fallible TemplateError Rendered
unfolding render_custom render_item Dict.lookup
render files r template_key locale variables =
    if is_custom template_key
    then render_custom template_key (Dict.lookup "template_subject" variables)
        (Dict.lookup "template_body" variables)
    else render_item files r.cfg template_key locale variables
