-- ===== src/Tests/Template.antt =====
-- Templates rendered from the configuration and from files.
use message_delivery.Prelude.Dict.{Dict}
use message_delivery.Prelude.Text.{all_chars}
use message_delivery.Prelude.Text.Markup.{markup_of}
use message_delivery.Template.Escaping.{markup_of-replace_variables}
use message_delivery.Template.Verbatim.{render-IsVerbatim, IsVerbatim}
use message_delivery.Template.Rendering.{render-IsRenderedFrom, IsRenderedFrom}
use message_delivery.Prelude.{inl, String, ◌≡◌, refl, true, some, [], ◌∷◌, ◌↔◌}
use message_delivery.Prelude.Fallible.{ok, err}
use message_delivery.FilePath.{FilePath, clean, abs, join, rel, climbs, is_abs, to_string}
use message_delivery.FilePath.Laws.{IsWithin}
use message_delivery.Template.{
  render, text_plain, read_template_file, resolve_template_file, escapes_base_dir,
  variable_required, replace_variables, Rendered,
}
use message_delivery.Template.Disk.Within.{read_template_file-IsWithin}
use message_delivery.Tests.Sample.{files, templates}

render_runs :
    (render files (record { cfg = templates }) "code" "ru" (("code", "42") ∷ [])
      ≡ ok (record { subject = "Your code"; body = "Code 42"; content_type = text_plain }))
    × (render files (record { cfg = templates }) "code" "ru" [] ≡ err (variable_required "code"))
unfolding render
render_runs = (refl, refl)

reads : read_template_file files templates "x/../a.html" ≡ ok "<p>{{code}}</p>"
unfolding read_template_file resolve_template_file clean abs join rel climbs to_string
reads = refl

-- A path beside the base directory whose name begins like it is refused.
refuses :
    (resolve_template_file files templates "../t2/a.html" ≡ err (escapes_base_dir "../t2/a.html"))
    × (resolve_template_file files templates "/srv/t2/a" ≡ err (escapes_base_dir "/srv/t2/a"))
unfolding resolve_template_file clean abs join rel climbs to_string
refuses = (refl, refl)

working_dir_is_abs : (dir : String) → files.working_dir ≡ some dir → is_abs dir ≡ true
unfolding is_abs
working_dir_is_abs dir h = let same : dir ≡ "/srv" = cc (h) in rw same

read_template_file-IsWithin_example :
    (base : FilePath) × (p : FilePath) × (abs files.working_dir (clean templates.base_dir)
      ≡ some base)
    × IsWithin base p
    × (files.read_file (to_string p) ≡ some "<p>{{code}}</p>")
read_template_file-IsWithin_example =
    read_template_file-IsWithin files templates "x/../a.html" "<p>{{code}}</p>" working_dir_is_abs
      reads

abbrev code_variables : Dict String
code_variables = ("code", "42") ∷ []

render-IsRenderedFrom_example :
    IsRenderedFrom files templates "code" "ru" code_variables
      (record { subject = "Your code"; body = "Code 42"; content_type = text_plain })
render-IsRenderedFrom_example =
    render-IsRenderedFrom files (record { cfg = templates }) "code" "ru" code_variables _
      (λ h. cc (h)) (λ h. cc (h)) render_runs.0

abbrev custom_variables : Dict String
custom_variables = ("template_subject", "Hello") ∷ ("template_body", "{{x}}") ∷ []

abbrev custom_out : Rendered
custom_out = record { subject = "Hello"; body = "{{x}}"; content_type = text_plain }

render-IsVerbatim_example :
    (render files (record { cfg = templates }) "notification_custom_text" "" custom_variables
      ≡ ok custom_out)
    ↔ IsVerbatim "notification_custom_text" custom_variables custom_out
render-IsVerbatim_example =
    render-IsVerbatim files (record { cfg = templates }) "notification_custom_text" ""
      custom_variables custom_out (inl refl)

custom_runs :
    render files (record { cfg = templates }) "notification_custom_text" "" custom_variables
    ≡ ok custom_out
unfolding render
custom_runs = refl

markup_of-replace_variables_example :
    markup_of (replace_variables "<b>{{code}}</b>" (("code", "<i>") ∷ []) true)
    ≡ markup_of "<b>{{code}}</b>"
markup_of-replace_variables_example =
    markup_of-replace_variables "<b>{{code}}</b>" (("code", "<i>") ∷ [])
      (unfold all_chars in refl, tt)

replace_runs : replace_variables "<b>{{code}}</b>" (("code", "<i>") ∷ []) true ≡ "<b>&lt;i&gt;</b>"
unfolding replace_variables
replace_runs = refl
