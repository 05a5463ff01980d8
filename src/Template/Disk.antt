-- ===== src/Template/Disk.antt =====
-- Template files: `readTemplateFile` and `resolveTemplateFile` of internal/template/render.go.
pub mod Within
use message_delivery.Prelude.{String, Option, none, some, ◌==◌, if◌then◌else◌}
use message_delivery.Prelude.Dict.{Dict}
use message_delivery.Prelude.Fallible.{Fallible, ok, err, ◌>>=◌}
use message_delivery.FilePath.{FilePath, clean, abs, join, rel, climbs, to_string}
use message_delivery.Config.{TemplatesConfig}

-- One constructor for each `fmt.Errorf` of the file.
pub data TemplateError : Type 0 where
  invalid_custom : TemplateError
  not_found : String → TemplateError
  variable_required : String → TemplateError
  body_empty : String → TemplateError
  base_dir_required : TemplateError
  resolve_base_dir : TemplateError
  resolve_file : String → TemplateError
  escapes_base_dir : String → TemplateError
  read_file_failed : FilePath → TemplateError

-- What the operating system and the Go runtime decide: `os.Getwd`, `os.ReadFile`, and the order in
-- which each of the two loops over the variables meets them.
pub record Files : Type 0 where
  pub working_dir : Option String
  pub read_file : String → Option String
  pub subject_order : Dict String → Dict String
  pub body_order : Dict String → Dict String

abbrev pub or_error {ℓ} : {A : Type ℓ} → TemplateError → Option A → Fallible TemplateError A
or_error e none = err e
or_error e (some a) = ok a

-- A path that is not absolute is taken below the base directory.
abbrev pub place : Option String → FilePath → FilePath → Option FilePath
place wd base path = if path.rooted then abs wd path else abs wd (join base path)

unfoldable pub resolve_template_file :
    Files → TemplatesConfig → String → Fallible TemplateError FilePath
resolve_template_file files cfg path = if cfg.base_dir == "" then err base_dir_required else do
  base ← or_error resolve_base_dir (abs files.working_dir (clean cfg.base_dir))
  resolved ← or_error (resolve_file path) (place files.working_dir base (clean path))
  if climbs (rel base resolved) then err (escapes_base_dir path) else ok resolved

unfoldable pub read_template_file : Files → TemplatesConfig → String → Fallible TemplateError String
read_template_file files cfg path = do
  resolved ← resolve_template_file files cfg path
  or_error (read_file_failed resolved) (files.read_file (to_string resolved))
