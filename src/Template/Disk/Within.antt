-- ===== src/Template/Disk/Within.antt =====
-- Template files are read below the base directory, and nowhere else.
use message_delivery.Prelude.{
  String, ◌≡◌, Bool-cases, inl, inr, true, Option, none, some, arith, ◌==◌,
}
use message_delivery.Prelude.Fallible.{ok, >>=-eq-ok, guarded-eq-ok}
use message_delivery.FilePath.{FilePath, clean, abs, join, rel, climbs, is_abs, to_string}
use message_delivery.FilePath.Laws.{
  IsWithin, IsRooted, clean-IsRooted, abs-IsRooted, join-IsRooted, rel-IsWithin,
}
use message_delivery.Config.{TemplatesConfig}
use message_delivery.Template.Disk.{
  Files, TemplateError, or_error, place, resolve_template_file, read_template_file,
  read_file_failed, resolve_base_dir, resolve_file, base_dir_required, escapes_base_dir,
}

or_error-eq-ok {ℓ} :
    {A : Type ℓ} (e : TemplateError) (o : Option A) (a : A) → or_error e o ≡ ok a → o ≡ some a
or_error-eq-ok e none a h = cc
or_error-eq-ok e (some b) a h = cc

module _ (files : Files) (cfg : TemplatesConfig)
    (rooted : (dir : String) → files.working_dir ≡ some dir → is_abs dir ≡ true) where
  place-IsRooted :
      (base path p : FilePath)
      → IsRooted base
      → (path.rooted ≡ true → IsRooted path)
      → place files.working_dir base path ≡ some p
      → IsRooted p
  place-IsRooted base path p b cleaned h = elim (Bool-cases path.rooted) [
    | inl here ↦ abs-IsRooted files.working_dir path p rooted cleaned (ground arith)
    | inr relative ↦
        abs-IsRooted files.working_dir (join base path) p rooted
          (λ _. join-IsRooted base path b.rooted) (ground arith)
  ]

  -- A template file is resolved only to a path in or below the base directory.
  pub resolve_template_file-IsWithin :
      (path : String) (p : FilePath)
      → resolve_template_file files cfg path ≡ ok p
      → (base : FilePath) × (abs files.working_dir (clean cfg.base_dir) ≡ some base)
        × IsWithin base p
  unfolding resolve_template_file
  resolve_template_file-IsWithin path p h =
      let (_, h1) = guarded-eq-ok (cfg.base_dir == "") base_dir_required _ h in
      let (base, found, h2) =
        >>=-eq-ok (or_error resolve_base_dir (abs files.working_dir (clean cfg.base_dir))) _ h1 in
      let (q, placed, h3) =
        >>=-eq-ok (or_error (resolve_file path) (place files.working_dir base (clean path))) _ h2 in
      let (down, h4) = guarded-eq-ok (climbs (rel base q)) (escapes_base_dir path) (ok q) h3 in
      let is_base = or_error-eq-ok resolve_base_dir _ base found in
      let is_q = or_error-eq-ok (resolve_file path) _ q placed in
      let base_rooted : IsRooted base =
        abs-IsRooted files.working_dir (clean cfg.base_dir) base rooted
          (clean-IsRooted cfg.base_dir) is_base in
      let q_rooted : IsRooted q =
        place-IsRooted base (clean path) q base_rooted (clean-IsRooted path) is_q in
      let same : q ≡ p = cc (h4) in (base, is_base, rw (← same) (rel-IsWithin base q q_rooted down))

-- Where the text of a template file comes from: one file in or below the base directory, named by a
-- rooted path with no ".", ".." or empty part. This holds whatever path the configuration gives,
-- with ".." in it, absolute, or both, provided that the working directory is an absolute path.
pub read_template_file-IsWithin :
    (files : Files) (cfg : TemplatesConfig) (path text : String)
    → ((dir : String) → files.working_dir ≡ some dir → is_abs dir ≡ true)
    → read_template_file files cfg path ≡ ok text
    → (base : FilePath) × (p : FilePath) × (abs files.working_dir (clean cfg.base_dir) ≡ some base)
      × IsWithin base p
      × (files.read_file (to_string p) ≡ some text)
unfolding read_template_file
read_template_file-IsWithin files cfg path text rooted h =
    let (p, resolved, h1) = >>=-eq-ok (resolve_template_file files cfg path) _ h in
    let (base, is_base, within) = resolve_template_file-IsWithin files cfg rooted path p resolved in
    (base, p, is_base, within, or_error-eq-ok (read_file_failed p) _ text h1)
