-- ===== src/FilePath/Laws.antt =====
-- Cleaned paths and the way from one to another.
use mathlib.Core.Path.{ap₂}
use mathlib.Core.List.{reverse_aux}
use message_delivery.Prelude.{
  String, ◌≡◌, ◌≢◌, refl, sym, true, false, List, [], ◌∷◌, ◌++◌, ◌==◌, eq_iff, arith, All, Option,
  none, some, Bool-cases, inl, inr, ◌⊎◌,
}
use message_delivery.FilePath.{
  FilePath, clean_step, clean_from, clean_parts, clean, abs, join, rel, rel_parts, climbs, parent,
  is_abs, split_slash,
}

-- A part that names an entry of a directory: not empty, and neither "." nor "..".
abbrev pub IsPlain : String → Type 0
IsPlain part = (part ≢ "") × (part ≢ ".") × (part ≢ "..")

parent-IsPlain : (stack : List String) → All IsPlain stack → All IsPlain (parent true stack)
parent-IsPlain [] _ = tt
parent-IsPlain (top ∷ stack) (h, hs) = ground (arith, eq_iff top "..")

clean_step-IsPlain :
    (stack : List String) (part : String)
    → All IsPlain stack
    → All IsPlain (clean_step true stack part)
unfolding clean_step
clean_step-IsPlain stack part h =
    ground (arith, parent-IsPlain stack h, eq_iff part "", eq_iff part ".", eq_iff part "..")

All-reverse_aux :
    (P : String → Type 0) (xs ys : List String) → All P xs → All P ys → All P (reverse_aux xs ys)
All-reverse_aux P [] ys _ k = k
All-reverse_aux P (x ∷ xs) ys (h, hs) k = All-reverse_aux P xs (x ∷ ys) hs (h, k)

clean_from-IsPlain :
    (stack parts : List String) → All IsPlain stack → All IsPlain (clean_from true stack parts)
unfolding clean_from
clean_from-IsPlain stack [] h = All-reverse_aux IsPlain stack [] h tt
clean_from-IsPlain stack (part ∷ parts) h =
    clean_from-IsPlain (clean_step true stack part) parts (clean_step-IsPlain stack part h)

-- A rooted path of plain parts.
pub record IsRooted (p : FilePath) : Type 0 where
  pub rooted : p.rooted ≡ true
  pub plain : All IsPlain p.parts

pub clean_parts-IsRooted : (parts : List String) → IsRooted (clean_parts true parts)
unfolding clean_parts
clean_parts-IsRooted parts = record { rooted = refl; plain = clean_from-IsPlain [] parts tt }

pub clean-IsRooted : (path : String) → (clean path).rooted ≡ true → IsRooted (clean path)
unfolding clean clean_parts
clean-IsRooted path h = record {
  rooted = h;
  plain =
      let plain : All IsPlain (clean_from true [] (split_slash path)) =
        clean_from-IsPlain [] (split_slash path) tt in
      rw h plain;
}

-- A way that does not begin by climbing leads down from the base.
rel-climbs :
    (base target : List String)
    → climbs (rel_parts base target) ≡ false
    → target ≡ base ++ rel_parts base target
unfolding rel_parts climbs
rel-climbs [] target h = refl
rel-climbs (b ∷ base) [] h = cc
rel-climbs (b ∷ base) (t ∷ target) h = elim (Bool-cases (b == t)) [
  | inl same ↦
      rw same
        (ap₂ (λ x l. x ∷ l) (sym ((eq_iff b t).0 same)) (rel-climbs base target (ground arith)))
  | inr differ ↦ absurd (ground arith)
]

-- `p` lies in or below `base`.
pub record IsWithin (base p : FilePath) : Type 0 where
  pub rest : List String
  pub below : p.parts ≡ base.parts ++ rest
  pub rooted : p.rooted ≡ true
  pub plain : All IsPlain p.parts

pub rel-IsWithin : (base p : FilePath) → IsRooted p → climbs (rel base p) ≡ false → IsWithin base p
unfolding rel
rel-IsWithin base p h down = record {
  rest = rel_parts base.parts p.parts;
  below = rel-climbs base.parts p.parts down;
  rooted = h.rooted;
  plain = h.plain;
}

pub join-IsRooted : (a b : FilePath) → a.rooted ≡ true → IsRooted (join a b)
unfolding join clean_parts
join-IsRooted a b h = record {
  rooted = h;
  plain =
      let plain : All IsPlain (clean_from true [] (a.parts ++ b.parts)) =
        clean_from-IsPlain [] (a.parts ++ b.parts) tt in
      rw h plain;
}

abs-eq-some :
    (wd : Option String) (path p : FilePath)
    → abs wd path ≡ some p
    → ((path.rooted ≡ true) × (path ≡ p))
      ⊎ ((dir : String) × (wd ≡ some dir) × (join (clean dir) path ≡ p))
unfolding abs
abs-eq-some none path p h = inl (ground arith)
abs-eq-some (some dir) path p h = elim (Bool-cases path.rooted) [
  | inl here ↦ inl (here, ground arith)
  | inr relative ↦ inr (dir, refl, ground arith)
]

-- `filepath.Abs` gives a rooted path, provided that the working directory is one.
pub abs-IsRooted :
    (wd : Option String) (path p : FilePath)
    → ((dir : String) → wd ≡ some dir → is_abs dir ≡ true)
    → (path.rooted ≡ true → IsRooted path)
    → abs wd path ≡ some p
    → IsRooted p
abs-IsRooted wd path p rooted cleaned h = elim (abs-eq-some wd path p h) [
  | inl (here, same) ↦ rw (← same) (cleaned here)
  | inr (dir, found, same) ↦
      rw (← same) (join-IsRooted (clean dir) path (unfold clean in rooted dir found))
]
