-- ===== src/FilePath.antt =====
-- What internal/template and internal/config use of Go's `path/filepath` on Unix. A cleaned path is
-- kept as its parts, the separators left out; `to_string` writes it.
pub mod Laws
use Prim.Native.Char.{Char, code}
use Prim.Native.String.{String, ◌∷◌, ◌++◌ as ◌<>◌}
use Prim.Native.String
use message_delivery.Prelude.{
  Bool, true, false, Option, none, some, List, [], ◌∷◌, ◌++◌, ◌==◌, ◌||◌, eqb, is_empty,
  if◌then◌else◌,
}
use mathlib.Core.List.{reverse}

pub record FilePath : Type 0 where
  pub rooted : Bool
  pub parts : List String

-- The parts between the separators; at least one, perhaps empty.
abbrev extend_first : Char → List String → List String
extend_first c [] = (String.◌∷◌ c "") ∷ []
extend_first c (part ∷ parts) = String.◌∷◌ c part ∷ parts

unfoldable pub split_slash : String → List String
split_slash String.[] = "" ∷ []
split_slash (String.◌∷◌ c s) =
    let rest = split_slash s in if eqb (code c) b'/' then "" ∷ rest else extend_first c rest

-- `filepath.IsAbs`
unfoldable pub is_abs : String → Bool
is_abs String.[] = false
is_abs (String.◌∷◌ c s) = eqb (code c) b'/'

-- `..` after `stack`, whose top is its head: it takes a part away, stays at the front of a path
-- that is not rooted, and is dropped at the root.
abbrev parent : Bool → List String → List String
parent true [] = []
parent false [] = ".." ∷ []
parent rooted (top ∷ stack) = if top == ".." then ".." ∷ top ∷ stack else stack

clean_step : Bool → List String → String → List String
clean_step rooted stack part =
    if part == "" || part == "."
    then stack
    else if part == ".."
    then parent rooted stack
    else part ∷ stack

clean_from : Bool → List String → List String → List String
unfolding clean_step
clean_from rooted stack [] = reverse stack
clean_from rooted stack (part ∷ parts) = clean_from rooted (clean_step rooted stack part) parts

unfoldable pub clean_parts : Bool → List String → FilePath
unfolding clean_from
clean_parts rooted parts = record { rooted = rooted; parts = clean_from rooted [] parts }

-- `filepath.Clean`
unfoldable pub clean : String → FilePath
unfolding clean_parts split_slash is_abs
clean path = clean_parts (is_abs path) (split_slash path)

-- `filepath.Join(a, b)` of two cleaned paths, `a` not empty.
unfoldable pub join : FilePath → FilePath → FilePath
unfolding clean_parts
join a b = clean_parts a.rooted (a.parts ++ b.parts)

-- `filepath.Abs` of a cleaned path. The working directory is none where `os.Getwd` fails.
unfoldable pub abs : Option String → FilePath → Option FilePath
unfolding clean join
abs wd path =
    if path.rooted
    then some path
    else elim wd [ none ↦ none | some dir ↦ some (join (clean dir) path) ]

-- The way up from what is left of the base, then down to what is left of the target.
abbrev climb : List String → List String → List String
climb [] target = target
climb (part ∷ base) target = ".." ∷ climb base target

rel_parts : List String → List String → List String
rel_parts [] target = target
rel_parts (b ∷ base) [] = climb (b ∷ base) []
rel_parts (b ∷ base) (t ∷ target) =
    let rest = rel_parts base target in if b == t then rest else climb (b ∷ base) (t ∷ target)

-- `filepath.Rel` of two rooted paths, where it cannot fail; no parts stand for ".".
unfoldable pub rel : FilePath → FilePath → List String
unfolding rel_parts
rel base target = rel_parts base.parts target.parts

-- `rel == ".." || strings.HasPrefix(rel, "../")`
unfoldable pub climbs : List String → Bool
climbs [] = false
climbs (part ∷ parts) = part == ".."

-- `filepath.Dir` of a cleaned path.
abbrev without_last : List String → List String
without_last [] = []
without_last (part ∷ []) = []
without_last (part ∷ next ∷ parts) = part ∷ without_last (next ∷ parts)

unfoldable pub dir : FilePath → FilePath
dir path = record path { parts = without_last path.parts }

join_slash : List String → String
join_slash [] = ""
join_slash (part ∷ []) = part
join_slash (part ∷ next ∷ parts) = part <> "/" <> join_slash (next ∷ parts)

unfoldable pub to_string : FilePath → String
unfolding join_slash
to_string path =
    if path.rooted
    then "/" <> join_slash path.parts
    else if is_empty path.parts
    then "."
    else join_slash path.parts
