-- ===== src/Prelude/Dict.antt =====
-- Go's maps with string keys, as association lists in the order of iteration. A nil map reads like
-- an empty one.
use Prim.Native.String.{String}
use mathlib.Core.Path.{◌≡◌, refl}
use mathlib.Core.Option.{Option, none, some, get_or}
use mathlib.Core.List.{List, [], ◌∷◌}
use native.Mathlib.Omega.{arith}
use text.Mathlib.Text.{◌==◌}
use text.Mathlib.TextEquality.{eq_iff}
use message_delivery.Prelude.Tests.{if◌then◌else◌}

abbrev pub Dict {ℓ} : Type ℓ → Type ℓ
Dict V = List (String × V)

module _ {ℓ} {V : Type ℓ} where
  -- `v, ok := m[k]`
  unfoldable pub lookup : String → Dict V → Option V
  lookup k [] = none
  lookup k ((j, v) ∷ m) = if j == k then some v else lookup k m

  -- `m[k] = v`
  unfoldable pub insert : String → V → Dict V → Dict V
  insert k v [] = (k, v) ∷ []
  insert k v ((j, w) ∷ m) = if j == k then (k, v) ∷ m else (j, w) ∷ insert k v m

  pub lookup-insert :
      (m : Dict V) (written : String) (v : V) (read : String)
      → lookup read (insert written v m) ≡ (if written == read then some v else lookup read m)
  unfolding insert lookup
  lookup-insert [] written v read = refl
  lookup-insert ((key, old) ∷ m) written v read = ground (
    arith,
    lookup-insert m written v read,
    eq_iff key read,
    eq_iff key written,
    eq_iff written read,
  )

-- `m[k]`, the empty text on a missing key.
unfoldable pub index : String → Dict String → String
unfolding lookup
index k m = get_or (lookup k m) ""
