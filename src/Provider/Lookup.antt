-- ===== src/Provider/Lookup.antt =====
-- What the registry of providers finds.
use message_delivery.Prelude.{
  String, ◌≡◌, refl, ap, ◌∙◌, ◌==◌, Option, none, some, List, [], ◌∷◌, if◌then◌else◌,
}
use message_delivery.Prelude.Dict.{lookup-insert}
use message_delivery.Prelude.Dict
use message_delivery.Provider.{Provider, Registry, register, register_all, new_registry, get}

pub get-register :
    (name : String) (p : Provider) (r : Registry)
    → get name (register (some p) r) ≡ (if p.name == name then some p else get name r)
unfolding register get
get-register name p r = lookup-insert r.providers p.name p name

-- The last provider of a name in the list, or what was there before.
abbrev pub last_named : String → List (Option Provider) → Option Provider → Option Provider
last_named name [] found = found
last_named name (none ∷ ps) found = last_named name ps found
last_named name (some p ∷ ps) found = last_named name ps (if p.name == name then some p else found)

get-register_all :
    (name : String) (ps : List (Option Provider)) (r : Registry)
    → get name (register_all ps r) ≡ last_named name ps (get name r)
unfolding register_all register
get-register_all name [] r = refl
get-register_all name (none ∷ ps) r = unfold register in get-register_all name ps r
get-register_all name (some p ∷ ps) r =
    get-register_all name ps (register (some p) r) ∙ ap (last_named name ps) (get-register name p r)

-- A registry built from a list of providers finds under a name the last provider of the list that
-- has this name, nil entries being skipped, and nothing where the list has none.
pub get-new_registry :
    (name : String) (ps : List (Option Provider))
    → get name (new_registry ps) ≡ last_named name ps none
unfolding new_registry get Dict.lookup
get-new_registry name ps = get-register_all name ps (record { providers = [] })
