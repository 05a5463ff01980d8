-- ===== src/Provider/Factory/Registered.antt =====
-- What the registry of a configuration finds.
use mathlib.Core.Option
use message_delivery.Prelude.{
  String, Bool, true, false, not, ◌≡◌, refl, ◌∙◌, ◌==◌, Option, none, some, List, [], ◌∷◌, All,
  arith, if◌then◌else◌,
}
use message_delivery.Prelude.Fallible.{Fallible, ok, err}
use message_delivery.Prelude.Dict.{Dict}
use message_delivery.Config.{Config, AdapterConfig, TelegramBotPresentation, bool_at, string_at}
use message_delivery.Provider.{Provider, Registry, get, register, new_registry}
use message_delivery.Provider.Lookup.{get-register}
use message_delivery.Provider.Email.Message.{Brand}
use message_delivery.Provider.Factory.{
  Services, Setting, brands_of, build, build_fake, build_smtp, build_unset, build_kind,
  build_provider, settings, register_built, new_registry_from_config,
}

-- The brands of an adapter, if it has any, are objects.
abbrev pub HasBrands : Setting → Type 0
HasBrands x = (brands : Dict Brand) × (brands_of x.adapter ≡ ok brands)

build_smtp-name :
    (s : Services) (name : String) (adapter : AdapterConfig) (found : Fallible String (Dict Brand))
    (brands : Dict Brand)
    → found ≡ ok brands
    → (build_smtp s name adapter found).name ≡ name
unfolding build_smtp
build_smtp-name s name adapter (ok found) brands h = refl
build_smtp-name s name adapter (err problem) brands h = cc (h)

build_unset-name : (name recipient_type : String) → (build_unset name recipient_type).name ≡ name
unfolding build_unset
build_unset-name name recipient_type = ground arith

-- A choice between two providers of one name has that name.
choice-name :
    (test : Bool) (p q : Provider) (name : String)
    → p.name ≡ name
    → q.name ≡ name
    → (if test then p else q).name ≡ name
choice-name true p q name h k = h
choice-name false p q name h k = k

build_kind-name :
    (s : Services) (name : String) (adapter : AdapterConfig) (recipient_type : String)
    (presentation : TelegramBotPresentation) (kind : String) (brands : Dict Brand)
    → brands_of adapter ≡ ok brands
    → (build_kind s name adapter recipient_type presentation kind).name ≡ name
unfolding build_kind build_fake
build_kind-name s name adapter recipient_type presentation kind brands h =
    choice-name (kind == "fake") _ _ name refl (
      choice-name (kind == "smtp") _ _ name
        (build_smtp-name s name adapter (brands_of adapter) brands h)
        (choice-name (kind == "telegram-gateway") _ _ name refl (
          choice-name (kind == "webpush") _ _ name refl (
            choice-name (kind == "telegram-bot") _ _ name refl
              (choice-name (kind == "") _ _ name (build_unset-name name recipient_type) refl)))))

build-name : (s : Services) (x : Setting) → HasBrands x → (build s x).name ≡ x.name
unfolding build_provider
build-name s x (brands, h) = choice-name (not (bool_at "Enabled" x.adapter)) _ _ x.name refl (
    build_kind-name s x.name x.adapter x.recipient_type x.presentation (string_at "Kind" x.adapter)
      brands h)

-- The last setting of a name, or the one found before.
abbrev pub last_setting : String → List Setting → Option Setting → Option Setting
last_setting name [] found = found
last_setting name (x ∷ xs) found = last_setting name xs (if x.name == name then some x else found)

map-choice :
    (s : Services) (test : Bool) (x : Setting) (found : Option Setting)
    → (if test then some (build s x) else Option.map (build s) found)
      ≡ Option.map (build s) (if test then some x else found)
map-choice s true x found = refl
map-choice s false x found = refl

get-register_built :
    (s : Services) (name : String) (xs : List Setting) (r : Registry) (found : Option Setting)
    → All HasBrands xs
    → get name r ≡ Option.map (build s) found
    → get name (register_built s xs r) ≡ Option.map (build s) (last_setting name xs found)
unfolding register_built
get-register_built s name [] r found _ h = h
get-register_built s name (x ∷ xs) r found (named, all_named) h =
    get-register_built s name xs (register (some (build s x)) r)
      (if x.name == name then some x else found) all_named
      (get-register name (build s x) r
        ∙ rw (build-name s x named, h) (map-choice s (x.name == name) x found))

-- Where the brands of each adapter are objects, the registry made of a configuration finds under a
-- name the provider built from the last adapter of this name, the channels being taken in the order
-- of e-mail, phone, push and Telegram, and nothing where no channel has an adapter of the name.
pub get-new_registry_from_config :
    (s : Services) (cfg : Config) (name : String)
    → All HasBrands (settings cfg)
    → get name (new_registry_from_config s cfg)
      ≡ Option.map (build s) (last_setting name (settings cfg) none)
unfolding new_registry_from_config
get-new_registry_from_config s cfg name h =
    get-register_built s name (settings cfg) (new_registry []) none h
      (unfold new_registry get in refl)
