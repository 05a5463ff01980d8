-- ===== src/Config/Load.antt =====
-- `Load`, `resolvePaths` and `BrokerURL` of internal/config/config.go.
pub mod Checked
use message_delivery.Prelude.{
  String, Bool, false, not, ◌&&◌, ◌||◌, ◌==◌, Option, none, some, [], ◌∷◌, eqb, if◌then◌else◌,
}
use message_delivery.Prelude.Fallible.{Fallible, ok, err, ◌>>=◌}
use message_delivery.Prelude.Dict
use message_delivery.Prelude.Dict.{Dict}
use message_delivery.Prelude.Text.{count_text}
use message_delivery.FilePath.{FilePath, clean, dir, is_abs, join, to_string}
use message_delivery.Config.Types.{Config, AdapterConfig, end, field, Value, null, str, obj}
use message_delivery.Config.Adapter.{string_at, value_at, set_at}
use message_delivery.Config.Env.{apply_env}
use message_delivery.Config.Defaults.{set_defaults}
use message_delivery.Config.Validate.{Problem, validate}

-- What the operating system and the libraries decide: the files, `os.Getenv`, the decoder, whether
-- `mail.ParseAddress` takes a text, and how `url.URL` writes the broker's address.
pub record Sources : Type 0 where
  pub read_file : String → Option String
  pub getenv : String → String
  pub decode : String → Option Config
  pub is_address : String → Bool
  pub amqp_url : String → String → String → String

pub data LoadError : Type 0 where
  open_failed decode_failed : LoadError
  layout_unreadable layout_invalid : LoadError
  brands_invalid default_brand_missing brand_invalid brand_from_invalid : LoadError
  brand_requires brand_unreadable : String → LoadError
  brand_layout_invalid : LoadError
  not_valid : Problem → LoadError

abbrev pub or_fail {ℓ} : {A : Type ℓ} → LoadError → Option A → Fallible LoadError A
or_fail e none = err e
or_fail e (some a) = ok a

-- `resolvePaths`; the path of the configuration is clean.
unfoldable pub resolve_paths : FilePath → Config → Config
unfolding clean dir is_abs join to_string
resolve_paths path c =
    let base : String = c.templates.base_dir in
    if base == "" || is_abs base then c else record c {
      templates = record c.templates { base_dir = to_string (join (dir path) (clean base)) };
    }

-- A file is named from the directory of the templates, unless its name is absolute.
unfoldable pub located : String → String → String
unfolding clean is_abs join to_string
located base name = to_string (if is_abs name then clean name else join (clean base) (clean name))

abbrev pub has_slots : String → Bool
has_slots layout = eqb (count_text layout "{{body}}") 1 && eqb (count_text layout "{{footer}}") 1

unfoldable pub checked_layout : LoadError → String → Fallible LoadError String
unfolding count_text
checked_layout e layout = if not (has_slots layout) then err e else ok layout

-- The layout of an adapter, where a file is named for it.
unfoldable pub load_layout : Sources → String → AdapterConfig → Fallible LoadError AdapterConfig
unfolding string_at set_at located checked_layout
load_layout sources base adapter =
    let name : String = string_at "HTMLLayoutFile" adapter in
    if name == ""
    then ok adapter
    else or_fail layout_unreadable (sources.read_file (located base name))
      >>= checked_layout layout_invalid
      >>= (λ layout. ok (set_at "HTMLLayout" (str layout) adapter))

-- A file that a brand has to name: where it is, and what is in it.
unfoldable pub brand_file :
    Sources → String → String → AdapterConfig → Fallible LoadError (String × String)
unfolding string_at located
brand_file sources base key brand =
    let name : String = string_at key brand in
    if name == ""
    then err (brand_requires key)
    else or_fail (brand_unreadable key) (sources.read_file (located base name))
      >>= (λ data_text. ok (located base name, data_text))

unfoldable pub load_brand : Sources → String → AdapterConfig → Fallible LoadError AdapterConfig
unfolding string_at set_at brand_file checked_layout
load_brand sources base brand =
    if not (sources.is_address (string_at "From" brand)) then err brand_from_invalid else do
      (_, text) ← brand_file sources base "HTMLLayoutFile" brand
      layout ← checked_layout brand_layout_invalid text
      (logo, _) ← brand_file sources base "LogoFile" (set_at "HTMLLayout" (str layout) brand)
      ok (set_at "LogoFile" (str logo) (set_at "HTMLLayout" (str layout) brand))

unfoldable pub load_brands : Sources → String → AdapterConfig → Fallible LoadError AdapterConfig
unfolding load_brand
load_brands sources base end = ok end
load_brands sources base (field name (obj brand) rest) = do
  loaded ← load_brand sources base brand
  others ← load_brands sources base rest
  ok (field name (obj loaded) others)
load_brands sources base (field name _ rest) = err brand_invalid

-- Whether a map has a key.
abbrev pub has_key : String → AdapterConfig → Bool
has_key key end = false
has_key key (field k v rest) = k == key || has_key key rest

-- The brands of an adapter; nil and a missing key stand for none.
unfoldable pub load_brand_set :
    Sources → String → AdapterConfig → Value → Fallible LoadError AdapterConfig
unfolding string_at set_at load_brands
load_brand_set sources base adapter null = ok adapter
load_brand_set sources base adapter (obj end) = err brands_invalid
load_brand_set sources base adapter (obj (field name brand rest)) =
    if not (has_key (string_at "DefaultBrand" adapter) (field name brand rest))
    then err default_brand_missing
    else load_brands sources base (field name brand rest)
      >>= (λ loaded. ok (set_at "Brands" (obj loaded) adapter))
load_brand_set sources base adapter _ = err brands_invalid

unfoldable pub load_adapter : Sources → String → AdapterConfig → Fallible LoadError AdapterConfig
unfolding load_layout load_brand_set value_at
load_adapter sources base adapter =
    load_layout sources base adapter
    >>= (λ laid. load_brand_set sources base laid (value_at "Brands" laid))

unfoldable pub load_adapters :
    Sources → String → Dict AdapterConfig → Fallible LoadError (Dict AdapterConfig)
unfolding load_adapter
load_adapters sources base [] = ok []
load_adapters sources base ((name, adapter) ∷ adapters) = do
  loaded ← load_adapter sources base adapter
  others ← load_adapters sources base adapters
  ok ((name, loaded) ∷ others)

abbrev pub with_email_adapters : Config → Dict AdapterConfig → Config
with_email_adapters c adapters = record c {
  providers = record c.providers { email = record c.providers.email { adapters = adapters } };
}

unfoldable pub validated : Sources → Config → Fallible LoadError Config
unfolding validate
validated sources c = elim (validate sources.getenv c) [
  | none ↦ ok c
  | some problem ↦ err (not_valid problem)
]

-- What is loaded of a decoded configuration.
unfoldable pub prepared : Sources → FilePath → Config → Config
unfolding apply_env set_defaults resolve_paths
prepared sources path c = resolve_paths path (set_defaults (apply_env sources.getenv c))

-- `Load`
unfoldable pub load : Sources → String → Fallible LoadError Config
unfolding clean to_string prepared load_adapters validated
load sources path = do
  text ← or_fail open_failed (sources.read_file (to_string (clean path)))
  decoded ← or_fail decode_failed (sources.decode text)
  adapters ←
      load_adapters sources (prepared sources (clean path) decoded).templates.base_dir
        (prepared sources (clean path) decoded).providers.email.adapters
  validated sources (with_email_adapters (prepared sources (clean path) decoded) adapters)

-- `BrokerURL`
unfoldable pub broker_url : Sources → Config → String
broker_url sources c = sources.amqp_url c.broker.user c.broker.password c.broker.host
