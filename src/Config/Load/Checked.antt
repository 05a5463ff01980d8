-- ===== src/Config/Load/Checked.antt =====
-- What a configuration that was loaded meets.
use mathlib.Core.Path.{subst}
use message_delivery.Prelude.{
  String, inl, inr, true, not, ◌≡◌, refl, ap, ◌∙◌, ◌==◌, eq_iff, none, [], ◌∷◌, All, arith,
  if◌then◌else◌, Option-cases,
}
use message_delivery.Prelude.Fallible.{Fallible, ok, >>=-eq-ok, guarded-eq-ok}
use message_delivery.Prelude.Dict.{Dict}
use message_delivery.FilePath.{clean}
use message_delivery.Config.Types.{Config, AdapterConfig, end, field, Value, null, str, obj}
use message_delivery.Config.Adapter.{string_at, value_at, set_at, text_of}
use message_delivery.Config.Validate.{validate}
use message_delivery.Config.Validate.Laws.{IsReady, validate_iff}
use message_delivery.Config.Load.{
  Sources, LoadError, brand_from_invalid, brand_layout_invalid, has_slots, checked_layout,
  load_layout, brand_file, load_brand, load_brands, load_brand_set, load_adapter, load_adapters,
  validated, prepared, load, or_fail, has_key, default_brand_missing, open_failed, to_string,
  decode_failed, with_email_adapters,
}

value_at-set_at :
    (a : AdapterConfig) (written : String) (v : Value) (read : String)
    → value_at read (set_at written v a) ≡ (if written == read then v else value_at read a)
unfolding value_at set_at
value_at-set_at end written v read = refl
value_at-set_at (field k w rest) written v read = ground (
  arith,
  value_at-set_at rest written v read,
  eq_iff k read,
  eq_iff k written,
  eq_iff written read,
)

string_at-set_at :
    (a : AdapterConfig) (written : String) (v : Value) (read : String)
    → string_at read (set_at written v a)
      ≡ (if written == read then text_of v else string_at read a)
unfolding string_at
string_at-set_at a written v read = ap text_of (value_at-set_at a written v read) ∙ ground arith

-- A brand has a sender's address and a layout with one slot for the body and one for the footer.
pub record IsBrand (sources : Sources) (brand : AdapterConfig) : Type 0 where
  pub from : sources.is_address (string_at "From" brand) ≡ true
  pub layout : has_slots (string_at "HTMLLayout" brand) ≡ true

pub data AreBrands (sources : Sources) : AdapterConfig → Type 0 where
  no_more : AreBrands sources end
  brand :
      {name : String} {b rest : AdapterConfig}
      → IsBrand sources b
      → AreBrands sources rest
      → AreBrands sources (field name (obj b) rest)

-- Either there are no brands, or they are an object of brands.
pub data HasBrandSet (sources : Sources) (adapter : AdapterConfig) : Type 0 where
  unbranded : value_at "Brands" adapter ≡ null → HasBrandSet sources adapter
  branded :
      (brands : AdapterConfig)
      → value_at "Brands" adapter ≡ obj brands
      → AreBrands sources brands
      → HasBrandSet sources adapter

ok-injective :
    {x y : AdapterConfig} → ◌≡◌ {A = Fallible LoadError AdapterConfig} (ok x) (ok y) → x ≡ y
ok-injective h = cc

checked_layout-eq-ok :
    (e : LoadError) (layout found : String)
    → checked_layout e layout ≡ ok found
    → has_slots found ≡ true
unfolding checked_layout
checked_layout-eq-ok e layout found h = ground arith

set_layout-IsBrand :
    (sources : Sources) (b : AdapterConfig) (layout logo : String)
    → sources.is_address (string_at "From" b) ≡ true
    → has_slots layout ≡ true
    → IsBrand sources (set_at "LogoFile" (str logo) (set_at "HTMLLayout" (str layout) b))
set_layout-IsBrand sources b layout logo address slots =
    let laid : AdapterConfig = set_at "HTMLLayout" (str layout) b in
    let kept = string_at-set_at laid "LogoFile" (str logo) in
    let set = string_at-set_at b "HTMLLayout" (str layout) in
    record {
      from = rw (kept "From", set "From") address;
      layout = rw (kept "HTMLLayout", set "HTMLLayout") slots;
    }

load_brand-IsBrand :
    (sources : Sources) (base : String) (b loaded : AdapterConfig)
    → load_brand sources base b ≡ ok loaded
    → IsBrand sources loaded
unfolding load_brand
load_brand-IsBrand sources base b loaded h =
    let (address, h1) =
      guarded-eq-ok (not (sources.is_address (string_at "From" b))) brand_from_invalid _ h in
    let ((place, text), read, h2) = >>=-eq-ok (brand_file sources base "HTMLLayoutFile" b) _ h1 in
    let (layout, checked, h3) = >>=-eq-ok (checked_layout brand_layout_invalid text) _ h2 in
    let ((logo, data_text), has_logo, h4) =
      >>=-eq-ok (brand_file sources base "LogoFile" (set_at "HTMLLayout" (str layout) b)) _ h3 in
    subst (IsBrand sources) (ok-injective h4) (
      set_layout-IsBrand sources b layout logo (ground arith)
        (checked_layout-eq-ok brand_layout_invalid text layout checked))

load_brands-AreBrands :
    (sources : Sources) (base : String) (brands loaded : AdapterConfig)
    → load_brands sources base brands ≡ ok loaded
    → AreBrands sources loaded
unfolding load_brands
load_brands-AreBrands sources base end loaded h = subst (AreBrands sources) (ok-injective h) no_more
load_brands-AreBrands sources base (field name (obj b) rest) loaded h =
    let (first, is_first, h1) = >>=-eq-ok (load_brand sources base b) _ h in
    let (others, are_others, h2) = >>=-eq-ok (load_brands sources base rest) _ h1 in
    subst (AreBrands sources) (ok-injective h2) (
      brand (load_brand-IsBrand sources base b first is_first)
        (load_brands-AreBrands sources base rest others are_others))
load_brands-AreBrands sources base (field name _ rest) loaded h = cc (h)

load_brand_set-HasBrandSet :
    (sources : Sources) (base : String) (adapter : AdapterConfig) (set : Value)
    (loaded : AdapterConfig)
    → value_at "Brands" adapter ≡ set
    → load_brand_set sources base adapter set ≡ ok loaded
    → HasBrandSet sources loaded
unfolding load_brand_set
load_brand_set-HasBrandSet sources base adapter null loaded read h =
    subst (HasBrandSet sources) (ok-injective h) (unbranded read)
load_brand_set-HasBrandSet sources base adapter (obj end) loaded read h = cc (h)
load_brand_set-HasBrandSet sources base adapter (obj (field name b rest)) loaded read h =
    let (_, h1) =
      guarded-eq-ok (not (has_key (string_at "DefaultBrand" adapter) (field name b rest)))
        default_brand_missing _ h in
    let (brands, are_brands, h2) = >>=-eq-ok (load_brands sources base (field name b rest)) _ h1 in
    subst (HasBrandSet sources) (ok-injective h2) (
      branded brands (value_at-set_at adapter "Brands" (obj brands) "Brands")
        (load_brands-AreBrands sources base (field name b rest) brands are_brands))
load_brand_set-HasBrandSet sources base adapter _ loaded read h = cc (h)

load_adapter-HasBrandSet :
    (sources : Sources) (base : String) (adapter loaded : AdapterConfig)
    → load_adapter sources base adapter ≡ ok loaded
    → HasBrandSet sources loaded
unfolding load_adapter
load_adapter-HasBrandSet sources base adapter loaded h =
    let (laid, is_laid, h1) = >>=-eq-ok (load_layout sources base adapter) _ h in
    load_brand_set-HasBrandSet sources base laid (value_at "Brands" laid) loaded refl h1

abbrev pub AdapterHasBrandSet : Sources → String × AdapterConfig → Type 0
AdapterHasBrandSet sources (name, adapter) = HasBrandSet sources adapter

adapters-injective :
    {x y : Dict AdapterConfig}
    → ◌≡◌ {A = Fallible LoadError (Dict AdapterConfig)} (ok x) (ok y)
    → x ≡ y
adapters-injective h = cc

load_adapters-HasBrandSet :
    (sources : Sources) (base : String) (adapters loaded : Dict AdapterConfig)
    → load_adapters sources base adapters ≡ ok loaded
    → All (AdapterHasBrandSet sources) loaded
unfolding load_adapters
load_adapters-HasBrandSet sources base [] loaded h =
    subst (All (AdapterHasBrandSet sources)) (adapters-injective h) tt
load_adapters-HasBrandSet sources base ((name, adapter) ∷ adapters) loaded h =
    let (first, is_first, h1) = >>=-eq-ok (load_adapter sources base adapter) _ h in
    let (others, are_others, h2) = >>=-eq-ok (load_adapters sources base adapters) _ h1 in
    subst (All (AdapterHasBrandSet sources)) (adapters-injective h2) (
      load_adapter-HasBrandSet sources base adapter first is_first,
      load_adapters-HasBrandSet sources base adapters others are_others,
    )

validated-eq-ok :
    (sources : Sources) (c loaded : Config)
    → validated sources c ≡ ok loaded
    → (c ≡ loaded) × (validate sources.getenv c ≡ none)
unfolding validated
validated-eq-ok sources c loaded h = elim (Option-cases (validate sources.getenv c)) [
  | inl valid ↦ (cc (rw (valid, validated) at h), valid)
  | inr (problem, invalid) ↦ cc (rw (invalid, validated) at h)
]

-- A configuration that was loaded is ready for the service, and each of its e-mail adapters has no
-- brands or an object of brands, of which each has a sender that parses as an address and a layout
-- with exactly one slot for the body and one for the footer.
pub load-IsReady-HasBrandSet :
    (sources : Sources) (path : String) (c : Config)
    → load sources path ≡ ok c
    → IsReady sources.getenv c × All (AdapterHasBrandSet sources) c.providers.email.adapters
unfolding load
load-IsReady-HasBrandSet sources path c h =
    let (text, opened, h1) =
      >>=-eq-ok (or_fail open_failed (sources.read_file (to_string (clean path)))) _ h in
    let (decoded, is_decoded, h2) = >>=-eq-ok (or_fail decode_failed (sources.decode text)) _ h1 in
    let ready : Config = prepared sources (clean path) decoded in
    let (adapters, are_adapters, h3) =
      >>=-eq-ok (load_adapters sources ready.templates.base_dir ready.providers.email.adapters) _
        h2 in
    let (same, valid) = validated-eq-ok sources (with_email_adapters ready adapters) c h3 in
    (
      subst (IsReady sources.getenv) same
          ((validate_iff sources.getenv (with_email_adapters ready adapters)).0 valid),
      subst (λ d. All (AdapterHasBrandSet sources) d.providers.email.adapters) same
          (load_adapters-HasBrandSet sources ready.templates.base_dir ready.providers.email.adapters
            adapters are_adapters),
    )
