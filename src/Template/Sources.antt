-- ===== src/Template/Sources.antt =====
-- Which item, texts and type a template key comes to, told apart from the renderer.
use message_delivery.Prelude.Text.Prefixes.{has_prefix-behind, behind-eq-append}
use Prim.Native.String.{◌++◌ as ◌<>◌}
use mathlib.Core.Path.{subst}
use message_delivery.Prelude.{
  String, ◌≡◌, ◌≢◌, ◌⊎◌, inl, inr, refl, ap, ◌∙◌, ◌==◌, some, none, Option-cases, Bool-cases,
  eq_iff, arith,
}
use message_delivery.Prelude.Dict
use message_delivery.Prelude.Dict.{Dict}
use message_delivery.Prelude.Text.{has_prefix}
use message_delivery.Config.{TemplateConfig, TemplatesConfig}
use message_delivery.Template.{localized, find_item, default_type}

-- What a map holds under a key, a missing key counting as empty.
abbrev pub IsIndexed : Dict String → String → String → Type 0
IsIndexed values key v =
    (Dict.lookup key values ≡ some v) ⊎ ((Dict.lookup key values ≡ none) × (v ≡ ""))

index-IsIndexed :
    (values : Dict String) (key : String) → IsIndexed values key (Dict.index key values)
unfolding Dict.index
index-IsIndexed values key = elim (Option-cases (Dict.lookup key values)) [
  | inl missing ↦ inr (missing, rw missing refl)
  | inr (v, there) ↦ inl (there ∙ ap some (rw there refl))
]

-- The text for a locale: its own if there is one, or else that of the default locale.
pub data IsLocalized (values : Dict String) (locale default v : String) : Type 0 where
  own : IsIndexed values locale v → v ≢ "" → IsLocalized values locale default v
  other :
      IsIndexed values locale "" → IsIndexed values default v → IsLocalized values locale default v

pub localized-IsLocalized :
    (values : Dict String) (locale default : String)
    → IsLocalized values locale default (localized values locale default)
unfolding localized
localized-IsLocalized values locale default =
    let here = index-IsIndexed values locale in
    elim (Bool-cases (Dict.index locale values == "")) [
      | inl empty ↦
          let is_empty : Dict.index locale values ≡ "" = (eq_iff _ "").0 empty in
          rw empty
            (other (subst (IsIndexed values locale) is_empty here) (index-IsIndexed values default))
      | inr named ↦
          rw named (own here (λ h. ground (arith, eq_iff (Dict.index locale values) "", h)))
    ]

-- The item of a key: its own, or that of "notification" for a key that begins with this and "_".
pub data IsItem (cfg : TemplatesConfig) (key : String) (item : TemplateConfig) : Type 0 where
  own_item : Dict.lookup key cfg.items ≡ some item → IsItem cfg key item
  general_item :
      (kind : String)
      → Dict.lookup key cfg.items ≡ none
      → key ≡ "notification_" <> kind
      → Dict.lookup "notification" cfg.items ≡ some item
      → IsItem cfg key item

pub find_item-IsItem :
    (cfg : TemplatesConfig) (key : String) (item : TemplateConfig)
    → find_item cfg key ≡ some item
    → IsItem cfg key item
unfolding find_item
find_item-IsItem cfg key item h = elim (Option-cases (Dict.lookup key cfg.items)) [
  | inr (mine, there) ↦ own_item (there ∙ (rw (there, find_item) at h))
  | inl missing ↦ elim (Bool-cases (has_prefix key "notification_")) [
    | inl kind ↦
        let (rest, split) = has_prefix-behind key "notification_" kind in
        general_item rest missing (split ∙ behind-eq-append "notification_" rest)
          (rw (missing, find_item, kind) at h)
    | inr no_kind ↦ absurd (cc (rw (missing, find_item, no_kind) at h))
  ]
]

-- The type of a body: the item's own, or else the one of its source.
abbrev pub IsType : TemplateConfig → String → String → Type 0
IsType item default content_type =
    ((item.content_type ≢ "") × (content_type ≡ item.content_type))
    ⊎ ((item.content_type ≡ "") × (content_type ≡ default))

pub default_type-IsType :
    (item : TemplateConfig) (default : String)
    → IsType item default (default_type item.content_type default)
default_type-IsType item default = elim (Bool-cases (item.content_type == "")) [
  | inl empty ↦ rw empty (inr ((eq_iff item.content_type "").0 empty, refl))
  | inr named ↦ rw named (inl (λ h. ground (arith, eq_iff item.content_type "", h), refl))
]
