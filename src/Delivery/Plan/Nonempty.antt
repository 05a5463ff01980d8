-- ===== src/Delivery/Plan/Nonempty.antt =====
-- Which plans are not empty, and hold no empty name.
use message_delivery.Config.Validate.Defaulted.{or_default-ne, or_list-All}
use message_delivery.Prelude.{
  String, ◌≡◌, refl, false, inl, inr, List, [], ◌∷◌, ◌++◌, is_empty, arith, ◌==◌, ◌||◌, contains,
  if◌then◌else◌, ◌≢◌, All, All-append, Bool-cases, true, eq_iff,
}
use message_delivery.Config.{Config, set_defaults, default_provider_chain}
use message_delivery.Delivery.Event.{RequestEvent}
use message_delivery.Delivery.Event.Valid.{IsValidRequest}
use message_delivery.Delivery.Plan.{extend_plan, provider_plan}

default_provider_chain_nonempty :
    (c : Config) (e : RequestEvent)
    → IsValidRequest e
    → is_empty (default_provider_chain (set_defaults c) e.recipient_type) ≡ false
unfolding default_provider_chain set_defaults
default_provider_chain_nonempty c e v = elim v.recipient_type [
  | inl email ↦ rw email
  | inr (inl phone) ↦ rw phone (ground arith)
  | inr (inr (inl push)) ↦ rw push
  | inr (inr (inr telegram)) ↦ rw telegram
]

append_nonempty : (xs ys : List String) → is_empty xs ≡ false → is_empty (xs ++ ys) ≡ false
append_nonempty [] ys h = cc
append_nonempty (x ∷ xs) ys h = refl

extend_plan_nonempty :
    (seen plan providers : List String)
    → is_empty plan ≡ false
    → is_empty (extend_plan seen plan providers) ≡ false
unfolding extend_plan
extend_plan_nonempty seen plan [] h = h
extend_plan_nonempty seen plan (provider ∷ providers) h =
    extend_plan_nonempty
      (if provider == "" || contains seen provider then seen else provider ∷ seen)
      (if provider == "" || contains seen provider then plan else plan ++ provider ∷ []) providers
      (ground (arith, append_nonempty plan (provider ∷ []) h))

-- The plan of a valid request is never empty, though its one name may be.
provider_plan_nonempty :
    (c : Config) (e : RequestEvent)
    → IsValidRequest e
    → is_empty (provider_plan e (default_provider_chain (set_defaults c) e.recipient_type)) ≡ false
unfolding provider_plan
provider_plan_nonempty c e v = ground (
  arith,
  default_provider_chain_nonempty c e v,
  extend_plan_nonempty (e.delivery.selected_provider ∷ []) (e.delivery.selected_provider ∷ [])
      (e.delivery.provider_chain ++ default_provider_chain (set_defaults c) e.recipient_type) refl,
)

-- Every name of a list is there.
abbrev pub IsNamed : List String → Type 0
IsNamed names = All (λ name. name ≢ "") names

default_provider_chain-IsNamed :
    (c : Config) (e : RequestEvent)
    → IsValidRequest e
    → IsNamed c.providers.phone.default_provider_chain
    → (e.recipient_type ≡ "telegram" → c.providers.telegram.enabled ≡ true)
    → IsNamed (default_provider_chain (set_defaults c) e.recipient_type)
unfolding default_provider_chain set_defaults
default_provider_chain-IsNamed c e v phones on = elim v.recipient_type [
  | inl email ↦ rw email (or_default-ne c.providers.email.default_provider _ refl, tt)
  | inr (inl phone) ↦ rw phone (
      or_list-All (λ name. name ≢ "") c.providers.phone.default_provider_chain _ phones
        ((λ h. cc (h)), ((λ h. cc (h)), tt)))
  | inr (inr (inl push)) ↦ rw push (or_default-ne c.providers.push.default_provider _ refl, tt)
  | inr (inr (inr telegram)) ↦
      let enabled = on telegram in
      rw (telegram, enabled) (or_default-ne c.providers.telegram.default_provider _ refl, tt)
]

extend_plan-IsNamed :
    (seen plan providers : List String) → IsNamed plan → IsNamed (extend_plan seen plan providers)
unfolding extend_plan
extend_plan-IsNamed seen plan [] h = h
extend_plan-IsNamed seen plan (provider ∷ providers) h =
    elim (Bool-cases (provider == "" || contains seen provider)) [
      | inl passed ↦ rw passed (extend_plan-IsNamed seen plan providers h)
      | inr added ↦ rw added (
          extend_plan-IsNamed (provider ∷ seen) (plan ++ provider ∷ []) providers (
            All-append (λ name. name ≢ "") plan (provider ∷ []) h
              ((λ empty. ground (arith, eq_iff provider "", empty)), tt)))
    ]

-- Under a configuration whose defaults are set, the plan of a valid request holds at least one name,
-- and none of its names is empty, whatever the request selects; provided that the chain of the request
-- and the one that the configuration gives for phones hold no empty name, and that Telegram is on
-- for a request to it.
pub provider_plan-IsNamed :
    (c : Config) (e : RequestEvent)
    → IsValidRequest e
    → IsNamed e.delivery.provider_chain
    → IsNamed c.providers.phone.default_provider_chain
    → (e.recipient_type ≡ "telegram" → c.providers.telegram.enabled ≡ true)
    → let plan = provider_plan e (default_provider_chain (set_defaults c) e.recipient_type) in
      (is_empty plan ≡ false) × IsNamed plan
unfolding provider_plan
provider_plan-IsNamed c e v chain phones on =
    let selected : String = e.delivery.selected_provider in
    let defaults : List String = default_provider_chain (set_defaults c) e.recipient_type in
    let named : IsNamed defaults = default_provider_chain-IsNamed c e v phones on in
    (
      provider_plan_nonempty c e v,
      elim (Bool-cases (selected == "")) [
        | inl unselected ↦ elim (Bool-cases (is_empty e.delivery.provider_chain)) [
          | inl no_chain ↦ rw (unselected, no_chain) named
          | inr own ↦ rw (unselected, own) chain
        ]
        | inr given ↦
            let is_named : selected ≢ "" = λ h. ground (arith, eq_iff selected "", h) in
            elim (Bool-cases e.delivery.allow_fallback) [
              | inl fallback ↦
                  rw (given, fallback)
                    (extend_plan-IsNamed (selected ∷ []) (selected ∷ [])
                      (e.delivery.provider_chain ++ defaults) (is_named, tt))
              | inr alone ↦ rw (given, alone) (is_named, tt)
            ]
      ],
    )
