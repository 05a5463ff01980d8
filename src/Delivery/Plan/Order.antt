-- ===== src/Delivery/Plan/Order.antt =====
-- What a plan holds, and in which order.
use mathlib.Core.Path.{fun_ext}
use mathlib.Core.List.{append_assoc, append-nil}
use message_delivery.Prelude.{
  String, ◌≡◌, refl, sym, ap, ◌∙◌, ◌≢◌, Bool, true, false, not, ◌||◌, ◌&&◌, List, [], ◌∷◌, ◌++◌,
  ◌==◌, eq_iff, eq_refl, arith, contains, keep, keep_in, keep_out, keep-keep, keep_agree,
  keep_passed, All, All-keep, Bool-cases, IsDistinct, keep-IsDistinct, contains-keep,
  contains-append, inl, inr,
}
use message_delivery.Delivery.Event.{RequestEvent}
use message_delivery.Delivery.Plan.{extend_plan, provider_plan}

-- The first occurrence of each item, in order.
abbrev pub distinct : List String → List String
distinct [] = []
distinct (x ∷ xs) = x ∷ keep (λ y. not (x == y)) (distinct xs)

abbrev pub is_named : String → Bool
is_named x = not (x == "")

abbrev fresh : List String → String → Bool
fresh seen x = not (x == "" || contains seen x)

fresh-cons :
    (seen : List String) (x y : String) → fresh (x ∷ seen) y ≡ (fresh seen y && not (x == y))
fresh-cons seen x y = ground arith

fresh_skip :
    (seen : List String) (x y : String)
    → fresh seen x ≡ false
    → (fresh seen y && not (x == y)) ≡ fresh seen y
fresh_skip seen x y h = ground (arith, eq_iff x y)

keep_skip :
    (seen : List String) (x : String) (xs : List String)
    → fresh seen x ≡ false
    → keep (fresh seen) (x ∷ keep (λ y. not (x == y)) xs) ≡ keep (fresh seen) xs
keep_skip seen x xs h =
    keep_out (fresh seen) x (keep (λ y. not (x == y)) xs) h
    ∙ keep-keep (fresh seen) (λ y. not (x == y)) xs
    ∙ ap (λ p. keep p xs) (fun_ext (λ y. fresh_skip seen x y h))

keep_take :
    (seen : List String) (x : String) (xs : List String)
    → fresh seen x ≡ true
    → keep (fresh seen) (x ∷ keep (λ y. not (x == y)) xs) ≡ x ∷ keep (fresh (x ∷ seen)) xs
keep_take seen x xs h =
    keep_in (fresh seen) x (keep (λ y. not (x == y)) xs) h
    ∙ ap (λ l. x ∷ l)
        (keep-keep (fresh seen) (λ y. not (x == y)) xs
          ∙ ap (λ p. keep p xs) (fun_ext (λ y. sym (fresh-cons seen x y))))

distinct-keep_named :
    (x : String) (xs : List String)
    → is_named x ≡ true
    → distinct (keep is_named (x ∷ xs)) ≡ x ∷ keep (λ y. not (x == y)) (distinct (keep is_named xs))
distinct-keep_named x xs h = ap distinct (keep_in is_named x xs h)

-- The loop appends what is named, not seen, and not there already.
extend_plan-distinct :
    (seen plan xs : List String)
    → extend_plan seen plan xs ≡ plan ++ keep (fresh seen) (distinct (keep is_named xs))
unfolding extend_plan
extend_plan-distinct seen plan [] = sym (append-nil plan)
extend_plan-distinct seen plan (x ∷ xs) = elim (Bool-cases (x == "")) [
  | inl empty ↦
      rw (keep_out is_named x xs (ground arith)) (rw empty (extend_plan-distinct seen plan xs))
  | inr named ↦ rw (distinct-keep_named x xs (ground arith)) (elim (Bool-cases (contains seen x)) [
    | inl old ↦
        rw (keep_skip seen x (distinct (keep is_named xs)) (ground arith))
          (rw (named, old) (extend_plan-distinct seen plan xs))
    | inr new ↦ rw (keep_take seen x (distinct (keep is_named xs)) (ground arith)) (
        rw (named, new)
          (extend_plan-distinct (x ∷ seen) (plan ++ x ∷ []) xs ∙ append_assoc plan (x ∷ []) _))
  ])
]

distinct-All : (P : String → Type 0) (xs : List String) → All P xs → All P (distinct xs)
distinct-All P [] _ = tt
distinct-All P (x ∷ xs) (h, hs) =
    (h, All-keep P (λ y. not (x == y)) (distinct xs) (distinct-All P xs hs))

fresh_one :
    (s : String) (xs : List String)
    → All (λ x. is_named x ≡ true) xs
    → All (λ x. fresh (s ∷ []) x ≡ not (s == x)) xs
fresh_one s [] _ = tt
fresh_one s (x ∷ xs) (h, hs) = (ground arith, fresh_one s xs hs)

-- With a provider selected and fallback allowed, the plan is the selected provider followed by the
-- names of the request's chain and of the default chain, without the empty ones, each at its first
-- occurrence.
pub provider_plan_fallback :
    (e : RequestEvent) (default_chain : List String)
    → e.delivery.selected_provider ≢ ""
    → e.delivery.allow_fallback ≡ true
    → provider_plan e default_chain
      ≡ distinct (
          e.delivery.selected_provider ∷ keep is_named (e.delivery.provider_chain ++ default_chain))
unfolding provider_plan
provider_plan_fallback e default_chain h f =
    let s : String = e.delivery.selected_provider in
    let rest : List String = e.delivery.provider_chain ++ default_chain in
    let differs : (s == "") ≡ false = ground (arith, eq_iff s "") in
    rw (differs, f)
      (extend_plan-distinct (s ∷ []) (s ∷ []) rest
        ∙ ap (λ l. s ∷ l)
            (keep_agree (fresh (s ∷ [])) (λ x. not (s == x)) (distinct (keep is_named rest))
              (fresh_one s _ (distinct-All _ (keep is_named rest) (keep_passed is_named rest)))))

contains-distinct : (xs : List String) (k : String) → contains (distinct xs) k ≡ contains xs k
contains-distinct [] k = refl
contains-distinct (x ∷ xs) k =
    ground
      (arith, contains-distinct xs k, contains-keep (λ y. not (x == y)) (distinct xs) k, eq_iff x k)

distinct-IsDistinct : (xs : List String) → IsDistinct (distinct xs)
distinct-IsDistinct [] = tt
distinct-IsDistinct (x ∷ xs) = ground (
  arith,
  contains-keep (λ y. not (x == y)) (distinct xs) x,
  eq_refl x,
  keep-IsDistinct (λ y. not (x == y)) (distinct xs) (distinct-IsDistinct xs),
)

-- With a provider selected and fallback allowed, no provider stands in the plan twice, and a name is
-- in the plan exactly when it is the selected one, or is not empty and in one of the two chains.
pub provider_plan_fallback_members :
    (e : RequestEvent) (default_chain : List String)
    → e.delivery.selected_provider ≢ ""
    → e.delivery.allow_fallback ≡ true
    → IsDistinct (provider_plan e default_chain)
      × ((name : String)
          → contains (provider_plan e default_chain) name ≡ (
              e.delivery.selected_provider == name
              || not (name == "")
                && (contains e.delivery.provider_chain name || contains default_chain name)))
provider_plan_fallback_members e default_chain h f =
    rw (provider_plan_fallback e default_chain h f) (
      distinct-IsDistinct (
          e.delivery.selected_provider
          ∷ keep is_named (e.delivery.provider_chain ++ default_chain)),
      λ name.
          contains-distinct
            (e.delivery.selected_provider
              ∷ keep is_named (e.delivery.provider_chain ++ default_chain))
            name
          ∙ ap (λ b. e.delivery.selected_provider == name || b)
              (contains-keep is_named (e.delivery.provider_chain ++ default_chain) name
                ∙ ap (λ b. not (name == "") && b)
                    (contains-append e.delivery.provider_chain default_chain name)),
    )
