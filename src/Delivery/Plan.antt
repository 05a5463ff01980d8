-- ===== src/Delivery/Plan.antt =====
-- `RequestEvent.ProviderPlan` of internal/delivery/event.go.
pub mod Order
pub mod Nonempty
use message_delivery.Prelude.{
  String, List, [], ◌∷◌, ◌++◌, ◌==◌, ◌||◌, contains, is_empty, if◌then◌else◌,
}
use message_delivery.Delivery.Event.{RequestEvent}

-- The loop that extends the plan: empty names and names that were seen are left out. `seen` and
-- `plan` grow together.
unfoldable pub extend_plan : List String → List String → List String → List String
extend_plan seen plan [] = plan
extend_plan seen plan (provider ∷ providers) =
    let skip = provider == "" || contains seen provider in
    extend_plan (if skip then seen else provider ∷ seen)
      (if skip then plan else plan ++ provider ∷ []) providers

unfoldable pub provider_plan : RequestEvent → List String → List String
unfolding extend_plan
provider_plan e default_chain =
    let selected : String = e.delivery.selected_provider in
    if selected == ""
    then if is_empty e.delivery.provider_chain then default_chain else e.delivery.provider_chain
    else if e.delivery.allow_fallback
    then extend_plan (selected ∷ []) (selected ∷ []) (e.delivery.provider_chain ++ default_chain)
    else selected ∷ []
