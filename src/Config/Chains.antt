-- ===== src/Config/Chains.antt =====
-- `AllowedProvider` and `DefaultProviderChain` of internal/config/config.go.
use message_delivery.Prelude.{String, Bool, List, [], ◌∷◌, ◌==◌, contains, if◌then◌else◌}
use message_delivery.Config.Types.{Config}

-- The list of the channel; an unknown recipient type has no channel, and so no provider.
channel_allowed : Config → String → List String
channel_allowed c recipient_type =
    if recipient_type == "email"
    then c.providers.email.allowed_providers
    else if recipient_type == "phone"
    then c.providers.phone.allowed_providers
    else if recipient_type == "push"
    then c.providers.push.allowed_providers
    else if recipient_type == "telegram"
    then c.providers.telegram.allowed_providers
    else []

unfoldable pub allowed_provider : Config → String → String → Bool
unfolding channel_allowed
allowed_provider c recipient_type provider = contains (channel_allowed c recipient_type) provider

unfoldable pub default_provider_chain : Config → String → List String
default_provider_chain c recipient_type =
    if recipient_type == "email"
    then c.providers.email.default_provider ∷ []
    else if recipient_type == "phone"
    then c.providers.phone.default_provider_chain
    else if recipient_type == "push"
    then c.providers.push.default_provider ∷ []
    else if recipient_type == "telegram"
    then c.providers.telegram.default_provider ∷ []
    else []
