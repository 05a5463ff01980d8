-- ===== src/Provider.antt =====
-- internal/provider/provider.go and unavailable.go: what a provider is given, what it answers, and
-- the registry that finds it by its name.
pub mod Lookup
pub mod Fake
pub mod Gateway
pub mod Webpush
pub mod TelegramBot
pub mod Email
pub mod Factory
use message_delivery.Prelude.{String, Option, none, some, List, [], ◌∷◌}
use message_delivery.Prelude.Dict
use message_delivery.Prelude.Dict.{Dict}

abbrev pub status_sent : String
status_sent = "sent"

abbrev pub status_failed : String
status_failed = "failed"

abbrev pub status_undeliverable : String
status_undeliverable = "undeliverable"

-- The text of `ErrProviderNotFound`.
abbrev pub err_provider_not_found : String
err_provider_not_found = "provider not found"

pub record Message : Type 0 where
  pub event_id : String
  pub template : String
  pub subject : String
  pub body : String
  pub content_type : String
  pub recipient_type : String
  pub recipient : String
  pub variables : Dict String
  pub metadata : Dict String

pub record Result : Type 0 where
  pub status : String
  pub error_code : String

-- One call of `Send`: the name by which the caller found the provider, the message, the answer.
pub record Attempt : Type 0 where
  pub provider : String
  pub message : Message
  pub result : Result

-- The interface `Provider`. What a provider answers may depend on whatever happens outside of the
-- program. Every call stands behind another list of earlier calls, so a function of that list
-- gives any sequence of answers.
pub record Provider : Type 0 where
  pub name : String
  pub send : List Attempt → Message → Result

pub record Registry : Type 0 where
  pub providers : Dict Provider

-- A nil provider is not registered.
unfoldable pub register : Option Provider → Registry → Registry
register none r = r
register (some p) r = record { providers = Dict.insert p.name p r.providers }

register_all : List (Option Provider) → Registry → Registry
register_all [] r = r
register_all (p ∷ ps) r = register_all ps (register p r)

unfoldable pub new_registry : List (Option Provider) → Registry
unfolding register_all register
new_registry ps = register_all ps (record { providers = [] })

unfoldable pub get : String → Registry → Option Provider
get name r = Dict.lookup name r.providers

-- A provider that is configured off: `NewUnavailable` and its methods.
unfoldable pub new_unavailable : String → String → Provider
new_unavailable name error_code = record {
  name = name;
  send = λ past msg. record { status = status_undeliverable; error_code = error_code };
}
