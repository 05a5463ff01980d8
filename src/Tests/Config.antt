-- ===== src/Tests/Config.antt =====
-- Defaults and validation.
use message_delivery.Prelude.Dict
use message_delivery.Prelude.Dict.{Dict}
use message_delivery.Config.Presentation.Merging.{lookup-merge_telegram_text, or_text}
use message_delivery.Prelude.{String, ◌≡◌, ◌↔◌, refl, none, ◌∷◌, []}
use message_delivery.Config.{set_defaults, validate, merge_telegram_text}
use message_delivery.Config.Validate.Laws.{IsBrokerNamed, IsChannelled, IsReady, validate_iff}
use message_delivery.Config.Validate.Defaulted.{set_defaults-IsBrokerNamed-IsChannelled}
use message_delivery.Tests.Sample.{config}

abbrev no_env : String → String
no_env name = ""

set_defaults_runs :
    ((set_defaults config).broker.host ≡ "127.0.0.1:5672")
    × ((set_defaults config).telegram_bot.webhook_path ≡ "/bot/webhook")
    × (validate no_env (set_defaults config) ≡ none)
unfolding set_defaults validate
set_defaults_runs = (refl, refl, refl)

set_defaults-IsBrokerNamed-IsChannelled_example :
    IsBrokerNamed (set_defaults config) × IsChannelled (set_defaults config).providers
set_defaults-IsBrokerNamed-IsChannelled_example = set_defaults-IsBrokerNamed-IsChannelled config

validate_iff_example : (validate no_env config ≡ none) ↔ IsReady no_env config
validate_iff_example = validate_iff no_env config

abbrev given : Dict String
given = ("en", "Hi") ∷ ("ru", "") ∷ []

abbrev generic : Dict String
generic = ("en", "Welcome") ∷ ("ru", "Добро пожаловать") ∷ []

lookup-merge_telegram_text_example :
    Dict.lookup "ru" (merge_telegram_text given generic)
    ≡ or_text (Dict.lookup "ru" given) (Dict.lookup "ru" generic)
lookup-merge_telegram_text_example =
    lookup-merge_telegram_text "ru" given generic (refl, (refl, tt)) (refl, (refl, tt))
