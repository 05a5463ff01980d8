-- ===== src/Config/Validate/Defaulted.antt =====
-- A configuration after `setDefaults`.
use message_delivery.Prelude.{
  String, ◌≡◌, ◌↔◌, refl, false, none, is_empty, arith, eq_iff, inl, ◌≢◌, ◌==◌, All, List, [], ◌∷◌,
}
use message_delivery.Config.Types.{Config}
use message_delivery.Config.Defaults.{set_defaults, or_default, or_list}
use message_delivery.Config.Validate.{validate}
use message_delivery.Config.Validate.Laws.{IsBrokerNamed, IsChannelled, validate_iff}

pub or_default-ne :
    (value default : String) → (default == "") ≡ false → or_default value default ≢ ""
or_default-ne value default h = ground (arith, eq_iff value "", eq_iff default "")

pub or_list-All :
    (P : String → Type 0) (values default : List String)
    → All P values
    → All P default
    → All P (or_list values default)
or_list-All P [] default _ h = h
or_list-All P (value ∷ values) default h _ = h

-- After the defaults are set, whatever the configuration file held or left out, the broker has all
-- of its names and each channel that is always on allows a provider.
pub set_defaults-IsBrokerNamed-IsChannelled :
    (c : Config) → IsBrokerNamed (set_defaults c) × IsChannelled (set_defaults c).providers
unfolding set_defaults
set_defaults-IsBrokerNamed-IsChannelled c = (
  record {
    host = or_default-ne c.broker.host _ refl;
    exchange_name = or_default-ne c.broker.exchange_name _ refl;
    consume_queue = or_default-ne c.broker.consume_queue _ refl;
    delivery_requested = or_default-ne c.broker.routing_keys.delivery_requested _ refl;
    delivery_result = or_default-ne c.broker.routing_keys.delivery_result _ refl;
    telegram_connection_requested =
        or_default-ne c.broker.routing_keys.telegram_connection_requested _ refl;
  },
  record { email = ground arith; phone = ground arith; chain = ground arith; push = ground arith },
)

-- With Telegram and its bot off, a configuration is valid after the defaults exactly if it has a
-- template, whatever the environment.
pub validate-set_defaults :
    (getenv : String → String) (c : Config)
    → c.providers.telegram.enabled ≡ false
    → c.telegram_bot.enabled ≡ false
    → (validate getenv (set_defaults c) ≡ none) ↔ (is_empty c.templates.items ≡ false)
unfolding set_defaults
validate-set_defaults getenv c off bot_off =
    let (broker, channels) = set_defaults-IsBrokerNamed-IsChannelled c in
    (
      λ h. ((validate_iff getenv (set_defaults c)).0 h).templates,
      λ h. (validate_iff getenv (set_defaults c)).1 (record {
        broker = broker;
        channels = channels;
        telegram = inl (rw off);
        bot = inl bot_off;
        templates = h;
      }),
    )
