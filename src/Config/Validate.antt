-- ===== src/Config/Validate.antt =====
-- `Validate` of internal/config/config.go: the first check that fails, or none.
pub mod Laws
pub mod Defaulted
use message_delivery.Prelude.{
  String, Bool, not, ◌||◌, ◌&&◌, Option, none, some, ◌==◌, is_empty, if◌then◌else◌,
}
use message_delivery.Prelude.Dict
use message_delivery.Prelude.Dict.{Dict}
use message_delivery.Prelude.Text.{has_prefix}
use message_delivery.Config.Types.{Config, ProvidersConfig, ChannelConfig, AdapterConfig}
use message_delivery.Config.Adapter.{string_at, bool_at}

pub data Problem : Type 0 where
  broker_host exchange_name consume_queue : Problem
  delivery_requested delivery_result telegram_connection_requested : Problem
  email_allowed phone_allowed phone_chain push_allowed telegram_allowed : Problem
  telegram_default : Problem
  telegram_adapter telegram_token : String → Problem
  bot_without_channel webhook_path webhook_secret connection_routing_key : Problem
  no_templates : Problem

-- The enabled adapter of Telegram, and the token that a bot needs.
validate_adapter : (String → String) → String → Option AdapterConfig → Option Problem
validate_adapter getenv name none = some (telegram_adapter name)
validate_adapter getenv name (some adapter) =
    let token_env : String = string_at "BotTokenEnv" adapter in
    if not (bool_at "Enabled" adapter)
    then some (telegram_adapter name)
    else if string_at "Kind" adapter == "telegram-bot"
        && (token_env == "" || getenv token_env == "")
    then some (telegram_token name)
    else none

validate_telegram : (String → String) → ChannelConfig → Option Problem
unfolding validate_adapter
validate_telegram getenv ch =
    if not ch.enabled
    then none
    else if is_empty ch.allowed_providers
    then some telegram_allowed
    else if ch.default_provider == ""
    then some telegram_default
    else validate_adapter getenv ch.default_provider (Dict.lookup ch.default_provider ch.adapters)

validate_bot : (String → String) → Config → Option Problem
validate_bot getenv c =
    let bot = c.telegram_bot in
    if not bot.enabled
    then none
    else if not c.providers.telegram.enabled
    then some bot_without_channel
    else if not (has_prefix bot.webhook_path "/")
    then some webhook_path
    else if bot.webhook_secret_env == "" || getenv bot.webhook_secret_env == ""
    then some webhook_secret
    else if bot.connection_routing_key == ""
    then some connection_routing_key
    else none

abbrev pub or_else : Option Problem → Option Problem → Option Problem
or_else none second = second
or_else (some p) second = some p

validate_broker : Config → Option Problem
validate_broker c =
    if c.broker.host == ""
    then some broker_host
    else if c.broker.exchange_name == ""
    then some exchange_name
    else if c.broker.consume_queue == ""
    then some consume_queue
    else if c.broker.routing_keys.delivery_requested == ""
    then some delivery_requested
    else if c.broker.routing_keys.delivery_result == ""
    then some delivery_result
    else if c.broker.routing_keys.telegram_connection_requested == ""
    then some telegram_connection_requested
    else none

validate_channels : ProvidersConfig → Option Problem
validate_channels p =
    if is_empty p.email.allowed_providers
    then some email_allowed
    else if is_empty p.phone.allowed_providers
    then some phone_allowed
    else if is_empty p.phone.default_provider_chain
    then some phone_chain
    else if is_empty p.push.allowed_providers
    then some push_allowed
    else none

abbrev validate_templates : Config → Option Problem
validate_templates c = if is_empty c.templates.items then some no_templates else none

unfoldable pub validate : (String → String) → Config → Option Problem
unfolding validate_broker validate_channels validate_telegram validate_bot
validate getenv c = or_else (validate_broker c) (
    or_else (validate_channels c.providers) (
      or_else (validate_telegram getenv c.providers.telegram)
        (or_else (validate_bot getenv c) (validate_templates c))))
