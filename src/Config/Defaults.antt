-- ===== src/Config/Defaults.antt =====
-- `setDefaults` of internal/config/config.go.
use message_delivery.Prelude.{String, ◌==◌, List, [], ◌∷◌, is_empty, if◌then◌else◌}
use message_delivery.Prelude.Int.{ℤ, pos, is_positive}
use message_delivery.Config.Types.{
  Config, BrokerConfig, BrokerRoutingKeys, ChannelConfig, PhoneConfig, ProvidersConfig,
  TelegramBotConfig,
}
use message_delivery.Config.Presentation.{with_defaults}

abbrev pub or_default : String → String → String
or_default value default = if value == "" then default else value

abbrev pub or_list : List String → List String → List String
or_list values default = if is_empty values then default else values

abbrev pub or_positive : ℤ → ℤ → ℤ
or_positive n default = if is_positive n then n else default

default_routing_keys : BrokerRoutingKeys → BrokerRoutingKeys
default_routing_keys k = record {
  delivery_requested = or_default k.delivery_requested "message.delivery.requested";
  delivery_result = or_default k.delivery_result "message.delivery.result";
  telegram_connection_requested =
      or_default k.telegram_connection_requested "notification.telegram.connection.requested";
}

default_broker : BrokerConfig → BrokerConfig
unfolding default_routing_keys
default_broker b = record b {
  host = or_default b.host "127.0.0.1:5672";
  user = or_default b.user "guest";
  exchange_name = or_default b.exchange_name "messages.events";
  exchange_kind = or_default b.exchange_kind "topic";
  consume_queue = or_default b.consume_queue "message.delivery.requests";
  prefetch_count = or_positive b.prefetch_count (pos 8);
  routing_keys = default_routing_keys b.routing_keys;
}

-- A channel allows at least its default provider.
default_channel : String → ChannelConfig → ChannelConfig
default_channel provider ch =
    let chosen : String = or_default ch.default_provider provider in
    record ch {
      default_provider = chosen;
      allowed_providers = or_list ch.allowed_providers (chosen ∷ []);
    }

default_phone : PhoneConfig → PhoneConfig
default_phone ph =
    let chain : List String = or_list ph.default_provider_chain ("telegram" ∷ "sms" ∷ []) in
    record ph {
      default_provider_chain = chain;
      allowed_providers = or_list ph.allowed_providers chain;
    }

default_providers : ProvidersConfig → ProvidersConfig
unfolding default_channel default_phone
default_providers p = record {
  email = default_channel "fake-email" p.email;
  phone = default_phone p.phone;
  push = default_channel "webpush" p.push;
  telegram = if p.telegram.enabled then default_channel "telegram-bot" p.telegram else p.telegram;
}

default_bot : String → TelegramBotConfig → TelegramBotConfig
unfolding with_defaults
default_bot routing_key t = record t {
  webhook_path = or_default t.webhook_path "/bot/webhook";
  connection_routing_key = or_default t.connection_routing_key routing_key;
  max_body_bytes = or_positive t.max_body_bytes (pos 1048576);
  publish_timeout_sec = or_positive t.publish_timeout_sec (pos 5);
  presentation = with_defaults t.presentation;
}

unfoldable pub set_defaults : Config → Config
unfolding default_broker default_providers default_bot
set_defaults c =
    let broker : BrokerConfig = default_broker c.broker in
    record c {
      port = or_default c.port "8090";
      broker = broker;
      providers = default_providers c.providers;
      telegram_bot = default_bot broker.routing_keys.telegram_connection_requested c.telegram_bot;
      templates = record c.templates {
        default_locale = or_default c.templates.default_locale "en";
      };
    }
