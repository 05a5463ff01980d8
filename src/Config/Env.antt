-- ===== src/Config/Env.antt =====
-- `applyEnv` of internal/config/config.go: the overrides that the environment makes.
use message_delivery.Prelude.{String, ◌==◌, if◌then◌else◌}
use message_delivery.Prelude.Int.{ℤ}
use message_delivery.Prelude.Text.{Parsed, number, atoi}
use message_delivery.Config.Types.{Config, BrokerConfig}

-- An unset or empty variable leaves the old value.
abbrev pub override : String → String → String
override value old = if value == "" then old else value

abbrev parsed_or : ℤ → Parsed → ℤ
parsed_or old (number n) = n
parsed_or old _ = old

env_broker : (String → String) → BrokerConfig → BrokerConfig
unfolding atoi
env_broker getenv b =
    let named =
      if b.password_env == "" then b.password else override (getenv b.password_env) b.password in
    record b {
      host = override (getenv "MESSAGE_DELIVERY_BROKER_HOST") b.host;
      user = override (getenv "MESSAGE_DELIVERY_BROKER_USER") b.user;
      password = override (getenv "MESSAGE_DELIVERY_BROKER_PASSWORD") named;
      prefetch_count =
          parsed_or b.prefetch_count (atoi (getenv "MESSAGE_DELIVERY_BROKER_PREFETCH"));
    }

unfoldable pub apply_env : (String → String) → Config → Config
unfolding env_broker
apply_env getenv c = record c {
  host = override (getenv "MESSAGE_DELIVERY_HOST") c.host;
  port = override (getenv "MESSAGE_DELIVERY_PORT") c.port;
  broker = env_broker getenv c.broker;
}
