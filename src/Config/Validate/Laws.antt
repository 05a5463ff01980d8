-- ===== src/Config/Validate/Laws.antt =====
-- Which configurations are valid.
use message_delivery.Prelude.{
  String, ◌≡◌, ◌≢◌, ◌↔◌, refl, true, false, none, some, Option, is_empty, arith, eq_iff, ◌==◌,
  Bool-cases, inl, inr, ◌⊎◌,
}
use message_delivery.Prelude.Dict
use message_delivery.Prelude.Text.{has_prefix}
use message_delivery.Config.Types.{Config, ProvidersConfig, ChannelConfig, AdapterConfig}
use message_delivery.Config.Adapter.{string_at, bool_at}
use message_delivery.Config.Validate.{
  validate, validate_telegram, validate_bot, or_else, Problem, validate_broker, validate_channels,
  validate_adapter,
}

-- The broker's names are all there.
pub record IsBrokerNamed (c : Config) : Type 0 where
  pub host : c.broker.host ≢ ""
  pub exchange_name : c.broker.exchange_name ≢ ""
  pub consume_queue : c.broker.consume_queue ≢ ""
  pub delivery_requested : c.broker.routing_keys.delivery_requested ≢ ""
  pub delivery_result : c.broker.routing_keys.delivery_result ≢ ""
  pub telegram_connection_requested : c.broker.routing_keys.telegram_connection_requested ≢ ""

-- Each channel that is always on allows some provider.
pub record IsChannelled (p : ProvidersConfig) : Type 0 where
  pub email : is_empty p.email.allowed_providers ≡ false
  pub phone : is_empty p.phone.allowed_providers ≡ false
  pub chain : is_empty p.phone.default_provider_chain ≡ false
  pub push : is_empty p.push.allowed_providers ≡ false

validate_broker_iff : (c : Config) → (validate_broker c ≡ none) ↔ IsBrokerNamed c
unfolding validate_broker
validate_broker_iff c = (
  λ h. ground (
    arith,
    eq_iff c.broker.host "",
    eq_iff c.broker.exchange_name "",
    eq_iff c.broker.consume_queue "",
    eq_iff c.broker.routing_keys.delivery_requested "",
    eq_iff c.broker.routing_keys.delivery_result "",
    eq_iff c.broker.routing_keys.telegram_connection_requested "",
  ),
  λ h. ground (
    arith,
    eq_iff c.broker.host "",
    eq_iff c.broker.exchange_name "",
    eq_iff c.broker.consume_queue "",
    eq_iff c.broker.routing_keys.delivery_requested "",
    eq_iff c.broker.routing_keys.delivery_result "",
    eq_iff c.broker.routing_keys.telegram_connection_requested "",
  ),
)

validate_channels_iff : (p : ProvidersConfig) → (validate_channels p ≡ none) ↔ IsChannelled p
unfolding validate_channels
validate_channels_iff p = (λ h. ground arith, λ h. ground arith)

-- An adapter that is on, and that has a bot's token where it is a bot.
pub record IsAdapterReady (getenv : String → String) (adapter : AdapterConfig) : Type 0 where
  pub enabled : bool_at "Enabled" adapter ≡ true
  pub token :
      (string_at "Kind" adapter ≢ "telegram-bot")
      ⊎ ((string_at "BotTokenEnv" adapter ≢ "") × (getenv (string_at "BotTokenEnv" adapter) ≢ ""))

pub record IsTelegramReady (getenv : String → String) (ch : ChannelConfig) : Type 0 where
  pub allowed : is_empty ch.allowed_providers ≡ false
  pub default : ch.default_provider ≢ ""
  pub adapter :
      (a : AdapterConfig) × (Dict.lookup ch.default_provider ch.adapters ≡ some a)
      × IsAdapterReady getenv a

validate_adapter_iff :
    (getenv : String → String) (name : String) (a : AdapterConfig)
    → (validate_adapter getenv name (some a) ≡ none) ↔ IsAdapterReady getenv a
unfolding validate_adapter
validate_adapter_iff getenv name a =
    let kind : String = string_at "Kind" a in
    let token : String = string_at "BotTokenEnv" a in
    (
      λ h. ground (arith, eq_iff kind "telegram-bot", eq_iff token "", eq_iff (getenv token) ""),
      λ h. ground (arith, eq_iff kind "telegram-bot", eq_iff token "", eq_iff (getenv token) ""),
    )

found_ready :
    (getenv : String → String) (name : String) (found : Option AdapterConfig)
    → (validate_adapter getenv name found ≡ none)
      ↔ ((a : AdapterConfig) × (found ≡ some a) × IsAdapterReady getenv a)
unfolding validate_adapter
found_ready getenv name none = (λ h. cc, λ (a, is, _). cc)
found_ready getenv name (some a) = (
  λ h. (a, refl, (validate_adapter_iff getenv name a).0 h),
  λ (b, is, ready).
      let same : a ≡ b = cc (is) in (validate_adapter_iff getenv name a).1 (rw same ready),
)

validate_telegram_iff :
    (getenv : String → String) (ch : ChannelConfig)
    → (validate_telegram getenv ch ≡ none) ↔ ((ch.enabled ≡ false) ⊎ IsTelegramReady getenv ch)
unfolding validate_telegram
validate_telegram_iff getenv ch =
    let ready =
      found_ready getenv ch.default_provider (Dict.lookup ch.default_provider ch.adapters) in
    (
      λ h. elim (Bool-cases ch.enabled) [
        | inr off ↦ inl off
        | inl on ↦ inr (record {
          allowed = ground arith;
          default = ground (arith, eq_iff ch.default_provider "");
          adapter = ready.0 (ground (arith, eq_iff ch.default_provider ""));
        })
      ],
      λ h. elim h [
        | inl off ↦ rw off
        | inr t ↦
            let named : (ch.default_provider == "") ≡ false =
              ground (arith, t.default, eq_iff ch.default_provider "") in
            let passed = ready.1 t.adapter in ground (arith, t.allowed, named, passed)
      ],
    )

pub record IsBotReady (getenv : String → String) (c : Config) : Type 0 where
  pub channel : c.providers.telegram.enabled ≡ true
  pub path : has_prefix c.telegram_bot.webhook_path "/" ≡ true
  pub secret_env : c.telegram_bot.webhook_secret_env ≢ ""
  pub secret : getenv c.telegram_bot.webhook_secret_env ≢ ""
  pub routing_key : c.telegram_bot.connection_routing_key ≢ ""

validate_bot_iff :
    (getenv : String → String) (c : Config)
    → (validate_bot getenv c ≡ none) ↔ ((c.telegram_bot.enabled ≡ false) ⊎ IsBotReady getenv c)
unfolding validate_bot
validate_bot_iff getenv c =
    let env : String = c.telegram_bot.webhook_secret_env in
    (
      λ h. elim (Bool-cases c.telegram_bot.enabled) [
        | inr off ↦ inl off
        | inl on ↦ inr (
            ground (
              arith,
              eq_iff env "",
              eq_iff (getenv env) "",
              eq_iff c.telegram_bot.connection_routing_key "",
            ))
      ],
      λ h. ground (
        arith,
        eq_iff env "",
        eq_iff (getenv env) "",
        eq_iff c.telegram_bot.connection_routing_key "",
      ),
    )

-- What the service needs of its configuration before it starts.
pub record IsReady (getenv : String → String) (c : Config) : Type 0 where
  pub broker : IsBrokerNamed c
  pub channels : IsChannelled c.providers
  pub telegram :
      (c.providers.telegram.enabled ≡ false) ⊎ IsTelegramReady getenv c.providers.telegram
  pub bot : (c.telegram_bot.enabled ≡ false) ⊎ IsBotReady getenv c
  pub templates : is_empty c.templates.items ≡ false

or_else-eq-none : (a b : Option Problem) → (or_else a b ≡ none) ↔ ((a ≡ none) × (b ≡ none))
or_else-eq-none none b = (λ h. (refl, h), λ h. h.1)
or_else-eq-none (some p) b = (λ h. cc, λ h. cc)

-- Validation passes exactly the configurations that are ready: the broker's names are there, each
-- channel that is always on allows a provider, Telegram has an adapter that is on with its token
-- where it is enabled, the bot has the channel, an absolute path, a secret and a routing key where
-- it is enabled, and there is a template.
pub validate_iff :
    (getenv : String → String) (c : Config) → (validate getenv c ≡ none) ↔ IsReady getenv c
unfolding validate
validate_iff getenv c =
    let broker = validate_broker_iff c in
    let channels = validate_channels_iff c.providers in
    let telegram = validate_telegram_iff getenv c.providers.telegram in
    let bot = validate_bot_iff getenv c in
    (
      λ h.
          let (b, h1) = (or_else-eq-none _ _).0 h in
          let (ch, h2) = (or_else-eq-none _ _).0 h1 in
          let (t, h3) = (or_else-eq-none _ _).0 h2 in
          let (bt, last) = (or_else-eq-none _ _).0 h3 in
          record {
            broker = broker.0 b;
            channels = channels.0 ch;
            telegram = telegram.0 t;
            bot = bot.0 bt;
            templates = ground arith;
          },
      λ r.
          rw (broker.1 r.broker, channels.1 r.channels, telegram.1 r.telegram, bot.1 r.bot)
            (ground (arith, r.templates)),
    )
