-- ===== src/Tests/Service.antt =====
-- A configuration that is loaded and made into the service.
use mathlib.Core.Option
use message_delivery.Prelude.{
  ℕ, suc, ◌+◌, String, true, false, ◌≡◌, ◌≢◌, inl, refl, none, some, [], ◌∷◌, ◌==◌, All,
  if◌then◌else◌, eqb, ◌||◌,
}
use message_delivery.Prelude.Fallible.{Fallible, ok, err}
use message_delivery.Prelude.Dict
use message_delivery.Prelude.Text.{trim_space}
use message_delivery.Prelude.Text.{has_prefix}
use message_delivery.Broker
use message_delivery.Broker.{call, then_close, or_close}
use message_delivery.Config.{
  bool_at, Config, AdapterConfig, end, field, bool, str, obj, validate, string_at,
}
use message_delivery.Config.Validate.Laws.{IsReady, validate_iff}
use message_delivery.Config.Load.{LoadError, Sources, load, located}
use message_delivery.Config.Load.Checked.{AdapterHasBrandSet, load-IsReady-HasBrandSet}
use message_delivery.Provider.{get}
use message_delivery.Provider.Factory.{
  Services, settings, build, brands_of, new_registry_from_config,
}
use message_delivery.Provider.Factory.Registered.{
  HasBrands, last_setting, get-new_registry_from_config,
}
use message_delivery.Provider.Webpush as Pushes
use message_delivery.Provider.TelegramBot as Bots
use message_delivery.Provider.Email as Emails
use message_delivery.Webhook.{ConnectionPublisher}
use message_delivery.Command.Service.{Round, connect_broker, try_round}
use message_delivery.Command.Service.Connecting.{EndsAt, IsLast, connect_broker-EndsAt}
use message_delivery.Tests.Sample.{config, channel}
use message_delivery.Tests.Broker.{broker, willing_client}
use message_delivery.Tests.Bot.{parsers, bot_config}
use message_delivery.Tests.Email.{sources}

abbrev pub brand : AdapterConfig
brand =
    field "From" (str "a@b.example")
      (field "HTMLLayoutFile" (str "l.html") (field "LogoFile" (str "/logo.png") end))

abbrev pub smtp_adapter : AdapterConfig
smtp_adapter = field "Enabled" (bool true) (
    field "Kind" (str "smtp")
      (field "DefaultBrand" (str "x") (field "Brands" (obj (field "x" (obj brand) end)) end)))

abbrev pub bot_adapter : AdapterConfig
bot_adapter =
    field "Enabled" (bool true)
      (field "Kind" (str "telegram-bot") (field "BotTokenEnv" (str "TOKEN") end))

-- With e-mail under a brand, and the bot.
abbrev pub decoded : Config
decoded = record config {
  broker = broker;
  providers = record config.providers {
    email = record (channel "smtp" ("smtp" ∷ [])) { adapters = ("smtp", smtp_adapter) ∷ [] };
    telegram = record (channel "bot" ("bot" ∷ [])) {
      enabled = true;
      adapters = ("bot", bot_adapter) ∷ [];
    };
  };
  telegram_bot = bot_config;
}

abbrev pub getenv : String → String
getenv name = if name == "TOKEN" || name == "SECRET" then "s3cret" else ""

abbrev pub config_sources : Sources
config_sources = record {
  read_file = λ path. some "{{body}} {{footer}}";
  getenv = getenv;
  decode = λ text. some decoded;
  is_address = λ text. true;
  amqp_url = λ user password host. host;
}

abbrev pub loaded_or : Fallible LoadError Config → Config
loaded_or (ok c) = c
loaded_or (err e) = config

abbrev pub loaded : Config
loaded = loaded_or (load config_sources "/etc/md/config.json")

pub is_loaded : load config_sources "/etc/md/config.json" ≡ ok loaded
unfolding load Dict.lookup bool_at
is_loaded = refl

load-IsReady-HasBrandSet_example :
    IsReady getenv loaded × All (AdapterHasBrandSet config_sources) loaded.providers.email.adapters
load-IsReady-HasBrandSet_example =
    load-IsReady-HasBrandSet config_sources "/etc/md/config.json" loaded is_loaded

located_runs : located "/srv/t" "../l.html" ≡ "/srv/l.html"
unfolding located
located_runs = refl

abbrev pub services : Services
services = record {
  getenv = getenv;
  gateway = record {
    marshal = λ payload. some payload.code;
    is_url = λ url. true;
    exchange = λ past timeout request. none;
  };
  push = record {
    parse = λ raw. none;
    marshal = λ payload. none;
    notify = λ past notification. Pushes.status_code 201;
  };
  bot = record {
    parsers = parsers;
    marshal = λ request. some request.text;
    is_url = λ url. true;
    exchange = λ past timeout url body. Bots.no_response true;
  };
  mail = record {
    sources = λ past. sources;
    dial_and_send = λ past timeout dialer mail. Emails.timed_out;
  };
}

brands_named : All HasBrands (settings decoded)
unfolding settings brands_of
brands_named = ((_, refl), ((_, refl), tt))

get-new_registry_from_config_example :
    get "bot" (new_registry_from_config services decoded)
    ≡ Option.map (build services) (last_setting "bot" (settings decoded) none)
get-new_registry_from_config_example =
    get-new_registry_from_config services decoded "bot" brands_named

abbrev pub publisher : ConnectionPublisher
publisher t event = true

decoded-IsReady : IsReady getenv decoded
unfolding validate Dict.lookup bool_at string_at has_prefix
decoded-IsReady = (validate_iff getenv decoded).0 refl

secret_there :
    decoded.telegram_bot.enabled ≡ true
    → trim_space (getenv decoded.telegram_bot.webhook_secret_env) ≢ ""
unfolding trim_space
secret_there _ h = cc (h)

-- The broker is there in the third round.
abbrev pub rounds : ℕ → Round
rounds n = record { connects = eqb n 2; client = willing_client; done = false }

third-IsLast : IsLast broker (rounds (2 + 0))
unfolding try_round Broker.connect Broker.close call then_close or_close
third-IsLast = inl (_, refl)

connect_broker-EndsAt_example :
    EndsAt broker rounds 0
      (connect_broker broker rounds (suc 2) 0).0
      (connect_broker broker rounds (suc 2) 0).1.0
      (connect_broker broker rounds (suc 2) 0).1.1
connect_broker-EndsAt_example = connect_broker-EndsAt broker rounds 2 0 third-IsLast
