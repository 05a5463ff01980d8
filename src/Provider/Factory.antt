-- ===== src/Provider/Factory.antt =====
-- internal/provider/factory/factory.go: the providers of a configuration.
pub mod Registered
use message_delivery.Prelude.{
  ℕ, ◌*◌, ◌-◌, ◌%◌, ◌^◌, String, not, ◌||◌, ◌==◌, some, List, [], ◌∷◌, ◌++◌, ltb, if◌then◌else◌,
}
use Prim.Native.String.{◌++◌ as ◌<>◌}
use message_delivery.Prelude.Int.{ℤ, pos, negsuc, is_positive}
use message_delivery.Prelude.Fallible.{Fallible, ok, err, ◌>>=◌}
use message_delivery.Prelude.Dict
use message_delivery.Prelude.Dict.{Dict}
use message_delivery.Config.{
  Config, TelegramBotPresentation, AdapterConfig, end, field, Value, obj, value_at, string_at,
  bool_at, int_at, env_string_at,
}
use message_delivery.Provider.{
  Provider, Registry, new_unavailable, new_registry, register, status_sent,
}
use message_delivery.Provider.Fake
use message_delivery.Provider.Gateway.{Transport, new_gateway, gateway}
use message_delivery.Provider.Webpush.{Push, new_webpush, webpush}
use message_delivery.Provider.TelegramBot.{BotTransport, new_telegram_bot, telegram_bot}
use message_delivery.Provider.Email.{MailTransport, new_smtp, with_html_layout, with_brands, smtp}
use message_delivery.Provider.Email.Message.{Brand}

-- What the providers use of the outside, with `os.Getenv`.
pub record Services : Type 0 where
  pub getenv : String → String
  pub gateway : Transport
  pub push : Push
  pub bot : BotTransport
  pub mail : MailTransport

-- A product in 64 bits.
abbrev wrap64 : ℕ → ℤ
wrap64 n = let r = n % 2 ^ 64 in if ltb r (2 ^ 63) then pos r else negsuc (2 ^ 64 - r - 1)

abbrev seconds_or : ℤ → ℤ → ℤ
seconds_or fallback (pos n) = if is_positive (pos n) then wrap64 (n * 1000000000) else fallback
seconds_or fallback (negsuc n) = fallback

-- Times are in nanoseconds.
unfoldable pub timeout : AdapterConfig → ℤ → ℤ
unfolding int_at
timeout adapter fallback = seconds_or fallback (int_at "TimeoutSec" adapter)

abbrev brand_of : AdapterConfig → Brand
brand_of b = record {
  from = string_at "From" b;
  layout = string_at "HTMLLayout" b;
  logo_file = string_at "LogoFile" b;
}

-- The brands of an object; the error is the name of a brand that is no object.
unfoldable pub brands_from : AdapterConfig → Fallible String (Dict Brand)
unfolding string_at
brands_from end = ok []
brands_from (field name (obj object) rest) = do
  brands ← brands_from rest
  ok ((name, brand_of object) ∷ brands)
brands_from (field name _ rest) = err name

abbrev brands_in : Value → Fallible String (Dict Brand)
brands_in (obj values) = brands_from values
brands_in _ = ok []

unfoldable pub brands_of : AdapterConfig → Fallible String (Dict Brand)
unfolding value_at brands_from
brands_of adapter = brands_in (value_at "Brands" adapter)

abbrev sender_of : Services → AdapterConfig → String
sender_of s adapter =
    if string_at "From" adapter == ""
    then env_string_at s.getenv "FromEnv" adapter
    else string_at "From" adapter

-- In the loop over the brands their names hide the name of the adapter, so an invalid brand gives
-- its own name to the provider.
unfoldable pub build_smtp :
    Services → String → AdapterConfig → Fallible String (Dict Brand) → Provider
unfolding string_at int_at env_string_at timeout new_smtp with_html_layout with_brands smtp
    new_unavailable
build_smtp s name adapter (err brand) = new_unavailable brand "email_brand_invalid"
build_smtp s name adapter (ok brands) = smtp s.mail (
    with_brands (string_at "DefaultBrand" adapter) brands (
      with_html_layout (string_at "HTMLLayout" adapter) (
        new_smtp name (string_at "Host" adapter) (int_at "Port" adapter)
          (string_at "AuthHost" adapter) (env_string_at s.getenv "UsernameEnv" adapter)
          (env_string_at s.getenv "PasswordEnv" adapter) (sender_of s adapter)
          (string_at "Security" adapter) (timeout adapter (pos 15000000000))
          (string_at "AuthMethod" adapter))))

unfoldable pub build_fake : String → String → Provider
unfolding Fake.new Fake.send
build_fake name status =
    let p = Fake.new name (if status == "" then status_sent else status) in
    record { name = p.name; send = λ past msg. (Fake.send msg p).0 }

unfoldable pub build_unset : String → String → Provider
unfolding new_unavailable
build_unset name recipient_type =
    if recipient_type == "phone" || recipient_type == "push" || recipient_type == "telegram"
    then new_unavailable name (name <> "_not_configured")
    else new_unavailable name "provider_not_configured"

-- The provider of a kind.
unfoldable pub build_kind :
    Services → String → AdapterConfig → String → TelegramBotPresentation → String → Provider
unfolding build_fake build_smtp brands_of build_unset string_at env_string_at timeout new_gateway
    gateway new_webpush webpush new_telegram_bot telegram_bot new_unavailable
build_kind s name adapter recipient_type presentation kind =
    if kind == "fake"
    then build_fake name (string_at "Status" adapter)
    else if kind == "smtp"
    then build_smtp s name adapter (brands_of adapter)
    else if kind == "telegram-gateway"
    then gateway s.gateway (
        new_gateway name (string_at "BaseURL" adapter)
          (env_string_at s.getenv "ApiTokenEnv" adapter) (timeout adapter (pos 10000000000)))
    else if kind == "webpush"
    then webpush s.push (
        new_webpush name (env_string_at s.getenv "VAPIDPublicKeyEnv" adapter)
          (env_string_at s.getenv "VAPIDPrivateKeyEnv" adapter)
          (string_at "VAPIDSubscriber" adapter) (timeout adapter (pos 10000000000)))
    else if kind == "telegram-bot"
    then telegram_bot s.bot (
        new_telegram_bot name (string_at "BaseURL" adapter)
          (env_string_at s.getenv "BotTokenEnv" adapter) (string_at "PublicBaseURL" adapter)
          (timeout adapter (pos 10000000000)) presentation)
    else if kind == ""
    then build_unset name recipient_type
    else new_unavailable name "provider_kind_unsupported"

-- `buildProvider`
unfoldable pub build_provider :
    Services → String → AdapterConfig → String → TelegramBotPresentation → Provider
unfolding build_kind bool_at string_at new_unavailable
build_provider s name adapter recipient_type presentation =
    if not (bool_at "Enabled" adapter)
    then new_unavailable name "provider_disabled"
    else build_kind s name adapter recipient_type presentation (string_at "Kind" adapter)

-- One call of `buildProvider`.
pub record Setting : Type 0 where
  pub name : String
  pub adapter : AdapterConfig
  pub recipient_type : String
  pub presentation : TelegramBotPresentation

abbrev pub no_presentation : TelegramBotPresentation
no_presentation = record {
  start_title = [];
  start_body = [];
  welcome_title = [];
  welcome_body = [];
  notification_fallback_title = [];
  notification_footer = [];
  open_action_label = [];
}

abbrev pub of_channel : String → TelegramBotPresentation → Dict AdapterConfig → List Setting
of_channel recipient_type presentation [] = []
of_channel recipient_type presentation ((name, adapter) ∷ adapters) =
    (record {
      name = name;
      adapter = adapter;
      recipient_type = recipient_type;
      presentation = presentation;
    })
    ∷ of_channel recipient_type presentation adapters

-- The calls, in order.
unfoldable pub settings : Config → List Setting
settings cfg =
    of_channel "email" no_presentation cfg.providers.email.adapters
    ++ of_channel "phone" no_presentation cfg.providers.phone.adapters
    ++ of_channel "push" no_presentation cfg.providers.push.adapters
    ++ of_channel "telegram" cfg.telegram_bot.presentation cfg.providers.telegram.adapters

abbrev pub build : Services → Setting → Provider
build s x = build_provider s x.name x.adapter x.recipient_type x.presentation

unfoldable pub register_built : Services → List Setting → Registry → Registry
unfolding build_provider register
register_built s [] r = r
register_built s (x ∷ xs) r = register_built s xs (register (some (build s x)) r)

-- `NewRegistryFromConfig`
unfoldable pub new_registry_from_config : Services → Config → Registry
unfolding settings register_built new_registry
new_registry_from_config s cfg = register_built s (settings cfg) (new_registry [])
