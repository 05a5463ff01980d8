-- ===== src/Command/Service/Wiring.antt =====
-- What `main` makes of a configuration that is ready.
use mathlib.Core.Option
use message_delivery.Prelude.{
  String, Bool, Bool-cases, inl, inr, true, false, ◌==◌, eq_iff, ◌≡◌, ◌≢◌, refl, sym, ap, ◌∙◌,
  Option, none, some, List, [], ◌∷◌, ◌++◌, All, arith, is_some,
}
use message_delivery.Prelude.Fallible.{ok}
use message_delivery.Prelude.Dict
use message_delivery.Prelude.Dict.{Dict}
use message_delivery.Prelude.Text.{trim_space}
use message_delivery.Config.{Config, AdapterConfig, TelegramBotPresentation}
use message_delivery.Config.Validate.Laws.{IsReady, IsBotReady, IsTelegramReady}
use message_delivery.Provider.{Provider, get}
use message_delivery.Provider.Factory.{
  Services, Setting, of_channel, settings, build, new_registry_from_config, no_presentation,
}
use message_delivery.Provider.Factory.Registered.{
  HasBrands, last_setting, get-new_registry_from_config,
}
use message_delivery.Webhook.{ConnectionPublisher, WebhookHandler, new_webhook_handler}
use message_delivery.Command.Service.{Wired, orchestrator_of, webhook_of, wire, webhook_if, wired}

last_setting-append :
    (name : String) (xs ys : List Setting) (found : Option Setting)
    → last_setting name (xs ++ ys) found ≡ last_setting name ys (last_setting name xs found)
last_setting-append name [] ys found = refl
last_setting-append name (x ∷ xs) ys found = last_setting-append name xs ys _

-- What was found stays found, perhaps replaced.
last_setting_kept :
    (name : String) (xs : List Setting) (x : Setting)
    → (y : Setting) × (last_setting name xs (some x) ≡ some y)
last_setting_kept name [] x = (x, refl)
last_setting_kept name (z ∷ zs) x = elim (Bool-cases (z.name == name)) [
  | inl same ↦ rw same (last_setting_kept name zs z)
  | inr other ↦ rw other (last_setting_kept name zs x)
]

-- An adapter of a channel is found, whatever was found before.
last_setting-of_channel :
    (recipient_type : String) (presentation : TelegramBotPresentation) (name : String)
    (adapters : Dict AdapterConfig) (adapter : AdapterConfig) (found : Option Setting)
    → Dict.lookup name adapters ≡ some adapter
    → (x : Setting) × (last_setting name (of_channel recipient_type presentation adapters) found
        ≡ some x)
unfolding Dict.lookup
last_setting-of_channel recipient_type presentation name [] adapter found h = cc (h)
last_setting-of_channel recipient_type presentation name ((key, a) ∷ adapters) adapter found h =
    elim (Bool-cases (key == name)) [
      | inl same ↦
          rw (same, last_setting)
            (last_setting_kept name (of_channel recipient_type presentation adapters) _)
      | inr other ↦
          rw (other, last_setting)
            (last_setting-of_channel recipient_type presentation name adapters adapter found
              (rw (other, Dict.lookup) at h))
    ]

telegram_found :
    (cfg : Config) (name : String) (adapter : AdapterConfig)
    → Dict.lookup name cfg.providers.telegram.adapters ≡ some adapter
    → (x : Setting) × (last_setting name (settings cfg) none ≡ some x)
unfolding settings
telegram_found cfg name adapter h =
    let email : List Setting = of_channel "email" no_presentation cfg.providers.email.adapters in
    let phone : List Setting = of_channel "phone" no_presentation cfg.providers.phone.adapters in
    let push : List Setting = of_channel "push" no_presentation cfg.providers.push.adapters in
    let presentation : TelegramBotPresentation = cfg.telegram_bot.presentation in
    let telegram : List Setting =
      of_channel "telegram" presentation cfg.providers.telegram.adapters in
    let before : Option Setting =
      last_setting name push (last_setting name phone (last_setting name email none)) in
    let split : last_setting name (email ++ phone ++ push ++ telegram) none
        ≡ last_setting name telegram before =
      simp (last_setting-append) in
    let (x, found) =
      last_setting-of_channel "telegram" presentation name cfg.providers.telegram.adapters adapter
        before h in
    (x, split ∙ found)

-- With a secret that is not blank the webhook is made.
webhook_of-ok :
    (s : Services) (publisher : ConnectionPublisher) (cfg : Config) (welcome : Provider)
    → cfg.telegram_bot.enabled ≡ true
    → trim_space (s.getenv cfg.telegram_bot.webhook_secret_env) ≢ ""
    → (handler : WebhookHandler) × (webhook_of s publisher cfg (some welcome) ≡ ok (some handler))
unfolding webhook_of new_webhook_handler
webhook_of-ok s publisher cfg welcome on secret =
    let env : String = cfg.telegram_bot.webhook_secret_env in
    let named : (trim_space (s.getenv env) == "") ≡ false =
      ground (arith, eq_iff (trim_space (s.getenv env)) "") in
    rw (on, named) (_, refl)

-- The provider under the default name of Telegram.
welcome_found :
    (s : Services) (cfg : Config)
    → All HasBrands (settings cfg)
    → IsTelegramReady s.getenv cfg.providers.telegram
    → (welcome : Provider) × (get cfg.providers.telegram.default_provider
          (new_registry_from_config s cfg)
        ≡ some welcome)
welcome_found s cfg brands ready =
    let (adapter, has_adapter, _) = ready.adapter in
    let name : String = cfg.providers.telegram.default_provider in
    let (x, found) = telegram_found cfg name adapter has_adapter in
    (build s x, get-new_registry_from_config s cfg name brands ∙ ap (Option.map (build s)) found)

telegram_ready :
    (s : Services) (cfg : Config)
    → IsReady s.getenv cfg
    → IsBotReady s.getenv cfg
    → IsTelegramReady s.getenv cfg.providers.telegram
telegram_ready s cfg ready bot = elim (ready.telegram) [
  | inl off ↦ cc (sym off ∙ bot.channel)
  | inr telegram ↦ telegram
]

webhook_if-ok :
    (enabled : Bool) (s : Services) (publisher : ConnectionPublisher) (cfg : Config)
    (found : Option Provider)
    → (enabled ≡ true
        → (handler : WebhookHandler) × (webhook_of s publisher cfg found ≡ ok (some handler)))
    → (webhook : Option WebhookHandler) × (webhook_if enabled s publisher cfg found ≡ ok webhook)
      × (is_some webhook ≡ enabled)
unfolding webhook_if
webhook_if-ok false s publisher cfg found made = (none, refl, refl)
webhook_if-ok true s publisher cfg found made =
    let (handler, is_made) = made refl in (some handler, is_made, refl)

-- Where the bot is enabled, its handler is made with the provider that is found.
handler_made :
    (s : Services) (publisher : ConnectionPublisher) (cfg : Config)
    → IsReady s.getenv cfg
    → All HasBrands (settings cfg)
    → cfg.telegram_bot.enabled ≡ true
    → trim_space (s.getenv cfg.telegram_bot.webhook_secret_env) ≢ ""
    → (handler : WebhookHandler) × (webhook_of s publisher cfg
          (get cfg.providers.telegram.default_provider (new_registry_from_config s cfg))
        ≡ ok (some handler))
handler_made s publisher cfg ready brands on secret = elim (ready.bot) [
  | inl off ↦ cc (sym off ∙ on)
  | inr bot ↦
      let (welcome, found) = welcome_found s cfg brands (telegram_ready s cfg ready bot) in
      let (handler, made) = webhook_of-ok s publisher cfg welcome on secret in
      (handler, ap (webhook_of s publisher cfg) found ∙ made)
]

-- A configuration that is ready, and in which the brands of each adapter are objects, is made into
-- the service without an error, and with a webhook exactly if the bot is enabled, provided that the
-- secret of an enabled bot is not blank.
pub wire-ok :
    (s : Services) (publisher : ConnectionPublisher) (cfg : Config)
    → IsReady s.getenv cfg
    → All HasBrands (settings cfg)
    → (cfg.telegram_bot.enabled ≡ true
        → trim_space (s.getenv cfg.telegram_bot.webhook_secret_env) ≢ "")
    → (w : Wired) × (wire s publisher cfg ≡ ok w) × (is_some w.webhook ≡ cfg.telegram_bot.enabled)
unfolding wire orchestrator_of
wire-ok s publisher cfg ready brands secret =
    let found : Option Provider =
      get cfg.providers.telegram.default_provider (new_registry_from_config s cfg) in
    let (webhook, made, switched) =
      webhook_if-ok cfg.telegram_bot.enabled s publisher cfg found
        (λ on. handler_made s publisher cfg ready brands on (secret on)) in
    (
      record { orchestrator = orchestrator_of s cfg; webhook = webhook },
      ap (wired (orchestrator_of s cfg)) made,
      switched,
    )
