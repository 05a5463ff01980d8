-- ===== src/Command/Service/Main/Serving.antt =====
-- When the program comes to serve.
use mathlib.Core.Path.{subst}
use message_delivery.Prelude.{
  ℕ, suc, ◌+◌, String, true, false, ◌≡◌, ◌≢◌, refl, sym, Option, List, All, is_some, inl, arith,
}
use message_delivery.Prelude.Fallible.{ok}
use message_delivery.Prelude.Text.{trim_space}
use message_delivery.Config.{Config, BrokerConfig}
use message_delivery.Config.Load.{Sources, load}
use message_delivery.Config.Load.Checked.{load-IsReady-HasBrandSet}
use message_delivery.Config.Validate.Laws.{IsReady}
use message_delivery.Provider.Factory.{Services, settings}
use message_delivery.Provider.Factory.Registered.{HasBrands}
use message_delivery.Webhook.{ConnectionPublisher}
use message_delivery.Broker.{Operation, Link}
use message_delivery.Command.Service.{
  Round, Connected, connected, ConnectError, consumes, try_round, Wired, wire,
}
use message_delivery.Command.Service.Connecting.{
  EndsAt, starts, stops, goes_on, connect_broker-EndsAt,
}
use message_delivery.Command.Service.Wiring.{wire-ok}
use message_delivery.Command.Service.Main.{
  ServeMux, Flags, serves, main, after_loading, after_connecting, served, server_of, handler_of,
}

-- The rounds of one that is never cancelled can only end with a consumer.
EndsAt-connected :
    {cfg : BrokerConfig} {rounds : ℕ → Round} {n : ℕ} {ended : Connected}
    {problems : List (Option ConnectError)} {links : List Link}
    → EndsAt cfg rounds n ended problems links
    → ((k : ℕ) → (rounds k).done ≡ false)
    → (calls : List Operation) × (ended ≡ connected calls)
EndsAt-connected (starts calls consuming) running = (calls, refl)
EndsAt-connected (stops {n} problem logging done closed) running = cc (running n, done)
EndsAt-connected (goes_on problem logging paused closed later) running =
    EndsAt-connected later running

-- With a configuration that loads, whose brands are objects and whose enabled bot has a secret that
-- is not blank, the program serves as soon as one round gets a consumer, if it is not cancelled and
-- not run as a health check: at the address of the configuration, with the routes of its webhook,
-- which there is exactly if the bot is enabled.
pub main-serves :
    (mux : ServeMux) (quoted : String) (sources : Sources) (services : Services)
    (publisher : ConnectionPublisher) (status_of : String → Option ℕ) (rounds : ℕ → Round)
    (more : ℕ) (flags : Flags) (cfg : Config) (calls : List Operation)
    → services.getenv ≡ sources.getenv
    → flags.healthcheck ≡ ""
    → load sources flags.config ≡ ok cfg
    → All HasBrands (settings cfg)
    → (cfg.telegram_bot.enabled ≡ true
        → trim_space (services.getenv cfg.telegram_bot.webhook_secret_env) ≢ "")
    → ((k : ℕ) → (rounds k).done ≡ false)
    → (try_round cfg.broker (rounds more)).0 ≡ consumes calls
    → (wired : Wired) × (wire services publisher cfg ≡ ok wired)
      × (main mux quoted sources services publisher status_of rounds (suc more) flags
          ≡ serves (server_of cfg (handler_of mux quoted cfg wired.webhook)) wired)
      × (is_some wired.webhook ≡ cfg.telegram_bot.enabled)
unfolding main after_loading after_connecting served
main-serves mux quoted sources services publisher status_of rounds more flags cfg calls same_env
      no_check loaded brands secret running consuming =
    let ready : IsReady services.getenv cfg =
      subst (λ getenv. IsReady getenv cfg) (sym same_env)
        (load-IsReady-HasBrandSet sources flags.config cfg loaded).0 in
    let (wired, wiring, switched) = wire-ok services publisher cfg ready brands secret in
    let at_last : (k : ℕ) → k ≡ more → (try_round cfg.broker (rounds k)).0 ≡ consumes calls =
      λ k same. rw same consuming in
    let (reached, connecting) =
      EndsAt-connected
        (connect_broker-EndsAt cfg.broker rounds more 0
          (inl (calls, at_last (more + 0) (omega arith))))
        running in
    (wired, wiring, rw (no_check, loaded) (rw connecting (rw wiring)), switched)
