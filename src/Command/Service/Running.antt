-- ===== src/Command/Service/Running.antt =====
-- The worker as cmd/main.go runs it, with the broker as the publisher of its results.
pub mod Served
use message_delivery.Prelude.{Bool, true, false, Option, some, List, [], ◌∷◌, map, String}
use message_delivery.Prelude.Fallible.{Fallible, ok, err}
use message_delivery.Config.{BrokerConfig}
use message_delivery.Delivery.Event.{RequestEvent, ResultEvent}
use message_delivery.Delivery.Orchestrator.{World, Env, Orchestrator, Publication}
use message_delivery.Broker.{Client, Event, Operation, publish_result}
use message_delivery.Worker.{Signal, Settlement, run}
use message_delivery.Worker.Once.{start}

abbrev pub succeeded {ℓ κ} : {E : Type ℓ} {A : Type κ} → Fallible E A → Bool
succeeded (ok a) = true
succeeded (err e) = false

module _ (client : Client) (marshal : Event → Option String) (cfg : BrokerConfig) where
  -- The calls that publications of results make, behind those that were made before.
  pub calls_of : List Publication → List Operation → List Operation
  calls_of [] before = before
  calls_of (p ∷ ps) before = calls_of ps (publish_result client marshal cfg p.event before).1

module _ (client : Client) (marshal : Event → Option String) (cfg : BrokerConfig)
    (past : List Operation) where
  -- The calls of the broker by the time that the worker is in a state.
  pub calls : World → List Operation
  calls w = calls_of client marshal cfg w.published past

  -- The publisher that `main` gives to `NewOrchestrator`.
  unfoldable pub broker_publisher : World → ResultEvent → Bool
  unfolding calls calls_of publish_result
  broker_publisher w result = succeeded (publish_result client marshal cfg result (calls w)).0

  abbrev pub with_broker : Env → Env
  with_broker env = record env { publisher = some broker_publisher }

  -- `worker.New(orchestrator, deliveries, logger).Run(ctx)`: the settlements, and the state at the end.
  unfoldable pub run_worker {ℓ} :
      {Body : Type ℓ}
      → Env
      → Orchestrator
      → (Body → Option RequestEvent)
      → List (Signal Body)
      → List Settlement × World
  unfolding run
  run_worker env o unmarshal signals = run (with_broker env) o unmarshal signals start
