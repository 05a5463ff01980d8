-- ===== src/Command/Service/Together.antt =====
-- The server and the worker that cmd/main.go starts side by side, with one broker for both. A
-- delivery and a request to the webhook are each handled in one step, in the order in which they come.
pub mod Relayed
pub mod Handled
use message_delivery.Prelude.{Option, some, List, [], ◌∷◌, String}
use message_delivery.Prelude.Int.{ℤ}
use message_delivery.Config.{BrokerConfig}
use message_delivery.Delivery.Event.{RequestEvent, TelegramConnectionRequestedEvent}
use message_delivery.Delivery.Orchestrator.{World, Env, Orchestrator}
use message_delivery.Broker.{Client, Event, Operation, publish_telegram_connection}
use message_delivery.Webhook.{
  ConnectionPublisher, Traffic, WebhookHandler, WebhookRequest, Response, serve_http,
}
use message_delivery.Webhook.Connection.{Update, Outside}
use message_delivery.Worker.{Settlement, handle_delivery}
use message_delivery.Command.Service.Running.{calls, with_broker, succeeded}

module _ (client : Client) (marshal : Event → Option String) (cfg : BrokerConfig) where
  -- The calls that publications of connections make, behind those that were made before.
  pub connection_calls : List TelegramConnectionRequestedEvent → List Operation → List Operation
  connection_calls [] past = past
  connection_calls (event ∷ events) past =
      connection_calls events (publish_telegram_connection client marshal cfg event past).1

  -- The publisher that `main` gives to `NewWebhookHandler`.
  unfoldable pub broker_connections : List Operation → ConnectionPublisher
  unfolding connection_calls publish_telegram_connection
  broker_connections past t event =
      succeeded
        (publish_telegram_connection client marshal cfg event (connection_calls t.published past)).0

  abbrev pub with_connections : List Operation → WebhookHandler → WebhookHandler
  with_connections past handler = record handler { publisher = broker_connections past }

-- What comes to the service.
pub data Incoming {ℓ} (Body : Type ℓ) : Type ℓ where
  delivered : Body → Incoming Body
  requested : WebhookRequest Body → Incoming Body

pub data Reply : Type 0 where
  settled : Settlement → Reply
  answered : Response → Reply

-- The state of the orchestrator and of the webhook, and the calls of the broker so far. The
-- publications of these states are those of the last step; all earlier ones are among the calls.
pub record Service : Type 0 where
  pub world : World
  pub traffic : Traffic
  pub calls : List Operation

module _ {ℓ} {Body : Type ℓ} (client : Client) (marshal : Event → Option String)
    (cfg : BrokerConfig) (env : Env) (o : Orchestrator) (unmarshal : Body → Option RequestEvent)
    (decode : ℤ → Body → Option Update) (outside : Outside) (handler : WebhookHandler) where
  unfoldable pub handle_incoming : Incoming Body → Service → Reply × Service
  unfolding handle_delivery serve_http broker_connections connection_calls
  handle_incoming (delivered body) s =
      let (settlement, w) =
        handle_delivery (with_broker client marshal cfg s.calls env) o unmarshal body
          (record s.world { published = [] }) in
      (settled settlement, record s { world = w; calls = calls client marshal cfg s.calls w })
  handle_incoming (requested request) s =
      let (response, t) =
        serve_http decode outside (with_connections client marshal cfg s.calls handler) request
          (record s.traffic { published = [] }) in
      (
        answered response,
        record s { traffic = t; calls = connection_calls client marshal cfg t.published s.calls },
      )

  -- What comes before the service is stopped, in order.
  unfoldable pub run_together : List (Incoming Body) → Service → List Reply × Service
  unfolding handle_incoming
  run_together [] s = ([], s)
  run_together (job ∷ jobs) s =
      let (answer, during) = handle_incoming job s in
      let (answers, final) = run_together jobs during in (answer ∷ answers, final)
