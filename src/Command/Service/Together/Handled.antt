-- ===== src/Command/Service/Together/Handled.antt =====
-- Deliveries and requests to the webhook in any order.
use message_delivery.Prelude.{String, Option, List, [], ◌∷◌}
use message_delivery.Prelude.Int.{ℤ}
use message_delivery.Config.{BrokerConfig}
use message_delivery.Delivery.Event.{RequestEvent}
use message_delivery.Delivery.Orchestrator.{Env, Orchestrator}
use message_delivery.Broker.{Client, Event, Operation}
use message_delivery.Webhook.{WebhookHandler, WebhookRequest, Response}
use message_delivery.Webhook.Asked.{IsDigest}
use message_delivery.Webhook.Connection.{Update, Outside}
use message_delivery.Webhook.Served.{admitted}
use message_delivery.Worker.{Settlement}
use message_delivery.Command.Service.Running.Served.{Settles, delivery-Settles, calls_none}
use message_delivery.Command.Service.Together.Relayed.{Relays, serve_http-Relays}
use message_delivery.Command.Service.Together.{
  Incoming, delivered, requested, Reply, settled, answered, Service, handle_incoming, run_together,
}

module _ {ℓ} {Body : Type ℓ} (client : Client) (marshal : Event → Option String)
    (cfg : BrokerConfig) (unmarshal : Body → Option RequestEvent)
    (decode : ℤ → Body → Option Update) (outside : Outside) (handler : WebhookHandler) where
  -- How a job is answered, and the calls of the broker before and after it.
  pub data Handles (past : List Operation) : Incoming Body → Reply → List Operation → Type ℓ where
    of_delivery :
        {body : Body} {settlement : Settlement} {after : List Operation}
        → Settles client marshal cfg unmarshal past body settlement after
        → Handles past (delivered body) (settled settlement) after
    of_request :
        {request : WebhookRequest Body} {response : Response} {after : List Operation}
        → Relays client marshal cfg outside past (admitted decode handler request) response after
        → Handles past (requested request) (answered response) after

  -- Jobs handled one after the other, each behind the calls of those before it.
  pub data HandlesAll
      : List Operation → List (Incoming Body) → List Reply → List Operation → Type ℓ where
    idle : {past : List Operation} → HandlesAll past [] [] past
    then :
        {past during after : List Operation} {job : Incoming Body} {jobs : List (Incoming Body)}
        {answer : Reply} {answers : List Reply}
        → Handles past job answer during
        → HandlesAll during jobs answers after
        → HandlesAll past (job ∷ jobs) (answer ∷ answers) after

  module _ (env : Env) (o : Orchestrator) (digest : IsDigest outside) where
    handle_incoming-Handles :
        (job : Incoming Body) (s : Service)
        → Handles s.calls job
            (handle_incoming client marshal cfg env o unmarshal decode outside handler job s).0
            (handle_incoming client marshal cfg env o unmarshal decode outside handler job
              s).1.calls
    unfolding handle_incoming
    handle_incoming-Handles (delivered body) s = of_delivery (
        rw (calls_none client marshal cfg unmarshal s.calls env o s.world) at (
          delivery-Settles client marshal cfg unmarshal s.calls env o body
            (record s.world { published = [] })))
    handle_incoming-Handles (requested request) s = of_request (
        serve_http-Relays client marshal cfg outside handler s.calls s.traffic decode request
          digest)

    -- Where the digest has 32 bytes: whatever deliveries and requests to the webhook come to the
    -- service, one after the other and in any order, with one broker for both, the calls of the broker
    -- are those of their publications and no other, in the order in which they come. For an invalid
    -- delivery there is none, and it is rejected for good; for a valid one a result with its event id
    -- is published, and it is acknowledged if the client takes it, and else handed back. For a request
    -- that asks for a connection a valid event of it is published with the key of connections, and
    -- it is answered by 204 if the client takes it, and else by 503; for any other there is no call.
    pub run_together-HandlesAll :
        (jobs : List (Incoming Body)) (s : Service)
        → HandlesAll s.calls jobs
            (run_together client marshal cfg env o unmarshal decode outside handler jobs s).0
            (run_together client marshal cfg env o unmarshal decode outside handler jobs s).1.calls
    unfolding run_together
    run_together-HandlesAll [] s = idle
    run_together-HandlesAll (job ∷ jobs) s =
        then (handle_incoming-Handles job s) (run_together-HandlesAll jobs _)
