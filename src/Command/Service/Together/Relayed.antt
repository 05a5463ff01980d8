-- ===== src/Command/Service/Together/Relayed.antt =====
-- What the broker has been told of each request to the webhook.
use mathlib.Core.Path.{subst}
use message_delivery.Prelude.{String, Option, some, List, [], ◌≡◌, refl, true, false}
use message_delivery.Prelude.Int.{ℤ}
use message_delivery.Prelude.Fallible.{Fallible, ok, err}
use message_delivery.Config.{BrokerConfig}
use message_delivery.Delivery.Event.{TelegramConnectionRequestedEvent}
use message_delivery.Delivery.Event.Valid.{IsValidConnection}
use message_delivery.Broker.{
  Client, Event, Operation, BrokerError, telegram_connection, publish_telegram_connection,
}
use message_delivery.Broker.Ended.{IsPublished, publish-IsPublished}
use message_delivery.Webhook.{
  Traffic, WebhookHandler, WebhookRequest, Response, send_welcome, send_bot_greeting, serve_http,
}
use message_delivery.Webhook.Asked.{Asks, IsAskedFor, IsDigest}
use message_delivery.Webhook.Connection.{Update, UpdateMessage, Outside}
use message_delivery.Webhook.Served.{
  IsServed, turned_away, ignored, greeted, accepted, refused, admitted, serve_http-IsServed,
}
use message_delivery.Command.Service.Running.{succeeded}
use message_delivery.Command.Service.Together.{
  connection_calls, broker_connections, with_connections,
}

module _ (client : Client) (marshal : Event → Option String) (cfg : BrokerConfig)
    (outside : Outside) where
  -- The end of a publication of a connection, with the key of connections.
  abbrev ConnectionEnds :
      TelegramConnectionRequestedEvent
      → List Operation
      → Fallible BrokerError (Unit {0})
      → List Operation
      → Type 0
  ConnectionEnds event past r after =
      IsPublished client marshal cfg cfg.routing_keys.telegram_connection_requested
        (telegram_connection event) past r after

  -- How a request is answered, and the calls of the broker that this takes, by the update that is
  -- admitted: none without a connection that is asked for; else a valid event of this connection
  -- is published, and the answer is 204 if that succeeds, and 503 if not.
  pub data Relays (past : List Operation) (update : Option Update) (response : Response)
      (after : List Operation) : Type 0 where
    not_asked :
        ((u : Update) (m : UpdateMessage) (token : String) → update ≡ some u → ¬ Asks u m token)
        → after ≡ past
        → Relays past update response after
    relayed :
        (u : Update) (event : TelegramConnectionRequestedEvent)
        → update ≡ some u
        → IsAskedFor outside u event
        → IsValidConnection event
        → ConnectionEnds event past (ok tt) after
        → response.status ≡ 204
        → Relays past update response after
    not_relayed :
        (u : Update) (event : TelegramConnectionRequestedEvent) (e : BrokerError)
        → update ≡ some u
        → IsAskedFor outside u event
        → IsValidConnection event
        → ConnectionEnds event past (err e) after
        → response.status ≡ 503
        → Relays past update response after

  -- The publication of a connection, by what the webhook learned of it.
  published-ConnectionEnds :
      (event : TelegramConnectionRequestedEvent) (past : List Operation)
      → ConnectionEnds event past
          (publish_telegram_connection client marshal cfg event past).0
          (publish_telegram_connection client marshal cfg event past).1
  unfolding publish_telegram_connection
  published-ConnectionEnds event past =
      publish-IsPublished client marshal cfg cfg.routing_keys.telegram_connection_requested
        (telegram_connection event) past

  taken-ConnectionEnds :
      (event : TelegramConnectionRequestedEvent) (past after : List Operation)
      (r : Fallible BrokerError (Unit {0}))
      → succeeded r ≡ true
      → ConnectionEnds event past r after
      → ConnectionEnds event past (ok tt) after
  taken-ConnectionEnds event past after (ok tt) h ends = ends
  taken-ConnectionEnds event past after (err e) h ends = cc (h)

  refused-ConnectionEnds :
      (event : TelegramConnectionRequestedEvent) (past after : List Operation)
      (r : Fallible BrokerError (Unit {0}))
      → succeeded r ≡ false
      → ConnectionEnds event past r after
      → (e : BrokerError) × ConnectionEnds event past (err e) after
  refused-ConnectionEnds event past after (ok tt) h ends = cc (h)
  refused-ConnectionEnds event past after (err e) h ends = (e, ends)

  still_unasked :
      (update : Option Update) (u : Update)
      → update ≡ some u
      → ((m : UpdateMessage) (token : String) → ¬ Asks u m token)
      → (u' : Update) (m : UpdateMessage) (token : String) → update ≡ some u'
      → ¬ Asks u' m token
  still_unasked update u is unasked u' m token is' asks =
      let same : u' ≡ u = cc (is, is') in unasked m token (subst (λ x. Asks x m token) same asks)

  module _ (handler : WebhookHandler) (past : List Operation) (t : Traffic) where
    abbrev fresh : Traffic
    fresh = record t { published = [] }

    -- The ends of a request are those that the broker sees.
    IsServed-Relays :
        (update : Option Update) (response : Response) (after : Traffic)
        → IsServed outside
            (with_connections client marshal cfg past handler)
            update
            fresh
            response
            after
        → Relays past update response (connection_calls client marshal cfg after.published past)
    unfolding connection_calls broker_connections send_welcome send_bot_greeting
    IsServed-Relays update response after (turned_away nothing same status) =
        rw same (not_asked (λ u m token is _. cc (nothing, is)) refl)
    IsServed-Relays update response after (ignored u is unasked plain same status) =
        rw same (not_asked (still_unasked update u is unasked) refl)
    IsServed-Relays update response after (greeted u m is unasked plain same status) =
        rw same (not_asked (still_unasked update u is unasked) refl)
    IsServed-Relays update response after
          (accepted u event locale is asked valid took same status) =
        rw same (
          relayed u event is asked valid
            (taken-ConnectionEnds event past
              (publish_telegram_connection client marshal cfg event past).1
              (publish_telegram_connection client marshal cfg event past).0 took
              (published-ConnectionEnds event past))
            status)
    IsServed-Relays update response after (refused u event is asked valid not_taken same status) =
        let (e, ends) =
          refused-ConnectionEnds event past
            (publish_telegram_connection client marshal cfg event past).1
            (publish_telegram_connection client marshal cfg event past).0 not_taken
            (published-ConnectionEnds event past) in
        rw same (not_relayed u event e is asked valid ends status)

    -- A request to the webhook, with the broker as the publisher of its connections.
    pub serve_http-Relays {ℓ} :
        {Body : Type ℓ} (decode : ℤ → Body → Option Update) (request : WebhookRequest Body)
        → IsDigest outside
        → Relays past
            (admitted decode handler request)
            (serve_http decode outside
              (with_connections client marshal cfg past handler)
              request
              fresh).0
            (connection_calls client marshal cfg
              (serve_http decode outside
                (with_connections client marshal cfg past handler)
                request
                fresh).1.published
              past)
    serve_http-Relays decode request digest =
        IsServed-Relays (admitted decode handler request) _ _ (
          serve_http-IsServed decode outside (with_connections client marshal cfg past handler)
            request fresh digest)
