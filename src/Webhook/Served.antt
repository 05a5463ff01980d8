-- ===== src/Webhook/Served.antt =====
-- What a request to the webhook can bring about.
use message_delivery.Prelude.{
  ◌⊎◌, Bool, String, Bool-cases, Option-cases, true, false, ◌&&◌, ◌==◌, ◌≡◌, inl, inr, refl, Option,
  none, some, [], ◌∷◌, ◌++◌, arith, if◌then◌else◌,
}
use message_delivery.Prelude.Int.{ℤ}
use message_delivery.Delivery.Event.{TelegramConnectionRequestedEvent}
use message_delivery.Delivery.Event.Valid.{IsValidConnection}
use message_delivery.Webhook.Connection.{
  private_user_update, Update, UpdateMessage, Outside, telegram_connection_event,
}
use message_delivery.Webhook.Command.{is_plain_start}
use message_delivery.Webhook.Command.Complete.{IsPlainStart, is_plain_start_iff}
use message_delivery.Webhook.Asked.{
  IsDigest, Asks, IsPrivateUpdate, private_user_update-IsPrivateUpdate,
  IsPrivateUpdate-private_user_update, telegram_connection_event-Asks, IsAskedFor,
  telegram_connection_event-eq-some,
}
use message_delivery.Webhook.{
  greeted_event, respond, Traffic, WebhookHandler, WebhookRequest, Response, answer_plain, connect,
  send_bot_greeting, send_welcome, serve_update, serve_http,
}

-- The update has a private message that is the plain command to start.
pub record IsPlain (update : Update) (m : UpdateMessage) : Type 0 where
  pub is_private : IsPrivateUpdate update m
  pub plain : IsPlainStart m.text

-- The ends of a request, by the update that is admitted: without one, an error; without a connection
-- that is asked for, a greeting exactly if there is a plain start; else the event is published, and
-- the chat welcomed if the publisher took it.
pub data IsServed (outside : Outside) (handler : WebhookHandler) (update : Option Update)
    (t : Traffic) (response : Response) (after : Traffic) : Type 0 where
  turned_away :
      update ≡ none
      → after ≡ t
      → (response.status ≡ 405) ⊎ (response.status ≡ 403) ⊎ (response.status ≡ 400)
      → IsServed outside handler update t response after
  ignored :
      (u : Update)
      → update ≡ some u
      → ((m : UpdateMessage) (token : String) → ¬ Asks u m token)
      → ((m : UpdateMessage) → ¬ IsPlain u m)
      → after ≡ t
      → response.status ≡ 204
      → IsServed outside handler update t response after
  greeted :
      (u : Update) (m : UpdateMessage)
      → update ≡ some u
      → ((m' : UpdateMessage) (token : String) → ¬ Asks u m' token)
      → IsPlain u m
      → after ≡ send_bot_greeting handler (greeted_event u m) m.from.language_code "start" t
      → response.status ≡ 204
      → IsServed outside handler update t response after
  accepted :
      (u : Update) (event : TelegramConnectionRequestedEvent) (locale : String)
      → update ≡ some u
      → IsAskedFor outside u event
      → IsValidConnection event
      → handler.publisher t event ≡ true
      → after
        ≡ send_welcome handler event locale (record t { published = t.published ++ event ∷ [] })
      → response.status ≡ 204
      → IsServed outside handler update t response after
  refused :
      (u : Update) (event : TelegramConnectionRequestedEvent)
      → update ≡ some u
      → IsAskedFor outside u event
      → IsValidConnection event
      → handler.publisher t event ≡ false
      → after ≡ record t { published = t.published ++ event ∷ [] }
      → response.status ≡ 503
      → IsServed outside handler update t response after

connect-IsServed :
    (outside : Outside) (handler : WebhookHandler) (u : Update)
    (event : TelegramConnectionRequestedEvent) (t : Traffic)
    → IsAskedFor outside u event × IsValidConnection event
    → IsServed outside handler
        (some u)
        t
        (connect handler event u.message t).0
        (connect handler event u.message t).1
unfolding connect
connect-IsServed outside handler u event t (asked, valid) =
    elim (Bool-cases (handler.publisher t event)) [
      | inl took ↦ rw took (accepted u event _ refl asked valid took refl refl)
      | inr not_taken ↦ rw not_taken (refused u event refl asked valid not_taken refl refl)
    ]

-- What stands for a plain start, as the code tests it.
abbrev greets : Update → UpdateMessage → Bool
greets u m = private_user_update u && is_plain_start m.text

greets-IsPlain :
    (u : Update) (m : UpdateMessage) → u.message ≡ some m → greets u m ≡ true → IsPlain u m
greets-IsPlain u m is_message h = record {
  is_private = private_user_update-IsPrivateUpdate u m is_message (ground arith);
  plain = (is_plain_start_iff m.text).0 (ground arith);
}

IsPlain-greets :
    (u : Update) (m m' : UpdateMessage) → u.message ≡ some m → IsPlain u m' → greets u m ≡ true
IsPlain-greets u m m' is_message plain =
    let same : m' ≡ m = cc (plain.is_private.is_message, is_message) in
    rw (IsPrivateUpdate-private_user_update u m' plain.is_private)
      (rw (← same) ((is_plain_start_iff m'.text).1 plain.plain))

module _ (outside : Outside) (handler : WebhookHandler) (u : Update) (t : Traffic)
    (unasked : (m : UpdateMessage) (token : String) → ¬ Asks u m token) where
  answer_plain-IsServed :
      (m : Option UpdateMessage)
      → u.message ≡ m
      → IsServed outside handler
          (some u)
          t
          (answer_plain handler u m t).0
          (answer_plain handler u m t).1
  unfolding answer_plain
  answer_plain-IsServed none nothing =
      ignored u refl unasked (λ m plain. cc (nothing, plain.is_private.is_message)) refl refl
  answer_plain-IsServed (some m) is_message = elim (Bool-cases (greets u m)) [
    | inl plain ↦
        rw plain (greeted u m refl unasked (greets-IsPlain u m is_message plain) refl refl)
    | inr other ↦ rw other (
        ignored u refl unasked (λ m' plain. cc (other, IsPlain-greets u m m' is_message plain)) refl
          refl)
  ]

respond-IsServed :
    (outside : Outside) (handler : WebhookHandler) (u : Update)
    (found : Option TelegramConnectionRequestedEvent) (t : Traffic)
    → IsDigest outside
    → telegram_connection_event outside u ≡ found
    → IsServed outside handler
        (some u)
        t
        (respond handler u found t).0
        (respond handler u found t).1
unfolding respond
respond-IsServed outside handler u none t digest h =
    answer_plain-IsServed outside handler u t
      (λ m token asks. cc (h, telegram_connection_event-Asks outside u m token digest asks))
      u.message refl
respond-IsServed outside handler u (some event) t digest h =
    connect-IsServed outside handler u event t (telegram_connection_event-eq-some outside u event h)

serve_update-IsServed :
    (outside : Outside) (handler : WebhookHandler) (u : Update) (t : Traffic)
    → IsDigest outside
    → IsServed outside handler
        (some u)
        t
        (serve_update outside handler u t).0
        (serve_update outside handler u t).1
unfolding serve_update
serve_update-IsServed outside handler u t digest =
    respond-IsServed outside handler u (telegram_connection_event outside u) t digest refl

-- Only a POST request with the handler's secret is read.
abbrev pub admitted {ℓ} :
    {Body : Type ℓ}
    → (ℤ → Body → Option Update)
    → WebhookHandler
    → WebhookRequest Body
    → Option Update
admitted decode handler request =
    let update = decode handler.cfg.max_body_bytes request.body in
    if request.method == "POST" && request.secret_token == handler.secret then update else none

-- Where the digest has 32 bytes: a request that is no POST with the secret of the handler and an
-- update that can be read changes nothing and is answered by 405, 403 or 400. A private message that
-- starts the bot with a token, by the regular expression, has one valid event published, of its
-- chat and with the hash of the token; then the chat is welcomed and the answer is 204 where the
-- publisher takes the event, and the answer is 503 where it refuses it. Any other update publishes
-- nothing and is answered by 204, and a chat is greeted exactly for a private plain start.
pub serve_http-IsServed {ℓ} :
    {Body : Type ℓ} (decode : ℤ → Body → Option Update) (outside : Outside)
    (handler : WebhookHandler) (request : WebhookRequest Body) (t : Traffic)
    → IsDigest outside
    → IsServed outside handler
        (admitted decode handler request)
        t
        (serve_http decode outside handler request t).0
        (serve_http decode outside handler request t).1
unfolding serve_http
serve_http-IsServed decode outside handler request t digest =
    elim (Bool-cases (request.method == "POST")) [
      | inr other ↦ rw other (turned_away refl refl (inl refl))
      | inl post ↦ elim (Bool-cases (request.secret_token == handler.secret)) [
        | inr stranger ↦ rw (post, stranger) (turned_away refl refl (inr (inl refl)))
        | inl trusted ↦
            rw (post, trusted)
              (elim (Option-cases (decode handler.cfg.max_body_bytes request.body)) [
                | inl unreadable ↦ rw unreadable (turned_away refl refl (inr (inr refl)))
                | inr (u, read) ↦ rw read (serve_update-IsServed outside handler u t digest)
              ])
      ]
    ]
