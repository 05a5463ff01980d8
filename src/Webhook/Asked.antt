-- ===== src/Webhook/Asked.antt =====
-- Which events the updates of the webhook lead to.
use Prim.Native.String.append
use mathlib.Core.Path.{subst}
use message_delivery.Delivery.EventId.Laws.{hex_encode_shape}
use message_delivery.Delivery.EventId.{hex_encode}
use message_delivery.Webhook.Command.Complete.{start_token_iff}
use message_delivery.Prelude.{
  refl, none, All, length, ◌<◌, String, Bool-cases, Option-cases, true, ◌&&◌, eq_iff, ◌≡◌, inl, inr,
  ap, some, arith, sym,
}
use message_delivery.Prelude.Text.{char_count}
use message_delivery.Prelude.Int.{is_positive, same_int-eq, same_int_refl, same_int}
use message_delivery.Delivery.Event.{
  TelegramConnectionRequestedEvent, validate_connection, is_token_hash,
}
use message_delivery.Delivery.Event.Valid.{IsValidConnection, validate_connection_iff}
use message_delivery.Webhook.Command.{start_token}
use message_delivery.Webhook.Command.Matches.{IsStart, start_token-IsStart}
use message_delivery.Webhook.Connection.{
  Update, UpdateMessage, update_event_id, Outside, is_private, private_user_update,
  telegram_start_token_hash, connection_event, if_valid, connection_of_message,
  telegram_connection_event,
}

-- The update has a private message, from the one whose chat it is in.
pub record IsPrivateUpdate (update : Update) (m : UpdateMessage) : Type 0 where
  pub is_message : update.message ≡ some m
  pub update_id : is_positive update.update_id ≡ true
  pub private : m.chat.type ≡ "private"
  pub chat_id : is_positive m.chat.id ≡ true
  pub own_chat : m.from.id ≡ m.chat.id

-- The message is private and starts the bot with a token, by the regular expression.
pub record Asks (update : Update) (m : UpdateMessage) (token : String) : Type 0 where
  pub is_private : IsPrivateUpdate update m
  pub starts : IsStart m.text token

-- An event tells of the connection that an update asks for: it is of this update and chat, and has
-- the hash of the token.
pub record IsAskedFor (outside : Outside) (update : Update)
    (event : TelegramConnectionRequestedEvent) : Type 0 where
  pub message : UpdateMessage
  pub token : String
  pub asks : Asks update message token
  pub update_id : event.update_id ≡ update.update_id
  pub chat_id : event.chat_id ≡ message.chat.id
  pub hash : event.start_token_hash ≡ telegram_start_token_hash outside token

if_valid-eq-some :
    (event event' : TelegramConnectionRequestedEvent)
    → if_valid event ≡ some event'
    → (event ≡ event') × IsValidConnection event'
unfolding if_valid
if_valid-eq-some event event' h = elim (Option-cases (validate_connection event)) [
  | inl valid ↦
      let same : event ≡ event' = ground arith in
      (same, subst IsValidConnection same ((validate_connection_iff event).0 valid))
  | inr (problem, invalid) ↦ cc (rw invalid at h)
]

connection_of_message-eq-some :
    (outside : Outside) (update : Update) (m : UpdateMessage)
    (event : TelegramConnectionRequestedEvent)
    → connection_of_message outside update m ≡ some event
    → (token : String) × (start_token m.text ≡ some token)
      × (connection_event outside update m token ≡ event)
      × IsValidConnection event
unfolding connection_of_message
connection_of_message-eq-some outside update m event h = elim (Option-cases (start_token m.text)) [
  | inl no_token ↦ cc (rw (no_token, connection_of_message) at h)
  | inr (token, found) ↦
      let (same, valid) =
        if_valid-eq-some (connection_event outside update m token) event
          (rw (found, connection_of_message) at h) in
      (token, found, same, valid)
]

pub private_user_update-IsPrivateUpdate :
    (update : Update) (m : UpdateMessage)
    → update.message ≡ some m
    → private_user_update update ≡ true
    → IsPrivateUpdate update m
unfolding private_user_update is_private
private_user_update-IsPrivateUpdate update m is_message h =
    let tests : is_positive update.update_id && is_private m ≡ true = rw is_message at h in
    record {
      is_message = is_message;
      update_id = ground arith;
      private = ground (arith, eq_iff m.chat.type "private");
      chat_id = ground arith;
      own_chat = same_int-eq m.from.id m.chat.id (ground arith);
    }

pub IsPrivateUpdate-private_user_update :
    (update : Update) (m : UpdateMessage)
    → IsPrivateUpdate update m
    → private_user_update update ≡ true
unfolding private_user_update is_private
IsPrivateUpdate-private_user_update update m p =
    let own : same_int m.from.id m.chat.id ≡ true = rw p.own_chat (same_int_refl m.chat.id) in
    rw (p.is_message, p.update_id, p.private, p.chat_id, own)

IsAskedFor-of_message :
    (outside : Outside) (update : Update) (m : UpdateMessage)
    (event : TelegramConnectionRequestedEvent)
    → IsPrivateUpdate update m
    → connection_of_message outside update m ≡ some event
    → IsAskedFor outside update event × IsValidConnection event
unfolding connection_event
IsAskedFor-of_message outside update m event is_private h =
    let (token, found, same, valid) = connection_of_message-eq-some outside update m event h in
    (
      record {
        message = m;
        token = token;
        asks = record { is_private = is_private; starts = start_token-IsStart m.text token found };
        update_id = sym (ap (λ e. e.update_id) same);
        chat_id = sym (ap (λ e. e.chat_id) same);
        hash = sym (ap (λ e. e.start_token_hash) same);
      },
      valid,
    )

pub telegram_connection_event-eq-some :
    (outside : Outside) (update : Update) (event : TelegramConnectionRequestedEvent)
    → telegram_connection_event outside update ≡ some event
    → IsAskedFor outside update event × IsValidConnection event
unfolding telegram_connection_event
telegram_connection_event-eq-some outside update event h =
    elim (Bool-cases (private_user_update update)) [
      | inl private ↦ elim (Option-cases update.message) [
        | inl nothing ↦ cc (rw (private, nothing, telegram_connection_event) at h)
        | inr (m, is_message) ↦
            IsAskedFor-of_message outside update m event
              (private_user_update-IsPrivateUpdate update m is_message private)
              (rw (private, is_message) at h)
      ]
      | inr other ↦ cc (rw other at h)
    ]

-- `sha256.Sum256` gives 32 bytes.
abbrev pub IsDigest : Outside → Type 0
IsDigest outside =
    (text : String) → (length (outside.sha256 text) ≡ 32) × All (λ b. b < 256) (outside.sha256 text)

telegram_start_token_hash-is_token_hash :
    (outside : Outside) (token : String)
    → IsDigest outside
    → is_token_hash (telegram_start_token_hash outside token) ≡ true
unfolding telegram_start_token_hash is_token_hash
telegram_start_token_hash-is_token_hash outside token digest =
    let (long, bytes) = digest token in
    let (count, lower) = hex_encode_shape (outside.sha256 token) bytes in
    let whole : char_count (hex_encode (outside.sha256 token)) ≡ 64 = omega (arith, count, long) in
    rw (whole, lower) refl

connection_event-IsValidConnection :
    (outside : Outside) (update : Update) (m : UpdateMessage) (token : String)
    → IsDigest outside
    → IsPrivateUpdate update m
    → IsValidConnection (connection_event outside update m token)
unfolding connection_event update_event_id
connection_event-IsValidConnection outside update m token digest p = record {
  version = λ h. cc (h);
  event_id = rw append.cons (λ h. cc (h));
  source = λ h. cc (h);
  type = refl;
  update_id = p.update_id;
  chat_id = p.chat_id;
  start_token_hash = telegram_start_token_hash-is_token_hash outside token digest;
}

-- An update that asks for a connection leads to its event.
pub telegram_connection_event-Asks :
    (outside : Outside) (update : Update) (m : UpdateMessage) (token : String)
    → IsDigest outside
    → Asks update m token
    → telegram_connection_event outside update ≡ some (connection_event outside update m token)
unfolding telegram_connection_event connection_of_message if_valid
telegram_connection_event-Asks outside update m token digest asks =
    let event : TelegramConnectionRequestedEvent = connection_event outside update m token in
    let found : start_token m.text ≡ some token = (start_token_iff m.text token).1 asks.starts in
    let valid : validate_connection event ≡ none =
      (validate_connection_iff event).1
        (connection_event-IsValidConnection outside update m token digest asks.is_private) in
    rw (IsPrivateUpdate-private_user_update update m asks.is_private, asks.is_private.is_message)
      (rw (found, connection_of_message) (rw (valid, if_valid)))
