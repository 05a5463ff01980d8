-- ===== src/Delivery/Event/Valid.antt =====
-- What a valid event is.
use message_delivery.Prelude.{
  ◌≡◌, ◌≢◌, ◌⊎◌, ◌↔◌, refl, true, Option, none, some, arith, eq_iff, Option-cases, ap, inl, inr,
}
use message_delivery.Prelude.Int.{is_positive}
use message_delivery.Prelude.Fallible.{ok}
use message_delivery.Delivery.Event.{
  RequestEvent, TelegramConnectionRequestedEvent, validate_request, validate_connection,
  is_token_hash, decode_request, checked, event_type_delivery_requested,
  event_type_telegram_connection_requested, RequestError,
}

-- What the contract asks of a request.
pub record IsValidRequest (e : RequestEvent) : Type 0 where
  pub version : e.version ≢ ""
  pub event_id : e.event_id ≢ ""
  pub type : e.type ≡ "message.delivery.requested"
  pub template : e.template ≢ ""
  pub recipient_type :
      (e.recipient_type ≡ "email")
      ⊎ (e.recipient_type ≡ "phone")
      ⊎ (e.recipient_type ≡ "push")
      ⊎ (e.recipient_type ≡ "telegram")
  pub recipient : e.recipient ≢ ""

-- Validation passes exactly the requests that meet the contract.
pub validate_request_iff : (e : RequestEvent) → (validate_request e ≡ none) ↔ IsValidRequest e
unfolding validate_request
validate_request_iff e = (
  λ h. ground (
    arith,
    eq_iff e.version "",
    eq_iff e.event_id "",
    eq_iff e.type event_type_delivery_requested,
    eq_iff e.template "",
    eq_iff e.recipient_type "email",
    eq_iff e.recipient_type "phone",
    eq_iff e.recipient_type "push",
    eq_iff e.recipient_type "telegram",
    eq_iff e.recipient "",
  ),
  λ v. ground (
    arith,
    eq_iff e.version "",
    eq_iff e.event_id "",
    eq_iff e.type event_type_delivery_requested,
    eq_iff e.template "",
    eq_iff e.recipient_type "email",
    eq_iff e.recipient_type "phone",
    eq_iff e.recipient_type "push",
    eq_iff e.recipient_type "telegram",
    eq_iff e.recipient "",
  ),
)

checked_iff :
    (read e : RequestEvent) (problem : Option RequestError)
    → (checked read problem ≡ ok e) ↔ ((read ≡ e) × (problem ≡ none))
checked_iff read e none = (λ h. (cc, refl), λ h. ap ok h.0)
checked_iff read e (some problem) = (λ h. cc, λ h. cc)

-- A body is accepted as a request exactly if the decoder reads it and the request that it reads
-- meets the contract; nothing is changed on the way.
pub decode_request_iff {ℓ} :
    {Body : Type ℓ} (unmarshal : Body → Option RequestEvent) (body : Body) (e : RequestEvent)
    → (decode_request unmarshal body ≡ ok e) ↔ ((unmarshal body ≡ some e) × IsValidRequest e)
unfolding decode_request
decode_request_iff unmarshal body e = elim (Option-cases (unmarshal body)) [
  | inl unread ↦ rw (unread, decode_request) (λ h. cc, λ h. cc)
  | inr (e', read) ↦
      rw (read, decode_request)
        (
          λ h.
              let (same, passed) = (checked_iff e' e (validate_request e')).0 h in
              (ap some same, rw (← same) ((validate_request_iff e').0 passed)),
          λ h.
              let same : e' ≡ e = cc (h.0) in
              (checked_iff e' e (validate_request e')).1
                (same, (validate_request_iff e').1 (rw same h.1)),
        )
]

-- What a webhook's event must have: an identity, its type, positive ids, and the hash of a ticket,
-- which is 64 lower-case hexadecimal digits.
pub record IsValidConnection (e : TelegramConnectionRequestedEvent) : Type 0 where
  pub version : e.version ≢ ""
  pub event_id : e.event_id ≢ ""
  pub source : e.source ≢ ""
  pub type : e.type ≡ "notification.telegram.connection.requested"
  pub update_id : is_positive e.update_id ≡ true
  pub chat_id : is_positive e.chat_id ≡ true
  pub start_token_hash : is_token_hash e.start_token_hash ≡ true

-- Validation passes exactly the connection events that meet the contract.
pub validate_connection_iff :
    (e : TelegramConnectionRequestedEvent) → (validate_connection e ≡ none) ↔ IsValidConnection e
unfolding validate_connection
validate_connection_iff e = (
  λ h. ground (
    arith,
    eq_iff e.version "",
    eq_iff e.event_id "",
    eq_iff e.source "",
    eq_iff e.type event_type_telegram_connection_requested,
  ),
  λ v. ground (
    arith,
    eq_iff e.version "",
    eq_iff e.event_id "",
    eq_iff e.source "",
    eq_iff e.type event_type_telegram_connection_requested,
  ),
)
