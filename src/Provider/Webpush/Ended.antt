-- ===== src/Provider/Webpush/Ended.antt =====
-- How a push ends, on every branch of Send.
use message_delivery.Prelude.{
  ℕ, ◌≡◌, ◌≢◌, ◌⊎◌, inl, inr, refl, Bool-cases, true, false, ◌&&◌, ◌||◌, Option-cases, none, some,
  List, leb, ltb, eqb, arith, ◌<◌, ◌≤◌, Bool,
}
use message_delivery.Prelude.Fallible.{ok, err}
use message_delivery.Prelude.Text.{trim_space}
use message_delivery.Provider.{
  Message, Result, Attempt, status_sent, status_failed, status_undeliverable,
}
use message_delivery.Provider.Webpush.{
  Url, Push, Webpush, Notification, Answer, status_code, error_with_timeout, prepare, is_configured,
  is_subscription, endpoint_allowed, outcome_of, push_payload, send,
}
use message_delivery.Provider.Webpush.Endpoint.{IsPushUrl, prepare-IsPushUrl, endpoint_refused}

-- What an answer of the push service makes of a message.
pub data IsAnswered (r : Result) : Answer → Type 0 where
  took : (n : ℕ) → 200 ≤ n → n < 300 → r.status ≡ status_sent → IsAnswered r (status_code n)
  expired :
      (n : ℕ)
      → (n ≡ 404) ⊎ (n ≡ 410)
      → r.status ≡ status_undeliverable
      → IsAnswered r (status_code n)
  other :
      (n : ℕ)
      → (n < 200) ⊎ (300 ≤ n)
      → n ≢ 404
      → n ≢ 410
      → r.status ≡ status_failed
      → IsAnswered r (status_code n)
  unanswered :
      (timed_out : Bool) → r.status ≡ status_failed → IsAnswered r (error_with_timeout timed_out)

outside_class : (n : ℕ) → leb 200 n && ltb n 300 ≡ false → (n < 200) ⊎ (300 ≤ n)
outside_class n h = elim (Bool-cases (leb 200 n)) [
  | inl low ↦ inr (ground arith)
  | inr high ↦ inl (ground arith)
]

is_either : (n : ℕ) → eqb n 404 || eqb n 410 ≡ true → (n ≡ 404) ⊎ (n ≡ 410)
is_either n h = elim (Bool-cases (eqb n 404)) [
  | inl missing ↦ inl (ground arith)
  | inr not_so ↦ inr (ground arith)
]

outcome_of-IsAnswered : (answer : Answer) → IsAnswered (outcome_of answer) answer
unfolding outcome_of
outcome_of-IsAnswered (error_with_timeout true) = unanswered true refl
outcome_of-IsAnswered (error_with_timeout false) = unanswered false refl
outcome_of-IsAnswered (status_code n) = elim (Bool-cases (leb 200 n && ltb n 300)) [
  | inl fine ↦ rw fine (took n (ground arith) (ground arith) refl)
  | inr bad ↦ elim (Bool-cases (eqb n 404 || eqb n 410)) [
    | inl gone ↦ rw (bad, gone) (expired n (is_either n gone) refl)
    | inr there ↦ elim (Bool-cases (eqb n 429 || leb 500 n)) [
      | inl busy ↦
          rw (bad, there, busy) (other n (outside_class n bad) (ground arith) (ground arith) refl)
      | inr free ↦
          rw (bad, there, free) (other n (outside_class n bad) (ground arith) (ground arith) refl)
    ]
  ]
]

module _ (push : Push) (p : Webpush) (past : List Attempt) (msg : Message) where
  -- The one call of the push library, and its answer: for the recipient, at a push service.
  pub record IsPushed (answer : Answer) : Type 0 where
    pub notification : Notification
    pub url : Url
    pub configured : is_configured p ≡ true
    pub subscribed : is_subscription msg ≡ true
    pub to_recipient : notification.endpoint ≡ msg.recipient
    pub read : push.parse (trim_space msg.recipient) ≡ some url
    pub is_push_url : IsPushUrl url
    pub encoded : push.marshal (push_payload msg) ≡ some notification.payload
    pub notified : push.notify past notification ≡ answer

  -- The ends of Send: without keys or an address that is allowed; without a subscription or a text of
  -- the message; or by the answer to the one call.
  pub data IsPushEnd (r : Result) : Type 0 where
    unconfigured : is_configured p ≡ false → r.status ≡ status_undeliverable → IsPushEnd r
    unsubscribed :
        is_configured p ≡ true
        → is_subscription msg ≡ false
        → r.status ≡ status_failed
        → IsPushEnd r
    refused :
        is_configured p ≡ true
        → is_subscription msg ≡ true
        → ((url : Url) → push.parse (trim_space msg.recipient) ≡ some url → ¬ IsPushUrl url)
        → r.status ≡ status_undeliverable
        → IsPushEnd r
    not_encoded :
        is_configured p ≡ true
        → is_subscription msg ≡ true
        → push.marshal (push_payload msg) ≡ none
        → r.status ≡ status_failed
        → IsPushEnd r
    pushed : (answer : Answer) → IsPushed answer → IsAnswered r answer → IsPushEnd r

  -- What is prepared: an end, or the one call.
  abbrev Prepared : Type 0
  Prepared =
      ((r : Result) × (prepare push p msg ≡ err r) × IsPushEnd r)
      ⊎ ((n : Notification) × (prepare push p msg ≡ ok n)
          × (is_configured p ≡ true)
          × (is_subscription msg ≡ true)
          × (push.marshal (push_payload msg) ≡ some n.payload))

  allowed_prepared :
      is_configured p ≡ true
      → is_subscription msg ≡ true
      → endpoint_allowed push.parse msg.recipient ≡ true
      → Prepared
  unfolding prepare
  allowed_prepared configured subscribed allowed =
      elim (Option-cases (push.marshal (push_payload msg))) [
        | inl nothing ↦
            rw (configured, subscribed, allowed, nothing)
              (inl (_, refl, not_encoded configured subscribed nothing refl))
        | inr (payload, encoded) ↦
            rw (configured, subscribed, allowed, encoded) (inr (_, refl, refl, refl, refl))
      ]

  prepared : Prepared
  unfolding prepare
  prepared = elim (Bool-cases (is_configured p)) [
    | inr unset ↦ rw unset (inl (_, refl, unconfigured unset refl))
    | inl configured ↦ elim (Bool-cases (is_subscription msg)) [
      | inr none_there ↦
          rw (configured, none_there) (inl (_, refl, unsubscribed configured none_there refl))
      | inl subscribed ↦ elim (Bool-cases (endpoint_allowed push.parse msg.recipient)) [
        | inr strange ↦
            rw (configured, subscribed, strange)
              (inl (
                _,
                refl,
                refused configured subscribed (endpoint_refused push.parse msg.recipient strange)
                    refl,
              ))
        | inl allowed ↦ allowed_prepared configured subscribed allowed
      ]
    ]
  ]

  -- A message is undeliverable without keys or with an address of no push service, and fails without
  -- a subscription or a text. Else the push library is called once, for the recipient, which then is
  -- an `https` address of one of the push services or of a host below one: the message is sent exactly
  -- if the answer has a status of the class 2xx, undeliverable if it is 404 or 410, and else failed.
  pub send-IsPushEnd : IsPushEnd (send push p past msg)
  unfolding send
  send-IsPushEnd = elim prepared [
    | inl (r, stopped, ended) ↦ rw (stopped, send) ended
    | inr (n, made, configured, subscribed, encoded) ↦
        let (to_recipient, (url, read, is_push_url)) = prepare-IsPushUrl push p msg n made in
        rw (made, send)
          (pushed (push.notify past n)
            (record {
              notification = n;
              url = url;
              configured = configured;
              subscribed = subscribed;
              to_recipient = to_recipient;
              read = read;
              is_push_url = is_push_url;
              encoded = encoded;
              notified = refl;
            })
            (outcome_of-IsAnswered (push.notify past n)))
  ]
