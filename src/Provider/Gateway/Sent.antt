-- ===== src/Provider/Gateway/Sent.antt =====
-- When a message counts as sent through the gateway.
use Prim.Native.String.{◌++◌ as ◌<>◌}
use message_delivery.Prelude.{
  ℕ, String, ◌≡◌, ◌≢◌, ◌↔◌, refl, Bool, true, false, not, ◌||◌, ◌==◌, Option, none, some, List, leb,
  eqb, eq_iff, arith, if◌then◌else◌, inl, inr, ◌<◌, Option-cases,
}
use message_delivery.Prelude.Dict
use message_delivery.Provider.{
  Message, Result, Attempt, status_sent, status_failed, status_undeliverable,
}
use message_delivery.Provider.Gateway.{
  Gateway, Transport, Response, Envelope, send, post, answered, classify, payload_of, request_of,
  valid_numeric_code, normalize_error, failed, undeliverable,
}

-- An answer that says that the code was sent.
abbrev pub IsGood : ℕ → Envelope → Type 0
IsGood status_code envelope =
    (envelope.ok ≡ true) × (status_code ≢ 401) × (status_code ≢ 403) × (status_code < 500)

abbrev pub IsTakenResponse : Response → Type 0
IsTakenResponse response =
    (envelope : Envelope) × (response.envelope ≡ some envelope)
    × IsGood response.status_code envelope

-- A test that ends in another status did not end it.
otherwise_sent :
    (test : Bool) (r s : Result)
    → (r.status ≡ status_sent → ⊥)
    → ((if test then r else s).status ≡ status_sent) ↔ ((test ≡ false) × (s.status ≡ status_sent))
otherwise_sent true r s wrong = (λ h. absurd (wrong h), λ (h, _). absurd (cc (h)))
otherwise_sent false r s wrong = (λ h. (refl, h), λ (_, h). h)

undeliverable_not_sent : status_undeliverable ≢ status_sent
undeliverable_not_sent = λ h. cc (h)

failed_not_sent : status_failed ≢ status_sent
failed_not_sent = λ h. cc (h)

classify_sent_iff :
    (n : ℕ) (envelope : Envelope) → ((classify n envelope).status ≡ status_sent) ↔ IsGood n envelope
unfolding classify
classify_sent_iff n envelope =
    let auth =
      otherwise_sent (eqb n 401 || eqb n 403) (failed "telegram_auth_failed") _ failed_not_sent in
    let server = otherwise_sent (leb 500 n) (failed "telegram_server_error") _ failed_not_sent in
    let refused =
      otherwise_sent (not envelope.ok)
        (undeliverable ("telegram_" <> normalize_error envelope.error))
        (record { status = status_sent; error_code = "" }) undeliverable_not_sent in
    (
      λ h.
          let (a, h1) = auth.0 h in
          let (b, h2) = server.0 h1 in
          let (c, _) = refused.0 h2 in (ground arith, ground arith, ground arith, ground arith),
      λ (good, n401, n403, below).
          auth.1 (ground arith, server.1 (ground arith, refused.1 (ground arith, refl))),
    )

answered_sent :
    (r : Option Response)
    → (answered r).status ≡ status_sent
    → (response : Response) × (r ≡ some response) × IsTakenResponse response
answered_sent none h = absurd (undeliverable_not_sent h)
answered_sent (some response) h = (
  response,
  refl,
  elim (Option-cases response.envelope) [
    | inl nothing ↦ absurd (failed_not_sent (rw nothing at h))
    | inr (e, has) ↦ (e, has, (classify_sent_iff response.status_code e).0 (rw has at h))
  ],
)

sent_answered :
    (response : Response)
    → IsTakenResponse response
    → (answered (some response)).status ≡ status_sent
sent_answered response (e, has, rest) = rw has ((classify_sent_iff response.status_code e).1 rest)

module _ (t : Transport) (p : Gateway) (past : List Attempt) (msg : Message) where
  -- The one request of this message, and the response to it.
  abbrev pub IsTaken : Type 0
  IsTaken =
      (body : String) × (response : Response) × (t.marshal (payload_of msg) ≡ some body)
      × (t.is_url (request_of p body).url ≡ true)
      × (t.exchange past p.timeout (request_of p body) ≡ some response)
      × IsTakenResponse response

  abbrev IsPosted : String → Type 0
  IsPosted body =
      (t.is_url (request_of p body).url ≡ true)
      × ((answered (t.exchange past p.timeout (request_of p body))).status ≡ status_sent)

  post_sent :
      (marshalled : Option String)
      → (post t p past marshalled).status ≡ status_sent
      → (body : String) × (marshalled ≡ some body) × IsPosted body
  post_sent none h = absurd (failed_not_sent h)
  post_sent (some body) h =
      let (url, good) =
        (otherwise_sent (not (t.is_url (request_of p body).url)) (failed "telegram_request_invalid")
            _ failed_not_sent).0
          h in
      (body, refl, (ground arith, good))

  sent_post : IsTaken → (post t p past (t.marshal (payload_of msg))).status ≡ status_sent
  sent_post (body, response, made, url, reply, is_taken) =
      rw (made, url, reply) (sent_answered response is_taken)

  -- A code counts as sent exactly if there is a token, the code is numeric, and the one request
  -- made of them is answered by an object that says so, with a status below 500 that is neither 401
  -- nor 403.
  pub send_sent_iff : ((send t p past msg).status ≡ status_sent) ↔ (
      (p.api_token ≢ "") × (valid_numeric_code (Dict.index "code" msg.variables) ≡ true) × IsTaken)
  unfolding send
  send_sent_iff =
      let token =
        otherwise_sent (p.api_token == "") (undeliverable "telegram_token_missing") _
          undeliverable_not_sent in
      let code =
        otherwise_sent (not (valid_numeric_code (Dict.index "code" msg.variables)))
          (failed "telegram_code_invalid") (post t p past (t.marshal (payload_of msg)))
          failed_not_sent in
      (
        λ h.
            let (a, h1) = token.0 h in
            let (b, posted) = code.0 h1 in
            let (body, made, (url, good)) = post_sent _ posted in
            let (response, reply, is_taken) = answered_sent _ good in
            (
              ground (arith, eq_iff p.api_token ""),
              ground arith,
              (body, response, made, url, reply, is_taken),
            ),
        λ (named, numeric, is_taken).
            token.1
              (ground (arith, eq_iff p.api_token ""), code.1 (ground arith, sent_post is_taken)),
      )
