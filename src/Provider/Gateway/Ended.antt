-- ===== src/Provider/Gateway/Ended.antt =====
-- How the gateway's Send ends, by its one request and the answer to it.
use Prim.Native.String.{◌++◌ as ◌<>◌}
use mathlib.Core.Path.{subst}
use message_delivery.Prelude.{
  ℕ, String, ◌≡◌, ◌≢◌, ◌⊎◌, inl, inr, refl, Bool, Bool-cases, true, false, ◌||◌, ◌==◌, Option,
  Option-cases, none, some, List, leb, eqb, eq_iff, arith, ◌<◌,
}
use message_delivery.Prelude.Dict
use message_delivery.Provider.{
  Message, Result, Attempt, status_sent, status_failed, status_undeliverable,
}
use message_delivery.Provider.Gateway.{
  Gateway, Transport, Response, Envelope, send, post, answered, classify, payload_of, request_of,
  valid_numeric_code, normalize_error, undeliverable,
}
use message_delivery.Provider.Gateway.Sent.{IsGood}

-- An answer that refuses the code, the service being in order and the token known to it.
pub record IsRefusal (n : ℕ) (envelope : Envelope) : Type 0 where
  pub not_ok : envelope.ok ≡ false
  pub token_known : (n ≢ 401) × (n ≢ 403)
  pub in_order : n < 500

-- The class of an answer.
pub data IsClassed (n : ℕ) (envelope : Envelope) (r : Result) : Type 0 where
  sent : IsGood n envelope → r.status ≡ status_sent → IsClassed n envelope r
  refused :
      IsRefusal n envelope
      → r ≡ undeliverable ("telegram_" <> normalize_error envelope.error)
      → IsClassed n envelope r
  other : (n ≡ 401) ⊎ (n ≡ 403) ⊎ ¬ (n < 500) → r.status ≡ status_failed → IsClassed n envelope r

is_auth : (n : ℕ) → eqb n 401 || eqb n 403 ≡ true → (n ≡ 401) ⊎ (n ≡ 403) ⊎ ¬ (n < 500)
is_auth n h = elim (Bool-cases (eqb n 401)) [
  | inl unknown ↦ inl (ground arith)
  | inr not_so ↦ inr (inl (ground arith))
]

classify-IsClassed : (n : ℕ) (envelope : Envelope) → IsClassed n envelope (classify n envelope)
unfolding classify
classify-IsClassed n envelope = elim (Bool-cases (eqb n 401 || eqb n 403)) [
  | inl auth ↦ rw auth (other (is_auth n auth) refl)
  | inr known ↦ elim (Bool-cases (leb 500 n)) [
    | inl busy ↦ rw (known, busy) (other (inr (inr (λ below. ground (arith, below)))) refl)
    | inr free ↦ elim (Bool-cases envelope.ok) [
      | inl fine ↦
          rw (known, free, fine) (sent (refl, ground arith, ground arith, ground arith) refl)
      | inr refused_it ↦
          rw (known, free, refused_it)
            (refused
              (record {
                not_ok = refl;
                token_known = (ground arith, ground arith);
                in_order = ground arith;
              })
              refl)
    ]
  ]
]

module _ (t : Transport) (p : Gateway) (past : List Attempt) (msg : Message) where
  abbrev is_code : Bool
  is_code = valid_numeric_code (Dict.index "code" msg.variables)

  -- The one request of the message, and how it ends.
  pub record IsPosted (answer : Option Response) : Type 0 where
    pub body : String
    pub token : p.api_token ≢ ""
    pub numeric : is_code ≡ true
    pub encoded : t.marshal (payload_of msg) ≡ some body
    pub is_url : t.is_url (request_of p body).url ≡ true
    pub exchanged : t.exchange past p.timeout (request_of p body) ≡ answer

  -- The ends of Send: without a token, a code or a request; without a response, or one that can be
  -- read; or by the class of the answer to the one request.
  pub data IsGatewayEnd (r : Result) : Type 0 where
    no_token : p.api_token ≡ "" → r.status ≡ status_undeliverable → IsGatewayEnd r
    no_code : p.api_token ≢ "" → is_code ≡ false → r.status ≡ status_failed → IsGatewayEnd r
    no_request :
        p.api_token ≢ ""
        → is_code ≡ true
        → ((body : String)
            → t.marshal (payload_of msg) ≡ some body
            → t.is_url (request_of p body).url ≡ false)
        → r.status ≡ status_failed
        → IsGatewayEnd r
    unreachable : IsPosted none → r.status ≡ status_undeliverable → IsGatewayEnd r
    unreadable :
        (response : Response)
        → IsPosted (some response)
        → response.envelope ≡ none
        → r.status ≡ status_failed
        → IsGatewayEnd r
    told :
        (response : Response) (envelope : Envelope)
        → IsPosted (some response)
        → response.envelope ≡ some envelope
        → IsClassed response.status_code envelope r
        → IsGatewayEnd r

  answered-IsGatewayEnd :
      (answer : Option Response) → IsPosted answer → IsGatewayEnd (answered answer)
  answered-IsGatewayEnd none posted = unreachable posted refl
  answered-IsGatewayEnd (some response) posted = elim (Option-cases response.envelope) [
    | inl nothing ↦ rw nothing (unreadable response posted nothing refl)
    | inr (envelope, read) ↦
        rw read
          (told response envelope posted read (classify-IsClassed response.status_code envelope))
  ]

  post-IsGatewayEnd :
      (encoded : Option String)
      → p.api_token ≢ ""
      → is_code ≡ true
      → t.marshal (payload_of msg) ≡ encoded
      → IsGatewayEnd (post t p past encoded)
  post-IsGatewayEnd none token numeric nothing =
      no_request token numeric (λ body encoded. cc (nothing, encoded)) refl
  post-IsGatewayEnd (some body) token numeric encoded =
      elim (Bool-cases (t.is_url (request_of p body).url)) [
        | inl url ↦ rw url (
            answered-IsGatewayEnd _ (record {
              body = body;
              token = token;
              numeric = numeric;
              encoded = encoded;
              is_url = url;
              exchanged = refl;
            }))
        | inr no_url ↦ rw no_url (no_request token numeric (only_body body encoded no_url) refl)
      ]
    where
      only_body :
          (body : String)
          → t.marshal (payload_of msg) ≡ some body
          → t.is_url (request_of p body).url ≡ false
          → (body' : String) → t.marshal (payload_of msg) ≡ some body'
          → t.is_url (request_of p body').url ≡ false
      only_body body encoded no_url body' encoded' =
          let same : body ≡ body' = cc (encoded, encoded') in
          subst (λ b. t.is_url (request_of p b).url ≡ false) same no_url

  -- Without a token, or where the gateway cannot be reached, a message is undeliverable; it fails with
  -- a code that is not numeric, a request that cannot be made, or an answer that cannot be read. Else
  -- the one request decides: the code is sent exactly if the answer is an object that says so, with a
  -- status below 500 that is neither 401 nor 403; undeliverable exactly if an object of such a status
  -- does not say so, then with the gateway's own error; and with any other status it failed.
  pub send-IsGatewayEnd : IsGatewayEnd (send t p past msg)
  unfolding send
  send-IsGatewayEnd = elim (Bool-cases (p.api_token == "")) [
    | inl blank ↦ rw blank (no_token ((eq_iff p.api_token "").0 blank) refl)
    | inr named ↦
        let token : p.api_token ≢ "" = λ h. ground (arith, eq_iff p.api_token "", h) in
        elim (Bool-cases is_code) [
          | inl numeric ↦
              rw (named, numeric)
                (post-IsGatewayEnd (t.marshal (payload_of msg)) token numeric refl)
          | inr other_code ↦ rw (named, other_code) (no_code token other_code refl)
        ]
  ]
