-- ===== src/Provider/TelegramBot/Ended.antt =====
-- How the bot's Send ends, by its one request and the answer to it.
use message_delivery.Prelude.{
  ℕ, String, ◌≡◌, ◌≢◌, ◌⊎◌, inl, inr, refl, Bool, Bool-cases, true, false, ◌&&◌, ◌||◌, ◌==◌, Option,
  none, some, List, leb, ltb, eqb, eq_iff, arith, ◌<◌, ◌≤◌,
}
use message_delivery.Prelude.Int.{ℤ}
use message_delivery.Provider.{
  Message, Result, Attempt, status_sent, status_failed, status_undeliverable,
}
use message_delivery.Provider.TelegramBot.{
  TelegramBot, BotTransport, BotResponse, Answer, no_response, response, chat_id, classify,
  answered, post, send_to_chat, send, send_url, request_of, telegram_chat_unavailable,
}

-- An answer that says that the message was sent.
pub record IsGood (n : ℕ) (envelope : BotResponse) : Type 0 where
  pub at_least : 200 ≤ n
  pub below : n < 300
  pub ok : envelope.ok ≡ true

-- An answer that says that there is no such chat for the bot, and that is not the service's own trouble.
pub record IsGone (n : ℕ) (envelope : BotResponse) : Type 0 where
  pub not_good : ¬ IsGood n envelope
  pub no_auth : n ≢ 401
  pub no_limit : n ≢ 429
  pub no_server : n < 500
  pub gone : (n ≡ 403) ⊎ (telegram_chat_unavailable envelope.description ≡ true)

-- The class of an answer.
pub data IsClassed (n : ℕ) (envelope : BotResponse) (r : Result) : Type 0 where
  sent : IsGood n envelope → r.status ≡ status_sent → IsClassed n envelope r
  gone : IsGone n envelope → r.status ≡ status_undeliverable → IsClassed n envelope r
  other :
      ¬ IsGood n envelope → ¬ IsGone n envelope → r.status ≡ status_failed → IsClassed n envelope r

abbrev good : ℕ → BotResponse → Bool
good n envelope = leb 200 n && ltb n 300 && envelope.ok

not_good : (n : ℕ) (envelope : BotResponse) → good n envelope ≡ false → ¬ IsGood n envelope
not_good n envelope h = λ is. ground (arith, is.at_least, is.below, is.ok)

away_cases :
    (n : ℕ) (envelope : BotResponse)
    → eqb n 403 || telegram_chat_unavailable envelope.description ≡ true
    → (n ≡ 403) ⊎ (telegram_chat_unavailable envelope.description ≡ true)
away_cases n envelope h = elim (Bool-cases (eqb n 403)) [
  | inl forbidden ↦ inl (ground arith)
  | inr not_so ↦ inr (ground arith)
]

still_there :
    (n : ℕ) (envelope : BotResponse)
    → eqb n 403 || telegram_chat_unavailable envelope.description ≡ false
    → ¬ ((n ≡ 403) ⊎ (telegram_chat_unavailable envelope.description ≡ true))
still_there n envelope h (inl forbidden) = ground arith
still_there n envelope h (inr unavailable) = ground arith

classify-IsClassed : (n : ℕ) (envelope : BotResponse) → IsClassed n envelope (classify n envelope)
unfolding classify
classify-IsClassed n envelope = elim (Bool-cases (good n envelope)) [
  | inl fine ↦
      rw fine
        (sent (record { at_least = ground arith; below = ground arith; ok = ground arith }) refl)
  | inr bad ↦
      let no_good = not_good n envelope bad in
      elim (Bool-cases (eqb n 401)) [
        | inl auth ↦ rw (bad, auth) (other no_good (λ is. is.no_auth (ground arith)) refl)
        | inr no_auth ↦ elim (Bool-cases (eqb n 429 || leb 500 n)) [
          | inl busy ↦
              rw (bad, no_auth, busy)
                (other no_good (λ is. ground (arith, is.no_limit, is.no_server)) refl)
          | inr free ↦
              elim (Bool-cases (eqb n 403 || telegram_chat_unavailable envelope.description)) [
                | inl away ↦
                    rw (bad, no_auth, free, away)
                      (gone
                        (record {
                          not_good = no_good;
                          no_auth = ground arith;
                          no_limit = ground arith;
                          no_server = ground arith;
                          gone = away_cases n envelope away;
                        })
                        refl)
                | inr there ↦
                    rw (bad, no_auth, free, there)
                      (other no_good (λ is. still_there n envelope there is.gone) refl)
              ]
        ]
      ]
]

-- What the program knows of the request that it made.
module _ (t : BotTransport) (p : TelegramBot) (past : List Attempt) (msg : Message) where
  -- The one request of the message to a chat, and the answer to it.
  pub record IsPosted (answer : Answer) : Type 0 where
    pub chat : ℤ
    pub body : String
    pub token : p.bot_token ≢ ""
    pub to_chat : chat_id msg.recipient ≡ some chat
    pub encoded : t.marshal (request_of t p chat msg) ≡ some body
    pub is_url : t.is_url (send_url p) ≡ true
    pub exchanged : t.exchange past p.timeout (send_url p) body ≡ answer

  -- The ends of Send: without a token or a chat, or without a request; by an answer that cannot be
  -- read; or by the class of the answer to the one request.
  pub data IsBotEnd (r : Result) : Type 0 where
    nowhere :
        (p.bot_token ≡ "") ⊎ (chat_id msg.recipient ≡ none)
        → r.status ≡ status_undeliverable
        → IsBotEnd r
    no_request :
        (chat : ℤ)
        → p.bot_token ≢ ""
        → chat_id msg.recipient ≡ some chat
        → (t.marshal (request_of t p chat msg) ≡ none) ⊎ (t.is_url (send_url p) ≡ false)
        → r.status ≡ status_failed
        → IsBotEnd r
    unanswered :
        (timed_out : Bool)
        → IsPosted (no_response timed_out)
        → r.status ≡ status_failed
        → IsBotEnd r
    unreadable : (n : ℕ) → IsPosted (response n none) → r.status ≡ status_failed → IsBotEnd r
    told :
        (n : ℕ) (envelope : BotResponse)
        → IsPosted (response n (some envelope))
        → IsClassed n envelope r
        → IsBotEnd r

  answered-IsBotEnd : (answer : Answer) → IsPosted answer → IsBotEnd (answered answer)
  unfolding answered
  answered-IsBotEnd (no_response true) posted = unanswered true posted refl
  answered-IsBotEnd (no_response false) posted = unanswered false posted refl
  answered-IsBotEnd (response n none) posted = unreadable n posted refl
  answered-IsBotEnd (response n (some envelope)) posted =
      told n envelope posted (classify-IsClassed n envelope)

  module _ (chat : ℤ) (token : p.bot_token ≢ "") (to_chat : chat_id msg.recipient ≡ some chat) where
    post-IsBotEnd :
        (encoded : Option String)
        → t.marshal (request_of t p chat msg) ≡ encoded
        → IsBotEnd (post t p past encoded)
    unfolding post
    post-IsBotEnd none nothing = no_request chat token to_chat (inl nothing) refl
    post-IsBotEnd (some body) encoded = elim (Bool-cases (t.is_url (send_url p))) [
      | inl url ↦ rw url (
          answered-IsBotEnd _ (record {
            chat = chat;
            body = body;
            token = token;
            to_chat = to_chat;
            encoded = encoded;
            is_url = url;
            exchanged = refl;
          }))
      | inr no_url ↦ rw no_url (no_request chat token to_chat (inr no_url) refl)
    ]

  to_chat-IsBotEnd :
      (found : Option ℤ)
      → p.bot_token ≢ ""
      → chat_id msg.recipient ≡ found
      → IsBotEnd (send_to_chat t p past msg found)
  unfolding send_to_chat
  to_chat-IsBotEnd none token nowhere_to = nowhere (inr nowhere_to) refl
  to_chat-IsBotEnd (some chat) token to_chat = post-IsBotEnd chat token to_chat _ refl

  -- Without a token or a chat a message is undeliverable, and nothing is asked; a request that cannot
  -- be made fails. Else there is one request, with the message for the chat: the message is sent
  -- exactly if the answer is an object that says so with a status of the class 2xx; undeliverable
  -- exactly if it is another object with the status 403 or a text that the chat is gone, and the
  -- status is neither 401 nor 429 nor at least 500; and in all other cases it failed.
  pub send-IsBotEnd : IsBotEnd (send t p past msg)
  unfolding send
  send-IsBotEnd = elim (Bool-cases (p.bot_token == "")) [
    | inl blank ↦ rw blank (nowhere (inl ((eq_iff p.bot_token "").0 blank)) refl)
    | inr token ↦
        rw token (
          to_chat-IsBotEnd (chat_id msg.recipient) (λ h. ground (arith, eq_iff p.bot_token ""))
            refl)
  ]
