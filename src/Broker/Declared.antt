-- ===== src/Broker/Declared.antt =====
-- What the setup of the broker has declared when it returns.
use message_delivery.Prelude.{
  Bool-cases, inl, inr, true, false, ◌≡◌, refl, sym, ap, ◌∙◌, List, [], ◌∷◌, ◌++◌, map,
}
use mathlib.Core.List.{append_assoc, append-nil}
use message_delivery.Prelude.Fallible.{Fallible, ok, err}
use message_delivery.Config.{BrokerConfig}
use message_delivery.Broker.{
  Client, Operation, BrokerError, open_channel, close_channel, open_setup_channel, call, call_all,
  topology, setup, then_close,
}

-- The operations of a list of calls.
abbrev pub operations : List (Operation × BrokerError) → List Operation
operations calls = map (λ c. c.0) calls

-- How a list of calls ends: all were made, or one failed, the ones before it having succeeded.
pub data Ran (client : Client)
    : List (Operation × BrokerError)
      → List Operation
      → Fallible BrokerError (Unit {0})
      → List Operation
      → Type 0 where
  finished : {past : List Operation} → Ran client [] past (ok tt) past
  went_on :
      {calls : List (Operation × BrokerError)} {past past' : List Operation}
      {r : Fallible BrokerError (Unit {0})} (operation : Operation) (e : BrokerError)
      → client.succeeds past operation ≡ true
      → Ran client calls (past ++ operation ∷ []) r past'
      → Ran client ((operation, e) ∷ calls) past r past'
  stopped :
      {calls : List (Operation × BrokerError)} {past : List Operation} (operation : Operation)
      (e : BrokerError)
      → client.succeeds past operation ≡ false
      → Ran client ((operation, e) ∷ calls) past (err e) (past ++ operation ∷ [])

call_all-Ran :
    (client : Client) (calls : List (Operation × BrokerError)) (past : List Operation)
    → Ran client calls past (call_all client calls past).0 (call_all client calls past).1
unfolding call_all call
call_all-Ran client [] past = finished
call_all-Ran client ((operation, e) ∷ calls) past =
    elim (Bool-cases (client.succeeds past operation)) [
      | inl fine ↦
          rw fine (went_on operation e fine (call_all-Ran client calls (past ++ operation ∷ [])))
      | inr refused ↦ rw refused (stopped operation e refused)
    ]

Ran-ok :
    {client : Client} {calls : List (Operation × BrokerError)} {past past' : List Operation}
    {r : Fallible BrokerError (Unit {0})}
    → Ran client calls past r past'
    → r ≡ ok tt
    → past' ≡ past ++ operations calls
Ran-ok {past} finished h = sym (append-nil past)
Ran-ok {past} (went_on {calls} operation e fine rest) h =
    Ran-ok rest h ∙ append_assoc past (operation ∷ []) (operations calls)
Ran-ok (stopped operation e refused) h = cc (h)

-- The ends of a setup: without a channel; or with the calls of the topology made in order, up to the
-- first that failed, and the channel closed.
pub data IsRun (client : Client) (cfg : BrokerConfig) (past : List Operation)
    (r : Fallible BrokerError (Unit {0})) (after : List Operation) : Type 0 where
  no_channel :
      client.succeeds past open_channel ≡ false
      → r ≡ err open_setup_channel
      → after ≡ past ++ open_channel ∷ []
      → IsRun client cfg past r after
  on_channel :
      (inside : List Operation)
      → client.succeeds past open_channel ≡ true
      → Ran client (topology cfg) (past ++ open_channel ∷ []) r inside
      → after ≡ inside ++ close_channel ∷ []
      → IsRun client cfg past r after

-- However the setup ends: it made no call but the one for a channel, which failed; or it opened a
-- channel, made the calls of the topology in order up to the first that failed, whose error it
-- returns, and closed the channel.
pub setup-IsRun :
    (client : Client) (cfg : BrokerConfig) (past : List Operation)
    → IsRun client cfg past (setup client cfg past).0 (setup client cfg past).1
unfolding setup call then_close
setup-IsRun client cfg past = elim (Bool-cases (client.succeeds past open_channel)) [
  | inl fine ↦
      rw fine
        (on_channel _ fine (call_all-Ran client (topology cfg) (past ++ open_channel ∷ [])) refl)
  | inr refused ↦ rw refused (no_channel refused refl refl)
]

IsRun-ok :
    {client : Client} {cfg : BrokerConfig} {past after : List Operation}
    {r : Fallible BrokerError (Unit {0})}
    → IsRun client cfg past r after
    → r ≡ ok tt
    → after ≡ past ++ (open_channel ∷ (operations (topology cfg) ++ close_channel ∷ []))
IsRun-ok (no_channel refused ended calls) h = cc (ended, h)
IsRun-ok {cfg} {past} (on_channel inside fine ran calls) h =
    calls ∙ ap (λ l. l ++ close_channel ∷ []) (Ran-ok ran h) ∙ simp (append_assoc)

-- A setup that succeeds has made exactly the calls of the topology, in order, on a channel that it
-- opened before and closed after them.
pub setup_declares :
    (client : Client) (cfg : BrokerConfig) (past : List Operation)
    → (setup client cfg past).0 ≡ ok tt
    → (setup client cfg past).1
      ≡ past ++ (open_channel ∷ (operations (topology cfg) ++ close_channel ∷ []))
setup_declares client cfg past h = IsRun-ok (setup-IsRun client cfg past) h
