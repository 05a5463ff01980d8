-- ===== src/Command/Service/Connecting.antt =====
-- How the loop that connects to the broker ends.
use message_delivery.Prelude.{
  ◌++◌, ℕ, zero, suc, ◌+◌, Bool-cases, inl, inr, true, false, ◌≡◌, ◌⊎◌, refl, sym, ◌∙◌, Option,
  List, [], ◌∷◌, arith,
}
use mathlib.Core.Path.{subst}
use message_delivery.Config.{BrokerConfig}
use message_delivery.Broker.{
  Operation, Link, close, connect, dialled, Client, setup, BrokerError, consume,
}
use message_delivery.Command.Service.{
  Round, ConnectError, Reached, consumes, logs, try_round, Connected, connected, cancelled,
  connect_broker, Fallible, some, consumed, after_setup, dial_failed, ok, err, setup_failed, none,
}

-- Each connection that is dialled is closed before the next one.
pub data IsClosed : List Link → Type 0 where
  untouched : IsClosed []
  over : {links : List Link} → IsClosed links → IsClosed (dialled ∷ Link.closed ∷ links)

-- From a round on, the loop ends as it is said: at the first round that consumes, with the one
-- connection that it dialled, or at one after which the context is done, every round before having
-- logged its error, closed its connection and paused.
pub data EndsAt (cfg : BrokerConfig) (rounds : ℕ → Round)
    : ℕ → Connected → List (Option ConnectError) → List Link → Type 0 where
  starts :
      {n : ℕ} (calls : List Operation)
      → (try_round cfg (rounds n)).0 ≡ consumes calls
      → EndsAt cfg rounds n (connected calls) [] (dialled ∷ [])
  stops :
      {n : ℕ} {links : List Link} (problem : Option ConnectError)
      → (try_round cfg (rounds n)).0 ≡ logs problem
      → (rounds n).done ≡ true
      → IsClosed links
      → EndsAt cfg rounds n cancelled (problem ∷ []) links
  goes_on :
      {n : ℕ} {ended : Connected} {problems : List (Option ConnectError)} {during links : List Link}
      (problem : Option ConnectError)
      → (try_round cfg (rounds n)).0 ≡ logs problem
      → (rounds n).done ≡ false
      → IsClosed during
      → EndsAt cfg rounds (suc n) ended problems links
      → EndsAt cfg rounds n ended (problem ∷ problems) (during ++ links)

-- A round that does not lead to another one.
abbrev pub IsLast : BrokerConfig → Round → Type 0
IsLast cfg round =
    ((calls : List Operation) × ((try_round cfg round).0 ≡ consumes calls)) ⊎ (round.done ≡ true)

-- What a round leaves behind, by how it ends.
pub data Leaves : Reached → List Link → Type 0 where
  one_open : (calls : List Operation) → Leaves (consumes calls) (dialled ∷ [])
  none_open :
      (problem : Option ConnectError) {links : List Link}
      → IsClosed links
      → Leaves (logs problem) links

consumed-Leaves :
    (r : Fallible BrokerError (Unit {0}) × List Operation)
    → Leaves (consumed r (dialled ∷ [])).0 (consumed r (dialled ∷ [])).1
unfolding close
consumed-Leaves (ok _, calls) = one_open calls
consumed-Leaves (err e, calls) = none_open none (over untouched)

after_setup-Leaves :
    (client : Client) (cfg : BrokerConfig) (r : Fallible BrokerError (Unit {0}) × List Operation)
    → Leaves (after_setup client cfg r (dialled ∷ [])).0 (after_setup client cfg r (dialled ∷ [])).1
unfolding close
after_setup-Leaves client cfg (ok _, calls) = consumed-Leaves (consume client cfg calls)
after_setup-Leaves client cfg (err e, calls) = none_open (some (setup_failed e)) (over untouched)

try_round-Leaves :
    (cfg : BrokerConfig) (round : Round) → Leaves (try_round cfg round).0 (try_round cfg round).1
unfolding try_round connect
try_round-Leaves cfg round = elim (Bool-cases round.connects) [
  | inl there ↦ rw there (after_setup-Leaves round.client cfg (setup round.client cfg []))
  | inr missing ↦ rw missing (none_open (some dial_failed) untouched)
]

Reached-cases :
    (r : Reached)
    → ((calls : List Operation) × (r ≡ consumes calls))
      ⊎ ((problem : Option ConnectError) × (r ≡ logs problem))
Reached-cases (consumes calls) = inl (calls, refl)
Reached-cases (logs problem) = inr (problem, refl)

-- A round that goes on is not the last one.
IsLast-goes_on :
    (cfg : BrokerConfig) (round : Round) (problem : Option ConnectError)
    → (try_round cfg round).0 ≡ logs problem
    → round.done ≡ false
    → ¬ IsLast cfg round
IsLast-goes_on cfg round problem logging paused (inl (calls, consuming)) =
    cc (sym logging ∙ consuming)
IsLast-goes_on cfg round problem logging paused (inr done) = cc (sym paused ∙ done)

Leaves-consumes :
    {calls : List Operation} {links : List Link}
    → Leaves (consumes calls) links
    → links ≡ dialled ∷ []
Leaves-consumes (one_open calls) = refl

Leaves-logs :
    {problem : Option ConnectError} {links : List Link}
    → Leaves (logs problem) links
    → IsClosed links
Leaves-logs (none_open problem closed) = closed

-- One round, with what is known of the later ones where it goes on.
round-EndsAt :
    (cfg : BrokerConfig) (rounds : ℕ → Round) (fuel n : ℕ)
    → (¬ IsLast cfg (rounds n)
        → EndsAt cfg rounds
            (suc n)
            (connect_broker cfg rounds fuel (suc n)).0
            (connect_broker cfg rounds fuel (suc n)).1.0
            (connect_broker cfg rounds fuel (suc n)).1.1)
    → EndsAt cfg rounds n
        (connect_broker cfg rounds (suc fuel) n).0
        (connect_broker cfg rounds (suc fuel) n).1.0
        (connect_broker cfg rounds (suc fuel) n).1.1
unfolding connect_broker
round-EndsAt cfg rounds fuel n later =
    let leaves = try_round-Leaves cfg (rounds n) in
    elim (Reached-cases (try_round cfg (rounds n)).0) [
      | inl (calls, consuming) ↦
          rw (consuming, connect_broker)
            (rw (Leaves-consumes (rw consuming at leaves)) (starts calls consuming))
      | inr (problem, logging) ↦
          let closed : IsClosed (try_round cfg (rounds n)).1 = Leaves-logs (rw logging at leaves) in
          elim (Bool-cases (rounds n).done) [
            | inl done ↦ rw (logging, done, connect_broker) (stops problem logging done closed)
            | inr paused ↦
                let on = later (IsLast-goes_on cfg (rounds n) problem logging paused) in
                rw (logging, paused, connect_broker) (goes_on problem logging paused closed on)
          ]
    ]

-- If some round is the last one, the loop ends with as many rounds as it takes to get there, at the
-- latest there, and not for want of rounds. Each connection that it dialled is closed before the next
-- one, except for the one with the consumer that it ends with.
pub connect_broker-EndsAt :
    (cfg : BrokerConfig) (rounds : ℕ → Round) (more n : ℕ)
    → IsLast cfg (rounds (more + n))
    → EndsAt cfg rounds n
        (connect_broker cfg rounds (suc more) n).0
        (connect_broker cfg rounds (suc more) n).1.0
        (connect_broker cfg rounds (suc more) n).1.1
connect_broker-EndsAt cfg rounds zero n last =
    let here : IsLast cfg (rounds n) = subst (λ k. IsLast cfg (rounds k)) (omega arith) last in
    round-EndsAt cfg rounds zero n (λ not_last. absurd (not_last here))
connect_broker-EndsAt cfg rounds (suc more) n last =
    let later : IsLast cfg (rounds (more + suc n)) =
      subst (λ k. IsLast cfg (rounds k)) (omega arith) last in
    round-EndsAt cfg rounds (suc more) n (λ _. connect_broker-EndsAt cfg rounds more (suc n) later)
