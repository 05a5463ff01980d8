-- ===== src/Broker/Made.antt =====
-- The calls that a computation has made when it succeeds.
use mathlib.Core.List.{append_assoc}
use message_delivery.Prelude.{◌≡◌, refl, ap, ◌∙◌, List, [], ◌∷◌, ◌++◌}
use message_delivery.Prelude.Fallible.{Fallible, ok, err}
use message_delivery.Broker.Channel.{
  Client, Calls, Operation, BrokerError, bind_result, close_if_failed, call, then_close, or_close,
  close_channel, ◌>>=◌,
}

-- Wherever it begins, a computation that succeeds with a value has made the calls of that value.
abbrev pub Makes {ℓ} : {A : Type ℓ} → Calls A → (A → List Operation) → Type ℓ
Makes {A} m ops = (past : List Operation) (a : A) → (m past).0 ≡ ok a → (m past).1 ≡ past ++ ops a

module _ {ℓ κ} {A : Type ℓ} {B : Type κ} where
  pub bind_result-ok :
      (r : Fallible BrokerError A) (past : List Operation) (f : A → Calls B) (b : B)
      → (bind_result r past f).0 ≡ ok b
      → (a : A) × (r ≡ ok a) × ((f a past).0 ≡ ok b) × ((bind_result r past f).1 ≡ (f a past).1)
  bind_result-ok (ok a) past f b h = (a, refl, h, refl)
  bind_result-ok (err e) past f b h = cc (h)

  -- Two computations one after the other: there is a value of the first, whose calls come first.
  pub >>=-Makes :
      (m : Calls A) (f : A → Calls B) (ops : A → List Operation) (more : A → B → List Operation)
      → Makes m ops
      → ((a : A) → Makes (f a) (more a))
      → (past : List Operation) (b : B) → ((m >>= f) past).0 ≡ ok b
      → (a : A) × (((m >>= f) past).1 ≡ past ++ (ops a ++ more a b))
  >>=-Makes m f ops more made makes past b h =
      let (a, first, rest, same) = bind_result-ok (m past).0 (m past).1 f b h in
      (
        a,
        same
            ∙ makes a (m past).1 b rest
            ∙ (ap (λ l. l ++ more a b) (made past a first) ∙ append_assoc past (ops a) (more a b)),
      )

pub call-Makes :
    (client : Client) (operation : Operation) (e : BrokerError)
    → Makes (call client operation e) (λ _. operation ∷ [])
unfolding call
call-Makes client operation e past a h = refl

pub then_close-Makes {ℓ} :
    {A : Type ℓ} (client : Client) (m : Calls A) (ops : A → List Operation)
    → Makes m ops
    → Makes (then_close client m) (λ a. ops a ++ close_channel ∷ [])
unfolding then_close
then_close-Makes client m ops makes past a h =
    ap (λ l. l ++ close_channel ∷ []) (makes past a h)
    ∙ append_assoc past (ops a) (close_channel ∷ [])

pub close_if_failed-ok {ℓ} :
    {A : Type ℓ} (r : Fallible BrokerError A) (past : List Operation) (a : A)
    → (close_if_failed r past).0 ≡ ok a
    → (r ≡ ok a) × ((close_if_failed r past).1 ≡ past)
close_if_failed-ok (ok b) past a h = (h, refl)
close_if_failed-ok (err e) past a h = cc (h)

pub or_close-Makes {ℓ} :
    {A : Type ℓ} (client : Client) (m : Calls A) (ops : A → List Operation)
    → Makes m ops
    → Makes (or_close client m) ops
unfolding or_close
or_close-Makes client m ops makes past a h =
    let (fine, same) = close_if_failed-ok (m past).0 (m past).1 a h in same ∙ makes past a fine
