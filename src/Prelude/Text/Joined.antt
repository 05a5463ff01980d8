-- ===== src/Prelude/Text/Joined.antt =====
-- Runs and prefixes of a text that is joined of parts.
use Prim.Native.String.{◌++◌ as ◌<>◌}
use Prim.Native.String.append
use Prim.Native.String.{String}
use Prim.Native.Char.{Char}
use mathlib.Core.Path.{◌≡◌, refl, ap, ◌∙◌}
use mathlib.Core.Logic.{◌≢◌, inl, inr}
use mathlib.Core.Bool.{Bool, true, false}
use mathlib.Core.Option.{some}
use native.Mathlib.Omega.{arith}
use message_delivery.Prelude.Tests.{Bool-cases}
use message_delivery.Prelude.Text.Scan.{all_chars}
use message_delivery.Prelude.Text.Runs.{take_run, drop_run, cut_prefix, starts_with}

pub starts_with-append :
    (p : Char → Bool) (s t : String) → s ≢ "" → starts_with p (s <> t) ≡ starts_with p s
unfolding starts_with
starts_with-append p String.[] t filled = absurd (filled refl)
starts_with-append p (String.◌∷◌ c s) t filled = rw append.cons

pub starts_with-all :
    (p : Char → Bool) (s : String) → s ≢ "" → all_chars p s ≡ true → starts_with p s ≡ true
unfolding starts_with all_chars
starts_with-all p String.[] filled h = absurd (filled refl)
starts_with-all p (String.◌∷◌ c s) filled h = ground arith

module _ (p q : Char → Bool) (apart : (c : Char) → p c ≡ true → q c ≡ false) where
  -- What is made of other characters begins with none of these.
  pub starts_with-apart : (s : String) → all_chars p s ≡ true → starts_with q s ≡ false
  unfolding starts_with all_chars
  starts_with-apart String.[] h = refl
  starts_with-apart (String.◌∷◌ c s) h = apart c (ground arith)

  pub starts_with-apart_append :
      (s t : String) → s ≢ "" → all_chars p s ≡ true → starts_with q (s <> t) ≡ false
  starts_with-apart_append s t filled h = starts_with-append q s t filled ∙ starts_with-apart s h

module _ (p : Char → Bool) where
  -- A run ends where it cannot go on.
  take_run-stop : (s : String) → starts_with p s ≡ false → take_run p s ≡ ""
  unfolding take_run starts_with
  take_run-stop String.[] h = refl
  take_run-stop (String.◌∷◌ c s) h = rw h

  drop_run-stop : (s : String) → starts_with p s ≡ false → drop_run p s ≡ s
  unfolding drop_run starts_with
  drop_run-stop String.[] h = refl
  drop_run-stop (String.◌∷◌ c s) h = rw h

  pub take_run-append :
      (s t : String) → all_chars p s ≡ true → starts_with p t ≡ false → take_run p (s <> t) ≡ s
  unfolding take_run all_chars
  take_run-append String.[] t h stop = rw append.nil (take_run-stop t stop)
  take_run-append (String.◌∷◌ c s) t h stop = elim (Bool-cases (p c)) [
    | inl met ↦
        rw append.cons (rw met (ap (λ r. String.◌∷◌ c r) (take_run-append s t (ground arith) stop)))
    | inr other ↦ ground arith
  ]

  pub drop_run-append :
      (s t : String) → all_chars p s ≡ true → starts_with p t ≡ false → drop_run p (s <> t) ≡ t
  unfolding drop_run all_chars
  drop_run-append String.[] t h stop = rw append.nil (drop_run-stop t stop)
  drop_run-append (String.◌∷◌ c s) t h stop = elim (Bool-cases (p c)) [
    | inl met ↦ rw append.cons (rw met (drop_run-append s t (ground arith) stop))
    | inr other ↦ ground arith
  ]

pub cut_prefix-append : (prefix s : String) → cut_prefix prefix (prefix <> s) ≡ some s
unfolding cut_prefix
cut_prefix-append String.[] s = rw append.nil
cut_prefix-append (String.◌∷◌ c prefix) s =
    rw append.cons (ground (arith, cut_prefix-append prefix s))
