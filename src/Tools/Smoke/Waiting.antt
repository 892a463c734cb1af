-- ===== src/Tools/Smoke/Waiting.antt =====
-- How the waiting loop of tools/smoke_check.py ends.
use webhook_ingestion_servic.Prelude.{
  ℕ, zero, suc, ◌+◌, ◌≤◌, ◌<◌, ◌≡◌, refl, subst, ◌⊎◌, inl, inr, String, false, Option, none, some,
  ◌∷◌, ltb, arith, Bool-cases,
}
use Prim.Native.String.{◌++◌ as append}
use webhook_ingestion_servic.Tools.Client.{
  Net, Trace, runtime_error, Ending, ok, raise, unfinished, Client, continue, slept, now, sleep,
  pure, ◌>>◌,
}
use webhook_ingestion_servic.Tools.Client.Runs.{IsClock, HasEnded, Runs, continue_later}
use webhook_ingestion_servic.Tools.Smoke.{wait_rounds, wait_for}

module _ (net : Net) {A : Type 0} (predicate : Client (Option A)) (timeout step : ℕ)
    (description : String) where
  -- A value was the result of the predicate, called before the deadline. A failure is the timeout, after
  -- the deadline, or came from the predicate. And it ends.
  abbrev pub Waits : (deadline : ℕ) → Ending A × Trace → Type 0
  Waits deadline (ok value, v) =
      (u : Trace) × (net.time u < deadline) × (predicate u ≡ (ok (some value), v))
  Waits deadline (raise e, v) =
      ((e ≡ runtime_error (append "Timed out waiting for " description)) × (deadline ≤ net.time v))
      ⊎ ((u : Trace) × (net.time u < deadline) × (predicate u ≡ (raise e, v)))
  Waits deadline (unfinished, v) = ⊥

  module _ (clock : IsClock net) (runs : Runs net predicate) (lasting : 1 ≤ step) where
    abbrev loop : ℕ → ℕ → Client A
    loop started rounds = wait_rounds net predicate timeout step started description rounds

    -- What follows a call of the predicate.
    abbrev after : ℕ → ℕ → Option A → Client A
    after started rounds result = elim result [
      | none ↦ sleep net step >> loop started rounds
      | some value ↦ pure value
    ]

    go_on :
        (started rounds : ℕ) (t : Trace) (p : Ending (Option A) × Trace)
        → net.time t < started + timeout
        → predicate t ≡ p
        → HasEnded p.0
        → ((v : Trace) → p.1 ≡ v → Waits (started + timeout) (loop started rounds (slept step ∷ v)))
        → Waits (started + timeout) (continue (after started rounds) p.0 p.1)
    unfolding sleep
    go_on started rounds t (ok none, v) early called ended again = again v refl
    go_on started rounds t (ok (some value), v) early called ended again = (t, early, called)
    go_on started rounds t (raise e, v) early called ended again = inr (t, early, called)
    go_on started rounds t (unfinished, v) early called ended again = absurd ended

    after_sleep :
        (rounds started : ℕ) (t v : Trace)
        → started + timeout ≤ net.time t + suc rounds
        → (predicate t).1 ≡ v
        → started + timeout ≤ net.time (slept step ∷ v) + rounds
    after_sleep rounds started t v enough is =
        let slow : net.time t ≤ net.time v =
          subst (λ x. net.time t ≤ net.time x) is (runs.later t) in
        omega (arith, slow, clock.sleeps step v)

    late_enough :
        (started : ℕ) (t : Trace)
        → started + timeout ≤ net.time t
        → ltb (net.time t) (started + timeout) ≡ false
    late_enough started t h = ground arith

    rounds-Waits :
        (rounds started : ℕ) (t : Trace)
        → started + timeout ≤ net.time t + rounds
        → Waits (started + timeout) (loop started (suc rounds) t)
    unfolding wait_rounds now
    rounds-Waits zero started t enough =
        rw (late_enough started t (omega arith)) (inl (refl, omega arith))
    rounds-Waits (suc rounds) started t enough =
        elim (Bool-cases (ltb (net.time t) (started + timeout))) [
          | inl early ↦ rw early (
              go_on started (suc rounds) t (predicate t) (ground (arith, early)) refl (runs.ends t)
                (λ v is.
                  rounds-Waits rounds started (slept step ∷ v)
                    (after_sleep rounds started t v enough is)))
          | inr late ↦ rw late (inl (refl, ground (arith, late)))
        ]

    after_later :
        (started rounds : ℕ)
        → ((u : Trace) → net.time u ≤ net.time (loop started rounds u).1)
        → (result : Option A) (t : Trace) → net.time t ≤ net.time (after started rounds result t).1
    unfolding sleep
    after_later started rounds h none t =
        omega (arith, h (slept step ∷ t), clock.forward (slept step) t)
    after_later started rounds h (some value) t = omega arith

    rounds_later :
        (rounds started : ℕ) (t : Trace) → net.time t ≤ net.time (loop started rounds t).1
    unfolding wait_rounds now
    rounds_later zero started t = omega arith
    rounds_later (suc rounds) started t = elim (Bool-cases (ltb (net.time t) (started + timeout))) [
      | inl early ↦ rw early (
          omega (
            arith,
            runs.later t,
            continue_later net (after started rounds) (predicate t).0 (predicate t).1
                (after_later started rounds (rounds_later rounds started)),
          ))
      | inr late ↦ rw late (omega arith)
    ]

  ends_of : (deadline : ℕ) (p : Ending A × Trace) → Waits deadline p → HasEnded p.0
  ends_of deadline (ok value, v) h = tt
  ends_of deadline (raise e, v) h = tt
  ends_of deadline (unfinished, v) h = h

  -- `wait_for` of tools/smoke_check.py, for a predicate that ends, with a positive step and more rounds
  -- than the timeout has milliseconds, on a clock that does not go back: it ends. A value is what the
  -- predicate gave at a call before the deadline; a failure is the timeout, not before the deadline, or
  -- came from such a call.
  pub wait_for-Waits :
      (rounds : ℕ) (t : Trace)
      → IsClock net
      → Runs net predicate
      → 1 ≤ step
      → timeout < rounds
      → Waits (net.time t + timeout) (wait_for net predicate timeout step description rounds t)
  unfolding wait_for now
  wait_for-Waits zero t clock runs lasting enough = absurd (omega arith)
  wait_for-Waits (suc rounds) t clock runs lasting enough =
      rounds-Waits clock runs lasting rounds (net.time t) t (omega arith)

  pub wait_for-Runs :
      (rounds : ℕ)
      → IsClock net
      → Runs net predicate
      → 1 ≤ step
      → timeout < rounds
      → Runs net (wait_for net predicate timeout step description rounds)
  unfolding wait_for now
  wait_for-Runs rounds clock runs lasting enough = record {
    ends =
        λ t. ends_of (net.time t + timeout) _ (wait_for-Waits rounds t clock runs lasting enough);
    later = λ t. rounds_later clock runs lasting rounds (net.time t) t;
  }
