-- ===== src/Runtime/Calm.antt =====
-- Runs in which no external call raises.
use webhook_ingestion_servic.Prelude.{◌≡◌, Bool, true, false, ◌∷◌, if◌then◌else◌}
use webhook_ingestion_servic.Metrics.{Metrics}
use webhook_ingestion_servic.Runtime.{
  Runtime, World, Action, Outcome, ok, raise, Exn, Call, did, History, pure, gets, modify,
  record_metric, try_except, perform, query, ◌>>=◌, continue, handle,
}

-- The broker, the database and the imports work.
pub record IsCalm (rt : Runtime) : Type 0 where
  pub works : (h : History) (c : Call) → rt.fails h c ≡ false

pub perform_calm :
    (rt : Runtime)
    → IsCalm rt
    → (c : Call) (w : World) → perform rt c w ≡ (ok tt, record w { history = did c ∷ w.history })
unfolding perform
perform_calm rt calm c w = rw (calm.works w.history c)

abbrev pub IsOk {ℓ} : {A : Type ℓ} → Outcome A → Type 0
IsOk (ok a) = Unit
IsOk (raise e) = ⊥

-- The action never raises.
pub record Returns {ℓ} {A : Type ℓ} (m : Action A) : Type ℓ where
  pub at : (w : World) → IsOk (m w).0

module _ {ℓ} {A : Type ℓ} where
  pub Returns-pure : (a : A) → Returns (pure a)
  Returns-pure a = record { at = λ w. tt }

  pub Returns-gets : (f : World → A) → Returns (gets f)
  Returns-gets f = record { at = λ w. tt }

  pub Returns-if :
      (b : Bool) (m n : Action A) → Returns m → Returns n → Returns (if b then m else n)
  Returns-if true m n p q = p
  Returns-if false m n p q = q

  handle-IsOk : (f : Exn → Action A) (r : Outcome A) (v : World) → IsOk r → IsOk (handle f r v).0
  handle-IsOk f (ok a) v h = tt
  handle-IsOk f (raise e) v h = absurd h

  pub Returns-try_except :
      (m : Action A) (f : Exn → Action A) → Returns m → Returns (try_except m f)
  Returns-try_except m f p = record { at = λ w. let (r, v) = m w in handle-IsOk f r v (p.at w) }

pub Returns-modify : (f : World → World) → Returns (modify f)
Returns-modify f = record { at = λ w. tt }

pub Returns-record_metric : (f : Metrics → Metrics) → Returns (record_metric f)
Returns-record_metric f = record { at = λ w. tt }

module _ {ℓ κ} {A : Type ℓ} {B : Type κ} where
  continue-IsOk :
      (f : A → Action B) (r : Outcome A) (v : World)
      → IsOk r
      → ((a : A) → Returns (f a))
      → IsOk (continue f r v).0
  continue-IsOk f (ok a) v h q = (q a).at v
  continue-IsOk f (raise e) v h q = absurd h

  pub Returns-bind :
      (m : Action A) (f : A → Action B) → Returns m → ((a : A) → Returns (f a)) → Returns (m >>= f)
  Returns-bind m f p q = record { at = λ w. let (r, v) = m w in continue-IsOk f r v (p.at w) q }

module _ (rt : Runtime) (calm : IsCalm rt) where
  pub Returns-perform : (c : Call) → Returns (perform rt c)
  unfolding perform
  Returns-perform c = record { at = λ w. rw (calm.works w.history c) tt }

  pub Returns-query {ℓ} : {A : Type ℓ} (c : Call) (f : History → A) → Returns (query rt c f)
  unfolding query
  Returns-query c f = record { at = λ w. rw (calm.works w.history c) tt }

pub ruleset returns_rules = (
  Returns-pure, Returns-gets, Returns-if, Returns-try_except, Returns-modify, Returns-record_metric,
  Returns-bind, Returns-perform, Returns-query,
)
