-- ===== src/Runtime/Raises.antt =====
-- Which exceptions an action can raise.
use webhook_ingestion_servic.Prelude.{
  ◌≡◌, refl, subst, ap, Bool, true, false, String, if◌then◌else◌,
}
use webhook_ingestion_servic.Metrics.{Metrics}
use webhook_ingestion_servic.Runtime.{
  World, Action, Outcome, ok, raise, Exn, http, queue_unavailable, pure, throw, gets, modify,
  record_metric, try_except, except_unavailable, ◌>>=◌, continue, handle, only_unavailable,
}

-- The action raises only exceptions of the kind.
pub record OnlyRaises {ℓ} (P : Exn → Type 0) {A : Type ℓ} (m : Action A) : Type ℓ where
  pub at : (w : World) (x : Exn) → (m w).0 ≡ raise x → P x

-- The exceptions that are `QueueUnavailableError`.
abbrev pub IsUnavailable : Exn → Type 0
IsUnavailable (queue_unavailable s) = Unit
IsUnavailable _ = ⊥

-- The exceptions that are answered with the status 503.
abbrev pub IsHttp503 : Exn → Type 0
IsHttp503 (http status detail) = status ≡ 503
IsHttp503 _ = ⊥

-- No exception.
abbrev pub IsNothing : Exn → Type 0
IsNothing x = ⊥

abbrev raised {ℓ} : {A : Type ℓ} → Exn → Outcome A → Exn
raised x (ok a) = x
raised x (raise e) = e

module _ {ℓ} {A : Type ℓ} {P : Exn → Type 0} where
  pub OnlyRaises-pure : (a : A) → OnlyRaises P (pure a)
  OnlyRaises-pure a = record { at = λ w x h. absurd (cc) }

  pub OnlyRaises-gets : (f : World → A) → OnlyRaises P (gets f)
  OnlyRaises-gets f = record { at = λ w x h. absurd (cc) }

  pub OnlyRaises-throw : (e : Exn) → P e → OnlyRaises P (throw {A = A} e)
  OnlyRaises-throw e p = record { at = λ w x h. subst P (ap (raised e) h) p }

  pub OnlyRaises-if :
      (b : Bool) (m n : Action A)
      → OnlyRaises P m
      → OnlyRaises P n
      → OnlyRaises P (if b then m else n)
  OnlyRaises-if true m n p q = p
  OnlyRaises-if false m n p q = q

  handled :
      (f : Exn → Action A) (r : Outcome A) (v : World) (x : Exn)
      → ((e : Exn) → OnlyRaises P (f e))
      → (handle f r v).0 ≡ raise x
      → P x
  handled f (ok a) v x q h = absurd (cc)
  handled f (raise e) v x q h = (q e).at v x h

  pub OnlyRaises-try_except :
      (m : Action A) (f : Exn → Action A)
      → ((e : Exn) → OnlyRaises P (f e))
      → OnlyRaises P (try_except m f)
  OnlyRaises-try_except m f q = record { at = λ w x h. let (r, v) = m w in handled f r v x q h }

  unavailable_handled :
      (f : Exn → Action A) (r : Outcome A) (v : World) (x : Exn)
      → ((y : Exn) → r ≡ raise y → IsUnavailable y)
      → ((e : Exn) → OnlyRaises P (f e))
      → (handle (only_unavailable f) r v).0 ≡ raise x
      → P x
  unavailable_handled f (ok a) v x u q h = absurd (cc)
  unavailable_handled f (raise (queue_unavailable s)) v x u q h = (q (queue_unavailable s)).at v x h
  unavailable_handled f (raise e) v x u q h = absurd (u e refl)

  pub OnlyRaises-except_unavailable :
      (m : Action A) (f : Exn → Action A)
      → OnlyRaises IsUnavailable m
      → ((e : Exn) → OnlyRaises P (f e))
      → OnlyRaises P (except_unavailable m f)
  OnlyRaises-except_unavailable m f u q = record {
    at = λ w x h. let (r, v) = m w in unavailable_handled f r v x (u.at w) q h;
  }

module _ {P : Exn → Type 0} where
  pub OnlyRaises-modify : (f : World → World) → OnlyRaises P (modify f)
  OnlyRaises-modify f = record { at = λ w x h. absurd (cc) }

  pub OnlyRaises-record_metric : (f : Metrics → Metrics) → OnlyRaises P (record_metric f)
  OnlyRaises-record_metric f = record { at = λ w x h. absurd (cc) }

module _ {ℓ κ} {A : Type ℓ} {B : Type κ} {P : Exn → Type 0} where
  continued :
      (f : A → Action B) (r : Outcome A) (v : World) (x : Exn)
      → ((y : Exn) → r ≡ raise y → P y)
      → ((a : A) → OnlyRaises P (f a))
      → (continue f r v).0 ≡ raise x
      → P x
  continued f (ok a) v x p q h = (q a).at v x h
  continued f (raise e) v x p q h = subst P (ap (raised e) h) (p e refl)

  pub OnlyRaises-bind :
      (m : Action A) (f : A → Action B)
      → OnlyRaises P m
      → ((a : A) → OnlyRaises P (f a))
      → OnlyRaises P (m >>= f)
  OnlyRaises-bind m f p q = record {
    at = λ w x h. let (r, v) = m w in continued f r v x (p.at w) q h;
  }

pub ruleset raises_rules = (
  OnlyRaises-pure, OnlyRaises-gets, OnlyRaises-throw, OnlyRaises-if, OnlyRaises-try_except,
  OnlyRaises-except_unavailable, OnlyRaises-modify, OnlyRaises-record_metric, OnlyRaises-bind, refl,
)
