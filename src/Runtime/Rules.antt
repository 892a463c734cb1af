-- ===== src/Runtime/Rules.antt =====
-- Frame rules: what an action leaves alone, whether it returns or raises. A frame is a reflexive and
-- transitive relation between the world before and the world after.
use webhook_ingestion_servic.Prelude.{
  String, ◌≡◌, refl, ◌∙◌, Bool, true, false, List, [], ◌∷◌, arith, if◌then◌else◌,
}
use webhook_ingestion_servic.Metrics.{Metrics}
use webhook_ingestion_servic.Runtime.{
  Runtime, World, Action, Outcome, ok, raise, Exn, Call, Step, did, publish, rpush, ack, Message,
  Bytes, History, pure, throw, gets, modify, record_metric, try_except, except_unavailable, perform,
  query, ◌>>=◌, continue, handle, only_unavailable, queue_unavailable,
}

pub record Frame (R : World → World → Type 0) : Type 0 where
  pub here : (w : World) → R w w
  pub chain : {u v w : World} → R u v → R v w → R u w
  pub metrics : (w : World) (f : Metrics → Metrics) → R w (record w { metrics = f w.metrics })

pub record Keeps {ℓ} (R : World → World → Type 0) {A : Type ℓ} (m : Action A) : Type ℓ where
  pub at : (w : World) → R w (m w).1

module _ {ℓ} {A : Type ℓ} {R : World → World → Type 0} (F : Frame R) where
  pub Keeps-pure : (a : A) → Keeps R (pure a)
  Keeps-pure a = record { at = F.here }

  pub Keeps-throw : (e : Exn) → Keeps R (throw {A = A} e)
  Keeps-throw e = record { at = F.here }

  pub Keeps-gets : (f : World → A) → Keeps R (gets f)
  Keeps-gets f = record { at = F.here }

  pub Keeps-if : (b : Bool) (m n : Action A) → Keeps R m → Keeps R n → Keeps R (if b then m else n)
  Keeps-if true m n p q = p
  Keeps-if false m n p q = q

  Keeps-handle :
      (f : Exn → Action A) (r : Outcome A) → ((e : Exn) → Keeps R (f e)) → Keeps R (handle f r)
  Keeps-handle f (ok a) q = Keeps-pure a
  Keeps-handle f (raise e) q = q e

  pub Keeps-try_except :
      (m : Action A) (f : Exn → Action A)
      → Keeps R m
      → ((e : Exn) → Keeps R (f e))
      → Keeps R (try_except m f)
  Keeps-try_except m f p q = record {
    at = λ w. let (r, v) = m w in F.chain (p.at w) ((Keeps-handle f r q).at v);
  }

  only_unavailable-Keeps :
      (f : Exn → Action A)
      → ((e : Exn) → Keeps R (f e))
      → (e : Exn) → Keeps R (only_unavailable f e)
  only_unavailable-Keeps f q (queue_unavailable s) = q (queue_unavailable s)
  only_unavailable-Keeps f q e = Keeps-throw e

  pub Keeps-except_unavailable :
      (m : Action A) (f : Exn → Action A)
      → Keeps R m
      → ((e : Exn) → Keeps R (f e))
      → Keeps R (except_unavailable m f)
  Keeps-except_unavailable m f p q =
      Keeps-try_except m (only_unavailable f) p (only_unavailable-Keeps f q)

module _ {R : World → World → Type 0} (F : Frame R) where
  pub Keeps-record_metric : (f : Metrics → Metrics) → Keeps R (record_metric f)
  Keeps-record_metric f = record { at = λ w. F.metrics w f }

module _ {R : World → World → Type 0} where
  pub Keeps-modify : (f : World → World) → ((w : World) → R w (f w)) → Keeps R (modify f)
  Keeps-modify f h = record { at = h }

module _ {ℓ κ} {A : Type ℓ} {B : Type κ} {R : World → World → Type 0} (F : Frame R) where
  Keeps-continue :
      (f : A → Action B) (r : Outcome A) → ((a : A) → Keeps R (f a)) → Keeps R (continue f r)
  Keeps-continue f (ok a) q = q a
  Keeps-continue f (raise e) q = Keeps-throw F e

  pub Keeps-bind :
      (m : Action A) (f : A → Action B) → Keeps R m → ((a : A) → Keeps R (f a)) → Keeps R (m >>= f)
  Keeps-bind m f p q = record {
    at = λ w. let (r, v) = m w in F.chain (p.at w) ((Keeps-continue f r q).at v);
  }

pub ruleset frame_rules = (
  Keeps-pure, Keeps-throw, Keeps-gets, Keeps-if, Keeps-try_except, Keeps-except_unavailable,
  Keeps-record_metric, Keeps-modify, Keeps-bind,
)

-- The rows of the table stay as they are.
pub record SameRows (w v : World) : Type 0 where
  pub events : v.events ≡ w.events

pub same_rows : {w v : World} → v.events ≡ w.events → SameRows w v
same_rows p = record { events = p }

pub SameRows-frame : Frame SameRows
SameRows-frame = record {
  here = λ w. record { events = refl };
  chain = λ p q. record { events = q.events ∙ p.events };
  metrics = λ w f. record { events = refl };
}

module _ (rt : Runtime) where
  pub perform-SameRows : (c : Call) → Keeps SameRows (perform rt c)
  unfolding perform
  perform-SameRows c = record { at = λ w. record { events = ground arith } }

  pub query-SameRows {ℓ} : {A : Type ℓ} (c : Call) (f : History → A) → Keeps SameRows (query rt c f)
  unfolding query
  query-SameRows c f = record { at = λ w. record { events = ground arith } }

pub ruleset rows_rules =
    (frame_rules, SameRows-frame, perform-SameRows, query-SameRows, same_rows, refl)

-- What the broker was told about messages.
pub data Entry : Type 0 where
  sent : String → Bytes → Entry
  pushed : String → String → Entry
  acked : Message → Entry

abbrev pub add_entry : Step → List Entry → List Entry
add_entry (did (publish key body)) l = sent key body ∷ l
add_entry (did (rpush key value)) l = pushed key value ∷ l
add_entry (did (ack m)) l = acked m ∷ l
add_entry _ l = l

-- The messages published, pushed and acknowledged, the latest first.
abbrev pub log : History → List Entry
log [] = []
log (s ∷ h) = add_entry s (log h)

pub record SameLog (w v : World) : Type 0 where
  pub log_eq : log v.history ≡ log w.history

pub same_log : {w v : World} → log v.history ≡ log w.history → SameLog w v
same_log p = record { log_eq = p }

pub SameLog-frame : Frame SameLog
SameLog-frame = record {
  here = λ w. record { log_eq = refl };
  chain = λ p q. record { log_eq = q.log_eq ∙ p.log_eq };
  metrics = λ w f. record { log_eq = refl };
}

-- The call tells the broker nothing about a message.
abbrev pub is_silent : Call → Bool
is_silent (publish key body) = false
is_silent (rpush key value) = false
is_silent (ack m) = false
is_silent _ = true

silent_entry : (c : Call) (l : List Entry) → is_silent c ≡ true → add_entry (did c) l ≡ l
silent_entry (publish key body) l h = cc
silent_entry (rpush key value) l h = cc
silent_entry (ack m) l h = cc
silent_entry _ l h = refl

module _ (rt : Runtime) where
  pub perform-SameLog : (c : Call) → is_silent c ≡ true → Keeps SameLog (perform rt c)
  unfolding perform
  perform-SameLog c h = record {
    at = λ w. record { log_eq = ground (arith, silent_entry c (log w.history) h) };
  }

  pub query-SameLog {ℓ} :
      {A : Type ℓ} (c : Call) (f : History → A) → is_silent c ≡ true → Keeps SameLog (query rt c f)
  unfolding query
  query-SameLog c f h = record {
    at = λ w. record { log_eq = ground (arith, silent_entry c (log w.history) h) };
  }

pub ruleset log_rules = (frame_rules, SameLog-frame, perform-SameLog, query-SameLog, same_log, refl)
