-- ===== src/Tools/Client/Runs.antt =====
-- Programs of Tools/Client.antt that come to an end, and never turn the clock back.
use webhook_ingestion_servic.Prelude.{
  ℕ, ◌+◌, ◌≤◌, String, Bool, true, false, Option, none, some, ◌∷◌, arith, if◌then◌else◌,
}
use webhook_ingestion_servic.Json.{Json}
use webhook_ingestion_servic.Tools.Client.{
  HttpCall, Reply, response, http_status, unreachable, Net, Deed, slept, Trace, Failure, Ending, ok,
  raise, unfinished, Client, pure, throw, continue, or_throw, opened, exchange, urlopen, sleep, now,
  unix_time, send_webhook, ◌>>=◌,
}

-- Assumed of the clock: it does not go back, and a sleep lasts at least as long as it was asked to.
pub record IsClock (net : Net) : Type 0 where
  pub forward : (d : Deed) (t : Trace) → net.time t ≤ net.time (d ∷ t)
  pub sleeps : (n : ℕ) (t : Trace) → net.time t + n ≤ net.time (slept n ∷ t)

abbrev pub HasEnded : {A : Type 0} → Ending A → Type 0
HasEnded (ok a) = Unit
HasEnded (raise e) = Unit
HasEnded unfinished = ⊥

pub record Runs (net : Net) {A : Type 0} (m : Client A) : Type 0 where
  pub ends : (t : Trace) → HasEnded (m t).0
  pub later : (t : Trace) → net.time t ≤ net.time (m t).1

module _ (net : Net) where
  pub Runs-pure : {A : Type 0} (a : A) → Runs net (pure a)
  Runs-pure a = record { ends = λ t. tt; later = λ t. omega arith }

  pub Runs-throw : {A : Type 0} (e : Failure) → Runs net (throw {A = A} e)
  Runs-throw e = record { ends = λ t. tt; later = λ t. omega arith }

  pub Runs-or_throw : {A : Type 0} (o : Option A) (e : Failure) → Runs net (or_throw o e)
  Runs-or_throw none e = Runs-throw e
  Runs-or_throw (some a) e = Runs-pure a

  pub Runs-if :
      {A : Type 0} (b : Bool) (m n : Client A)
      → Runs net m
      → Runs net n
      → Runs net (if b then m else n)
  Runs-if true m n p q = p
  Runs-if false m n p q = q

  continue_ends :
      {A B : Type 0} (f : A → Client B) (r : Ending A) (t : Trace)
      → HasEnded r
      → ((a : A) → Runs net (f a))
      → HasEnded (continue f r t).0
  continue_ends f (ok a) t h q = (q a).ends t
  continue_ends f (raise e) t h q = tt
  continue_ends f unfinished t h q = absurd h

  pub continue_later :
      {A B : Type 0} (f : A → Client B) (r : Ending A) (t : Trace)
      → ((a : A) (u : Trace) → net.time u ≤ net.time (f a u).1)
      → net.time t ≤ net.time (continue f r t).1
  continue_later f (ok a) t q = q a t
  continue_later f (raise e) t q = omega arith
  continue_later f unfinished t q = omega arith

  pub Runs-bind :
      {A B : Type 0} (m : Client A) (f : A → Client B)
      → Runs net m
      → ((a : A) → Runs net (f a))
      → Runs net (m >>= f)
  Runs-bind m f p q = record {
    ends = λ t. continue_ends f (m t).0 (m t).1 (p.ends t) q;
    later = λ t. omega (arith, p.later t, continue_later f (m t).0 (m t).1 (λ a. (q a).later));
  }

  Runs-opened : (reply : Reply) → Runs net (opened net reply)
  Runs-opened (response status content) = Runs-pure (status, content)
  Runs-opened (http_status status content) = Runs-throw _
  Runs-opened unreachable = Runs-throw _

  pub Runs-now : Runs net (now net)
  unfolding now
  Runs-now = record { ends = λ t. tt; later = λ t. omega arith }

  pub unix_time-Runs : Runs net (unix_time net)
  unfolding unix_time
  unix_time-Runs = search (Runs-bind, Runs-now, Runs-pure)

  module _ (clock : IsClock net) where
    pub exchange-Runs : (call : HttpCall) → Runs net (exchange net call)
    unfolding exchange
    exchange-Runs call = record { ends = λ t. tt; later = λ t. clock.forward _ t }

    pub urlopen-Runs : (call : HttpCall) → Runs net (urlopen net call)
    unfolding urlopen
    urlopen-Runs call = Runs-bind _ _ (exchange-Runs call) Runs-opened

    pub sleep-Runs : (n : ℕ) → Runs net (sleep net n)
    unfolding sleep
    sleep-Runs n = record { ends = λ t. tt; later = λ t. clock.forward _ t }

    pub send_webhook-Runs :
        (base_url secret api_key : String) (payload : Json) (delivery_id : String)
        → Runs net (send_webhook net base_url secret api_key payload delivery_id)
    unfolding send_webhook
    send_webhook-Runs base_url secret api_key payload delivery_id =
        search (Runs-bind, Runs-or_throw, unix_time-Runs, urlopen-Runs)

pub ruleset runs_rules = (
  Runs-pure, Runs-throw, Runs-or_throw, Runs-if, Runs-bind, Runs-now, unix_time-Runs, exchange-Runs,
  urlopen-Runs, sleep-Runs, send_webhook-Runs,
)
