-- ===== src/Worker/Jobs.antt =====
-- The messages that wait for the worker of app/worker.py, as events with the attempt that is due.
use webhook_ingestion_servic.Prelude.{
  ◌⊎◌, inl, inr, false, Bool-cases, ℕ, ◌+◌, ◌-◌, ◌≤◌, ◌≡◌, refl, ap, List, [], ◌∷◌, ◌++◌, map, All,
  pos, arith,
}
use webhook_ingestion_servic.Events.{Uuid}
use webhook_ingestion_servic.Runtime.{Runtime, Bytes}
use webhook_ingestion_servic.Queue.Payload.{HasCodecs, queue_payload}
use webhook_ingestion_servic.Worker.Broker.{
  In, same_bytes, same_bytes_refl, same_bytes_sound, remove_first,
}

-- A message in the main queue: the event and the attempt that is due.
abbrev pub Job : Type 0
Job = Uuid × ℕ

-- The attempts that are left for the jobs, where `most` are allowed.
abbrev pub attempts_left : ℕ → List Job → ℕ
attempts_left most [] = 0
attempts_left most ((i, n) ∷ jobs) = (most + 1 - n) + attempts_left most jobs

pub attempts_left-append :
    (most : ℕ) (jobs jobs' : List Job)
    → attempts_left most (jobs ++ jobs') ≡ attempts_left most jobs + attempts_left most jobs'
attempts_left-append most [] jobs' = omega arith
attempts_left-append most ((i, n) ∷ jobs) jobs' =
    omega (arith, attempts_left-append most jobs jobs')

pub All-append {ℓ} :
    {A : Type ℓ} (P : A → Type 0) (xs : List A) (y : A) → All P xs → P y → All P (xs ++ (y ∷ []))
All-append P [] y h q = (q, tt)
All-append P (x ∷ xs) y (p, h) q = (p, All-append P xs y h q)

module _ (rt : Runtime) where
  abbrev pub messages : List Job → List Bytes
  messages jobs = map (λ j. queue_payload rt j.0 (pos j.1)) jobs

  -- An attempt that is allowed, of an event whose messages read back.
  abbrev pub IsDue : ℕ → Job → Type 0
  IsDue most (i, n) = (n ≤ most) × ((k : ℕ) → HasCodecs rt i (pos k))

  -- One of the jobs, whose message has the text, and what is left when the text is removed.
  pub record Picks (most : ℕ) (x : Bytes) (jobs : List Job) : Type 0 where
    pub i : Uuid
    pub n : ℕ
    pub rest : List Job
    pub body_eq : x ≡ queue_payload rt i (pos n)
    pub removed : remove_first x (messages jobs) ≡ messages rest
    pub due : IsDue most (i, n)
    pub others : All (IsDue most) rest
    pub left : attempts_left most jobs ≡ (most + 1 - n) + attempts_left most rest

  pub In-Picks :
      (most : ℕ) (x : Bytes) (jobs : List Job)
      → All (IsDue most) jobs
      → In x (messages jobs)
      → Picks most x jobs
  In-Picks most x [] allowed h = absurd h
  In-Picks most x ((i, n) ∷ jobs) (due, others) h =
      elim (Bool-cases (same_bytes x (queue_payload rt i (pos n)))) [
        | inl same ↦ record {
          i = i;
          n = n;
          rest = jobs;
          body_eq = same_bytes_sound x (queue_payload rt i (pos n)) same;
          removed = rw same refl;
          due = due;
          others = others;
          left = refl;
        }
        | inr other ↦
            (let p =
                In-Picks most x jobs others
                  (later (queue_payload rt i (pos n)) (messages jobs) h other) in
              record {
                i = p.i;
                n = p.n;
                rest = (i, n) ∷ p.rest;
                body_eq = p.body_eq;
                removed = rw other (ap (λ l. queue_payload rt i (pos n) ∷ l) p.removed);
                due = p.due;
                others = (due, p.others);
                left = omega (arith, p.left);
              })
      ]
    where
      later : (y : Bytes) (l : List Bytes) → (x ≡ y) ⊎ In x l → same_bytes x y ≡ false → In x l
      later y l (inl is) other = absurd (cc (ap (same_bytes x) is, same_bytes_refl x, other))
      later y l (inr more) other = more
