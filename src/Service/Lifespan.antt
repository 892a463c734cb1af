-- ===== src/Service/Lifespan.antt =====
-- How the two processes start and end: `lifespan` of app/main.py, and `_main` of app/worker.py. Setting
-- up the log, and starting and cancelling the poller's task, are left out.
use webhook_ingestion_servic.Prelude.{ℕ, ◌≡◌, refl, Bool, ◌∷◌, if◌then◌else◌}
use webhook_ingestion_servic.Runtime.{
  Runtime, World, Action, Outcome, ok, raise, History, did, db_create_all, db_dispose, perform,
  pure, continue, ◌>>=◌, ◌>>◌,
}
use webhook_ingestion_servic.Runtime.Calm.{IsCalm, IsOk, Returns, returns_rules, perform_calm}
use webhook_ingestion_servic.Queue.Topology.{
  is_queue_enabled, dispose_queue, close_redis, close_rabbitmq_channel, close_rabbitmq_connection,
}
use webhook_ingestion_servic.Queue.Topology.Ready.{IsDisposed, dispose_queue-IsDisposed}
use webhook_ingestion_servic.Worker.{run_worker}

module _ (rt : Runtime) where
  -- The part of `lifespan` before the `yield`, which says whether the poller runs.
  unfoldable pub start_up : Action Bool
  unfolding perform
  start_up = do
    if rt.settings.auto_create_tables then perform rt db_create_all else pure tt
    pure (is_queue_enabled rt)

  -- The two disposals at the end of both processes.
  unfoldable pub shut_down : Action (Unit {0})
  unfolding perform
  shut_down = do dispose_queue rt; perform rt db_dispose

  -- `serve` is what the application does between start and end.
  unfoldable pub lifespan : Action (Unit {0}) → Action (Unit {0})
  unfolding start_up shut_down
  lifespan serve = do poller ← start_up; serve; shut_down

  -- The end of `finally: f`: the outcome of the `try` block, unless `f` raises.
  abbrev pub reraise : Outcome (Unit {0}) → Outcome (Unit {0}) × World → Outcome (Unit {0}) × World
  reraise r (ok done, v) = (r, v)
  reraise r (raise x, v) = (raise x, v)

  -- `_main` of the worker, for so many rounds of its loop.
  unfoldable pub worker_main : ℕ → Action (Unit {0})
  unfolding shut_down
  worker_main rounds w = let (r, u) = run_worker rt rounds w in reraise r (shut_down u)

  -- Nothing of the queue is open, and the last call disposed the engine.
  pub record IsClosed (v : World) : Type 0 where
    pub disposed : IsDisposed rt v
    pub before : History
    pub engine_last : v.history ≡ did db_dispose ∷ before

  IsClosed-after :
      (w : World) (p : Outcome (Unit {0}) × World)
      → IsCalm rt
      → IsOk p.0
      → dispose_queue rt w ≡ p
      → let (r, v) = continue (λ _. perform rt db_dispose) p.0 p.1 in (r ≡ ok tt) × IsClosed v
  IsClosed-after w (ok done, u) calm fine ran =
      let d = dispose_queue-IsDisposed rt w u ran in
      rw (perform_calm rt calm db_dispose u) (
        refl,
        record {
          disposed = record {
            no_client = d.no_client;
            no_channel = d.no_channel;
            no_connection = d.no_connection;
            no_topology = d.no_topology;
          };
          before = u.history;
          engine_last = refl;
        },
      )
  IsClosed-after w (raise x, u) calm fine ran = absurd fine

  dispose_queue-Returns : IsCalm rt → Returns (dispose_queue rt)
  unfolding dispose_queue close_redis close_rabbitmq_channel close_rabbitmq_connection
  dispose_queue-Returns calm = search returns_rules depth 14

  pub shut_down-IsClosed :
      (w : World) → IsCalm rt → let (r, v) = shut_down w in (r ≡ ok tt) × IsClosed v
  unfolding shut_down
  shut_down-IsClosed w calm =
      IsClosed-after w (dispose_queue rt w) calm ((dispose_queue-Returns calm).at w) refl

  reraised :
      (r : Outcome (Unit {0})) (p : Outcome (Unit {0}) × World)
      → p.0 ≡ ok tt
      → IsClosed p.1
      → let (q, v) = reraise r p in (q ≡ r) × IsClosed v
  reraised r (ok done, v) is closed = (refl, closed)
  reraised r (raise x, v) is closed = absurd (cc)

  pub worker_main-IsClosed :
      (rounds : ℕ) (w : World)
      → IsCalm rt
      → let (r, v) = worker_main rounds w in (r ≡ (run_worker rt rounds w).0) × IsClosed v
  unfolding worker_main
  worker_main-IsClosed rounds w calm =
      let (r, u) = run_worker rt rounds w in
      let (returned, closed) = shut_down-IsClosed u calm in reraised r (shut_down u) returned closed

  -- After an action that returns, what follows decides.
  after_return :
      {A : Type 0} (Q : Outcome (Unit {0}) × World → Type 0) (m : Action A)
      (f : A → Action (Unit {0})) (w : World)
      → Returns m
      → ((a : A) (u : World) → Q (f a u))
      → Q ((m >>= f) w)
  after_return {A} Q m f w returns later = go (m w) (returns.at w)
    where
      go : (p : Outcome A × World) → IsOk p.0 → Q (continue f p.0 p.1)
      go (ok a, u) fine = later a u
      go (raise x, u) fine = absurd fine

  start_up-Returns : IsCalm rt → Returns start_up
  unfolding start_up
  start_up-Returns calm = search returns_rules depth 10

  pub lifespan-IsClosed :
      (serve : Action (Unit {0})) (w : World)
      → IsCalm rt
      → Returns serve
      → let (r, v) = lifespan serve w in (r ≡ ok tt) × IsClosed v
  unfolding lifespan
  lifespan-IsClosed serve w calm serves =
      after_return (λ p. (p.0 ≡ ok tt) × IsClosed p.1) start_up _ w (start_up-Returns calm)
        λ poller u.
          after_return (λ p. (p.0 ≡ ok tt) × IsClosed p.1) serve _ u serves
            λ _ x. shut_down-IsClosed x calm
