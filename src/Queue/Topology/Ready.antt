-- ===== src/Queue/Topology/Ready.antt =====
-- When the RabbitMQ channel of app/queue.py is ready, and what disposing of the queue leaves.
use webhook_ingestion_servic.Prelude.{
  ◌≡◌, refl, subst, ◌∙◌, inl, inr, Bool, true, false, ◌&&◌, Bool-cases, arith, if◌then◌else◌,
  str_eq,
}
use webhook_ingestion_servic.Runtime.{
  Runtime, World, Action, Outcome, ok, raise, Call, perform, import_aio_pika, pure, throw,
  try_except, queue_unavailable, modify, continue, ◌>>◌,
}
use webhook_ingestion_servic.Runtime.Rules.{Frame, Keeps, frame_rules}
use webhook_ingestion_servic.Queue.Topology.{
  build_topology, ensure_rabbitmq_topology, declare_topology, open_rabbitmq_connection,
  open_rabbitmq_channel, dispose_queue, close_redis, close_rabbitmq_channel,
  close_rabbitmq_connection,
}

-- The channel is as before.
record SameChannel (w v : World) : Type 0 where
  pub channel_eq : v.rabbitmq_channel ≡ w.rabbitmq_channel

SameChannel-frame : Frame SameChannel
SameChannel-frame = record {
  here = λ w. record { channel_eq = refl };
  chain = λ p q. record { channel_eq = q.channel_eq ∙ p.channel_eq };
  metrics = λ w f. record { channel_eq = refl };
}

-- Both globals are set, so that the next call of `_ensure_rabbitmq_topology` returns at once.
pub record IsReady (v : World) : Type 0 where
  pub has_channel : v.rabbitmq_channel ≡ true
  pub has_topology : v.topology_ready ≡ true

abbrev Readies : Outcome (Unit {0}) × World → Type 0
Readies (ok a, v) = IsReady v
Readies (raise x, v) = Unit

-- A sequence gets ready if its second part does, from every world that the first part can leave.
then-Readies :
    (m k : Action (Unit {0})) (P : World → Type 0) (w : World)
    → ((v : World) → m w ≡ (ok tt, v) → P v)
    → ((v : World) → P v → Readies (k v))
    → Readies ((m >> k) w)
then-Readies m k P w after ready = go (m w) refl
  where
    go : (p : Outcome (Unit {0}) × World) → m w ≡ p → Readies (continue (λ _. k) p.0 p.1)
    go (ok done, v) e = ready v (after v e)
    go (raise x, v) e = tt

module _ (rt : Runtime) where
  perform-SameChannel : (c : Call) → Keeps SameChannel (perform rt c)
  unfolding perform
  perform-SameChannel c = record { at = λ w. record { channel_eq = ground arith } }

  declare_topology-SameChannel : Keeps SameChannel (declare_topology rt)
  unfolding declare_topology
  declare_topology-SameChannel =
      search (frame_rules, SameChannel-frame, perform-SameChannel) depth 14

  abbrev declare_and_set : Action (Unit {0})
  declare_and_set = do declare_topology rt; modify (λ w. record w { topology_ready = true })

  declare_and_set-Readies : (w : World) → w.rabbitmq_channel ≡ true → Readies (declare_and_set w)
  declare_and_set-Readies w open_channel =
      go (declare_topology rt w) (declare_topology-SameChannel.at w)
    where
      go :
          (p : Outcome (Unit {0}) × World)
          → SameChannel w p.1
          → Readies (continue (λ _. modify (λ v. record v { topology_ready = true })) p.0 p.1)
      go (ok done, v) same = record {
        has_channel = same.channel_eq ∙ open_channel;
        has_topology = refl;
      }
      go (raise x, v) same = tt

  opens_channel :
      (w v : World) → open_rabbitmq_channel rt w ≡ (ok tt, v) → v.rabbitmq_channel ≡ true
  unfolding open_rabbitmq_channel perform
  opens_channel w v e = ground arith

  has_or_opens :
      (w v : World) (b : Bool)
      → w.rabbitmq_channel ≡ b
      → (if b then pure tt else open_rabbitmq_channel rt) w ≡ (ok tt, v)
      → v.rabbitmq_channel ≡ true
  has_or_opens w v true is e = ground arith
  has_or_opens w v false is e = opens_channel w v e

  abbrev Anywhere : World → Type 0
  Anywhere w = Unit

  build_topology-Readies : (w : World) → Readies (build_topology rt w)
  unfolding build_topology
  build_topology-Readies w =
      then-Readies
        (try_except (perform rt import_aio_pika) (λ e. throw (
          queue_unavailable
            "RabbitMQ dependency is not installed. Run pip install -r requirements.txt")))
        _ Anywhere w (λ v e. tt)
        λ v _.
          then-Readies (if v.rabbitmq_connection then pure tt else open_rabbitmq_connection rt) _
            Anywhere v (λ u e. tt)
            λ u _.
              then-Readies (if u.rabbitmq_channel then pure tt else open_rabbitmq_channel rt)
                declare_and_set (λ x. x.rabbitmq_channel ≡ true) u
                (λ x e. has_or_opens u x u.rabbitmq_channel refl e) declare_and_set-Readies

  ready_or_build :
      (w : World) (b : Bool)
      → w.rabbitmq_channel && w.topology_ready ≡ b
      → Readies ((if b then pure tt else build_topology rt) w)
  ready_or_build w true is = record { has_channel = ground arith; has_topology = ground arith }
  ready_or_build w false is = build_topology-Readies w

  ensure-Readies : (w : World) → Readies (ensure_rabbitmq_topology rt w)
  unfolding ensure_rabbitmq_topology
  ensure-Readies w = elim (Bool-cases (str_eq rt.settings.task_queue_backend "rabbitmq")) [
    | inl on ↦ rw on (ready_or_build w (w.rabbitmq_channel && w.topology_ready) refl)
    | inr off ↦ rw off tt
  ]

  pub ensure_rabbitmq_topology-IsReady :
      (w v : World)
      → ensure_rabbitmq_topology rt w ≡ (ok tt, v)
      → IsReady v × (ensure_rabbitmq_topology rt v ≡ (ok tt, v))
  unfolding ensure_rabbitmq_topology
  ensure_rabbitmq_topology-IsReady w v e =
      let ready : IsReady v = subst Readies e (ensure-Readies w) in
      elim (Bool-cases (str_eq rt.settings.task_queue_backend "rabbitmq")) [
        | inl on ↦ (ready, rw (on, ready.has_channel, ready.has_topology) refl)
        | inr off ↦ absurd (ground (arith, off))
      ]

  -- Nothing of the queue is left open.
  pub record IsDisposed (v : World) : Type 0 where
    pub no_client : v.redis_client ≡ false
    pub no_channel : v.rabbitmq_channel ≡ false
    pub no_connection : v.rabbitmq_connection ≡ false
    pub no_topology : v.topology_ready ≡ false

  -- When `dispose_queue` returns, no client, connection or channel is set, and the topology has to be
  -- declared again.
  pub dispose_queue-IsDisposed : (w v : World) → dispose_queue rt w ≡ (ok tt, v) → IsDisposed v
  unfolding dispose_queue close_redis close_rabbitmq_channel close_rabbitmq_connection perform
  dispose_queue-IsDisposed w v e = record {
    no_client = ground arith;
    no_channel = ground arith;
    no_connection = ground arith;
    no_topology = ground arith;
  }
