-- ===== src/Worker/Polls.antt =====
-- What the worker of app/worker.py has got from its queue so far, and which calls leave that alone.
pub mod Frames
use webhook_ingestion_servic.Prelude.{
  inl, inr, Bool-cases, ℕ, suc, ◌+◌, ◌≤◌, ◌≡◌, refl, ap, ◌∙◌, String, Bool, true, false, Option,
  none, some, List, [], ◌∷◌, ℤ, arith, str_eq, if◌then◌else◌,
}
use webhook_ingestion_servic.Events.{Uuid, Event}
use webhook_ingestion_servic.Runtime.{
  Runtime, World, Message, Exn, Outcome, ok, raise, Call, Step, did, publish, get_message, History,
  perform,
}
use webhook_ingestion_servic.Runtime.Rules.{
  Keeps, Frame, frame_rules, Entry, sent, pushed, acked, log,
}
use webhook_ingestion_servic.Queue.Topology.{
  open_rabbitmq_connection, open_rabbitmq_channel, declare_topology, build_topology,
  ensure_rabbitmq_topology, publish_to_rabbitmq,
}
use webhook_ingestion_servic.Queue.Consume.{reroute, complete_event, complete_message}
use webhook_ingestion_servic.Processor.{
  save_event, record_failure, record_success, settle, process_event, process_found,
  process_event_by_id,
}
use webhook_ingestion_servic.Worker.{finish, handle_envelope}
use webhook_ingestion_servic.Worker.Delivery.{from_message, retry_or_dead_letter-rabbitmq}

-- The messages that were got, those of them that came from another queue than the worker's, and the
-- polls that gave nothing since the last message was got or published.
pub record Polls : Type 0 where
  pub taken : ℕ
  pub strays : ℕ
  pub idle : ℕ

-- The messages that were acknowledged.
abbrev pub acks : List Entry → ℕ
acks [] = 0
acks (acked m ∷ l) = suc (acks l)
acks (sent key body ∷ l) = acks l
acks (pushed key value ∷ l) = acks l

module _ (rt : Runtime) where
  abbrev pub got : String → Option Message → Polls → Polls
  got queue none p = record p { idle = suc p.idle }
  got queue (some m) p = record {
    taken = suc p.taken;
    strays = if str_eq queue rt.settings.event_queue_name then p.strays else suc p.strays;
    idle = 0;
  }

  abbrev pub add_poll : Step → History → Polls → Polls
  add_poll (did (get_message queue)) h p = got queue (rt.next_message h queue) p
  add_poll (did (publish key body)) h p = record p { idle = 0 }
  add_poll _ h p = p

  unfoldable pub polls : History → Polls
  polls [] = record { taken = 0; strays = 0; idle = 0 }
  polls (s ∷ h) = add_poll s h (polls h)

  -- No message is held that was got and not acknowledged, and none came from another queue.
  pub record IsSettled (h : History) : Type 0 where
    pub returned : (polls h).taken ≡ acks (log h)
    pub own : (polls h).strays ≡ 0

  -- The polls stay as they are.
  pub record SamePolls (w v : World) : Type 0 where
    pub polls_eq : polls v.history ≡ polls w.history

  pub same_polls : {w v : World} → polls v.history ≡ polls w.history → SamePolls w v
  same_polls p = record { polls_eq = p }

  pub SamePolls-frame : Frame SamePolls
  SamePolls-frame = record {
    here = λ w. record { polls_eq = refl };
    chain = λ p q. record { polls_eq = q.polls_eq ∙ p.polls_eq };
    metrics = λ w f. record { polls_eq = refl };
  }

  -- Nothing is got, and no more polls are idle.
  pub record GetsNone (w v : World) : Type 0 where
    pub taken_eq : (polls v.history).taken ≡ (polls w.history).taken
    pub strays_eq : (polls v.history).strays ≡ (polls w.history).strays
    pub idle_le : (polls v.history).idle ≤ (polls w.history).idle

  pub gets_none : {w v : World} → polls v.history ≡ polls w.history → GetsNone w v
  gets_none p = record {
    taken_eq = ap (λ (x : Polls). x.taken) p;
    strays_eq = ap (λ (x : Polls). x.strays) p;
    idle_le = omega (arith, ap (λ (x : Polls). x.idle) p);
  }

  pub GetsNone-frame : Frame GetsNone
  GetsNone-frame = record {
    here = λ w. record { taken_eq = refl; strays_eq = refl; idle_le = omega arith };
    chain = λ p q. record {
      taken_eq = q.taken_eq ∙ p.taken_eq;
      strays_eq = q.strays_eq ∙ p.strays_eq;
      idle_le = omega (arith, p.idle_le, q.idle_le);
    };
    metrics = λ w f. record { taken_eq = refl; strays_eq = refl; idle_le = omega arith };
  }

  abbrev pub is_get : Call → Bool
  is_get (get_message queue) = true
  is_get _ = false

  abbrev pub is_quiet : Call → Bool
  is_quiet (get_message queue) = false
  is_quiet (publish key body) = false
  is_quiet _ = true

  quiet_poll : (c : Call) (h : History) (p : Polls) → is_quiet c ≡ true → add_poll (did c) h p ≡ p
  quiet_poll (get_message queue) h p q = absurd (cc)
  quiet_poll (publish key body) h p q = absurd (cc)
  quiet_poll _ h p q = refl

  pub perform-SamePolls : (c : Call) → is_quiet c ≡ true → Keeps SamePolls (perform rt c)
  unfolding perform polls
  perform-SamePolls c h = record {
    at = λ w. record { polls_eq = ground (arith, quiet_poll c w.history (polls w.history) h) };
  }

  GetsNone-did :
      (c : Call) (w : World)
      → is_get c ≡ false
      → GetsNone w (record w { history = did c ∷ w.history })
  unfolding polls
  GetsNone-did (get_message queue) w h = absurd (cc)
  GetsNone-did (publish key body) w h = record {
    taken_eq = refl;
    strays_eq = refl;
    idle_le = omega arith;
  }
  GetsNone-did _ w h = record { taken_eq = refl; strays_eq = refl; idle_le = omega arith }

  pub perform-GetsNone : (c : Call) → is_get c ≡ false → Keeps GetsNone (perform rt c)
  unfolding perform polls
  perform-GetsNone c h = record {
    at = λ w. elim (Bool-cases (rt.fails w.history c)) [
      | inl down ↦ rw down (record { taken_eq = refl; strays_eq = refl; idle_le = omega arith })
      | inr up ↦ rw up (GetsNone-did c w h)
    ];
  }

pub ruleset polls_rules = (frame_rules, SamePolls-frame, perform-SamePolls, same_polls, refl)

pub ruleset gets_rules = (frame_rules, GetsNone-frame, perform-GetsNone, gets_none, refl)
