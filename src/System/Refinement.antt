-- ===== src/System/Refinement.antt =====
-- The events as their senders and operators see them: a map from ids to a status and a number of
-- attempts, with the steps of this map. The order of the rows, the payloads and the texts are forgotten.
use mathlib.Core.Path.{fun_ext}
use webhook_ingestion_servic.Prelude.{
  ℕ, ◌+◌, ◌≡◌, refl, ap, ◌∙◌, subst, inl, inr, Bool, Option, none, some, List, [], ◌∷◌, ◌++◌, map,
  ◌==◌, arith, Bool-cases, Option-cases, if◌then◌else◌,
}
use webhook_ingestion_servic.Events.{Uuid, Event, ProcessingStatus, pending, processed, same_status}
use webhook_ingestion_servic.Runtime.{World}
use webhook_ingestion_servic.Crud.{overwrite, mark_pending, contains_id}
use webhook_ingestion_servic.Processor.{find_event}
use webhook_ingestion_servic.Processor.Rows.{
  id-find_event, find_event-overwrite_self, find_event-overwrite_ne,
}
use webhook_ingestion_servic.System.{Step}
use webhook_ingestion_servic.System.Changes.{
  Attempt, Change, inserted, written, reopened, Changes, unchanged, more,
}
use webhook_ingestion_servic.System.Soundness.{Step-Changes}
use webhook_ingestion_servic.System.Kept.{find_event-append, find_event-free, find_event-reopen}

-- What is seen of one event.
pub record Phase : Type 0 where
  pub status : ProcessingStatus
  pub attempts : ℕ

abbrev pub Spec : Type 0
Spec = Uuid → Option Phase

abbrev pub assign : Uuid → Phase → Spec → Spec
assign i p f j = if i == j then some p else f j

-- An event that is not processed is pending again.
abbrev pub open_again : Phase → Phase
open_again p = if same_status p.status processed then p else record p { status = pending }

abbrev pub reopen_at : Bool → Option Phase → Option Phase
reopen_at b none = none
reopen_at b (some p) = some (if b then open_again p else p)

-- The specification: a new event is pending with no attempts, an attempt on a known event sets its
-- status and counts, and some events that are not processed are made pending.
pub data Move (f g : Spec) : Type 0 where
  submit :
      (i : Uuid)
      → f i ≡ none
      → g ≡ assign i (record { status = pending; attempts = 0 }) f
      → Move f g
  attempt :
      (i : Uuid) (p : Phase) (s : ProcessingStatus)
      → f i ≡ some p
      → g ≡ assign i (record { status = s; attempts = p.attempts + 1 }) f
      → Move f g
  reopen : (ids : List Uuid) → g ≡ (λ j. reopen_at (contains_id ids j) (f j)) → Move f g

pub data Moves (f : Spec) : Spec → Type 0 where
  stay : Moves f f
  go : {g h : Spec} → Moves f g → Move g h → Moves f h

abbrev pub phase : Option Event → Option Phase
phase none = none
phase (some e) = some (record { status = e.processing_status; attempts = e.processing_attempts })

-- A table, seen as the map.
abbrev pub view : List Event → Spec
view rows i = phase (find_event i rows)

-- The three kinds of commits, seen at one id.
view-append :
    (j : Uuid) (e : Event) (rows : List Event)
    → find_event e.id rows ≡ none
    → view (rows ++ (e ∷ [])) j
      ≡ assign e.id
          (record { status = e.processing_status; attempts = e.processing_attempts })
          (view rows)
          j
view-append j e rows free = elim (Bool-cases (e.id == j)) [
  | inl own ↦
      (let key : e.id ≡ j = ground (arith, own) in
        let absent : find_event j rows ≡ none = subst (λ k. find_event k rows ≡ none) key free in
        rw (find_event-append j e rows, absent, own) refl)
  | inr other ↦ elim (Option-cases (find_event j rows)) [
    | inl absent ↦ rw (find_event-append j e rows, absent, other) refl
    | inr (x, found) ↦ rw (find_event-append j e rows, found, other) refl
  ]
]

view-overwrite :
    (j : Uuid) (e e' : Event) (rows : List Event)
    → find_event e.id rows ≡ some e
    → Attempt e e'
    → view (overwrite e' rows) j
      ≡ assign e.id
          (record { status = e'.processing_status; attempts = e.processing_attempts + 1 })
          (view rows)
          j
view-overwrite j e e' rows found made = elim (Bool-cases (e.id == j)) [
  | inl own ↦
      (let key : e.id ≡ j = ground (arith, own) in
        let now : find_event j (overwrite e' rows) ≡ some e' =
          subst (λ k. find_event k (overwrite e' rows) ≡ some e') key
            (find_event-overwrite_self e.id e e' rows found made.same.id_eq) in
        simp (now, own, made.counted))
  | inr other ↦
      (let now =
          find_event-overwrite_ne j e' rows (λ k. ground (arith, other, k, made.same.id_eq)) in
        rw (now, other) refl)
]

phase-mark_pending :
    (ids : List Uuid) (e : Event)
    → phase (some (mark_pending ids e)) ≡ reopen_at (contains_id ids e.id) (phase (some e))
unfolding mark_pending
phase-mark_pending ids e = elim (Bool-cases (contains_id ids e.id)) [
  | inl listed ↦ elim (Bool-cases (same_status e.processing_status processed)) [
    | inl finished ↦ rw (listed, finished) refl
    | inr open_still ↦ rw (listed, open_still) refl
  ]
  | inr unlisted ↦ rw unlisted refl
]

view-reopen :
    (j : Uuid) (ids : List Uuid) (rows : List Event)
    → view (map (mark_pending ids) rows) j ≡ reopen_at (contains_id ids j) (view rows j)
view-reopen j ids rows = elim (Option-cases (find_event j rows)) [
  | inl absent ↦ rw (find_event-reopen j ids rows, absent) refl
  | inr (e, found) ↦
      (let key = id-find_event j e rows found in
        rw (find_event-reopen j ids rows, found)
          (subst
            (λ k.
              phase (some (mark_pending ids e)) ≡ reopen_at (contains_id ids k) (phase (some e)))
            key (phase-mark_pending ids e)))
]

Change-Move : (a b : List Event) → Change a b → Move (view a) (view b)
Change-Move a b (inserted e fresh free rows) = submit e.id (ap phase (find_event-free e a free)) (
    rw rows (
      fun_ext (λ j. view-append j e a (find_event-free e a free))
      ∙ ap (λ (p : Phase). assign e.id p (view a)) (fresh_phase fresh.is_pending fresh.untried)))
  where
    fresh_phase :
        e.processing_status ≡ pending
        → e.processing_attempts ≡ 0
        → ◌≡◌ {A = Phase}
            (record { status = e.processing_status; attempts = e.processing_attempts })
            (record { status = pending; attempts = 0 })
    fresh_phase p q = simp (p, q)
Change-Move a b (written e e' found made rows) =
    attempt e.id (record { status = e.processing_status; attempts = e.processing_attempts })
      e'.processing_status (ap phase found)
      (rw rows (fun_ext (λ j. view-overwrite j e e' a found made)))
Change-Move a b (reopened ids rows) = reopen ids (rw rows (fun_ext (λ j. view-reopen j ids a)))

Changes-Moves : {a b : List Event} → Changes a b → Moves (view a) (view b)
Changes-Moves unchanged = stay
Changes-Moves (more {rows'} {rows''} q c) = go (Changes-Moves q) (Change-Move rows' rows'' c)

-- The specification simulates the service: what any operation of any process does to the table, with
-- every failure of the broker and the database, is a sequence of moves of the map from ids to phases.
pub Step-Moves : (w v : World) → Step w v → Moves (view w.events) (view v.events)
Step-Moves w v s = Changes-Moves (Step-Changes s)
