-- ===== src/System/Kept.antt =====
-- What never changes of an event once it is stored.
use webhook_ingestion_servic.Prelude.{
  ◌≤◌, ◌≡◌, refl, sym, ap, ◌∙◌, subst, inl, inr, false, not, ◌&&◌, Option, none, some, List, [],
  ◌∷◌, ◌++◌, map, ◌==◌, arith, Bool-cases, if◌then◌else◌,
}
use webhook_ingestion_servic.Events.{Uuid, Event, processed, same_status}
use webhook_ingestion_servic.Runtime.{World}
use webhook_ingestion_servic.Crud.{violates, overwrite, mark_pending, contains_id}
use webhook_ingestion_servic.Processor.{find_event}
use webhook_ingestion_servic.Processor.Rows.{find_event-overwrite_self, find_event-overwrite_ne}
use webhook_ingestion_servic.System.{Reaches, here, next}
use webhook_ingestion_servic.System.Changes.{
  SameIdentity, Attempt, Change, inserted, written, reopened, Changes-keep,
}
use webhook_ingestion_servic.System.Soundness.{Step-Changes}

-- The lookup by id after each kind of commit.
pub find_event-append :
    (i : Uuid) (e : Event) (rows : List Event)
    → find_event i (rows ++ (e ∷ []))
      ≡ elim (find_event i rows) [ some x ↦ some x | none ↦ if e.id == i then some e else none ]
unfolding find_event
find_event-append i e [] = refl
find_event-append i e (r ∷ rows) = elim (Bool-cases (r.id == i)) [
  | inl own ↦ rw own refl
  | inr other ↦ rw other (find_event-append i e rows)
]

pub find_event-free :
    (e : Event) (rows : List Event) → violates e rows ≡ false → find_event e.id rows ≡ none
unfolding find_event violates
find_event-free e [] h = refl
find_event-free e (r ∷ rows) h = ground (arith, find_event-free e rows)

mark_pending_id : (ids : List Uuid) (r : Event) → (mark_pending ids r).id ≡ r.id
unfolding mark_pending
mark_pending_id ids r = ground arith

abbrev pub marked : List Uuid → Option Event → Option Event
marked ids none = none
marked ids (some e) = some (mark_pending ids e)

pub find_event-reopen :
    (i : Uuid) (ids : List Uuid) (rows : List Event)
    → find_event i (map (mark_pending ids) rows) ≡ marked ids (find_event i rows)
unfolding find_event
find_event-reopen i ids [] = refl
find_event-reopen i ids (r ∷ rows) = elim (Bool-cases (r.id == i)) [
  | inl own ↦ simp (mark_pending_id, own)
  | inr other ↦ simp (mark_pending_id, other, find_event-reopen i ids rows)
]

SameIdentity-refl : (e : Event) → SameIdentity e e
SameIdentity-refl e = record {
  id_eq = refl;
  delivery_eq = refl;
  request_eq = refl;
  source_eq = refl;
  type_eq = refl;
  received_eq = refl;
}

SameIdentity-trans : (a b c : Event) → SameIdentity a b → SameIdentity b c → SameIdentity a c
SameIdentity-trans a b c p q = record {
  id_eq = q.id_eq ∙ p.id_eq;
  delivery_eq = q.delivery_eq ∙ p.delivery_eq;
  request_eq = q.request_eq ∙ p.request_eq;
  source_eq = q.source_eq ∙ p.source_eq;
  type_eq = q.type_eq ∙ p.type_eq;
  received_eq = q.received_eq ∙ p.received_eq;
}

mark_pending-SameIdentity : (ids : List Uuid) (e : Event) → SameIdentity e (mark_pending ids e)
unfolding mark_pending
mark_pending-SameIdentity ids e =
    elim (Bool-cases (contains_id ids e.id && not (same_status e.processing_status processed))) [
      | inl opened ↦ rw opened (record {
        id_eq = refl;
        delivery_eq = refl;
        request_eq = refl;
        source_eq = refl;
        type_eq = refl;
        received_eq = refl;
      })
      | inr kept ↦ rw kept (SameIdentity-refl e)
    ]

mark_pending_attempts :
    (ids : List Uuid) (e : Event) → (mark_pending ids e).processing_attempts ≡ e.processing_attempts
unfolding mark_pending
mark_pending_attempts ids e = ground arith

-- The row of the event `e` in a later table: the same identity, and no fewer attempts.
pub record Survives (e : Event) (rows : List Event) : Type 0 where
  pub row : Event
  pub found : find_event e.id rows ≡ some row
  pub same : SameIdentity e row
  pub attempts : e.processing_attempts ≤ row.processing_attempts

module _ (e : Event) where
  written-Survives :
      (a b : List Event) (x x' : Event) (s : Survives e a)
      → find_event x.id a ≡ some x
      → Attempt x x'
      → b ≡ overwrite x' a
      → Survives e b
  written-Survives a b x x' s found attempt rows = elim (Bool-cases (x.id == e.id)) [
    | inl own ↦
        (let key : x.id ≡ e.id = ground (arith, own) in
          let row_is : x ≡ s.row = cc (subst (λ j. find_event j a ≡ some x) key found, s.found) in
          record {
            row = x';
            found = rw rows (
                subst (λ j. find_event j (overwrite x' a) ≡ some x') key
                  (find_event-overwrite_self x.id x x' a found attempt.same.id_eq));
            same =
                SameIdentity-trans e x x' (subst (SameIdentity e) (sym row_is) s.same) attempt.same;
            attempts = omega (
              arith,
              attempt.counted,
              s.attempts,
              ap (λ (y : Event). y.processing_attempts) row_is,
            );
          })
    | inr other ↦ record {
      row = s.row;
      found = rw rows (
          find_event-overwrite_ne e.id x' a (λ k. ground (arith, other, k, attempt.same.id_eq))
          ∙ s.found);
      same = s.same;
      attempts = s.attempts;
    }
  ]

  Change-Survives : (a b : List Event) → Change a b → Survives e a → Survives e b
  Change-Survives a b (inserted x fresh free rows) s = record {
    row = s.row;
    found = rw rows (rw (find_event-append e.id x a, s.found) refl);
    same = s.same;
    attempts = s.attempts;
  }
  Change-Survives a b (written x x' found attempt rows) s =
      written-Survives a b x x' s found attempt rows
  Change-Survives a b (reopened ids rows) s = record {
    row = mark_pending ids s.row;
    found = rw rows (find_event-reopen e.id ids a ∙ ap (marked ids) s.found);
    same =
        SameIdentity-trans e s.row (mark_pending ids s.row) s.same
          (mark_pending-SameIdentity ids s.row);
    attempts = omega (arith, s.attempts, mark_pending_attempts ids s.row);
  }

  Reaches-Survives : (w v : World) → Survives e w.events → Reaches w v → Survives e v.events
  Reaches-Survives w v s here = s
  Reaches-Survives w v s (next {u = x} {v = y} r st) =
      Changes-keep (Survives e) Change-Survives (Step-Changes st) (Reaches-Survives w x s r)

-- No event is lost: an event that is stored is found under its id in every state that is reached
-- later, by any operations of any processes and with every failure, with the same delivery id, request
-- id, source, type and time of receipt, and with no fewer attempts.
pub Reaches-kept :
    (w v : World) (e : Event)
    → find_event e.id w.events ≡ some e
    → Reaches w v
    → Survives e v.events
Reaches-kept w v e found r =
    Reaches-Survives e w v
      (record { row = e; found = found; same = SameIdentity-refl e; attempts = omega arith }) r
