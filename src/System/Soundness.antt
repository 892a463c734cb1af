-- ===== src/System/Soundness.antt =====
-- What holds of the rows in every reachable state of the service.
use webhook_ingestion_servic.Prelude.{
  ℕ, ◌≤◌, ◌≡◌, refl, sym, subst, ◌⊎◌, inl, inr, String, true, not, ◌&&◌, Option, none, is_some,
  List, [], ◌∷◌, ◌++◌, map, All, ◌==◌, arith, Bool-cases,
}
use webhook_ingestion_servic.Events.{
  Uuid, Event, ProcessingStatus, pending, processed, failed, same_status,
}
use webhook_ingestion_servic.Runtime.{World}
use webhook_ingestion_servic.Crud.{overwrite, mark_pending, contains_id}
use webhook_ingestion_servic.Crud.Unique.{IsUnique}
use webhook_ingestion_servic.System.{Step, acts, switches, Reaches, here, next}
use webhook_ingestion_servic.System.Changes.{
  Outcomes, Attempt, Change, inserted, written, reopened, Changes, unchanged, Changes-keep,
}
use webhook_ingestion_servic.System.Keys.{Change-IsUnique}
use webhook_ingestion_servic.System.Actions.{operate-Evolves}

-- The status of a row fits its other fields: a processed row has an end time, no error and an attempt;
-- a failed one has an error, no end time and an attempt; a pending one has no end time, and an error
-- only after an attempt.
abbrev pub Fits : ProcessingStatus → Option ℕ → Option String → ℕ → Type 0
Fits pending ended error attempts = (ended ≡ none) × ((error ≡ none) ⊎ (1 ≤ attempts))
Fits processed ended error attempts = (is_some ended ≡ true) × (error ≡ none) × (1 ≤ attempts)
Fits failed ended error attempts = (ended ≡ none) × (is_some error ≡ true) × (1 ≤ attempts)

abbrev pub IsSound : Event → Type 0
IsSound e = Fits e.processing_status e.processed_at e.error_message e.processing_attempts

fresh-Fits :
    (s : ProcessingStatus) (ended : Option ℕ) (error : Option String) (attempts : ℕ)
    → s ≡ pending
    → ended ≡ none
    → error ≡ none
    → Fits s ended error attempts
fresh-Fits pending ended error attempts h e m = (e, inl m)
fresh-Fits processed ended error attempts h e m = cc
fresh-Fits failed ended error attempts h e m = cc

outcome-Fits :
    (s : ProcessingStatus) (ended : Option ℕ) (error : Option String) (attempts : ℕ)
    → Outcomes s ended error
    → 1 ≤ attempts
    → Fits s ended error attempts
outcome-Fits pending ended error attempts (e, m) h = (e, inr h)
outcome-Fits processed ended error attempts (e, m) h = (e, m, h)
outcome-Fits failed ended error attempts (e, m) h = (e, m, h)

Attempt-IsSound : (e e' : Event) → Attempt e e' → IsSound e'
Attempt-IsSound e e' a =
    outcome-Fits e'.processing_status e'.processed_at e'.error_message e'.processing_attempts a.left
      (omega (arith, a.counted))

mark_pending-IsSound : (ids : List Uuid) (e : Event) → IsSound e → IsSound (mark_pending ids e)
unfolding mark_pending
mark_pending-IsSound ids e h =
    elim (Bool-cases (contains_id ids e.id && not (same_status e.processing_status processed))) [
      | inl opened ↦ rw opened (refl, inl refl)
      | inr kept ↦ rw kept h
    ]

All-overwrite :
    (e : Event) (rows : List Event) → IsSound e → All IsSound rows → All IsSound (overwrite e rows)
unfolding overwrite
All-overwrite e [] h k = tt
All-overwrite e (r ∷ rows) h (p, k) = elim (Bool-cases (r.id == e.id)) [
  | inl own ↦ rw own (h, All-overwrite e rows h k)
  | inr other ↦ rw other (p, All-overwrite e rows h k)
]

All-append :
    (rows : List Event) (e : Event) → All IsSound rows → IsSound e → All IsSound (rows ++ (e ∷ []))
All-append [] e k h = (h, tt)
All-append (r ∷ rows) e (p, k) h = (p, All-append rows e k h)

All-reopen :
    (ids : List Uuid) (rows : List Event)
    → All IsSound rows
    → All IsSound (map (mark_pending ids) rows)
All-reopen ids [] k = tt
All-reopen ids (r ∷ rows) (p, k) = (mark_pending-IsSound ids r p, All-reopen ids rows k)

Change-IsSound : (a b : List Event) → Change a b → All IsSound a → All IsSound b
Change-IsSound a b (inserted e fresh free rows) k = rw rows (
    All-append a e k (
      fresh-Fits e.processing_status e.processed_at e.error_message e.processing_attempts
        fresh.is_pending fresh.unended fresh.flawless))
Change-IsSound a b (written e e' found attempt rows) k =
    rw rows (All-overwrite e' a (Attempt-IsSound e e' attempt) k)
Change-IsSound a b (reopened ids rows) k = rw rows (All-reopen ids a k)

abbrev IsValid : List Event → Type 0
IsValid rows = IsUnique rows × All IsSound rows

Change-IsValid : (a b : List Event) → Change a b → IsValid a → IsValid b
Change-IsValid a b c (u, k) = (Change-IsUnique a b c u, Change-IsSound a b c k)

-- The commits that an operation, or a switch, makes.
pub Step-Changes : {w v : World} → Step w v → Changes w.events v.events
Step-Changes (acts rt o e) = rw e (((operate-Evolves rt o).at _).changes)
Step-Changes {w} {v} (switches e) = subst (λ l. Changes w.events l) (sym e) unchanged

-- In every state that any processes reach from a table with unique keys and sound rows, by any
-- operations in any order, with every failure of the broker and the database: no two rows share an id
-- or a delivery id, and the status of every row fits its other fields.
pub Reaches-IsValid :
    (w v : World)
    → IsUnique w.events
    → All IsSound w.events
    → Reaches w v
    → IsUnique v.events × All IsSound v.events
Reaches-IsValid w v u k here = (u, k)
Reaches-IsValid w v u k (next {u = x} {v = y} r s) =
    Changes-keep IsValid Change-IsValid (Step-Changes s) (Reaches-IsValid w x u k r)
