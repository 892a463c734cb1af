-- ===== src/Crud/Reads.antt =====
-- What the lookups and the listing of app/crud.py return.
use mathlib.Core.List.{Perm, Mem, mem-cons, mem-cons_of_mem, not-mem-nil, Mem-prop}
use mathlib.Core.List.Perm
use mathlib.Core.Logic.Or
use mathlib.Core.HLevel.{×_prop}
use webhook_ingestion_servic.Prelude.{
  ℕ, zero, suc, ◌≤◌, ◌≡◌, refl, ◌⊎◌, inl, inr, String, Bool, true, Option, none, some, List, [],
  ◌∷◌, length, take, drop, select, str_eq, eq_iff, All, arith, if◌then◌else◌, length-take,
  Bool-cases,
}
use webhook_ingestion_servic.Events.{Event}
use webhook_ingestion_servic.Runtime.{
  Runtime, World, Outcome, ok, raise, external, db_execute, perform,
}
use webhook_ingestion_servic.Crud.{
  with_delivery, with_source, one_or_none, get_event_by_delivery_id, list_events,
}
use webhook_ingestion_servic.Crud.Unique.{IsUnique, select-with_delivery}

abbrev pub Finds : String → World → Outcome (Option Event) × World → Type 0
Finds d w (ok none, v) = (select (with_delivery d) w.events ≡ []) × (v.events ≡ w.events)
Finds d w (ok (some e), v) =
    (select (with_delivery d) w.events ≡ e ∷ []) × (e.delivery_id ≡ some d) × (v.events ≡ w.events)
Finds d w (raise x, v) = (x ≡ external) × (v.events ≡ w.events)

-- The lookup by delivery id, on a table with unique keys: it returns the only row with that id, or
-- none where no row has it, or the query itself raises; the rows are not changed.
pub get_event_by_delivery_id-Finds :
    (rt : Runtime) (d : String) (w : World)
    → IsUnique w.events
    → Finds d w (get_event_by_delivery_id rt d w)
unfolding get_event_by_delivery_id perform one_or_none
get_event_by_delivery_id-Finds rt d w u = elim (Bool-cases (rt.fails w.history db_execute)) [
  | inl down ↦ rw down (refl, refl)
  | inr up ↦ elim (select-with_delivery d w.events u) [
    | inl absent ↦ rw (up, absent) (absent, refl)
    | inr (e, found, held) ↦ rw (up, found) (found, held, refl)
  ]
]

-- Every row is at least as old as the one before.
abbrev pub IsDescending : List Event → Type 0
IsDescending [] = Unit
IsDescending (e ∷ rows) = All (λ x. x.received_at ≤ e.received_at) rows × IsDescending rows

-- What SQL's ORDER BY does; the order among rows of one time is left open.
pub record IsOrderBy (f : List Event → List Event) : Type 0 where
  pub perm : (rows : List Event) → Perm (f rows) rows
  pub descending : (rows : List Event) → IsDescending (f rows)

module _ {ℓ κ} {A : Type ℓ} (P : A → Type κ) where
  All-take : (n : ℕ) (l : List A) → All P l → All P (take n l)
  All-take zero l h = tt
  All-take (suc n) [] h = tt
  All-take (suc n) (x ∷ l) (p, h) = (p, All-take n l h)

IsDescending-take : (n : ℕ) (l : List Event) → IsDescending l → IsDescending (take n l)
IsDescending-take zero l h = tt
IsDescending-take (suc n) [] h = tt
IsDescending-take (suc n) (e ∷ l) (p, h) =
    (All-take (λ x. x.received_at ≤ e.received_at) n l p, IsDescending-take n l h)

IsDescending-drop : (n : ℕ) (l : List Event) → IsDescending l → IsDescending (drop n l)
IsDescending-drop zero l h = h
IsDescending-drop (suc n) [] h = tt
IsDescending-drop (suc n) (e ∷ l) (p, h) = IsDescending-drop n l h

mem_of_mem-take : (n : ℕ) (e : Event) (l : List Event) → Mem e (take n l) → Mem e l
mem_of_mem-take zero e l m = absurd (not-mem-nil m)
mem_of_mem-take (suc n) e [] m = m
mem_of_mem-take (suc n) e (x ∷ l) m =
    Or.elim Mem-prop (mem-cons.0 m) (λ p. mem-cons.1 (Or.inl p))
      (λ k. mem-cons_of_mem x (mem_of_mem-take n e l k))

mem_of_mem-drop : (n : ℕ) (e : Event) (l : List Event) → Mem e (drop n l) → Mem e l
mem_of_mem-drop zero e l m = m
mem_of_mem-drop (suc n) e [] m = m
mem_of_mem-drop (suc n) e (x ∷ l) m = mem-cons_of_mem x (mem_of_mem-drop n e l m)

Bool_eq_prop : (a b : Bool) → IsProp (a ≡ b)
Bool_eq_prop = let s : IsSet Bool = hlevel in s

mem-select :
    (p : Event → Bool) (e : Event) (rows : List Event)
    → Mem e (select p rows)
    → Mem e rows × (p e ≡ true)
unfolding select
mem-select p e [] m = absurd (not-mem-nil m)
mem-select p e (x ∷ rows) m = elim (Bool-cases (p x)) [
  | inl passes ↦
      Or.elim (×_prop Mem-prop (Bool_eq_prop (p e) true)) (mem-cons.0 (rw passes at m))
        (λ q. (mem-cons.1 (Or.inl q), rw q passes))
        (λ k. let (a, b) = mem-select p e rows k in (mem-cons_of_mem x a, b))
  | inr fails ↦ let (a, b) = mem-select p e rows (rw fails at m) in (mem-cons_of_mem x a, b)
]

-- The rows that a listing may show: those of the source, where one is given.
abbrev pub IsListed : Option String → List Event → Event → Type 0
IsListed none rows e = Mem e rows
IsListed (some s) rows e = Mem e rows × ((s ≡ "") ⊎ (with_source s e ≡ true))

abbrev wanted : Option String → List Event → List Event
wanted source rows = elim source [
  | none ↦ rows
  | some s ↦ if str_eq s "" then rows else select (with_source s) rows
]

wanted-IsListed :
    (source : Option String) (rows : List Event) (e : Event)
    → Mem e (wanted source rows)
    → IsListed source rows e
wanted-IsListed none rows e m = m
wanted-IsListed (some s) rows e m = elim (Bool-cases (str_eq s "")) [
  | inl empty ↦ (rw empty at m, inl ((eq_iff s "").0 empty))
  | inr given ↦ let (a, b) = mem-select (with_source s) e rows (rw given at m) in (a, inr b)
]

-- A page of a listing.
abbrev pub Lists : ℕ → Option String → World → Outcome (List Event) × World → Type 0
Lists limit source w (ok items, v) =
    (length items ≤ limit)
    × IsDescending items
    × ((e : Event) → Mem e items → IsListed source w.events e)
    × (v.events ≡ w.events)
Lists limit source w (raise x, v) = (x ≡ external) × (v.events ≡ w.events)

-- `list_events`, where the database's ORDER BY sorts: at most `limit` rows, newest first, each of them
-- a row of the table and of the source, where one that is not empty was given. The rows are not
-- changed, and only the query can raise.
pub list_events-Lists :
    (rt : Runtime) (limit offset : ℕ) (source : Option String) (w : World)
    → IsOrderBy rt.order_by_received_at_desc
    → Lists limit source w (list_events rt limit offset source w)
unfolding list_events perform
list_events-Lists rt limit offset source w order =
    elim (Bool-cases (rt.fails w.history db_execute)) [
      | inl down ↦ rw down (refl, refl)
      | inr up ↦ rw up (
        omega (
          arith,
          length-take limit (drop offset (rt.order_by_received_at_desc (wanted source w.events))),
        ),
        IsDescending-take limit _ (IsDescending-drop offset _ (order.descending _)),
        λ e m. wanted-IsListed source w.events e (
            Perm.subset (order.perm _) e
              (mem_of_mem-drop offset e _ (mem_of_mem-take limit e _ m))),
        refl,
      )
    ]
