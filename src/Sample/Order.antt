-- ===== src/Sample/Order.antt =====
-- Rows sorted by the time of their receipt, the newest first, as the database's ORDER BY of
-- app/crud.py gives them.
use mathlib.Core.List.{Perm}
use mathlib.Core.List.Perm
use webhook_ingestion_servic.Prelude.{
  ◌≤◌, List, [], ◌∷◌, leb, All, arith, Bool-cases, inl, inr, if◌then◌else◌,
}
use webhook_ingestion_servic.Events.{Event}
use webhook_ingestion_servic.Crud.Reads.{IsDescending, IsOrderBy}

abbrev insert_by_time : Event → List Event → List Event
insert_by_time e [] = e ∷ []
insert_by_time e (x ∷ rows) =
    let rest = insert_by_time e rows in
    if leb x.received_at e.received_at then e ∷ x ∷ rows else x ∷ rest

abbrev pub newest_first : List Event → List Event
newest_first [] = []
newest_first (e ∷ rows) = insert_by_time e (newest_first rows)

insert_by_time-Perm : (e : Event) (rows : List Event) → Perm (insert_by_time e rows) (e ∷ rows)
insert_by_time-Perm e [] = Perm.refl (e ∷ [])
insert_by_time-Perm e (x ∷ rows) = elim (Bool-cases (leb x.received_at e.received_at)) [
  | inl before ↦ rw before (Perm.refl (e ∷ x ∷ rows))
  | inr after ↦
      rw after (Perm.trans (Perm.cons x (insert_by_time-Perm e rows)) (Perm.swap e x rows))
]

newest_first-Perm : (rows : List Event) → Perm (newest_first rows) rows
newest_first-Perm [] = Perm.refl []
newest_first-Perm (e ∷ rows) =
    Perm.trans (insert_by_time-Perm e (newest_first rows)) (Perm.cons e (newest_first-Perm rows))

-- Every row is at least as old as the event.
abbrev NotAfter : Event → List Event → Type 0
NotAfter e rows = All (λ x. x.received_at ≤ e.received_at) rows

NotAfter-insert :
    (y e : Event) (rows : List Event)
    → e.received_at ≤ y.received_at
    → NotAfter y rows
    → NotAfter y (insert_by_time e rows)
NotAfter-insert y e [] h p = (h, tt)
NotAfter-insert y e (x ∷ rows) h (a, p) = elim (Bool-cases (leb x.received_at e.received_at)) [
  | inl before ↦ rw before (h, (a, p))
  | inr after ↦ rw after (a, NotAfter-insert y e rows h p)
]

NotAfter-trans :
    (y e : Event) (rows : List Event)
    → e.received_at ≤ y.received_at
    → NotAfter e rows
    → NotAfter y rows
NotAfter-trans y e [] h p = tt
NotAfter-trans y e (x ∷ rows) h (a, p) = (omega arith, NotAfter-trans y e rows h p)

insert_by_time-IsDescending :
    (e : Event) (rows : List Event) → IsDescending rows → IsDescending (insert_by_time e rows)
insert_by_time-IsDescending e [] d = (tt, tt)
insert_by_time-IsDescending e (x ∷ rows) (p, d) =
    elim (Bool-cases (leb x.received_at e.received_at)) [
      | inl before ↦ rw before (
          let le : x.received_at ≤ e.received_at = ground arith in
          ((le, NotAfter-trans e x rows le p), (p, d)))
      | inr after ↦
          rw after (NotAfter-insert x e rows (ground arith) p, insert_by_time-IsDescending e rows d)
    ]

newest_first-IsDescending : (rows : List Event) → IsDescending (newest_first rows)
newest_first-IsDescending [] = tt
newest_first-IsDescending (e ∷ rows) =
    insert_by_time-IsDescending e (newest_first rows) (newest_first-IsDescending rows)

pub newest_first-IsOrderBy : IsOrderBy newest_first
newest_first-IsOrderBy = record { perm = newest_first-Perm; descending = newest_first-IsDescending }
