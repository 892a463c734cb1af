-- ===== src/Crud/Unique.antt =====
-- The primary key and the unique delivery ids of the table (app/models.py), and that the updates of
-- app/crud.py and app/services/processor.py keep them.
use webhook_ingestion_servic.Prelude.{
  ◌≡◌, refl, ap, ◌⊎◌, inl, inr, Bool-cases, ◌∙◌, String, true, false, ◌||◌, Option, none, some,
  List, [], ◌∷◌, ◌++◌, map, select, ◌==◌, eq_iff, arith,
}
use webhook_ingestion_servic.Events.{Uuid, Event}
use webhook_ingestion_servic.Crud.{same_delivery, violates, with_delivery, mark_pending}

-- No two rows share an id or a delivery id.
abbrev pub IsUnique : List Event → Type 0
IsUnique [] = Unit
IsUnique (r ∷ rows) = (violates r rows ≡ false) × IsUnique rows

same_delivery_comm : (a b : Option String) → same_delivery a b ≡ same_delivery b a
same_delivery_comm none none = refl
same_delivery_comm none (some b) = refl
same_delivery_comm (some a) none = refl
same_delivery_comm (some a) (some b) = ground (arith, eq_iff a b, eq_iff b a)

violates-append :
    (r e : Event) (rows : List Event)
    → violates r rows ≡ false
    → (r.id == e.id || same_delivery r.delivery_id e.delivery_id) ≡ false
    → violates r (rows ++ (e ∷ [])) ≡ false
unfolding violates
violates-append r e [] h k = ground (arith, same_delivery_comm r.delivery_id e.delivery_id)
violates-append r e (x ∷ rows) h k = ground (arith, violates-append r e rows)

-- A row that violates no constraint can be added.
pub IsUnique-append :
    (e : Event) (rows : List Event)
    → violates e rows ≡ false
    → IsUnique rows
    → IsUnique (rows ++ (e ∷ []))
unfolding violates
IsUnique-append e [] h u = (refl, tt)
IsUnique-append e (r ∷ rows) h u =
    (violates-append r e rows u.0 (ground arith), IsUnique-append e rows (ground arith) u.1)

-- Rows that agree in id and delivery id.
abbrev pub SameKeys : Event → Event → Type 0
SameKeys a b = (a.id ≡ b.id) × (a.delivery_id ≡ b.delivery_id)

violates-map :
    (f : Event → Event) (same : (e : Event) → SameKeys (f e) e) (r : Event) (rows : List Event)
    → violates (f r) (map f rows) ≡ violates r rows
unfolding violates
violates-map f same r [] = refl
violates-map f same r (x ∷ rows) =
    let (ir, dr) = same r in
    let (ix, dx) = same x in
    rw (ir, dr, ix, dx)
      (ap (λ b. (x.id == r.id || same_delivery x.delivery_id r.delivery_id) || b)
        (violates-map f same r rows))

pub IsUnique-map :
    (f : Event → Event) (same : (e : Event) → SameKeys (f e) e) (rows : List Event)
    → IsUnique rows
    → IsUnique (map f rows)
IsUnique-map f same [] u = tt
IsUnique-map f same (r ∷ rows) (u, us) =
    (violates-map f same r rows ∙ u, IsUnique-map f same rows us)

pub mark_pending-SameKeys : (ids : List Uuid) (e : Event) → SameKeys (mark_pending ids e) e
unfolding mark_pending
mark_pending-SameKeys ids e = ground arith

pub select_absent :
    (d : String) (r : Event) (rows : List Event)
    → r.delivery_id ≡ some d
    → violates r rows ≡ false
    → select (with_delivery d) rows ≡ []
unfolding violates select
select_absent d r [] h k = refl
select_absent d r (x ∷ rows) h k =
    let held : same_delivery x.delivery_id (some d) ≡ same_delivery x.delivery_id r.delivery_id =
      rw h in
    ground (arith, held, select_absent d r rows h)

pub held_delivery : (d : String) (o : Option String) → same_delivery o (some d) ≡ true → o ≡ some d
held_delivery d none h = cc
held_delivery d (some a) h = ap some ((eq_iff a d).0 h)

-- Where the rows are unique, at most one has a delivery id.
pub select-with_delivery :
    (d : String) (rows : List Event)
    → IsUnique rows
    → (select (with_delivery d) rows ≡ [])
      ⊎ ((e : Event) × (select (with_delivery d) rows ≡ e ∷ []) × (e.delivery_id ≡ some d))
unfolding select
select-with_delivery d [] u = inl refl
select-with_delivery d (r ∷ rows) (u, us) = elim (Bool-cases (with_delivery d r)) [
  | inl held ↦ inr (
    r,
    rw held (ap (λ l. r ∷ l) (select_absent d r rows (held_delivery d r.delivery_id held) u)),
    held_delivery d r.delivery_id held,
  )
  | inr other ↦ rw other (select-with_delivery d rows us)
]
