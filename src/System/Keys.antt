-- ===== src/System/Keys.antt =====
-- The keys of the table (app/models.py) across the commits of one row or of some rows.
use webhook_ingestion_servic.Prelude.{
  subst, String, select, false, ◌≡◌, refl, sym, ap, ◌∙◌, inl, inr, true, false, ◌||◌, some, List,
  [], ◌∷◌, ◌==◌, arith, eq_iff, Bool-cases,
}
use webhook_ingestion_servic.Events.{Event}
use webhook_ingestion_servic.Crud.{violates, overwrite, mark_pending, same_delivery, with_delivery}
use webhook_ingestion_servic.Crud.Unique.{
  select_absent, held_delivery, IsUnique, IsUnique-append, IsUnique-map, mark_pending-SameKeys,
}
use webhook_ingestion_servic.Processor.{find_event}
use webhook_ingestion_servic.System.Changes.{SameIdentity, Change, inserted, written, reopened}

-- A row written over the row with its id has that row's keys, where the ids are unique.
violates_absent :
    (r e : Event) (rows : List Event)
    → violates r rows ≡ false
    → r.id ≡ e.id
    → overwrite e rows ≡ rows
unfolding violates overwrite
violates_absent r e [] h k = refl
violates_absent r e (x ∷ rows) h k = ground (arith, violates_absent r e rows)

found_here :
    (r e : Event) (rows : List Event)
    → find_event e.id (r ∷ rows) ≡ some e
    → r.id == e.id ≡ true
    → r ≡ e
unfolding find_event
found_here r e rows found own = ground arith

found_later :
    (r e : Event) (rows : List Event)
    → find_event e.id (r ∷ rows) ≡ some e
    → r.id == e.id ≡ false
    → find_event e.id rows ≡ some e
unfolding find_event
found_later r e rows found other = rw other at found

-- The row itself is written over, and no other has its id; any other row stays.
overwrite_here :
    (r e e' : Event) (rows : List Event)
    → violates r rows ≡ false
    → r ≡ e
    → SameIdentity e e'
    → overwrite e' (r ∷ rows) ≡ e' ∷ rows
unfolding overwrite
overwrite_here r e e' rows free is same =
    let key : r.id ≡ e'.id = ap (λ (y : Event). y.id) is ∙ sym same.id_eq in
    ground (arith, violates_absent r e' rows free key)

overwrite_later :
    (r e e' : Event) (rows : List Event)
    → r.id == e.id ≡ false
    → SameIdentity e e'
    → overwrite e' (r ∷ rows) ≡ r ∷ overwrite e' rows
unfolding overwrite
overwrite_later r e e' rows other same = ground arith

-- Rows with the same keys are in the same conflicts.
violates_same :
    (e e' : Event) (rows : List Event) → SameIdentity e e' → violates e' rows ≡ violates e rows
unfolding violates
violates_same e e' [] same = refl
violates_same e e' (x ∷ rows) same =
    rw (same.id_eq, same.delivery_eq)
      (ap (λ b. (x.id == e.id || same_delivery x.delivery_id e.delivery_id) || b)
        (violates_same e e' rows same))

violates-cons_same :
    (x e e' : Event) (rows : List Event)
    → SameIdentity e e'
    → violates x (e' ∷ rows) ≡ violates x (e ∷ rows)
unfolding violates
violates-cons_same x e e' rows same = rw (same.id_eq, same.delivery_eq)

violates-cons_later :
    (x r : Event) (rows rows' : List Event)
    → violates x rows ≡ violates x rows'
    → violates x (r ∷ rows) ≡ violates x (r ∷ rows')
unfolding violates
violates-cons_later x r rows rows' h =
    ap (λ b. (r.id == x.id || same_delivery r.delivery_id x.delivery_id) || b) h

module _ (e e' : Event) (same : SameIdentity e e') where
  violates-overwrite :
      (x : Event) (rows : List Event)
      → IsUnique rows
      → find_event e.id rows ≡ some e
      → violates x (overwrite e' rows) ≡ violates x rows
  unfolding find_event
  violates-overwrite x [] u found = cc
  violates-overwrite x (r ∷ rows) (free, u) found = elim (Bool-cases (r.id == e.id)) [
    | inl own ↦
        (let is = found_here r e rows found own in
          rw (overwrite_here r e e' rows free is same) (
            violates-cons_same x e e' rows same
            ∙ ap (λ (y : Event). violates x (y ∷ rows)) (sym is)))
    | inr other ↦ rw (overwrite_later r e e' rows other same) (
        violates-cons_later x r (overwrite e' rows) rows
          (violates-overwrite x rows u (found_later r e rows found other)))
  ]

  IsUnique-overwrite :
      (rows : List Event)
      → IsUnique rows
      → find_event e.id rows ≡ some e
      → IsUnique (overwrite e' rows)
  unfolding find_event
  IsUnique-overwrite [] u found = cc
  IsUnique-overwrite (r ∷ rows) (free, u) found = elim (Bool-cases (r.id == e.id)) [
    | inl own ↦
        (let is = found_here r e rows found own in
          rw (overwrite_here r e e' rows free is same)
            (violates_same e e' rows same ∙ ap (λ (y : Event). violates y rows) (sym is) ∙ free, u))
    | inr other ↦ rw (overwrite_later r e e' rows other same) (
      violates-overwrite r rows u (found_later r e rows found other) ∙ free,
      IsUnique-overwrite rows u (found_later r e rows found other),
    )
  ]

-- A row that is found under its id is the only one of its delivery id.
pub find_event-select :
    (d : String) (e : Event) (rows : List Event)
    → IsUnique rows
    → find_event e.id rows ≡ some e
    → e.delivery_id ≡ some d
    → select (with_delivery d) rows ≡ e ∷ []
unfolding find_event select
find_event-select d e [] u found held = absurd (cc)
find_event-select d e (r ∷ rows) (free, u) found held = elim (Bool-cases (r.id == e.id)) [
  | inl own ↦
      (let is = found_here r e rows found own in
        let has : r.delivery_id ≡ some d = ap (λ (y : Event). y.delivery_id) is ∙ held in
        let passes : with_delivery d r ≡ true = rw has (ground (arith, eq_iff d d)) in
        rw (passes, select_absent d r rows has free) (ap (λ y. y ∷ []) is))
  | inr other ↦
      (let rest = find_event-select d e rows u (found_later r e rows found other) held in
        elim (Bool-cases (with_delivery d r)) [
          | inl passes ↦
              (let none_left = select_absent d r rows (held_delivery d r.delivery_id passes) free in
                absurd (cc))
          | inr fails ↦ rw fails rest
        ])
]

violates_found :
    (d : String) (r e : Event) (rows : List Event)
    → violates r rows ≡ false
    → select (with_delivery d) rows ≡ e ∷ []
    → r.id == e.id ≡ false
unfolding violates select
violates_found d r e [] free h = absurd (cc)
violates_found d r e (x ∷ rows) free h = elim (Bool-cases (with_delivery d x)) [
  | inl passes ↦
      (let both : x ∷ select (with_delivery d) rows ≡ e ∷ [] = rw passes at h in
        let is : x ≡ e = cc in ground (arith, ap (λ (y : Event). y.id) is))
  | inr fails ↦ violates_found d r e rows (ground arith) (rw fails at h)
]

-- The only row of a delivery is found under its id.
pub select-find_event :
    (d : String) (e : Event) (rows : List Event)
    → IsUnique rows
    → select (with_delivery d) rows ≡ e ∷ []
    → (find_event e.id rows ≡ some e) × (e.delivery_id ≡ some d)
unfolding select find_event
select-find_event d e [] u h = absurd (cc)
select-find_event d e (r ∷ rows) (free, u) h = elim (Bool-cases (with_delivery d r)) [
  | inl passes ↦
      (let both : r ∷ select (with_delivery d) rows ≡ e ∷ [] = rw passes at h in
        let is : r ≡ e = cc in
        (
          ground (arith, is, ap (λ (y : Event). y.id) is),
          subst (λ (y : Event). y.delivery_id ≡ some d) is (held_delivery d r.delivery_id passes),
        ))
  | inr fails ↦
      (let rest : select (with_delivery d) rows ≡ e ∷ [] = rw fails at h in
        let (found, held) = select-find_event d e rows u rest in
        (rw (violates_found d r e rows free rest) found, held))
]

pub Change-IsUnique : (a b : List Event) → Change a b → IsUnique a → IsUnique b
Change-IsUnique a b (inserted e fresh free rows) u = rw rows (IsUnique-append e a free u)
Change-IsUnique a b (written e e' found attempt rows) u =
    rw rows (IsUnique-overwrite e e' attempt.same a u found)
Change-IsUnique a b (reopened ids rows) u =
    rw rows (IsUnique-map (mark_pending ids) (mark_pending-SameKeys ids) a u)
