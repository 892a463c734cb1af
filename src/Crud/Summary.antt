-- ===== src/Crud/Summary.antt =====
-- The counts of `get_events_summary` of app/crud.py.
use webhook_ingestion_servic.Prelude.{
  ◌+◌, ◌≡◌, refl, ◌↔◌, ◌⊎◌, String, Bool, true, List, [], ◌∷◌, length, select, eq_iff, arith, inl,
  inr,
}
use webhook_ingestion_servic.Events.{
  ProcessingStatus, pending, processed, failed, same_status, Event,
}
use webhook_ingestion_servic.Metrics.{value, same_text}
use webhook_ingestion_servic.Metrics.Laws.{value-inc}
use webhook_ingestion_servic.Runtime.{Runtime, World, Outcome, ok, raise, external, perform}
use webhook_ingestion_servic.Crud.{
  group_count, with_status, with_source, get_events_summary, EventsSummary,
}

module _ {K : Type 0} (same : K → K → Bool) (lawful : (a b : K) → (same a b ≡ true) ↔ (a ≡ b)) where
  value-group_count :
      (key : Event → K) (k : K) (rows : List Event)
      → value (same k) (group_count same key rows) ≡ length (select (λ e. same k (key e)) rows)
  unfolding group_count value select
  value-group_count key k [] = refl
  value-group_count key k (e ∷ rows) = ground (
    arith,
    value-inc same lawful k (key e) 1 (group_count same key rows),
    value-group_count key k rows,
  )

same_status-lawful : (a b : ProcessingStatus) → (same_status a b ≡ true) ↔ (a ≡ b)
same_status-lawful pending b = ground arith
same_status-lawful processed b = ground arith
same_status-lawful failed b = ground arith

same_text-lawful : (a b : String) → (same_text a b ≡ true) ↔ (a ≡ b)
same_text-lawful a b = ground (arith, eq_iff b a)

-- Every row is in one of the three states.
status_partition :
    (rows : List Event)
    → length (select (with_status pending) rows)
        + length (select (with_status processed) rows)
        + length (select (with_status failed) rows)
      ≡ length rows
unfolding select
status_partition [] = refl
status_partition (e ∷ rows) = ground (arith, status_partition rows)

abbrev pub Summarizes : World → Outcome EventsSummary × World → Type 0
Summarizes w (ok s, v) =
    (s.total ≡ length w.events)
    × (s.pending ≡ length (select (with_status pending) w.events))
    × (s.processed ≡ length (select (with_status processed) w.events))
    × (s.failed ≡ length (select (with_status failed) w.events))
    × (s.pending + s.processed + s.failed ≡ s.total)
    × ((source : String)
        → value (same_text source) s.by_source ≡ length (select (with_source source) w.events))
    × (v.events ≡ w.events)
Summarizes w (raise x, v) = (x ≡ external) × (v.events ≡ w.events)

table_summary : List Event → EventsSummary
table_summary rows = record {
  total = length rows;
  pending = value (same_status pending) (group_count same_status (λ e. e.processing_status) rows);
  processed =
      value (same_status processed) (group_count same_status (λ e. e.processing_status) rows);
  failed = value (same_status failed) (group_count same_status (λ e. e.processing_status) rows);
  by_source = group_count same_text (λ e. e.source) rows;
}

table_summary-Summarizes :
    (w v : World) → v.events ≡ w.events → Summarizes w (ok (table_summary w.events), v)
unfolding table_summary
table_summary-Summarizes w v same =
    let count =
      value-group_count same_status same_status-lawful (λ (e : Event). e.processing_status) in
    (
      refl,
      count pending w.events,
      count processed w.events,
      count failed w.events,
      omega (
        arith,
        count pending w.events,
        count processed w.events,
        count failed w.events,
        status_partition w.events,
      ),
      λ source. value-group_count same_text same_text-lawful (λ e. e.source) source w.events,
      same,
    )

get_events_summary_cases :
    (rt : Runtime) (w : World)
    → let (r, v) = get_events_summary rt w in
      ((r ≡ ok (table_summary w.events)) × (v.events ≡ w.events))
      ⊎ ((r ≡ raise external) × (v.events ≡ w.events))
unfolding get_events_summary perform table_summary
get_events_summary_cases rt w = ground arith

-- `get_events_summary` of app/crud.py, whatever the database does: an answer counts the rows of the
-- table by state and by source, and the three states add up to the total. Only the queries can raise,
-- and the table is as before.
pub get_events_summary-Summarizes :
    (rt : Runtime) (w : World) → Summarizes w (get_events_summary rt w)
get_events_summary-Summarizes rt w =
    decide (get_events_summary rt w) (get_events_summary_cases rt w)
  where
    decide :
        (p : Outcome EventsSummary × World)
        → ((p.0 ≡ ok (table_summary w.events)) × (p.1.events ≡ w.events))
          ⊎ ((p.0 ≡ raise external) × (p.1.events ≡ w.events))
        → Summarizes w p
    decide (r, v) (inl (a, b)) = rw a (table_summary-Summarizes w v b)
    decide (r, v) (inr (a, b)) = rw a (refl, b)
