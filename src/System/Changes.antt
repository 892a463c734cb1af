-- ===== src/System/Changes.antt =====
-- How one commit changes the table `events` (app/crud.py, app/services/processor.py), without the code
-- that makes it: what a reader of the table may rely on.
use webhook_ingestion_servic.Prelude.{
  ℕ, ◌+◌, ◌≡◌, String, true, false, Option, none, some, is_some, List, [], ◌∷◌, ◌++◌, map,
}
use webhook_ingestion_servic.Events.{Uuid, Event, ProcessingStatus, pending, processed, failed}
use webhook_ingestion_servic.Crud.{violates, overwrite, mark_pending}
use webhook_ingestion_servic.Processor.{find_event}

-- A row that no attempt was made on.
pub record IsFresh (e : Event) : Type 0 where
  pub is_pending : e.processing_status ≡ pending
  pub untried : e.processing_attempts ≡ 0
  pub unended : e.processed_at ≡ none
  pub flawless : e.error_message ≡ none

-- The fields that nothing changes after the insert.
pub record SameIdentity (e e' : Event) : Type 0 where
  pub id_eq : e'.id ≡ e.id
  pub delivery_eq : e'.delivery_id ≡ e.delivery_id
  pub request_eq : e'.request_id ≡ e.request_id
  pub source_eq : e'.source ≡ e.source
  pub type_eq : e'.event_type ≡ e.event_type
  pub received_eq : e'.received_at ≡ e.received_at

-- What an attempt leaves, by the status that it sets.
abbrev pub Outcomes : ProcessingStatus → Option ℕ → Option String → Type 0
Outcomes processed ended error = (is_some ended ≡ true) × (error ≡ none)
Outcomes failed ended error = (ended ≡ none) × (is_some error ≡ true)
Outcomes pending ended error = (ended ≡ none) × (is_some error ≡ true)

-- One attempt on a row.
pub record Attempt (e e' : Event) : Type 0 where
  pub same : SameIdentity e e'
  pub counted : e'.processing_attempts ≡ e.processing_attempts + 1
  pub left : Outcomes e'.processing_status e'.processed_at e'.error_message

-- One commit: a fresh row is inserted at the end, one row is written after an attempt on it, or the
-- rows of some ids are opened again.
pub data Change (rows rows' : List Event) : Type 0 where
  inserted :
      (e : Event)
      → IsFresh e
      → violates e rows ≡ false
      → rows' ≡ rows ++ (e ∷ [])
      → Change rows rows'
  written :
      (e e' : Event)
      → find_event e.id rows ≡ some e
      → Attempt e e'
      → rows' ≡ overwrite e' rows
      → Change rows rows'
  reopened : (ids : List Uuid) → rows' ≡ map (mark_pending ids) rows → Change rows rows'

-- Any number of commits.
pub data Changes (rows : List Event) : List Event → Type 0 where
  unchanged : Changes rows rows
  more :
      {rows' rows'' : List Event} → Changes rows rows' → Change rows' rows'' → Changes rows rows''

pub Changes-trans : {a b c : List Event} → Changes a b → Changes b c → Changes a c
Changes-trans p unchanged = p
Changes-trans p (more q s) = more (Changes-trans p q) s

-- What each commit keeps, any number of commits keeps.
pub Changes-keep {ℓ} :
    (P : List Event → Type ℓ)
    → ((a b : List Event) → Change a b → P a → P b)
    → {a b : List Event} → Changes a b
    → P a
    → P b
Changes-keep P step unchanged h = h
Changes-keep P step (more {rows'} {rows''} q s) h = step rows' rows'' s (Changes-keep P step q h)
