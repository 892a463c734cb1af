-- ===== src/Events.antt =====
-- app/models.py: the rows of the table `events`.
use webhook_ingestion_servic.Prelude.{ℕ, String, Bool, true, false, Option}
use webhook_ingestion_servic.Json.{Fields}

-- A UUID by its 128-bit number; the code only compares and prints it.
abbrev pub Uuid : Type 0
Uuid = ℕ

-- `Event.ProcessingStatus`
pub data ProcessingStatus : Type 0 where
  pending processed failed : ProcessingStatus

abbrev pub same_status : ProcessingStatus → ProcessingStatus → Bool
same_status pending pending = true
same_status processed processed = true
same_status failed failed = true
same_status _ _ = false

-- Times are numbers of a clock: they are only stored and compared.
pub record Event : Type 0 where
  pub id : Uuid
  pub delivery_id : Option String
  pub request_id : Option String
  pub source : String
  pub event_type : String
  pub payload : Fields
  pub received_at : ℕ
  pub processing_status : ProcessingStatus
  pub processing_attempts : ℕ
  pub processed_at : Option ℕ
  pub error_message : Option String
