-- ===== src/Models.antt =====
-- app/persistence/models: the rows of the tables, as the services read and write them.
-- A UUID is the number that it stands for, a time is in microseconds, an amount and any other
-- decimal number is in ten-thousandths (`Numeric(12, 4)`). Columns that no code under app/ reads
-- or writes are left out, and so are the ids of rows that nothing refers to.
use razor_pay.Prelude.{ℕ, ℤ, int_eq, String, Bool, ◌&&◌, Option, List, is_empty}
use razor_pay.States.{PaymentState, RecoveryState, AttemptState, JobState}
use razor_pay.Json.{Json}

-- A decimal number: how many ten-thousandths it has, rounded down, and its further digits, the last
-- of which is not 0.
pub record Amount : Type 0 where
  pub units : ℤ
  pub digits : List ℕ

-- The decimal is the amount of a row.
abbrev pub is_amount : Amount → ℤ → Bool
is_amount a n = is_empty a.digits && int_eq n a.units

pub record Customer : Type 0 where
  pub id : ℕ
  pub external_id : String
  pub email : String
  pub name : String

pub record Payment : Type 0 where
  pub id : ℕ
  pub external_id : String
  pub customer_id : ℕ
  pub amount : ℤ
  pub currency : String
  pub status : PaymentState

-- `failure_reason` may be missing in a row that is not flushed yet; the column is NOT NULL.
pub record RecoveryCase : Type 0 where
  pub id : ℕ
  pub payment_id : ℕ
  pub customer_id : ℕ
  pub amount_at_risk : ℤ
  pub currency : String
  pub status : RecoveryState
  pub failure_reason : Option String
  pub max_attempts : ℕ
  pub started_at : ℕ
  pub created_at : ℕ

pub record RecoveryAttempt : Type 0 where
  pub id : ℕ
  pub recovery_case_id : ℕ
  pub attempt_number : ℕ
  pub action_type : String
  pub status : AttemptState

pub record RecoveryDecision : Type 0 where
  pub recovery_case_id : ℕ
  pub decision_source : String
  pub action_type : String
  pub confidence : ℕ
  pub reason : String
  pub policy_result : String

-- the texts of `job_type` that the worker compares with, and any other
pub data JobType : Type 0 where
  evaluate_recovery execute_charge : JobType
  unknown : String → JobType

-- `payload` is a JSON object of texts, empty for NULL.
pub record RecoveryJob : Type 0 where
  pub id : ℕ
  pub recovery_case_id : ℕ
  pub attempt_id : Option ℕ
  pub job_type : JobType
  pub payload : List (String × String)
  pub status : JobState
  pub scheduled_for : ℕ
  pub available_at : ℕ
  pub attempt_count : ℕ
  pub max_attempts : ℕ
  pub locked_at : Option ℕ
  pub locked_by : Option ℕ
  pub last_error : Option String

pub record IdempotencyRecord : Type 0 where
  pub idempotency_key : String
  pub request_hash : String
  pub response_status : ℕ

-- what the callers hand over for the UUID column `entity_id`: the text of a UUID, or another text
pub data EntityId : Type 0 where
  uuid : ℕ → EntityId
  text : String → EntityId

pub record AuditEvent : Type 0 where
  pub entity_type : String
  pub entity_id : EntityId
  pub event_type : String
  pub actor_type : String
  pub payload : Json
  pub correlation_id : String

-- the tables
pub record Db : Type 0 where
  pub customers : List Customer
  pub payments : List Payment
  pub cases : List RecoveryCase
  pub attempts : List RecoveryAttempt
  pub decisions : List RecoveryDecision
  pub jobs : List RecoveryJob
  pub keys : List IdempotencyRecord
  pub audits : List AuditEvent
