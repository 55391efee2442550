-- ===== src/Errors.antt =====
-- The exceptions of the program, as values: app/domain/payments/exceptions.py,
-- app/persistence/repositories/{job_repo,webhook_repo}.py, app/ai/exceptions.py, FastAPI's
-- `HTTPException` with its status code, and what the database raises at a flush. The texts of
-- messages are not modelled.
use razor_pay.Prelude.{ℕ, String}

-- the constraints of app/persistence/models that a flush may violate
pub data Constraint : Type 0 where
  primary_key payment_external_id customer_external_id idempotency_key : Constraint
  active_case attempt_number not_null amount_positive : Constraint

pub data Error : Type 0 where
  immutable_attribute invalid_financial_payload duplicate_event stale_worker : Error
  gateway_timeout attribute_error improperly_configured invalid_state_transition : Error
  value_error validation_error : Error
  ai_decision : String → Error
  http : ℕ → Error
  integrity : Constraint → Error
  data_error : Error

pub data Result {ℓ} (A : Type ℓ) : Type ℓ where
  ok : A → Result A
  err : Error → Result A
