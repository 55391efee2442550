-- ===== src/Migrations/Tables.antt =====
-- The tables of migrations/versions/a04bb93ae6eb_initial_schema.py.
use razor_pay.Prelude.{none, some, [], ◌∷◌}
use razor_pay.Migrations.{
  uuid_type, json_type, time_type, integer_type, string_type, numeric_type, enum_type, primary_key,
  unique_key, foreign_key, Table, required, optional, defaulted,
}

abbrev pub audit_events : Table
audit_events = record {
  name = "audit_events";
  columns =
      required "id" uuid_type
      ∷ required "entity_type" (string_type none)
      ∷ required "entity_id" uuid_type
      ∷ required "event_type" (string_type none)
      ∷ required "actor_type" (string_type none)
      ∷ optional "actor_id" (string_type none)
      ∷ required "payload" json_type
      ∷ required "correlation_id" (string_type none)
      ∷ defaulted "created_at" time_type
      ∷ [];
  constraints = primary_key "id" ∷ [];
}

abbrev pub customers : Table
customers = record {
  name = "customers";
  columns =
      required "id" uuid_type
      ∷ required "external_id" (string_type none)
      ∷ optional "email" (string_type none)
      ∷ optional "name" (string_type none)
      ∷ defaulted "created_at" time_type
      ∷ defaulted "updated_at" time_type
      ∷ [];
  constraints = primary_key "id" ∷ unique_key none ("external_id" ∷ []) ∷ [];
}

abbrev pub idempotency_records : Table
idempotency_records = record {
  name = "idempotency_records";
  columns =
      required "id" uuid_type
      ∷ required "idempotency_key" (string_type none)
      ∷ required "request_hash" (string_type none)
      ∷ required "response_status" integer_type
      ∷ optional "response_body" json_type
      ∷ defaulted "created_at" time_type
      ∷ optional "expires_at" time_type
      ∷ [];
  constraints = primary_key "id" ∷ [];
}

abbrev pub subscriptions : Table
subscriptions = record {
  name = "subscriptions";
  columns =
      required "id" uuid_type
      ∷ required "customer_id" uuid_type
      ∷ required "external_id" (string_type none)
      ∷ required "status" (
          enum_type ("ACTIVE" ∷ "PAST_DUE" ∷ "CANCELLED" ∷ "RECOVERED" ∷ [])
            "subscription_state_enum")
      ∷ required "amount" (numeric_type 12 4)
      ∷ required "currency" (string_type (some 3))
      ∷ required "billing_interval" (string_type none)
      ∷ defaulted "created_at" time_type
      ∷ defaulted "updated_at" time_type
      ∷ [];
  constraints =
      foreign_key "customer_id" "customers" "id"
      ∷ primary_key "id"
      ∷ unique_key none ("external_id" ∷ [])
      ∷ [];
}

abbrev pub payments : Table
payments = record {
  name = "payments";
  columns =
      required "id" uuid_type
      ∷ required "external_id" (string_type none)
      ∷ required "customer_id" uuid_type
      ∷ optional "subscription_id" uuid_type
      ∷ required "amount" (numeric_type 12 4)
      ∷ required "currency" (string_type (some 3))
      ∷ required "status" (
          enum_type
            ("PENDING" ∷ "SUCCEEDED" ∷ "FAILED" ∷ "RECOVERY_PENDING" ∷ "RECOVERED" ∷ "ABANDONED"
              ∷ [])
            "payment_state_enum")
      ∷ optional "failure_code" (string_type none)
      ∷ optional "failure_message" (string_type none)
      ∷ required "attempt_count" integer_type
      ∷ defaulted "created_at" time_type
      ∷ defaulted "updated_at" time_type
      ∷ [];
  constraints =
      foreign_key "customer_id" "customers" "id"
      ∷ foreign_key "subscription_id" "subscriptions" "id"
      ∷ primary_key "id"
      ∷ unique_key none ("external_id" ∷ [])
      ∷ [];
}

abbrev pub recovery_cases : Table
recovery_cases = record {
  name = "recovery_cases";
  columns =
      required "id" uuid_type
      ∷ required "payment_id" uuid_type
      ∷ required "customer_id" uuid_type
      ∷ required "amount_at_risk" (numeric_type 12 4)
      ∷ required "currency" (string_type (some 3))
      ∷ required "status" (
          enum_type
            ("OPEN" ∷ "DECISION_PENDING" ∷ "ACTION_SCHEDULED" ∷ "ACTION_EXECUTING" ∷ "RECOVERED"
              ∷ "ESCALATED" ∷ "STOPPED" ∷ [])
            "recovery_state_enum")
      ∷ required "failure_reason" (string_type none)
      ∷ required "attempt_count" integer_type
      ∷ required "max_attempts" integer_type
      ∷ defaulted "started_at" time_type
      ∷ optional "last_action_at" time_type
      ∷ optional "completed_at" time_type
      ∷ defaulted "created_at" time_type
      ∷ defaulted "updated_at" time_type
      ∷ [];
  constraints =
      foreign_key "customer_id" "customers" "id"
      ∷ foreign_key "payment_id" "payments" "id"
      ∷ primary_key "id"
      ∷ [];
}

abbrev pub recovery_attempts : Table
recovery_attempts = record {
  name = "recovery_attempts";
  columns =
      required "id" uuid_type
      ∷ required "recovery_case_id" uuid_type
      ∷ required "attempt_number" integer_type
      ∷ required "action_type" (string_type none)
      ∷ required "status" (
          enum_type
            ("SCHEDULED" ∷ "RUNNING" ∷ "SUCCEEDED" ∷ "FAILED" ∷ "CANCELLED" ∷ "AMBIGUOUS" ∷ [])
            "attempt_state_enum")
      ∷ optional "scheduled_for" time_type
      ∷ optional "started_at" time_type
      ∷ optional "completed_at" time_type
      ∷ optional "failure_reason" (string_type none)
      ∷ optional "result_code" (string_type none)
      ∷ defaulted "created_at" time_type
      ∷ [];
  constraints =
      foreign_key "recovery_case_id" "recovery_cases" "id"
      ∷ primary_key "id"
      ∷ unique_key (some "uq_recovery_attempt_number") ("recovery_case_id" ∷ "attempt_number" ∷ [])
      ∷ [];
}

abbrev pub recovery_decisions : Table
recovery_decisions = record {
  name = "recovery_decisions";
  columns =
      required "id" uuid_type
      ∷ required "recovery_case_id" uuid_type
      ∷ optional "attempt_id" uuid_type
      ∷ required "decision_source" (string_type none)
      ∷ required "action_type" (string_type none)
      ∷ required "parameters_json" json_type
      ∷ required "reason" (string_type none)
      ∷ required "policy_result" (string_type none)
      ∷ optional "model_name" (string_type none)
      ∷ optional "prompt_version" (string_type none)
      ∷ defaulted "created_at" time_type
      ∷ [];
  constraints =
      foreign_key "attempt_id" "recovery_attempts" "id"
      ∷ foreign_key "recovery_case_id" "recovery_cases" "id"
      ∷ primary_key "id"
      ∷ [];
}

abbrev pub recovery_jobs : Table
recovery_jobs = record {
  name = "recovery_jobs";
  columns =
      required "id" uuid_type
      ∷ required "recovery_case_id" uuid_type
      ∷ optional "attempt_id" uuid_type
      ∷ required "job_type" (string_type none)
      ∷ required "status" (
          enum_type ("PENDING" ∷ "RUNNING" ∷ "SUCCEEDED" ∷ "FAILED" ∷ "CANCELLED" ∷ [])
            "job_state_enum")
      ∷ required "scheduled_for" time_type
      ∷ required "available_at" time_type
      ∷ required "attempt_count" integer_type
      ∷ required "max_attempts" integer_type
      ∷ optional "locked_at" time_type
      ∷ optional "locked_by" (string_type none)
      ∷ optional "last_error" (string_type none)
      ∷ defaulted "created_at" time_type
      ∷ defaulted "updated_at" time_type
      ∷ [];
  constraints =
      foreign_key "attempt_id" "recovery_attempts" "id"
      ∷ foreign_key "recovery_case_id" "recovery_cases" "id"
      ∷ primary_key "id"
      ∷ [];
}
