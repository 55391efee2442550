-- ===== src/Migrations/Initial.antt =====
-- migrations/versions/a04bb93ae6eb_initial_schema.py: `upgrade` and `downgrade`, and why the latter fails.
use razor_pay.Prelude.{
  String, true, false, none, some, List, [], ◌∷◌, ◌≡◌, refl, Bool, exists, All, Bool-cases, arith,
  inl, inr,
}
use razor_pay.Migrations.{Index, Operation, Database, migrate, Behaves, creates_use, is_create}
use razor_pay.Migrations.Steps.{first_step}
use razor_pay.Migrations.Tables.{
  audit_events, customers, idempotency_records, subscriptions, payments, recovery_cases,
  recovery_attempts, recovery_decisions, recovery_jobs,
}

abbrev pub index : String → String → List String → Bool → Index
index n t cs unique = record {
  name = n;
  table = t;
  columns = cs;
  unique = unique;
  condition = none;
}

abbrev pub partial_index : String → String → List String → Index
partial_index n t cs = record {
  name = n;
  table = t;
  columns = cs;
  unique = true;
  condition = some "status NOT IN ('RECOVERED', 'ESCALATED', 'STOPPED')";
}

abbrev pub upgrade : List Operation
upgrade =
    Operation.create_table audit_events
    ∷ Operation.create_index
        (index "ix_audit_events_correlation_id" "audit_events" ("correlation_id" ∷ []) false)
    ∷ Operation.create_index
        (index "ix_audit_events_entity_id" "audit_events" ("entity_id" ∷ []) false)
    ∷ Operation.create_index
        (index "ix_audit_events_entity_type" "audit_events" ("entity_type" ∷ []) false)
    ∷ Operation.create_table customers
    ∷ Operation.create_table idempotency_records
    ∷ Operation.create_index (
        index "ix_idempotency_records_idempotency_key" "idempotency_records"
          ("idempotency_key" ∷ []) true)
    ∷ Operation.create_table subscriptions
    ∷ Operation.create_table payments
    ∷ Operation.create_table recovery_cases
    ∷ Operation.create_index
        (partial_index "ix_active_recovery_case_per_payment" "recovery_cases" ("payment_id" ∷ []))
    ∷ Operation.create_table recovery_attempts
    ∷ Operation.create_table recovery_decisions
    ∷ Operation.create_table recovery_jobs
    ∷ Operation.create_index
        (index "ix_recovery_jobs_poll" "recovery_jobs" ("status" ∷ "available_at" ∷ []) false)
    ∷ []

abbrev pub downgrade : List Operation
downgrade =
    Operation.drop_type "subscription_state_enum" false
    ∷ Operation.drop_type "payment_state_enum" false
    ∷ Operation.drop_type "recovery_state_enum" false
    ∷ Operation.drop_type "attempt_state_enum" false
    ∷ Operation.drop_type "job_state_enum" false
    ∷ Operation.drop_index "recovery_jobs" "ix_recovery_jobs_poll"
    ∷ Operation.drop_table "recovery_jobs"
    ∷ Operation.drop_table "recovery_decisions"
    ∷ Operation.drop_table "recovery_attempts"
    ∷ Operation.drop_index "recovery_cases" "ix_active_recovery_case_per_payment"
    ∷ Operation.drop_table "recovery_cases"
    ∷ Operation.drop_table "payments"
    ∷ Operation.drop_table "subscriptions"
    ∷ Operation.drop_index "idempotency_records" "ix_idempotency_records_idempotency_key"
    ∷ Operation.drop_table "idempotency_records"
    ∷ Operation.drop_table "customers"
    ∷ Operation.drop_index "audit_events" "ix_audit_events_entity_type"
    ∷ Operation.drop_index "audit_events" "ix_audit_events_entity_id"
    ∷ Operation.drop_index "audit_events" "ix_audit_events_correlation_id"
    ∷ Operation.drop_table "audit_events"
    ∷ Operation.drop_type "subscription_state_enum" false
    ∷ Operation.drop_type "payment_state_enum" false
    ∷ Operation.drop_type "recovery_state_enum" false
    ∷ Operation.drop_type "attempt_state_enum" false
    ∷ Operation.drop_type "job_state_enum" false
    ∷ Operation.drop_type "subscription_state_enum" true
    ∷ Operation.drop_type "payment_state_enum" true
    ∷ Operation.drop_type "recovery_state_enum" true
    ∷ Operation.drop_type "attempt_state_enum" true
    ∷ Operation.drop_type "job_state_enum" true
    ∷ []

abbrev CreatesAll : List Operation → Type 0
CreatesAll ops = All (λ o. is_create o ≡ true) ops

module _ (db : Database) (behaves : Behaves db) (type_name : String) where
  migrate-uses :
      (ops : List Operation) (s : db.Schema) {t : db.Schema}
      → CreatesAll ops
      → migrate db ops s ≡ some t
      → db.uses s type_name ≡ true
      → db.uses t type_name ≡ true
  unfolding migrate
  migrate-uses [] s {t} c e u = let same : s ≡ t = cc in rw (← same) u
  migrate-uses (o ∷ ops) s c e u =
      let (m, found, rest) = first_step db o ops s e in
      migrate-uses ops m c.1 rest (behaves.keeps_use type_name o c.0 found u)

  migrate-creates_use :
      (ops : List Operation) (s : db.Schema) {t : db.Schema}
      → CreatesAll ops
      → exists (creates_use type_name) ops ≡ true
      → migrate db ops s ≡ some t
      → db.uses t type_name ≡ true
  unfolding exists
  migrate-creates_use [] s c h e = absurd (ground arith)
  migrate-creates_use (o ∷ ops) s c h e =
      let (m, found, rest) = first_step db o ops s e in
      elim (Bool-cases (creates_use type_name o)) [
        | inl t ↦ migrate-uses ops m c.1 rest (behaves.begins_use type_name o t found)
        | inr f ↦ migrate-creates_use ops m c.1 (rw f at h) rest
      ]

-- After the initial migration its downgrade is refused, whatever the schema was before: it begins with
-- DROP TYPE for a type that a column of `subscriptions` has. The database behaves as documented.
pub downgrade-refused :
    (db : Database) (s : db.Schema) {t : db.Schema}
    → Behaves db
    → migrate db upgrade s ≡ some t
    → migrate db downgrade t ≡ none
unfolding migrate exists
downgrade-refused db s {t} behaves e =
    let type_name : String = "subscription_state_enum" in
    let used : db.uses t type_name ≡ true =
      migrate-creates_use db behaves type_name upgrade s (search) refl e in
    rw (behaves.refuses type_name used) refl
