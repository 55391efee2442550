-- ===== src/Migrations/Later.antt =====
-- The later migrations: migrations/versions/63505e2817ac_add_check_constraints.py,
-- 906b317e5e85_add_payload_to_recovery_jobs.py and f649369deabb_add_indexes_for_scaling.py, in this order.
use razor_pay.Prelude.{
  ◌≡◌, refl, sym, ◌∙◌, false, Option, none, some, List, [], ◌∷◌, ◌++◌, Option-cases, inl, inr,
}
use razor_pay.Migrations.{json_type, optional, Operation, Database, migrate, undo, Behaves}
use razor_pay.Migrations.Initial.{index}
use razor_pay.Migrations.Steps.{first_step, migrate-append}

abbrev pub upgrade_checks : List Operation
upgrade_checks =
    Operation.create_check_constraint "chk_payment_amount_positive" "payments" "amount >= 0"
    ∷ Operation.create_check_constraint "chk_recovery_case_amount_positive" "recovery_cases"
        "amount_at_risk >= 0"
    ∷ []

abbrev pub downgrade_checks : List Operation
downgrade_checks =
    Operation.drop_constraint "recovery_cases" "chk_recovery_case_amount_positive"
    ∷ Operation.drop_constraint "payments" "chk_payment_amount_positive"
    ∷ []

abbrev pub upgrade_payload : List Operation
upgrade_payload = Operation.add_column "recovery_jobs" (optional "payload" json_type) ∷ []

abbrev pub downgrade_payload : List Operation
downgrade_payload = Operation.drop_column "recovery_jobs" "payload" ∷ []

abbrev pub upgrade_indexes : List Operation
upgrade_indexes =
    Operation.create_index
      (index "ix_recovery_attempts_case_id" "recovery_attempts" ("recovery_case_id" ∷ []) false)
    ∷ Operation.create_index
        (index "ix_recovery_cases_created_at" "recovery_cases" ("created_at" ∷ []) false)
    ∷ Operation.create_index
        (index "ix_recovery_decisions_case_id" "recovery_decisions" ("recovery_case_id" ∷ []) false)
    ∷ Operation.create_index
        (index "ix_recovery_jobs_case_id" "recovery_jobs" ("recovery_case_id" ∷ []) false)
    ∷ []

abbrev pub downgrade_indexes : List Operation
downgrade_indexes =
    Operation.drop_index "recovery_jobs" "ix_recovery_jobs_case_id"
    ∷ Operation.drop_index "recovery_decisions" "ix_recovery_decisions_case_id"
    ∷ Operation.drop_index "recovery_cases" "ix_recovery_cases_created_at"
    ∷ Operation.drop_index "recovery_attempts" "ix_recovery_attempts_case_id"
    ∷ []

abbrev and_then : Option Operation → Option (List Operation) → Option (List Operation)
and_then (some u) (some downs) = some (downs ++ u ∷ [])
and_then _ _ = none

-- What undoes a list of operations, from its end.
undo_all : List Operation → Option (List Operation)
undo_all [] = some []
undo_all (o ∷ ops) = and_then (undo o) (undo_all ops)

module _ (db : Database) where
  -- A downgrade that follows the upgrade succeeds and restores the schema.
  abbrev pub Restores : List Operation → List Operation → Type 0
  Restores up down = (s t : db.Schema) → migrate db up s ≡ some t → migrate db down t ≡ some s

  undo_all-Restores :
      Behaves db → (up down : List Operation) → undo_all up ≡ some down → Restores up down
  unfolding migrate undo_all
  undo_all-Restores behaves [] down h s t e = let same : [] ≡ down = cc in rw (← same) (sym e)
  undo_all-Restores behaves (o ∷ ups) down h s t e =
      let (m, found, e') = first_step db o ups s e in
      elim (Option-cases (undo o)) [
        | inl gone ↦ absurd (let h' : none ≡ some down = rw gone at h in cc)
        | inr (u, k) ↦ elim (Option-cases (undo_all ups)) [
          | inl gone ↦ absurd (let h' : none ≡ some down = rw (k, gone) at h in cc)
          | inr (downs, k') ↦
              let h' : some (downs ++ u ∷ []) ≡ some down = rw (k, k') at h in
              let same : downs ++ u ∷ [] ≡ down = cc in
              rw (← same) (
                migrate-append db downs u t (undo_all-Restores behaves ups downs k' m t e')
                ∙ rw (behaves.restores o u k found) refl)
        ]
      ]

-- Each later migration's downgrade restores the schema that the upgrade found, and so do the three
-- downgrades after the three upgrades. The database behaves as documented.
pub later_migrations-Restores :
    (db : Database)
    → Behaves db
    → Restores db upgrade_checks downgrade_checks
      × Restores db upgrade_payload downgrade_payload
      × Restores db upgrade_indexes downgrade_indexes
      × Restores db
          (upgrade_checks ++ upgrade_payload ++ upgrade_indexes)
          (downgrade_indexes ++ downgrade_payload ++ downgrade_checks)
unfolding undo_all
later_migrations-Restores db behaves = (
  undo_all-Restores db behaves upgrade_checks downgrade_checks refl,
  undo_all-Restores db behaves upgrade_payload downgrade_payload refl,
  undo_all-Restores db behaves upgrade_indexes downgrade_indexes refl,
  undo_all-Restores db behaves _ _ refl,
)
