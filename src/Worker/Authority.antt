-- ===== src/Worker/Authority.antt =====
-- What a decision of the provider may touch: the final transactions of an evaluation.
use razor_pay.Prelude.{ℕ, ◌≡◌, refl, String}
use razor_pay.Models.{RecoveryCase, RecoveryJob, Db}
use razor_pay.Contracts.{Decision, ActionType}
use razor_pay.Session.{Env, World, Action, begin_after, rollback_on_error, catch, ◌>>=◌}
use razor_pay.Session.Keeps.{Holds, Keeps, keeps_rules, Keeps-catch}
use razor_pay.Tables.Rules.{
  Keeps-add_job, Keeps-add_decision, Keeps-set_case_status, Keeps-change_job, Keeps-set_job_status,
  Keeps-create_audit_event, Keeps-new_job,
}
use razor_pay.Worker.Lease.{load_case, load_leased, cancel_job}
use razor_pay.Worker.Evaluate.{
  act_on, record_decision, finalize_evaluate_error, finalize_evaluate_decision,
}

-- The payments, the attempts to charge, the customers and the idempotency records are those of `b`.
abbrev pub IsUntouched : Db → Db → Type 0
IsUntouched b db =
    (db.payments ≡ b.payments)
    × (db.attempts ≡ b.attempts)
    × (db.customers ≡ b.customers)
    × (db.keys ≡ b.keys)

module _ (env : Env) (worker_id : ℕ) (b : Db) where
  cancel-IsUntouched : (job_id : ℕ) → Keeps (IsUntouched b) (cancel_job env job_id)
  unfolding cancel_job
  cancel-IsUntouched job_id =
      search (keeps_rules, Keeps-set_job_status, Keeps-create_audit_event) depth 9

  load-IsUntouched : (case_id : ℕ) → Keeps (IsUntouched b) (load_case case_id)
  unfolding load_case
  load-IsUntouched case_id = search keeps_rules depth 9

  leased-IsUntouched : (job_id : ℕ) → Keeps (IsUntouched b) (load_leased worker_id job_id)
  unfolding load_leased
  leased-IsUntouched job_id = search keeps_rules depth 9

-- A transaction that keeps what it has found when it began.
begun-Holds :
    {A : Type 0} (meanwhile : Db → Db) (m : Action A) (w : World)
    → Keeps (IsUntouched (meanwhile w.saved)) m
    → Holds
        (IsUntouched (meanwhile w.saved))
        (rollback_on_error (begin_after meanwhile >>= λ _. m) w).1
unfolding ◌>>=◌ begin_after catch
begun-Holds meanwhile m w k =
    let all : Keeps (IsUntouched (meanwhile w.saved)) (rollback_on_error m) =
      Keeps-catch m _ k (λ e. search keeps_rules) in
    all.at (begin_after meanwhile w).1
      (record { saved = (refl, refl, refl, refl); db = (refl, refl, refl, refl) })

module _ (env : Env) (worker_id : ℕ) (others : Db → Db) (b : Db) where
  act-IsUntouched :
      (a : ActionType) (case : RecoveryCase) (job : RecoveryJob)
      → Keeps (IsUntouched b) (act_on env worker_id others a case job)
  unfolding act_on
  act-IsUntouched ActionType.charge case job = search (Keeps-new_job, Keeps-add_job)
  act-IsUntouched ActionType.abort case job = search Keeps-set_case_status
  act-IsUntouched ActionType.delay case job = search (Keeps-new_job, Keeps-add_job)

  record-IsUntouched :
      (job : RecoveryJob) (case : RecoveryCase) (d : Decision)
      → Keeps (IsUntouched b) (record_decision env worker_id others job case d)
  unfolding record_decision
  record-IsUntouched job case d =
      search
        (
          keeps_rules, Keeps-add_decision, Keeps-create_audit_event, Keeps-set_job_status,
          act-IsUntouched,
        )
        depth 12

-- Whatever the provider has decided, or however it has failed, and whatever the tables hold, the
-- final transactions of an evaluation leave the payments, the attempts to charge, the customers and
-- the idempotency records as they find them, in the
-- working copy and the committed tables.
pub finalize_evaluate-IsUntouched :
    (env : Env) (worker_id : ℕ) (meanwhile : Db → Db) (job_id : ℕ) (d : Decision) (m : String)
    (w : World)
    → Holds
        (IsUntouched (meanwhile w.saved))
        (finalize_evaluate_decision env worker_id meanwhile job_id d w).1
      × Holds
          (IsUntouched (meanwhile w.saved))
          (finalize_evaluate_error env worker_id meanwhile job_id m w).1
unfolding finalize_evaluate_decision finalize_evaluate_error
finalize_evaluate-IsUntouched env worker_id meanwhile job_id d m w = (
  begun-Holds meanwhile _ w (
      search
        (
          keeps_rules,
          leased-IsUntouched env worker_id (meanwhile w.saved),
          load-IsUntouched env worker_id (meanwhile w.saved),
          cancel-IsUntouched env worker_id (meanwhile w.saved),
          record-IsUntouched env worker_id meanwhile (meanwhile w.saved),
        )
        depth 12),
  begun-Holds meanwhile _ w (
      search
        (
          keeps_rules,
          leased-IsUntouched env worker_id (meanwhile w.saved),
          Keeps-change_job,
          Keeps-new_job,
          Keeps-add_job,
          Keeps-set_case_status,
          Keeps-create_audit_event,
        )
        depth 12),
)
