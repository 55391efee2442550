-- ===== src/Worker/Timeout.antt =====
-- A charge whose outcome the gateway does not tell.
use razor_pay.Prelude.{ℕ, ◌+◌, ◌≡◌, refl, true, false, none, some, arith, exists, first, change}
use razor_pay.Errors.{Result, ok, err, gateway_timeout}
use razor_pay.States.{AttemptState, JobState}
use razor_pay.Models.{Payment, RecoveryCase, RecoveryAttempt, RecoveryJob, Db}
use razor_pay.Gateway.{Receipt, Gateway, lookup, charge, verify_payment_status}
use razor_pay.Session.{Env, World, catch, ◌>>=◌}
use razor_pay.Tables.{
  attempt_has_id, job_has_id, is_numbered, change_job, set_job_status, set_attempt_status,
}
use razor_pay.Claims.{is_locked_by}
use razor_pay.Worker.Lease.{load_leased}
use razor_pay.Worker.Execute.{
  plan, idem_key_of, call_gateway, charge_and_settle, resolve, execute_with, on_charge_error,
  process_execute_charge, finalize_ambiguous,
}
use razor_pay.Worker.Attempt.{Begins, Returns, new_attempt, with_attempt}
use razor_pay.Worker.Charged.{begun, begins, returns}

-- The tables when the outcome of a charge is not known.
abbrev pub undecided : ℕ → ℕ → Db → Db
undecided job_id attempt_id db = record db {
  jobs =
      change (job_has_id job_id) (λ (j : RecoveryJob). record j { status = JobState.pending })
        db.jobs;
  attempts =
      change (attempt_has_id attempt_id)
        (λ (x : RecoveryAttempt). record x { status = AttemptState.ambiguous }) db.attempts;
}

ambiguous :
    (env : Env) (worker_id : ℕ) (job : RecoveryJob) (a : RecoveryAttempt) (case : RecoveryCase)
    (p : Payment) (w : World)
    → Returns worker_id w.saved job a case p
    → let (r, w') = finalize_ambiguous env worker_id (λ db. db) job.id a.id w in
      (r ≡ ok tt) × (w'.saved ≡ undecided job.id a.id w.saved) × (w'.gateway ≡ w.gateway)
unfolding finalize_ambiguous load_leased set_job_status set_attempt_status change_job ◌>>=◌
ambiguous env worker_id job a case p w h =
    let e = h.job_found in let l = h.leased in let f = h.attempt_found in ground arith

module _ (env : Env) (worker_id : ℕ) (job : RecoveryJob) (case : RecoveryCase) (p : Payment) where
  -- The call of the gateway in a turn.
  abbrev pub charged : ℕ → World → Result Receipt × Gateway
  charged id w =
      charge id (idem_key_of p.external_id (job.attempt_count + 1)) p.amount p.currency
        p.customer_id w.gateway

  calls :
      (w : World) (id : ℕ)
      → (charged (env.uuid4 w.drawn) w).0 ≡ err gateway_timeout
      → call_gateway env worker_id
          (λ db. db)
          (plan env p (new_attempt id case.id (job.attempt_count + 1)))
          w
        ≡ (
          err gateway_timeout,
          record w { drawn = w.drawn + 1; gateway = (charged (env.uuid4 w.drawn) w).1 },
        )
  unfolding call_gateway ◌>>=◌
  calls w id late = rw late refl

  -- A charge that the gateway does not answer in time, under a key that it has not seen, leaves the
  -- job pending and its attempt as ambiguous, whether the gateway has charged or not; the payment
  -- and the case are as they were, the gateway has been called once, and the turn has done a job. The
  -- job is leased to the worker, the number and the id of the attempt are new, and no write has been
  -- refused before.
  pub process_execute_charge-defers :
      (w : World)
      → Begins env job case p w
      → exists (is_numbered case.id (job.attempt_count + 1)) w.db.attempts ≡ false
      → first (job_has_id job.id) w.db.jobs ≡ some job
      → is_locked_by job.locked_by worker_id ≡ true
      → lookup (idem_key_of p.external_id (job.attempt_count + 1)) w.gateway.receipts ≡ none
      → (charged (env.uuid4 (w.drawn + 1)) w).0 ≡ err gateway_timeout
      → let (r, w') = process_execute_charge env worker_id (λ db. db) job w in
        let id = env.uuid4 w.drawn in
        (r ≡ ok true)
        × (w'.saved ≡ undecided job.id id (begun env worker_id job case p id w.db))
        × (w'.gateway ≡ (charged (env.uuid4 (w.drawn + 1)) w).1)
  unfolding process_execute_charge execute_with resolve charge_and_settle on_charge_error
      verify_payment_status catch ◌>>=◌
  process_execute_charge-defers w h free found lease new late =
      let id = env.uuid4 w.drawn in
      let fresh = h.fresh in
      let v : World = record w {
        drawn = w.drawn + 1;
        saved = begun env worker_id job case p id w.db;
        db = begun env worker_id job case p id w.db;
      } in
      let u : World = record v {
        drawn = v.drawn + 1;
        gateway = (charged (env.uuid4 v.drawn) v).1;
      } in
      let done =
        ambiguous env worker_id (with_attempt id (job.attempt_count + 1) job)
          (new_attempt id case.id (job.attempt_count + 1)) case p u
          (returns env worker_id job case p w id h fresh found lease) in
      rw (begins env worker_id job case p w h free, new, calls v id late) (ground arith)
