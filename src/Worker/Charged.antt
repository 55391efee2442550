-- ===== src/Worker/Charged.antt =====
-- The turn of a worker whose charge goes through.
use text.Mathlib.TextEquality.{eq_iff}
use razor_pay.Prelude.{
  ℕ, ◌+◌, ◌≡◌, refl, true, false, none, some, [], ◌∷◌, ◌++◌, arith, exists, first, change,
  first-change, first-append, first-fits,
}
use razor_pay.Errors.{ok}
use razor_pay.States.{is_succeeded, is_unresolved}
use razor_pay.Models.{Payment, RecoveryCase, RecoveryAttempt, RecoveryJob, Db}
use razor_pay.Gateway.Charges.{lookup-insert}
use razor_pay.Gateway.{
  verify_payment_status, ChargeStatus, Receipt, lookup, insert, get_or, charge, charge_new,
}
use razor_pay.Claims.{is_locked_by}
use razor_pay.Session.{Env, World, catch, write, ◌>>=◌}
use razor_pay.Tables.{case_has_id, attempt_has_id, job_has_id, is_numbered, add_attempt, change_job}
use razor_pay.Worker.Lease.{load_case}
use razor_pay.Worker.Execute.{
  Charge, plan, idem_key_of, query_begun, ensure_attempt, begin_charge, call_gateway,
  charge_and_settle, resolve, execute_with, process_execute_charge,
}
use razor_pay.Worker.Attempt.{
  Returns, Begins, new_attempt, with_attempt, settled, finalize_job-recovers,
}

abbrev pub receipt_of : ℕ → Receipt
receipt_of id = record { status = ChargeStatus.succeeded; transaction_id = some id }

module _ (env : Env) (worker_id : ℕ) (job : RecoveryJob) (case : RecoveryCase) (p : Payment) where
  -- The tables with the attempt that the job begins.
  abbrev pub begun : ℕ → Db → Db
  begun id db = record db {
    attempts = db.attempts ++ new_attempt id case.id (job.attempt_count + 1) ∷ [];
    jobs = change (job_has_id job.id) (with_attempt id (job.attempt_count + 1)) db.jobs;
  }

  pub begins :
      (w : World)
      → Begins env job case p w
      → exists (is_numbered case.id (job.attempt_count + 1)) w.db.attempts ≡ false
      → let id = env.uuid4 w.drawn in
        begin_charge env job w ≡ (
          ok (some (plan env p (new_attempt id case.id (job.attempt_count + 1)))),
          record w { drawn = w.drawn + 1; saved = begun id w.db; db = begun id w.db },
        )
  unfolding begin_charge load_case query_begun ensure_attempt add_attempt change_job write ◌>>=◌
  begins w h free =
      let a = h.clean in
      let b = h.case_found in
      let c = h.payment_found in
      let d = h.unpaid in let e = h.no_attempt in let f = h.fresh in ground arith

  -- A charge under a new key that the gateway carries out.
  goes_through :
      (c : Charge) (w : World)
      → lookup c.idem_key w.gateway.receipts ≡ none
      → get_or (lookup c.idem_key w.gateway.behaviors) "success" ≡ "success"
      → call_gateway env worker_id (λ db. db) c w ≡ (
        ok (receipt_of (env.uuid4 w.drawn)),
        record w {
          drawn = w.drawn + 1;
          gateway = record w.gateway {
            receipts = insert c.idem_key (receipt_of (env.uuid4 w.drawn)) w.gateway.receipts;
          };
        },
      )
  unfolding call_gateway charge charge_new ◌>>=◌ lookup insert
  goes_through c w new ready = rw (new, ready) refl

  -- What the worker finds when it comes back.
  pub returns :
      (w : World) (id : ℕ)
      → Begins env job case p w
      → exists (attempt_has_id id) w.db.attempts ≡ false
      → first (job_has_id job.id) w.db.jobs ≡ some job
      → is_locked_by job.locked_by worker_id ≡ true
      → Returns worker_id
          (begun id w.db)
          (with_attempt id (job.attempt_count + 1) job)
          (new_attempt id case.id (job.attempt_count + 1))
          case
          p
  returns w id h fresh found lease =
      let c = h.case_found in
      let here : case.id ≡ job.recovery_case_id =
        (let fits = first-fits (case_has_id job.recovery_case_id) w.db.cases case c in
          ground arith) in
      record {
        job_found =
            first-change (job_has_id job.id) (with_attempt id (job.attempt_count + 1)) w.db.jobs job
              (λ y. refl) found;
        leased = lease;
        attempt_found =
            first-append (attempt_has_id id) w.db.attempts
              (new_attempt id case.id (job.attempt_count + 1)) fresh (ground arith);
        case_found = cc (here, c);
        payment_found = h.payment_found;
      }

  -- A job without an attempt, leased to the worker, for a payment that has not succeeded, is carried
  -- through in one turn if the gateway has not seen its key and is ready to charge: an attempt is
  -- begun under the next number, the gateway is charged once and holds the receipt under the key of
  -- that attempt, and the payment and the attempt are committed as succeeded, the case as recovered
  -- and the job as done. The number and the id of the attempt are new, and no write has been refused
  -- before.
  pub process_execute_charge-recovers :
      (w : World)
      → Begins env job case p w
      → exists (is_numbered case.id (job.attempt_count + 1)) w.db.attempts ≡ false
      → first (job_has_id job.id) w.db.jobs ≡ some job
      → is_locked_by job.locked_by worker_id ≡ true
      → let key = idem_key_of p.external_id (job.attempt_count + 1) in
        lookup key w.gateway.receipts ≡ none
        → get_or (lookup key w.gateway.behaviors) "success" ≡ "success"
        → let (r, w') = process_execute_charge env worker_id (λ db. db) job w in
          let id = env.uuid4 w.drawn in
          (r ≡ ok true)
          × (w'.saved ≡ record (settled job.id id p.id case.id (begun id w.db)) {
            audits = w'.saved.audits;
          })
          × (lookup key w'.gateway.receipts ≡ some (receipt_of (env.uuid4 (w.drawn + 1))))
  unfolding process_execute_charge execute_with resolve charge_and_settle verify_payment_status
      catch ◌>>=◌
  process_execute_charge-recovers w h free found lease new ready =
      let id = env.uuid4 w.drawn in
      let c = plan env p (new_attempt id case.id (job.attempt_count + 1)) in
      let v : World = record w { drawn = w.drawn + 1; saved = begun id w.db; db = begun id w.db } in
      let fresh = h.fresh in
      let charged = goes_through c v new ready in
      let u : World = record v {
        drawn = v.drawn + 1;
        gateway = record w.gateway {
          receipts = insert c.idem_key (receipt_of (env.uuid4 v.drawn)) w.gateway.receipts;
        };
      } in
      let done =
        finalize_job-recovers env worker_id (λ db. db) (with_attempt id (job.attempt_count + 1) job)
          (new_attempt id case.id (job.attempt_count + 1)) case p u
          (returns w id h fresh found lease) in
      let kept =
        lookup-insert c.idem_key c.idem_key (receipt_of (env.uuid4 v.drawn)) w.gateway.receipts in
      rw (begins w h free, new, charged) (ground (arith, eq_iff c.idem_key c.idem_key))

  -- A turn in which the worker finds that an earlier one has charged: the job of an attempt without a
  -- known outcome, which was left when a worker stopped or the gateway did not answer, is carried
  -- through without another charge if the gateway holds a receipt under the key of the attempt that
  -- says the charge went through: the payment and the attempt are committed as succeeded, the case as
  -- recovered and the job as done, and the gateway is as it was.
  pub process_execute_charge-resumes :
      (w : World) (a : RecoveryAttempt) (receipt : Receipt)
      → w.refused ≡ none
      → job.recovery_case_id ≡ a.recovery_case_id
      → is_succeeded p.status ≡ false
      → job.attempt_id ≡ some a.id
      → is_unresolved a.status ≡ true
      → Returns worker_id w.db job a case p
      → lookup (idem_key_of p.external_id a.attempt_number) w.gateway.receipts ≡ some receipt
      → receipt.status ≡ ChargeStatus.succeeded
      → let (r, w') = process_execute_charge env worker_id (λ db. db) job w in
        (r ≡ ok true)
        × (w'.saved ≡ record (settled job.id a.id p.id case.id w.db) { audits = w'.saved.audits })
        × (w'.gateway ≡ w.gateway)
  unfolding process_execute_charge execute_with resolve verify_payment_status begin_charge load_case
      query_begun ensure_attempt catch ◌>>=◌
  process_execute_charge-resumes w a receipt clean same unpaid noted unresolved h known went =
      let case_found = h.case_found in
      let payment_found = h.payment_found in
      let there = h.attempt_found in
      let v : World = record w { saved = w.db } in
      let done = finalize_job-recovers env worker_id (λ db. db) job a case p v h in ground arith
