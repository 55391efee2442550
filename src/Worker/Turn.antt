-- ===== src/Worker/Turn.antt =====
-- A turn of a worker that claims a charge and carries it through.
use razor_pay.Prelude.{
  String, ℕ, ◌+◌, ◌≡◌, refl, Bool, true, false, Option, none, some, arith, exists, first, select,
  change, first-change,
}
use razor_pay.Errors.{Result, ok}
use razor_pay.Models.{Payment, RecoveryCase, RecoveryJob, JobType, Db}
use razor_pay.Gateway.{lookup, get_or}
use razor_pay.Session.{Env, World, catch, ◌>>=◌, ◌>>◌}
use razor_pay.Tables.{is_numbered, job_has_id, change_job}
use razor_pay.Claims.{claimed, is_claimable, claim_found, claim_job}
use razor_pay.Contracts.{DecisionContext, Decision}
use razor_pay.Audit.{adopt_correlation}
use razor_pay.Worker.Next.{run_job, run_claimed, process_next_job}
use razor_pay.Worker.Execute.{idem_key_of, process_execute_charge}
use razor_pay.Worker.Attempt.{Begins, settled}
use razor_pay.Worker.Charged.{begun, receipt_of, process_execute_charge-recovers}

module _ (env : Env) (worker_id : ℕ) (j : RecoveryJob) where
  -- The tables in which the worker holds the job.
  abbrev pub leased : Db → Db
  leased db = record db { jobs = change (job_has_id j.id) (claimed env worker_id) db.jobs }

  -- A session on the committed tables.
  abbrev pub fresh : World → World
  fresh w = record w { db = w.saved; refused = none }

  abbrev after_claim : World → World
  after_claim w = record w { db = leased w.db }

  claims :
      (w : World)
      → w.refused ≡ none
      → env.pick (select (is_claimable env) w.db.jobs) ≡ some j
      → claim_job env worker_id w ≡ (ok (some (claimed env worker_id j)), after_claim w)
  unfolding claim_job claim_found change_job ◌>>=◌
  claims w clean picked = rw picked (ground arith)

  -- The end of a turn on the tables `db`, whose job, attempt and case are settled, and whose payment
  -- is charged under the key of the attempt; `n` is the number of ids drawn before it.
  abbrev pub IsCarried : RecoveryCase → Payment → Db → ℕ → Result Bool × World → Type 0
  IsCarried case p db n (r, w') =
      let id = env.uuid4 n in
      let tables = begun env worker_id (claimed env worker_id j) case p id (leased db) in
      (r ≡ ok true)
      × (w'.saved ≡ record (settled j.id id p.id case.id tables) { audits = w'.saved.audits })
      × (lookup (idem_key_of p.external_id (j.attempt_count + 1)) w'.gateway.receipts
          ≡ some (receipt_of (env.uuid4 (n + 1))))

  -- A job that can be charged now: what its attempt needs, and a gateway that is ready.
  pub record IsReady (case : RecoveryCase) (p : Payment) (w : World) : Type 0 where
    pub found : first (job_has_id j.id) w.db.jobs ≡ some j
    pub begins : Begins env j case p w
    pub free : exists (is_numbered case.id (j.attempt_count + 1)) w.db.attempts ≡ false
    pub unknown : lookup (idem_key_of p.external_id (j.attempt_count + 1)) w.gateway.receipts ≡ none
    pub willing :
        get_or
          (lookup (idem_key_of p.external_id (j.attempt_count + 1)) w.gateway.behaviors)
          "success"
        ≡ "success"

  module _ (decide : DecisionContext → Result Decision) (case : RecoveryCase) (p : Payment)
      (w : World) (h : IsReady case p w) where
    charges :
        (cid : String)
        → IsCarried case p w.db w.drawn (
            process_execute_charge env worker_id
              (λ db. db)
              (claimed env worker_id j)
              (record (after_claim w) { correlation = cid }))
    charges cid =
        process_execute_charge-recovers env worker_id (claimed env worker_id j) case p
          (record (after_claim w) { correlation = cid })
          (record {
            clean = h.begins.clean;
            case_found = h.begins.case_found;
            payment_found = h.begins.payment_found;
            unpaid = h.begins.unpaid;
            no_attempt = h.begins.no_attempt;
            fresh = h.begins.fresh;
          })
          h.free
          (first-change (job_has_id j.id) (claimed env worker_id) w.db.jobs j (λ x. refl) h.found)
          (ground arith) h.unknown h.willing

    -- The rest of a turn, from the correlation id of the job.
    carried :
        (cid : Option String) (t : JobType)
        → t ≡ JobType.execute_charge
        → IsCarried case p w.db w.drawn (
            (adopt_correlation cid
                >> run_job env worker_id (λ db. db) decide t (claimed env worker_id j))
              (after_claim w))
    unfolding run_job ◌>>=◌
    carried none t e = rw e (charges w.correlation)
    carried (some cid) t e = rw e (charges cid)

  -- If the job that is picked is a charge that is ready, one turn of a worker carries it through,
  -- whatever the provider would answer: it reports that it has done a job, the gateway holds the
  -- receipt of a charge under the key of the next attempt, and the payment and the attempt are
  -- committed as succeeded, the case as recovered and the job as done. No other process commits
  -- during the turn.
  pub process_next_job-recovers :
      (decide : DecisionContext → Result Decision) (case : RecoveryCase) (p : Payment) (w : World)
      → env.pick (select (is_claimable env) w.saved.jobs) ≡ some j
      → j.job_type ≡ JobType.execute_charge
      → IsReady case p (fresh w)
      → IsCarried case p w.saved w.drawn (process_next_job env worker_id (λ db. db) decide w)
  unfolding process_next_job run_claimed catch ◌>>=◌
  process_next_job-recovers decide case p w picked charge h =
      let done =
        carried decide case p (fresh w) h (lookup "correlation_id" j.payload) j.job_type charge in
      rw (claims (fresh w) h.begins.clean picked, done.0) (refl, done.1, done.2)
