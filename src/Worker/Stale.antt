-- ===== src/Worker/Stale.antt =====
-- A worker that has lost its lease while it waited for the network.
use razor_pay.Prelude.{ℕ, ◌≡◌, String, Bool, false, Option, none, some, arith, first}
use razor_pay.Errors.{err, stale_worker}
use razor_pay.Models.{RecoveryJob, Db}
use razor_pay.Gateway.{ChargeStatus}
use razor_pay.Contracts.{Decision}
use razor_pay.Session.{Env, World, Action, ◌>>=◌}
use razor_pay.Tables.{job_has_id}
use razor_pay.Claims.{is_locked_by}
use razor_pay.Worker.Lease.{load_leased}
use razor_pay.Worker.Evaluate.{finalize_evaluate_error, finalize_evaluate_decision}
use razor_pay.Worker.Execute.{finalize_job, finalize_ambiguous}

abbrev pub leased : Option RecoveryJob → ℕ → Bool
leased none worker_id = false
leased (some j) worker_id = is_locked_by j.locked_by worker_id

-- The worker holds the lease of the job.
abbrev pub holds_lease : ℕ → ℕ → Db → Bool
holds_lease worker_id job_id db = leased (first (job_has_id job_id) db.jobs) worker_id

-- The handler ends with the error of a stale worker, and leaves the tables as the others left them.
abbrev pub IsRejected : {A : Type 0} → (Db → Db) → Action A → World → Type 0
IsRejected meanwhile m w =
    ((m w).0 ≡ err stale_worker)
    × ((m w).1.saved ≡ meanwhile w.saved)
    × ((m w).1.db ≡ meanwhile w.saved)
    × ((m w).1.gateway ≡ w.gateway)

-- When the job is gone, or another worker has claimed it meanwhile, each of the four final
-- transactions of a worker raises `StaleWorkerError` and changes no table and not the gateway.
pub finalize_stale :
    (env : Env) (worker_id : ℕ) (meanwhile : Db → Db) (job_id : ℕ) (w : World)
    → holds_lease worker_id job_id (meanwhile w.saved) ≡ false
    → (attempt_id : ℕ) (result : ChargeStatus) (d : Decision) (m : String)
    → IsRejected meanwhile (finalize_job env worker_id meanwhile job_id attempt_id result) w
      × IsRejected meanwhile (finalize_ambiguous env worker_id meanwhile job_id attempt_id) w
      × IsRejected meanwhile (finalize_evaluate_decision env worker_id meanwhile job_id d) w
      × IsRejected meanwhile (finalize_evaluate_error env worker_id meanwhile job_id m) w
unfolding finalize_job finalize_ambiguous finalize_evaluate_decision finalize_evaluate_error
    load_leased ◌>>=◌
finalize_stale env worker_id meanwhile job_id w lost attempt_id result d m = ground arith
