-- ===== src/System/Consistency.antt =====
-- The tables stay consistent in every history.
use razor_pay.Prelude.{ℕ, Option, none, some, List, [], ◌∷◌}
use razor_pay.Models.{RecoveryJob, JobType, Db}
use razor_pay.Session.{Env, World}
use razor_pay.Session.Keeps.{Holds, Keeps, keeps_rules, Keeps-begin_after, Keeps-bind}
use razor_pay.Webhooks.{WebhookEvent, process_webhook}
use razor_pay.Admin.{stop_recovery_case, force_retry_case}
use razor_pay.Claims.{claim_job}
use razor_pay.Webhooks.Consistency.{process_webhook-Runs}
use razor_pay.Admin.Consistency.{stop_recovery_case-Runs, force_retry_case-Runs}
use razor_pay.Consistency.{Consistent}
use razor_pay.Consistency.Runs.{Keeps-Runs}
use razor_pay.Consistency.Worker.{
  claim_job-Runs, begin_evaluate-Runs, begin_charge-Runs, finalize_evaluate_error-Runs,
  finalize_evaluate_decision-Runs, finalize_job-Runs, finalize_ambiguous-Runs,
}
use razor_pay.Gateway.{lookup}
use razor_pay.Tables.Rules.{Keeps-adopt_correlation}
use razor_pay.System.{
  Request, webhook, stop_case, retry_case, begin_job, end_evaluation_error, end_evaluation,
  end_charge, end_ambiguous, begin_typed, begin_claimed, begin_next, serve, run,
}

module _ (env : Env) where
  begin_claimed-Keeps : (j : Option RecoveryJob) → Keeps Consistent (begin_claimed env j)
  unfolding begin_claimed begin_typed
  begin_claimed-Keeps none = search keeps_rules
  begin_claimed-Keeps (some j) =
      Keeps-bind _ _ (Keeps-adopt_correlation (lookup "correlation_id" j.payload))
        (λ done. typed j.job_type)
    where
      typed : (t : JobType) → Keeps Consistent (begin_typed env t j)
      typed JobType.evaluate_recovery =
          let begun = Keeps-Runs _ (begin_evaluate-Runs env j) in search (keeps_rules, begun)
      typed JobType.execute_charge =
          let begun = Keeps-Runs _ (begin_charge-Runs env j) in search (keeps_rules, begun)
      typed (JobType.unknown t) = search keeps_rules

  kept : (db : Db) → Consistent db → Consistent db
  kept db h = h

  claim-Keeps : (worker_id : ℕ) → Keeps Consistent (claim_job env worker_id)
  claim-Keeps worker_id = Keeps-Runs _ (claim_job-Runs env worker_id)

  webhook-Keeps : (event : WebhookEvent) → Keeps Consistent (process_webhook env event)
  webhook-Keeps event = Keeps-Runs _ (process_webhook-Runs env event)

  stop-Keeps : (case_id : ℕ) → Keeps Consistent (stop_recovery_case env case_id)
  stop-Keeps case_id = Keeps-Runs _ (stop_recovery_case-Runs env case_id)

  retry-Keeps : (case_id : ℕ) → Keeps Consistent (force_retry_case env case_id)
  retry-Keeps case_id = Keeps-Runs _ (force_retry_case-Runs env case_id)

  serve-Keeps : (request : Request) → Keeps Consistent (serve env request)
  unfolding serve begin_next
  serve-Keeps (webhook event) = search (keeps_rules, Keeps-begin_after, webhook-Keeps) depth 8
  serve-Keeps (stop_case id) = search (keeps_rules, Keeps-begin_after, stop-Keeps) depth 8
  serve-Keeps (retry_case id) = search (keeps_rules, Keeps-begin_after, retry-Keeps) depth 8
  serve-Keeps (begin_job worker_id) =
      search (keeps_rules, Keeps-begin_after, claim-Keeps, begin_claimed-Keeps) depth 8
  serve-Keeps (end_evaluation_error worker_id job_id m) =
      Keeps-Runs _ (finalize_evaluate_error-Runs env worker_id (λ db. db) kept job_id m)
  serve-Keeps (end_evaluation worker_id job_id d) =
      Keeps-Runs _ (finalize_evaluate_decision-Runs env worker_id (λ db. db) kept job_id d)
  serve-Keeps (end_charge worker_id job_id attempt_id result) =
      Keeps-Runs _ (finalize_job-Runs env worker_id (λ db. db) kept job_id attempt_id result)
  serve-Keeps (end_ambiguous worker_id job_id attempt_id) =
      Keeps-Runs _ (finalize_ambiguous-Runs env worker_id (λ db. db) kept job_id attempt_id)

-- In tables in which every foreign key names a row, no two cases have an id and no payment has two
-- active cases, all of this is so again after any requests, in any surroundings, in the working copy
-- and in the committed tables.
pub run-Consistent :
    (history : List (Env × Request)) (w : World)
    → Holds Consistent w
    → Holds Consistent (run history w)
unfolding run
run-Consistent [] w h = h
run-Consistent ((env, request) ∷ rest) w h =
    run-Consistent rest (serve env request w).1 ((serve-Keeps env request).at w h)
