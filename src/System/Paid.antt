-- ===== src/System/Paid.antt =====
-- A payment that has succeeded stays so in every history.
use razor_pay.Prelude.{ℕ, Option, none, some, List, [], ◌∷◌}
use razor_pay.Models.{RecoveryJob, JobType}
use razor_pay.Session.{Env, World}
use razor_pay.Session.Keeps.{Holds, Keeps, keeps_rules, Keeps-begin_after, Keeps-bind}
use razor_pay.Tables.Paid.{IsPaid}
use razor_pay.Webhooks.Paid.{process_webhook-Keeps}
use razor_pay.Worker.Paid.{
  claim_job-Keeps, begin_evaluate-Keeps, begin_charge-Keeps, finalize_evaluate_error-Keeps,
  finalize_evaluate_decision-Keeps, finalize_job-Keeps, finalize_ambiguous-Keeps,
}
use razor_pay.Admin.Paid.{stop_recovery_case-Keeps, force_retry_case-Keeps}
use razor_pay.Gateway.{lookup}
use razor_pay.Tables.Rules.{Keeps-adopt_correlation}
use razor_pay.System.{
  Request, webhook, stop_case, retry_case, begin_job, end_evaluation_error, end_evaluation,
  end_charge, end_ambiguous, begin_typed, begin_claimed, begin_next, serve, run,
}

module _ (env : Env) (i : ℕ) where
  begin_claimed-Keeps : (j : Option RecoveryJob) → Keeps (IsPaid i) (begin_claimed env j)
  unfolding begin_claimed begin_typed
  begin_claimed-Keeps none = search keeps_rules
  begin_claimed-Keeps (some j) =
      Keeps-bind _ _ (Keeps-adopt_correlation (lookup "correlation_id" j.payload))
        (λ done. typed j.job_type)
    where
      typed : (t : JobType) → Keeps (IsPaid i) (begin_typed env t j)
      typed JobType.evaluate_recovery = search (keeps_rules, begin_evaluate-Keeps env i)
      typed JobType.execute_charge = search (keeps_rules, begin_charge-Keeps env i)
      typed (JobType.unknown t) = search keeps_rules

  serve-Keeps : (request : Request) → Keeps (IsPaid i) (serve env request)
  unfolding serve begin_next
  serve-Keeps (webhook event) =
      search (keeps_rules, Keeps-begin_after, process_webhook-Keeps env i) depth 8
  serve-Keeps (stop_case id) =
      search (keeps_rules, Keeps-begin_after, stop_recovery_case-Keeps env i) depth 8
  serve-Keeps (retry_case id) =
      search (keeps_rules, Keeps-begin_after, force_retry_case-Keeps env i) depth 8
  serve-Keeps (begin_job worker_id) =
      search (keeps_rules, Keeps-begin_after, claim_job-Keeps env i, begin_claimed-Keeps) depth 8
  serve-Keeps (end_evaluation_error worker_id job_id m) =
      finalize_evaluate_error-Keeps env worker_id (λ db. db) i (λ db h. h) job_id m
  serve-Keeps (end_evaluation worker_id job_id d) =
      finalize_evaluate_decision-Keeps env worker_id (λ db. db) i (λ db h. h) job_id d
  serve-Keeps (end_charge worker_id job_id attempt_id result) =
      finalize_job-Keeps env worker_id (λ db. db) i (λ db h. h) job_id attempt_id result
  serve-Keeps (end_ambiguous worker_id job_id attempt_id) =
      finalize_ambiguous-Keeps env worker_id (λ db. db) i (λ db h. h) job_id attempt_id

-- Once there is a payment with the id `i` and all rows with that id have succeeded, that is so
-- after any requests, in any surroundings, in the working copy and in the committed tables.
pub run-IsPaid :
    (history : List (Env × Request)) (i : ℕ) (w : World)
    → Holds (IsPaid i) w
    → Holds (IsPaid i) (run history w)
unfolding run
run-IsPaid [] i w h = h
run-IsPaid ((env, request) ∷ rest) i w h =
    run-IsPaid rest i (serve env request w).1 ((serve-Keeps env i request).at w h)
