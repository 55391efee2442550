-- ===== src/Tests.antt =====
-- The properties of the services at concrete inputs.
mod Edges
mod Charges
mod Histories
mod Turns
mod Reports
mod Schemas
use text.Mathlib.Text.{◌==◌ as str_eq}
use razor_pay.Prelude.{
  length, ℕ, ◌+◌, ◌≡◌, refl, ◌≢◌, ◌↔◌, inl, pos, negsuc, String, Bool, true, false, Option, none,
  some, List, [], ◌∷◌, ◌++◌, arith, exists, first, change, Among, All, is_empty, select,
}
use razor_pay.Errors.{
  Error, Result, ok, err, http, immutable_attribute, ai_decision, gateway_timeout,
}
use razor_pay.States.{PaymentState, RecoveryState, JobState}
use razor_pay.Json.{Json, Items, Fields}
use razor_pay.Models.{Customer, Payment, RecoveryCase, RecoveryJob, JobType, IdempotencyRecord, Db}
use razor_pay.Gateway.{ChargeStatus, Receipt, Gateway, lookup, charge, verify_payment_status}
use razor_pay.Gateway.Charges.{charge-keeps_receipt, charge_again, verify-timeout}
use razor_pay.Session.{Env, World}
use razor_pay.Session.Keeps.{Holds, Keeps}
use razor_pay.Tables.{is_too_large, is_pending_of, case_has_id, job_has_id, pending_job, minutes}
use razor_pay.Tables.Cancel.{without_pending}
use razor_pay.Tables.Paid.{IsPaid}
use razor_pay.Contracts.{Decision, ActionType, DecisionContext}
use razor_pay.Webhooks.{WebhookEvent, is_supported, is_mismatch, process_webhook}
use razor_pay.Webhooks.Replay.{process_webhook-seen}
use razor_pay.Webhooks.Atomic.{process_webhook-IsAtomic}
use razor_pay.Webhooks.Effect.{key_of, process_webhook-terminal, process_webhook-mismatch}
use razor_pay.Webhooks.Paid.{process_webhook-Keeps}
use razor_pay.Claims.{claimed, is_claimable, claim_job}
use razor_pay.Claims.Lease.{
  IsPick, claim_job-claimable, validated-lease, available_at-ignored, is_claimable-claimed,
}
use razor_pay.Worker.Next.{process_next_job}
use razor_pay.Worker.Loop.{Turn, main, main-IsPaid}
use razor_pay.Worker.Authority.{IsUntouched, finalize_evaluate-IsUntouched}
use razor_pay.Webhooks.Failure.{opened_case, with_failed, process_webhook-opens_case}
use razor_pay.Worker.Stale.{IsRejected, finalize_stale}
use razor_pay.Worker.Retry.{finalize_evaluate_error-recounts}
use razor_pay.Worker.Evaluate.{finalize_evaluate_error, finalize_evaluate_decision}
use razor_pay.Worker.Execute.{finalize_job, finalize_ambiguous}
use razor_pay.Admin.{stop_recovery_case, force_retry_case}
use razor_pay.Admin.Outcome.{
  with_status, refused_tables, stop_recovery_case-stops, stop_recovery_case-refuses,
  force_retry_case-requeues, force_retry_case-refuses,
}
use razor_pay.System.{Request, webhook, begin_job, run}
use razor_pay.System.Paid.{run-IsPaid}
use razor_pay.Samples.{
  customer, paid, unpaid, open_case, stopped_case, job, key, db, no_charges, world, pick_first, env,
  event, seen_event, other_amount, history,
}

IsPaid-Holds : Holds (IsPaid 1) world
unfolding exists
IsPaid-Holds = record { saved = ground arith; db = ground arith }

run-IsPaid_example : Holds (IsPaid 1) (run history world)
run-IsPaid_example = run-IsPaid history 1 world IsPaid-Holds

process_webhook-seen_example :
    let (r, w') = process_webhook env seen_event world in
    (r ≡ ok true) × (w'.saved ≡ record db { audits = w'.saved.audits })
unfolding exists is_supported
process_webhook-seen_example =
    process_webhook-seen env seen_event world (refl, refl) (refl, refl) refl

process_webhook-IsAtomic_example : (process_webhook env other_amount world).1.saved ≡ db
unfolding first exists is_supported is_mismatch
process_webhook-IsAtomic_example =
    process_webhook-IsAtomic env other_amount world immutable_attribute
      (process_webhook-mismatch env other_amount world paid (refl, refl) (refl, refl) refl refl
        refl).0

process_webhook-terminal_example :
    let (r, w') = process_webhook env event world in
    (r ≡ ok true)
    × (w'.saved ≡ record db { keys = db.keys ++ key_of event ∷ []; audits = w'.saved.audits })
unfolding first exists is_supported is_mismatch
process_webhook-terminal_example =
    process_webhook-terminal env event world paid (refl, refl) (refl, refl) refl refl refl refl

process_webhook-mismatch_example :
    ((process_webhook env other_amount world).0 ≡ err immutable_attribute)
    × ((process_webhook env other_amount world).1.saved ≡ db)
    × ((process_webhook env other_amount world).1.db ≡ db)
unfolding first exists is_supported is_mismatch
process_webhook-mismatch_example =
    process_webhook-mismatch env other_amount world paid (refl, refl) (refl, refl) refl refl refl

-- The provider asks for a charge.
abbrev answer : Decision
answer = record { action = ActionType.charge; reason = "retry"; confidence = 9000 }

-- A turn of worker 5 in which the provider wants a charge, and one in which it does not answer.
abbrev turns : List Turn
turns =
    record { env = env; meanwhile = λ t. t; decide = λ c. ok answer }
    ∷ record { env = env; meanwhile = λ t. t; decide = λ c. err (ai_decision "no answer") }
    ∷ []

main-IsPaid_example : (length (main 5 turns world).0 ≡ 2) × Holds (IsPaid 1) (main 5 turns world).1
main-IsPaid_example = main-IsPaid 5 1 turns world ((λ t h. h), ((λ t h. h), tt)) IsPaid-Holds

-- Worker 5 looks for a job that worker 6 has claimed since.
abbrev taken : Db → Db
taken t = record t { jobs = claimed env 6 job ∷ [] }

finalize_stale_example :
    IsRejected taken (finalize_job env 5 taken 30 9 ChargeStatus.succeeded) world
    × IsRejected taken (finalize_ambiguous env 5 taken 30 9) world
    × IsRejected taken (finalize_evaluate_decision env 5 taken 30 answer) world
    × IsRejected taken (finalize_evaluate_error env 5 taken 30 "late") world
unfolding first
finalize_stale_example =
    finalize_stale env 5 taken 30 world refl 9 ChargeStatus.succeeded answer "late"

-- Worker 5 holds the lease.
abbrev mine : Db → Db
mine t = record t { jobs = claimed env 5 job ∷ [] }

finalize_evaluate_error-recounts_example :
    let (r, w') = finalize_evaluate_error env 5 mine 30 "no answer" world in
    (r ≡ ok tt)
    × (w'.saved.jobs
        ≡ change
            (job_has_id 30)
            (λ (j : RecoveryJob). record j {
              status = JobState.failed;
              last_error = some "no answer";
            })
            (claimed env 5 job ∷ [])
          ++ pending_job env 100 20 JobType.evaluate_recovery (env.now + minutes 15) 3 0 "cid" ∷ [])
    × (w'.saved.cases ≡ db.cases)
unfolding first exists
finalize_evaluate_error-recounts_example =
    finalize_evaluate_error-recounts env 5 mine "no answer" world (claimed env 5 job) open_case refl
      refl refl (omega arith) refl refl

stop_recovery_case-stops_example :
    let (r, w') = stop_recovery_case env 20 world in
    (r ≡ ok (with_status RecoveryState.stopped open_case))
    × (w'.saved ≡ record db {
      cases = change (case_has_id 20) (with_status RecoveryState.stopped) db.cases;
      jobs = without_pending 20 db.jobs;
      audits = w'.saved.audits;
    })
    × (exists (is_pending_of 20) w'.saved.jobs ≡ false)
unfolding first
stop_recovery_case-stops_example =
    stop_recovery_case-stops env world open_case (refl, refl) refl refl refl

stop_recovery_case-refuses_example :
    let (r, w') = stop_recovery_case env 21 world in
    (r ≡ err (http 400)) × (w'.saved ≡ refused_tables 400 db 21 w'.saved.audits)
unfolding first
stop_recovery_case-refuses_example = stop_recovery_case-refuses env world 21 400 (refl, refl) refl

abbrev idle_world : World
idle_world = record world { saved = record db { jobs = [] }; db = record db { jobs = [] } }

force_retry_case-requeues_example :
    let (r, w') = force_retry_case env 20 idle_world in
    (r ≡ ok (with_status RecoveryState.opened open_case))
    × (w'.saved ≡ record db {
      cases = change (case_has_id 20) (with_status RecoveryState.opened) db.cases;
      jobs = pending_job env 100 20 JobType.evaluate_recovery env.now 3 0 "cid" ∷ [];
      audits = w'.saved.audits;
    })
unfolding first exists
force_retry_case-requeues_example =
    force_retry_case-requeues env idle_world open_case (refl, refl) refl refl refl refl refl refl
      refl

force_retry_case-refuses_example :
    let (r, w') = force_retry_case env 20 world in
    (r ≡ err (http 409)) × (w'.saved ≡ refused_tables 409 db 20 w'.saved.audits)
unfolding first exists
force_retry_case-refuses_example = force_retry_case-refuses env world 20 409 (refl, refl) refl

-- A failure of a payment without an active case.
abbrev failed_event : WebhookEvent
failed_event = record event { payment_id = "pay_2"; failure_reason = some "card_declined" }

abbrev caseless : World
caseless = record world { saved = record db { cases = [] }; db = record db { cases = [] } }

process_webhook-opens_case_example :
    let (r, w') = process_webhook env failed_event caseless in
    (r ≡ ok true)
    × (w'.saved ≡ record db {
      payments = with_failed 2 db.payments;
      cases = opened_case env failed_event 2 100 ∷ [];
      jobs =
          db.jobs
          ++ pending_job env 101 100 JobType.evaluate_recovery (env.now + minutes 5) 3 0 "cid" ∷ [];
      keys = db.keys ++ key_of failed_event ∷ [];
      audits = w'.saved.audits;
    })
unfolding first exists is_supported is_mismatch is_too_large
process_webhook-opens_case_example =
    process_webhook-opens_case env failed_event caseless unpaid "card_declined" (refl, refl)
      (refl, refl) refl refl refl (refl, refl) refl refl refl refl (refl, refl) refl

finalize_evaluate-IsUntouched_example :
    Holds (IsUntouched (mine db)) (finalize_evaluate_decision env 5 mine 30 answer world).1
    × Holds (IsUntouched (mine db)) (finalize_evaluate_error env 5 mine 30 "no answer" world).1
finalize_evaluate-IsUntouched_example =
    finalize_evaluate-IsUntouched env 5 mine 30 answer "no answer" world
