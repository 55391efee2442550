-- ===== src/Tests/Turns.antt =====
-- Turns of a worker, the failure of a charge and the success of a payment at concrete inputs.
use text.Mathlib.Text.{◌==◌ as str_eq}
use razor_pay.Floats.{Float, seconds, fge}
use razor_pay.Settings.{
  Settings, load_settings, env_float, validate_timeouts, load_admin_key, load_settings-IsSound,
  IsBelow, ◌>>=◌,
}
use razor_pay.Prelude.{
  ◌-ℤ◌, String, Option, if◌then◌else◌, ◌≡◌, refl, true, false, none, some, [], ◌∷◌, ◌++◌, exists,
  first, select, All,
}
use razor_pay.Prelude.Drain.{drain}
use razor_pay.Prelude.Decimal.{decimal}
use razor_pay.Errors.{Result, ok, err, ai_decision}
use razor_pay.Models.{RecoveryCase, RecoveryJob, JobType, Db}
use razor_pay.Gateway.{ChargeStatus, lookup, charge, charge_new}
use razor_pay.Session.{World}
use razor_pay.Contracts.{ActionType, Decision, DecisionContext}
use razor_pay.Tables.{is_pending_of}
use razor_pay.Claims.{claimed, is_claimable}
use razor_pay.Webhooks.{WebhookEvent, process_webhook, is_supported, is_mismatch, is_active_of}
use razor_pay.Webhooks.Effect.{key_of}
use razor_pay.Webhooks.Success.{
  recovered, case_key, with_succeeded, without_jobs, process_webhook-closes_cases,
}
use razor_pay.Worker.Next.{process_next_job}
use razor_pay.Worker.Execute.{idem_key_of, process_execute_charge, finalize_job}
use razor_pay.Worker.Attempt.{Returns, new_attempt, with_attempt, settled}
use razor_pay.Worker.Settle.{done, failed_tables, finalize_job-settles}
use razor_pay.Worker.Evaluate.{finalize_evaluate_decision}
use razor_pay.Worker.Decide.{decision_row, next_jobs, finalize_evaluate_decision-acts}
use razor_pay.Worker.Charged.{begun, receipt_of, process_execute_charge-resumes}
use razor_pay.Worker.Timeout.{undecided, charged, process_execute_charge-defers}
use razor_pay.Worker.Turn.{IsCarried, IsReady, process_next_job-recovers}
use razor_pay.Samples.{env, event, world, db, job, open_case, unpaid, pick_first}

-- A charge of the case that nobody has begun.
abbrev charge_job : RecoveryJob
charge_job = record job { job_type = JobType.execute_charge }

abbrev charge_db : Db
charge_db = record db { jobs = charge_job ∷ [] }

abbrev charge_world : World
charge_world = record world { saved = charge_db; db = charge_db }

abbrev silent : DecisionContext → Result Decision
silent c = err (ai_decision "no answer")

ready : IsReady env 5 charge_job open_case unpaid charge_world
unfolding first exists lookup idem_key_of decimal
ready = record {
  found = refl;
  begins = record {
    clean = refl;
    case_found = refl;
    payment_found = refl;
    unpaid = refl;
    no_attempt = refl;
    fresh = refl;
  };
  free = refl;
  unknown = refl;
  willing = refl;
}

process_next_job-recovers_example :
    IsCarried env 5 charge_job open_case unpaid charge_db 0
      (process_next_job env 5 (λ t. t) silent charge_world)
unfolding select first is_claimable pick_first
process_next_job-recovers_example =
    process_next_job-recovers env 5 charge_job silent open_case unpaid charge_world refl refl ready

abbrev held_charge : RecoveryJob
held_charge = claimed env 5 charge_job

abbrev held_charge_db : Db
held_charge_db = record db { jobs = held_charge ∷ [] }

-- The gateway charges the first attempt of the payment and does not answer.
abbrev slow_world : World
slow_world = record charge_world {
  saved = held_charge_db;
  db = held_charge_db;
  gateway = record { receipts = []; behaviors = ("pay_2_attempt_1", "timeout_success") ∷ [] };
}

process_execute_charge-defers_example :
    let (r, w') = process_execute_charge env 5 (λ t. t) held_charge slow_world in
    (r ≡ ok true)
    × (w'.saved ≡ undecided 30 100 (begun env 5 held_charge open_case unpaid 100 held_charge_db))
    × (w'.gateway ≡ (charged env 5 held_charge open_case unpaid 101 slow_world).1)
unfolding first exists lookup charge charge_new idem_key_of decimal
process_execute_charge-defers_example =
    process_execute_charge-defers env 5 held_charge open_case unpaid slow_world
      (record {
        clean = refl;
        case_found = refl;
        payment_found = refl;
        unpaid = refl;
        no_attempt = refl;
        fresh = refl;
      })
      refl refl refl refl refl

-- The worker that began the attempt 9 has stopped after the gateway had charged, and worker 5 holds
-- its job.
abbrev left_job : RecoveryJob
left_job = with_attempt 9 1 (claimed env 5 charge_job)

abbrev left_db : Db
left_db = record db { attempts = new_attempt 9 20 1 ∷ []; jobs = left_job ∷ [] }

abbrev left_world : World
left_world = record world {
  saved = left_db;
  db = left_db;
  gateway = record { receipts = ("pay_2_attempt_1", receipt_of 77) ∷ []; behaviors = [] };
}

left_rows : Returns 5 left_db left_job (new_attempt 9 20 1) open_case unpaid
unfolding first
left_rows = record {
  job_found = refl;
  leased = refl;
  attempt_found = refl;
  case_found = refl;
  payment_found = refl;
}

process_execute_charge-resumes_example :
    let (r, w') = process_execute_charge env 5 (λ t. t) left_job left_world in
    (r ≡ ok true)
    × (w'.saved ≡ record (settled 30 9 2 20 left_db) { audits = w'.saved.audits })
    × (w'.gateway ≡ left_world.gateway)
unfolding lookup idem_key_of decimal
process_execute_charge-resumes_example =
    process_execute_charge-resumes env 5 left_job open_case unpaid left_world (new_attempt 9 20 1)
      (receipt_of 77) refl refl refl refl refl left_rows refl refl

finalize_job-settles_example :
    let (r, w') = finalize_job env 5 (λ t. t) 30 9 ChargeStatus.succeeded left_world in
    let (r', v) = finalize_job env 5 (λ t. t) 30 9 ChargeStatus.failed left_world in
    (r ≡ ok tt)
    × (w'.saved ≡ record (settled 30 9 2 20 left_db) { audits = w'.saved.audits })
    × (r' ≡ ok tt)
    × (v.saved
        ≡ record (failed_tables env 100 "cid" left_job 9 20 left_db) { audits = v.saved.audits })
unfolding exists
finalize_job-settles_example =
    finalize_job-settles env 5 (λ t. t) left_job (new_attempt 9 20 1) open_case unpaid left_world
      left_rows refl refl

-- Worker 5 has claimed the evaluation, and the provider puts the case off.
abbrev held_db : Db
held_db = record db { jobs = claimed env 5 job ∷ [] }

abbrev later : Decision
later = record { action = ActionType.delay; reason = "wait"; confidence = 7000 }

finalize_evaluate_decision-acts_example :
    let (r, w') = finalize_evaluate_decision env 5 (λ t. held_db) 30 later world in
    (r ≡ ok tt)
    × (w'.saved ≡ record held_db {
      decisions = decision_row 20 later ∷ [];
      jobs = next_jobs env ActionType.delay 100 (claimed env 5 job) 20 "cid" (done 30 held_db.jobs);
      cases = db.cases;
      audits = w'.saved.audits;
    })
unfolding first exists
finalize_evaluate_decision-acts_example =
    finalize_evaluate_decision-acts env 5 (λ t. held_db) (claimed env 5 job) open_case unpaid later
      world
      (record {
        job_found = refl;
        leased = refl;
        case_found = refl;
        payment_found = refl;
        unpaid = refl;
      })
      refl refl

-- A success of the payment that is not paid yet.
abbrev success : WebhookEvent
success = record event { type = "payment.succeeded"; payment_id = "pay_2" }

process_webhook-closes_cases_example :
    let (r, w') = process_webhook env success world in
    (r ≡ ok true)
    × (w'.saved ≡ record db {
      payments = with_succeeded 2 db.payments;
      cases = drain case_key recovered (open_case ∷ []) db.cases;
      jobs = without_jobs (open_case ∷ []) db.jobs;
      keys = db.keys ++ key_of success ∷ [];
      audits = w'.saved.audits;
    })
    × (exists (is_active_of env 2) w'.saved.cases ≡ false)
    × All (λ (c : RecoveryCase). exists (is_pending_of c.id) w'.saved.jobs ≡ false) (open_case ∷ [])
unfolding first exists select is_supported is_mismatch
process_webhook-closes_cases_example =
    process_webhook-closes_cases env success world unpaid (refl, refl) (refl, refl) refl refl refl
      refl refl refl

-- An environment with a key and two timeouts, of which `float` reads one text.
abbrev environ : String → Option String
environ name =
    if str_eq name "ADMIN_API_KEY"
    then some "key"
    else if str_eq name "AI_TIMEOUT"
    then some "20"
    else none

abbrev twenty : String → Option Float
twenty text = if str_eq text "20" then some (seconds 20) else none

abbrev loaded : Settings
loaded = record {
  gateway_http_timeout = seconds 30;
  worker_poll_interval = seconds 5;
  worker_lease_timeout = seconds 60;
  ai_timeout = seconds 20;
  ai_provider = "openrouter";
  ai_base_url = "https://openrouter.ai/api/v1";
  ai_model = "nvidia/nemotron-3.5-lightning:free";
  ai_api_key = "dummy-key";
  admin_api_key = "key";
  log_level = "INFO";
  log_format = "json";
}

load_settings-IsSound_example :
    IsBelow (seconds 30) (seconds 60)
    × IsBelow (seconds 20) (seconds 60)
    × (environ "ADMIN_API_KEY" ≡ some "key")
    × (str_eq "key" "" ≡ false)
    × (str_eq "key" "" ≡ false)
unfolding load_settings env_float validate_timeouts load_admin_key ◌>>=◌ fge seconds ◌-ℤ◌
load_settings-IsSound_example = load_settings-IsSound environ (λ s. s) twenty {s = loaded} refl
