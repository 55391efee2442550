-- ===== src/Webhooks/Success.antt =====
-- What a success commits: the payment, the cases that it closes and their jobs.
use text.Mathlib.Text.{◌==◌ as str_eq}
use razor_pay.Prelude.{
  ℕ, ◌≡◌, refl, true, false, none, some, ◌==◌, List, [], ◌∷◌, ◌++◌, arith, exists, first, select,
  change, All,
}
use razor_pay.Prelude.Drain.{drain, exists-drain}
use razor_pay.Errors.{ok}
use razor_pay.States.{PaymentState, RecoveryState, is_terminal}
use razor_pay.Models.{Payment, RecoveryCase, RecoveryJob}
use razor_pay.Session.{Env, World, write, catch, ◌>>=◌}
use razor_pay.Audit.{create_audit_event, get_correlation_id}
use razor_pay.Tables.{set_payment_status, set_case_status, payment_has_id, is_pending_of}
use razor_pay.Tables.Cancel.{
  without_pending, cancel_pending_jobs_lem, exists-without_pending, exists-without_pending_none,
}
use razor_pay.Webhooks.{
  WebhookEvent, dispatch_event, process_webhook, is_of_event, is_mismatch, is_active_of,
  close_cases, on_succeeded, apply_event, record_event,
}
use razor_pay.Webhooks.Replay.{is_seen, IsPayable, IsFresh}
use razor_pay.Webhooks.Effect.{key_of, with_key, reaches_payment}

abbrev pub recovered : RecoveryCase → RecoveryCase
recovered c = record c { status = RecoveryState.recovered }

abbrev pub case_key : RecoveryCase → ℕ
case_key c = c.id

abbrev pub with_succeeded : ℕ → List Payment → List Payment
with_succeeded i payments =
    change (payment_has_id i) (λ (r : Payment). record r { status = PaymentState.succeeded })
      payments

-- The jobs when those of each case of a list that are pending have been cancelled.
abbrev pub without_jobs : List RecoveryCase → List RecoveryJob → List RecoveryJob
without_jobs [] jobs = jobs
without_jobs (c ∷ cases) jobs = without_jobs cases (without_pending c.id jobs)

close_cases_lem :
    (env : Env) (rows : List RecoveryCase) (w : World)
    → close_cases env rows w ≡ (
      ok tt,
      record w {
        db = record w.db {
          cases = drain case_key recovered rows w.db.cases;
          jobs = without_jobs rows w.db.jobs;
        };
      },
    )
unfolding close_cases set_case_status write drain ◌>>=◌
close_cases_lem env [] w = refl
close_cases_lem env (c ∷ rows) w =
    let v : World = record w {
      db = record w.db { cases = change (λ (x : RecoveryCase). x.id == c.id) recovered w.db.cases };
    } in
    rw (cancel_pending_jobs_lem c.id v) (
      close_cases_lem env rows
        (record v { db = record v.db { jobs = without_pending c.id v.db.jobs } }))

none_pending :
    (i : ℕ) (rows : List RecoveryCase) (jobs : List RecoveryJob)
    → exists (is_pending_of i) jobs ≡ false
    → exists (is_pending_of i) (without_jobs rows jobs) ≡ false
none_pending i [] jobs h = h
none_pending i (c ∷ rows) jobs h = none_pending i rows _ (exists-without_pending_none i c.id jobs h)

-- No case of the list has a pending job.
idle :
    (rows : List RecoveryCase) (jobs : List RecoveryJob)
    → All (λ (c : RecoveryCase). exists (is_pending_of c.id) (without_jobs rows jobs) ≡ false) rows
idle [] jobs = tt
idle (c ∷ rows) jobs = (none_pending c.id rows _ (exists-without_pending c.id jobs), idle rows _)

-- The payment and its cases.
succeeds :
    (env : Env) (p : Payment) (w : World)
    → let rows = select (is_active_of env p.id) w.db.cases in
      on_succeeded env p w ≡ (
        ok tt,
        record w {
          db = record w.db {
            payments = with_succeeded p.id w.db.payments;
            cases = drain case_key recovered rows w.db.cases;
            jobs = without_jobs rows w.db.jobs;
          };
        },
      )
unfolding on_succeeded set_payment_status ◌>>=◌
succeeds env p w = close_cases_lem env (select (is_active_of env p.id) w.db.cases) _

-- The rest of the event: its audit event and the commit.
records :
    (env : Env) (event : WebhookEvent) (p : Payment) (w v : World)
    → str_eq event.type "payment.failed" ≡ false
    → str_eq event.type "payment.succeeded" ≡ true
    → on_succeeded env p w ≡ (ok tt, v)
    → v.refused ≡ none
    → str_eq v.correlation "" ≡ false
    → let (r, w') = record_event env event p w in
      (r ≡ ok true) × (w'.saved ≡ record v.db { audits = w'.saved.audits })
unfolding record_event apply_event create_audit_event get_correlation_id write ◌>>=◌
records env event p w v other went done clean set = rw (other, went, done) (ground arith)

-- A new acceptable event of a success, for a payment that is known, agrees with it and is in no
-- terminal state, commits in one transaction: the payment as succeeded, its active cases as
-- recovered, their pending jobs as cancelled, the idempotency record and an audit event. The payment
-- has no active case afterwards, and none of the cases that it closes has a pending job. The
-- correlation id is set, and the session has just begun.
pub process_webhook-closes_cases :
    (env : Env) (event : WebhookEvent) (w : World) (p : Payment)
    → IsFresh w
    → IsPayable env event
    → is_seen event w.saved ≡ false
    → event.type ≡ "payment.succeeded"
    → first (is_of_event env event) w.saved.payments ≡ some p
    → is_mismatch env p event ≡ false
    → is_terminal p.status ≡ false
    → str_eq w.correlation "" ≡ false
    → let (r, w') = process_webhook env event w in
      let rows = select (is_active_of env p.id) w.saved.cases in
      (r ≡ ok true)
      × (w'.saved ≡ record w.saved {
        payments = with_succeeded p.id w.saved.payments;
        cases = drain case_key recovered rows w.saved.cases;
        jobs = without_jobs rows w.saved.jobs;
        keys = w.saved.keys ++ key_of event ∷ [];
        audits = w'.saved.audits;
      })
      × (exists (is_active_of env p.id) w'.saved.cases ≡ false)
      × All (λ (c : RecoveryCase). exists (is_pending_of c.id) w'.saved.jobs ≡ false) rows
unfolding dispatch_event catch
process_webhook-closes_cases env event w p fresh payable new went found same live set =
    let v : World = record w { db = record w.saved { keys = w.saved.keys ++ key_of event ∷ [] } } in
    let turned : with_key event w ≡ v = rw fresh.0 refl in
    let rows = select (is_active_of env p.id) w.saved.cases in
    let done = succeeds env p v in
    let closed =
      exists-drain (is_active_of env p.id) case_key recovered (λ c. refl) (λ c. ground arith)
        v.db.cases in
    let quiet = idle (select (is_active_of env p.id) v.db.cases) v.db.jobs in
    let told = records env event p v _ (rw went refl) (rw went refl) done fresh.1 set in
    rw (reaches_payment env event w fresh payable new, turned, found, same, live, told.0)
      (refl, told.1, rw told.1 closed, rw told.1 quiet)
