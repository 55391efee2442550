-- ===== src/System/Budget.antt =====
-- No history charges a case more than three times.
use razor_pay.Prelude.{
  String, ℕ, ◌+◌, ◌≤◌, ◌≡◌, refl, Bool, true, false, Option, none, some, List, [], ◌∷◌, ◌==◌, arith,
  All, Among, Among-All, select, change,
}
use razor_pay.Prelude.Distinct.{Distinct, Distinct-All, count, count-Distinct, exists-Among}
use razor_pay.Errors.{Result, ok, err}
use razor_pay.Models.{RecoveryJob, RecoveryAttempt, JobType, Db}
use razor_pay.Session.{Env, World, Action, continue, begin_after, ◌>>=◌, ◌>>◌}
use razor_pay.Session.Keeps.{Holds, Keeps, keeps_rules}
use razor_pay.Tables.{is_numbered, job_has_id}
use razor_pay.Claims.{claimed, claim_job}
use razor_pay.Claims.Lease.{IsPick, claim_job-claimable}
use razor_pay.Budget.{is_evaluation, InBudget, IsNumbered, Fits, same_job, same_number}
use razor_pay.Budget.Laws.{Fits-Respects}
use razor_pay.Budget.Types.{IsTyped}
use razor_pay.Budget.Services.{Ok, claim_job-Keeps, begin_evaluate-Keeps}
use razor_pay.Budget.Workers.{finalize_evaluate_error-Ok, finalize_job-Ok, finalize_ambiguous-Ok}
use razor_pay.Budget.Decisions.{finalize_evaluate_decision-Fits}
use razor_pay.Budget.Charges.{Charging, charging, begin_charge-Ok}
use razor_pay.Webhooks.Budget.{process_webhook-Ok}
use razor_pay.Admin.Budget.{stop_recovery_case-Ok, force_retry_case-Ok}
use razor_pay.Gateway.{lookup}
use razor_pay.Audit.{adopt_correlation}
use razor_pay.System.{
  Request, webhook, stop_case, retry_case, begin_job, end_evaluation_error, end_evaluation,
  end_charge, end_ambiguous, begin_typed, begin_claimed, begin_next, serve,
}

-- A worker acts on a decision about a job that it has claimed as an evaluation.
abbrev pub IsProper : Request → World → Type 0
IsProper (end_evaluation worker_id job_id d) w = IsTyped true job_id w.saved.jobs w.saved.attempts
IsProper _ w = Unit

-- Requests one after another, each in its own surroundings.
pub data History (s : World) : World → Type 0 where
  start : History s s
  next :
      {t : World} (env : Env) (request : Request)
      → History s t
      → IsPick env
      → IsProper request t
      → History s (serve env request t).1

abbrev pub Budget : Db → Type 0
Budget db = Fits db.jobs db.attempts

-- A job of the tables that is no evaluation, once it has been claimed.
claimed-Charging :
    (env : Env) (worker_id : ℕ) (db : Db) (j : RecoveryJob)
    → Budget db
    → Among j db.jobs
    → is_evaluation j.job_type ≡ false
    → Charging (claimed env worker_id j) db.jobs db.attempts
claimed-Charging env worker_id db j h there other =
    let b = Among-All (InBudget db.attempts) j db.jobs h.budget there in
    (
      h,
      (
        (
          exists-Among (job_has_id j.id) j db.jobs there (ground arith),
          typed db.jobs (Distinct-All same_job j db.jobs (λ x y e. ground arith) h.ids there),
        ),
        b.2,
      ),
    )
  where
    typed :
        (l : List RecoveryJob)
        → All (λ k. same_job j k ≡ true → k ≡ j) l
        → All (λ (k : RecoveryJob). k.id ≡ j.id → is_evaluation k.job_type ≡ false) l
    typed [] a = tt
    typed (k ∷ l) a = ((λ e. rw (a.0 (ground arith)) other), typed l a.1)

module _ (env : Env) (picks : IsPick env) (worker_id : ℕ) where
  -- What follows the claim of a job.
  claimed-Fits :
      (w : World) (r : Result (Option RecoveryJob)) (v : World)
      → w.db ≡ w.saved
      → w.refused ≡ none
      → Holds Budget w
      → (claim_job env worker_id w).0 ≡ r
      → (claim_job env worker_id w).1 ≡ v
      → Holds Budget v
      → Holds Budget (continue r (begin_claimed env) v).1
  unfolding begin_claimed begin_typed ◌>>=◌
  claimed-Fits w (err e) v same clean h er ev k = k
  claimed-Fits w (ok none) v same clean h er ev k =
      let turn : Keeps Budget (begin_claimed env none) = search keeps_rules in turn.at v k
  claimed-Fits w (ok (some c)) v same clean h er ev k = adopted (lookup "correlation_id" c.payload)
    where
      charge : is_evaluation c.job_type ≡ false → Holds (Ok (Charging c) (charging c)) v
      charge other =
          let (j, there, free, e, e') = claim_job-claimable env worker_id w picks clean er in
          let other' : is_evaluation j.job_type ≡ false = rw e at other in
          let before : Charging c w.db.jobs w.db.attempts =
            rw e (claimed-Charging env worker_id w.db j h.db there other') in
          let after =
            (charging c).update w.db.jobs w.db.attempts (job_has_id j.id) (claimed env worker_id)
              (λ x. (refl, refl, refl, refl, refl)) before in
          let end : Holds (Ok (Charging c) (charging c)) (record w {
            db = record w.db { jobs = change (job_has_id j.id) (claimed env worker_id) w.db.jobs };
          }) =
            record { saved = rw (← same) before; db = after } in
          rw (← ev, e') end

      typed :
          (u : World)
          → Holds Budget u
          → (is_evaluation c.job_type ≡ false → Holds (Ok (Charging c) (charging c)) u)
          → (t : JobType) → c.job_type ≡ t
          → Holds Budget (begin_typed env t c u).1
      typed u k charges JobType.evaluate_recovery e =
          let turn : Keeps Budget (begin_typed env JobType.evaluate_recovery c) =
            search (keeps_rules, begin_evaluate-Keeps Fits Fits-Respects env) in
          turn.at u k
      typed u k charges JobType.execute_charge e =
          let turn : Keeps (Ok (Charging c) (charging c))
              (begin_typed env JobType.execute_charge c) =
            search (keeps_rules, begin_charge-Ok env c) in
          let end = turn.at u (charges (rw e refl)) in record { saved = end.saved.0; db = end.db.0 }
      typed u k charges (JobType.unknown t) e =
          let turn : Keeps Budget (begin_typed env (JobType.unknown t) c) = search keeps_rules in
          turn.at u k

      adopted :
          (cid : Option String)
          → Holds Budget ((adopt_correlation cid >>= λ done. begin_typed env c.job_type c) v).1
      adopted none = typed v k charge c.job_type refl
      adopted (some cid) =
          typed (record v { correlation = cid }) (record { saved = k.saved; db = k.db })
            (λ other. let x = charge other in record { saved = x.saved; db = x.db }) c.job_type refl

  turn-Fits :
      Keeps Budget (do begin_after (λ db. db); job ← claim_job env worker_id; begin_claimed env job)
  unfolding ◌>>=◌ begin_after
  turn-Fits = record {
    at = λ w h.
        let v : World = record w { db = w.saved; refused = none } in
        let k : Holds Budget v = record { saved = h.saved; db = h.saved } in
        claimed-Fits v (claim_job env worker_id v).0 (claim_job env worker_id v).1 refl refl k refl
          refl ((claim_job-Keeps Fits Fits-Respects env worker_id).at v k);
  }

  begin_next-Fits : Keeps Budget (begin_next env worker_id)
  unfolding begin_next
  begin_next-Fits = search (keeps_rules, turn-Fits)

serve-Fits :
    (env : Env) (request : Request) (w : World)
    → IsPick env
    → IsProper request w
    → Holds Budget w
    → Holds Budget (serve env request w).1
unfolding serve ◌>>=◌
serve-Fits env request w picks proper h = served request proper
  where
    plain : {A : Type 0} (m : Action A) → Keeps Budget m → Holds Budget (m w).1
    plain m k = k.at w h

    keep : (db : Db) → Budget db → Budget db
    keep db b = b

    inside :
        (jobs : List RecoveryJob) (attempts : List RecoveryAttempt)
        → Fits jobs attempts
        → Fits jobs attempts
    inside jobs attempts f = f

    served : (r : Request) → IsProper r w → Holds Budget (serve env r w).1
    served (webhook event) p =
        plain (serve env (webhook event))
          (search (keeps_rules, process_webhook-Ok Fits Fits-Respects env) depth 8)
    served (stop_case id) p =
        plain (serve env (stop_case id))
          (search (keeps_rules, stop_recovery_case-Ok Fits Fits-Respects env) depth 8)
    served (retry_case id) p =
        plain (serve env (retry_case id))
          (search (keeps_rules, force_retry_case-Ok Fits Fits-Respects env) depth 8)
    served (begin_job worker_id) p =
        plain (begin_next env worker_id) (begin_next-Fits env picks worker_id)
    served (end_evaluation_error worker_id job_id m) p = plain _ (
        finalize_evaluate_error-Ok Fits Fits-Respects inside env worker_id (λ db. db) keep job_id m)
    served (end_evaluation worker_id job_id d) p =
        finalize_evaluate_decision-Fits env worker_id (λ db. db) job_id d w (h.saved, p)
    served (end_charge worker_id job_id attempt_id result) p = plain _ (
        finalize_job-Ok Fits Fits-Respects inside env worker_id (λ db. db) keep job_id attempt_id
          result)
    served (end_ambiguous worker_id job_id attempt_id) p = plain _ (
        finalize_ambiguous-Ok Fits Fits-Respects inside env worker_id (λ db. db) keep job_id
          attempt_id)

History-Fits : {s t : World} → Holds Budget s → History s t → Holds Budget t
History-Fits h start = h
History-Fits h (next {t} env request past picks proper) =
    serve-Fits env request t picks proper (History-Fits h past)

abbrev pub is_of : ℕ → RecoveryAttempt → Bool
is_of case_id a = a.recovery_case_id == case_id

-- Attempts with numbers from 1 to 3 are those with each of the numbers.
count-by_number :
    (case_id : ℕ) (l : List RecoveryAttempt)
    → All IsNumbered l
    → count (is_of case_id) l
      ≤ count (is_numbered case_id 1) l
        + count (is_numbered case_id 2) l
        + count (is_numbered case_id 3) l
unfolding select
count-by_number case_id [] h = omega arith
count-by_number case_id (a ∷ l) h = ground (arith, count-by_number case_id l h.1)

number-once :
    (case_id n : ℕ) (l : List RecoveryAttempt)
    → Distinct same_number l
    → count (is_numbered case_id n) l ≤ 1
number-once case_id n l h =
    count-Distinct same_number (is_numbered case_id n) l (λ x e y. ground arith) h

-- From tables that fit the budget, after every history of webhooks, administrator's requests and the
-- transactions of any number of workers, no case has more than three committed attempts to charge,
-- their numbers lie between 1 and 3 and do not repeat in a case, and the tables fit the budget again.
-- In the history a worker acts only on decisions about jobs that are evaluations, and the database
-- picks one of the rows that the query for a job finds.
pub History-three_attempts :
    {s t : World} (case_id : ℕ)
    → Holds Budget s
    → History s t
    → (count (is_of case_id) t.saved.attempts ≤ 3)
      × All IsNumbered t.saved.attempts
      × Distinct same_number t.saved.attempts
      × Budget t.saved
History-three_attempts {s} {t} case_id h past =
    let fits = (History-Fits h past).saved in
    let l = t.saved.attempts in
    (
      omega (
        arith,
        count-by_number case_id l fits.numbers,
        number-once case_id 1 l fits.apart,
        number-once case_id 2 l fits.apart,
        number-once case_id 3 l fits.apart,
      ),
      fits.numbers,
      fits.apart,
      fits,
    )
