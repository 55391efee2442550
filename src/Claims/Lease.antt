-- ===== src/Claims/Lease.antt =====
-- The lease of a claimed job, and which jobs are claimed.
use razor_pay.Prelude.{
  ℕ, ◌+◌, ◌≤◌, ◌<◌, ◌≡◌, refl, [], ◌∷◌, ◌==◌, ◌&&◌, exists, Bool-cases, String, true, false, none,
  some, List, arith, ltb, select, change, Among, Among-select, Option-cases, ◌⊎◌, inl, inr,
}
use razor_pay.Errors.{ok}
use razor_pay.Models.{RecoveryJob, JobType}
use razor_pay.Session.{Env, World, ◌>>=◌}
use razor_pay.Tables.{pending_job, change_job, job_has_id}
use razor_pay.Settings.{validate_timeouts}
use razor_pay.Floats.{Float, fge, flt, seconds, flt-times}
use razor_pay.States.{JobState, is_pending}
use razor_pay.Claims.{is_claimable, claimed, claim_found, claim_job}

-- A claimed job can be claimed again exactly when the time is past the end of the lease.
pub is_claimable-claimed :
    (env later : Env) (worker_id : ℕ) (j : RecoveryJob)
    → is_claimable later (claimed env worker_id j) ≡ ltb (env.now + later.lease_timeout) later.now
unfolding is_claimable
is_claimable-claimed env later worker_id j = ground arith

-- A timeout that is a time: neither NaN nor negative.
abbrev pub IsTime : Float → Type 0
IsTime t = fge t (seconds 0) ≡ true

-- `timedelta(seconds=...)`, in microseconds, rounds, and so keeps the order.
abbrev pub IsMonotone : (Float → ℕ) → Type 0
IsMonotone timedelta = (a b : Float) → flt a b ≡ true → timedelta a ≤ timedelta b

-- Timeouts that are times and pass the check of the settings end within the lease: until a call that
-- begins when the job is claimed has timed out, no other worker can claim the job.
pub validated-lease :
    (timedelta : Float → ℕ) (env later : Env) (worker_id : ℕ) (j : RecoveryJob)
    (gateway lease ai : Float)
    → IsMonotone timedelta
    → IsTime gateway × IsTime lease × IsTime ai
    → later.lease_timeout ≡ timedelta lease
    → validate_timeouts gateway lease ai ≡ ok tt
    → (later.now ≤ env.now + timedelta gateway) ⊎ (later.now ≤ env.now + timedelta ai)
    → is_claimable later (claimed env worker_id j) ≡ false
unfolding validate_timeouts
validated-lease timedelta env later worker_id j gateway lease ai mono times same valid soon =
    let g : flt gateway lease ≡ true =
      flt-times gateway lease times.0 times.1 (ground (arith, valid)) in
    let a : flt ai lease ≡ true = flt-times ai lease times.2 times.1 (ground (arith, valid)) in
    ends soon (mono gateway lease g) (mono ai lease a)
  where
    ends :
        (later.now ≤ env.now + timedelta gateway) ⊎ (later.now ≤ env.now + timedelta ai)
        → timedelta gateway ≤ timedelta lease
        → timedelta ai ≤ timedelta lease
        → is_claimable later (claimed env worker_id j) ≡ false
    ends (inl s) g a = ground (arith, is_claimable-claimed env later worker_id j)
    ends (inr s) g a = ground (arith, is_claimable-claimed env later worker_id j)

-- A job that a handler adds can be claimed at once, whatever its `available_at` says, and so can the
-- job with any other `available_at`: the time of availability is not read.
pub available_at-ignored :
    (env later : Env) (id case_id : ℕ) (t : JobType) (available_at other max_attempts count : ℕ)
    (cid : String) (j : RecoveryJob)
    → (is_claimable later (pending_job env id case_id t available_at max_attempts count cid) ≡ true)
      × (is_claimable later (record j { available_at = other }) ≡ is_claimable later j)
unfolding is_claimable
available_at-ignored env later id case_id t available_at other max_attempts count cid j =
    (ground arith, ground arith)

-- The database returns one of the rows that it is asked for, or none.
abbrev pub IsPick : Env → Type 0
IsPick env = (l : List RecoveryJob) (j : RecoveryJob) → env.pick l ≡ some j → Among j l

-- What `claim_job` returns is a row of the table that could be claimed, now running and leased to the
-- worker, and the row of its id in the table is changed so; nothing is committed. The session is
-- not in a failed state.
pub claim_job-claimable :
    (env : Env) (worker_id : ℕ) (w : World)
    → IsPick env
    → w.refused ≡ none
    → {c : RecoveryJob} → (claim_job env worker_id w).0 ≡ ok (some c)
    → (j : RecoveryJob) × Among j w.db.jobs
      × (is_claimable env j ≡ true)
      × (c ≡ claimed env worker_id j)
      × ((claim_job env worker_id w).1 ≡ record w {
        db = record w.db { jobs = change (job_has_id j.id) (claimed env worker_id) w.db.jobs };
      })
unfolding claim_job claim_found change_job ◌>>=◌
claim_job-claimable env worker_id w picks clean {c} h =
    elim (Option-cases (env.pick (select (is_claimable env) w.db.jobs))) [
      | inl nothing ↦ absurd (ground arith)
      | inr (j, found) ↦
          let (row, free) = Among-select (is_claimable env) j w.db.jobs (picks _ j found) in
          (j, row, free, ground arith, ground arith)
    ]

-- The lease of `j` that the worker takes, whatever the row said before.
abbrev pub IsGranted : Env → ℕ → RecoveryJob → RecoveryJob → Type 0
IsGranted env worker_id j c =
    c ≡ record j { status = JobState.running; locked_at = some env.now; locked_by = some worker_id }

-- A row that is free: pending, or running under a lease that has run out.
abbrev pub IsFree : Env → RecoveryJob → Type 0
IsFree env j =
    (j.status ≡ JobState.pending)
    ⊎ (j.status ≡ JobState.running)
      × (t : ℕ) × (j.locked_at ≡ some t)
      × (t + env.lease_timeout < env.now)

IsFree-claimable : (env : Env) (j : RecoveryJob) → is_claimable env j ≡ true → IsFree env j
unfolding is_claimable
IsFree-claimable env j h = elim (Bool-cases (is_pending j.status)) [
  | inl pending ↦ inl (ground (arith, pending))
  | inr other ↦ elim (Option-cases j.locked_at) [
    | inl unlocked ↦ absurd (ground (arith, h))
    | inr (t, locked) ↦ inr (ground (arith, h, other), t, locked, ground (arith, h, other, locked))
  ]
]

-- Until the lease has run out, no row with the id of a claimed one can be claimed.
closed :
    (env later : Env) (worker_id i : ℕ) (jobs : List RecoveryJob)
    → later.now ≤ env.now + later.lease_timeout
    → exists
        (λ (r : RecoveryJob). r.id == i && is_claimable later r)
        (change (job_has_id i) (claimed env worker_id) jobs)
      ≡ false
unfolding exists change
closed env later worker_id i [] soon = refl
closed env later worker_id i (r ∷ jobs) soon =
    ground
      (arith, is_claimable-claimed env later worker_id r, closed env later worker_id i jobs soon)

-- What `claim_job` returns was a free row of the table: pending, or running under a lease that has
-- run out. It is running now, leased to the worker from now on and otherwise as it was, nothing is
-- committed, and until that lease has run out no worker finds a row with its id to claim. The database
-- picks a row that it is asked for, and no write has been refused before.
pub claim_job-grants :
    (env later : Env) (worker_id : ℕ) (w : World)
    → IsPick env
    → w.refused ≡ none
    → later.now ≤ env.now + later.lease_timeout
    → {c : RecoveryJob} → (claim_job env worker_id w).0 ≡ ok (some c)
    → let w' = (claim_job env worker_id w).1 in
      (j : RecoveryJob) × Among j w.db.jobs
      × IsFree env j
      × IsGranted env worker_id j c
      × (w'.saved ≡ w.saved)
      × (exists (λ (r : RecoveryJob). r.id == j.id && is_claimable later r) w'.db.jobs ≡ false)
claim_job-grants env later worker_id w picks clean soon {c} h =
    let (j, row, free, lease, e) = claim_job-claimable env worker_id w picks clean h in
    (
      j,
      row,
      IsFree-claimable env j free,
      lease,
      rw e refl,
      rw e (closed env later worker_id j.id w.db.jobs soon),
    )
