-- ===== src/Budget/Charges.antt =====
-- A claimed job that begins an attempt keeps the budget: the number of the attempt is at most three.
use razor_pay.Prelude.{
  ℕ, ◌+◌, ◌≤◌, ◌<◌, ◌≡◌, refl, sym, ◌∙◌, Bool, true, false, Option, none, some, List, [], ◌∷◌, ◌++◌,
  arith, All, All-append, All-change, exists, exists-append, exists-change, change, first,
  exists-first-none, Option-cases, Bool-cases, inl, inr, if◌then◌else◌,
}
use razor_pay.Prelude.Distinct.{Distinct-append, Distinct-change}
use razor_pay.Errors.{ok}
use razor_pay.Models.{Payment, RecoveryCase, RecoveryJob, RecoveryAttempt}
use razor_pay.Session.{Env, World, gets, write, commit, pure, ◌>>=◌, ◌>>◌}
use razor_pay.Session.Keeps.{Holds, Keeps, keeps_rules, Keeps-bind, Keeps-bind-ok}
use razor_pay.Tables.{
  attempt_has_id, job_has_id, is_numbered, attempt_conflict, add_attempt, change_job,
}
use razor_pay.Worker.Execute.{query_begun, ensure_attempt, begin_charge, plan}
use razor_pay.Worker.Attempt.{new_attempt, with_attempt}
use razor_pay.Budget.{
  is_evaluation, is_begun, InBudget, IsNumbered, same_job, same_number, Fits, Respects,
}
use razor_pay.Budget.Laws.{Fits-Respects, All-budget, is_begun-change}
use razor_pay.Budget.Types.{IsTyped, IsTyped-Respects, Respects-and}
use razor_pay.Budget.Services.{Ok, load_case-Keeps, cancel_job-Keeps}

-- An attempt that is added loses none.
is_begun-append :
    (attempts : List RecoveryAttempt) (a : RecoveryAttempt) (o : Option ℕ)
    → is_begun (attempts ++ a ∷ []) o ≡ false
    → is_begun attempts o ≡ false
is_begun-append attempts a none e = refl
is_begun-append attempts a (some id) e = elim (Bool-cases (exists (attempt_has_id id) attempts)) [
  | inl t ↦ let t' = exists-append (attempt_has_id id) attempts (a ∷ []) t in absurd (ground arith)
  | inr f ↦ f
]

-- Before it begins an attempt, the job has one left.
abbrev pub HasLeft : RecoveryJob → List RecoveryJob → List RecoveryAttempt → Type 0
HasLeft c jobs attempts = is_begun attempts c.attempt_id ≡ false → c.attempt_count < 3

HasLeft-Respects : (c : RecoveryJob) → Respects (HasLeft c)
HasLeft-Respects c = record {
  add = λ jobs attempts r new n h. h;
  update = λ jobs attempts q f k h. h;
  settle = λ jobs attempts q f k h e. h (sym (is_begun-change q f attempts k c.attempt_id) ∙ e);
}

-- What is known of a claimed job that is no evaluation.
abbrev pub Charging : RecoveryJob → List RecoveryJob → List RecoveryAttempt → Type 0
Charging c jobs attempts =
    Fits jobs attempts × (IsTyped false c.id jobs attempts × HasLeft c jobs attempts)

pub charging : (c : RecoveryJob) → Respects (Charging c)
charging c =
    Respects-and Fits (λ jobs attempts. IsTyped false c.id jobs attempts × HasLeft c jobs attempts)
      Fits-Respects
      (Respects-and (IsTyped false c.id) (HasLeft c) (IsTyped-Respects false c.id)
        (HasLeft-Respects c))

module _ (c : RecoveryJob) (jobs : List RecoveryJob) (attempts : List RecoveryAttempt) where
  -- A new attempt of a case.
  grows :
      (a : RecoveryAttempt)
      → IsNumbered a
      → exists (is_numbered a.recovery_case_id a.attempt_number) attempts ≡ false
      → Charging c jobs attempts
      → Charging c jobs (attempts ++ a ∷ [])
  grows a n new h = (
    record {
      budget =
          All-budget attempts (attempts ++ a ∷ []) jobs (is_begun-append attempts a) h.0.budget;
      ids = h.0.ids;
      numbers = All-append IsNumbered attempts (a ∷ []) h.0.numbers ((n, tt));
      apart = Distinct-append same_number attempts a (λ x s. ground arith) new h.0.apart;
    },
    (h.1.0, (λ e. h.1.1 (is_begun-append attempts a c.attempt_id e))),
  )

  -- The job notes its attempt.
  notes :
      (id n : ℕ)
      → n ≤ 3
      → exists (attempt_has_id id) attempts ≡ true
      → Charging c jobs attempts
      → Charging c (change (job_has_id c.id) (with_attempt id n) jobs) attempts
  unfolding change
  notes id n le begun h = (
    record {
      budget = budgeted jobs h.1.0.1 h.0.budget;
      ids =
          Distinct-change same_job (job_has_id c.id) (with_attempt id n) jobs (λ x y. refl)
            (λ x y. refl) h.0.ids;
      numbers = h.0.numbers;
      apart = h.0.apart;
    },
    (
      (
        exists-change (job_has_id c.id) (job_has_id c.id) (with_attempt id n) jobs (λ j. refl)
            ∙ h.1.0.0,
        All-change _ (job_has_id c.id) (with_attempt id n) jobs (λ j e t. t) h.1.0.1,
      ),
      h.1.1,
    ),
  )
    where
      row :
          (j : RecoveryJob)
          → (j.id ≡ c.id → is_evaluation j.job_type ≡ false)
          → InBudget attempts j
          → job_has_id c.id j ≡ true
          → InBudget attempts (with_attempt id n j)
      row j t b e =
          let no = t (ground arith) in
          (b.0, le, (λ f. absurd (ground arith)), (λ f. absurd (ground arith)))

      pick :
          (x : Bool) (j : RecoveryJob)
          → (x ≡ true → InBudget attempts (with_attempt id n j))
          → InBudget attempts j
          → InBudget attempts (if x then with_attempt id n j else j)
      pick true j y b = y refl
      pick false j y b = b

      budgeted :
          (l : List RecoveryJob)
          → All (λ (j : RecoveryJob). j.id ≡ c.id → is_evaluation j.job_type ≡ false) l
          → All (InBudget attempts) l
          → All (InBudget attempts) (change (job_has_id c.id) (with_attempt id n) l)
      budgeted [] t b = tt
      budgeted (j ∷ l) t b = (pick (job_has_id c.id j) j (row j t.0 b.0) b.0, budgeted l t.1 b.1)

exists-added :
    (l : List RecoveryAttempt) (a : RecoveryAttempt)
    → exists (attempt_has_id a.id) (l ++ a ∷ []) ≡ true
unfolding exists
exists-added [] a = ground arith
exists-added (x ∷ l) a = ground (arith, exists-added l a)

module _ (env : Env) (c : RecoveryJob) where
  -- The claimed job begins an attempt under the next number.
  begins :
      (case : RecoveryCase) (w : World)
      → c.attempt_count < 3
      → Holds (Ok (Charging c) (charging c)) w
      → Holds (Ok (Charging c) (charging c)) (ensure_attempt env c case none w).1
  unfolding ensure_attempt add_attempt change_job write ◌>>=◌
  begins case w left h =
      let a = new_attempt (env.uuid4 w.drawn) case.id (c.attempt_count + 1) in
      elim (Option-cases (attempt_conflict a w.db)) [
        | inr (e, clash) ↦ rw clash (record { saved = h.saved; db = h.db })
        | inl free ↦
            let more = grows c w.db.jobs w.db.attempts a (omega arith) (ground arith) h.db in
            let there = exists-added w.db.attempts a in
            let noted =
              notes c w.db.jobs (w.db.attempts ++ a ∷ []) a.id a.attempt_number (omega arith) there
                more in
            elim (Option-cases w.refused) [
              | inl clean ↦ rw (free, clean) (record { saved = h.saved; db = noted })
              | inr (e, refused) ↦ rw (free, refused) (record { saved = h.saved; db = more })
            ]
      ]

  ensure_attempt-Ok :
      (case : RecoveryCase) (begun : Option RecoveryAttempt)
      → (begun ≡ none → c.attempt_count < 3)
      → Keeps (Ok (Charging c) (charging c)) (ensure_attempt env c case begun)
  unfolding ensure_attempt
  ensure_attempt-Ok case none left = record { at = λ w h. begins case w (left refl) h }
  ensure_attempt-Ok case (some a) left = search keeps_rules

  -- Where no attempt of the job is found, it has one left.
  query_begun-left :
      (w : World) (begun : Option RecoveryAttempt)
      → Ok (Charging c) (charging c) w.db
      → (query_begun c.attempt_id w).0 ≡ ok begun
      → begun ≡ none
      → c.attempt_count < 3
  unfolding query_begun gets
  query_begun-left w begun h e n = elim (Option-cases c.attempt_id) [
    | inl blank ↦ h.1.1 (rw blank refl)
    | inr (id, one) ↦
        let missing : first (attempt_has_id id) w.db.attempts ≡ none = ground (arith, e, one) in
        h.1.1 (rw one (exists-first-none (attempt_has_id id) w.db.attempts missing))
  ]

  query_begun-Ok : (o : Option ℕ) → Keeps (Ok (Charging c) (charging c)) (query_begun o)
  unfolding query_begun
  query_begun-Ok none = search keeps_rules
  query_begun-Ok (some id) = search keeps_rules

  planned :
      (case : RecoveryCase) (payment : Payment)
      → Keeps (Ok (Charging c) (charging c)) (do
        begun ← query_begun c.attempt_id
        attempt ← ensure_attempt env c case begun
        commit
        pure (some (plan env payment attempt)))
  planned case payment = Keeps-bind-ok _ _ (query_begun-Ok c.attempt_id) λ w begun h found.
      Keeps-bind _ _ (ensure_attempt-Ok case begun (query_begun-left w begun h.db found))
        (λ a. search keeps_rules)

  -- The transaction before the charge.
  pub begin_charge-Ok : Keeps (Ok (Charging c) (charging c)) (begin_charge env c)
  unfolding begin_charge
  begin_charge-Ok =
      search
        (
          keeps_rules,
          load_case-Keeps (Charging c) (charging c),
          cancel_job-Keeps (Charging c) (charging c) env,
          planned,
        )
        depth 10
