-- ===== src/Budget/Laws.antt =====
-- The budget is kept by the writes of the services, and so are the ids and the types of jobs.
use razor_pay.Prelude.{
  ℕ, ◌≡◌, refl, sym, ◌∙◌, Bool, true, false, Option, none, some, List, [], ◌∷◌, arith, All,
  All-append, All-change, exists-change, change,
}
use razor_pay.Prelude.Distinct.{Distinct-append, Distinct-change}
use razor_pay.Models.{RecoveryJob, RecoveryAttempt}
use razor_pay.Tables.{attempt_has_id}
use razor_pay.Budget.{
  is_evaluation, is_begun, InBudget, IsNumbered, same_job, same_number, Fits, AlikeAttempt,
  Respects,
}

-- A budget survives where no attempt is lost.
pub All-budget :
    (xs ys : List RecoveryAttempt) (jobs : List RecoveryJob)
    → ((o : Option ℕ) → is_begun ys o ≡ false → is_begun xs o ≡ false)
    → All (InBudget xs) jobs
    → All (InBudget ys) jobs
All-budget xs ys [] k h = tt
All-budget xs ys (j ∷ jobs) k h =
    let b = h.0 in (((b.0, b.1, (λ e. b.2 (k j.attempt_id e)), b.3)), All-budget xs ys jobs k h.1)

pub is_begun-change :
    (q : RecoveryAttempt → Bool) (f : RecoveryAttempt → RecoveryAttempt) (xs : List RecoveryAttempt)
    → ((a : RecoveryAttempt) → AlikeAttempt a (f a))
    → (o : Option ℕ) → is_begun (change q f xs) o ≡ is_begun xs o
is_begun-change q f xs k none = refl
is_begun-change q f xs k (some id) = exists-change q (attempt_has_id id) f xs (λ a. rw (k a).0)

pub Fits-Respects : Respects Fits
Fits-Respects = record {
  add = λ jobs xs r new n h. record {
    budget =
        All-append (InBudget xs) jobs (r ∷ []) h.budget
          (((n.0, ground arith, (λ e. n.1), (λ e. n.2)), tt));
    ids = Distinct-append same_job jobs r (λ x s. ground arith) new h.ids;
    numbers = h.numbers;
    apart = h.apart;
  };
  update = λ jobs xs q f k h. record {
    budget =
        All-change (InBudget xs) q f jobs
          (λ j e b. (
            (k j).4 ∙ b.0,
            ground (arith, k j),
            (λ s.
                let s' : is_begun xs j.attempt_id ≡ false = rw (k j).2 at s in
                ground (arith, k j, b.2 s')),
            (λ s. let s' : is_evaluation j.job_type ≡ true = rw (k j).1 at s in (k j).2 ∙ b.3 s'),
          ))
          h.budget;
    ids =
        Distinct-change same_job q f jobs (λ x y. ground (arith, k y)) (λ x y. ground (arith, k x))
          h.ids;
    numbers = h.numbers;
    apart = h.apart;
  };
  settle = λ jobs xs q f k h. record {
    budget =
        All-budget xs (change q f xs) jobs (λ o e. sym (is_begun-change q f xs k o) ∙ e) h.budget;
    ids = h.ids;
    numbers = All-change IsNumbered q f xs (λ a e n. ground (arith, k a)) h.numbers;
    apart =
        Distinct-change same_number q f xs (λ x y. ground (arith, k y)) (λ x y. ground (arith, k x))
          h.apart;
  };
}
