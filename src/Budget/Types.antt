-- ===== src/Budget/Types.antt =====
-- The type of a job never changes, and its row is never lost.
use razor_pay.Prelude.{
  ℕ, ◌≡◌, ◌∙◌, subst, Bool, true, false, List, [], ◌∷◌, arith, All, All-append, All-change, exists,
  exists-append, exists-change,
}
use razor_pay.Models.{RecoveryJob, RecoveryAttempt}
use razor_pay.Tables.{job_has_id}
use razor_pay.Budget.{is_evaluation, Respects}

-- There is a job with the id `i`, and every row with that id is an evaluation, or none is.
abbrev pub IsTyped : Bool → ℕ → List RecoveryJob → List RecoveryAttempt → Type 0
IsTyped b i jobs attempts =
    (exists (job_has_id i) jobs ≡ true)
    × All (λ (j : RecoveryJob). j.id ≡ i → is_evaluation j.job_type ≡ b) jobs

pub IsTyped-Respects : (b : Bool) (i : ℕ) → Respects (IsTyped b i)
IsTyped-Respects b i = record {
  add = λ jobs attempts r new n h. (
    exists-append (job_has_id i) jobs (r ∷ []) h.0,
    All-append _ jobs (r ∷ []) h.1 (
        (
          (λ e.
              let gone : exists (job_has_id i) jobs ≡ false =
                subst (λ k. exists (job_has_id k) jobs ≡ false) e new in
              cc (h.0)),
          tt,
        )),
  );
  update = λ jobs attempts q f k h. (
    exists-change q (job_has_id i) f jobs (λ j. ground (arith, k j)) ∙ h.0,
    All-change _ q f jobs (λ j e t same. ground (arith, k j, t)) h.1,
  );
  settle = λ jobs attempts q f k h. h;
}

-- Two properties that respect the writes do so together.
pub Respects-and :
    (T U : List RecoveryJob → List RecoveryAttempt → Type 0)
    → Respects T
    → Respects U
    → Respects (λ jobs attempts. T jobs attempts × U jobs attempts)
Respects-and T U t u = record {
  add =
      λ jobs attempts r new n h. (t.add jobs attempts r new n h.0, u.add jobs attempts r new n h.1);
  update =
      λ jobs attempts q f k h. (t.update jobs attempts q f k h.0, u.update jobs attempts q f k h.1);
  settle =
      λ jobs attempts q f k h. (t.settle jobs attempts q f k h.0, u.settle jobs attempts q f k h.1);
}
