-- ===== src/Consistency/Grows.antt =====
-- Tables that lose no row, and the foreign keys of their rows.
use razor_pay.Prelude.{
  ℕ, ◌≡◌, Bool, true, Option, none, some, List, [], ◌∷◌, ◌++◌, arith, All, exists,
}
use razor_pay.Prelude.Drain.{All-map}
use razor_pay.Models.{Payment, RecoveryCase, RecoveryAttempt, RecoveryDecision, RecoveryJob, Db}
use razor_pay.Tables.{customer_has_id, payment_has_id, case_has_id, attempt_has_id}
use razor_pay.Consistency.{
  PaymentRefers, CaseRefers, AttemptRefers, DecisionRefers, is_attempt, JobRefers, Fact, is_case_of,
  Known,
}

-- Tables in which no row has gone, by the ids that foreign keys name.
pub record Grows (xs ys : Db) : Type 0 where
  pub customers :
      (i : ℕ)
      → exists (customer_has_id i) xs.customers ≡ true
      → exists (customer_has_id i) ys.customers ≡ true
  pub payments :
      (i : ℕ)
      → exists (payment_has_id i) xs.payments ≡ true
      → exists (payment_has_id i) ys.payments ≡ true
  pub cases :
      (i p : ℕ) → exists (is_case_of i p) xs.cases ≡ true → exists (is_case_of i p) ys.cases ≡ true
  pub case_ids :
      (i : ℕ) → exists (case_has_id i) xs.cases ≡ true → exists (case_has_id i) ys.cases ≡ true
  pub attempts :
      (i : ℕ)
      → exists (attempt_has_id i) xs.attempts ≡ true
      → exists (attempt_has_id i) ys.attempts ≡ true

pub Grows-Known : (xs ys : Db) → Grows xs ys → (f : Fact) → Known xs f → Known ys f
Grows-Known xs ys g (Fact.has_customer i) h = g.customers i h
Grows-Known xs ys g (Fact.has_payment i) h = g.payments i h
Grows-Known xs ys g (Fact.has_attempt i) h = g.attempts i h
Grows-Known xs ys g (Fact.has_case i p) h = g.cases i p h

is_attempt-Grows :
    (xs ys : Db) (o : Option ℕ) → Grows xs ys → is_attempt xs o ≡ true → is_attempt ys o ≡ true
is_attempt-Grows xs ys none g h = h
is_attempt-Grows xs ys (some i) g h = g.attempts i h

module _ (xs ys : Db) (g : Grows xs ys) where
  -- The foreign keys of unchanged rows.
  pub payments-Grows : (l : List Payment) → All (PaymentRefers xs) l → All (PaymentRefers ys) l
  payments-Grows l =
      All-map (PaymentRefers xs) (PaymentRefers ys) l (λ p h. g.customers p.customer_id h)

  pub cases-Grows : (l : List RecoveryCase) → All (CaseRefers xs) l → All (CaseRefers ys) l
  cases-Grows l =
      All-map (CaseRefers xs) (CaseRefers ys) l
        (λ c h. (g.payments c.payment_id h.0, g.customers c.customer_id h.1))

  pub attempts-Grows :
      (l : List RecoveryAttempt) → All (AttemptRefers xs) l → All (AttemptRefers ys) l
  attempts-Grows l =
      All-map (AttemptRefers xs) (AttemptRefers ys) l (λ a h. g.case_ids a.recovery_case_id h)

  pub decisions-Grows :
      (l : List RecoveryDecision) → All (DecisionRefers xs) l → All (DecisionRefers ys) l
  decisions-Grows l =
      All-map (DecisionRefers xs) (DecisionRefers ys) l (λ d h. g.case_ids d.recovery_case_id h)

  pub jobs-Grows : (l : List RecoveryJob) → All (JobRefers xs) l → All (JobRefers ys) l
  jobs-Grows l =
      All-map (JobRefers xs) (JobRefers ys) l
        (λ j h. (g.case_ids j.recovery_case_id h.0, is_attempt-Grows xs ys j.attempt_id g h.1))

pub case_known :
    (i p : ℕ) (l : List RecoveryCase)
    → exists (is_case_of i p) l ≡ true
    → exists (case_has_id i) l ≡ true
unfolding exists
case_known i p [] h = h
case_known i p (c ∷ l) h = ground (arith, h, case_known i p l)

pub new_row :
    {A : Type 0} (q : A → Bool) (l : List A) (x : A) → q x ≡ true → exists q (l ++ x ∷ []) ≡ true
unfolding exists
new_row q [] x h = ground (arith, h)
new_row q (y ∷ l) x h = ground (arith, new_row q l x h)

-- A table whose rows no foreign key names.
pub same_rows :
    (db : Db) (decisions : List RecoveryDecision) (jobs : List RecoveryJob)
    → Grows db (record db { decisions = decisions; jobs = jobs })
same_rows db decisions jobs = record {
  customers = λ i h. h;
  payments = λ i h. h;
  cases = λ i p h. h;
  case_ids = λ i h. h;
  attempts = λ i h. h;
}
