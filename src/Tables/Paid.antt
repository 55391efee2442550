-- ===== src/Tables/Paid.antt =====
-- A payment that has succeeded: which writes to the tables keep it so.
use razor_pay.Prelude.{
  ℕ, ◌≡◌, ◌≢◌, refl, ◌∙◌, subst, true, false, none, [], ◌∷◌, arith, All, All-append, All-change,
  exists, exists-append, exists-change,
}
use razor_pay.States.{PaymentState}
use razor_pay.Models.{Payment, Db}
use razor_pay.Session.Keeps.{Keeps}
use razor_pay.Tables.{payment_has_id, payment_conflict, add_payment, set_payment_status}
use razor_pay.Tables.Rules.{Keeps-add_payment, Keeps-set_payment_status}

-- There is a payment with the id `i`, and every row with that id has succeeded.
abbrev pub IsPaid : ℕ → Db → Type 0
IsPaid i db =
    (exists (payment_has_id i) db.payments ≡ true)
    × All (λ (p : Payment). p.id ≡ i → p.status ≡ PaymentState.succeeded) db.payments

-- The database takes no second row with an id.
pub payment_conflict-fresh :
    (r : Payment) (db : Db)
    → payment_conflict r db ≡ none
    → exists (payment_has_id r.id) db.payments ≡ false
payment_conflict-fresh r db free = ground arith

module _ (i : ℕ) where
  -- A row that the database takes has another id.
  pub Keeps-add_payment-IsPaid : (r : Payment) → Keeps (IsPaid i) (add_payment r)
  Keeps-add_payment-IsPaid r = Keeps-add_payment r λ db free h. (
    exists-append (payment_has_id i) db.payments (r ∷ []) h.0,
    All-append _ db.payments (r ∷ []) h.1 (
      (λ e.
          let new : exists (payment_has_id i) db.payments ≡ false =
            subst (λ k. exists (payment_has_id k) db.payments ≡ false) e
              (payment_conflict-fresh r db free) in
          cc (h.0)),
      tt,
    ),
  )

  -- Success is written over success, and any other state over another payment.
  pub Keeps-set_succeeded : (j : ℕ) → Keeps (IsPaid i) (set_payment_status j PaymentState.succeeded)
  Keeps-set_succeeded j = Keeps-set_payment_status j PaymentState.succeeded λ db h. (
    exists-change (payment_has_id j) (payment_has_id i) _ db.payments (λ x. refl) ∙ h.0,
    All-change _ (payment_has_id j) _ db.payments (λ p e k same. refl) h.1,
  )

  pub Keeps-set_other :
      (j : ℕ) (status : PaymentState) → j ≢ i → Keeps (IsPaid i) (set_payment_status j status)
  Keeps-set_other j status other = Keeps-set_payment_status j status λ db h. (
    exists-change (payment_has_id j) (payment_has_id i) _ db.payments (λ x. refl) ∙ h.0,
    All-change _ (payment_has_id j) _ db.payments (λ p e k same. absurd (other (ground arith))) h.1,
  )
