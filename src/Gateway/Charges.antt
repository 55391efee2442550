-- ===== src/Gateway/Charges.antt =====
-- The gateway charges under a key at most once.
use text.Mathlib.Text.{◌==◌ as str_eq}
use text.Mathlib.TextEquality.{eq_iff}
use razor_pay.Prelude.{ℕ, ℤ, ◌≡◌, refl, String, none, some, List, [], ◌∷◌, arith, if◌then◌else◌}
use razor_pay.Errors.{ok, err, gateway_timeout}
use razor_pay.Gateway.{
  ChargeStatus, Receipt, Gateway, lookup, insert, get_or, charge, verify_payment_status,
}

module _ {V : Type 0} where
  pub lookup-insert :
      (k j : String) (v : V) (d : List (String × V))
      → lookup j (insert k v d) ≡ (if str_eq k j then some v else lookup j d)
  unfolding lookup insert
  lookup-insert k j v [] = refl
  lookup-insert k j v ((i, u) ∷ d) =
      ground (arith, eq_iff k j, eq_iff i k, eq_iff i j, lookup-insert k j v d)

-- What a charge leaves under each key: the receipt that was there, and under its own key, if there
-- was none, what it has stored.
pub charge-keeps_receipt :
    (id : ℕ) (key other : String) (amount : ℤ) (currency : String) (source : ℕ) (g : Gateway)
    (r : Receipt)
    → lookup other g.receipts ≡ some r
    → lookup other (charge id key amount currency source g).1.receipts ≡ some r
unfolding charge
charge-keeps_receipt id key other amount currency source g r h = ground (
  arith,
  eq_iff key other,
  lookup-insert key other (record { status = ChargeStatus.succeeded; transaction_id = some id })
      g.receipts,
  lookup-insert key other (record { status = ChargeStatus.failed; transaction_id = some id })
      g.receipts,
)

-- A repeated charge returns the receipt of the first, whatever its amount, currency and source, and
-- changes nothing at the gateway.
pub charge_again :
    (id id' : ℕ) (key : String) (amount amount' : ℤ) (currency currency' : String)
    (source source' : ℕ) (g : Gateway) {r : Receipt}
    → (charge id key amount currency source g).0 ≡ ok r
    → let g' = (charge id key amount currency source g).1 in
      charge id' key amount' currency' source' g' ≡ (ok r, g')
unfolding charge
charge_again id id' key amount amount' currency currency' source source' g h = ground (
  arith,
  eq_iff key key,
  lookup-insert key key (record { status = ChargeStatus.succeeded; transaction_id = some id })
      g.receipts,
  lookup-insert key key (record { status = ChargeStatus.failed; transaction_id = some id })
      g.receipts,
)

-- After a charge that timed out under a new key, the status of the payment tells whether the
-- gateway has carried it out: it has exactly when the simulated behaviour is "timeout_success".
pub verify-timeout :
    (id : ℕ) (key : String) (amount : ℤ) (currency : String) (source : ℕ) (g : Gateway)
    → lookup key g.receipts ≡ none
    → (charge id key amount currency source g).0 ≡ err gateway_timeout
    → (verify_payment_status key (charge id key amount currency source g).1).status ≡ (
        if str_eq (get_or (lookup key g.behaviors) "success") "timeout_success"
        then ChargeStatus.succeeded
        else ChargeStatus.not_found)
unfolding charge verify_payment_status
verify-timeout id key amount currency source g new late = ground (
  arith,
  eq_iff key key,
  eq_iff "timeout_drop" "timeout_success",
  eq_iff (get_or (lookup key g.behaviors) "success") "timeout_drop",
  eq_iff (get_or (lookup key g.behaviors) "success") "timeout_success",
  lookup-insert key key (record { status = ChargeStatus.succeeded; transaction_id = some id })
      g.receipts,
)
