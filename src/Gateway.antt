-- ===== src/Gateway.antt =====
-- app/integrations/payment_gateway/mock_client.py: the gateway's store and its simulated behaviour.
-- The lock makes each call atomic; the UUID of a transaction is an argument.
pub mod Charges
pub mod Ledger
use text.Mathlib.Text.{◌==◌ as str_eq}
use razor_pay.Prelude.{ℕ, ℤ, String, Bool, Option, none, some, List, [], ◌∷◌, if◌then◌else◌}
use razor_pay.Errors.{Result, ok, err, gateway_timeout}

-- the values that `result["status"]` takes
pub data ChargeStatus : Type 0 where
  succeeded failed not_found : ChargeStatus

pub record Receipt : Type 0 where
  pub status : ChargeStatus
  pub transaction_id : Option ℕ

pub record Gateway : Type 0 where
  pub receipts : List (String × Receipt)
  pub behaviors : List (String × String)

-- `d.get(key)`
module _ {V : Type 0} where
  unfoldable pub lookup : String → List (String × V) → Option V
  lookup key [] = none
  lookup key ((k, v) ∷ d) = if str_eq k key then some v else lookup key d

  -- `d[key] = value`
  unfoldable pub insert : String → V → List (String × V) → List (String × V)
  insert key v [] = (key, v) ∷ []
  insert key v ((k, u) ∷ d) = if str_eq k key then (k, v) ∷ d else (k, u) ∷ insert key v d

abbrev pub get_or : {V : Type 0} → Option V → V → V
get_or none d = d
get_or (some v) d = v

pub reset : Gateway → Gateway
reset g = record { receipts = []; behaviors = [] }

pub set_behavior : String → String → Gateway → Gateway
set_behavior key behavior g = record g { behaviors = insert key behavior g.behaviors }

abbrev stored : String → Receipt → Gateway → Gateway
stored key r g = record g { receipts = insert key r g.receipts }

abbrev receipt : ChargeStatus → ℕ → Receipt
receipt status id = record { status = status; transaction_id = some id }

-- The first charge under a key: what is simulated decides.
unfoldable pub charge_new : String → String → ℕ → Gateway → Result Receipt × Gateway
charge_new behavior key id g =
    if str_eq behavior "timeout_drop"
    then (err gateway_timeout, g)
    else if str_eq behavior "timeout_success"
    then (err gateway_timeout, stored key (receipt ChargeStatus.succeeded id) g)
    else (let status =
          if str_eq behavior "success" then ChargeStatus.succeeded else ChargeStatus.failed in
        (ok (receipt status id), stored key (receipt status id) g))

-- `charge`: the amount, the currency and the source go to the gateway and are not read by the mock.
unfoldable pub charge : ℕ → String → ℤ → String → ℕ → Gateway → Result Receipt × Gateway
unfolding charge_new
charge id key amount currency source_id g = elim (lookup key g.receipts) [
  | some r ↦ (ok r, g)
  | none ↦ charge_new (get_or (lookup key g.behaviors) "success") key id g
]

unfoldable pub verify_payment_status : String → Gateway → Receipt
verify_payment_status key g =
    get_or (lookup key g.receipts)
      (record { status = ChargeStatus.not_found; transaction_id = none })
