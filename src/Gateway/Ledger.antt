-- ===== src/Gateway/Ledger.antt =====
-- What the gateway promises of any sequence of charges: under each key the first one decides.
use text.Mathlib.Text.{◌==◌ as str_eq}
use text.Mathlib.TextEquality.{eq_iff}
use mathlib.Core.Path.{fun_ext}
use razor_pay.Prelude.{
  ℕ, ℤ, ◌≡◌, refl, ◌∙◌, ap, String, Option, none, some, List, [], ◌∷◌, arith, if◌then◌else◌,
}
use razor_pay.Gateway.{ChargeStatus, Receipt, Gateway, lookup, get_or, charge, charge_new}
use razor_pay.Gateway.Charges.{lookup-insert}

-- A call of `charge`, with the UUID that it would draw.
pub record Call : Type 0 where
  pub id : ℕ
  pub key : String
  pub amount : ℤ
  pub currency : String
  pub source_id : ℕ

pub charge_all : List Call → Gateway → Gateway
charge_all [] g = g
charge_all (c ∷ calls) g = charge_all calls (charge c.id c.key c.amount c.currency c.source_id g).1

-- What the gateway does with the money of a first charge, and keeps a receipt of; a dropped charge
-- leaves none.
abbrev pub carried_out : String → ℕ → Option Receipt
carried_out behavior id =
    if str_eq behavior "timeout_drop"
    then none
    else if str_eq behavior "timeout_success"
    then some (record { status = ChargeStatus.succeeded; transaction_id = some id })
    else if str_eq behavior "success"
    then some (record { status = ChargeStatus.succeeded; transaction_id = some id })
    else some (record { status = ChargeStatus.failed; transaction_id = some id })

-- The abstract ledger gives each key one receipt for ever.
abbrev pub Ledger : Type 0
Ledger = String → Option Receipt

abbrev pub or_else : Option Receipt → Option Receipt → Option Receipt
or_else none o = o
or_else (some r) o = some r

-- The abstract charge: a key without a receipt gets what the charge has carried out.
abbrev pub ledger_charge : (String → String) → Call → Ledger → Ledger
ledger_charge behavior c ledger k =
    if str_eq c.key k then or_else (ledger k) (carried_out (behavior k) c.id) else ledger k

pub ledger_all : (String → String) → List Call → Ledger → Ledger
ledger_all behavior [] ledger = ledger
ledger_all behavior (c ∷ calls) ledger = ledger_all behavior calls (ledger_charge behavior c ledger)

abbrev pub ledger_of : Gateway → Ledger
ledger_of g k = lookup k g.receipts

abbrev pub behavior_of : Gateway → String → String
behavior_of g k = get_or (lookup k g.behaviors) "success"

charge-behaviors :
    (c : Call) (g : Gateway)
    → (charge c.id c.key c.amount c.currency c.source_id g).1.behaviors ≡ g.behaviors
unfolding charge charge_new
charge-behaviors c g = ground arith

charge-ledger :
    (c : Call) (g : Gateway) (k : String)
    → ledger_of (charge c.id c.key c.amount c.currency c.source_id g).1 k
      ≡ ledger_charge (behavior_of g) c (ledger_of g) k
unfolding charge charge_new
charge-ledger c g k = ground (
  arith,
  eq_iff c.key k,
  lookup-insert c.key k (record { status = ChargeStatus.succeeded; transaction_id = some c.id })
      g.receipts,
  lookup-insert c.key k (record { status = ChargeStatus.failed; transaction_id = some c.id })
      g.receipts,
)

-- After any sequence of charges the gateway has the receipts of the abstract ledger after the same
-- charges.
pub charge_all-refines :
    (calls : List Call) (g : Gateway) (k : String)
    → ledger_of (charge_all calls g) k ≡ ledger_all (behavior_of g) calls (ledger_of g) k
unfolding charge_all ledger_all
charge_all-refines [] g k = refl
charge_all-refines (c ∷ calls) g k =
    let g' : Gateway = (charge c.id c.key c.amount c.currency c.source_id g).1 in
    let same : behavior_of g' ≡ behavior_of g =
      ap (λ behaviors j. get_or (lookup j behaviors) "success") (charge-behaviors c g) in
    let one : ledger_of g' ≡ ledger_charge (behavior_of g) c (ledger_of g) =
      fun_ext (charge-ledger c g) in
    charge_all-refines calls g' k
    ∙ ap (λ b. ledger_all b calls (ledger_of g') k) same
    ∙ ap (λ ledger. ledger_all (behavior_of g) calls ledger k) one
