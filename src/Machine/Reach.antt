-- ===== src/Machine/Reach.antt =====
-- What the tables of transitions allow.
use razor_pay.Prelude.{◌≡◌, true, false, arith, ◌↔◌, exists}
use razor_pay.Errors.{ok}
use razor_pay.States.{PaymentState, RecoveryState, is_active, recovery_value, payment_value}
use razor_pay.Machine.{recovery_case_transitions, payment_transitions, validate_transition}

abbrev pub MayBecome : RecoveryState → RecoveryState → Type 0
MayBecome s t = validate_transition recovery_value s t recovery_case_transitions ≡ ok true

abbrev pub PaymentMayBecome : PaymentState → PaymentState → Type 0
PaymentMayBecome s t = validate_transition payment_value s t payment_transitions ≡ ok true

-- Transitions one after another.
pub data Reaches (s : RecoveryState) : RecoveryState → Type 0 where
  here : Reaches s s
  step : {t u : RecoveryState} → Reaches s t → MayBecome t u → Reaches s u

-- Every active state may become STOPPED, and no other state becomes anything.
pub active_stops :
    (s t : RecoveryState)
    → (is_active s ≡ true → MayBecome s RecoveryState.stopped)
      × (is_active s ≡ false → ¬ MayBecome s t)
unfolding validate_transition recovery_case_transitions exists
active_stops s t = ground arith

-- The last step of a run to RECOVERED.
into_recovered :
    (s : RecoveryState) → MayBecome s RecoveryState.recovered → s ≡ RecoveryState.action_executing
unfolding validate_transition recovery_case_transitions exists
into_recovered s h = ground arith

-- A case that reaches RECOVERED from OPEN by the table has been executing an action before.
pub recovered-executed :
    {t : RecoveryState}
    → Reaches RecoveryState.opened t
    → t ≡ RecoveryState.recovered
    → Reaches RecoveryState.opened RecoveryState.action_executing
recovered-executed here e = absurd (cc)
recovered-executed (step {t = u} r m) e =
    let last : u ≡ RecoveryState.action_executing = into_recovered u (rw e at m) in rw last at r

-- By the table a payment becomes SUCCEEDED from PENDING only.
pub succeeded-from_pending :
    (s : PaymentState) → PaymentMayBecome s PaymentState.succeeded ↔ (s ≡ PaymentState.pending)
unfolding validate_transition payment_transitions exists
succeeded-from_pending s = (λ h. ground arith, λ e. rw e)
