-- ===== src/Machine.antt =====
-- app/domain/recovery/state_machine.py: the tables of allowed transitions, and their check.
pub mod Reach
use text.Mathlib.Text.{◌==◌ as str_eq}
use razor_pay.Prelude.{String, Bool, true, List, [], ◌∷◌, exists, if◌then◌else◌}
use razor_pay.Errors.{Result, ok, err, invalid_state_transition}
use razor_pay.States.{PaymentState, RecoveryState, AttemptState}

unfoldable pub recovery_case_transitions : RecoveryState → List RecoveryState
recovery_case_transitions RecoveryState.opened =
    RecoveryState.decision_pending ∷ RecoveryState.stopped ∷ []
recovery_case_transitions RecoveryState.decision_pending =
    RecoveryState.action_scheduled ∷ RecoveryState.stopped ∷ RecoveryState.escalated ∷ []
recovery_case_transitions RecoveryState.action_scheduled =
    RecoveryState.action_executing ∷ RecoveryState.stopped ∷ RecoveryState.decision_pending ∷ []
recovery_case_transitions RecoveryState.action_executing =
    RecoveryState.recovered ∷ RecoveryState.decision_pending ∷ RecoveryState.stopped
    ∷ RecoveryState.escalated ∷ []
recovery_case_transitions RecoveryState.recovered = []
recovery_case_transitions RecoveryState.escalated = []
recovery_case_transitions RecoveryState.stopped = []

unfoldable pub attempt_transitions : AttemptState → List AttemptState
attempt_transitions AttemptState.scheduled = AttemptState.running ∷ AttemptState.cancelled ∷ []
attempt_transitions AttemptState.running =
    AttemptState.succeeded ∷ AttemptState.failed ∷ AttemptState.ambiguous ∷ []
attempt_transitions AttemptState.ambiguous =
    AttemptState.succeeded ∷ AttemptState.failed ∷ AttemptState.running ∷ []
attempt_transitions AttemptState.succeeded = []
attempt_transitions AttemptState.failed = []
attempt_transitions AttemptState.cancelled = []

unfoldable pub payment_transitions : PaymentState → List PaymentState
payment_transitions PaymentState.pending = PaymentState.succeeded ∷ PaymentState.failed ∷ []
payment_transitions PaymentState.failed =
    PaymentState.recovery_pending ∷ PaymentState.abandoned ∷ []
payment_transitions PaymentState.recovery_pending =
    PaymentState.recovered ∷ PaymentState.abandoned ∷ []
payment_transitions PaymentState.recovered = []
payment_transitions PaymentState.succeeded = []
payment_transitions PaymentState.abandoned = []

-- A transition is allowed if the table lists it. `value` tells the members apart.
unfoldable pub validate_transition :
    {S : Type 0} → (S → String) → S → S → (S → List S) → Result Bool
validate_transition value current_state next_state transitions_map =
    if exists (λ s. str_eq (value s) (value next_state)) (transitions_map current_state)
    then ok true
    else err invalid_state_transition
