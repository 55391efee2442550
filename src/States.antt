-- ===== src/States.antt =====
-- app/domain/recovery/states.py: the enumerations of the states, and the tests on them that the
-- services write out as tuples or lists of members. `OPEN` is `opened`, since `open` is reserved.
use razor_pay.Prelude.{String, Bool, true, false}

pub data SubscriptionState : Type 0 where
  active past_due cancelled recovered : SubscriptionState

pub data PaymentState : Type 0 where
  pending succeeded failed recovery_pending recovered abandoned : PaymentState

pub data RecoveryState : Type 0 where
  opened decision_pending action_scheduled action_executing : RecoveryState
  recovered escalated stopped : RecoveryState

pub data AttemptState : Type 0 where
  scheduled running succeeded failed cancelled ambiguous : AttemptState

pub data JobState : Type 0 where
  pending running succeeded failed cancelled : JobState

-- The values of the members: a member of such an enumeration equals another as its text does.
abbrev pub subscription_value : SubscriptionState → String
subscription_value SubscriptionState.active = "ACTIVE"
subscription_value SubscriptionState.past_due = "PAST_DUE"
subscription_value SubscriptionState.cancelled = "CANCELLED"
subscription_value SubscriptionState.recovered = "RECOVERED"

abbrev pub payment_value : PaymentState → String
payment_value PaymentState.pending = "PENDING"
payment_value PaymentState.succeeded = "SUCCEEDED"
payment_value PaymentState.failed = "FAILED"
payment_value PaymentState.recovery_pending = "RECOVERY_PENDING"
payment_value PaymentState.recovered = "RECOVERED"
payment_value PaymentState.abandoned = "ABANDONED"

abbrev pub recovery_value : RecoveryState → String
recovery_value RecoveryState.opened = "OPEN"
recovery_value RecoveryState.decision_pending = "DECISION_PENDING"
recovery_value RecoveryState.action_scheduled = "ACTION_SCHEDULED"
recovery_value RecoveryState.action_executing = "ACTION_EXECUTING"
recovery_value RecoveryState.recovered = "RECOVERED"
recovery_value RecoveryState.escalated = "ESCALATED"
recovery_value RecoveryState.stopped = "STOPPED"

abbrev pub attempt_value : AttemptState → String
attempt_value AttemptState.scheduled = "SCHEDULED"
attempt_value AttemptState.running = "RUNNING"
attempt_value AttemptState.succeeded = "SUCCEEDED"
attempt_value AttemptState.failed = "FAILED"
attempt_value AttemptState.cancelled = "CANCELLED"
attempt_value AttemptState.ambiguous = "AMBIGUOUS"

abbrev pub job_value : JobState → String
job_value JobState.pending = "PENDING"
job_value JobState.running = "RUNNING"
job_value JobState.succeeded = "SUCCEEDED"
job_value JobState.failed = "FAILED"
job_value JobState.cancelled = "CANCELLED"

-- `status == PaymentState.SUCCEEDED`
abbrev pub is_succeeded : PaymentState → Bool
is_succeeded PaymentState.succeeded = true
is_succeeded _ = false

-- `status in (PaymentState.SUCCEEDED, PaymentState.ABANDONED)`
abbrev pub is_terminal : PaymentState → Bool
is_terminal PaymentState.succeeded = true
is_terminal PaymentState.abandoned = true
is_terminal _ = false

-- `status NOT IN ('RECOVERED', 'ESCALATED', 'STOPPED')`
abbrev pub is_active : RecoveryState → Bool
is_active RecoveryState.recovered = false
is_active RecoveryState.escalated = false
is_active RecoveryState.stopped = false
is_active _ = true

-- `status == RecoveryState.RECOVERED`
abbrev pub is_recovered : RecoveryState → Bool
is_recovered RecoveryState.recovered = true
is_recovered _ = false

-- `status in (AttemptState.AMBIGUOUS, AttemptState.RUNNING)`
abbrev pub is_unresolved : AttemptState → Bool
is_unresolved AttemptState.ambiguous = true
is_unresolved AttemptState.running = true
is_unresolved _ = false

-- `status == JobState.PENDING`
abbrev pub is_pending : JobState → Bool
is_pending JobState.pending = true
is_pending _ = false

-- `status == JobState.RUNNING`
abbrev pub is_running : JobState → Bool
is_running JobState.running = true
is_running _ = false
