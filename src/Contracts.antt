-- ===== src/Contracts.antt =====
-- app/ai/contracts.py: what the provider is asked and what it answers.
use razor_pay.Prelude.{ℕ, ℤ, String}

pub record DecisionContext : Type 0 where
  pub failure_reason : String
  pub attempt_count : ℕ
  pub days_since_failure : ℤ
  pub amount : ℤ
  pub currency : String

pub data ActionType : Type 0 where
  charge abort delay : ActionType

-- `confidence` is in ten-thousandths
pub record Decision : Type 0 where
  pub action : ActionType
  pub reason : String
  pub confidence : ℕ

abbrev pub action_text : ActionType → String
action_text ActionType.charge = "CHARGE"
action_text ActionType.abort = "ABORT"
action_text ActionType.delay = "DELAY"
