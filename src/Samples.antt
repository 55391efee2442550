-- ===== src/Samples.antt =====
-- Sample surroundings, tables and events for the tests.
use razor_pay.Prelude.{◌-ℤ◌, ◌+◌, pos, true, false, Option, none, some, List, [], ◌∷◌, first}
use razor_pay.States.{PaymentState, RecoveryState, JobState}
use razor_pay.Models.{Customer, Payment, RecoveryCase, RecoveryJob, JobType, IdempotencyRecord, Db}
use razor_pay.Gateway.{Gateway}
use razor_pay.Session.{Env, World}
use razor_pay.Webhooks.{WebhookEvent}
use razor_pay.Floats.{Float, FloatOps, nan, finite, nought}
use razor_pay.System.{Request, webhook, begin_job}

abbrev pub customer : Customer
customer = record { id = 7; external_id = "cust"; email = "a@b.c"; name = "A" }

abbrev pub paid : Payment
paid = record {
  id = 1;
  external_id = "pay_1";
  customer_id = 7;
  amount = pos 500000;
  currency = "USD";
  status = PaymentState.succeeded;
}

abbrev pub unpaid : Payment
unpaid = record paid { id = 2; external_id = "pay_2"; status = PaymentState.failed }

abbrev pub open_case : RecoveryCase
open_case = record {
  id = 20;
  payment_id = 2;
  customer_id = 7;
  amount_at_risk = pos 500000;
  currency = "USD";
  status = RecoveryState.opened;
  failure_reason = some "card_declined";
  max_attempts = 3;
  started_at = 0;
  created_at = 0;
}

abbrev pub stopped_case : RecoveryCase
stopped_case = record open_case { id = 21; status = RecoveryState.stopped }

abbrev pub job : RecoveryJob
job = record {
  id = 30;
  recovery_case_id = 20;
  attempt_id = none;
  job_type = JobType.evaluate_recovery;
  payload = [];
  status = JobState.pending;
  scheduled_for = 0;
  available_at = 0;
  attempt_count = 0;
  max_attempts = 3;
  locked_at = none;
  locked_by = none;
  last_error = none;
}

abbrev pub key : IdempotencyRecord
key = record { idempotency_key = "evt_1"; request_hash = "N/A"; response_status = 200 }

abbrev pub db : Db
db = record {
  customers = customer ∷ [];
  payments = paid ∷ unpaid ∷ [];
  cases = open_case ∷ stopped_case ∷ [];
  attempts = [];
  decisions = [];
  jobs = job ∷ [];
  keys = key ∷ [];
  audits = [];
}

abbrev pub no_charges : Gateway
no_charges = record { receipts = []; behaviors = ("k", "timeout_success") ∷ [] }

abbrev pub world : World
world = record {
  saved = db;
  db = db;
  refused = none;
  correlation = "cid";
  drawn = 0;
  gateway = no_charges;
}

unfoldable pub pick_first : List RecoveryJob → Option RecoveryJob
unfolding first
pick_first jobs = first (λ j. true) jobs

abbrev pub env : Env
env = record {
  now = 1000000000;
  uuid4 = λ n. n + 100;
  uuid_text = λ n. "uuid";
  is_uuid = λ t. false;
  upper = λ s. s;
  round = λ a. a.units;
  lower = λ s. s;
  lease_timeout = 300;
  pick = pick_first;
}

abbrev pub event : WebhookEvent
event = record {
  event_id = "evt_2";
  type = "payment.failed";
  payment_id = "pay_1";
  customer_id = 7;
  amount = record { units = pos 500000; digits = [] };
  currency = "USD";
  failure_reason = none;
}

abbrev pub seen_event : WebhookEvent
seen_event = record event { event_id = "evt_1" }

abbrev pub other_amount : WebhookEvent
other_amount = record event { amount = record { units = pos 400000; digits = [] } }

abbrev pub history : List (Env × Request)
history = (env, webhook event) ∷ (env, begin_job 5) ∷ (env, webhook seen_event) ∷ []

-- `a - b` where both are finite
unfoldable pub difference : Float → Float → Float
difference (finite a) (finite b) = finite (a -ℤ b)
difference a b = nan

-- Arithmetic that does not round; a quotient is not looked at.
abbrev pub exact : FloatOps
exact = record { float = finite; sub = difference; div = λ a b. a; int_div = λ a b. nought }
