-- ===== src/Api/Routes.antt =====
-- app/api/routes/webhooks.py and app/api/routes/admin.py: the status of each answer, and the key
-- that the administrator's routes ask for.
use text.Mathlib.Text.{◌==◌ as str_eq}
use text.Mathlib.TextEquality.{eq_iff}
use razor_pay.Prelude.{
  ℕ, List, ◌≡◌, ◌≢◌, refl, String, Bool, true, Option, none, some, arith, is_negative, ◌||◌, not,
  if◌then◌else◌,
}
use razor_pay.Errors.{Error, Result, ok, err, http, immutable_attribute, invalid_financial_payload}
use razor_pay.Models.{RecoveryCase}
use razor_pay.States.{recovery_value}
use razor_pay.Session.{Env, World, Action, pure, raise, catch, ◌>>=◌, ◌>>◌}
use razor_pay.Webhooks.{WebhookEvent, is_supported, validate_financials, process_webhook}
use razor_pay.Admin.{get_recovery_case, stop_recovery_case, force_retry_case}
use razor_pay.Admin.Analytics.{CurrencyMetrics, get_recovery_analytics}
use razor_pay.Floats.{FloatOps}
use razor_pay.Api.Auth.{get_admin_user}

-- {"status": "ignored"} or {"status": "success"}
pub data WebhookReply : Type 0 where
  ignored success : WebhookReply

unfoldable pub is_supported_type : String → Bool
is_supported_type t = str_eq t "payment.failed" || str_eq t "payment.succeeded"

-- The two exceptions of a bad payload become 400, any other is the framework's.
abbrev pub webhook_error : Error → Error
webhook_error immutable_attribute = http 400
webhook_error invalid_financial_payload = http 400
webhook_error e = e

pub receive_payment_webhook : Env → WebhookEvent → Action WebhookReply
receive_payment_webhook env event =
    if not (is_supported_type event.type)
    then pure ignored
    else catch (process_webhook env event >> pure success) (λ e. raise (webhook_error e))

-- `AdminActionResponse`
pub record AdminActionResponse : Type 0 where
  pub status : String
  pub message : String
  pub case_id : ℕ
  pub case_status : String

pub record AnalyticsResponse : Type 0 where
  pub start_at : ℕ
  pub end_at : ℕ
  pub metrics_by_currency : List (String × CurrencyMetrics)

-- The dependency of the router runs before the route.
abbrev pub authorized : {A : Type 0} → Result String → Action A → Action A
authorized (ok user) m = m
authorized (err e) m = raise e

abbrev pub answer : String → RecoveryCase → AdminActionResponse
answer message case = record {
  status = "success";
  message = message;
  case_id = case.id;
  case_status = recovery_value case.status;
}

module _ (env : Env) (admin_api_key : String) (header : Option String) where
  pub get_case : ℕ → Action RecoveryCase
  get_case case_id =
      authorized (get_admin_user admin_api_key header) (get_recovery_case env case_id)

  pub stop_case : ℕ → Action AdminActionResponse
  stop_case case_id = authorized (get_admin_user admin_api_key header) (do
    case ← stop_recovery_case env case_id
    pure (answer "Recovery case stopped successfully" case))

  pub retry_case : ℕ → Action AdminActionResponse
  retry_case case_id = authorized (get_admin_user admin_api_key header) (do
    case ← force_retry_case env case_id
    pure (answer "Recovery case retry queued successfully" case))

  -- The route of the analytics; `isoformat` writes a time.
  pub recovery_analytics : FloatOps → (ℕ → String) → ℕ → ℕ → Action AnalyticsResponse
  recovery_analytics ops isoformat start_at end_at =
      authorized (get_admin_user admin_api_key header) (do
        metrics ← get_recovery_analytics ops env isoformat start_at end_at
        pure (record { start_at = start_at; end_at = end_at; metrics_by_currency = metrics }))

-- 401 without a key, 403 with another one.
abbrev pub denial : Option String → Error
denial none = http 401
denial (some key) = if str_eq key "" then http 401 else http 403

denied :
    (admin_api_key : String) (header : Option String)
    → header ≢ some admin_api_key
    → get_admin_user admin_api_key header ≡ err (denial header)
unfolding get_admin_user
denied admin_api_key none wrong = refl
denied admin_api_key (some key) wrong = ground (arith, eq_iff key "", eq_iff key admin_api_key)

-- A request that does not bring the administrator's key is denied on every route, with 401 if there
-- is no key and 403 if there is another, and neither the tables nor anything else has changed.
pub routes_need_key :
    (env : Env) (admin_api_key : String) (header : Option String) (case_id : ℕ) (ops : FloatOps)
    (isoformat : ℕ → String) (start_at end_at : ℕ) (w : World)
    → header ≢ some admin_api_key
    → (get_case env admin_api_key header case_id w ≡ (err (denial header), w))
      × (stop_case env admin_api_key header case_id w ≡ (err (denial header), w))
      × (retry_case env admin_api_key header case_id w ≡ (err (denial header), w))
      × (recovery_analytics env admin_api_key header ops isoformat start_at end_at w
          ≡ (err (denial header), w))
unfolding get_case stop_case retry_case recovery_analytics raise
routes_need_key env admin_api_key header case_id ops isoformat start_at end_at w wrong =
    let no = denied admin_api_key header wrong in (rw no, rw no, rw no, rw no)

-- An event of another type is ignored, and an event of a supported type with a negative amount or
-- a currency that is not supported is answered by 400; neither changes anything.
pub receive_payment_webhook-refuses :
    (env : Env) (event : WebhookEvent) (w : World)
    → not (is_supported_type event.type)
        || (is_negative event.amount.units || not (is_supported (env.upper event.currency)))
      ≡ true
    → receive_payment_webhook env event w
      ≡ ((if is_supported_type event.type then err (http 400) else ok ignored), w)
unfolding receive_payment_webhook process_webhook validate_financials ◌>>=◌
receive_payment_webhook-refuses env event w bad = ground arith
