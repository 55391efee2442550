-- ===== src/Settings.antt =====
-- app/config/settings.py: reading the environment, and the checks at start-up. A timeout is a float.
use text.Mathlib.Text.{◌==◌ as str_eq}
use razor_pay.Prelude.{◌≡◌, String, true, false, Option, none, some, arith, if◌then◌else◌, ◌||◌}
use razor_pay.Errors.{Result, ok, err, improperly_configured, value_error}
use razor_pay.Floats.{Float, fge, flt, is_nan, seconds, flt-fge}

unfoldable pub validate_timeouts : Float → Float → Float → Result (Unit {0})
validate_timeouts gateway_timeout lease_timeout ai_timeout =
    if fge gateway_timeout lease_timeout
    then err improperly_configured
    else if fge ai_timeout lease_timeout
    then err improperly_configured
    else ok tt

-- The key of the administrator, which must be set and not blank; `strip` is `str.strip`.
unfoldable pub load_admin_key : (String → String) → Option String → Result String
load_admin_key strip none = err improperly_configured
load_admin_key strip (some key) =
    if str_eq key "" || str_eq (strip key) "" then err improperly_configured else ok key

infixl 5 ◌>>=◌ ◌>>◌
unfoldable pub ◌>>=◌ : {A B : Type 0} → Result A → (A → Result B) → Result B
err e >>= f = err e
ok a >>= f = f a

abbrev ◌>>◌ : {A B : Type 0} → Result A → Result B → Result B
m >> k = m >>= λ _. k

-- The constants of the module.
pub record Settings : Type 0 where
  pub gateway_http_timeout : Float
  pub worker_poll_interval : Float
  pub worker_lease_timeout : Float
  pub ai_timeout : Float
  pub ai_provider : String
  pub ai_base_url : String
  pub ai_model : String
  pub ai_api_key : String
  pub admin_api_key : String
  pub log_level : String
  pub log_format : String

-- What the check of a timeout against the lease achieves.
abbrev pub IsBelow : Float → Float → Type 0
IsBelow t lease = flt t lease || (is_nan t || is_nan lease) ≡ true

-- `os.environ` is an argument, `strip` is `str.strip`, and `float` is the builtin, and none
-- where it raises a ValueError.
module _ (environ : String → Option String) (strip : String → String)
    (float : String → Option Float) where
  -- `os.environ.get(name, default)`
  abbrev pub env_get : String → String → String
  env_get name default = elim (environ name) [ some text ↦ text | none ↦ default ]

  -- `float(os.environ.get(name, default))`
  unfoldable pub env_float : String → Float → Result Float
  env_float name default = elim (environ name) [
    | none ↦ ok default
    | some text ↦ elim (float text) [ some t ↦ ok t | none ↦ err value_error ]
  ]

  -- The module, from its first line to its last.
  unfoldable pub load_settings : Result Settings
  load_settings = do
    gateway_http_timeout ← env_float "GATEWAY_HTTP_TIMEOUT" (seconds 30)
    worker_poll_interval ← env_float "WORKER_POLL_INTERVAL" (seconds 5)
    worker_lease_timeout ← env_float "WORKER_LEASE_TIMEOUT" (seconds 60)
    ai_timeout ← env_float "AI_TIMEOUT" (seconds 10)
    validate_timeouts gateway_http_timeout worker_lease_timeout ai_timeout
    admin_api_key ← load_admin_key strip (environ "ADMIN_API_KEY")
    ok (record {
      gateway_http_timeout = gateway_http_timeout;
      worker_poll_interval = worker_poll_interval;
      worker_lease_timeout = worker_lease_timeout;
      ai_timeout = ai_timeout;
      ai_provider = env_get "AI_PROVIDER" "openrouter";
      ai_base_url = env_get "AI_BASE_URL" "https://openrouter.ai/api/v1";
      ai_model = env_get "AI_MODEL" "nvidia/nemotron-3.5-lightning:free";
      ai_api_key = env_get "AI_API_KEY" "dummy-key";
      admin_api_key = admin_api_key;
      log_level = env_get "LOG_LEVEL" "INFO";
      log_format = env_get "LOG_FORMAT" "json";
    })

  -- A start-up that ends without an error has timeouts that are less than the lease, unless one of the
  -- two is NaN; and the administrator's key is the one of the environment, not empty and not blank.
  pub load_settings-IsSound :
      {s : Settings}
      → load_settings ≡ ok s
      → IsBelow s.gateway_http_timeout s.worker_lease_timeout
        × IsBelow s.ai_timeout s.worker_lease_timeout
        × (environ "ADMIN_API_KEY" ≡ some s.admin_api_key)
        × (str_eq s.admin_api_key "" ≡ false)
        × (str_eq (strip s.admin_api_key) "" ≡ false)
  unfolding load_settings env_float validate_timeouts load_admin_key ◌>>=◌
  load_settings-IsSound {s} h =
      let gateway = flt-fge s.gateway_http_timeout s.worker_lease_timeout in
      let ai = flt-fge s.ai_timeout s.worker_lease_timeout in ground arith
