-- ===== src/Api/Auth.antt =====
-- app/api/dependencies/auth.py: the key in the header `X-Admin-API-Key`.
use text.Mathlib.Text.{◌==◌ as str_eq}
use text.Mathlib.TextEquality.{eq_iff}
use razor_pay.Prelude.{◌≡◌, ◌≢◌, ◌↔◌, refl, String, Option, none, some, arith, not, if◌then◌else◌}
use razor_pay.Errors.{Result, ok, err, http}
use razor_pay.Settings.{load_admin_key}

-- `admin_api_key` is `ADMIN_API_KEY` of the settings; a missing header is `None`.
unfoldable pub get_admin_user : String → Option String → Result String
get_admin_user admin_api_key none = err (http 401)
get_admin_user admin_api_key (some api_key) =
    if str_eq api_key ""
    then err (http 401)
    else if not (str_eq api_key admin_api_key)
    then err (http 403)
    else ok "admin"

-- With a key that the settings accept, a request is let in exactly if its header holds that key;
-- a request with no header or an empty one is answered by 401, and one with another key by 403.
pub get_admin_user-exact :
    (strip : String → String) (setting : Option String) (admin_api_key : String)
    → load_admin_key strip setting ≡ ok admin_api_key
    → (header : Option String)
    → ((get_admin_user admin_api_key header ≡ ok "admin") ↔ (header ≡ some admin_api_key))
      × (get_admin_user admin_api_key none ≡ err (http 401))
      × (get_admin_user admin_api_key (some "") ≡ err (http 401))
      × ((key : String)
          → key ≢ ""
          → key ≢ admin_api_key
          → get_admin_user admin_api_key (some key) ≡ err (http 403))
unfolding get_admin_user load_admin_key
get_admin_user-exact strip none admin_api_key valid header = cc
get_admin_user-exact strip (some setting) admin_api_key valid none = (
  ((λ h. cc), (λ h. cc)),
  refl,
  refl,
  λ key full other. ground (arith, eq_iff key "", eq_iff key admin_api_key),
)
get_admin_user-exact strip (some setting) admin_api_key valid (some header) = (
  (
    (λ h. ground (arith, eq_iff header admin_api_key)),
    (λ h. ground (arith, eq_iff header admin_api_key, eq_iff setting "", eq_iff header "")),
  ),
  refl,
  refl,
  λ key full other. ground (arith, eq_iff key "", eq_iff key admin_api_key),
)
