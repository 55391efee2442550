-- ===== src/Tests/Edges.antt =====
-- The properties of the gateway, the leases, the API, the tables of transitions and the audit
-- payloads at concrete inputs.
use razor_pay.Prelude.{
  ℕ, ℤ, ◌-ℤ◌, exists, ◌&&◌, ◌==◌, if◌then◌else◌, List, ◌+◌, ◌≡◌, refl, ◌↔◌, inl, pos, negsuc,
  String, true, false, Option, none, some, [], ◌∷◌, arith, ◌*◌, Among, select, is_empty, first,
}
use razor_pay.Errors.{ok, err, http}
use razor_pay.Json.{Json, Items, Fields}
use razor_pay.Models.{RecoveryJob}
use razor_pay.Gateway.{
  ChargeStatus, Receipt, Gateway, lookup, charge, charge_new, verify_payment_status,
}
use razor_pay.Gateway.Ledger.{
  Call, charge_all, ledger_of, ledger_all, behavior_of, charge_all-refines,
}
use razor_pay.Gateway.Charges.{charge_again, verify-timeout}
use razor_pay.Session.{Env, ◌>>=◌}
use razor_pay.Tables.{change_job}
use razor_pay.Webhooks.{WebhookEvent}
use razor_pay.Settings.{validate_timeouts}
use razor_pay.Claims.{claimed, is_claimable, claim_found, claim_job}
use razor_pay.Claims.Lease.{
  IsPick, IsFree, IsGranted, IsMonotone, claim_job-grants, validated-lease,
}
use razor_pay.Floats.{Float, nan, infinity, minus_infinity, finite, seconds, fge, flt}
use Prim.Native.Nat.{◌^◌}
use razor_pay.Api.Correlation.{Fits, request_correlation_id, request_correlation_id-Fits}
use razor_pay.Api.Routes.{get_case, stop_case, retry_case, recovery_analytics, routes_need_key}
use razor_pay.Audit.Scrub.{scrub_payload, scrub_fields}
use razor_pay.Audit.Scrub.Clean.{IsClean, names, scrub_payload-IsClean, scrub_payload-same}
use razor_pay.Samples.{exact, env, world, db, job, event, pick_first, no_charges}

abbrev receipt : Receipt
receipt = record { status = ChargeStatus.failed; transaction_id = some 4 }

abbrev charged : Gateway
charged = record no_charges { receipts = ("pay_2_attempt_1", receipt) ∷ [] }

charge_again_example :
    charge 6 "pay_2_attempt_1"
      (pos 20)
      "EUR"
      8
      (charge 5 "pay_2_attempt_1" (pos 10) "USD" 7 charged).1
    ≡ (ok receipt, (charge 5 "pay_2_attempt_1" (pos 10) "USD" 7 charged).1)
unfolding charge lookup
charge_again_example =
    charge_again 5 6 "pay_2_attempt_1" (pos 10) (pos 20) "USD" "EUR" 7 8 charged {r = receipt} refl

verify-timeout_example :
    (verify_payment_status "k" (charge 5 "k" (pos 10) "USD" 7 no_charges).1).status
    ≡ ChargeStatus.succeeded
unfolding charge lookup charge_new
verify-timeout_example = verify-timeout 5 "k" (pos 10) "USD" 7 no_charges refl refl

pub IsPick-first : IsPick env
unfolding pick_first first
IsPick-first [] j h = ground arith
IsPick-first (x ∷ l) j h = ground arith

abbrev later : Env
later = record env { now = env.now + 60; lease_timeout = 60000000 }

claim_job-grants_example :
    (j : RecoveryJob) × Among j db.jobs
    × IsFree env j
    × IsGranted env 5 j (claimed env 5 job)
    × ((claim_job env 5 world).1.saved ≡ db)
    × (exists
          (λ (r : RecoveryJob). r.id == j.id && is_claimable later r)
          (claim_job env 5 world).1.db.jobs
        ≡ false)
unfolding claim_job claim_found pick_first first select is_claimable ◌>>=◌ change_job
claim_job-grants_example =
    claim_job-grants env later 5 world IsPick-first refl (omega arith) {c = claimed env 5 job} refl

-- A longer time is at least as much.
fge-flt :
    (a b : Float) (c : ℤ)
    → flt a b ≡ true
    → fge a (Float.finite c) ≡ true
    → fge b (Float.finite c) ≡ true
unfolding flt fge ◌-ℤ◌
fge-flt nan b c h k = cc
fge-flt infinity b c h k = cc
fge-flt minus_infinity b c h k = cc
fge-flt (finite a) nan c h k = cc
fge-flt (finite a) infinity c h k = refl
fge-flt (finite a) minus_infinity c h k = cc
fge-flt (finite a) (finite b) c h k = ground arith

-- A `timedelta` that is rounded down to 0, 30 or 60 seconds.
unfoldable micros : Float → ℕ
micros t = if fge t (seconds 60) then 60000000 else if fge t (seconds 30) then 30000000 else 0

micros-IsMonotone : IsMonotone micros
unfolding micros seconds
micros-IsMonotone a b h =
    let sixty = fge-flt a b (pos (60 * 2 ^ 1074)) h in
    let thirty = fge-flt a b (pos (30 * 2 ^ 1074)) h in ground arith

validated-lease_example : is_claimable later (claimed env 5 job) ≡ false
unfolding validate_timeouts fge seconds micros ◌-ℤ◌
validated-lease_example =
    validated-lease micros env later 5 job (seconds 30) (seconds 60) (seconds 10) micros-IsMonotone
      (refl, refl, refl) refl refl (inl (omega arith))

abbrev header : Option String
header = some "key"

routes_need_key_example :
    (get_case env "key" none 20 world ≡ (err (http 401), world))
    × (stop_case env "key" none 20 world ≡ (err (http 401), world))
    × (retry_case env "key" none 20 world ≡ (err (http 401), world))
    × (recovery_analytics env "key" none exact (λ t. "time") 0 5 world ≡ (err (http 401), world))
routes_need_key_example =
    routes_need_key env "key" none 20 exact (λ t. "time") 0 5 world (λ e. ground arith)

abbrev bad_amount : WebhookEvent
bad_amount = record event { amount = record { units = negsuc 0; digits = [] } }

request_correlation_id-Fits_example :
    Fits 72 (request_correlation_id (65 ∷ []) (some (32 ∷ 66 ∷ 10 ∷ [])))
    × (is_empty (request_correlation_id (65 ∷ []) (some (32 ∷ 66 ∷ 10 ∷ []))) ≡ false)
request_correlation_id-Fits_example =
    request_correlation_id-Fits (65 ∷ []) (some (32 ∷ 66 ∷ 10 ∷ [])) ((refl, tt), omega arith) refl

abbrev calls : List Call
calls =
    record { id = 5; key = "k"; amount = pos 10; currency = "USD"; source_id = 7 }
    ∷ record { id = 6; key = "k"; amount = pos 20; currency = "USD"; source_id = 7 }
    ∷ []

charge_all-refines_example :
    ledger_of (charge_all calls charged) "k"
    ≡ ledger_all (behavior_of charged) calls (ledger_of charged) "k"
charge_all-refines_example = charge_all-refines calls charged "k"

abbrev payload : Json
payload =
    Json.arr
      (Items.cons (Json.obj (Fields.field "note" (Json.str "Bearer abc") Fields.end)) Items.nil)

-- Names that look like secrets themselves.
abbrev named : Fields
named = Fields.field "Bearer abc" (Json.num (pos 1)) (Fields.field "sk-1" (Json.str "x") Fields.end)

scrub_payload-IsClean_example :
    IsClean (λ s. s) (scrub_payload (λ s. s) payload)
    × (names (scrub_fields (λ s. s) named) ≡ "Bearer abc" ∷ "sk-1" ∷ [])
scrub_payload-IsClean_example = scrub_payload-IsClean (λ s. s) payload named

scrub_payload-same_example :
    ((scrub_payload (λ s. s) payload ≡ payload) ↔ IsClean (λ s. s) payload)
    × (scrub_payload (λ s. s) (scrub_payload (λ s. s) payload) ≡ scrub_payload (λ s. s) payload)
scrub_payload-same_example = scrub_payload-same (λ s. s) payload
