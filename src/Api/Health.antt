-- ===== src/Api/Health.antt =====
-- app/api/routes/health.py: the two routes, with the query "SELECT 1" as a parameter.
use razor_pay.Prelude.{String, ◌≡◌, ◌⊎◌, arith}
use razor_pay.Errors.{ok, err, http}
use razor_pay.Session.{World, Action, pure, raise, catch, ◌>>=◌, ◌>>◌}

-- `HealthResponse`
record HealthResponse : Type 0 where
  pub status : String

health_check : Action HealthResponse
health_check = pure (record { status = "ok" })

readiness_check : Action Unit → Action HealthResponse
readiness_check execute =
    catch (execute >> pure (record { status = "ready" })) (λ e. raise (http 503))

-- Whatever the query does, the answer is that the service is ready or 503.
readiness_check-answers :
    (execute : Action Unit) (w : World)
    → ((readiness_check execute w).0 ≡ ok (record { status = "ready" }))
      ⊎ ((readiness_check execute w).0 ≡ err (http 503))
unfolding readiness_check catch pure raise ◌>>=◌
readiness_check-answers execute w = ground arith
