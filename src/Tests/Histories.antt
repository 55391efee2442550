-- ===== src/Tests/Histories.antt =====
-- A history of requests from the sample tables.
use razor_pay.Prelude.{◌≤◌, true, refl, arith, List, [], ◌∷◌, All, select, exists, first, change}
use razor_pay.Prelude.Distinct.{Distinct, count}
use razor_pay.Session.{Env, World}
use razor_pay.Session.Keeps.{Holds}
use razor_pay.Contracts.{Decision, ActionType}
use razor_pay.Session.{
  pure, raise, gets, or_raise, catch, modify, write, flush, commit, rollback, begin_after,
  draw_uuid, ◌>>=◌,
}
use razor_pay.Gateway.{lookup}
use razor_pay.Tables.{change_job}
use razor_pay.Claims.{claim_job, claim_found, is_claimable}
use razor_pay.Worker.Evaluate.{begin_evaluate}
use razor_pay.Worker.Lease.{load_case}
use razor_pay.Budget.Types.{IsTyped}
use razor_pay.Budget.{IsNumbered, same_number}
use razor_pay.System.{
  Request, begin_job, end_evaluation, stop_case, webhook, run, serve, begin_next, begin_claimed,
  begin_typed,
}
use razor_pay.Consistency.{Consistent}
use razor_pay.System.Consistency.{run-Consistent}
use razor_pay.System.Budget.{History, start, next, Budget, is_of, History-three_attempts}
use razor_pay.Tests.Edges.{IsPick-first}
use razor_pay.Samples.{db, world, env, event, pick_first}

Budget-Holds : Holds Budget world
unfolding exists
Budget-Holds =
    let fits : Budget db = record {
      budget = ((refl, omega arith, (λ e. omega arith), (λ e. refl)), tt);
      ids = (refl, tt);
      numbers = tt;
      apart = tt;
    } in
    record { saved = fits; db = fits }

abbrev claimed_world : World
claimed_world = (serve env (begin_job 5) world).1

claimed-IsTyped : IsTyped true 30 claimed_world.saved.jobs claimed_world.saved.attempts
unfolding serve begin_next begin_claimed begin_typed claim_job claim_found pick_first is_claimable
    begin_evaluate load_case pure raise gets or_raise catch modify write flush commit rollback
    begin_after draw_uuid ◌>>=◌ change_job exists first select change lookup
claimed-IsTyped = (refl, ((λ e. refl), tt))

-- The provider says that the payment is to be charged again.
abbrev answer : Decision
answer = record { action = ActionType.charge; reason = "retry"; confidence = 9000 }

abbrev decided : World
decided = (serve env (end_evaluation 5 30 answer) claimed_world).1

abbrev charging_world : World
charging_world = (serve env (begin_job 6) decided).1

-- A worker claims the job and acts on the decision, another one begins the charge, and a webhook comes in.
abbrev day : History world (serve env (webhook event) charging_world).1
day =
    next env (webhook event)
      (next env (begin_job 6)
        (next env (end_evaluation 5 30 answer) (next env (begin_job 5) start IsPick-first tt)
          IsPick-first claimed-IsTyped)
        IsPick-first tt)
      IsPick-first tt

History-three_attempts_example :
    let t = (serve env (webhook event) charging_world).1 in
    (count (is_of 20) t.saved.attempts ≤ 3)
    × All IsNumbered t.saved.attempts
    × Distinct same_number t.saved.attempts
    × Budget t.saved
History-three_attempts_example = History-three_attempts 20 Budget-Holds day

Consistent-Holds : Holds Consistent world
unfolding exists
Consistent-Holds =
    let fits : Consistent db = record {
      ids = (refl, (refl, tt));
      active = (refl, (refl, tt));
      payments = (refl, (refl, tt));
      cases = ((refl, refl), ((refl, refl), tt));
      attempts = tt;
      decisions = tt;
      jobs = ((refl, refl), tt);
    } in
    record { saved = fits; db = fits }

abbrev requests : List (Env × Request)
requests =
    (env, begin_job 5)
    ∷ (env, end_evaluation 5 30 answer)
    ∷ (env, webhook event)
    ∷ (env, begin_job 6)
    ∷ (env, stop_case 20)
    ∷ []

run-Consistent_example : Holds Consistent (run requests world)
run-Consistent_example = run-Consistent requests world Consistent-Holds
