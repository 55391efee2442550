-- ===== src/Tests/Charges.antt =====
-- The properties of an attempt to charge at concrete inputs.
use razor_pay.Prelude.{◌≡◌, refl, [], ◌∷◌, exists, first}
use razor_pay.Errors.{err, integrity, attempt_number}
use razor_pay.States.{AttemptState}
use razor_pay.Models.{Db}
use razor_pay.Session.{World}
use razor_pay.Claims.{claimed}
use razor_pay.Worker.Execute.{begin_charge}
use razor_pay.Worker.Attempt.{new_attempt, begin_charge-clash}
use razor_pay.Samples.{env, world, db, job, open_case, unpaid}

-- The tables after a first attempt that failed.
abbrev tried : Db
tried = record db { attempts = record (new_attempt 9 20 1) { status = AttemptState.failed } ∷ [] }

abbrev retried : World
retried = record world { saved = tried; db = tried }

begin_charge-clash_example :
    let (r, w') = begin_charge env job retried in
    (r ≡ err (integrity attempt_number)) × (w'.saved ≡ tried) × (w'.db ≡ tried)
unfolding first exists
begin_charge-clash_example =
    begin_charge-clash env job open_case unpaid retried
      (record {
        clean = refl;
        case_found = refl;
        payment_found = refl;
        unpaid = refl;
        no_attempt = refl;
        fresh = refl;
      })
      refl

-- Worker 5 has begun the attempt 9.
abbrev running : Db
running = record db { attempts = new_attempt 9 20 1 ∷ []; jobs = claimed env 5 job ∷ [] }

abbrev begun : Db → Db
begun t = running
