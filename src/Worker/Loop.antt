-- ===== src/Worker/Loop.antt =====
-- app/workers/executor/main.py: the loop of a worker.
use razor_pay.Prelude.{ℕ, ◌≡◌, refl, Bool, true, not, none, List, [], ◌∷◌, arith, length, All}
use razor_pay.Errors.{Result, ok, err}
use razor_pay.Models.{Db}
use razor_pay.Session.{Env, World}
use razor_pay.Session.Keeps.{Holds}
use razor_pay.Tables.Paid.{IsPaid}
use razor_pay.Contracts.{DecisionContext, Decision}
use razor_pay.Worker.Next.{process_next_job}
use razor_pay.Worker.Paid.{process_next_job-Keeps}

-- What a turn of the loop meets: its surroundings, what others commit, and the provider.
pub record Turn : Type 0 where
  pub env : Env
  pub meanwhile : Db → Db
  pub decide : DecisionContext → Result Decision

-- Whether the turn ends with `time.sleep`: it does if there was no job, and if the turn raised.
abbrev pub sleeps : Result Bool → Bool
sleeps (ok job_processed) = not job_processed
sleeps (err e) = true

-- `session.rollback()` and `session.close()`: what has not been committed is gone.
abbrev pub close : World → World
close w = record w { db = w.saved; refused = none }

pub poll : ℕ → Turn → World → Bool × World
poll worker_id turn w =
    let (r, w') = process_next_job turn.env worker_id turn.meanwhile turn.decide w in
    (sleeps r, close w')

-- `main`: the turns until `handle_shutdown` has set `running`, and which of them slept.
pub main : ℕ → List Turn → World → List Bool × World
main worker_id [] w = ([], w)
main worker_id (turn ∷ turns) w =
    let (slept, v) = poll worker_id turn w in
    let (pauses, end) = main worker_id turns v in (slept ∷ pauses, end)

-- What other processes commit during a turn keeps a succeeded payment.
abbrev pub Respectful : ℕ → Turn → Type 0
Respectful i turn = (db : Db) → IsPaid i db → IsPaid i (turn.meanwhile db)

poll-IsPaid :
    (worker_id i : ℕ) (turn : Turn) (w : World)
    → Respectful i turn
    → Holds (IsPaid i) w
    → Holds (IsPaid i) (poll worker_id turn w).1
unfolding poll
poll-IsPaid worker_id i turn w fair h =
    let after =
      (process_next_job-Keeps turn.env worker_id turn.meanwhile i fair turn.decide).at w h in
    record { saved = after.saved; db = after.saved }

-- Whatever the provider and the gateway do in each turn and whatever it raises, the loop has a turn
-- for each time that it finds itself running, and then ends; a payment that has succeeded before it
-- is still succeeded after it, if what other processes commit meanwhile keeps it so.
pub main-IsPaid :
    (worker_id i : ℕ) (turns : List Turn) (w : World)
    → All (Respectful i) turns
    → Holds (IsPaid i) w
    → (length (main worker_id turns w).0 ≡ length turns)
      × Holds (IsPaid i) (main worker_id turns w).1
unfolding main
main-IsPaid worker_id i [] w fair h = (refl, h)
main-IsPaid worker_id i (turn ∷ turns) w fair h =
    let rest =
      main-IsPaid worker_id i turns (poll worker_id turn w).1 fair.1
        (poll-IsPaid worker_id i turn w fair.0 h) in
    (omega (arith, rest.0), rest.1)
