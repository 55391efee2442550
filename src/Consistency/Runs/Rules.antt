-- ===== src/Consistency/Runs/Rules.antt =====
-- The rules for the operations of a session, and how a chain of them is searched.
use razor_pay.Prelude.{◌≡◌, Option, none, List, ◌∷◌, inl, inr, Option-cases}
use razor_pay.Errors.{Error}
use razor_pay.Models.{Db}
use razor_pay.Session.{
  Env, World, Action, raise, modify, write, flush, commit, rollback, draw_uuid, ◌>>=◌,
}
use razor_pay.Session.Keeps.{Holds}
use razor_pay.Consistency.{Fact, Known}
use razor_pay.Consistency.Runs.{
  Knows, Knows-grows, Runs, Runs-bind, Runs-gets, Runs-if, Runs-or_raise, Runs-pure, Runs-raise,
  forget,
}

module _ {S : Db → Type 0} {facts : List Fact} where
  pub Runs-modify :
      (f : Db → Db)
      → ((db : Db) → Knows facts db → S db → S (f db))
      → ((db : Db) (g : Fact) → Known db g → Known (f db) g)
      → Runs S facts (modify f)
  unfolding modify
  Runs-modify f k grows = record {
    at = λ w h known. (
      record { saved = h.saved; db = k w.db known h.db },
      Knows-grows facts w.db (f w.db) (grows w.db) known,
    );
  }

  pub Runs-write :
      (conflict : Db → Option Error) (f : Db → Db)
      → ((db : Db) → conflict db ≡ none → Knows facts db → S db → S (f db))
      → ((db : Db) (g : Fact) → Known db g → Known (f db) g)
      → Runs S facts (λ w. write (conflict w.db) f w)
  unfolding write
  Runs-write conflict f k grows = record {
    at = λ w h known. elim (Option-cases (conflict w.db)) [
      | inl free ↦ rw free (
        record { saved = h.saved; db = k w.db free known h.db },
        Knows-grows facts w.db (f w.db) (grows w.db) known,
      )
      | inr (e, clash) ↦ rw clash (record { saved = h.saved; db = h.db }, known)
    ];
  }

  pub Runs-flush : Runs S facts flush
  unfolding flush
  Runs-flush = record {
    at = λ w h k. elim (Option-cases w.refused) [
      | inl clean ↦ rw clean (record { saved = h.saved; db = h.db }, k)
      | inr (e, bad) ↦ rw bad (record { saved = h.saved; db = h.db }, tt)
    ];
  }

  pub Runs-commit : Runs S facts commit
  unfolding commit
  Runs-commit = record {
    at = λ w h k. elim (Option-cases w.refused) [
      | inl clean ↦ rw clean (record { saved = h.db; db = h.db }, k)
      | inr (e, bad) ↦ rw bad (record { saved = h.saved; db = h.db }, tt)
    ];
  }

  pub Runs-draw_uuid : (env : Env) → Runs S facts (draw_uuid env)
  unfolding draw_uuid
  Runs-draw_uuid env = record { at = λ w h k. (record { saved = h.saved; db = h.db }, k) }

  -- The end of a handler that undoes the transaction.
  pub Runs-rollback-raise :
      {A : Type 0} (e : Error) → Runs {A = A} S facts (rollback >>= λ _. raise e)
  unfolding ◌>>=◌
  Runs-rollback-raise e = record { at = λ w h k. (record { saved = h.saved; db = h.saved }, tt) }

module _ {B : Type 0} {S : Db → Type 0} {facts : List Fact} where
  -- A row that has been added and flushed is known to the rest.
  pub Runs-insert :
      (fact : Fact) (conflict : Db → Option Error) (f : Db → Db) (rest : Unit → Action B)
      → ((db : Db) → conflict db ≡ none → Knows facts db → S db → S (f db))
      → ((db : Db) (g : Fact) → Known db g → Known (f db) g)
      → ((db : Db) → Known (f db) fact)
      → Runs S (fact ∷ facts) (rest tt)
      → Runs S facts ((λ w. write (conflict w.db) f w) >>= λ _. flush >>= rest)
  unfolding ◌>>=◌
  Runs-insert fact conflict f rest k grows there kr = record {
    at = λ w h known. elim (Option-cases (conflict w.db)) [
      | inl free ↦ elim (Option-cases w.refused) [
        | inl clean ↦
            let v : World = record w { db = f w.db; refused = none } in
            let now : Holds S v = record { saved = h.saved; db = k w.db free known h.db } in
            let end =
              kr.at v now (there w.db, Knows-grows facts w.db (f w.db) (grows w.db) known) in
            rw (free, clean) (end.0, forget fact facts (rest tt v).0 (rest tt v).1.db end.1)
        | inr (e, bad) ↦
            rw (free, bad) (record { saved = h.saved; db = k w.db free known h.db }, tt)
      ]
      | inr (e, clash) ↦ rw clash (record { saved = h.saved; db = h.db }, tt)
    ];
  }

pub ruleset runs_rules = (
  Runs-pure, Runs-raise, Runs-gets, Runs-or_raise, Runs-if, Runs-bind, Runs-flush, Runs-commit,
  Runs-draw_uuid,
)
