-- ===== src/Session/Keeps.antt =====
-- What the actions keep of the tables, in the working copy and in the committed one: a rule for
-- each way to build an action.
use razor_pay.Prelude.{
  ◌≡◌, refl, Bool, true, false, Option, none, some, inl, inr, arith, Option-cases, if◌then◌else◌,
}
use razor_pay.Errors.{Error, Result, ok, err}
use razor_pay.Models.{Db}
use razor_pay.Session.{
  Env, World, Action, pure, raise, gets, or_raise, recover, catch, modify, write, flush, commit,
  rollback, begin_after, draw_uuid, continue, ◌>>=◌,
}

-- `S` holds of both copies of the tables.
pub record Holds (S : Db → Type 0) (w : World) : Type 0 where
  pub saved : S w.saved
  pub db : S w.db

pub record Keeps {A : Type 0} (S : Db → Type 0) (m : Action A) : Type 0 where
  pub at : (w : World) → Holds S w → Holds S (m w).1

module _ {A : Type 0} {S : Db → Type 0} where
  pub Keeps-pure : (a : A) → Keeps S (pure a)
  unfolding pure
  Keeps-pure a = record { at = λ w h. h }

  pub Keeps-raise : (e : Error) → Keeps S (raise {A = A} e)
  unfolding raise
  Keeps-raise e = record { at = λ w h. h }

  pub Keeps-gets : (f : World → A) → Keeps S (gets f)
  unfolding gets
  Keeps-gets f = record { at = λ w h. h }

  pub Keeps-or_raise : (o : Option A) (e : Error) → Keeps S (or_raise o e)
  unfolding or_raise
  Keeps-or_raise none e = record { at = λ w h. h }
  Keeps-or_raise (some a) e = record { at = λ w h. h }

  pub Keeps-if :
      (b : Bool) (m n : Action A)
      → (b ≡ true → Keeps S m)
      → (b ≡ false → Keeps S n)
      → Keeps S (if b then m else n)
  Keeps-if true m n km kn = km refl
  Keeps-if false m n km kn = kn refl

  recover-Holds :
      (r : Result A) (h : Error → Action A) (w : World)
      → ((e : Error) → Keeps S (h e))
      → Holds S w
      → Holds S (recover r h w).1
  recover-Holds (ok a) h w kh p = p
  recover-Holds (err e) h w kh p = (kh e).at w p

  pub Keeps-catch :
      (m : Action A) (h : Error → Action A)
      → Keeps S m
      → ((e : Error) → Keeps S (h e))
      → Keeps S (catch m h)
  unfolding catch
  Keeps-catch m h km kh = record {
    at = λ w p. let (r, w') = m w in recover-Holds r h w' kh (km.at w p);
  }

module _ {A B : Type 0} {S : Db → Type 0} where
  continue-Holds :
      (r : Result A) (f : A → Action B) (w : World)
      → ((a : A) → Keeps S (f a))
      → Holds S w
      → Holds S (continue r f w).1
  continue-Holds (ok a) f w kf p = (kf a).at w p
  continue-Holds (err e) f w kf p = p

  pub Keeps-bind :
      (m : Action A) (f : A → Action B) → Keeps S m → ((a : A) → Keeps S (f a)) → Keeps S (m >>= f)
  unfolding ◌>>=◌
  Keeps-bind m f km kf = record {
    at = λ w p. let (r, w') = m w in continue-Holds r f w' kf (km.at w p);
  }

module _ {S : Db → Type 0} where
  pub Keeps-modify : (f : Db → Db) → ((db : Db) → S db → S (f db)) → Keeps S (modify f)
  unfolding modify
  Keeps-modify f k = record { at = λ w h. record { saved = h.saved; db = k w.db h.db } }

  -- A write may use that the database does not reject it.
  pub Keeps-write :
      (conflict : Db → Option Error) (f : Db → Db)
      → ((db : Db) → conflict db ≡ none → S db → S (f db))
      → Keeps S (λ w. write (conflict w.db) f w)
  unfolding write
  Keeps-write conflict f k = record {
    at = λ w h. elim (Option-cases (conflict w.db)) [
      | inl free ↦ rw free (record { saved = h.saved; db = k w.db free h.db })
      | inr (e, clash) ↦ rw clash (record { saved = h.saved; db = h.db })
    ];
  }

  pub Keeps-flush : Keeps S flush
  unfolding flush
  Keeps-flush = record { at = λ w h. ground arith }

  pub Keeps-commit : Keeps S commit
  unfolding commit
  Keeps-commit = record { at = λ w h. ground arith }

  pub Keeps-rollback : Keeps S rollback
  unfolding rollback
  Keeps-rollback = record { at = λ w h. record { saved = h.saved; db = h.saved } }

  pub Keeps-begin_after :
      (meanwhile : Db → Db)
      → ((db : Db) → S db → S (meanwhile db))
      → Keeps S (begin_after meanwhile)
  unfolding begin_after
  Keeps-begin_after meanwhile k = record {
    at = λ w h. record { saved = k w.saved h.saved; db = k w.saved h.saved };
  }

  pub Keeps-draw_uuid : (env : Env) → Keeps S (draw_uuid env)
  unfolding draw_uuid
  Keeps-draw_uuid env = record { at = λ w h. record { saved = h.saved; db = h.db } }

-- The rest of a block may use what the part before it has returned.
pub Keeps-bind-ok :
    {A B : Type 0} {S : Db → Type 0} (m : Action A) (f : A → Action B)
    → Keeps S m
    → ((w : World) (a : A) → Holds S w → (m w).0 ≡ ok a → Keeps S (f a))
    → Keeps S (m >>= f)
unfolding ◌>>=◌
Keeps-bind-ok {A} {B} {S} m f km kf = record {
  at = λ w p. step w (m w).0 (m w).1 refl p (km.at w p);
}
  where
    step :
        (w : World) (r : Result A) (w' : World)
        → (m w).0 ≡ r
        → Holds S w
        → Holds S w'
        → Holds S (continue r f w').1
    step w (ok a) w' e p p' = (kf w a p e).at w' p'
    step w (err x) w' e p p' = p'

pub ruleset keeps_rules = (
  Keeps-pure, Keeps-raise, Keeps-gets, Keeps-or_raise, Keeps-if, Keeps-catch, Keeps-bind,
  Keeps-modify, Keeps-flush, Keeps-commit, Keeps-rollback, Keeps-draw_uuid,
)
