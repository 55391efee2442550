-- ===== src/Session/Atomic.antt =====
-- Actions that commit nothing, and actions that commit nothing when they raise: a rule for each way
-- to build an action.
use razor_pay.Prelude.{◌≡◌, refl, ◌∙◌, Bool, true, false, Option, none, some, arith, if◌then◌else◌}
use razor_pay.Errors.{Error, Result, ok, err}
use razor_pay.Models.{Db}
use razor_pay.Session.{
  Env, World, Action, pure, raise, gets, or_raise, recover, catch, modify, write, flush, commit,
  rollback, begin_after, draw_uuid, continue, ◌>>=◌,
}

pub record IsUnsaved {A : Type 0} (m : Action A) : Type 0 where
  pub at : (w : World) → (m w).1.saved ≡ w.saved

pub record IsAtomic {A : Type 0} (m : Action A) : Type 0 where
  pub at : (w : World) (e : Error) → (m w).0 ≡ err e → (m w).1.saved ≡ w.saved

module _ {A : Type 0} where
  pub IsUnsaved-pure : (a : A) → IsUnsaved (pure a)
  unfolding pure
  IsUnsaved-pure a = record { at = λ w. refl }

  pub IsUnsaved-raise : (e : Error) → IsUnsaved (raise {A = A} e)
  unfolding raise
  IsUnsaved-raise e = record { at = λ w. refl }

  pub IsUnsaved-gets : (f : World → A) → IsUnsaved (gets f)
  unfolding gets
  IsUnsaved-gets f = record { at = λ w. refl }

  pub IsUnsaved-or_raise : (o : Option A) (e : Error) → IsUnsaved (or_raise o e)
  unfolding or_raise
  IsUnsaved-or_raise none e = record { at = λ w. refl }
  IsUnsaved-or_raise (some a) e = record { at = λ w. refl }

  pub IsUnsaved-if :
      (b : Bool) (m n : Action A) → IsUnsaved m → IsUnsaved n → IsUnsaved (if b then m else n)
  IsUnsaved-if true m n um un = um
  IsUnsaved-if false m n um un = un

  pub IsAtomic-if :
      (b : Bool) (m n : Action A) → IsAtomic m → IsAtomic n → IsAtomic (if b then m else n)
  IsAtomic-if true m n am an = am
  IsAtomic-if false m n am an = an

  pub IsAtomic-unsaved : (m : Action A) → IsUnsaved m → IsAtomic m
  IsAtomic-unsaved m u = record { at = λ w e h. u.at w }

  recover_unsaved :
      (r : Result A) (h : Error → Action A) (w : World)
      → ((e : Error) → IsUnsaved (h e))
      → (recover r h w).1.saved ≡ w.saved
  recover_unsaved (ok a) h w uh = refl
  recover_unsaved (err e) h w uh = (uh e).at w

  pub IsUnsaved-catch :
      (m : Action A) (h : Error → Action A)
      → IsUnsaved m
      → ((e : Error) → IsUnsaved (h e))
      → IsUnsaved (catch m h)
  unfolding catch
  IsUnsaved-catch m h um uh = record {
    at = λ w. let (r, w') = m w in recover_unsaved r h w' uh ∙ um.at w;
  }

  recover_saved :
      (r : Result A) (h : Error → Action A) (w w' : World)
      → ((x : Error) → IsAtomic (h x))
      → ((x : Error) → r ≡ err x → w'.saved ≡ w.saved)
      → (e : Error) → (recover r h w').0 ≡ err e
      → (recover r h w').1.saved ≡ w.saved
  recover_saved (ok a) h w w' ah same e p = cc
  recover_saved (err x) h w w' ah same e p = (ah x).at w' e p ∙ same x refl

  pub IsAtomic-catch :
      (m : Action A) (h : Error → Action A)
      → IsAtomic m
      → ((e : Error) → IsAtomic (h e))
      → IsAtomic (catch m h)
  unfolding catch
  IsAtomic-catch m h am ah = record {
    at = λ w e p. recover_saved (m w).0 h w (m w).1 ah (λ x q. am.at w x q) e p;
  }

module _ {A B : Type 0} where
  continue_unsaved :
      (r : Result A) (f : A → Action B) (w : World)
      → ((a : A) → IsUnsaved (f a))
      → (continue r f w).1.saved ≡ w.saved
  continue_unsaved (ok a) f w uf = (uf a).at w
  continue_unsaved (err e) f w uf = refl

  pub IsUnsaved-bind :
      (m : Action A) (f : A → Action B)
      → IsUnsaved m
      → ((a : A) → IsUnsaved (f a))
      → IsUnsaved (m >>= f)
  unfolding ◌>>=◌
  IsUnsaved-bind m f um uf = record {
    at = λ w. let (r, w') = m w in continue_unsaved r f w' uf ∙ um.at w;
  }

  continue_atomic :
      (r : Result A) (f : A → Action B) (w : World)
      → ((a : A) → IsAtomic (f a))
      → (e : Error) → (continue r f w).0 ≡ err e
      → (continue r f w).1.saved ≡ w.saved
  continue_atomic (ok a) f w af e p = (af a).at w e p
  continue_atomic (err x) f w af e p = refl

  pub IsAtomic-bind :
      (m : Action A) (f : A → Action B)
      → IsUnsaved m
      → ((a : A) → IsAtomic (f a))
      → IsAtomic (m >>= f)
  unfolding ◌>>=◌
  IsAtomic-bind m f um af = record {
    at = λ w e p. continue_atomic (m w).0 f (m w).1 af e p ∙ um.at w;
  }

  -- What cannot raise may follow.
  pub IsAtomic-then_pure : (m : Action A) (b : B) → IsAtomic m → IsAtomic (m >>= λ _. pure b)
  unfolding ◌>>=◌
  IsAtomic-then_pure m b am = record { at = λ w e p. ground (arith, am.at w e) }

pub IsUnsaved-modify : (f : Db → Db) → IsUnsaved (modify f)
unfolding modify
IsUnsaved-modify f = record { at = λ w. refl }

pub IsUnsaved-write :
    (conflict : Db → Option Error) (f : Db → Db) → IsUnsaved (λ w. write (conflict w.db) f w)
unfolding write
IsUnsaved-write conflict f = record { at = λ w. ground arith }

pub IsUnsaved-flush : IsUnsaved flush
unfolding flush
IsUnsaved-flush = record { at = λ w. ground arith }

pub IsUnsaved-rollback : IsUnsaved rollback
unfolding rollback
IsUnsaved-rollback = record { at = λ w. refl }

pub IsUnsaved-draw_uuid : (env : Env) → IsUnsaved (draw_uuid env)
unfolding draw_uuid
IsUnsaved-draw_uuid env = record { at = λ w. refl }

-- A new session, with nothing committed meanwhile.
pub IsUnsaved-begin : IsUnsaved (begin_after (λ db. db))
unfolding begin_after
IsUnsaved-begin = record { at = λ w. refl }

pub IsAtomic-commit : IsAtomic commit
unfolding commit
IsAtomic-commit = record { at = λ w e p. ground arith }

pub ruleset unsaved_rules = (
  IsUnsaved-pure, IsUnsaved-raise, IsUnsaved-gets, IsUnsaved-or_raise, IsUnsaved-if, IsUnsaved-bind,
  IsUnsaved-catch, IsUnsaved-modify, IsUnsaved-begin, IsUnsaved-flush, IsUnsaved-rollback,
  IsUnsaved-draw_uuid,
)

pub ruleset atomic_rules = (
  unsaved_rules, IsAtomic-if, IsAtomic-bind, IsAtomic-catch, IsAtomic-unsaved, IsAtomic-then_pure,
  IsAtomic-commit,
)
