-- ===== src/Session.antt =====
-- The SQLAlchemy session as the services use it: a working copy of the tables beside the committed
-- ones (app/persistence/database.py, `autoflush=False`). A write that the database will reject is
-- noted when it is made, and its error is raised by the next flush or commit.
pub mod Keeps
pub mod Atomic
use razor_pay.Prelude.{ℕ, ℤ, ◌+◌, String, Bool, Option, none, some, List}
use razor_pay.Errors.{Error, Result, ok, err}
use razor_pay.Models.{Amount, Db, RecoveryJob}
use razor_pay.Gateway.{Gateway}

-- What the code takes from its surroundings: the clock, the UUIDs that `uuid4` draws, the text of
-- a UUID and which texts the database reads as one, `str.upper` and `str.lower`, the rounding of an
-- amount to the four places of its column, the lease of app/config/settings.py, and the row that `LIMIT 1` with `SKIP LOCKED` returns, if any.
pub record Env : Type 0 where
  pub now : ℕ
  pub uuid4 : ℕ → ℕ
  pub uuid_text : ℕ → String
  pub is_uuid : String → Bool
  pub upper : String → String
  pub lower : String → String
  pub round : Amount → ℤ
  pub lease_timeout : ℕ
  pub pick : List RecoveryJob → Option RecoveryJob

-- `refused` is the error that the next flush raises, `correlation` the context variable of
-- app/utils/context.py ("" while it is unset), `drawn` the number of UUIDs drawn so far.
pub record World : Type 0 where
  pub saved : Db
  pub db : Db
  pub refused : Option Error
  pub correlation : String
  pub drawn : ℕ
  pub gateway : Gateway

abbrev pub Action : Type 0 → Type 0
Action A = World → Result A × World

module _ {A : Type 0} where
  unfoldable pub pure : A → Action A
  pure a w = (ok a, w)

  unfoldable pub raise : Error → Action A
  raise e w = (err e, w)

  unfoldable pub gets : (World → A) → Action A
  gets f w = (ok (f w), w)

  -- an attribute of what may be `None`, or an explicit test for `None`
  unfoldable pub or_raise : Option A → Error → Action A
  or_raise none e w = (err e, w)
  or_raise (some a) e w = (ok a, w)

  abbrev pub recover : Result A → (Error → Action A) → Action A
  recover (ok a) h w = (ok a, w)
  recover (err e) h w = h e w

  -- `try: m` with the handlers `h`
  unfoldable pub catch : Action A → (Error → Action A) → Action A
  catch m h w = let (r, w') = m w in recover r h w'

unfoldable pub modify : (Db → Db) → Action Unit
modify f w = (ok tt, record w { db = f w.db })

-- A write that waits for the flush. What the database will reject changes no table, and its error
-- is what the flush raises.
unfoldable pub write : Option Error → (Db → Db) → Action Unit
write none f w = (ok tt, record w { db = f w.db })
write (some e) f w = (ok tt, record w { refused = some e })

abbrev raise_if : Option Error → Action Unit
raise_if none w = (ok tt, w)
raise_if (some e) w = (err e, w)

-- `session.flush()`
unfoldable pub flush : Action Unit
flush w = raise_if w.refused w

-- The end of a commit, after its flush.
abbrev save : Result (Unit {0}) → Action Unit
save (ok tt) w = (ok tt, record w { saved = w.db })
save (err e) w = (err e, w)

-- `session.commit()`
unfoldable pub commit : Action Unit
unfolding flush
commit w = let (r, w') = flush w in save r w'

-- `session.rollback()`
unfoldable pub rollback : Action Unit
rollback w = (ok tt, record w { db = w.saved; refused = none })

-- `session.begin()`, after what other processes have committed meanwhile.
unfoldable pub begin_after : (Db → Db) → Action Unit
begin_after meanwhile w =
    (ok tt, record w { saved = meanwhile w.saved; db = meanwhile w.saved; refused = none })

-- `uuid.uuid4()`
unfoldable pub draw_uuid : Env → Action ℕ
draw_uuid env w = (ok (env.uuid4 w.drawn), record w { drawn = w.drawn + 1 })

abbrev pub continue : {A B : Type 0} → Result A → (A → Action B) → Action B
continue (ok a) f w = f a w
continue (err e) f w = (err e, w)

-- Whoever unfolds this unfolds the operations above too.
infixl 5 ◌>>=◌ ◌>>◌
unfoldable pub ◌>>=◌ : {A B : Type 0} → Action A → (A → Action B) → Action B
unfolding pure raise gets or_raise catch modify write flush commit rollback begin_after draw_uuid
◌>>=◌ m f w = let (r, w') = m w in continue r f w'

abbrev pub ◌>>◌ : {A B : Type 0} → Action A → Action B → Action B
m >> k = m >>= λ _. k

-- `except Exception: session.rollback(); raise`
abbrev pub rollback_on_error : {A : Type 0} → Action A → Action A
rollback_on_error m = catch m (λ e. rollback >> raise e)
