-- ===== src/Consistency/Runs.antt =====
-- What the actions keep of a property of the tables, where they rely on rows that they have loaded or
-- added before: a rule for each way to build an action.
pub mod Rules
use mathlib.Core.Path.{fun_ext}
use razor_pay.Prelude.{
  ◌≡◌, refl, Bool, true, false, Option, none, some, List, [], ◌∷◌, ◌++◌, All-append, inl, inr, All,
  Among, Among-All, Option-cases, if◌then◌else◌,
}
use razor_pay.Errors.{Error, Result, ok, err}
use razor_pay.Models.{Db}
use razor_pay.Session.{
  Env, World, Action, pure, raise, gets, or_raise, recover, catch, modify, write, flush, commit,
  rollback, draw_uuid, continue, ◌>>=◌,
}
use razor_pay.Session.Keeps.{Holds, Keeps, Keeps-rollback}
use razor_pay.Consistency.{Fact, Known}

abbrev pub Knows : List Fact → Db → Type 0
Knows facts db = All (Known db) facts

abbrev pub Ends : {A : Type 0} → List Fact → Result A → Db → Type 0
Ends facts (ok a) db = Knows facts db
Ends facts (err e) db = Unit

Knows-grows :
    (facts : List Fact) (xs ys : Db)
    → ((g : Fact) → Known xs g → Known ys g)
    → Knows facts xs
    → Knows facts ys
Knows-grows [] xs ys grows h = tt
Knows-grows (f ∷ facts) xs ys grows h = (grows f h.0, Knows-grows facts xs ys grows h.1)

-- Who knows more in the end knows this too.
forget :
    {A : Type 0} (f : Fact) (facts : List Fact) (r : Result A) (db : Db)
    → Ends (f ∷ facts) r db
    → Ends facts r db
forget f facts (ok a) db h = h.1
forget f facts (err e) db h = tt

forget_all :
    {A : Type 0} (more facts : List Fact) (r : Result A) (db : Db)
    → Ends (more ++ facts) r db
    → Ends facts r db
forget_all [] facts r db h = h
forget_all (f ∷ more) facts r db h = forget_all more facts r db (forget f (more ++ facts) r db h)

-- `S` holds of both copies of the tables throughout, and the facts hold of the working copy, at the
-- end too unless the action raises.
pub record Runs {A : Type 0} (S : Db → Type 0) (facts : List Fact) (m : Action A) : Type 0 where
  pub at :
      (w : World) → Holds S w → Knows facts w.db → Holds S (m w).1 × Ends facts (m w).0 (m w).1.db

-- A fact is one of those that are known.
pub Has : Fact → List Fact → Type 0
Has f facts = Among f facts

pub Has-here : (f : Fact) (facts : List Fact) → Has f (f ∷ facts)
unfolding Has
Has-here f facts = inl refl

pub Has-there : (f g : Fact) (facts : List Fact) → Has f facts → Has f (g ∷ facts)
unfolding Has
Has-there f g facts h = inr h

pub Has-Known : (f : Fact) (facts : List Fact) (db : Db) → Has f facts → Knows facts db → Known db f
unfolding Has
Has-Known f facts db h k = Among-All (Known db) f facts k h

module _ {A : Type 0} {S : Db → Type 0} {facts : List Fact} where
  pub Runs-pure : (a : A) → Runs S facts (pure a)
  unfolding pure
  Runs-pure a = record { at = λ w h k. (h, k) }

  pub Runs-raise : (e : Error) → Runs S facts (raise {A = A} e)
  unfolding raise
  Runs-raise e = record { at = λ w h k. (h, tt) }

  pub Runs-gets : (f : World → A) → Runs S facts (gets f)
  unfolding gets
  Runs-gets f = record { at = λ w h k. (h, k) }

  pub Runs-or_raise : (o : Option A) (e : Error) → Runs S facts (or_raise o e)
  unfolding or_raise
  Runs-or_raise none e = record { at = λ w h k. (h, tt) }
  Runs-or_raise (some a) e = record { at = λ w h k. (h, k) }

  pub Runs-if :
      (b : Bool) (m n : Action A)
      → (b ≡ true → Runs S facts m)
      → (b ≡ false → Runs S facts n)
      → Runs S facts (if b then m else n)
  Runs-if true m n km kn = km refl
  Runs-if false m n km kn = kn refl

module _ {S : Db → Type 0} where
  -- What keeps `S` runs without facts.
  pub Runs-Keeps : {A : Type 0} (m : Action A) → Keeps S m → Runs S [] m
  Runs-Keeps {A} m k = record { at = λ w h f. (k.at w h, nothing (m w).0 (m w).1.db) }
    where
      nothing : (r : Result A) (db : Db) → Ends [] r db
      nothing (ok a) db = tt
      nothing (err e) db = tt

  pub Runs-rollback : Runs S [] rollback
  Runs-rollback = Runs-Keeps rollback Keeps-rollback

  pub Keeps-Runs : {A : Type 0} (m : Action A) → Runs S [] m → Keeps S m
  Keeps-Runs m r = record { at = λ w h. (r.at w h tt).0 }

  pub Runs-catch :
      {A : Type 0} (m : Action A) (h : Error → Action A)
      → Runs S [] m
      → ((e : Error) → Runs S [] (h e))
      → Runs S [] (catch m h)
  unfolding catch
  Runs-catch {A} m h km kh = record { at = λ w p k. handled (m w).0 (m w).1 (km.at w p k).0 }
    where
      handled :
          (r : Result A) (v : World)
          → Holds S v
          → Holds S (recover r h v).1 × Ends [] (recover r h v).0 (recover r h v).1.db
      handled (ok a) v p = (p, tt)
      handled (err e) v p = (kh e).at v p tt

module _ {A B : Type 0} {S : Db → Type 0} {facts : List Fact} where
  pub Runs-bind :
      (m : Action A) (f : A → Action B)
      → Runs S facts m
      → ((a : A) → Runs S facts (f a))
      → Runs S facts (m >>= f)
  unfolding ◌>>=◌
  Runs-bind m f km kf = record {
    at = λ w p k. let end = km.at w p k in rest (m w).0 (m w).1 end.0 end.1;
  }
    where
      rest :
          (r : Result A) (v : World)
          → Holds S v
          → Ends facts r v.db
          → Holds S (continue r f v).1 × Ends facts (continue r f v).0 (continue r f v).1.db
      rest (ok a) v p k = (kf a).at v p k
      rest (err e) v p k = (p, tt)

  -- A query that may find a row: what it has found is known to the rest.
  pub Runs-look :
      (fact : A → Fact) (q : World → Option A) (f : Option A → Action B)
      → ((w : World) (a : A) → Holds S w → q w ≡ some a → Known w.db (fact a))
      → Runs S facts (f none)
      → ((a : A) → Runs S (fact a ∷ facts) (f (some a)))
      → Runs S facts (gets q >>= f)
  unfolding ◌>>=◌
  Runs-look fact q f found kn kf = record {
    at = λ w p k. elim (Option-cases (q w)) [
      | inl gone ↦ rw gone (kn.at w p k)
      | inr (a, there) ↦
          let end = (kf a).at w p (found w a p there, k) in
          rw there (end.0, forget (fact a) facts (f (some a) w).0 (f (some a) w).1.db end.1)
    ];
  }

  -- What any query says is known to the rest.
  pub Runs-ask :
      (more : A → List Fact) (q : World → A) (f : A → Action B)
      → ((w : World) → Holds S w → Knows (more (q w)) w.db)
      → ((a : A) → Runs S (more a ++ facts) (f a))
      → Runs S facts (gets q >>= f)
  unfolding ◌>>=◌
  Runs-ask more q f found kf = record {
    at = λ w p k.
        let end = (kf (q w)).at w p (All-append (Known w.db) (more (q w)) facts (found w p) k) in
        (end.0, forget_all (more (q w)) facts (f (q w) w).0 (f (q w) w).1.db end.1);
  }

  -- A query that must find a row.
  pub Runs-find :
      (fact : A → Fact) (q : World → Option A) (e : Error) (f : A → Action B)
      → ((w : World) (a : A) → Holds S w → q w ≡ some a → Known w.db (fact a))
      → ((a : A) → Runs S (fact a ∷ facts) (f a))
      → Runs S facts (gets q >>= λ o. or_raise o e >>= f)
  unfolding ◌>>=◌
  Runs-find fact q e f found kf =
      Runs-look fact q (λ o. or_raise o e >>= f) found (record { at = λ w p k. (p, tt) })
        (λ a. record { at = λ w p k. (kf a).at w p k })

  -- The rest of a block after a value that is given, or missing.
  pub Runs-given :
      (a : A) (e : Error) (f : A → Action B)
      → Runs S facts (f a)
      → Runs S facts (or_raise (some a) e >>= f)
  unfolding ◌>>=◌
  Runs-given a e f r = record { at = λ w h k. r.at w h k }

  pub Runs-missing : (e : Error) (f : A → Action B) → Runs S facts (or_raise none e >>= f)
  unfolding ◌>>=◌
  Runs-missing e f = record { at = λ w h k. (h, tt) }

  pub Runs-pure_bind : (a : A) (f : A → Action B) → Runs S facts (f a) → Runs S facts (pure a >>= f)
  unfolding ◌>>=◌
  Runs-pure_bind a f r = record { at = λ w h k. r.at w h k }

module _ {A B D : Type 0} where
  pub bind_assoc :
      (m : Action A) (f : A → Action B) (g : B → Action D)
      → (m >>= f) >>= g ≡ m >>= (λ a. f a >>= g)
  unfolding ◌>>=◌
  bind_assoc m f g = fun_ext (λ w. step (m w).0 (m w).1)
    where
      step :
          (r : Result A) (v : World)
          → continue (continue r f v).0 g (continue r f v).1 ≡ continue r (λ a. f a >>= g) v
      step (ok a) v = refl
      step (err e) v = refl

  pub Runs-assoc :
      {S : Db → Type 0} {facts : List Fact} (m : Action A) (f : A → Action B) (g : B → Action D)
      → Runs S facts (m >>= (λ a. f a >>= g))
      → Runs S facts ((m >>= f) >>= g)
  Runs-assoc m f g r = rw bind_assoc r

module _ {A B D E : Type 0} where
  -- In the rest of a block.
  pub Runs-assoc_rest :
      {S : Db → Type 0} {facts : List Fact} (m : Action A) (f : A → Action B) (g : B → Action D)
      (h : D → Action E)
      → Runs S facts (m >>= λ a. f a >>= λ b. g b >>= h)
      → Runs S facts (m >>= λ a. (f a >>= g) >>= h)
  Runs-assoc_rest m f g h r =
      let same : (λ a. (f a >>= g) >>= h) ≡ (λ a. f a >>= λ b. g b >>= h) =
        fun_ext (λ a. bind_assoc (f a) g h) in
      rw same r
