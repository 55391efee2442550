-- ===== src/Tests/Schemas.antt =====
-- The migrations on a database that keeps the list of what has been created.
use razor_pay.Prelude.{
  ◌≡◌, refl, String, Bool, true, false, ◌||◌, Option, none, some, List, [], ◌∷◌, ◌++◌, arith,
  exists,
}
use razor_pay.Migrations.{Operation, Database, migrate, creates_use, is_create, undo, Behaves}
use razor_pay.Migrations.Initial.{upgrade, downgrade, downgrade-refused}
use razor_pay.Migrations.Later.{
  Restores, upgrade_checks, downgrade_checks, upgrade_payload, downgrade_payload, upgrade_indexes,
  downgrade_indexes, later_migrations-Restores,
}

abbrev Created : Type 0
Created = List Operation

abbrev is_used : Created → String → Bool
is_used s n = exists (creates_use n) s

-- Without the last object.
abbrev drop_last : Created → Option Created
drop_last [] = none
drop_last (o ∷ s) = some s

abbrev unless_used : Bool → Created → Option Created
unless_used true s = none
unless_used false s = some s

abbrev step_created : Operation → Created → Option Created
step_created (Operation.create_table t) s = some (Operation.create_table t ∷ s)
step_created (Operation.create_index i) s = some (Operation.create_index i ∷ s)
step_created (Operation.create_check_constraint n t c) s =
    some (Operation.create_check_constraint n t c ∷ s)
step_created (Operation.add_column t c) s = some (Operation.add_column t c ∷ s)
step_created (Operation.drop_type n true) s = some s
step_created (Operation.drop_type n false) s = unless_used (is_used s n) s
step_created _ s = drop_last s

abbrev created : Database
created = record { Schema = Created; step = step_created; uses = is_used }

restored :
    (o u : Operation) (s t : Created)
    → undo o ≡ some u
    → step_created o s ≡ some t
    → step_created u t ≡ some s
restored (Operation.create_table x) u s t h e = cc
restored (Operation.create_index i) u s t h e =
    let same : Operation.drop_index i.table i.name ≡ u = cc in
    let after : Operation.create_index i ∷ s ≡ t = cc in rw (← same, ← after) refl
restored (Operation.create_check_constraint n x c) u s t h e =
    let same : Operation.drop_constraint x n ≡ u = cc in
    let after : Operation.create_check_constraint n x c ∷ s ≡ t = cc in rw (← same, ← after) refl
restored (Operation.add_column x c) u s t h e =
    let same : Operation.drop_column x c.name ≡ u = cc in
    let after : Operation.add_column x c ∷ s ≡ t = cc in rw (← same, ← after) refl
restored (Operation.drop_table x) u s t h e = cc
restored (Operation.drop_index x n) u s t h e = cc
restored (Operation.drop_constraint x n) u s t h e = cc
restored (Operation.drop_column x n) u s t h e = cc
restored (Operation.drop_type n c) u s t h e = cc

pushed :
    (n : String) (o : Operation) (s t : Created)
    → is_create o ≡ true
    → step_created o s ≡ some t
    → is_used t n ≡ (creates_use n o || is_used s n)
unfolding exists
pushed n (Operation.create_table x) s t c e =
    let same : Operation.create_table x ∷ s ≡ t = cc in rw (← same) refl
pushed n (Operation.create_index i) s t c e =
    let same : Operation.create_index i ∷ s ≡ t = cc in rw (← same) refl
pushed n (Operation.create_check_constraint m x k) s t c e =
    let same : Operation.create_check_constraint m x k ∷ s ≡ t = cc in rw (← same) refl
pushed n (Operation.add_column x k) s t c e =
    let same : Operation.add_column x k ∷ s ≡ t = cc in rw (← same) refl
pushed n (Operation.drop_table x) s t c e = cc
pushed n (Operation.drop_index x m) s t c e = cc
pushed n (Operation.drop_constraint x m) s t c e = cc
pushed n (Operation.drop_column x m) s t c e = cc
pushed n (Operation.drop_type m k) s t c e = cc

creates_use-is_create : (n : String) (o : Operation) → creates_use n o ≡ true → is_create o ≡ true
creates_use-is_create n (Operation.create_table x) h = refl
creates_use-is_create n (Operation.create_index i) h = refl
creates_use-is_create n (Operation.create_check_constraint m x k) h = refl
creates_use-is_create n (Operation.add_column x k) h = refl
creates_use-is_create n (Operation.drop_table x) h = cc
creates_use-is_create n (Operation.drop_index x m) h = cc
creates_use-is_create n (Operation.drop_constraint x m) h = cc
creates_use-is_create n (Operation.drop_column x m) h = cc
creates_use-is_create n (Operation.drop_type m k) h = cc

created-Behaves : Behaves created
created-Behaves = record {
  restores = λ o u {s} {t} h e. restored o u s t h e;
  begins_use = λ n o {s} {t} h e. rw (pushed n o s t (creates_use-is_create n o h) e, h) refl;
  keeps_use = λ n o {s} {t} c e h. ground (arith, pushed n o s t c e, h);
  refuses = λ n {s} h. rw h refl;
}

later_migrations-Restores_example :
    Restores created upgrade_checks downgrade_checks
    × Restores created upgrade_payload downgrade_payload
    × Restores created upgrade_indexes downgrade_indexes
    × Restores created
        (upgrade_checks ++ upgrade_payload ++ upgrade_indexes)
        (downgrade_indexes ++ downgrade_payload ++ downgrade_checks)
later_migrations-Restores_example = later_migrations-Restores created created-Behaves

abbrev pile : List Operation → Created → Created
pile [] s = s
pile (o ∷ ops) s = pile ops (o ∷ s)

abbrev all_created : Created
all_created = pile upgrade []

downgrade-refused_example : migrate created downgrade all_created ≡ none
unfolding migrate
downgrade-refused_example = downgrade-refused created [] {t = all_created} created-Behaves refl
