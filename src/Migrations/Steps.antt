-- ===== src/Migrations/Steps.antt =====
-- How a migration runs: its first operation and the others, and one more at the end.
use razor_pay.Prelude.{◌≡◌, refl, none, some, List, [], ◌∷◌, ◌++◌, Option-cases, inl, inr}
use razor_pay.Migrations.{Operation, Database, migrate, bind}

module _ (db : Database) where
  -- A migration ends with what its first operation and the others do.
  pub first_step :
      (o : Operation) (ops : List Operation) (s : db.Schema) {t : db.Schema}
      → migrate db (o ∷ ops) s ≡ some t
      → (m : db.Schema) × (db.step o s ≡ some m) × (migrate db ops m ≡ some t)
  unfolding migrate
  first_step o ops s e = elim (Option-cases (db.step o s)) [
    | inl gone ↦ absurd (let e' : none ≡ some _ = rw gone at e in cc)
    | inr (m, found) ↦ (m, found, rw found at e)
  ]

  pub migrate-append :
      (downs : List Operation) (u : Operation) (t : db.Schema) {m : db.Schema}
      → migrate db downs t ≡ some m
      → migrate db (downs ++ u ∷ []) t ≡ bind db (db.step u m) (λ s. some s)
  unfolding migrate
  migrate-append [] u t {m} e = (let same : t ≡ m = cc in rw same refl)
  migrate-append (o ∷ downs) u t e =
      let (n, found, rest) = first_step o downs t e in
      rw (found, migrate) (migrate-append downs u n rest)
