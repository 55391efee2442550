-- ===== src/Consistency/Active.antt =====
-- A payment has at most one active case: what the partial unique index keeps.
use razor_pay.Prelude.{
  ℕ, ◌≡◌, refl, sym, ◌∙◌, Bool, true, false, ◌&&◌, ◌||◌, none, some, List, if◌then◌else◌, [], ◌∷◌,
  ◌++◌, ◌==◌, arith, All, exists, change, change-none, exists-weaken, Bool-cases, inl, inr,
}
use razor_pay.Prelude.Distinct.{Distinct, Distinct-append}
use razor_pay.Errors.{integrity, active_case}
use razor_pay.States.{RecoveryState, is_active}
use razor_pay.Models.{RecoveryCase}
use razor_pay.Tables.{case_has_id, is_other_active, index_conflict}
use razor_pay.Consistency.{same_case, rivals, is_case_of}

abbrev set : RecoveryState → RecoveryCase → RecoveryCase
set s r = record r { status = s }

-- A case with the status `s` of a payment without another active case has no rival among other cases.
no_rival :
    (c : RecoveryCase) (s : RecoveryState) (i : ℕ) (l : List RecoveryCase)
    → c.id ≡ i
    → exists (case_has_id i) l ≡ false
    → (is_active s ≡ true → exists (is_other_active c.payment_id i) l ≡ false)
    → exists (rivals (set s c)) l ≡ false
unfolding exists
no_rival c s i [] e new free = refl
no_rival c s i (d ∷ l) e new free =
    ground (arith, free, new, no_rival c s i l e (ground arith) (λ a. ground (arith, free a)))

-- Tests of a rival, over what they read.
clash :
    (a b : Bool) (p q : ℕ)
    → (b ≡ true → (a && (q == p && true)) ≡ false)
    → (a && (b && p == q)) ≡ false
clash a b p q h = ground (arith, h)

unlike : (a b : Bool) → (a || b) ≡ false → (a ≡ false) × (b ≡ false)
unlike a b h = ground (arith, h)

neither : (a b : Bool) → a ≡ false → b ≡ false → (a || b) ≡ false
neither a b h k = ground (arith, h, k)

-- A case that is no rival of the changed one stays without a rival.
still_no_rival :
    (c : RecoveryCase) (s : RecoveryState) (i p : ℕ) (l : List RecoveryCase)
    → c.id == i ≡ false
    → (is_active s ≡ true → is_other_active p i c ≡ false)
    → All (λ (r : RecoveryCase). r.id == i ≡ true → r.payment_id ≡ p) l
    → exists (rivals c) l ≡ false
    → exists (rivals c) (change (case_has_id i) (set s) l) ≡ false
unfolding exists change
still_no_rival c s i p [] other free owned h = refl
still_no_rival c s i p (d ∷ l) other free owned h =
    let now = unlike (rivals c d) (exists (rivals c) l) h in
    let rest = still_no_rival c s i p l other free owned.1 now.1 in
    elim (Bool-cases (d.id == i)) [
      | inl t ↦
          let one : rivals c (set s d) ≡ false =
            clash (is_active c.status) (is_active s) d.payment_id c.payment_id
              (λ a. rw (owned.0 t) (rw other at (free a))) in
          rw t (neither _ _ one rest)
      | inr o ↦ rw o (neither _ _ now.0 rest)
    ]

pub set-active :
    (s : RecoveryState) (i p : ℕ) (l : List RecoveryCase)
    → Distinct same_case l
    → All (λ (r : RecoveryCase). r.id == i ≡ true → r.payment_id ≡ p) l
    → (is_active s ≡ true → exists (is_other_active p i) l ≡ false)
    → Distinct rivals l
    → Distinct rivals (change (case_has_id i) (set s) l)
unfolding change exists
set-active s i p [] ids owned free h = tt
set-active s i p (c ∷ l) ids owned free h = elim (Bool-cases (c.id == i)) [
  | inl t ↦
      let same : c.id ≡ i = ground arith in
      let new : exists (case_has_id i) l ≡ false = rw same at ids.0 in
      let mine : c.payment_id ≡ p = owned.0 t in
      rw (t, change-none (case_has_id i) (set s) l new)
        (no_rival c s i l same new (λ a. rw mine (ground (arith, free a))), h.1)
  | inr o ↦ rw o (
    still_no_rival c s i p l o (λ a. ground (arith, free a)) owned.1 h.0,
    set-active s i p l ids.1 owned.1 (λ a. ground (arith, free a)) h.1,
  )
]

none_left :
    (i p : ℕ) (l : List RecoveryCase)
    → exists (case_has_id i) l ≡ false
    → All (λ (r : RecoveryCase). r.id == i ≡ true → r.payment_id ≡ p) l
unfolding exists
none_left i p [] h = tt
none_left i p (c ∷ l) h =
    let now = unlike (c.id == i) (exists (case_has_id i) l) h in
    ((λ e. let no : false ≡ true = sym now.0 ∙ e in cc), none_left i p l now.1)

-- The payment of a case that a transaction has loaded.
pub owned-by :
    (i p : ℕ) (l : List RecoveryCase)
    → Distinct same_case l
    → exists (is_case_of i p) l ≡ true
    → All (λ (r : RecoveryCase). r.id == i ≡ true → r.payment_id ≡ p) l
unfolding exists
owned-by i p [] ids h = tt
owned-by i p (c ∷ l) ids h = elim (Bool-cases (c.id == i && c.payment_id == p)) [
  | inl t ↦
      let same : c.id ≡ i = ground arith in
      ((λ e. ground arith), none_left i p l (rw same at ids.0))
  | inr o ↦
      let there : exists (is_case_of i p) l ≡ true = rw o at h in
      elim (Bool-cases (c.id == i)) [
        | inl t ↦
            let same : c.id ≡ i = ground arith in
            let none_there : exists (is_case_of i p) l ≡ false =
              exists-weaken (is_case_of i p) (case_has_id i) l (λ r e. ground arith)
                (rw same at ids.0) in
            absurd (let no : false ≡ true = sym none_there ∙ there in cc)
        | inr n ↦
            ((λ e. absurd (let no : false ≡ true = sym n ∙ e in cc)), owned-by i p l ids.1 there)
      ]
]

swap : (a b : Bool) (p q : ℕ) → (a && (b && q == p)) ≡ true → (b && (a && p == q)) ≡ true
swap a b p q h = ground (arith, h)

pub index_free :
    (a b : Bool)
    → a ≡ true
    → (if a && b then some (integrity active_case) else none) ≡ none
    → b ≡ false
index_free a b e free = ground (arith, e, free)

-- A new case that the index takes.
pub append-active :
    (r : RecoveryCase) (l : List RecoveryCase)
    → exists (case_has_id r.id) l ≡ false
    → index_conflict r.payment_id r.id r.status l ≡ none
    → Distinct rivals l
    → Distinct rivals (l ++ r ∷ [])
append-active r l new free h =
    Distinct-append rivals l r
      (λ x e. swap (is_active x.status) (is_active r.status) x.payment_id r.payment_id e)
      (no_rival r r.status r.id l refl new (λ a. index_free (is_active r.status) _ a free)) h
