-- ===== src/Logger/Hides.antt =====
-- What a scrubbed text does not show.
use razor_pay.Prelude.{
  ℕ, zero, suc, ◌-◌, ◌≡◌, refl, sym, ◌∙◌, Bool, true, false, not, ◌&&◌, ◌||◌, none, [], ◌∷◌, ◌++◌,
  ◌==◌, arith, length, All, is_some, Bool-cases, Option-cases, inl, inr,
}
use razor_pay.Provider.{is_space, lstrip}
use razor_pay.Logger.{Text, Pattern, is_token, token_run, spaced, after, sub}

-- The pattern matches somewhere in the text.
unfoldable pub shows : Pattern → Text → Bool
shows p [] = false
shows p (c ∷ s) = is_some (p (c ∷ s)) || shows p s

-- Somewhere `q` matches and `p` does not.
pub escapes : Pattern → Pattern → Text → Bool
escapes p q [] = false
escapes p q (c ∷ s) = is_some (q (c ∷ s)) && not (is_some (p (c ∷ s))) || escapes p q s

token-head : (c : ℕ) (s : Text) → is_some (token_run (c ∷ s)) ≡ is_token c
unfolding token_run
token-head c s = ground arith

spaced-head :
    (c : ℕ) (s : Text) → is_some (spaced (c ∷ s)) ≡ (is_space c && is_some (token_run (lstrip s)))
unfolding spaced
spaced-head c s = ground arith

-- A pattern that begins with a character, and a mark that begins with the same.
module _ (p : Pattern) (f : ℕ) (mark : Text)
    (first : (c : ℕ) (s : Text) → c == f ≡ false → p (c ∷ s) ≡ none)
    (solid : is_space f ≡ false) where
  abbrev pub put : Text → Text
  put s = sub p (f ∷ mark) 0 s

  -- What matches after the substitution has matched before.
  abbrev pub Back : Pattern → Type 0
  Back q = (s : Text) → is_some (q (put s)) ≡ true → is_some (q s) ≡ true

  -- The first character stays, and so does what follows, if it is another one.
  sub-other : (c : ℕ) (s : Text) → c == f ≡ false → put (c ∷ s) ≡ c ∷ put s
  unfolding sub
  sub-other c s other = rw (first c s other, sub)

  sub-head : (c : ℕ) (s : Text) → (t : Text) × (put (c ∷ s) ≡ c ∷ t)
  unfolding sub
  sub-head c s = elim (Bool-cases (c == f)) [
    | inl same ↦ elim (Option-cases (p (c ∷ s))) [
      | inl gone ↦ (put s, rw (gone, sub))
      | inr (rest, found) ↦
          let e : f ≡ c = ground arith in
          (mark ++ sub p (f ∷ mark) (length s - length rest) s, rw (found, sub, e))
    ]
    | inr other ↦ (put s, sub-other c s other)
  ]

  pub Back-token_run : Back token_run
  unfolding sub
  Back-token_run [] h = h
  Back-token_run (c ∷ s) h =
      let (t, e) = sub-head c s in
      let h' : is_some (token_run (c ∷ t)) ≡ true = rw e at h in rw token-head (rw token-head at h')

  -- White space is not what a match begins with.
  lstrip-put : (s : Text) → lstrip (put s) ≡ put (lstrip s)
  unfolding lstrip sub
  lstrip-put [] = refl
  lstrip-put (c ∷ s) = elim (Bool-cases (is_space c)) [
    | inl white ↦
        let other : c == f ≡ false = ground (arith, white, solid) in
        rw (sub-other c s other, lstrip, white, lstrip-put s)
    | inr black ↦ let (t, e) = sub-head c s in rw (e, lstrip, black) (rw e)
  ]

  pub Back-spaced : Back spaced
  unfolding sub
  Back-spaced [] h = h
  Back-spaced (c ∷ s) h =
      let (t, e) = sub-head c s in
      let h' : is_space c && is_some (token_run (lstrip t)) ≡ true = rw (e, spaced-head) at h in
      let white : is_space c ≡ true = ground (arith, h') in
      let other : c == f ≡ false = ground (arith, white, solid) in
      let same : c ∷ put s ≡ c ∷ t = sym (sub-other c s other) ∙ e in
      let rest : put s ≡ t = cc in
      let run : is_some (token_run (put (lstrip s))) ≡ true =
        rw (← lstrip-put s, rest) (ground (arith, h')) in
      rw (spaced-head, white, Back-token_run (lstrip s) run)

  -- The characters of a word that are not the first of a match.
  Back-after :
      (word : Text) (q : Pattern) → All (λ a. a == f ≡ false) word → Back q → Back (after word q)
  unfolding after sub
  Back-after [] q none_first back s h = back s h
  Back-after (a ∷ word) q none_first back [] h = h
  Back-after (a ∷ word) q none_first back (c ∷ s) h = elim (Bool-cases (c == a)) [
    | inl t ↦
        let other : c == f ≡ false = ground (arith, none_first.0) in
        let h' : is_some (after word q (put s)) ≡ true = rw (sub-other c s other, after, t) at h in
        rw (after, t) (Back-after word q none_first.1 back s h')
    | inr o ↦ let (u, e) = sub-head c s in let h' : false ≡ true = rw (e, after, o) at h in cc
  ]

  -- A character that is no match does not become the beginning of one.
  after-put :
      (a : ℕ) (word : Text) (q : Pattern)
      → All (λ x. x == f ≡ false) word
      → Back q
      → (c : ℕ) (s : Text) → is_some (after (a ∷ word) q (c ∷ put s)) ≡ true
      → is_some (after (a ∷ word) q (c ∷ s)) ≡ true
  unfolding after
  after-put a word q none_first back c s h = elim (Bool-cases (c == a)) [
    | inl t ↦ rw (after, t) (Back-after word q none_first back s (rw (after, t) at h))
    | inr o ↦ absurd (let h' : false ≡ true = rw (after, o) at h in cc)
  ]

  -- After the substitution `q`, a word and what follows it, is shown nowhere, if it was shown only
  -- where the pattern matches.
  pub sub-hides :
      (a : ℕ) (word : Text) (q : Pattern)
      → All (λ x. x == f ≡ false) word
      → Back q
      → ((t : Text) → shows (after (a ∷ word) q) ((f ∷ mark) ++ t) ≡ shows (after (a ∷ word) q) t)
      → (skip : ℕ) (s : Text) → escapes p (after (a ∷ word) q) s ≡ false
      → shows (after (a ∷ word) q) (sub p (f ∷ mark) skip s) ≡ false
  unfolding sub shows escapes
  sub-hides a word q none_first back quiet skip [] h = refl
  sub-hides a word q none_first back quiet (suc k) (c ∷ s) h =
      sub-hides a word q none_first back quiet k s (ground (arith, h))
  sub-hides a word q none_first back quiet zero (c ∷ s) h = elim (Option-cases (p (c ∷ s))) [
    | inl gone ↦
        let rest = sub-hides a word q none_first back quiet zero s (ground (arith, h)) in
        let before : is_some (after (a ∷ word) q (c ∷ s)) && true ≡ false = head gone in
        let now = after-put a word q none_first back c s in
        rw (gone, sub) (ground (arith, rest, before, now))
    | inr (rest, found) ↦
        rw (found, sub)
          (quiet _
            ∙ sub-hides a word q none_first back quiet (length s - length rest) s
                (ground (arith, h)))
  ]
    where
      head : p (c ∷ s) ≡ none → is_some (after (a ∷ word) q (c ∷ s)) && true ≡ false
      head gone =
          let h' : is_some (after (a ∷ word) q (c ∷ s)) && true || escapes p (after (a ∷ word) q) s
              ≡ false =
            rw gone at h in
          ground (arith, h')

-- What is shown nowhere does not escape.
pub escapes_none : (p q : Pattern) (s : Text) → shows q s ≡ false → escapes p q s ≡ false
unfolding shows escapes
escapes_none p q [] h = refl
escapes_none p q (c ∷ s) h = ground (arith, h, escapes_none p q s)

pub escapes_self : (p : Pattern) (s : Text) → escapes p p s ≡ false
unfolding escapes
escapes_self p [] = refl
escapes_self p (c ∷ s) = ground (arith, escapes_self p s)
