-- ===== src/Logger/Lines.antt =====
-- What neither of the two formatters shows.
use text.Mathlib.Text.{◌==◌ as str_eq}
use razor_pay.Prelude.{
  ℕ, ◌≤◌, ◌⊎◌, ◌≢◌, ◌++◌, is_some, ◌≡◌, refl, String, Bool, true, false, ◌||◌, Option, none, some,
  List, [], ◌∷◌, ◌==◌, arith, All, All-append, Option-cases, inl, inr,
}
use razor_pay.Provider.{is_space, lstrip}
use razor_pay.Logger.{
  Text, Pattern, is_token, token_run, spaced, after, key, bearer, scrubbed_key, scrubbed_bearer,
  sub, scrub_string, LogRecord, extra_keys, extras, exc_text, log_data, text_line,
}
use razor_pay.Logger.Hides.{
  shows, escapes_none, escapes_self, sub-hides, Back-token_run, Back-spaced,
}

-- A character that a key or a token is made of: a letter, a digit, "_", "-" or ".".
abbrev pub IsWord : ℕ → Type 0
IsWord c =
    (97 ≤ c) × (c ≤ 122)
    ⊎ ((65 ≤ c) × (c ≤ 90) ⊎ ((48 ≤ c) × (c ≤ 57) ⊎ ((c ≡ 95) ⊎ ((c ≡ 45) ⊎ (c ≡ 46)))))

-- A blank of ASCII: a tab to a carriage return, or a space.
abbrev pub IsBlank : ℕ → Type 0
IsBlank c = (9 ≤ c) × (c ≤ 13) ⊎ (c ≡ 32)

-- Nowhere does "sk-" stand before a character of a key.
abbrev pub HasNoKey : Text → Type 0
HasNoKey s = (before rest : Text) (c : ℕ) → IsWord c → s ≢ before ++ 115 ∷ 107 ∷ 45 ∷ c ∷ rest

-- Nowhere does "Bearer" with blanks stand before a character of a token.
abbrev pub HasNoBearer : Text → Type 0
HasNoBearer s =
    (before blanks rest : Text) (b c : ℕ)
    → IsBlank b
    → All IsBlank blanks
    → IsWord c
    → s ≢ before ++ 66 ∷ 101 ∷ 97 ∷ 114 ∷ 101 ∷ 114 ∷ b ∷ (blanks ++ c ∷ rest)

abbrev pub IsHidden : Text → Type 0
IsHidden s = HasNoKey s × HasNoBearer s

-- The entries of the JSON log that are free text.
abbrev pub is_scrubbed : String → Bool
is_scrubbed k = str_eq k "message" || str_eq k "exc_info"

key_first : (c : ℕ) (s : Text) → c == 0x73 ≡ false → key (c ∷ s) ≡ none
unfolding after
key_first c s other = ground (arith, other)

bearer_first : (c : ℕ) (s : Text) → c == 0x42 ≡ false → bearer (c ∷ s) ≡ none
unfolding after
bearer_first c s other = ground (arith, other)

-- The words without their first characters: "k-" and "earer"
abbrev key_tail : Text
key_tail = 0x6b ∷ 0x2d ∷ []

abbrev bearer_tail : Text
bearer_tail = 0x65 ∷ 0x61 ∷ 0x72 ∷ 0x65 ∷ 0x72 ∷ []

-- The first substitution leaves no bearer token.
no_bearer : (text : Text) → shows bearer (sub bearer scrubbed_bearer 0 text) ≡ false
unfolding shows after is_space token_run spaced lstrip is_token
no_bearer text =
    sub-hides bearer 0x42 _ bearer_first refl 0x42 bearer_tail spaced
      (refl, (refl, (refl, (refl, (refl, tt))))) (Back-spaced bearer 0x42 _ bearer_first refl)
      (λ t. refl) 0 text (escapes_self bearer text)

-- The second leaves no key, and no bearer token where there was none.
no_key : (text : Text) → shows key (sub key scrubbed_key 0 text) ≡ false
unfolding shows after token_run is_space is_token
no_key text =
    sub-hides key 0x73 _ key_first refl 0x73 key_tail token_run (refl, (refl, tt))
      (Back-token_run key 0x73 _ key_first refl) (λ t. refl) 0 text (escapes_self key text)

still_no_bearer :
    (text : Text) → shows bearer text ≡ false → shows bearer (sub key scrubbed_key 0 text) ≡ false
unfolding shows after is_space token_run spaced lstrip is_token
still_no_bearer text none_before =
    sub-hides key 0x73 _ key_first refl 0x42 bearer_tail spaced
      (refl, (refl, (refl, (refl, (refl, tt))))) (Back-spaced key 0x73 _ key_first refl) (λ t. refl)
      0 text (escapes_none key bearer text none_before)

IsWord-is_token : (c : ℕ) → IsWord c → is_token c ≡ true
unfolding is_token
IsWord-is_token c h = ground arith

IsWord-black : (c : ℕ) → IsWord c → is_space c ≡ false
unfolding is_space
IsWord-black c h = ground arith

IsBlank-is_space : (c : ℕ) → IsBlank c → is_space c ≡ true
unfolding is_space
IsBlank-is_space c h = ground arith

-- What begins with a match after a text shows one.
shows-append :
    (p : Pattern) (before : Text) (c : ℕ) (s : Text)
    → is_some (p (c ∷ s)) ≡ true
    → shows p (before ++ c ∷ s) ≡ true
unfolding shows
shows-append p [] c s h = ground (arith, h)
shows-append p (x ∷ before) c s h = ground (arith, shows-append p before c s h)

token_after :
    (blanks rest : Text) (c : ℕ)
    → All IsBlank blanks
    → IsWord c
    → is_some (token_run (lstrip (blanks ++ c ∷ rest))) ≡ true
unfolding lstrip token_run
token_after [] rest c white word =
    let t = IsWord-is_token c word in let b = IsWord-black c word in ground arith
token_after (b ∷ blanks) rest c white word =
    let w = IsBlank-is_space b white.0 in rw w (token_after blanks rest c white.1 word)

HasNoKey-shows : (s : Text) → shows key s ≡ false → HasNoKey s
unfolding after token_run
HasNoKey-shows s h before rest c word same =
    let t = IsWord-is_token c word in
    let found = shows-append key before 115 (107 ∷ 45 ∷ c ∷ rest) (rw t refl) in
    absurd (let no : shows key (before ++ 115 ∷ 107 ∷ 45 ∷ c ∷ rest) ≡ false = (rw same at h) in cc)

HasNoBearer-shows : (s : Text) → shows bearer s ≡ false → HasNoBearer s
unfolding after spaced
HasNoBearer-shows s h before blanks rest b c white more word same =
    let t = token_after blanks rest c more word in
    let w = IsBlank-is_space b white in
    let tail = 101 ∷ 97 ∷ 114 ∷ 101 ∷ 114 ∷ b ∷ (blanks ++ c ∷ rest) in
    let found = shows-append bearer before 66 tail (rw (w, t) refl) in
    absurd (let no : shows bearer (before ++ 66 ∷ tail) ≡ false = (rw same at h) in cc)

-- Whatever the text, what scrubbing returns has neither of the two.
IsHidden-scrub_string : (text : Text) → IsHidden (scrub_string text)
unfolding scrub_string
IsHidden-scrub_string text =
    let once = sub bearer scrubbed_bearer 0 text in
    (
      HasNoKey-shows (scrub_string text) (no_key once),
      HasNoBearer-shows (scrub_string text) (still_no_bearer once (no_bearer text)),
    )

-- An entry that is free text is hidden.
abbrev pub IsSafe : String × Text → Type 0
IsSafe e = is_scrubbed e.0 ≡ true → IsHidden e.1

extras-IsSafe :
    (extra : String → Option Text) (keys : List String)
    → All (λ k. is_scrubbed k ≡ false) keys
    → All IsSafe (extras extra keys)
unfolding extras
extras-IsSafe extra [] h = tt
extras-IsSafe extra (k ∷ keys) h = elim (Option-cases (extra k)) [
  | inl gone ↦ rw (gone, extras) (extras-IsSafe extra keys h.1)
  | inr (v, e) ↦
      rw (e, extras)
        (
          (λ bad. absurd (let no : false ≡ true = rw h.0 at bad in cc)),
          extras-IsSafe extra keys h.1,
        )
]

exc_text-IsSafe : (o : Option Text) → All IsSafe (exc_text o)
exc_text-IsSafe none = tt
exc_text-IsSafe (some t) = ((λ e. IsHidden-scrub_string t), tt)

-- Whatever a record holds: in the message and the exception of the JSON log, and in a line of the text
-- log, "sk-" stands nowhere before a letter, a digit, "_", "-" or ".", and "Bearer" with blanks of ASCII
-- stands nowhere before one. Other spellings of "Bearer" and the rest of a token behind any other
-- character are not spoken of.
pub logs-IsSafe :
    (get_message render : LogRecord → Text) (timestamp correlation_id : Text) (r : LogRecord)
    → All IsSafe (log_data get_message timestamp correlation_id r) × IsHidden (text_line render r)
unfolding log_data text_line
logs-IsSafe get_message render timestamp correlation_id r =
    let rest =
      All-append IsSafe (extras r.extra extra_keys) (exc_text r.exc_info)
        (extras-IsSafe r.extra extra_keys search) (exc_text-IsSafe r.exc_info) in
    (
      (
        (λ e. cc),
        ((λ e. cc), ((λ e. cc), ((λ e. IsHidden-scrub_string (get_message r)), ((λ e. cc), rest)))),
      ),
      IsHidden-scrub_string (render (record r { msg = scrub_string r.msg })),
    )
