-- ===== src/Kvp/Escape.antt =====
-- src/core/src/irods_kvp_string_parser.cpp: with tokens of one character each, escape_string writes the
-- escape before each special character, and the parser copies such a character.
use irods_client_library_cpp.Base.{
  ℕ, ◌≡◌, ◌≢◌, ◌⊎◌, inl, inr, refl, ap, false, ◌||◌, List, [], ◌∷◌, ◌++◌, arith, ◌==◌,
  if◌then◌else◌, Bytes, str_eq, Bool-cases,
}
use irods_client_library_cpp.Kvp.{
  Boost, contains, Tokens, first_token, is_member, write_at, escape_from, escape_string,
}

module _ (boost : Boost) where
  pub starts_one : (c x : ℕ) (s : Bytes) → boost.starts_with (c ∷ s) (x ∷ []) ≡ (c == x)
  starts_one c x s = elim (Bool-cases (boost.starts_with (c ∷ s) (x ∷ []))) [
    | inl p ↦ let (rest, q) = (boost.starts_with_iff (c ∷ s) (x ∷ [])).0 p in rw p (ground arith)
    | inr p ↦ elim (Bool-cases (c == x)) [
      | inl q ↦ let t = (boost.starts_with_iff (c ∷ s) (x ∷ [])).1 (s, ground arith) in cc
      | inr q ↦ cc
    ]
  ]

  pub starts_nil : (x : ℕ) → boost.starts_with [] (x ∷ []) ≡ false
  starts_nil x = elim (Bool-cases (boost.starts_with [] (x ∷ []))) [
    | inl p ↦ let (rest, q) = (boost.starts_with_iff [] (x ∷ [])).0 p in cc
    | inr p ↦ p
  ]

  pub contains_one : (c x : ℕ) → contains boost (c ∷ []) (x ∷ []) ≡ (c == x)
  unfolding contains
  contains_one c x = ground (arith, starts_one c x [], starts_nil x)

abbrev pub one_char : ℕ → ℕ → ℕ → Tokens
one_char a d e = record { assoc = a ∷ []; delim = d ∷ []; escape = e ∷ [] }

-- What the escaping makes of one character.
unfoldable pub hide : ℕ → ℕ → ℕ → ℕ → Bytes
hide a d e c = if c == a || c == d || c == e then e ∷ c ∷ [] else c ∷ []

unfoldable pub hide_all : ℕ → ℕ → ℕ → Bytes → Bytes
unfolding hide
hide_all a d e [] = []
hide_all a d e (c ∷ s) = hide a d e c ++ hide_all a d e s

-- The special tokens are the association and the delimiter, in either order.
abbrev pub Specials : ℕ → ℕ → List Bytes → Type 0
Specials a d toks = (toks ≡ (a ∷ []) ∷ (d ∷ []) ∷ []) ⊎ (toks ≡ (d ∷ []) ∷ (a ∷ []) ∷ [])

module _ (boost : Boost) (a d e : ℕ) (toks : List Bytes) where
  write_at-hide :
      (c : ℕ) (s : Bytes)
      → a ≢ e
      → d ≢ e
      → Specials a d toks
      → write_at boost (e ∷ []) toks c s ≡ (hide a d e c, 0)
  unfolding write_at hide first_token is_member str_eq
  write_at-hide c s ae de (inl t) =
      rw t (ground (arith, starts_one boost c a s, starts_one boost c d s, starts_one boost c e s))
  write_at-hide c s ae de (inr t) =
      rw t (ground (arith, starts_one boost c a s, starts_one boost c d s, starts_one boost c e s))

  pub escape_string-hide_all :
      (s : Bytes)
      → a ≢ e
      → d ≢ e
      → Specials a d toks
      → escape_string boost s (e ∷ []) toks ≡ hide_all a d e s
  unfolding escape_string escape_from hide_all
  escape_string-hide_all [] ae de t = refl
  escape_string-hide_all (c ∷ s) ae de t =
      rw (write_at-hide c s ae de t) (ap (◌++◌ (hide a d e c)) (escape_string-hide_all s ae de t))
