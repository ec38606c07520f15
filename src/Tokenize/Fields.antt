-- ===== src/Tokenize/Fields.antt =====
-- src/core/src/irods_string_tokenize.cpp: string_tokenize against a description that reads the string
-- once, a character at a time.
use irods_client_library_cpp.Base.{
  ℕ, zero, suc, ◌≤◌, ◌≡◌, refl, sym, ap, ◌∙◌, true, false, List, [], ◌∷◌, ◌++◌, arith,
  if◌then◌else◌, ◌==◌, Bool-cases, inl, inr, Bytes, length, append_assoc, append-nil,
}
use irods_client_library_cpp.Tokenize.{
  is_one_of, skip_delims, to_delim, before_delim, drop_space, tokenize_loop, string_tokenize,
}

-- The token that was being read, if there is one.
unfoldable pub flush : Bytes → List Bytes
flush [] = []
flush (c ∷ s) = (if c == b' ' then s else c ∷ s) ∷ []

-- The fields of a text behind the part `cur` of a field.
unfoldable pub fields : Bytes → Bytes → Bytes → List Bytes
unfolding flush
fields delim cur [] = flush cur
fields delim cur (c ∷ s) =
    if is_one_of delim c then flush cur ++ fields delim [] s else fields delim (cur ++ c ∷ []) s

module _ (delim : Bytes) where
  length-skip_delims : (s : Bytes) → length (skip_delims delim s) ≤ length s
  unfolding skip_delims
  length-skip_delims [] = omega arith
  length-skip_delims (c ∷ s) = ground (arith, length-skip_delims s)

  length-to_delim : (s : Bytes) → length (to_delim delim s) ≤ length s
  unfolding to_delim
  length-to_delim [] = omega arith
  length-to_delim (c ∷ s) = ground (arith, length-to_delim s)

  fields-skip_delims : (s : Bytes) → fields delim [] (skip_delims delim s) ≡ fields delim [] s
  unfolding fields skip_delims
  fields-skip_delims [] = refl
  fields-skip_delims (c ∷ s) = ground (arith, fields-skip_delims s)

  -- What a round of the loop takes off.
  fields-token :
      (x : ℕ) (xs s : Bytes)
      → fields delim (x ∷ xs) s
        ≡ drop_space (x ∷ (xs ++ before_delim delim s)) ∷ fields delim [] (to_delim delim s)
  unfolding fields before_delim to_delim drop_space
  fields-token x xs [] = rw append-nil
  fields-token x xs (c ∷ s) = elim (Bool-cases (is_one_of delim c)) [
    | inl e ↦ rw e (rw (e, fields) (rw append-nil))
    | inr e ↦ rw e (rw (fields-token x (xs ++ c ∷ []) s, append_assoc xs (c ∷ []) _))
  ]

  skip_delims-skip_delims :
      (s : Bytes) → skip_delims delim (skip_delims delim s) ≡ skip_delims delim s
  unfolding skip_delims
  skip_delims-skip_delims [] = refl
  skip_delims-skip_delims (c ∷ s) = ground (arith, skip_delims-skip_delims s)

  length-skip_delims_lt :
      (c : ℕ) (s : Bytes) → is_one_of delim c ≡ true → length (skip_delims delim (c ∷ s)) ≤ length s
  unfolding skip_delims
  length-skip_delims_lt c s e = ground (arith, length-skip_delims s)

  not_delim : (c : ℕ) (s : Bytes) → skip_delims delim (c ∷ s) ≡ c ∷ s → is_one_of delim c ≡ false
  not_delim c s h = elim (Bool-cases (is_one_of delim c)) [
    | inl e ↦ absurd (omega (arith, ap length h, length-skip_delims_lt c s e))
    | inr e ↦ e
  ]

  to_delim-cons :
      (c : ℕ) (s : Bytes) → is_one_of delim c ≡ false → to_delim delim (c ∷ s) ≡ to_delim delim s
  unfolding to_delim
  to_delim-cons c s e = rw e

  before_delim-cons :
      (c : ℕ) (s : Bytes)
      → is_one_of delim c ≡ false
      → before_delim delim (c ∷ s) ≡ c ∷ before_delim delim s
  unfolding before_delim
  before_delim-cons c s e = rw e

  fields-cons :
      (c : ℕ) (s : Bytes)
      → is_one_of delim c ≡ false
      → fields delim [] (c ∷ s)
        ≡ drop_space (c ∷ before_delim delim s)
          ∷ fields delim [] (skip_delims delim (to_delim delim s))
  unfolding fields
  fields-cons c s e = rw e (rw (fields-token c [] s, fields-skip_delims (to_delim delim s)))

  -- Enough fuel: the loop from the start of a token, or from the end.
  tokenize_loop-fields :
      (f : ℕ) (s : Bytes) (tok : List Bytes)
      → length s ≤ f
      → skip_delims delim s ≡ s
      → tokenize_loop f delim s tok ≡ tok ++ fields delim [] s
  unfolding tokenize_loop
  tokenize_loop-fields zero [] tok h k = unfold fields in sym (append-nil tok)
  tokenize_loop-fields zero (c ∷ s) tok h k = elim h [ ]
  tokenize_loop-fields (suc f) [] tok h k = unfold fields in sym (append-nil tok)
  tokenize_loop-fields (suc f) (c ∷ s) tok h k =
      let e = not_delim c s k in
      let token = drop_space (c ∷ before_delim delim s) in
      rw (to_delim-cons c s e, before_delim-cons c s e, fields-cons c s e)
        (tokenize_loop-fields f (skip_delims delim (to_delim delim s)) (tok ++ token ∷ [])
            (omega (arith, length-skip_delims (to_delim delim s), length-to_delim s))
            (skip_delims-skip_delims (to_delim delim s))
          ∙ append_assoc tok (token ∷ []) _)

-- For every string and delimiters, string_tokenize appends the fields of the string: its longest
-- stretches without a delimiter, each without one leading space.
pub string_tokenize-fields :
    (s delim : Bytes) (tok : List Bytes) → string_tokenize s delim tok ≡ tok ++ fields delim [] s
unfolding string_tokenize
string_tokenize-fields s delim tok =
    tokenize_loop-fields delim (length s) (skip_delims delim s) tok (length-skip_delims delim s)
      (skip_delims-skip_delims delim s)
    ∙ ap (◌++◌ tok) (fields-skip_delims delim s)
