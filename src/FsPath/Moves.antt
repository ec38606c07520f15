-- ===== src/FsPath/Moves.antt =====
-- src/filesystem/path.cpp: what `operator++` makes of a position behind which the path is known.
use irods_client_library_cpp.Base.{
  ℕ, suc, ◌+◌, ◌-◌, ◌<◌, ◌≡◌, ◌≢◌, ◌⊎◌, refl, sym, ap, subst, ◌∙◌, true, false, [], ◌∷◌, ◌++◌,
  arith, ◌==◌, inl, inr, Bytes, length, length-append, take, take-append-drop, drop, drop-append,
  get_or, length-drop, length-take, append_assoc,
}
use native.Mathlib.Nat.{zero-add, suc-add}
use irods_client_library_cpp.FsPath.Iteration.{
  separator, is_empty, is_separator, to_separator, separators, Iterator, ends_in_separator,
  increment_to, increment,
}

pub get_or-append : (q s : Bytes) (k : ℕ) → get_or (q ++ s) (length q + k) 0 ≡ get_or s k 0
get_or-append [] s k = rw (zero-add k)
get_or-append (c ∷ q) s k = rw (suc-add (length q) k) (get_or-append q s k)

-- A text of separators only ends in one.
pub ends_in_last :
    (c : ℕ) (s : Bytes)
    → drop (separators (c ∷ s)) (c ∷ s) ≡ []
    → is_separator (get_or (c ∷ s) (length s) 0) ≡ true
unfolding separators
ends_in_last c [] h = ground arith
ends_in_last c (d ∷ s) h = ground (arith, ends_in_last d s)

-- The separators end at a character that is none.
pub drop-separators :
    (s : Bytes) (d : ℕ) (t : Bytes) → drop (separators s) s ≡ d ∷ t → (d == separator) ≡ false
unfolding separators is_separator
drop-separators [] d t h = cc
drop-separators (c ∷ s) d t h = ground (arith, drop-separators s d t)

pub cons_or_nil : (s : Bytes) → (s ≡ []) ⊎ (0 < length s)
cons_or_nil [] = inl refl
cons_or_nil (c ∷ s) = inr (omega arith)

module _ (pre : Bytes) (x : ℕ) (w rest : Bytes) where
  abbrev pub text : Bytes
  text = pre ++ ((x ∷ w) ++ rest)

  abbrev pub stop : ℕ
  stop = length pre + suc (length w)

  pub length-text : length text ≡ stop + length rest
  length-text = omega (arith, length-append pre ((x ∷ w) ++ rest), length-append w rest)

  pub drop-text : drop stop text ≡ rest
  drop-text =
      subst (λ n. drop n text ≡ rest) (length-append pre (x ∷ w))
        (subst (λ t. drop (length (pre ++ x ∷ w)) t ≡ rest) (append_assoc pre (x ∷ w) rest)
          (drop-append (pre ++ x ∷ w) rest))

  pub increment_end :
      rest ≡ []
      → increment text (record { element = x ∷ w; pos = length pre })
        ≡ record { element = []; pos = length text }
  unfolding increment is_empty
  increment_end h = ground (arith, length-text, h)

  pub not_end : rest ≢ [] → (length text == stop) ≡ false
  not_end h = elim (cons_or_nil rest) [
    | inl e ↦ absurd (h e)
    | inr e ↦ ground (arith, length-text, e)
  ]

  pub increment_on :
      rest ≢ []
      → increment text (record { element = x ∷ w; pos = length pre })
        ≡ increment_to text (stop + separators rest)
  unfolding increment is_empty
  increment_on h = ground (arith, not_end h, drop-text)

pub length-separators : (s : Bytes) → length (take (separators s) s) ≡ separators s
unfolding separators
length-separators [] = refl
length-separators (c ∷ s) = ground (arith, length-separators s)

pub increment_to_name :
    (q : Bytes) (d : ℕ) (t : Bytes)
    → increment_to (q ++ d ∷ t) (length q)
      ≡ record { element = to_separator (d ∷ t); pos = length q }
unfolding increment_to
increment_to_name q d t = ground (arith, length-append q (d ∷ t), drop-append q (d ∷ t))

pub all_separators : (s : Bytes) → drop (separators s) s ≡ [] → separators s ≡ length s
all_separators s h = omega (
  arith,
  ap length h,
  length-drop (separators s) s,
  length-separators s,
  length-take (separators s) s,
)

pub ends_in_separator-append :
    (q : Bytes) (c : ℕ) (s : Bytes)
    → drop (separators (c ∷ s)) (c ∷ s) ≡ []
    → is_separator (get_or (q ++ c ∷ s) (length (q ++ c ∷ s) - 1) 0) ≡ true
ends_in_separator-append q c s h =
    let place : length (q ++ c ∷ s) - 1 ≡ length q + length s =
      omega (arith, length-append q (c ∷ s)) in
    ap (λ k. is_separator (get_or (q ++ c ∷ s) k 0)) place
    ∙ ap is_separator (get_or-append q (c ∷ s) (length s))
    ∙ ends_in_last c s h

pub increment_to_trailing :
    (q : Bytes) (c : ℕ) (s : Bytes)
    → drop (separators (c ∷ s)) (c ∷ s) ≡ []
    → increment_to (q ++ c ∷ s) (length q + separators (c ∷ s))
      ≡ record { element = []; pos = length q + length s }
unfolding increment_to ends_in_separator
increment_to_trailing q c s h =
    ground
      (arith, length-append q (c ∷ s), all_separators (c ∷ s) h, ends_in_separator-append q c s h)

module _ (pre : Bytes) (x : ℕ) (w : Bytes) (c : ℕ) (s : Bytes) where
  abbrev pub gap_text : Bytes
  gap_text = text pre x w (c ∷ s)

  abbrev pub element_at : Iterator
  element_at = record { element = x ∷ w; pos = length pre }

  pub text_at_gap : gap_text ≡ (pre ++ x ∷ w) ++ c ∷ s
  text_at_gap = sym (append_assoc pre (x ∷ w) (c ∷ s))

  pub gap_not_empty : (c ∷ s) ≢ []
  gap_not_empty h = cc

  pub increment_gap :
      drop (separators (c ∷ s)) (c ∷ s) ≡ []
      → increment gap_text element_at
        ≡ record { element = []; pos = stop pre x w (c ∷ s) + length s }
  increment_gap h =
      increment_on pre x w (c ∷ s) gap_not_empty
      ∙ subst
          (λ n.
            increment_to gap_text (n + separators (c ∷ s))
            ≡ record { element = []; pos = n + length s })
          (length-append pre (x ∷ w))
          (subst
            (λ p.
              increment_to p (length (pre ++ x ∷ w) + separators (c ∷ s))
              ≡ record { element = []; pos = length (pre ++ x ∷ w) + length s })
            (sym text_at_gap) (increment_to_trailing (pre ++ x ∷ w) c s h))

  -- What stands before the next name.
  abbrev pub before_name : Bytes
  before_name = (pre ++ x ∷ w) ++ take (separators (c ∷ s)) (c ∷ s)

  pub length-before_name : length before_name ≡ stop pre x w (c ∷ s) + separators (c ∷ s)
  length-before_name = omega (
    arith,
    length-append (pre ++ x ∷ w) (take (separators (c ∷ s)) (c ∷ s)),
    length-append pre (x ∷ w),
    length-separators (c ∷ s),
  )

  module _ (d : ℕ) (t : Bytes) (e : drop (separators (c ∷ s)) (c ∷ s) ≡ d ∷ t) where
    pub first_name : to_separator (d ∷ t) ≡ d ∷ to_separator t
    unfolding to_separator
    first_name = rw (drop-separators (c ∷ s) d t e) refl

    pub gap_parts : c ∷ s ≡ take (separators (c ∷ s)) (c ∷ s) ++ d ∷ t
    gap_parts =
        sym (take-append-drop (separators (c ∷ s)) (c ∷ s))
        ∙ ap (λ r. take (separators (c ∷ s)) (c ∷ s) ++ r) e

    pub text_at_name : gap_text ≡ before_name ++ d ∷ t
    text_at_name =
        text_at_gap
        ∙ ap (λ r. (pre ++ x ∷ w) ++ r) gap_parts
        ∙ sym (append_assoc (pre ++ x ∷ w) (take (separators (c ∷ s)) (c ∷ s)) (d ∷ t))

    pub increment_name :
        increment gap_text element_at
        ≡ record { element = d ∷ to_separator t; pos = length before_name }
    increment_name =
        increment_on pre x w (c ∷ s) gap_not_empty
        ∙ ap (increment_to gap_text) (sym length-before_name)
        ∙ ap (λ p. increment_to p (length before_name)) text_at_name
        ∙ increment_to_name before_name d t
        ∙ ap (λ r. record { element = r; pos = length before_name }) first_name
