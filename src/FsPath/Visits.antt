-- ===== src/FsPath/Visits.antt =====
-- src/filesystem/path.cpp: the loops from begin() to end().
use irods_client_library_cpp.Base.{
  ℕ, zero, suc, ◌+◌, ◌≤◌, ◌<◌, ◌≡◌, ◌⊎◌, ◌⊎◌, refl, sym, ap, subst, ◌∙◌, false, List, [], ◌∷◌, ◌++◌,
  arith, ◌==◌, if◌then◌else◌, Bool-cases, ==_iff, inl, inr, Bytes, length, length-append, drop,
  length-drop,
}
use irods_client_library_cpp.FsPath.Iteration.{
  separator, is_empty, is_absolute, to_separator, separators, Iterator, begin, end, increment,
}
use irods_client_library_cpp.FsPath.{range, elements}
use irods_client_library_cpp.FsPath.Elements.{
  names, names-drop, names-to_separator, after, split_path, from_separator, split_at,
}
use irods_client_library_cpp.FsPath.Moves.{
  text, stop, length-text, increment_end, gap_text, element_at, increment_gap, before_name,
  increment_name, text_at_name, drop-separators,
}

range_stops :
    (n : ℕ) (p e : Bytes) → range n p (record { element = e; pos = length p }) (length p) ≡ []
unfolding range
range_stops zero p e = refl
range_stops (suc n) p e = ground arith

range_first :
    (n : ℕ) (p e : Bytes) (at : ℕ)
    → at < length p
    → range (suc n) p (record { element = e; pos = at }) (length p)
      ≡ e ∷ range n p (increment p (record { element = e; pos = at })) (length p)
unfolding range
range_first n p e at h = ground arith

increment_trailing :
    (p : Bytes) (at : ℕ)
    → length p ≡ suc at
    → increment p (record { element = []; pos = at }) ≡ record { element = []; pos = length p }
unfolding increment is_empty
increment_trailing p at h = ground arith

range_trailing :
    (k at : ℕ) (p : Bytes)
    → length p ≡ suc at
    → range (suc k) p (record { element = []; pos = at }) (length p) ≡ [] ∷ []
range_trailing k at p h =
    range_first k p [] at (omega arith)
    ∙ ap (λ it. [] ∷ range k p it (length p)) (increment_trailing p at h)
    ∙ ap (λ es. [] ∷ es) (range_stops k p [])

parts : (s : Bytes) → (s ≡ []) ⊎ ((d : ℕ) × (t : Bytes) × (s ≡ d ∷ t))
parts [] = inl refl
parts (d ∷ t) = inr (d, t, refl)

after_nil : [] ≡ after []
unfolding after
after_nil = refl

names_nil : [] ∷ [] ≡ names [] []
unfolding names
names_nil = refl

-- Behind a gap that ends the path.
range_gap_end :
    (m : ℕ) (pre : Bytes) (x : ℕ) (w : Bytes) (c : ℕ) (s : Bytes)
    → 0 < m
    → drop (separators (c ∷ s)) (c ∷ s) ≡ []
    → range m
        (gap_text pre x w c s)
        (increment (gap_text pre x w c s) (element_at pre x w c s))
        (length (gap_text pre x w c s))
      ≡ names [] (c ∷ s)
range_gap_end zero pre x w c s h e = absurd (omega arith)
range_gap_end (suc k) pre x w c s h e =
    let p = gap_text pre x w c s in
    ap (λ it. range (suc k) p it (length p)) (increment_gap pre x w c s e)
    ∙ range_trailing k (stop pre x w (c ∷ s) + length s) p
        (omega (arith, length-text pre x w (c ∷ s)))
    ∙ names_nil
    ∙ ap (names []) (sym e)
    ∙ names-drop (c ∷ s)

name_starts :
    (d : ℕ) (t : Bytes)
    → (d == separator) ≡ false
    → names [] (d ∷ t) ≡ (d ∷ to_separator t) ∷ after (from_separator t)
unfolding names
name_starts d t h = rw h (names-to_separator d [] t)

after_cons : (c : ℕ) (s : Bytes) → names [] (c ∷ s) ≡ after (c ∷ s)
unfolding after
after_cons c s = refl

after_name :
    (c : ℕ) (s : Bytes) (d : ℕ) (t : Bytes)
    → drop (separators (c ∷ s)) (c ∷ s) ≡ d ∷ t
    → (d ∷ to_separator t) ∷ after (from_separator t) ≡ after (c ∷ s)
after_name c s d t e =
    sym (name_starts d t (drop-separators (c ∷ s) d t e))
    ∙ ap (names []) (sym e)
    ∙ names-drop (c ∷ s)
    ∙ after_cons c s

rest_shorter :
    (c : ℕ) (s : Bytes) (d : ℕ) (t : Bytes)
    → drop (separators (c ∷ s)) (c ∷ s) ≡ d ∷ t
    → suc (length (to_separator t)) + length (from_separator t) ≤ suc (length s)
rest_shorter c s d t e = omega (
  arith,
  ap length e,
  length-drop (separators (c ∷ s)) (c ∷ s),
  ap length (split_at t),
  length-append (to_separator t) (from_separator t),
)

-- With as much fuel as the text is long, the iterator visits an element and what stands behind it.
range_names :
    (n : ℕ) (pre : Bytes) (x : ℕ) (w rest : Bytes)
    → suc (length w) + length rest ≤ n
    → range n
        (text pre x w rest)
        (record { element = x ∷ w; pos = length pre })
        (length (text pre x w rest))
      ≡ (x ∷ w) ∷ after rest
range_names zero pre x w rest h = absurd (omega arith)
range_names (suc m) pre x w [] h =
    let p = text pre x w [] in
    range_first m p (x ∷ w) (length pre) (omega (arith, length-text pre x w []))
    ∙ ap (λ it. (x ∷ w) ∷ range m p it (length p)) (increment_end pre x w [] refl)
    ∙ ap (λ es. (x ∷ w) ∷ es) (range_stops m p [] ∙ after_nil)
range_names (suc m) pre x w (c ∷ s) h =
    let p = gap_text pre x w c s in
    range_first m p (x ∷ w) (length pre) (omega (arith, length-text pre x w (c ∷ s)))
    ∙ ap (λ es. (x ∷ w) ∷ es)
        (elim (parts (drop (separators (c ∷ s)) (c ∷ s))) [
          | inl e ↦ range_gap_end m pre x w c s (omega arith) e ∙ after_cons c s
          | inr (d, t, e) ↦
              let q = before_name pre x w c s in
              let it : Iterator = record { element = d ∷ to_separator t; pos = length q } in
              ap (λ it. range m p it (length p)) (increment_name pre x w c s d t e)
              ∙ subst
                  (λ p. range m p it (length p) ≡ (d ∷ to_separator t) ∷ after (from_separator t))
                  (ap (λ r. q ++ d ∷ r) (split_at t) ∙ sym (text_at_name pre x w c s d t e))
                  (range_names m q d (to_separator t) (from_separator t)
                    (omega (arith, h, rest_shorter c s d t e)))
              ∙ after_name c s d t e
        ])

tail_of : List Bytes → List Bytes
tail_of [] = []
tail_of (e ∷ es) = es

cons_tail : {e f : Bytes} {es fs : List Bytes} → (e ∷ es) ≡ (f ∷ fs) → es ≡ fs
unfolding tail_of
cons_tail h = ap tail_of h

-- From behind the root of an absolute path to its end.
pub range-root :
    (m : ℕ) (s : Bytes)
    → length s ≤ m
    → range m
        (separator ∷ s)
        (increment (separator ∷ s) (record { element = separator ∷ []; pos = 0 }))
        (length (separator ∷ s))
      ≡ after s
range-root m s h = cons_tail (
    sym (range_first m (separator ∷ s) (separator ∷ []) 0 (omega arith))
    ∙ range_names (suc m) [] separator [] s (omega arith))

pub begins_with :
    (c : ℕ) (s : Bytes)
    → begin (c ∷ s)
      ≡ record { element = if c == separator then separator ∷ [] else c ∷ to_separator s; pos = 0 }
unfolding begin is_absolute to_separator
begins_with c s = ground arith

-- The loop over a path, whatever the fuel.
visits : ℕ → Bytes → List Bytes
unfolding end
visits n p = range n p (begin p) (end p).pos

visits_from :
    (n c : ℕ) (s e : Bytes)
    → (if c == separator then separator ∷ [] else c ∷ to_separator s) ≡ e
    → visits n (c ∷ s) ≡ range n (c ∷ s) (record { element = e; pos = 0 }) (length (c ∷ s))
unfolding visits end
visits_from n c s e h =
    ap (λ it. range n (c ∷ s) it (length (c ∷ s))) (begins_with c s)
    ∙ ap (λ e. range n (c ∷ s) (record { element = e; pos = 0 }) (length (c ∷ s))) h

split_path-root : (s : Bytes) → (separator ∷ []) ∷ after s ≡ split_path (separator ∷ s)
unfolding split_path
split_path-root s = refl

split_path-name :
    (c : ℕ) (s : Bytes)
    → (c == separator) ≡ false
    → (c ∷ to_separator s) ∷ after (from_separator s) ≡ split_path (c ∷ s)
unfolding split_path
split_path-name c s h = rw h (sym (names-to_separator c [] s))

visits-absolute :
    (n : ℕ) (s : Bytes) → suc (length s) ≤ n → visits n (separator ∷ s) ≡ split_path (separator ∷ s)
visits-absolute n s h =
    visits_from n separator s (separator ∷ []) refl
    ∙ range_names n [] separator [] s (omega (arith, h))
    ∙ split_path-root s

visits-relative :
    (n c : ℕ) (s : Bytes)
    → suc (length s) ≤ n
    → (c == separator) ≡ false
    → visits n (c ∷ s) ≡ split_path (c ∷ s)
visits-relative n c s l h =
    let it : Iterator = record { element = c ∷ to_separator s; pos = 0 } in
    visits_from n c s (c ∷ to_separator s) (rw h refl)
    ∙ subst
        (λ r. range n (c ∷ r) it (length (c ∷ r)) ≡ (c ∷ to_separator s) ∷ after (from_separator s))
        (split_at s)
        (range_names n [] c (to_separator s) (from_separator s) (
          omega
            (arith, l, ap length (split_at s), length-append (to_separator s) (from_separator s))))
    ∙ split_path-name c s h

visits-split_path : (n : ℕ) (p : Bytes) → length p < n → visits n p ≡ split_path p
unfolding visits split_path begin end
visits-split_path n [] h = range_stops n [] []
visits-split_path n (c ∷ s) h = elim (Bool-cases (c == separator)) [
  | inl e ↦
      subst (λ c. visits n (c ∷ s) ≡ split_path (c ∷ s)) (sym ((==_iff c separator).0 e))
        (visits-absolute n s (omega (arith, h)))
  | inr e ↦ visits-relative n c s (omega (arith, h)) e
]

pub elements_visit : (p : Bytes) → elements p ≡ split_path p
unfolding elements visits
elements_visit p = visits-split_path (suc (length p)) p (omega arith)

-- `++` so many times.
pub advance : ℕ → Bytes → Iterator → Iterator
advance zero p it = it
advance (suc n) p it = advance n p (increment p it)

-- A loop that does not use its fuel up has got to its end.
range_ends :
    (n : ℕ) (p : Bytes) (it : Iterator) (last : ℕ)
    → length (range n p it last) < n
    → (advance (length (range n p it last)) p it).pos ≡ last
unfolding advance range
range_ends zero p it last h = elim h [ ]
range_ends (suc n) p it last h = elim (Bool-cases (it.pos == last)) [
  | inl e ↦
      let r : range (suc n) p it last ≡ [] = rw (e, range) refl in
      subst (λ es. (advance (length es) p it).pos ≡ last) (sym r) ((==_iff it.pos last).0 e)
  | inr e ↦
      let rest = range n p (increment p it) last in
      let r : range (suc n) p it last ≡ it.element ∷ rest = rw (e, range) refl in
      subst (λ es. (advance (length es) p it).pos ≡ last) (sym r)
        (range_ends n p (increment p it) last (omega (arith, h, ap length r)))
]

-- For every path, `++` gets from begin() to end() in as many steps as there are elements, and visits the
-- root, where the path is absolute, then the names between separators, and last an empty element
-- where separators end the path.
pub elements-split_path :
    (p : Bytes)
    → (elements p ≡ split_path p) × ((advance (length (elements p)) p (begin p)).pos ≡ (end p).pos)
unfolding visits
elements-split_path p =
    let e = elements_visit p in
    let n = suc (length p + length (elements p)) in
    let v : visits n p ≡ elements p = visits-split_path n p (omega arith) ∙ sym e in
    (
      e,
      subst (λ es. (advance (length es) p (begin p)).pos ≡ (end p).pos) v
          (range_ends n p (begin p) (end p).pos (omega (arith, ap length v))),
    )
