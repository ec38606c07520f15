-- ===== src/Children/Text.antt =====
-- src/core/src/irods_children_parser.cpp: str and set_string.
use irods_client_library_cpp.Base.{
  ℕ, zero, suc, ◌+◌, ◌≤◌, ◌<◌, ◌≡◌, ◌≢◌, refl, sym, ap, subst, ◌∙◌, true, false, [], ◌∷◌, ◌++◌,
  Option, none, some, arith, Bytes, All, All-append, Lacks, length, length-append, append_assoc,
  append-nil,
}
use irods_client_library_cpp.Base.Dict.{insert, insert_all, insert_all-IsSorted, IsSorted}
use irods_client_library_cpp.Children.{
  Error, child_not_found, Children, str_loop, str, parse_child, add_parsed, set_loop, set_string,
}
use irods_client_library_cpp.Children.Parse.{
  split_at-Lacks, split_at-append, close_child, after_child, set_loop_end, set_loop_more,
}

-- A child whose name and context hold none of the characters that end them.
pub data IsPlain : Bytes × Bytes → Type 0 where
  plain :
      {child context : Bytes}
      → Lacks b';' child
      → Lacks b'{' child
      → Lacks b';' context
      → Lacks b'}' context
      → IsPlain (child, context)

abbrev entry : Bytes → Bytes → Bytes
entry child context = child ++ b'{' ∷ (context ++ b'}' ∷ [])

entry-Lacks : {child context : Bytes} → IsPlain (child, context) → Lacks b';' (entry child context)
entry-Lacks {child} {context} (plain h _ k _) =
    All-append (λ c. c ≢ b';') child (b'{' ∷ (context ++ b'}' ∷ [])) h
      (omega arith, All-append (λ c. c ≢ b';') context (b'}' ∷ []) k (omega arith, tt))

add_parsed-entry :
    (m : Children) {child context : Bytes}
    → IsPlain (child, context)
    → add_parsed m (entry child context) ≡ some (insert child context m)
unfolding add_parsed parse_child
add_parsed-entry m {child} {context} (plain _ h _ k) =
    rw (split_at-append b'{' child (context ++ b'}' ∷ []) h, add_parsed, parse_child)
      (rw (split_at-append b'}' context [] k) refl)

-- The text of the children behind the first.
rest_text :
    (child context : Bytes) (es : Children)
    → str_loop true ((child, context) ∷ es) ≡ entry child context ++ str_loop false es
unfolding str_loop
rest_text child context es =
    let rest = str_loop false es in
    sym (
      append_assoc child (b'{' ∷ (context ++ b'}' ∷ [])) rest
      ∙ ap (λ r. child ++ b'{' ∷ r) (append_assoc context (b'}' ∷ []) rest))

later_text :
    (e : Bytes × Bytes) (es : Children) → str_loop false (e ∷ es) ≡ b';' ∷ str_loop true (e ∷ es)
unfolding str_loop
later_text e es = refl

length-entry :
    (child context : Bytes) (es : Children)
    → length (str_loop true ((child, context) ∷ es))
      ≡ length (entry child context) + length (str_loop false es)
length-entry child context es =
    ap length (rest_text child context es) ∙ length-append (entry child context) (str_loop false es)

entry_full : (child context : Bytes) → 0 < length (entry child context)
entry_full child context = omega (arith, length-append child (b'{' ∷ (context ++ b'}' ∷ [])))

text_full : (e : Bytes × Bytes) (es : Children) → 0 < length (str_loop true (e ∷ es))
text_full (child, context) es =
    omega (arith, length-entry child context es, entry_full child context)

set_loop_rest :
    (n : ℕ) (m : Children) (a rest : Bytes)
    → Lacks b';' a
    → 0 < length rest
    → set_loop (suc n) m (a ++ b';' ∷ rest) ≡ after_child m a (λ m'. set_loop n m' rest)
set_loop_rest n m a [] h i = absurd (omega arith)
set_loop_rest n m a (d ∷ r) h i = set_loop_more n m a d r h

after_added :
    (m : Children) {child context : Bytes} (rest : Children → Option Error × Children)
    → IsPlain (child, context)
    → after_child m (entry child context) rest ≡ rest (insert child context m)
unfolding after_child
after_added m rest p = rw (add_parsed-entry m p, after_child) refl

close_added :
    (m : Children) {child context : Bytes}
    → IsPlain (child, context)
    → close_child m (entry child context) ≡ (none, insert child context m)
unfolding close_child
close_added m p = rw (add_parsed-entry m p, close_child) refl

no_text : str_loop false [] ≡ []
unfolding str_loop
no_text = refl

set_loop-str_loop :
    (n : ℕ) (m : Children) (e : Bytes × Bytes) (es : Children)
    → length (str_loop true (e ∷ es)) ≤ n
    → All IsPlain (e ∷ es)
    → set_loop n m (str_loop true (e ∷ es)) ≡ (none, insert_all (e ∷ es) m)
unfolding insert_all
set_loop-str_loop zero m e es i ps = absurd (omega (arith, i, text_full e es))
set_loop-str_loop (suc n) m (child, context) [] i (p, ps) =
    ap (set_loop (suc n) m) (
      rest_text child context []
      ∙ ap (λ r. entry child context ++ r) no_text
      ∙ append-nil (entry child context))
    ∙ set_loop_end n m (entry child context) (entry-Lacks p)
    ∙ close_added m p
set_loop-str_loop (suc n) m (child, context) (e ∷ es) i (p, ps) =
    ap (set_loop (suc n) m)
      (rest_text child context (e ∷ es) ∙ ap (λ r. entry child context ++ r) (later_text e es))
    ∙ set_loop_rest n m (entry child context) (str_loop true (e ∷ es)) (entry-Lacks p)
        (text_full e es)
    ∙ after_added m (λ m'. set_loop n m' (str_loop true (e ∷ es))) p
    ∙ set_loop-str_loop n (insert child context m) e es
        (omega (
          arith,
          i,
          length-entry child context (e ∷ es),
          entry_full child context,
          ap length (later_text e es),
        ))
        ps

set_string_empty : (m : Children) → set_string m (str_loop true []) ≡ (none, [])
unfolding set_string str_loop
set_string_empty m = refl

set_string_full :
    (m : Children) (s : Bytes) → 0 < length s → set_string m s ≡ set_loop (length s) [] s
unfolding set_string
set_string_full m [] h = absurd (omega arith)
set_string_full m (c ∷ s) h = refl

-- set_string of what str prints succeeds and gives the printed map back, whatever the map was before,
-- where the names are free of semicolons and opening braces and the contexts of semicolons and
-- closing braces.
pub set_string-str_plain :
    (before m : Children) → IsSorted m → All IsPlain m → set_string before (str m) ≡ (none, m)
unfolding str
set_string-str_plain before [] s ps = set_string_empty before
set_string-str_plain before (e ∷ es) s ps =
    set_string_full before (str_loop true (e ∷ es)) (text_full e es)
    ∙ set_loop-str_loop (length (str_loop true (e ∷ es))) [] e es (omega arith) ps
    ∙ ap (λ m. (none, m)) (insert_all-IsSorted (e ∷ es) s)

torn_text :
    (child a b : Bytes)
    → str_loop true ((child, a ++ b';' ∷ b) ∷ []) ≡ (child ++ b'{' ∷ a) ++ b';' ∷ (b ++ b'}' ∷ [])
unfolding str_loop
torn_text child a b =
    ap (λ r. child ++ b'{' ∷ r) (append_assoc a (b';' ∷ b) (b'}' ∷ []))
    ∙ sym (append_assoc child (b'{' ∷ a) (b';' ∷ (b ++ b'}' ∷ [])))

add_parsed_open :
    (m : Children) (child a : Bytes)
    → Lacks b'{' child
    → Lacks b'}' a
    → add_parsed m (child ++ b'{' ∷ a) ≡ none
unfolding add_parsed parse_child
add_parsed_open m child a h k =
    rw (split_at-append b'{' child a h, add_parsed, parse_child) (rw (split_at-Lacks b'}' a k) refl)

rest_full : (b : Bytes) (c : ℕ) → 0 < length (b ++ c ∷ [])
rest_full b c = omega (arith, length-append b (c ∷ []))

-- A first child that does not parse ends the loop.
torn_child :
    (n : ℕ) (m : Children) (a rest : Bytes)
    → 0 < length rest
    → 0 < n
    → Lacks b';' a
    → add_parsed m a ≡ none
    → set_loop n m (a ++ b';' ∷ rest) ≡ (some child_not_found, m)
unfolding after_child
torn_child zero m a rest l i h e = absurd (omega arith)
torn_child (suc n) m a rest l i h e = set_loop_rest n m a rest h l ∙ rw (e, after_child) refl

-- A context with a semicolon is not read back: whatever child and context str printed, set_string
-- fails with CHILD_NOT_FOUND and leaves an empty map, where the name is free of semicolons and
-- opening braces and the context has a semicolon in front of all its closing braces.
pub set_string-str_semicolon :
    (before : Children) (child a b : Bytes)
    → Lacks b';' child
    → Lacks b'{' child
    → Lacks b';' a
    → Lacks b'}' a
    → set_string before (str ((child, a ++ b';' ∷ b) ∷ [])) ≡ (some child_not_found, [])
unfolding str
set_string-str_semicolon before child a b h k h' k' =
    let e : Bytes × Bytes = (child, a ++ b';' ∷ b) in
    let text = str_loop true (e ∷ []) in
    set_string_full before text (text_full e [])
    ∙ subst (λ t. set_loop (length text) [] t ≡ (some child_not_found, []))
        (sym (torn_text child a b))
        (torn_child (length text) [] (child ++ b'{' ∷ a) (b ++ b'}' ∷ []) (rest_full b b'}')
          (text_full e []) (All-append (λ c. c ≢ b';') child (b'{' ∷ a) h (omega arith, h'))
          (add_parsed_open [] child a k k'))
