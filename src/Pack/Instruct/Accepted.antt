-- ===== src/Pack/Instruct/Accepted.antt =====
-- parsePackInstruct ends, and each item that it queues has a type of the table and a name.
use irods_client_library_cpp.Base.{
  false, Bool, ◌>>=◌, ℕ, zero, suc, ◌+◌, ◌≤◌, ◌<◌, ◌≡◌, refl, inl, inr, leb, true, not, ◌&&◌, ◌||◌,
  Bool-cases, Option-cases, none, some, [], ◌∷◌, ◌++◌, List, Bytes, codes, str_eq, length,
  length-append, if_cases, All, All-append, Result, err, ok, arith,
}
use irods_client_library_cpp.Pack.Instruct.{
  Error, sys_pack_instruct_format_err, buffer_overrun, max_pi_len, in_buf, copy_str_from_pi_buf,
  on_text, copy_str, copy_dependent, pack_types, lookup_from, pack_type_lookup, Item, State,
  started, item_of, Stepped, on_delimiter, on_int_dependent, on_dependent, on_pointer, on_word,
  on_token, finish, parse_loop, parse_pack_instruct,
}

-- What is copied and what is left are no longer than what was there.
copy_str-length :
    (out s : Bytes) → length (copy_str out s).0 + length (copy_str out s).1 ≤ length out + length s
unfolding copy_str
copy_str-length out [] = omega arith
copy_str-length out (c ∷ s) =
    ground
      (arith, copy_str-length out s, copy_str-length (out ++ c ∷ []) s, length-append out (c ∷ []))

copy_dependent-length :
    (out s : Bytes)
    → length (copy_dependent out s).0 + length (copy_dependent out s).1 ≤ length out + length s
unfolding copy_dependent
copy_dependent-length out [] = omega arith
copy_dependent-length out (c ∷ s) = ground (
  arith,
  copy_dependent-length out s,
  copy_dependent-length (out ++ c ∷ []) s,
  length-append out (c ∷ []),
)

-- A copy whose text does not fit is of a text that is as long.
copied_cases :
    {A : Type 0} (P : Result Error A → Type 0) (dependent_flag : Bool) (s : Bytes)
    (next : Bytes × Bytes → Result Error A)
    → (max_pi_len ≤ length s → P (err buffer_overrun))
    → ((text behind : Bytes) → length text + length behind ≤ length s → P (next (text, behind)))
    → P (copy_str_from_pi_buf dependent_flag s >>= next)
unfolding copy_str_from_pi_buf in_buf
copied_cases P true s next over fits =
    if_cases (λ r. P (r >>= next)) (leb max_pi_len (length (copy_dependent [] s).0))
      (λ h. over (ground (arith, h, copy_dependent-length [] s)))
      (λ h.
        fits (copy_dependent [] s).0 (copy_dependent [] s).1
          (omega (arith, copy_dependent-length [] s)))
copied_cases P false s next over fits =
    if_cases (λ r. P (r >>= next)) (leb max_pi_len (length (copy_str [] s).0))
      (λ h. over (ground (arith, h, copy_str-length [] s)))
      (λ h. fits (copy_str [] s).0 (copy_str [] s).1 (omega (arith, copy_str-length [] s)))

lookup_from-bound :
    (i : ℕ) (ts : List Bytes) (name : Bytes) (j : ℕ)
    → lookup_from i ts name ≡ some j
    → j < i + length ts
unfolding lookup_from
lookup_from-bound i [] name j h = ground (arith, h)
lookup_from-bound i (t ∷ ts) name j h = ground (arith, h, lookup_from-bound (i + 1) ts name j)

pack_type_lookup-bound : (name : Bytes) (j : ℕ) → pack_type_lookup name ≡ some j → j < 10
unfolding pack_type_lookup
pack_type_lookup-bound name j h = lookup_from-bound 0 pack_types name j h

-- An item with a name.
abbrev pub IsNamed : Item → Type 0
IsNamed i = (n : Bytes) × (i.name ≡ some n) × (1 ≤ length n)

-- An item with a type of the table and a name.
abbrev pub IsDescribed : Item → Type 0
IsDescribed i = (i.type_inx < 10) × (IsNamed i)

-- What a step keeps of the reader's state.
record Sound (st : State) : Type 0 where
  valid : All IsDescribed st.queued
  typed : st.got_type ≡ true → (item_of st).type_inx < 10
  named : st.got_name ≡ true → IsNamed (item_of st)
  typed_first : st.got_name ≡ true → st.got_type ≡ true

data IsStep (n : ℕ) : Stepped → Type 0 where
  stopped : IsStep n (err sys_pack_instruct_format_err)
  overrun : max_pi_len ≤ n → IsStep n (err buffer_overrun)
  stepped : {rest : Bytes} {st : State} → length rest ≤ n → Sound st → IsStep n (ok (rest, st))

on_delimiter-IsStep :
    (n : ℕ) (rest : Bytes) (st : State)
    → length rest ≤ n
    → Sound st
    → IsStep n (on_delimiter rest st)
unfolding on_delimiter item_of
on_delimiter-IsStep n rest st h s =
    if_cases (IsStep n) (not st.got_type && not st.got_name)
      (λ e.
        stepped h
          record { valid = s.valid; typed = s.typed; named = s.named; typed_first = s.typed_first })
      λ e1.
        if_cases (IsStep n) (st.got_type && not st.got_name) (λ e. stopped)
          λ e2.
            let gn : st.got_name ≡ true = ground (arith, e1, e2) in
            let described : IsDescribed (item_of st) = (s.typed (s.typed_first gn), s.named gn) in
            stepped h record {
              valid = All-append IsDescribed st.queued (item_of st ∷ []) s.valid (described, tt);
              typed = λ e. ground (arith, e);
              named = λ e. ground (arith, e);
              typed_first = λ e. e;
            }

on_pointer-IsStep :
    (n : ℕ) (kind : ℕ) (rest : Bytes) (st : State)
    → length rest ≤ n
    → Sound st
    → IsStep n (on_pointer kind rest st)
unfolding on_pointer item_of
on_pointer-IsStep n kind rest st h s =
    if_cases (IsStep n) (not st.got_type || st.got_name) (λ e. stopped)
      (λ e.
        stepped h
          record { valid = s.valid; typed = s.typed; named = s.named; typed_first = s.typed_first })

-- The branches that look a type up.
looked_up-IsStep :
    (n : ℕ) (token : Bytes) (step : ℕ → Stepped)
    → ((i : ℕ) → i < 10 → IsStep n (step i))
    → IsStep n (elim (pack_type_lookup token) [
      | none ↦ err sys_pack_instruct_format_err
      | some i ↦ step i
    ])
looked_up-IsStep n token step h = elim (Option-cases (pack_type_lookup token)) [
  | inl e ↦ rw e stopped
  | inr (i, e) ↦ rw e (h i (pack_type_lookup-bound token i e))
]

on_word-IsStep :
    (n : ℕ) (token rest : Bytes) (st : State)
    → length rest ≤ n
    → 1 ≤ length token
    → Sound st
    → IsStep n (on_word token rest st)
unfolding on_word item_of
on_word-IsStep n token rest st h1 h2 s =
    if_cases (IsStep n) (not st.got_type)
      (λ e. looked_up-IsStep n token _ (λ i b.
        stepped h1
          record { valid = s.valid; typed = λ g. b; named = s.named; typed_first = λ g. refl }))
      λ e1.
        if_cases (IsStep n) (not st.got_name)
          (λ e. stepped h1 record {
            valid = s.valid;
            typed = s.typed;
            named = λ g. (token, refl, h2);
            typed_first = λ g. ground (arith, e1);
          })
          (λ e. stopped)

on_dependent-IsStep :
    (n : ℕ) (token rest : Bytes) (st : State)
    → length rest ≤ n
    → Sound st
    → IsStep n (on_dependent token rest st)
unfolding on_dependent item_of
on_dependent-IsStep n token rest st h s =
    if_cases (IsStep n) (st.got_type || st.got_name) (λ e. stopped)
      λ e1. looked_up-IsStep n token _ (λ i b.
        copied_cases (IsStep n) false rest _ (λ o. overrun (omega (arith, o, h)))
          λ text behind l.
            if_cases (IsStep n) (leb (length text) 0) (λ e. stopped)
              λ e.
                let shorter : length behind ≤ n = omega (arith, h, l) in
                stepped shorter record {
                  valid = s.valid;
                  typed = λ g. b;
                  named = s.named;
                  typed_first = λ g. refl;
                })

on_int_dependent-IsStep :
    (n : ℕ) (token rest : Bytes) (st : State)
    → length rest ≤ n
    → Sound st
    → IsStep n (on_int_dependent token rest st)
unfolding on_int_dependent item_of
on_int_dependent-IsStep n token rest st h s =
    if_cases (IsStep n) (st.got_type || st.got_name) (λ e. stopped)
      λ e1. looked_up-IsStep n token _ (λ i b.
        copied_cases (IsStep n) true rest _ (λ o. overrun (omega (arith, o, h)))
          λ text behind l.
            if_cases (IsStep n) (leb (length text) 0) (λ e. stopped)
              λ e.
                let shorter : length behind ≤ n = omega (arith, h, l) in
                stepped shorter record {
                  valid = s.valid;
                  typed = λ g. b;
                  named = λ g. (text, refl, ground (arith, e));
                  typed_first = λ g. refl;
                })

on_token-IsStep :
    (n : ℕ) (token rest : Bytes) (st : State)
    → length rest ≤ n
    → 1 ≤ length token
    → Sound st
    → IsStep n (on_token token rest st)
unfolding on_token
on_token-IsStep n token rest st h1 h2 s =
    if_cases (IsStep n) (str_eq token (codes ";")) (λ e. on_delimiter-IsStep n rest st h1 s)
      λ e1.
        if_cases (IsStep n) (str_eq token (codes "%"))
          (λ e. on_int_dependent-IsStep n token rest st h1 s)
          λ e2.
            if_cases (IsStep n) (str_eq token (codes "?"))
              (λ e. on_dependent-IsStep n token rest st h1 s)
              λ e3.
                if_cases (IsStep n) (str_eq token (codes "*"))
                  (λ e. on_pointer-IsStep n 1 rest st h1 s)
                  λ e4.
                    if_cases (IsStep n) (str_eq token (codes "#"))
                      (λ e. on_pointer-IsStep n 3 rest st h1 s)
                      λ e5.
                        if_cases (IsStep n) (str_eq token (codes "$"))
                          (λ e. on_pointer-IsStep n 2 rest st h1 s)
                          (λ e. on_word-IsStep n token rest st h1 h2 s)

-- What may come of a text of so many bytes: SYS_PACK_INSTRUCT_FORMAT_ERR, items that are all described,
-- or a write behind the buffer, where the text is as long as the buffer.
pub data IsRead (n : ℕ) : Result Error (List Item) → Type 0 where
  refused : IsRead n (err sys_pack_instruct_format_err)
  overflowed : max_pi_len ≤ n → IsRead n (err buffer_overrun)
  accepted : {items : List Item} → All IsDescribed items → IsRead n (ok items)

finish-IsRead : (n : ℕ) (st : State) → Sound st → IsRead n (finish st)
unfolding finish
finish-IsRead n st s = elim (Option-cases st.current) [
  | inl e ↦ rw e (accepted s.valid)
  | inr (i, e) ↦ rw e refused
]

-- What the loop makes of a step, when it goes on for the texts that are short enough.
next-IsRead :
    (m n : ℕ) (next : Bytes → State → Result Error (List Item))
    → n ≤ m
    → ((rest : Bytes) (st : State) → length rest ≤ n → Sound st → IsRead m (next rest st))
    → (r : Stepped) → IsStep n r
    → IsRead m (elim r [ err e ↦ err e | ok (rest, st) ↦ next rest st ])
next-IsRead m n next b h _ stopped = refused
next-IsRead m n next b h _ (overrun l) = overflowed (omega (arith, b, l))
next-IsRead m n next b h _ (stepped {rest} {st} l s) = h rest st l s

parse_loop-IsRead :
    (n fuel : ℕ) (s : Bytes) (st : State)
    → length s < fuel
    → length s ≤ n
    → Sound st
    → IsRead n (parse_loop fuel s st)
unfolding parse_loop on_text
parse_loop-IsRead n zero s st h b sound = elim h [ ]
parse_loop-IsRead n (suc fuel) s st h b sound =
    copied_cases (IsRead n) false s (on_text (parse_loop fuel) st)
      (λ o. overflowed (omega (arith, o, b)))
      λ token rest l. elim (Bool-cases (leb (length token) 0)) [
        | inl e ↦ rw (e, on_text) (finish-IsRead n st sound)
        | inr e ↦
            let long : 1 ≤ length token = ground (arith, e) in
            rw (e, on_text)
              (next-IsRead n (length rest) (parse_loop fuel) (omega (arith, l, b))
                (λ r t k.
                  parse_loop-IsRead n fuel r t (omega (arith, k, l, long, h))
                    (omega (arith, k, l, b)))
                (on_token token rest st)
                (on_token-IsStep (length rest) token rest st (omega arith) long sound))
      ]

-- For every text, the loop of parsePackInstruct ends, with as much fuel as the text has bytes and
-- one: the text is refused with SYS_PACK_INSTRUCT_FORMAT_ERR, or each item that is queued has one
-- of the ten types of packTypeTable and a name that is not empty, or a token is written behind the
-- buffer, which happens only for texts of at least MAX_PI_LEN bytes.
pub parse_pack_instruct-IsRead : (s : Bytes) → IsRead (length s) (parse_pack_instruct s)
unfolding parse_pack_instruct item_of
parse_pack_instruct-IsRead s =
    parse_loop-IsRead (length s) (length s + 1) s started (omega arith) (omega arith) record {
      valid = tt;
      typed = λ e. ground (arith, e);
      named = λ e. ground (arith, e);
      typed_first = λ e. e;
    }
