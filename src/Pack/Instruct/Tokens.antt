-- ===== src/Pack/Instruct/Tokens.antt =====
-- The rounds of parsePackInstruct of core/src/packStruct.cpp over the tokens of a member.
use irods_client_library_cpp.Base.{
  ◌∙◌, ℕ, zero, suc, ◌+◌, ◌-◌, ◌≤◌, ◌<◌, ◌≡◌, refl, ap, leb, Bool, true, false, none, some, [], ◌∷◌,
  ◌++◌, List, Bytes, codes, str_eq, length, length-append, append_assoc, append-nil, ok, arith,
}
use irods_client_library_cpp.Pack.Instruct.{
  on_delimiter, is_space, is_special, copy_str, in_buf, max_pi_len, copy_str_from_pi_buf,
  lookup_from, pack_type_lookup, Item, zeroed_item, State, item_of, on_pointer, on_word, on_token,
  on_text, parse_loop,
}
use irods_client_library_cpp.Pack.Instruct.Members.{
  MemberType, Mark, type_text, type_number, marked, mark_number, IsOrdinary, IsWord, no_mark,
  pointer, no_free, no_pack, char_type, bin_type, str_type, pi_str_type, int_type, double_type,
  struct_type, int16_type,
}

pub copy_word-space :
    (out w s : Bytes)
    → IsOrdinary w
    → 1 ≤ length out + length w
    → copy_str out (w ++ b' ' ∷ s) ≡ (out ++ w, s)
unfolding copy_str is_space is_special
copy_word-space out [] s h l = ground (arith, l, append-nil out)
copy_word-space out (c ∷ w) s (hc, h) l = ground (
  arith,
  hc,
  copy_word-space (out ++ c ∷ []) w s h,
  length-append out (c ∷ []),
  append_assoc out (c ∷ []) w,
)

pub copy_word-end :
    (out w s : Bytes)
    → IsOrdinary w
    → 1 ≤ length out + length w
    → copy_str out (w ++ b';' ∷ s) ≡ (out ++ w, b';' ∷ s)
unfolding copy_str is_space is_special
copy_word-end out [] s h l = ground (arith, l, append-nil out)
copy_word-end out (c ∷ w) s (hc, h) l = ground (
  arith,
  hc,
  copy_word-end (out ++ c ∷ []) w s h,
  length-append out (c ∷ []),
  append_assoc out (c ∷ []) w,
)

pub on_token-word :
    (w rest : Bytes) (st : State) → IsWord w → on_token w rest st ≡ on_word w rest st
unfolding on_token str_eq is_special
on_token-word [] rest st h = absurd (omega (arith, h.some_byte))
on_token-word (c ∷ w) rest st h = ground (arith, h.ordinary.0, h.no_percent, h.no_hash)

-- The reader's states: before a member, behind its type and mark, and behind its name.
abbrev pub before : List Item → Bool → State
before q true = record {
  queued = q;
  current = some zeroed_item;
  got_type = false;
  got_name = false;
}
before q false = record { queued = q; current = none; got_type = false; got_name = false }

abbrev pub typed : List Item → ℕ → ℕ → State
typed q i k = record {
  queued = q;
  current = some (record { type_inx = i; pointer_type = k; str_value = []; name = none });
  got_type = true;
  got_name = false;
}

abbrev named : List Item → Item → State
named q i = record { queued = q; current = some i; got_type = true; got_name = true }

pub on_word-type :
    (t : MemberType) (rest : Bytes) (q : List Item) (first : Bool)
    → on_word (type_text t) rest (before q first) ≡ ok (rest, typed q (type_number t) 0)
unfolding on_word item_of pack_type_lookup lookup_from str_eq type_text
on_word-type char_type rest q true = refl
on_word-type char_type rest q false = refl
on_word-type bin_type rest q true = refl
on_word-type bin_type rest q false = refl
on_word-type str_type rest q true = refl
on_word-type str_type rest q false = refl
on_word-type pi_str_type rest q true = refl
on_word-type pi_str_type rest q false = refl
on_word-type int_type rest q true = refl
on_word-type int_type rest q false = refl
on_word-type double_type rest q true = refl
on_word-type double_type rest q false = refl
on_word-type struct_type rest q true = refl
on_word-type struct_type rest q false = refl
on_word-type int16_type rest q true = refl
on_word-type int16_type rest q false = refl

-- A round of the loop that takes a token.
pub parse_loop_token :
    (fuel : ℕ) (s token rest rest' : Bytes) (st st' : State)
    → 0 < fuel
    → copy_str [] s ≡ (token, rest)
    → 1 ≤ length token
    → length token < max_pi_len
    → on_token token rest st ≡ ok (rest', st')
    → parse_loop fuel s st ≡ parse_loop (fuel - 1) rest' st'
unfolding parse_loop copy_str_from_pi_buf in_buf on_text
parse_loop_token zero s token rest rest' st st' h c l f e = elim h [ ]
parse_loop_token (suc fuel) s token rest rest' st st' h c l f e =
    let fit : leb max_pi_len (length token) ≡ false = ground (arith, f) in
    let long : leb (length token) 0 ≡ false = ground (arith, l) in
    rw (c, fit, long, e) (ap (λ n. parse_loop n rest' st') (omega arith))

module _ (q : List Item) (i : ℕ) where
  pub mark_rounds : Mark → ℕ
  mark_rounds no_mark = 0
  mark_rounds pointer = 1
  mark_rounds no_free = 1
  mark_rounds no_pack = 1

  pub mark_rounds_le : (m : Mark) → mark_rounds m ≤ 1
  unfolding mark_rounds
  mark_rounds_le no_mark = omega arith
  mark_rounds_le pointer = omega arith
  mark_rounds_le no_free = omega arith
  mark_rounds_le no_pack = omega arith

  pub parse_loop-mark :
      (m : Mark) (fuel : ℕ) (s : Bytes)
      → 0 < fuel
      → parse_loop fuel (marked m s) (typed q i 0)
        ≡ parse_loop (fuel - mark_rounds m) s (typed q i (mark_number m))
  unfolding copy_str is_space is_special on_token on_pointer item_of str_eq mark_rounds
  parse_loop-mark no_mark fuel s h = ap (λ n. parse_loop n s (typed q i 0)) (omega arith)
  parse_loop-mark pointer fuel s h =
      parse_loop_token fuel (b'*' ∷ s) (codes "*") s s (typed q i 0) (typed q i 1) h refl
        (omega arith) (omega arith) refl
  parse_loop-mark no_free fuel s h =
      parse_loop_token fuel (b'$' ∷ s) (codes "$") s s (typed q i 0) (typed q i 2) h refl
        (omega arith) (omega arith) refl
  parse_loop-mark no_pack fuel s h =
      parse_loop_token fuel (b'#' ∷ b' ' ∷ s) (codes "#") s s (typed q i 0) (typed q i 3) h refl
        (omega arith) (omega arith) refl

  -- The name, the delimiter, and the queue.
  pub parse_loop-name :
      (k fuel : ℕ) (n s : Bytes)
      → IsWord n
      → 1 < fuel
      → parse_loop fuel (n ++ b';' ∷ s) (typed q i k)
        ≡ parse_loop (fuel - 1 - 1) s (
            before
              (q ++ record { type_inx = i; pointer_type = k; str_value = []; name = some n } ∷ [])
              false)
  unfolding copy_str is_space is_special on_token on_delimiter on_word item_of str_eq
  parse_loop-name k fuel n s w h =
      let item : Item = record { type_inx = i; pointer_type = k; str_value = []; name = some n } in
      let text : Bytes = b';' ∷ s in
      parse_loop_token fuel (n ++ text) n text text (typed q i k) (named q item) (omega (arith, h))
        (copy_word-end [] n s w.ordinary (omega (arith, w.some_byte))) w.some_byte w.fits
        (on_token-word n text (typed q i k) w)
      ∙ parse_loop_token (fuel - 1) text (codes ";") s s (named q item)
          (before (q ++ item ∷ []) false) (omega (arith, h)) refl (omega arith) (omega arith) refl
