-- ===== src/Base64/Decode.antt =====
-- src/core/src/base64.cpp: the bytes that base64_decode writes, against the size of its buffer.
use irods_client_library_cpp.Base.{
  ok, ◌>>=◌, bind_eq_ok, ℕ, ◌+◌, ◌-◌, ◌*◌, ◌%◌, ◌≤◌, ◌<◌, ◌≡◌, refl, ap, ◌∙◌, [], ◌∷◌, arith, ◌==◌,
  if◌then◌else◌, Bytes, length, length-append,
}
use irods_client_library_cpp.Base64.{
  State, code_at, mymap, group_bytes, shift_in, step, steps, start, finish, base64_decode,
}
use irods_client_library_cpp.Base64.Rounds.{
  state, steps-nil, steps-cons, step_more, step-pad, shift_in-more, shift_in-last,
}

-- How many characters of the text are pads.
unfoldable pub pads : Bytes → ℕ
pads [] = 0
pads (c ∷ s) = (if mymap c == 254 then 1 else 0) + pads s

-- The decoder has room left for its bytes, and more pads allowed than the rest of the text has.
record IsWithin (room left : ℕ) (st : State) : Type 0 where
  fits : length st.out ≤ room
  allowed : left < st.g
  small : st.g ≤ 3

length-group_bytes : (t g : ℕ) → 0 < g → g ≤ 3 → length (group_bytes t g) ≡ g
unfolding group_bytes
length-group_bytes t g h k = ground arith

shift_in-IsWithin :
    (room left c g : ℕ) (st st' : State)
    → length st.out ≤ room
    → left < g
    → g ≤ 3
    → shift_in room st c g ≡ ok st'
    → IsWithin room left st'
unfolding shift_in
shift_in-IsWithin room left c g st st' fits h k e = ground (
  arith,
  length-group_bytes (st.t * 64 + c) g,
  length-append st.out (group_bytes (st.t * 64 + c) g),
)

-- A round keeps the bound, where its character is a pad, a code, or none of them.
step-IsWithin :
    (room left ch : ℕ) (st st' : State)
    → IsWithin room ((if mymap ch == 254 then 1 else 0) + left) st
    → step room st ch ≡ ok st'
    → IsWithin room left st'
unfolding step
step-IsWithin room left ch st st' (w) e = ground (
  arith,
  shift_in-IsWithin room left 0 (st.g - 1) st st',
  shift_in-IsWithin room left (mymap ch) st.g st st',
)

steps-IsWithin :
    (room : ℕ) (st st' : State) (s : Bytes)
    → IsWithin room (pads s) st
    → steps room st s ≡ ok st'
    → length st'.out ≤ room
unfolding steps pads
steps-IsWithin room st st' [] w e = ground arith
steps-IsWithin room st st' (c ∷ s) w e =
    let (m, p, q) = bind_eq_ok (step room st c) (λ m. steps room m s) e in
    steps-IsWithin room m st' s (step-IsWithin room (pads s) c st m w p) q

finish_out : (st : State) (out : Bytes) → finish st ≡ ok out → st.out ≡ out
unfolding finish
finish_out st out e = ground arith

-- With at most two pads in the text, nothing is written beyond the buffer.
pub base64_decode_fits :
    (s out : Bytes) (outlen : ℕ)
    → pads s ≤ 2
    → base64_decode s outlen ≡ ok out
    → length out ≤ outlen
unfolding base64_decode
base64_decode_fits s out outlen few e =
    let (st, p, q) = bind_eq_ok (steps outlen start s) finish e in
    let bound = steps-IsWithin outlen start st s first p in
    ground (arith, finish_out st out q, bound)
  where
    first : IsWithin outlen (pads s) start
    first = record { fits = omega arith; allowed = omega arith; small = omega arith }

finish_one :
    (k : ℕ)
    → finish (state 0 0 0 (group_bytes ((((0 + k % 64) * 64 + 0) * 64 + 0) * 64 + 0) 0))
      ≡ ok (k % 64 * 4 ∷ [])
unfolding finish group_bytes
finish_one k = ap (λ x. ok (x ∷ [])) (omega arith)

-- With three pads a byte is written that the check of the buffer's size does not count.
pub base64_decode_overruns :
    (k : ℕ) → base64_decode (code_at k ∷ b'=' ∷ b'=' ∷ b'=' ∷ []) 0 ≡ ok (k % 64 * 4 ∷ [])
unfolding base64_decode
base64_decode_overruns k =
    ap (λ r. r >>= finish)
      (steps-cons 0 _ _ _ _ (step_more 0 0 0 k [] (omega arith))
        ∙ (steps-cons 0 _ _ _ _
              (step-pad 0 (state _ 1 3 []) 2 refl ∙ shift_in-more 0 _ 1 3 2 0 [] (omega arith))
            ∙ (steps-cons 0 _ _ _ _
                  (step-pad 0 (state _ 2 2 []) 1 refl ∙ shift_in-more 0 _ 2 2 1 0 [] (omega arith))
                ∙ (steps-cons 0 _ _ _ _ (
                      step-pad 0 (state _ 3 1 []) 0 refl ∙ shift_in-last 0 _ 0 1 0 [] (omega arith))
                    ∙ steps-nil 0 _))))
    ∙ finish_one k
