-- ===== src/Base64.antt =====
-- src/core/src/base64.cpp: base64_encode and base64_decode. A buffer with its length is the list of
-- its bytes; `*outlen` at the call is the argument `outlen`, and the result is what is written, without
-- the NUL that the encoder appends. Lengths are far below 2 ^ 64, so nothing wraps.
pub mod Rounds
pub mod Encode
pub mod RoundTrip
pub mod Decode
mod Tests
use irods_client_library_cpp.Base.{
  ℕ, zero, suc, ◌+◌, ◌-◌, ◌*◌, ◌/◌, ◌%◌, ◌≤◌, ◌<◌, Bool, true, false, not, [], ◌∷◌, ◌++◌, ltb, ◌==◌,
  if◌then◌else◌, Bytes, codes, get_or, length, Result, ok, err, ◌>>=◌,
}

pub data Error : Type 0 where
  base64_buffer_overflow base64_invalid_packet : Error

abbrev code_table : Bytes
code_table = codes "ABCDEFGHIJKLMNOPQRSTUVWXYZabcdefghijklmnopqrstuvwxyz0123456789+/"

-- `codes[k & 0x3F]`
pub code_at : ℕ → ℕ
code_at k = get_or code_table (k % 64) 0

abbrev map_table : Bytes
map_table =
    255 ∷ 255 ∷ 255 ∷ 255 ∷ 255 ∷ 255 ∷ 255 ∷ 255 ∷ 255 ∷ 255 ∷ 255 ∷ 255 ∷ 255 ∷ 255 ∷ 255 ∷ 255
    ∷ 255 ∷ 255 ∷ 255 ∷ 255 ∷ 255 ∷ 255 ∷ 255 ∷ 255 ∷ 255 ∷ 255 ∷ 255 ∷ 255 ∷ 255 ∷ 255 ∷ 255 ∷ 255
    ∷ 255 ∷ 255 ∷ 255 ∷ 255 ∷ 255 ∷ 255 ∷ 255 ∷ 255 ∷ 255 ∷ 255 ∷ 255 ∷ 62 ∷ 255 ∷ 255 ∷ 255 ∷ 63
    ∷ 52 ∷ 53 ∷ 54 ∷ 55 ∷ 56 ∷ 57 ∷ 58 ∷ 59 ∷ 60 ∷ 61 ∷ 255 ∷ 255 ∷ 255 ∷ 254 ∷ 255 ∷ 255 ∷ 255 ∷ 0
    ∷ 1 ∷ 2 ∷ 3 ∷ 4 ∷ 5 ∷ 6 ∷ 7 ∷ 8 ∷ 9 ∷ 10 ∷ 11 ∷ 12 ∷ 13 ∷ 14 ∷ 15 ∷ 16 ∷ 17 ∷ 18 ∷ 19 ∷ 20 ∷ 21
    ∷ 22 ∷ 23 ∷ 24 ∷ 25 ∷ 255 ∷ 255 ∷ 255 ∷ 255 ∷ 255 ∷ 255 ∷ 26 ∷ 27 ∷ 28 ∷ 29 ∷ 30 ∷ 31 ∷ 32 ∷ 33
    ∷ 34 ∷ 35 ∷ 36 ∷ 37 ∷ 38 ∷ 39 ∷ 40 ∷ 41 ∷ 42 ∷ 43 ∷ 44 ∷ 45 ∷ 46 ∷ 47 ∷ 48 ∷ 49 ∷ 50 ∷ 51 ∷ 255
    ∷ 255 ∷ 255 ∷ 255 ∷ 255 ∷ 255 ∷ 255 ∷ 255 ∷ 255 ∷ 255 ∷ 255 ∷ 255 ∷ 255 ∷ 255 ∷ 255 ∷ 255 ∷ 255
    ∷ 255 ∷ 255 ∷ 255 ∷ 255 ∷ 255 ∷ 255 ∷ 255 ∷ 255 ∷ 255 ∷ 255 ∷ 255 ∷ 255 ∷ 255 ∷ 255 ∷ 255 ∷ 255
    ∷ 255 ∷ 255 ∷ 255 ∷ 255 ∷ 255 ∷ 255 ∷ 255 ∷ 255 ∷ 255 ∷ 255 ∷ 255 ∷ 255 ∷ 255 ∷ 255 ∷ 255 ∷ 255
    ∷ 255 ∷ 255 ∷ 255 ∷ 255 ∷ 255 ∷ 255 ∷ 255 ∷ 255 ∷ 255 ∷ 255 ∷ 255 ∷ 255 ∷ 255 ∷ 255 ∷ 255 ∷ 255
    ∷ 255 ∷ 255 ∷ 255 ∷ 255 ∷ 255 ∷ 255 ∷ 255 ∷ 255 ∷ 255 ∷ 255 ∷ 255 ∷ 255 ∷ 255 ∷ 255 ∷ 255 ∷ 255
    ∷ 255 ∷ 255 ∷ 255 ∷ 255 ∷ 255 ∷ 255 ∷ 255 ∷ 255 ∷ 255 ∷ 255 ∷ 255 ∷ 255 ∷ 255 ∷ 255 ∷ 255 ∷ 255
    ∷ 255 ∷ 255 ∷ 255 ∷ 255 ∷ 255 ∷ 255 ∷ 255 ∷ 255 ∷ 255 ∷ 255 ∷ 255 ∷ 255 ∷ 255 ∷ 255 ∷ 255 ∷ 255
    ∷ 255 ∷ 255 ∷ 255 ∷ 255 ∷ 255 ∷ 255 ∷ 255 ∷ 255 ∷ 255 ∷ 255 ∷ 255 ∷ 255 ∷ 255 ∷ 255 ∷ 255 ∷ 255
    ∷ 255 ∷ 255 ∷ 255 ∷ 255 ∷ []

-- `mymap[c & 0xFF]`
pub mymap : ℕ → ℕ
mymap c = get_or map_table (c % 256) 0

-- The loop over whole groups of three bytes, and the padding of the rest.
pub encode_groups : Bytes → Bytes
encode_groups (a ∷ b ∷ c ∷ s) =
    code_at (a / 4)
    ∷ code_at (a % 4 * 16 + b / 16)
    ∷ code_at (b % 16 * 4 + c / 64)
    ∷ code_at c
    ∷ encode_groups s
encode_groups (a ∷ b ∷ []) =
    code_at (a / 4) ∷ code_at (a % 4 * 16 + b / 16) ∷ code_at (b % 16 * 4) ∷ b'=' ∷ []
encode_groups (a ∷ []) = code_at (a / 4) ∷ code_at (a % 4 * 16 + 0 / 16) ∷ b'=' ∷ b'=' ∷ []
encode_groups [] = []

unfoldable pub base64_encode : Bytes → ℕ → Result Error Bytes
base64_encode s outlen =
    let len2 = 4 * ((length s + 2) / 3) in
    if ltb outlen (len2 + 1) then err base64_buffer_overflow else ok (encode_groups s)

-- The variables of the decoder's loop; `z` is the length of `out`.
pub record State : Type 0 where
  pub t : ℕ
  pub y : ℕ
  pub g : ℕ
  pub out : Bytes

-- The bytes that a complete group of four writes.
pub group_bytes : ℕ → ℕ → Bytes
group_bytes t g =
    (t / 65536 % 256)
    ∷ ((if ltb 1 g then (t / 256 % 256) ∷ [] else []) ++ (if ltb 2 g then (t % 256) ∷ [] else []))

-- `t = (t << 6) | c` where `c` has six bits, and what follows it in the loop.
pub shift_in : ℕ → State → ℕ → ℕ → Result Error State
shift_in outlen st c g =
    let t = st.t * 64 + c in
    if st.y + 1 == 4
    then (if ltb outlen (length st.out + g)
        then err base64_buffer_overflow
        else ok (record { t = 0; y = 0; g = g; out = st.out ++ group_bytes t g }))
    else ok (record { t = t; y = st.y + 1; g = g; out = st.out })

-- One round of the loop.
pub step : ℕ → State → ℕ → Result Error State
step outlen st ch =
    let c = mymap ch in
    if c == 255
    then ok st
    else if c == 254
    then (if st.g == 0 then err base64_invalid_packet else shift_in outlen st 0 (st.g - 1))
    else if not (st.g == 3)
    then err base64_invalid_packet
    else shift_in outlen st c st.g

pub steps : ℕ → State → Bytes → Result Error State
steps outlen st [] = ok st
steps outlen st (ch ∷ s) = do st' ← step outlen st ch; steps outlen st' s

abbrev pub start : State
start = record { t = 0; y = 0; g = 3; out = [] }

pub finish : State → Result Error Bytes
finish st = if st.y == 0 then ok st.out else err base64_invalid_packet

unfoldable pub base64_decode : Bytes → ℕ → Result Error Bytes
base64_decode s outlen = do st ← steps outlen start s; finish st
