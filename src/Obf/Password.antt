-- ===== src/Obf/Password.antt =====
-- src/core/src/obf.cpp: obfiEncode, obfiDecode and obfiTimeCheck, the scheme of the password file,
-- as compiled for POSIX. The user id, the clock and the global `timeVal` are arguments; `extra` is
-- not negative (its only source is obfiGetEnvKey, which returns 0). A C string is the list of its
-- bytes without the NUL.
pub mod RoundTrip
pub mod TimeCheck
pub mod Refusal
mod Tests
use Prim.Native.Nat.{bit_and}
use irods_client_library_cpp.Base.{
  ℕ, zero, suc, ◌+◌, ◌-◌, ◌*◌, ◌/◌, ◌%◌, ◌^◌, Bool, true, false, not, ◌||◌, [], ◌∷◌, ◌++◌, none,
  some, ltb, leb, ◌==◌, if◌then◌else◌, Bytes, get_or, length, take, drop,
}
use irods_client_library_cpp.Base.Int.{ℤ, pos, sub_ℕ, ◌+ℤ◌, ◌-ℤ◌, ltb_ℤ, abs}
use irods_client_library_cpp.Obf.Wheel.{wheel_len, wheel_at, wheel_index, unwind}

pub data Status : Type 0 where
  success auth_file_not_encrypted : Status

-- The pattern of offsets that `rval` picks.
abbrev seq_table : Bytes
seq_table =
    0xd768b678 ∷ 0xedfdaf56 ∷ 0x2420231b ∷ 0x987098d8 ∷ 0xc1bdfeee ∷ 0xf572341f ∷ 0x478def3a
    ∷ 0xa830d343 ∷ 0x774dfa2a ∷ 0x6720731e ∷ 0x346fa320 ∷ 0x6ffdf43a ∷ 0x7723a320 ∷ 0xdf67d02e
    ∷ 0x86ad240a ∷ 0xe76d342e ∷ []

pub seq_of : ℕ → ℕ
seq_of rval = get_or seq_table rval 0

-- `uid & 0xf5f`, on top of `extra`
pub offset_base : ℕ → ℕ → ℕ
offset_base uid extra = extra + bit_and uid 0xf5f

-- `((seq >> addin_i) & 0x1f) + extra + uid`
pub addin : ℕ → ℕ → ℕ → ℕ
addin seq base addin_i = seq / 2 ^ addin_i % 32 + base

-- `addin_i += 3; if (addin_i > 28) addin_i = 0;`
pub next_addin : ℕ → ℕ
next_addin addin_i = if ltb 28 (addin_i + 3) then 0 else addin_i + 3

pub addin_after : ℕ → ℕ → ℕ
unfolding next_addin
addin_after zero addin_i = addin_i
addin_after (suc n) addin_i = addin_after n (next_addin addin_i)

pub encode_char : ℕ → ℕ → ℕ
encode_char turn c = elim (wheel_index c) [ some i ↦ wheel_at ((i + turn) % wheel_len) | none ↦ c ]

pub decode_char : ℕ → ℕ → ℕ
decode_char turn c = elim (wheel_index c) [ some i ↦ wheel_at (unwind i turn) | none ↦ c ]

module _ (seq base : ℕ) where
  pub encode_chars : ℕ → Bytes → Bytes
  unfolding encode_char addin next_addin
  encode_chars addin_i [] = []
  encode_chars addin_i (c ∷ s) =
      encode_char (addin seq base addin_i) c ∷ encode_chars (next_addin addin_i) s

  pub decode_chars : ℕ → Bytes → Bytes
  unfolding decode_char addin next_addin
  decode_chars addin_i [] = []
  decode_chars addin_i (c ∷ s) =
      decode_char (addin seq base addin_i) c ∷ decode_chars (next_addin addin_i) s

-- `'S' - ((rval & 0x7) * 2)`
pub check_char : ℕ → ℕ
check_char rval = b'S' - rval % 8 * 2

pub headstring : ℕ → ℕ → Bytes
unfolding check_char
headstring rval now =
    check_char rval
    ∷ (now / 16 % 16 + b'a')
    ∷ (now % 16 + b'a')
    ∷ (now / 4096 % 16 + b'a')
    ∷ (now / 256 % 16 + b'a')
    ∷ []

pub record Clock : Type 0 where
  pub tv_sec : ℕ
  pub tv_usec : ℕ

pub obfi_timeval : Clock → ℕ
obfi_timeval clock = clock.tv_sec % 65536

-- The time that the encoder writes: from the file, if it is set.
pub now_of : Clock → ℕ → ℕ
unfolding obfi_timeval
now_of clock time_val = if time_val == 0 then obfi_timeval clock else time_val

unfoldable pub obfi_encode : ℕ → Clock → ℕ → Bytes → ℕ → Bytes
unfolding headstring now_of encode_chars seq_of offset_base addin_after
obfi_encode uid clock time_val s extra =
    let rval = clock.tv_usec % 16 in
    let chars = encode_chars (seq_of rval) (offset_base uid extra) in
    b'.' ∷ chars 0 (headstring rval (now_of clock time_val))
    ++ ((rval + b'e') ∷ chars (addin_after 5 0) s)

-- `delta < fudge` of the absolute difference
pub near : ℤ → ℤ → Bool
near a b = ltb_ℤ (abs (a -ℤ b)) (pos 20)

pub wrap_time : ℤ → ℤ
wrap_time t = if ltb_ℤ t (pos 65000) then t +ℤ pos 65535 else t

-- `true` for the result 1
unfoldable pub obfi_time_check : ℤ → ℤ → Bool
unfolding near wrap_time
obfi_time_check time1 time2 =
    if near time1 time2
    then false
    else if near (wrap_time time1) (wrap_time time2)
    then false
    else true

-- What a `char` that is stored as an unsigned byte stands below it.
abbrev sign_part : ℕ → ℕ
sign_part c = if leb 128 c then 256 else 0

-- `((h[1]-'a') << 4) + (h[2]-'a') + ((h[3]-'a') << 12) + ((h[4]-'a') << 8)` over signed chars
pub encoded_time : Bytes → ℤ
encoded_time head =
    let h = λ (i : ℕ). get_or head i 0 in
    let below = λ (i : ℕ). b'a' + sign_part (get_or head i 0) in
    sub_ℕ (h 1 * 16 + h 2 + h 3 * 4096 + h 4 * 256)
      (below 1 * 16 + below 2 + below 3 * 4096 + below 4 * 256)

pub is_not_encrypted : ℕ → ℕ → Bytes → Bytes → Bool
unfolding check_char encoded_time
is_not_encrypted rval time_val s head =
    not (get_or s 0 0 == b'.')
    || not (get_or head 0 0 == check_char rval)
    || obfi_time_check (encoded_time head) (pos time_val)

pub decode_with : ℕ → ℕ → ℕ → Bytes → ℕ → Status × Bytes
unfolding decode_chars is_not_encrypted seq_of offset_base addin_after
decode_with rval uid time_val s extra =
    let chars = decode_chars (seq_of rval) (offset_base uid extra) in
    if is_not_encrypted rval time_val s (chars 0 (take 5 (drop 1 s)))
    then (auth_file_not_encrypted, s)
    else (success, chars (addin_after 5 0) (drop 7 s))

unfoldable pub obfi_decode : ℕ → ℕ → Bytes → ℕ → Status × Bytes
unfolding decode_with
obfi_decode uid time_val s extra =
    let k = get_or s 6 0 in
    if ltb (length s) 6 || ltb k b'e' || ltb (b'e' + 15) k
    then (auth_file_not_encrypted, s)
    else decode_with (k - b'e') uid time_val s extra
