-- ===== src/Pack/Output.antt =====
-- packedOutput_t of core/include/packStruct.h and extendPackedOutput of core/src/packStruct.cpp.
-- A pointer into the buffer is an index; sizes are far below 2^31, so that no `int` overflows.
pub mod Append
use irods_client_library_cpp.Base.{
  ℕ, ◌+◌, ◌-◌, ◌*◌, ◌^◌, Bool, true, false, ◌||◌, [], ◌∷◌, ◌++◌, Bytes, leb, ltb, if◌then◌else◌,
  take, replicate, set, Result, err, ok, ◌>>=◌,
}

-- `bBuf.buf` with its `bufSize` bytes, of which `bBuf.len` are in use.
pub record PackedOutput : Type 0 where
  pub buf : Bytes
  pub len : ℕ
  pub buf_size : ℕ

-- The negative statuses.
pub data Error : Type 0 where
  sys_malloc_err user_packstruct_input_err sys_pack_instruct_format_err : Error
  sys_internal_null_input_err user_null_input_err : Error

abbrev pub packed_out_alloc_sz : ℕ
packed_out_alloc_sz = 16 * 1024

abbrev pub max_packed_out_alloc_sz : ℕ
max_packed_out_alloc_sz = 1024 * 1024

-- `malloc` leaves the bytes as they are; the model takes zeros.
unfoldable pub init_packed_output : ℕ → PackedOutput
init_packed_output n = record { buf = replicate n 0; len = 0; buf_size = n }

-- Twice the size, or the size asked for and some more.
unfoldable pub new_buf_size : PackedOutput → ℕ → ℕ
new_buf_size o new_out_len =
    if leb (o.buf_size + o.buf_size) new_out_len || ltb max_packed_out_alloc_sz o.buf_size
    then new_out_len + packed_out_alloc_sz
    else o.buf_size + o.buf_size

-- The bytes in use are kept by `realloc`, and the remaining are set to 0.
unfoldable pub grow : PackedOutput → ℕ → PackedOutput
grow o size = record o { buf = take o.len o.buf ++ replicate (size - o.len) 0; buf_size = size }

-- `realloc n` tells if the memory for `n` bytes can be had. The new pointer is `o.len`.
unfoldable pub extend_packed_output : (ℕ → Bool) → PackedOutput → ℕ → Result Error PackedOutput
unfolding new_buf_size grow
extend_packed_output realloc o ext_len =
    if leb (o.len + ext_len) o.buf_size
    then ok o
    else if realloc (new_buf_size o (o.len + ext_len))
    then ok (grow o (new_buf_size o (o.len + ext_len)))
    else err sys_malloc_err

-- `memcpy` to the index `i`, a byte at a time. A write out of bounds changes nothing.
unfoldable pub memcpy : Bytes → ℕ → Bytes → Bytes
memcpy buf i [] = buf
memcpy buf i (b ∷ bs) = memcpy (set buf i b) (i + 1) bs

-- The shape of every packing routine: `ext_len` bytes are asked for, `bs` is written, and the
-- length grows by `count`. A routine that does not look at the status of the first step would
-- write to a null pointer where it failed; there the model stops with that status.
unfoldable pub emit : (ℕ → Bool) → PackedOutput → ℕ → Bytes → ℕ → Result Error PackedOutput
unfolding extend_packed_output memcpy
emit realloc o ext_len bs count = extend_packed_output realloc o ext_len >>= λ o'.
    ok (record o' { buf = memcpy o'.buf o'.len bs; len = o'.len + count })
