-- ===== src/Pack/Native.antt =====
-- The native protocol of core/src/packStruct.cpp: strings with their NUL, and integers in network
-- byte order. Memory behind a pointer is the list of its bytes, `none` for a null pointer; the
-- machine keeps the low byte of an integer first.
pub mod Strings
pub mod Order
pub mod Words
use irods_client_library_cpp.Base.{
  ℕ, zero, suc, ◌+◌, ◌-◌, ◌*◌, ◌/◌, ◌%◌, ◌^◌, Bool, true, false, Option, none, some, [], ◌∷◌, ◌++◌,
  Bytes, leb, ltb, ◌==◌, get_or, if◌then◌else◌, length, take, drop, replicate, Result, err, ok,
  ◌>>=◌,
}
use irods_client_library_cpp.Base.Int.{ℤ, pos, negsuc}
use irods_client_library_cpp.Pack.Escape.{c_str}
use irods_client_library_cpp.Pack.Output.{
  PackedOutput, Error, user_packstruct_input_err, extend_packed_output, memcpy, emit,
}

-- `maxStrLen >= 0 && myStrlen >= maxStrLen`
unfoldable pub too_long : ℕ → ℤ → Bool
too_long n (pos max) = leb max n
too_long n (negsuc _) = false

-- How far `inPtr` moves behind a string of length `n`.
unfoldable pub stride : ℕ → ℤ → ℕ
stride n (pos max) = if ltb 0 max then max else n + 1
stride n (negsuc _) = n + 1

-- The string at a pointer, "" at a null pointer.
unfoldable pub string_at : Option Bytes → Bytes
unfolding c_str
string_at none = []
string_at (some memory) = c_str memory

unfoldable pub move : Option Bytes → ℕ → Option Bytes
move none n = none
move (some memory) n = some (drop n memory)

-- The room for a string of length `n`, `none` where it is refused.
unfoldable pub ext_len_of : ℕ → ℤ → Option ℕ
ext_len_of n (pos max) = if leb max (n + 1) then none else some max
ext_len_of n (negsuc _) = some (n + 1)

module _ (realloc : ℕ → Bool) where
  unfoldable pub pack_nat_string :
      Option Bytes → PackedOutput → ℤ → Result Error (Option Bytes × PackedOutput)
  unfolding too_long stride string_at move emit
  pack_nat_string in_ptr o max =
      let s = string_at in_ptr in
      if too_long (length s) max
      then err user_packstruct_input_err
      else emit realloc o (length s + 1) (s ++ 0 ∷ []) (length s + 1) >>= λ o'.
          ok (move in_ptr (stride (length s) max), o')

  unfoldable pub unpack_read :
      Bytes
      → Option Bytes
      → PackedOutput
      → ℤ
      → Result Error (Option Bytes × PackedOutput × Option ℕ)
  unfolding ext_len_of stride move emit
  unpack_read s in_ptr o max = elim (ext_len_of (length s) max) [
    | none ↦ err user_packstruct_input_err
    | some ext_len ↦ emit realloc o ext_len (s ++ 0 ∷ []) (stride (length s) max) >>= λ o'.
        ok (move in_ptr (length s + 1), o', if leb 1 (length s) then some o.len else none)
  ]

  -- The third part is `outStr`, the index of the string, which an empty one leaves alone.
  unfoldable pub unpack_nat_string :
      Option Bytes → PackedOutput → ℤ → Result Error (Option Bytes × PackedOutput × Option ℕ)
  unfolding unpack_read string_at
  unpack_nat_string in_ptr = unpack_read (string_at in_ptr) in_ptr

-- The bytes of an integer the other way round: htonl, htons and their inverses on this machine.
unfoldable pub reversed : Bytes → Bytes
reversed [] = []
reversed (b ∷ bs) = reversed bs ++ b ∷ []

-- The loop of myHtonll, and of myNtohll: the byte at `i` is taken from `byte_length - 1 - i`.
unfoldable pub htonll_loop : ℕ → ℕ → Bytes → Bytes
htonll_loop byte_length zero word = []
htonll_loop byte_length (suc rounds) word =
    get_or word rounds 0 ∷ htonll_loop byte_length rounds word

unfoldable pub my_htonll : Bytes → Bytes
unfolding htonll_loop
my_htonll word = htonll_loop 8 8 word

-- `n` integers of `width` bytes, each in the other order.
unfoldable pub swapped : (Bytes → Bytes) → ℕ → ℕ → Bytes → Bytes
swapped order width zero memory = []
swapped order width (suc n) memory =
    order (take width memory) ++ swapped order width n (drop width memory)

-- A null pointer gives zeros.
unfoldable pub words_of : (Bytes → Bytes) → ℕ → ℕ → Option Bytes → Bytes
unfolding swapped
words_of order width n none = replicate (width * n) 0
words_of order width n (some memory) = swapped order width n memory

-- The unsigned integer in some bytes, the low one first.
unfoldable pub little_endian : Bytes → ℕ
little_endian [] = 0
little_endian (b ∷ bs) = b + 256 * little_endian bs

-- What is returned for an integer of `width` bytes: itself, and 0 for a negative one.
unfoldable pub status_of : ℕ → Bytes → ℕ
unfolding little_endian
status_of width word =
    if ltb (little_endian word) (2 ^ (8 * width - 1)) then little_endian word else 0

unfoldable pub first_value : ℕ → Option Bytes → ℕ
unfolding status_of
first_value width none = 0
first_value width (some memory) = status_of width (take width memory)

-- alignInt16, alignInt and alignDouble, the buffer itself being aligned.
unfoldable pub align_to : ℕ → ℕ → ℕ
align_to boundary at = if at % boundary == 0 then at else at + boundary - at % boundary

abbrev pub Packed : Type 0
Packed = Result Error (ℕ × Option Bytes × PackedOutput)

module _ (realloc : ℕ → Bool) where
  -- The part that the three packing functions share.
  unfoldable pub pack_words : (Bytes → Bytes) → ℕ → Option Bytes → PackedOutput → ℕ → Packed
  unfolding words_of emit move first_value
  pack_words order width in_ptr o n =
      emit realloc o (width * n) (words_of order width n in_ptr) (width * n) >>= λ o'.
      ok (first_value width in_ptr, move in_ptr (width * n), o')

  unfoldable pub pack_int : Option Bytes → PackedOutput → ℕ → Packed
  unfolding pack_words reversed
  pack_int in_ptr o n = if n == 0 then ok (0, in_ptr, o) else pack_words reversed 4 in_ptr o n

  unfoldable pub pack_int16 : Option Bytes → PackedOutput → ℕ → Packed
  unfolding pack_words reversed
  pack_int16 in_ptr o n = if n == 0 then ok (0, in_ptr, o) else pack_words reversed 2 in_ptr o n

  unfoldable pub pack_double : Option Bytes → PackedOutput → ℕ → Packed
  unfolding pack_words my_htonll
  pack_double in_ptr o n =
      if n == 0
      then ok (0, in_ptr, o)
      else pack_words my_htonll 8 in_ptr o n >>= λ (status, in_ptr', o'). ok (0, in_ptr', o')

  -- The room is for one integer more, since the write begins at an aligned index.
  unfoldable pub unpack_words : (Bytes → Bytes) → ℕ → Option Bytes → PackedOutput → ℕ → Packed
  unfolding words_of extend_packed_output memcpy align_to move status_of
  unpack_words order width in_ptr o n = extend_packed_output realloc o (width * (n + 1)) >>= λ o'.
      let at = align_to width o'.len in
      let words = words_of order width n in_ptr in
      ok (
        status_of width (take width words),
        move in_ptr (width * n),
        record o' { buf = memcpy o'.buf at words; len = at + width * n },
      )

  unfoldable pub unpack_int : Option Bytes → PackedOutput → ℕ → Packed
  unfolding unpack_words reversed
  unpack_int in_ptr o n = if n == 0 then ok (0, in_ptr, o) else unpack_words reversed 4 in_ptr o n

  unfoldable pub unpack_int16 : Option Bytes → PackedOutput → ℕ → Packed
  unfolding unpack_words reversed
  unpack_int16 in_ptr o n = if n == 0 then ok (0, in_ptr, o) else unpack_words reversed 2 in_ptr o n

  unfoldable pub unpack_double : Option Bytes → PackedOutput → ℕ → Packed
  unfolding unpack_words my_htonll
  unpack_double in_ptr o n =
      if n == 0
      then ok (0, in_ptr, o)
      else unpack_words my_htonll 8 in_ptr o n >>= λ (status, in_ptr', o'). ok (0, in_ptr', o')
