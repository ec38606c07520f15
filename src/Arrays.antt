-- ===== src/Arrays.antt =====
-- The arrays of core/src/rcMisc.cpp that grow by PTR_ARRAY_MALLOC_LEN: pairs of an index and a
-- value, error messages and strings. An array is the list of its allocated slots, with zeros where
-- nothing was written; pointers are not null, and memory is had.
pub mod Growth
pub mod Rows
pub mod Multi
mod Tests
use irods_client_library_cpp.Base.{
  ℕ, zero, suc, ◌+◌, ◌-◌, ◌*◌, ◌%◌, ◌==◌, ltb, leb, Bool, true, false, ◌&&◌, ◌||◌, not, Option,
  none, some, [], ◌∷◌, ◌++◌, List, map, Bytes, length, take, replicate, set, if◌then◌else◌, Result,
  err, ok,
}
use irods_client_library_cpp.Base.Int.{ℤ, pos}

abbrev pub ptr_array_malloc_len : ℕ
ptr_array_malloc_len = 10

-- A new array where the old one is full: ten slots more, with the old ones copied.
unfoldable pub reserve : {A : Type 0} → A → List A → ℕ → List A
reserve zeros slots len =
    if len % ptr_array_malloc_len == 0
    then take len slots ++ replicate ptr_array_malloc_len zeros
    else slots

unfoldable pub put : {A : Type 0} → A → List A → ℕ → A → List A
unfolding reserve
put zeros slots len a = set (reserve zeros slots len) len a

pub record InxIvalPair : Type 0 where
  pub len : ℕ
  pub inx : List ℤ
  pub value : List ℤ

unfoldable pub add_inx_ival : InxIvalPair → ℤ → ℤ → InxIvalPair
unfolding put
add_inx_ival p i v = record {
  len = p.len + 1;
  inx = put (pos 0) p.inx p.len i;
  value = put (pos 0) p.value p.len v;
}

unfoldable pub clear_inx_ival : InxIvalPair → InxIvalPair
clear_inx_ival p = if leb p.len 0 then p else record { len = 0; inx = []; value = [] }

-- A slot of `char *`: a null pointer or a copy of a string.
pub record InxValPair : Type 0 where
  pub len : ℕ
  pub inx : List ℤ
  pub value : List (Option Bytes)

unfoldable pub add_inx_val : InxValPair → ℤ → Bytes → InxValPair
unfolding put
add_inx_val p i v = record {
  len = p.len + 1;
  inx = put (pos 0) p.inx p.len i;
  value = put none p.value p.len (some v);
}

unfoldable pub clear_inx_val : InxValPair → InxValPair
clear_inx_val p = if leb p.len 0 then p else record { len = 0; inx = []; value = [] }

abbrev pub err_msg_len : ℕ
err_msg_len = 1024

-- `rErrMsg_t`, with the bytes of `msg` that `strncpy` writes.
pub record ErrMsg : Type 0 where
  pub status : ℤ
  pub msg : Bytes

pub record RError : Type 0 where
  pub len : ℕ
  pub err_msg : List (Option ErrMsg)

unfoldable pub add_r_error_msg : RError → ℤ → Bytes → RError
unfolding put
add_r_error_msg e status msg = record {
  len = e.len + 1;
  err_msg =
      put none e.err_msg e.len
        (some (record { status = status; msg = take (err_msg_len - 1) msg }));
}

unfoldable pub free_r_error_content : RError → RError
free_r_error_content e = record { len = 0; err_msg = [] }

-- `char value[][size]`: each row holds a string shorter than `size`.
pub record StrArray : Type 0 where
  pub len : ℕ
  pub size : ℕ
  pub value : List Bytes

abbrev pub name_len : ℕ
name_len = 64

-- rstrcpy with `snprintf`: at most `max_len - 1` bytes and a NUL.
unfoldable pub rstrcpy : Bytes → ℕ → Bytes
rstrcpy src max_len = take (max_len - 1) src

-- `while ( size < myLen + 1 ) size = size * 2;` on fuel; `none` when the fuel is used up.
unfoldable pub fitting_size : ℕ → ℕ → ℕ → Option ℕ
fitting_size zero my_len size = none
fitting_size (suc fuel) my_len size = elim (ltb size (my_len + 1)) [
  | true ↦ fitting_size fuel my_len (size * 2)
  | false ↦ some size
]

pub data Error : Type 0 where
  sys_internal_null_input_err out_of_fuel : Error

-- The rows are copied to rows of the new size.
unfoldable pub resize : ℕ → ℕ → List Bytes → List Bytes
unfolding rstrcpy
resize size len rows =
    map (λ row. rstrcpy row size) (take len rows) ++ replicate ptr_array_malloc_len []

-- The rows in which the string is put: new ones for another size or where the old are full.
unfoldable pub rows_for : StrArray → ℕ → ℕ → List Bytes
unfolding resize
rows_for a old_size size =
    if not (size == old_size) || a.len % ptr_array_malloc_len == 0
    then resize size a.len a.value
    else a.value

unfoldable pub add_row : StrArray → Bytes → ℕ → ℕ → StrArray
unfolding rows_for rstrcpy
add_row a value old_size size = record {
  len = a.len + 1;
  size = size;
  value = set (rows_for a old_size size) a.len (rstrcpy value size);
}

unfoldable pub is_invalid : StrArray → Bool
is_invalid a = leb a.size 0 && not (a.len == 0)

-- The size of the rows, NAME_LEN by default.
unfoldable pub row_size : StrArray → ℕ
row_size a = if leb a.size 0 then name_len else a.size

unfoldable pub add_str_array : StrArray → Bytes → Result Error StrArray
unfolding is_invalid row_size fitting_size add_row
add_str_array a value =
    if is_invalid a
    then err sys_internal_null_input_err
    else elim (fitting_size (length value + 1) (length value) (row_size a)) [
      | none ↦ err out_of_fuel
      | some size ↦ ok (add_row a value (row_size a) size)
    ]
