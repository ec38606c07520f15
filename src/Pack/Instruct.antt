-- ===== src/Pack/Instruct.antt =====
-- The reader of packing instructions of core/src/packStruct.cpp: copyStrFromPiBuf, packTypeLookup
-- and parsePackInstruct. Where a token and its NUL do not fit in `buf`, the source writes behind it;
-- this is the error buffer_overrun.
pub mod Accepted
pub mod Members
pub mod Tokens
pub mod ReadBack
use irods_client_library_cpp.Base.{
  ℕ, zero, suc, ◌+◌, ◌==◌, ltb, leb, Bool, true, false, not, ◌&&◌, ◌||◌, Option, none, some, [],
  ◌∷◌, ◌++◌, List, Bytes, codes, str_eq, length, take, if◌then◌else◌, Result, err, ok, ◌>>=◌,
}

pub data Error : Type 0 where
  sys_pack_instruct_format_err buffer_overrun out_of_fuel : Error

unfoldable pub is_space : ℕ → Bool
is_space c = c == b' ' || (leb 9 c && leb c 13)

unfoldable pub is_special : ℕ → Bool
is_special c = c == b'*' || c == b';' || c == b'?' || c == b'$'

-- The loop of copyStrFromPiBuf: what is written to `outBuf` already, and what is left at `inPtr`.
unfoldable pub copy_str : Bytes → Bytes → Bytes × Bytes
unfolding is_space is_special
copy_str out [] = (out, [])
copy_str out (c ∷ s) = elim (is_space c) [
  | true ↦ elim (leb 1 (length out)) [ true ↦ (out, s) | false ↦ copy_str out s ]
  | false ↦ elim (is_special c) [
    | true ↦ elim (leb 1 (length out)) [ true ↦ (out, c ∷ s) | false ↦ (out ++ c ∷ [], s) ]
    | false ↦ copy_str (out ++ c ∷ []) s
  ]
]

-- The same with `dependentFlag`: up to the next ';'.
unfoldable pub copy_dependent : Bytes → Bytes → Bytes × Bytes
unfolding is_space
copy_dependent out [] = (out, [])
copy_dependent out (c ∷ s) = elim (c == b';') [
  | true ↦ (out, c ∷ s)
  | false ↦ elim (leb 1 (length out) || not (is_space c)) [
    | true ↦ copy_dependent (out ++ c ∷ []) s
    | false ↦ copy_dependent out s
  ]
]

abbrev pub max_pi_len : ℕ
max_pi_len = 1024

-- What was written to `buf`, where it fits with its NUL.
unfoldable pub in_buf : Bytes × Bytes → Result Error (Bytes × Bytes)
in_buf copied = if leb max_pi_len (length copied.0) then err buffer_overrun else ok copied

unfoldable pub copy_str_from_pi_buf : Bool → Bytes → Result Error (Bytes × Bytes)
unfolding copy_str copy_dependent in_buf
copy_str_from_pi_buf dependent_flag s =
    if dependent_flag then in_buf (copy_dependent [] s) else in_buf (copy_str [] s)

abbrev pub pack_types : List Bytes
pack_types =
    codes "char"
    ∷ codes "bin"
    ∷ codes "str"
    ∷ codes "piStr"
    ∷ codes "int"
    ∷ codes "double"
    ∷ codes "struct"
    ∷ codes "?"
    ∷ codes "%"
    ∷ codes "int16"
    ∷ []

-- The index of a name, `none` for -1.
unfoldable pub lookup_from : ℕ → List Bytes → Bytes → Option ℕ
lookup_from i [] name = none
lookup_from i (t ∷ ts) name = if str_eq name t then some i else lookup_from (i + 1) ts name

unfoldable pub pack_type_lookup : Bytes → Option ℕ
unfolding lookup_from
pack_type_lookup = lookup_from 0 pack_types

-- The members of a `packItem_t` that the reader sets.
pub record Item : Type 0 where
  pub type_inx : ℕ
  pub pointer_type : ℕ
  pub str_value : Bytes
  pub name : Option Bytes

abbrev pub zeroed_item : Item
zeroed_item = record { type_inx = 0; pointer_type = 0; str_value = []; name = none }

-- The items that are queued, `myPackItem`, `gotTypeCast` and `gotItemName`.
pub record State : Type 0 where
  pub queued : List Item
  pub current : Option Item
  pub got_type : Bool
  pub got_name : Bool

abbrev pub started : State
started = record { queued = []; current = some zeroed_item; got_type = false; got_name = false }

-- `myPackItem`, which is made where it is null.
unfoldable pub item_of : State → Item
item_of st = elim st.current [ none ↦ zeroed_item | some i ↦ i ]

abbrev pub Stepped : Type 0
Stepped = Result Error (Bytes × State)

unfoldable pub on_delimiter : Bytes → State → Stepped
unfolding item_of
on_delimiter rest st =
    if not st.got_type && not st.got_name
    then ok (rest, record st { current = some (item_of st) })
    else if st.got_type && not st.got_name
    then err sys_pack_instruct_format_err
    else ok (
      rest,
      record {
        queued = st.queued ++ item_of st ∷ [];
        current = none;
        got_type = false;
        got_name = false;
      },
    )

-- "%", which the text up to the next ';' names.
unfoldable pub on_int_dependent : Bytes → Bytes → State → Stepped
unfolding item_of pack_type_lookup copy_str_from_pi_buf
on_int_dependent token rest st =
    if st.got_type || st.got_name
    then err sys_pack_instruct_format_err
    else elim (pack_type_lookup token) [
      | none ↦ err sys_pack_instruct_format_err
      | some i ↦ copy_str_from_pi_buf true rest >>= λ (text, behind).
          if leb (length text) 0
          then err sys_pack_instruct_format_err
          else ok (
            behind,
            record st {
              current = some (record (item_of st) { type_inx = i; name = some text });
              got_type = true;
              got_name = true;
            },
          )
    ]

-- "?", with the token behind it.
unfoldable pub on_dependent : Bytes → Bytes → State → Stepped
unfolding item_of pack_type_lookup copy_str_from_pi_buf
on_dependent token rest st =
    if st.got_type || st.got_name
    then err sys_pack_instruct_format_err
    else elim (pack_type_lookup token) [
      | none ↦ err sys_pack_instruct_format_err
      | some i ↦ copy_str_from_pi_buf false rest >>= λ (text, behind).
          if leb (length text) 0
          then err sys_pack_instruct_format_err
          else ok (
            behind,
            record st {
              current = some (record (item_of st) { type_inx = i; str_value = take 63 text });
              got_type = true;
            },
          )
    ]

-- "*", "#" and "$": A_POINTER, NO_PACK_POINTER and NO_FREE_POINTER.
unfoldable pub on_pointer : ℕ → Bytes → State → Stepped
unfolding item_of
on_pointer kind rest st =
    if not st.got_type || st.got_name
    then err sys_pack_instruct_format_err
    else ok (rest, record st { current = some (record (item_of st) { pointer_type = kind }) })

-- A type or a name.
unfoldable pub on_word : Bytes → Bytes → State → Stepped
unfolding item_of pack_type_lookup
on_word token rest st =
    if not st.got_type
    then elim (pack_type_lookup token) [
      | none ↦ err sys_pack_instruct_format_err
      | some i ↦ ok (
        rest,
        record st { current = some (record (item_of st) { type_inx = i }); got_type = true },
      )
    ]
    else if not st.got_name
    then ok (
      rest,
      record st { current = some (record (item_of st) { name = some token }); got_name = true },
    )
    else err sys_pack_instruct_format_err

unfoldable pub on_token : Bytes → Bytes → State → Stepped
unfolding on_delimiter on_int_dependent on_dependent on_pointer on_word
on_token token rest st =
    if str_eq token (codes ";")
    then on_delimiter rest st
    else if str_eq token (codes "%")
    then on_int_dependent token rest st
    else if str_eq token (codes "?")
    then on_dependent token rest st
    else if str_eq token (codes "*")
    then on_pointer 1 rest st
    else if str_eq token (codes "#")
    then on_pointer 3 rest st
    else if str_eq token (codes "$")
    then on_pointer 2 rest st
    else on_word token rest st

-- The end of the text: an item that is begun is an error.
unfoldable pub finish : State → Result Error (List Item)
finish st = elim st.current [ none ↦ ok st.queued | some i ↦ err sys_pack_instruct_format_err ]

-- The body of the loop with the text that is copied, and the rest of the loop.
unfoldable pub on_text :
    (Bytes → State → Result Error (List Item)) → State → Bytes × Bytes → Result Error (List Item)
unfolding on_token finish
on_text go_on st (token, rest) =
    if leb (length token) 0
    then finish st
    else elim (on_token token rest st) [ err e ↦ err e | ok (rest', st') ↦ go_on rest' st' ]

unfoldable pub parse_loop : ℕ → Bytes → State → Result Error (List Item)
unfolding copy_str_from_pi_buf on_text
parse_loop zero s st = err out_of_fuel
parse_loop (suc fuel) s st = copy_str_from_pi_buf false s >>= on_text (parse_loop fuel) st

unfoldable pub parse_pack_instruct : Bytes → Result Error (List Item)
unfolding parse_loop
parse_pack_instruct s = parse_loop (length s + 1) s started
