-- ===== src/Pack/Instruct/Members.antt =====
-- Packing instructions of plain members, in the form that parsePackInstruct of
-- core/src/packStruct.cpp reads.
use irods_client_library_cpp.Base.{
  ℕ, ◌≤◌, ◌<◌, ◌≡◌, refl, false, ◌||◌, some, [], ◌∷◌, ◌++◌, List, Bytes, codes, str_eq, length, All,
  arith,
}
use irods_client_library_cpp.Pack.Instruct.{is_space, is_special, max_pi_len, Item}

-- The types that stand for themselves, and the marks of pointers.
pub data MemberType : Type 0 where
  char_type bin_type str_type pi_str_type int_type double_type struct_type int16_type : MemberType

pub data Mark : Type 0 where
  no_mark pointer no_free no_pack : Mark

pub record Member : Type 0 where
  pub type : MemberType
  pub mark : Mark
  pub name : Bytes

unfoldable pub type_text : MemberType → Bytes
type_text char_type = codes "char"
type_text bin_type = codes "bin"
type_text str_type = codes "str"
type_text pi_str_type = codes "piStr"
type_text int_type = codes "int"
type_text double_type = codes "double"
type_text struct_type = codes "struct"
type_text int16_type = codes "int16"

abbrev pub type_number : MemberType → ℕ
type_number char_type = 0
type_number bin_type = 1
type_number str_type = 2
type_number pi_str_type = 3
type_number int_type = 4
type_number double_type = 5
type_number struct_type = 6
type_number int16_type = 9

-- The mark with the name behind it.
abbrev pub marked : Mark → Bytes → Bytes
marked no_mark s = s
marked pointer s = b'*' ∷ s
marked no_free s = b'$' ∷ s
marked no_pack s = b'#' ∷ b' ' ∷ s

abbrev pub mark_number : Mark → ℕ
mark_number no_mark = 0
mark_number pointer = 1
mark_number no_free = 2
mark_number no_pack = 3

-- "type mark name;" for each member.
unfoldable pub print_members : List Member → Bytes
unfolding type_text
print_members [] = []
print_members (m ∷ ms) =
    type_text m.type ++ b' ' ∷ marked m.mark (m.name ++ b';' ∷ print_members ms)

unfoldable pub items_of : List Member → List Item
items_of [] = []
items_of (m ∷ ms) =
    record {
      type_inx = type_number m.type;
      pointer_type = mark_number m.mark;
      str_value = [];
      name = some m.name;
    }
    ∷ items_of ms

-- A text that is one token, and a word.
abbrev pub IsOrdinary : Bytes → Type 0
IsOrdinary = All (λ c. (is_space c || is_special c) ≡ false)

pub record IsWord (w : Bytes) : Type 0 where
  pub ordinary : IsOrdinary w
  pub some_byte : 1 ≤ length w
  pub fits : length w < max_pi_len
  pub no_percent : str_eq w (codes "%") ≡ false
  pub no_hash : str_eq w (codes "#") ≡ false

pub type_text-IsWord : (t : MemberType) → IsWord (type_text t)
unfolding type_text is_space is_special str_eq
type_text-IsWord char_type = record {
  ordinary = (refl, (refl, (refl, (refl, tt))));
  some_byte = omega arith;
  fits = omega arith;
  no_percent = refl;
  no_hash = refl;
}
type_text-IsWord bin_type = record {
  ordinary = (refl, (refl, (refl, tt)));
  some_byte = omega arith;
  fits = omega arith;
  no_percent = refl;
  no_hash = refl;
}
type_text-IsWord str_type = record {
  ordinary = (refl, (refl, (refl, tt)));
  some_byte = omega arith;
  fits = omega arith;
  no_percent = refl;
  no_hash = refl;
}
type_text-IsWord pi_str_type = record {
  ordinary = (refl, (refl, (refl, (refl, (refl, tt)))));
  some_byte = omega arith;
  fits = omega arith;
  no_percent = refl;
  no_hash = refl;
}
type_text-IsWord int_type = record {
  ordinary = (refl, (refl, (refl, tt)));
  some_byte = omega arith;
  fits = omega arith;
  no_percent = refl;
  no_hash = refl;
}
type_text-IsWord double_type = record {
  ordinary = (refl, (refl, (refl, (refl, (refl, (refl, tt))))));
  some_byte = omega arith;
  fits = omega arith;
  no_percent = refl;
  no_hash = refl;
}
type_text-IsWord struct_type = record {
  ordinary = (refl, (refl, (refl, (refl, (refl, (refl, tt))))));
  some_byte = omega arith;
  fits = omega arith;
  no_percent = refl;
  no_hash = refl;
}
type_text-IsWord int16_type = record {
  ordinary = (refl, (refl, (refl, (refl, (refl, tt)))));
  some_byte = omega arith;
  fits = omega arith;
  no_percent = refl;
  no_hash = refl;
}

-- Members whose names are words.
abbrev pub AreNamed : List Member → Type 0
AreNamed = All (λ m. IsWord m.name)
