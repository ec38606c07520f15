-- ===== src/Pack/Xml.antt =====
-- The XML protocol of core/src/packStruct.cpp: tags, the value between two tags, and strings.
pub mod Tag
pub mod Text
use irods_client_library_cpp.Base.{
  ℕ, zero, suc, ◌+◌, ◌-◌, ◌*◌, ◌/◌, ◌%◌, ◌==◌, Bool, true, false, Option, none, some, [], ◌∷◌, ◌++◌,
  Bytes, codes, starts_with, strstr, leb, ltb, if◌then◌else◌, length, take, drop, get_or, Result,
  err, ok, ◌>>=◌,
}
use irods_client_library_cpp.Base.Int.{ℤ, pos, negsuc}
use irods_client_library_cpp.Pack.Escape.{str_to_xml_str, xml_str_to_str}
use irods_client_library_cpp.Pack.Output.{
  PackedOutput, Error, user_packstruct_input_err, sys_pack_instruct_format_err,
  sys_internal_null_input_err, user_null_input_err, memcpy, emit,
}
use irods_client_library_cpp.Pack.Native.{too_long, stride, string_at, move}

-- START_TAG_FL, END_TAG_FL and LF_FL, and the tests of the bits of a flag.
abbrev pub start_tag_fl : ℕ
start_tag_fl = 0

abbrev pub end_tag_fl : ℕ
end_tag_fl = 1

abbrev pub lf_fl : ℕ
lf_fl = 2

abbrev pub has_end : ℕ → Bool
has_end flag = flag % 2 == 1

abbrev pub has_lf : ℕ → Bool
has_lf flag = flag / 2 % 2 == 1

abbrev pub max_name_len : ℕ
max_name_len = 1024 + 64

-- The text that `snprintf` makes of a tag.
unfoldable pub tag_text : Bytes → ℕ → Bytes
tag_text name flag =
    if has_end flag
    then codes "</" ++ (name ++ codes ">\n")
    else if has_lf flag
    then b'<' ∷ (name ++ codes ">\n")
    else b'<' ∷ (name ++ codes ">")

-- `snprintf` writes at most `myStrlen - 1` bytes and a NUL, and `strlen` counts the bytes.
unfoldable pub pack_xml_tag : (ℕ → Bool) → Bytes → PackedOutput → ℕ → Result Error PackedOutput
unfolding tag_text emit
pack_xml_tag realloc name o flag =
    let my_strlen = length name + 5 in
    let text = take (my_strlen - 1) (tag_text name flag) in
    emit realloc o my_strlen (text ++ 0 ∷ []) (length text)

-- The array `endTag`, which `snprintf` fills.
unfoldable pub end_tag_array : Bytes → Bytes
end_tag_array name = take (max_name_len - 1) (codes "</" ++ (name ++ codes ">"))

-- The length of the tag, and the number of bytes before it.
unfoldable pub end_tag_at : Bytes → Bytes → Option ℕ → Result Error (ℕ × ℕ)
end_tag_at in_ptr name none = err sys_pack_instruct_format_err
end_tag_at in_ptr name (some skip) =
    let my_len = length name + 3 in
    ok (if get_or (drop (skip + my_len) in_ptr) 0 0 == b'\n' then my_len + 1 else my_len, skip)

unfoldable pub parse_end_tag : Bytes → Bytes → Result Error (ℕ × ℕ)
unfolding strstr end_tag_array end_tag_at
parse_end_tag in_ptr name = end_tag_at in_ptr name (strstr (end_tag_array name) in_ptr)

unfoldable pub start_tag_at : Bytes → Bytes → ℕ → ℕ → Result Error (ℕ × ℕ)
start_tag_at after name flag skip =
    if starts_with name after
    then (if get_or (drop (length name) after) 0 0 == b'>'
        then ok (
          if has_lf flag
              then (if get_or (drop (length name + 1) after) 0 0 == b'\n'
                  then length name + 3
                  else length name + 2)
              else length name + 2,
          skip,
        )
        else err sys_pack_instruct_format_err)
    else err sys_pack_instruct_format_err

unfoldable pub parse_start_tag : Bytes → Bytes → ℕ → Result Error (ℕ × ℕ)
unfolding strstr start_tag_at
parse_start_tag in_ptr name flag = elim (strstr (codes "<") in_ptr) [
  | none ↦ err sys_pack_instruct_format_err
  | some skip ↦ start_tag_at (drop (skip + 1) in_ptr) name flag skip
]

unfoldable pub parse_xml_tag : Bytes → Bytes → ℕ → Result Error (ℕ × ℕ)
unfolding parse_end_tag parse_start_tag
parse_xml_tag in_ptr name flag =
    if has_end flag then parse_end_tag in_ptr name else parse_start_tag in_ptr name flag

-- Where the value begins, its length, and the length of the end tag.
unfoldable pub parse_xml_value : Option Bytes → Bytes → Result Error (Bytes × ℕ × ℕ)
unfolding parse_xml_tag
parse_xml_value none name = err user_null_input_err
parse_xml_value (some in_ptr) name = parse_xml_tag in_ptr name start_tag_fl >>= λ (status, str_len).
    parse_xml_tag (drop (status + str_len) in_ptr) name (end_tag_fl + lf_fl) >>= λ (end_len, skip).
    ok (drop (status + str_len) in_ptr, skip, end_len)

unfoldable pub pack_xml_text :
    (ℕ → Bool)
    → Bytes
    → Option Bytes
    → PackedOutput
    → ℤ
    → Bytes
    → Result Error (Option Bytes × PackedOutput)
unfolding too_long stride move str_to_xml_str emit pack_xml_tag
pack_xml_text realloc s in_ptr o max name =
    let xml_str = str_to_xml_str s in
    if too_long (length s) max
    then err user_packstruct_input_err
    else pack_xml_tag realloc name o start_tag_fl >>= λ o1.
        emit realloc o1 (length xml_str + 1) (xml_str ++ 0 ∷ []) (length xml_str) >>= λ o2.
        pack_xml_tag realloc name o2 end_tag_fl >>= λ o3.
        ok (move in_ptr (stride (length xml_str) max), o3)

-- `inPtr` moves by the length of the escaped text where there is no maximum.
unfoldable pub pack_xml_string :
    (ℕ → Bool)
    → Option Bytes
    → PackedOutput
    → ℤ
    → Bytes
    → Result Error (Option Bytes × PackedOutput)
unfolding pack_xml_text string_at
pack_xml_string realloc none o max name = err sys_internal_null_input_err
pack_xml_string realloc (some memory) o max name =
    pack_xml_text realloc (string_at (some memory)) (some memory) o max name

-- The string that xmlStrToStr makes, "" for its null pointer.
unfoldable pub text_of : Bytes → ℕ → Bytes
unfolding xml_str_to_str
text_of s len = elim (xml_str_to_str s len) [ none ↦ [] | some t ↦ t ]

-- `outPtr` is an index into the memory `buf`.
unfoldable pub unpack_xml_string_to_out_ptr :
    Option Bytes → Bytes → ℕ → ℤ → Bytes → Result Error (Bytes × Bytes × ℕ)
unfolding parse_xml_value text_of too_long memcpy
unpack_xml_string_to_out_ptr none buf at max name = err sys_pack_instruct_format_err
unpack_xml_string_to_out_ptr (some in_ptr) buf at max name =
    parse_xml_value (some in_ptr) name >>= λ (value, orig_len, end_len).
    let s = text_of value orig_len in
    if too_long (length s) max
    then err user_packstruct_input_err
    else ok (
      drop (orig_len + end_len) value,
      memcpy buf at (s ++ 0 ∷ []),
      elim max [ pos n ↦ at + n | negsuc _ ↦ at + (length s + 1) ],
    )

-- The room that unpackXmlString asks for, and how far the length moves.
unfoldable pub xml_ext_len : ℕ → ℤ → ℕ
xml_ext_len n (pos max) = max
xml_ext_len n (negsuc _) = n

unfoldable pub unpack_xml_string :
    (ℕ → Bool)
    → Option Bytes
    → PackedOutput
    → ℤ
    → Bytes
    → Result Error (Bytes × PackedOutput × Option ℕ)
unfolding parse_xml_value text_of too_long xml_ext_len stride emit
unpack_xml_string realloc in_ptr o max name =
    parse_xml_value in_ptr name >>= λ (value, orig_len, end_len).
    let s = text_of value orig_len in
    if too_long (length s) max
    then err user_packstruct_input_err
    else emit realloc o (xml_ext_len (length s) max) (s ++ 0 ∷ []) (stride (length s) max) >>= λ o'.
        ok (drop (orig_len + 1) value, o', if ltb 0 (length s) then some o.len else none)
