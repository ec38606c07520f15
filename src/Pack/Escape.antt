-- ===== src/Pack/Escape.antt =====
-- strToXmlStr and xmlStrToStr of core/src/packStruct.cpp. A C string is the list of its bytes;
-- the index `copy_from` marks the first byte that is not yet written to the stream.
pub mod RoundTrip
mod Total
use irods_client_library_cpp.Base.{
  ℕ, zero, suc, ◌+◌, ◌-◌, ◌==◌, ltb, Option, none, some, Bool, true, false, [], ◌∷◌, ◌++◌, Bytes,
  codes, starts_with, if◌then◌else◌, get_or, take, drop,
}

-- The bytes from index `from` up to `to`, as `write(s + from, to - from)` reads them.
unfoldable pub slice : Bytes → ℕ → ℕ → Bytes
slice s from to = take (to - from) (drop from s)

-- What `c_str()` hands to `strdup`: the bytes before the first NUL.
unfoldable pub c_str : Bytes → Bytes
c_str [] = []
c_str (c ∷ s) = if c == 0 then [] else c ∷ c_str s

-- The cases of the switch.
unfoldable pub entity : ℕ → Option Bytes
entity c =
    if c == b'&'
    then some (codes "&amp;")
    else if c == b'<'
    then some (codes "&lt;")
    else if c == b'>'
    then some (codes "&gt;")
    else if c == b'"'
    then some (codes "&quot;")
    else if c == b'`'
    then some (codes "&apos;")
    else none

-- The last argument is what is left of the input from index `i` on.
unfoldable pub str_to_xml_loop : Bytes → ℕ → ℕ → Bytes → Bytes → Bytes
str_to_xml_loop s copy_from i xml [] = xml ++ slice s copy_from i
str_to_xml_loop s copy_from i xml (c ∷ rest) = elim (entity c) [
  | some e ↦ str_to_xml_loop s (i + 1) (i + 1) (xml ++ (slice s copy_from i ++ e)) rest
  | none ↦ str_to_xml_loop s copy_from (i + 1) xml rest
]

unfoldable pub str_to_xml_str : Bytes → Bytes
str_to_xml_str s = c_str (str_to_xml_loop s 0 0 [] s)

-- The tests behind an '&': the byte that the entity stands for, and how far `i` moves.
unfoldable pub entity_at : Bytes → Option (ℕ × ℕ)
entity_at t =
    if starts_with (codes "amp;") t
    then some (b'&', 4)
    else if starts_with (codes "lt;") t
    then some (b'<', 3)
    else if starts_with (codes "gt;") t
    then some (b'>', 3)
    else if starts_with (codes "quot;") t
    then some (b'"', 5)
    else if starts_with (codes "apos;") t
    then some (b'`', 5)
    else none

-- The loop over `i < len`, on fuel; `none` when the fuel is used up.
unfoldable pub xml_str_to_str_loop : ℕ → Bytes → ℕ → ℕ → ℕ → Bytes → Option Bytes
xml_str_to_str_loop zero s len copy_from i out = none
xml_str_to_str_loop (suc fuel) s len copy_from i out = elim (ltb i len) [
  | false ↦ some (out ++ slice s copy_from len)
  | true ↦ elim (get_or s i 0 == b'&') [
    | false ↦ xml_str_to_str_loop fuel s len copy_from (i + 1) out
    | true ↦ elim (entity_at (drop (i + 1) s)) [
      | none ↦ some ((out ++ slice s copy_from i) ++ slice s copy_from len)
      | some (c, skip) ↦
          xml_str_to_str_loop fuel s len (i + skip + 1) (i + skip + 1)
            ((out ++ slice s copy_from i) ++ c ∷ [])
    ]
  ]
]

-- `len` bytes are read. With no length the output stays a null pointer, which callers take as "".
unfoldable pub xml_str_to_str : Bytes → ℕ → Option Bytes
xml_str_to_str s len = elim (xml_str_to_str_loop (len + 1) s len 0 0 []) [
  | none ↦ none
  | some out ↦ some (c_str out)
]
