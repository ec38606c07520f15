-- ===== src/Pack/Xml/Tag.antt =====
-- What is between two tags is found, whatever follows them.
use irods_client_library_cpp.Base.{
  ℕ, ◌+◌, ◌-◌, ◌<◌, ◌≡◌, refl, sym, ap, ap₂, ◌∙◌, true, some, [], ◌∷◌, ◌++◌, append_assoc, Bytes,
  codes, starts_with, starts_with-append, strstr, length, drop, length-append, take_all,
  drop-append, Lacks, ok, arith,
}
use irods_client_library_cpp.Pack.Xml.{
  max_name_len, end_tag_array, end_tag_at, start_tag_fl, parse_end_tag, start_tag_at,
  parse_start_tag, parse_xml_tag, parse_xml_value,
}

-- The first place where the needle stands, where its first byte is not before.
pub strstr-append :
    (b : ℕ) (needle pre rest : Bytes)
    → Lacks b pre
    → starts_with (b ∷ needle) rest ≡ true
    → strstr (b ∷ needle) (pre ++ rest) ≡ some (length pre)
unfolding strstr starts_with
strstr-append b needle [] [] h k = ground arith
strstr-append b needle [] (c ∷ rest) h k = rw k refl
strstr-append b needle (c ∷ pre) rest (h, hs) k =
    rw (strstr-append b needle pre rest hs k) (ground (arith, h))

unfoldable pub start_tag : Bytes → Bytes
start_tag name = b'<' ∷ (name ++ codes ">")

unfoldable pub end_tag : Bytes → Bytes
end_tag name = codes "</" ++ (name ++ codes ">\n")

-- A value in its tags.
unfoldable pub element : Bytes → Bytes → Bytes
element name value = start_tag name ++ (value ++ end_tag name)

module _ (name : Bytes) where
  start_tag_read :
      (rest : Bytes)
      → parse_start_tag (b'<' ∷ (name ++ b'>' ∷ rest)) name start_tag_fl ≡ ok (length name + 2, 0)
  unfolding parse_start_tag strstr starts_with start_tag_at
  start_tag_read rest =
      rw (start_tag_at, starts_with-append name (b'>' ∷ rest), drop-append name (b'>' ∷ rest)) refl

  end_tag_array-short :
      length name + 3 < max_name_len → end_tag_array name ≡ codes "</" ++ (name ++ codes ">")
  unfolding end_tag_array
  end_tag_array-short short =
      take_all (max_name_len - 1) (codes "</" ++ (name ++ codes ">"))
        (omega (arith, length-append name (codes ">")))

  end_tag_read :
      (value rest : Bytes)
      → length name + 3 < max_name_len
      → Lacks b'<' value
      → parse_end_tag (value ++ (end_tag name ++ rest)) name ≡ ok (length name + 4, length value)
  unfolding parse_end_tag end_tag_at end_tag
  end_tag_read value rest short lacks =
      let needle : Bytes = codes "</" ++ (name ++ codes ">") in
      let n : length needle ≡ length name + 3 = omega (arith, length-append name (codes ">")) in
      let whole : end_tag_array name ≡ needle = end_tag_array-short short in
      let split : end_tag name ++ rest ≡ needle ++ b'\n' ∷ rest = simp (append_assoc) in
      let found : strstr needle (value ++ (needle ++ b'\n' ∷ rest)) ≡ some (length value) =
        strstr-append b'<' (b'/' ∷ (name ++ codes ">")) value (needle ++ b'\n' ∷ rest) lacks
          (starts_with-append needle (b'\n' ∷ rest)) in
      let at : length value + (length name + 3) ≡ length (value ++ needle) =
        omega (arith, length-append value needle, n) in
      let behind : drop (length value + (length name + 3)) (value ++ (needle ++ b'\n' ∷ rest))
          ≡ b'\n' ∷ rest =
        ap₂ drop at (sym (append_assoc value needle (b'\n' ∷ rest)))
        ∙ drop-append (value ++ needle) (b'\n' ∷ rest) in
      let four : length name + 3 + 1 ≡ length name + 4 = omega arith in
      ap (λ w. parse_end_tag (value ++ w) name) split
      ∙ ap (end_tag_at (value ++ (needle ++ b'\n' ∷ rest)) name)
          (ap (λ a. strstr a (value ++ (needle ++ b'\n' ∷ rest))) whole ∙ found)
      ∙ rw behind (ap (λ k. ok (k, length value)) four)

element_def :
    (name value : Bytes) → element name value ≡ b'<' ∷ (name ++ b'>' ∷ (value ++ end_tag name))
unfolding element start_tag
element_def name value = simp (append_assoc)

element_front :
    (name value rest : Bytes)
    → element name value ++ rest ≡ start_tag name ++ (value ++ (end_tag name ++ rest))
unfolding element
element_front name value rest = simp (append_assoc)

start_length : (name : Bytes) → length name + 2 + 0 ≡ length (start_tag name)
unfolding start_tag
start_length name = omega (arith, length-append name (codes ">"))

-- A value without '<' in its tags is read as itself, whatever follows: the value begins behind the
-- start tag, and the end tag counts its line feed. The name fits in the array of the end tag.
pub parse_xml_value-element :
    (name value rest : Bytes)
    → length name + 3 < max_name_len
    → Lacks b'<' value
    → parse_xml_value (some (element name value ++ rest)) name
      ≡ ok (value ++ (end_tag name ++ rest), length value, length name + 4)
unfolding parse_xml_value parse_xml_tag
parse_xml_value-element name value rest short lacks =
    let back : Bytes = value ++ (end_tag name ++ rest) in
    let front : element name value ++ rest ≡ b'<' ∷ (name ++ b'>' ∷ back) =
      simp (element_def name value, append_assoc) in
    let start : parse_xml_tag (element name value ++ rest) name start_tag_fl
        ≡ ok (length name + 2, 0) =
      ap (λ w. parse_start_tag w name start_tag_fl) front ∙ start_tag_read name back in
    let value_at : drop (length name + 2 + 0) (element name value ++ rest) ≡ back =
      ap₂ drop (start_length name) (element_front name value rest)
      ∙ drop-append (start_tag name) back in
    rw (start, value_at, end_tag_read name value rest short lacks) refl
