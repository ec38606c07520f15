-- ===== src/Pack/Xml/Text.antt =====
-- A string of the XML protocol: packed in its tags and escaped, it is read back.
use irods_client_library_cpp.Base.{
  ℕ, ◌+◌, ◌-◌, ◌≤◌, ◌<◌, ◌≡◌, refl, sym, ap, ap₂, subst, ◌∙◌, Bool, true, false, Option, some, [],
  ◌∷◌, ◌++◌, append_assoc, Bytes, codes, length, take, drop, length-append, take-length, take_all,
  drop-append, Lacks, All-append, ok, arith,
}
use irods_client_library_cpp.Base.Int.{ℤ, pos}
use irods_client_library_cpp.Pack.Escape.{entity, str_to_xml_str}
use irods_client_library_cpp.Pack.Escape.RoundTrip.{
  escaped, escape_all, str_to_xml_str-escape_all, xml_str_to_str-str_to_xml_str,
}
use irods_client_library_cpp.Pack.Output.{PackedOutput, memcpy, emit}
use irods_client_library_cpp.Pack.Output.Append.{IsValid, contents, Appends, emit-Appends}
use irods_client_library_cpp.Pack.Native.{too_long, stride, move}
use irods_client_library_cpp.Pack.Native.Strings.{string_at-append, too_long-lt, stride-pos}
use irods_client_library_cpp.Pack.Xml.{
  max_name_len, start_tag_fl, end_tag_fl, tag_text, pack_xml_tag, pack_xml_text, pack_xml_string,
  text_of, parse_xml_value, unpack_xml_string_to_out_ptr,
}
use irods_client_library_cpp.Pack.Xml.Tag.{start_tag, end_tag, element, parse_xml_value-element}

length-tag_text : (name : Bytes) (flag : ℕ) → length (tag_text name flag) ≤ length name + 4
unfolding tag_text
length-tag_text name flag =
    ground (arith, length-append name (codes ">\n"), length-append name (codes ">"))

element_text :
    (front name value : Bytes)
    → ((front ++ tag_text name start_tag_fl) ++ value) ++ tag_text name end_tag_fl
      ≡ front ++ element name value
unfolding tag_text element start_tag end_tag
element_text front name value =
    append_assoc (front ++ start_tag name) value (end_tag name)
    ∙ append_assoc front (start_tag name) (value ++ end_tag name)

module _ (realloc : ℕ → Bool) (mem : (k : ℕ) → realloc k ≡ true) where
  -- The buffer of `snprintf` has room for every tag.
  pack_xml_tag-Appends :
      (name : Bytes) (o : PackedOutput) (flag : ℕ)
      → IsValid o
      → Appends (pack_xml_tag realloc name o flag) o (tag_text name flag)
  unfolding pack_xml_tag
  pack_xml_tag-Appends name o flag v =
      let text : Bytes = tag_text name flag in
      let n = length-tag_text name flag in
      let whole : take (length name + 5 - 1) text ≡ text = take_all _ text (omega arith) in
      let m : length (text ++ 0 ∷ []) ≡ length text + 1 = length-append text (0 ∷ []) in
      rw whole (
        subst (λ w. Appends (emit realloc o (length name + 5) (text ++ 0 ∷ []) (length text)) o w)
          (take-length text (0 ∷ []))
          (emit-Appends realloc o (length name + 5) (text ++ 0 ∷ []) (length text) mem v
            (omega (arith, m)) (omega (arith, m, n))))

  -- The three writes of a string: its tags and its escaped text.
  pack_xml_text-Appends :
      (s : Bytes) (in_ptr : Option Bytes) (o : PackedOutput) (max : ℤ) (name : Bytes)
      → IsValid o
      → too_long (length s) max ≡ false
      → (sent : PackedOutput) × (pack_xml_text realloc s in_ptr o max name
          ≡ ok (move in_ptr (stride (length (str_to_xml_str s)) max), sent))
        × IsValid sent
        × (contents sent ≡ contents o ++ element name (str_to_xml_str s))
  unfolding pack_xml_text
  pack_xml_text-Appends s in_ptr o max name v h =
      let xml : Bytes = str_to_xml_str s in
      let m : length (xml ++ 0 ∷ []) ≡ length xml + 1 = length-append xml (0 ∷ []) in
      let a = pack_xml_tag-Appends name o start_tag_fl v in
      let b =
        emit-Appends realloc a.out (length xml + 1) (xml ++ 0 ∷ []) (length xml) mem a.valid
          (omega (arith, m)) (omega (arith, m)) in
      let c = pack_xml_tag-Appends name b.out end_tag_fl b.valid in
      (
        c.out,
        rw (h, a.returns, b.returns, c.returns) refl,
        c.valid,
        c.appended
            ∙ ap (λ w. w ++ tag_text name end_tag_fl)
                (b.appended ∙ ap₂ ◌++◌ a.appended (take-length xml (0 ∷ [])))
            ∙ element_text (contents o) name xml,
      )

Lacks-escaped : (c : ℕ) → Lacks b'<' (escaped c)
unfolding escaped entity
Lacks-escaped c = ground arith

Lacks-escape_all : (s : Bytes) → Lacks b'<' (escape_all s)
unfolding escape_all
Lacks-escape_all [] = tt
Lacks-escape_all (c ∷ s) =
    All-append _ (escaped c) (escape_all s) (Lacks-escaped c) (Lacks-escape_all s)

text_of-escape_all :
    (s tail : Bytes)
    → Lacks 0 s
    → text_of (str_to_xml_str s ++ tail) (length (str_to_xml_str s)) ≡ s
unfolding text_of
text_of-escape_all s tail h = rw (text_of, xml_str_to_str-str_to_xml_str s tail h) refl

unpack_step :
    (in_ptr buf name value s : Bytes) (at max orig_len end_len : ℕ)
    → parse_xml_value (some in_ptr) name ≡ ok (value, orig_len, end_len)
    → text_of value orig_len ≡ s
    → too_long (length s) (pos max) ≡ false
    → unpack_xml_string_to_out_ptr (some in_ptr) buf at (pos max) name
      ≡ ok (drop (orig_len + end_len) value, memcpy buf at (s ++ 0 ∷ []), at + max)
unfolding unpack_xml_string_to_out_ptr
unpack_step in_ptr buf name value s at max orig_len end_len p t h = rw (p, t, h) refl

behind_end_tag :
    (xml name rest : Bytes)
    → drop (length xml + (length name + 4)) (xml ++ (end_tag name ++ rest)) ≡ rest
unfolding end_tag
behind_end_tag xml name rest =
    let n : length xml + (length name + 4) ≡ length (xml ++ end_tag name) =
      omega (arith, length-append xml (end_tag name), length-append name (codes ">\n")) in
    ap₂ drop n (sym (append_assoc xml (end_tag name) rest)) ∙ drop-append (xml ++ end_tag name) rest

-- A string that fits in its member is packed as an element with its escaped text; from this
-- element, whatever follows it, unpackXmlStringToOutPtr writes the string and its NUL to the
-- memory it is given, and moves both pointers to what comes next.
pub unpack_xml_string_to_out_ptr-pack_xml_string :
    (realloc : ℕ → Bool) (o : PackedOutput) (s junk rest buf name : Bytes) (at max : ℕ)
    → ((k : ℕ) → realloc k ≡ true)
    → IsValid o
    → Lacks 0 s
    → length s < max
    → length name + 3 < max_name_len
    → (sent : PackedOutput) × (stream : Bytes) × (pack_xml_string realloc
          (some (s ++ 0 ∷ junk))
          o
          (pos max)
          name
        ≡ ok (some (drop max (s ++ 0 ∷ junk)), sent))
      × IsValid sent
      × (contents sent ≡ contents o ++ stream)
      × (unpack_xml_string_to_out_ptr (some (stream ++ rest)) buf at (pos max) name
          ≡ ok (rest, memcpy buf at (s ++ 0 ∷ []), at + max))
unfolding pack_xml_string unpack_xml_string_to_out_ptr move
unpack_xml_string_to_out_ptr-pack_xml_string realloc o s junk rest buf name at max mem v lacks fits
      short =
    let xml : Bytes = str_to_xml_str s in
    let (sent, e, w, c) =
      pack_xml_text-Appends realloc mem s (some (s ++ 0 ∷ junk)) o (pos max) name v
        (too_long-lt max (length s) fits) in
    let no_tag : Lacks b'<' xml =
      subst (Lacks b'<') (sym (str_to_xml_str-escape_all s lacks)) (Lacks-escape_all s) in
    let value = parse_xml_value-element name xml rest short no_tag in
    (
      sent,
      element name xml,
      ap (λ t. pack_xml_text realloc t (some (s ++ 0 ∷ junk)) o (pos max) name)
            (string_at-append s junk lacks)
          ∙ e
          ∙ ap (λ k. ok (some (drop k (s ++ 0 ∷ junk)), sent))
              (stride-pos max (length xml) (omega arith)),
      w,
      c,
      unpack_step (element name xml ++ rest) buf name (xml ++ (end_tag name ++ rest)) s at max
            (length xml) (length name + 4) value (text_of-escape_all s (end_tag name ++ rest) lacks)
            (too_long-lt max (length s) fits)
          ∙ ap (λ r. ok (r, memcpy buf at (s ++ 0 ∷ []), at + max)) (behind_end_tag xml name rest),
    )
