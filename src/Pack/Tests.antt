-- ===== src/Pack/Tests.antt =====
-- Runs of the packing at concrete inputs.
use irods_client_library_cpp.Base.{
  ℕ, ◌+◌, ◌≡◌, refl, Bool, true, some, [], ◌∷◌, ◌++◌, Bytes, codes, starts_with, str_eq, length,
  err, ok, arith,
}
use irods_client_library_cpp.Base.Int.{pos}
use irods_client_library_cpp.Pack.Escape.{
  slice, c_str, entity, entity_at, str_to_xml_loop, str_to_xml_str, xml_str_to_str_loop,
  xml_str_to_str,
}
use irods_client_library_cpp.Pack.Escape.RoundTrip.{xml_str_to_str_unknown}
use irods_client_library_cpp.Pack.Output.{PackedOutput, user_packstruct_input_err, memcpy, emit}
use irods_client_library_cpp.Pack.Output.Append.{IsValid, contents, Appends, emit-Appends}
use irods_client_library_cpp.Pack.Native.{
  pack_nat_string, unpack_nat_string, pack_int, pack_int16, pack_double, unpack_int, unpack_int16,
  unpack_double,
}
use irods_client_library_cpp.Pack.Native.Strings.{
  PackedString, unpack_nat_string-pack_nat_string, unpack_nat_string_longest,
}
use irods_client_library_cpp.Pack.Native.Words.{RoundTrip, native_integers-RoundTrip}
use irods_client_library_cpp.Pack.Xml.{pack_xml_string, unpack_xml_string_to_out_ptr}
use irods_client_library_cpp.Pack.Xml.Text.{unpack_xml_string_to_out_ptr-pack_xml_string}
use irods_client_library_cpp.Pack.Instruct.{
  sys_pack_instruct_format_err, is_space, is_special, copy_str, copy_dependent, lookup_from,
  pack_type_lookup, item_of, on_delimiter, on_int_dependent, on_dependent, on_pointer, on_word,
  on_token, finish, parse_loop, parse_pack_instruct,
}
use irods_client_library_cpp.Pack.Instruct.Members.{
  Member, int_type, bin_type, pointer, no_pack, print_members, items_of, AreNamed, type_text,
}
use irods_client_library_cpp.Pack.Instruct.ReadBack.{parse_pack_instruct-print_members}
use irods_client_library_cpp.Pack.Instruct.Accepted.{IsRead, parse_pack_instruct-IsRead}

abbrev always : ℕ → Bool
always n = true

-- One of four bytes is in use.
abbrev small : PackedOutput
small = record { buf = 7 ∷ 0 ∷ 0 ∷ 0 ∷ []; len = 1; buf_size = 4 }

abbrev empty : PackedOutput
empty = record { buf = []; len = 0; buf_size = 0 }

abbrev memory : Bytes
memory = 1 ∷ 2 ∷ 3 ∷ 4 ∷ 5 ∷ 6 ∷ 7 ∷ 8 ∷ 9 ∷ []

str_to_xml_str_runs : str_to_xml_str (codes "a<b&c`") ≡ codes "a&lt;b&amp;c&apos;"
unfolding str_to_xml_str str_to_xml_loop c_str entity slice
str_to_xml_str_runs = refl

xml_str_to_str_runs : xml_str_to_str (codes "a&quot;b</x>") 8 ≡ some (codes "a\"b")
unfolding xml_str_to_str xml_str_to_str_loop c_str entity_at slice starts_with
xml_str_to_str_runs = refl

xml_str_to_str_unknown_example : xml_str_to_str (codes "ab&c") 4 ≡ some (codes "abab&c")
unfolding entity_at starts_with
xml_str_to_str_unknown_example =
    xml_str_to_str_unknown (codes "ab") (codes "c") (omega arith) (omega arith) refl

emit-Appends_example : Appends (emit always small 5 (5 ∷ 6 ∷ 0 ∷ []) 2) small (5 ∷ 6 ∷ [])
emit-Appends_example =
    emit-Appends always small 5 (5 ∷ 6 ∷ 0 ∷ []) 2 (λ k. refl) (refl, omega arith) (omega arith)
      (omega arith)

native_integers-RoundTrip_example :
    RoundTrip 4 (pack_int always) (unpack_int always) small empty 1 memory (9 ∷ [])
    × RoundTrip 2 (pack_int16 always) (unpack_int16 always) small empty 1 memory (9 ∷ [])
    × RoundTrip 8 (pack_double always) (unpack_double always) small empty 1 memory (9 ∷ [])
native_integers-RoundTrip_example =
    native_integers-RoundTrip always small empty 1 memory (9 ∷ []) (λ k. refl) (refl, omega arith)
      (refl, omega arith) (omega arith) (omega arith)

unpack_nat_string-pack_nat_string_example :
    (sent received : PackedOutput) × (behind : Bytes) × (pack_nat_string always
        (some (5 ∷ 6 ∷ 0 ∷ 9 ∷ 9 ∷ []))
        small
        (pos 4)
      ≡ ok (some (9 ∷ []), sent))
    × (contents sent ≡ contents small ++ (5 ∷ 6 ∷ 0 ∷ []))
    × (unpack_nat_string always (some (5 ∷ 6 ∷ 0 ∷ 8 ∷ [])) empty (pos 4)
        ≡ ok (some (8 ∷ []), received, some 0))
    × (contents received ≡ contents empty ++ (5 ∷ 6 ∷ 0 ∷ behind))
    × (3 + length behind ≡ 4)
unpack_nat_string-pack_nat_string_example =
    unpack_nat_string-pack_nat_string always small empty (5 ∷ 6 ∷ []) (9 ∷ 9 ∷ []) (8 ∷ []) 4
      (λ k. refl) (refl, omega arith) (refl, omega arith) (omega arith) (omega arith)

unpack_nat_string_longest_example :
    ((sent : PackedOutput) × PackedString always
        (some (5 ∷ 6 ∷ 0 ∷ 9 ∷ []))
        small
        (pos 3)
        (5 ∷ 6 ∷ [])
        sent)
    × (unpack_nat_string always (some (5 ∷ 6 ∷ 0 ∷ 8 ∷ [])) empty (pos 3)
        ≡ err user_packstruct_input_err)
unpack_nat_string_longest_example =
    unpack_nat_string_longest always small empty (5 ∷ 6 ∷ []) (9 ∷ []) (8 ∷ []) (λ k. refl)
      (refl, omega arith) (omega arith)

unpack_xml_string_to_out_ptr-pack_xml_string_example :
    (sent : PackedOutput) × (stream : Bytes) × (pack_xml_string always
        (some (codes "a<" ++ 0 ∷ 9 ∷ 9 ∷ []))
        small
        (pos 4)
        (codes "msg")
      ≡ ok (some (9 ∷ []), sent))
    × IsValid sent
    × (contents sent ≡ contents small ++ stream)
    × (unpack_xml_string_to_out_ptr (some (stream ++ 8 ∷ [])) memory 2 (pos 4) (codes "msg")
        ≡ ok (8 ∷ [], memcpy memory 2 (codes "a<" ++ 0 ∷ []), 6))
unpack_xml_string_to_out_ptr-pack_xml_string_example =
    unpack_xml_string_to_out_ptr-pack_xml_string always small (codes "a<") (9 ∷ 9 ∷ []) (8 ∷ [])
      memory (codes "msg") 2 4 (λ k. refl) (refl, omega arith) (omega arith) (omega arith)
      (omega arith)

parse_pack_instruct-IsRead_example : IsRead 17 (parse_pack_instruct (codes "int *a[2]; str b;"))
parse_pack_instruct-IsRead_example = parse_pack_instruct-IsRead (codes "int *a[2]; str b;")

parse_pack_instruct_runs :
    (parse_pack_instruct (codes "int *a;")
      ≡ ok
          (record { type_inx = 4; pointer_type = 1; str_value = []; name = some (codes "a") } ∷ []))
    × (parse_pack_instruct (codes "?d e; % f g;")
        ≡ ok (
            record {
              type_inx = 7;
              pointer_type = 0;
              str_value = codes "d";
              name = some (codes "e");
            }
            ∷ record { type_inx = 8; pointer_type = 0; str_value = []; name = some (codes "f g") }
            ∷ []))
    × (parse_pack_instruct (codes ";int a;;") ≡ err sys_pack_instruct_format_err)
unfolding parse_pack_instruct parse_loop finish on_token on_word on_pointer on_dependent
    on_int_dependent on_delimiter item_of pack_type_lookup lookup_from copy_str copy_dependent
    is_space is_special str_eq
parse_pack_instruct_runs = (refl, refl, refl)

abbrev first_member : Member
first_member = record { type = int_type; mark = pointer; name = codes "a" }

abbrev second_member : Member
second_member = record { type = bin_type; mark = no_pack; name = codes "b" }

printed_members : print_members (first_member ∷ second_member ∷ []) ≡ codes "int *a;bin # b;"
unfolding print_members type_text
printed_members = refl

both-AreNamed : AreNamed (first_member ∷ second_member ∷ [])
unfolding is_space is_special str_eq
both-AreNamed = (
  record {
    ordinary = (refl, tt);
    some_byte = omega arith;
    fits = omega arith;
    no_percent = refl;
    no_hash = refl;
  },
  (
    record {
      ordinary = (refl, tt);
      some_byte = omega arith;
      fits = omega arith;
      no_percent = refl;
      no_hash = refl;
    },
    tt,
  ),
)

parse_pack_instruct-print_members_example :
    parse_pack_instruct (print_members (first_member ∷ second_member ∷ []))
    ≡ ok (
        record { type_inx = 4; pointer_type = 1; str_value = []; name = some (codes "a") }
        ∷ record { type_inx = 1; pointer_type = 3; str_value = []; name = some (codes "b") }
        ∷ [])
unfolding items_of
parse_pack_instruct-print_members_example =
    parse_pack_instruct-print_members first_member (second_member ∷ []) both-AreNamed
