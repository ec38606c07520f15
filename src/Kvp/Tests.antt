-- ===== src/Kvp/Tests.antt =====
-- Tests of src/core/src/irods_kvp_string_parser.cpp, and its theorems at concrete inputs.
use irods_client_library_cpp.Base.{
  ◌≡◌, ◌↔◌, refl, ap, ◌∙◌, true, false, List, [], ◌∷◌, ◌++◌, inr, arith, Bytes, codes, starts_with,
  starts_with-append, str_eq,
}
use irods_client_library_cpp.Base.Dict.{Dict, insert_all, str_ltb}
use irods_client_library_cpp.Kvp.{
  success, failure, sys_bad_input, Boost, contains, copy, finish_scan, round, scan, tokens_rejected,
  parse_escaped_kvp_string, escape_string, escape_from, write_at, first_token, is_member,
}
use irods_client_library_cpp.Kvp.Escape.{one_char}
use irods_client_library_cpp.Kvp.RoundTrip.{print_pairs, parse-print_pairs}

starts_with_rest : (p s : Bytes) → starts_with p s ≡ true → (rest : Bytes) × (s ≡ p ++ rest)
unfolding starts_with
starts_with_rest [] s h = (s, refl)
starts_with_rest (x ∷ xs) [] h = cc
starts_with_rest (x ∷ xs) (y ∷ ys) h =
    let (rest, e) = starts_with_rest xs ys (ground arith) in (rest, ground arith)

starts_with_char : (s p : Bytes) → (starts_with p s ≡ true) ↔ ((rest : Bytes) × (s ≡ p ++ rest))
starts_with_char s p =
    (starts_with_rest p s, λ w. ap (starts_with p) w.1 ∙ starts_with-append p w.0)

abbrev sample : Boost
sample = record {
  starts_with = λ s p. starts_with p s;
  starts_with_iff = starts_with_char;
  split = λ s p compress. elim compress [ true ↦ codes "k" ∷ s ∷ [] | false ↦ s ∷ [] ];
}

abbrev pairs : Dict Bytes
pairs = (codes "a=b", codes "1;2") ∷ (codes "", codes "\\") ∷ []

abbrev specials : List Bytes
specials = codes ";" ∷ codes "=" ∷ []

escaped_text : print_pairs sample b'=' b';' b'\\' specials pairs ≡ codes "a\\=b=1\\;2;=\\\\"
unfolding print_pairs escape_string escape_from write_at first_token is_member starts_with str_eq
escaped_text = refl

-- With an association of two characters the escape does not cover the second one.
long_token_fails :
    parse_escaped_kvp_string sample
      (record { assoc = codes "=="; delim = codes ";"; escape = codes "\\" })
      (codes "k==" ++ escape_string sample (codes "===") (codes "\\") (codes ";" ∷ codes "==" ∷ []))
      []
    ≡ failure sys_bad_input []
unfolding parse_escaped_kvp_string scan round copy finish_scan tokens_rejected contains
    escape_string escape_from write_at first_token is_member starts_with str_eq
long_token_fails = refl

parse-print_pairs_example :
    parse_escaped_kvp_string sample
      (one_char b'=' b';' b'\\')
      (print_pairs sample b'=' b';' b'\\' specials pairs)
      []
    ≡ success ((codes "", codes "\\") ∷ (codes "a=b", codes "1;2") ∷ [])
unfolding insert_all str_ltb str_eq
parse-print_pairs_example =
    parse-print_pairs sample b'=' b';' b'\\' specials pairs [] (omega arith) (omega arith)
      (omega arith) (inr refl)
