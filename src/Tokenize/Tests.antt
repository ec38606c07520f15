-- ===== src/Tokenize/Tests.antt =====
-- Tests of src/core/src/irods_string_tokenize.cpp, and its theorem at a concrete input.
use irods_client_library_cpp.Base.{◌≡◌, refl, [], ◌∷◌, ◌++◌, codes}
use irods_client_library_cpp.Tokenize.{string_tokenize}
use irods_client_library_cpp.Tokenize.Fields.{fields, string_tokenize-fields}

two_tokens : string_tokenize (codes ";;a; b c;") (codes ";") [] ≡ codes "a" ∷ codes "b c" ∷ []
unfolding string_tokenize
two_tokens = refl

string_tokenize-fields_example :
    string_tokenize (codes ";;a; b c;") (codes ";") (codes "x" ∷ [])
    ≡ (codes "x" ∷ []) ++ fields (codes ";") [] (codes ";;a; b c;")
string_tokenize-fields_example =
    string_tokenize-fields (codes ";;a; b c;") (codes ";") (codes "x" ∷ [])
