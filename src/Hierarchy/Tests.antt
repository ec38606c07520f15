-- ===== src/Hierarchy/Tests.antt =====
-- Tests of src/core/src/irods_hierarchy_parser.cpp, and its theorems at concrete inputs.
use irods_client_library_cpp.Base.{◌≡◌, refl, [], ◌∷◌, arith, codes, str_eq, ok, err}
use irods_client_library_cpp.Tokenize.{string_tokenize}
use irods_client_library_cpp.Hierarchy.{
  child_not_found, HierarchyParser, set_string, str, first_resc, last_resc, next, num_levels,
}
use irods_client_library_cpp.Hierarchy.Text.{name, set_string-str}

abbrev three : HierarchyParser
three = record { resc_list = codes "root" ∷ codes "repl" ∷ codes "disk" ∷ [] }

abbrev nothing : HierarchyParser
nothing = record { resc_list = [] }

reads : set_string nothing (codes "root;repl;;disk") ≡ ok three
unfolding set_string string_tokenize
reads = refl

ends : (first_resc three ≡ codes "root") × (last_resc three ≡ codes "disk") × (num_levels three ≡ 3)
unfolding first_resc last_resc num_levels
ends = (refl, refl, refl)

unknown : next three (codes "tape") ≡ err child_not_found
unfolding next str_eq
unknown = refl

set_string-str_example : set_string nothing (str three []) ≡ ok three
set_string-str_example =
    set_string-str nothing three [] (λ e. cc)
      (
        name b'r' (codes "oot") (omega arith) (omega arith),
        (
          name b'r' (codes "epl") (omega arith) (omega arith),
          (name b'd' (codes "isk") (omega arith) (omega arith), tt),
        ),
      )
      ((λ e. cc), ((λ e. cc), ((λ e. cc), tt)))
