-- ===== src/Children/Tests.antt =====
-- Tests of src/core/src/irods_children_parser.cpp, and its theorems at concrete inputs.
use irods_client_library_cpp.Base.{◌≡◌, refl, [], ◌∷◌, ◌++◌, none, some, arith, codes, str_eq}
use irods_client_library_cpp.Base.Dict.{IsSorted, lookup, insert, str_ltb}
use irods_client_library_cpp.Children.{
  child_exists, child_not_found, Children, str, str_loop, add_child, remove_child, first_child,
  last_child, last_of, set_string, set_loop, split_at, parse_child, add_parsed,
}
use irods_client_library_cpp.Children.Text.{plain, set_string-str_plain, set_string-str_semicolon}
use irods_client_library_cpp.Children.Change.{add_child_lem}

abbrev two : Children
two = (codes "a", codes "x") ∷ (codes "b", []) ∷ []

printed : str two ≡ codes "a{x};b{}"
unfolding str str_loop
printed = refl

reads : set_string [] (codes "b;a{x}y;") ≡ (none, two)
unfolding set_string set_loop split_at parse_child add_parsed insert str_ltb str_eq
reads = refl

unclosed : set_string two (codes "c;a{x") ≡ (some child_not_found, (codes "c", []) ∷ [])
unfolding set_string set_loop split_at parse_child add_parsed insert
unclosed = refl

ends : (first_child two ≡ (none, codes "a")) × (last_child two ≡ (none, codes "b"))
unfolding first_child last_child last_of
ends = (refl, refl)

unknown : remove_child two (codes "c") ≡ (some child_not_found, two)
unfolding remove_child lookup str_eq
unknown = refl

two-IsSorted : IsSorted two
unfolding str_ltb
two-IsSorted = ((refl, tt), (tt, tt))

set_string-str_plain_example : set_string [] (str two) ≡ (none, two)
set_string-str_plain_example = set_string-str_plain [] two two-IsSorted (
  plain (omega arith, tt) (omega arith, tt) (omega arith, tt) (omega arith, tt),
  (plain (omega arith, tt) (omega arith, tt) tt tt, tt),
)

set_string-str_semicolon_example :
    set_string [] (str ((codes "a", codes "x" ++ b';' ∷ codes "y") ∷ []))
    ≡ (some child_not_found, [])
set_string-str_semicolon_example =
    set_string-str_semicolon [] (codes "a") (codes "x") (codes "y") (omega arith, tt)
      (omega arith, tt) (omega arith, tt) (omega arith, tt)

no_c : lookup (codes "c") two ≡ none
unfolding lookup str_eq
no_c = refl

add_child_lem_example :
    (add_child two (codes "c") (codes "x") ≡ (none, insert (codes "c") (codes "x") two))
    × (remove_child (insert (codes "c") (codes "x") two) (codes "c") ≡ (none, two))
    × (add_child (insert (codes "c") (codes "x") two) (codes "c") (codes "y")
        ≡ (some child_exists, insert (codes "c") (codes "x") two))
add_child_lem_example = add_child_lem two (codes "c") (codes "x") (codes "y") no_c
