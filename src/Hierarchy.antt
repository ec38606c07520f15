-- ===== src/Hierarchy.antt =====
-- src/core/src/irods_hierarchy_parser.cpp: the class hierarchy_parser. Its state is the list of
-- resources; a method that fails keeps it. An error is its code, without the message.
pub mod Text
pub mod Next
mod Tests
use irods_client_library_cpp.Base.{
  ℕ, Bool, true, false, List, [], ◌∷◌, ◌++◌, if◌then◌else◌, Bytes, codes, str_eq, length, Result,
  ok, err,
}
use irods_client_library_cpp.Tokenize.{string_tokenize}

pub data Error : Type 0 where
  sys_invalid_input_param no_next_resc_found child_not_found : Error

pub record HierarchyParser : Type 0 where
  pub resc_list : List Bytes

abbrev pub delimiter : Bytes
delimiter = codes ";"

pub add_child : HierarchyParser → Bytes → HierarchyParser
add_child p resc = record { resc_list = p.resc_list ++ resc ∷ [] }

-- The copy constructor adds the resources one by one.
pub copy_resources : List Bytes → HierarchyParser → HierarchyParser
unfolding add_child
copy_resources [] p = p
copy_resources (r ∷ rs) p = copy_resources rs (add_child p r)

unfoldable pub copy_constructor : HierarchyParser → HierarchyParser
unfolding copy_resources
copy_constructor other = copy_resources other.resc_list (record { resc_list = [] })

unfoldable pub set_string : HierarchyParser → Bytes → Result Error HierarchyParser
set_string p [] = err sys_invalid_input_param
set_string p (c ∷ s) = ok (record { resc_list = string_tokenize (c ∷ s) delimiter [] })

-- The loop of `str`: the text so far, `first`, and the resources that are left.
pub str_loop : Bytes → Bool → Bytes → List Bytes → Bytes
str_loop term first text [] = text
str_loop term first text (r ∷ rs) =
    let text' = (if first then text else text ++ delimiter) ++ r in
    let rest = str_loop term false text' rs in if str_eq r term then text' else rest

unfoldable pub str : HierarchyParser → Bytes → Bytes
unfolding str_loop
str p term = str_loop term true [] p.resc_list

unfoldable pub first_resc : HierarchyParser → Bytes
first_resc p = elim p.resc_list [ [] ↦ [] | r ∷ rs ↦ r ]

pub back : Bytes → List Bytes → Bytes
back r [] = r
back r (q ∷ rs) = back q rs

unfoldable pub last_resc : HierarchyParser → Bytes
unfolding back
last_resc p = elim p.resc_list [ [] ↦ [] | r ∷ rs ↦ back r rs ]

pub next_loop : Bytes → List Bytes → Result Error Bytes
next_loop current [] = err child_not_found
next_loop current (r ∷ rs) =
    if str_eq r current
    then elim rs [ [] ↦ err no_next_resc_found | q ∷ _ ↦ ok q ]
    else next_loop current rs

unfoldable pub next : HierarchyParser → Bytes → Result Error Bytes
unfolding next_loop
next p current = next_loop current p.resc_list

unfoldable pub num_levels : HierarchyParser → ℕ
num_levels p = length p.resc_list

pub in_list : Bytes → List Bytes → Bool
in_list resc [] = false
in_list resc (r ∷ rs) = if str_eq r resc then true else in_list resc rs

unfoldable pub resc_in_hier : HierarchyParser → Bytes → Bool
unfolding in_list
resc_in_hier p resc = in_list resc p.resc_list
