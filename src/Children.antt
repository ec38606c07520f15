-- ===== src/Children.antt =====
-- src/core/src/irods_children_parser.cpp: the class children_parser. Its map is the list of the children
-- in the order of their names. An operation answers its error, `none` for SUCCESS, and what it leaves
-- in the map or in its out parameter, also where it fails.
pub mod Parse
pub mod Text
pub mod Change
mod Tests
use irods_client_library_cpp.Base.{
  ℕ, zero, suc, Bool, true, false, List, [], ◌∷◌, ◌++◌, Option, none, some, ◌==◌, if◌then◌else◌,
  Bytes, length,
}
use irods_client_library_cpp.Base.Dict.{Dict, lookup, insert, erase}

pub data Error : Type 0 where
  child_exists child_not_found : Error

abbrev pub Children : Type 0
Children = Dict Bytes

-- The loop of str; the flag is `first`.
pub str_loop : Bool → Children → Bytes
str_loop first [] = []
str_loop first ((child, context) ∷ m) =
    (if first then [] else b';' ∷ []) ++ child ++ b'{' ∷ (context ++ b'}' ∷ str_loop false m)

unfoldable pub str : Children → Bytes
unfolding str_loop
str m = str_loop true m

unfoldable pub add_child : Children → Bytes → Bytes → Option Error × Children
unfolding lookup insert
add_child m child context = elim (lookup child m) [
  | some v ↦ (some child_exists, m)
  | none ↦ (none, insert child context m)
]

unfoldable pub remove_child : Children → Bytes → Option Error × Children
unfolding lookup erase
remove_child m child = elim (lookup child m) [
  | none ↦ (some child_not_found, m)
  | some v ↦ (none, erase child m)
]

unfoldable pub first_child : Children → Option Error × Bytes
first_child [] = (some child_not_found, [])
first_child ((child, context) ∷ m) = (none, child)

pub last_of : Bytes → Children → Bytes
last_of child [] = child
last_of child ((next, context) ∷ m) = last_of next m

unfoldable pub last_child : Children → Option Error × Bytes
unfolding last_of
last_child [] = (some child_not_found, [])
last_child ((child, context) ∷ m) = (none, last_of child m)

-- `find(c)`: the text in front of the first `c`, and the text behind it.
pub split_at : ℕ → Bytes → Option (Bytes × Bytes)
split_at c [] = none
split_at c (x ∷ s) =
    if x == c
    then some ([], s)
    else elim (split_at c s) [ none ↦ none | some (a, b) ↦ some (x ∷ a, b) ]

-- The child and its context; `none` where the brace is not closed.
pub parse_child : Bytes → Option (Bytes × Bytes)
unfolding split_at
parse_child complete_child = elim (split_at b'{' complete_child) [
  | none ↦ some (complete_child, [])
  | some (child, rest) ↦ elim (split_at b'}' rest) [
    | none ↦ none
    | some (context, behind) ↦ some (child, context)
  ]
]

pub add_parsed : Children → Bytes → Option Children
unfolding parse_child insert
add_parsed m complete_child = elim (parse_child complete_child) [
  | none ↦ none
  | some (child, context) ↦ some (insert child context m)
]

-- The loop of set_string over the text from `current_pos` on, on fuel.
pub set_loop : ℕ → Children → Bytes → Option Error × Children
unfolding split_at add_parsed
set_loop zero m s = (none, m)
set_loop (suc n) m s = elim (split_at b';' s) [
  | none ↦ elim (add_parsed m s) [ none ↦ (some child_not_found, m) | some m' ↦ (none, m') ]
  | some (complete_child, rest) ↦ elim (add_parsed m complete_child) [
    | none ↦ (some child_not_found, m)
    | some m' ↦ elim rest [ [] ↦ (none, m') | c ∷ r ↦ set_loop n m' (c ∷ r) ]
  ]
]

-- A round takes at least the separator off, so that the length of the text is enough.
unfoldable pub set_string : Children → Bytes → Option Error × Children
unfolding set_loop
set_string m [] = (none, [])
set_string m (c ∷ s) = set_loop (length (c ∷ s)) [] (c ∷ s)
