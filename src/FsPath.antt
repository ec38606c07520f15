-- ===== src/FsPath.antt =====
-- src/filesystem/path.cpp and include/filesystem/include/filesystem/path.hpp: the class path, by its
-- string `value_`, and its iterator. What an operation does to `*this` is what the function returns.
pub mod Iteration
pub mod Elements
pub mod Moves
pub mod Visits
pub mod Compare
pub mod ObjectName
pub mod Appended
pub mod LastName
pub mod NormalLoop
pub mod Lexical
mod Tests
use irods_client_library_cpp.Base.{
  ℕ, zero, suc, ◌+◌, ◌-◌, Bool, true, false, not, ◌&&◌, ◌||◌, List, [], ◌∷◌, ◌++◌, Option, none,
  some, ◌==◌, if◌then◌else◌, Bytes, codes, str_eq, get_or, length, take, drop,
}
use irods_client_library_cpp.Base.Int.{ℤ, pos, negsuc}
use irods_client_library_cpp.Base.Dict.{str_ltb}
use irods_client_library_cpp.FsPath.Iteration.{
  separator, is_empty, is_absolute, Iterator, begin, end, increment, decrement,
}

abbrev pub dot : Bytes
dot = codes "."

abbrev pub dot_dot : Bytes
dot_dot = codes ".."

-- `std::string::find_last_of` of one character.
pub find_last_of : ℕ → Bytes → Option ℕ
find_last_of c [] = none
find_last_of c (x ∷ s) = elim (find_last_of c s) [
  | some n ↦ some (suc n)
  | none ↦ if x == c then some 0 else none
]

-- append_separator_if_needed
pub with_separator : Bytes → Bytes → Bytes
unfolding is_empty
with_separator p q =
    if is_empty p || (get_or p (length p - 1) 0 == separator) || (get_or q 0 0 == separator)
    then p
    else p ++ separator ∷ []

-- `operator/=`
pub append : Bytes → Bytes → Bytes
unfolding is_empty is_absolute with_separator
append p q = if is_empty q then p else if is_absolute q then q else with_separator p q ++ q

pub remove_object_name : Bytes → Bytes
unfolding find_last_of
remove_object_name p = elim (find_last_of separator p) [ none ↦ p | some n ↦ take (n + 1) p ]

pub replace_object_name : Bytes → Bytes → Bytes
unfolding remove_object_name append
replace_object_name p q = append (remove_object_name p) q

-- A loop `for (; first != last; ++first)`: the elements that it visits, on fuel; no more are visited
-- where that is used up. As many rounds as the path has characters get to the end, and one more sees
-- that it is reached.
pub range : ℕ → Bytes → Iterator → ℕ → List Bytes
unfolding increment
range zero p it last = []
range (suc n) p it last =
    if it.pos == last then [] else it.element ∷ range n p (increment p it) last

-- From `begin()` to `end()`.
pub elements : Bytes → List Bytes
unfolding begin end range
elements p = range (suc (length p)) p (begin p) (end p).pos

-- The loop of the helper join, and of lexically_relative.
pub append_all : Bytes → List Bytes → Bytes
unfolding append
append_all p [] = p
append_all p (e ∷ es) = append_all (append p e) es

pub join : Bytes → Iterator → Iterator → Bytes
unfolding range append_all
join p first last = append_all [] (range (suc (length p)) p first last.pos)

pub compare_elements : List Bytes → List Bytes → ℤ
compare_elements [] [] = pos 0
compare_elements [] (f ∷ fs) = negsuc 0
compare_elements (e ∷ es) [] = pos 1
compare_elements (e ∷ es) (f ∷ fs) =
    if str_ltb e f then negsuc 0 else if str_ltb f e then pos 1 else compare_elements es fs

pub compare : Bytes → Bytes → ℤ
unfolding elements compare_elements
compare p q = compare_elements (elements p) (elements q)

-- The loop of lexicographical_compare, which is given two ranges of elements.
pub lexicographical_compare : List Bytes → List Bytes → Bool
lexicographical_compare [] [] = false
lexicographical_compare [] (f ∷ fs) = true
lexicographical_compare (e ∷ es) [] = false
lexicographical_compare (e ∷ es) (f ∷ fs) =
    if str_ltb e f then true else if str_ltb f e then false else lexicographical_compare es fs

abbrev is_zero : ℤ → Bool
is_zero (pos n) = n == 0
is_zero (negsuc n) = false

-- `operator==`
pub path_eq : Bytes → Bytes → Bool
unfolding compare
path_eq p q = is_zero (compare p q)

pub root_collection : Bytes → Bytes
unfolding is_absolute begin
root_collection p = if is_absolute p then (begin p).element else []

pub relative_path : Bytes → Bytes
unfolding root_collection is_empty join increment begin end
relative_path p =
    if not (is_empty (root_collection p))
    then join p (increment p (begin p)) (end p)
    else if is_empty p
    then []
    else p

pub parent_path : Bytes → Bytes
unfolding is_empty join decrement begin end
parent_path p =
    let last = decrement p (end p) in
    if is_empty p || ((begin p).pos == last.pos) then [] else join p (begin p) last

pub object_name : Bytes → Bytes
unfolding relative_path decrement end
object_name p = if is_empty (relative_path p) then [] else (decrement p (end p)).element

-- The test with which stem and extension answer the empty path.
pub has_no_stem : Bytes → Bool
unfolding is_empty path_eq object_name
has_no_stem p = is_empty p || path_eq (object_name p) dot || path_eq (object_name p) dot_dot

pub stem : Bytes → Bytes
unfolding has_no_stem find_last_of object_name
stem p =
    let n = object_name p in
    if has_no_stem p then [] else elim (find_last_of b'.' n) [ some i ↦ take i n | none ↦ [] ]

pub extension : Bytes → Bytes
unfolding has_no_stem find_last_of object_name
extension p =
    let n = object_name p in
    if has_no_stem p then [] else elim (find_last_of b'.' n) [ some i ↦ drop i n | none ↦ [] ]

pub replace_extension : Bytes → Bytes → Bytes
unfolding is_empty extension find_last_of
replace_extension p q =
    let cut =
      if is_empty (extension p)
      then p
      else elim (find_last_of b'.' p) [ some i ↦ take i p | none ↦ p ] in
    (if not (is_empty q) && not (get_or q 0 0 == b'.') then cut ++ b'.' ∷ [] else cut) ++ q

-- The loop of lexically_normal.
pub normal_loop : Bytes → List Bytes → Bytes
unfolding path_eq object_name remove_object_name append
normal_loop p [] = p
normal_loop p (e ∷ es) =
    let n = object_name e in
    normal_loop
      (if path_eq n dot then p else if path_eq n dot_dot then remove_object_name p else append p e)
      es

pub lexically_normal : Bytes → Bytes
unfolding normal_loop elements
lexically_normal p = normal_loop [] (elements p)

-- `std::mismatch`: what is left of both behind the equal elements.
pub mismatch : List Bytes → List Bytes → List Bytes × List Bytes
unfolding path_eq
mismatch [] fs = ([], fs)
mismatch (e ∷ es) [] = (e ∷ es, [])
mismatch (e ∷ es) (f ∷ fs) = if path_eq e f then mismatch es fs else (e ∷ es, f ∷ fs)

-- `dot_dot` for every element that is left of the base.
pub climb : Bytes → List Bytes → Bytes
unfolding append
climb p [] = p
climb p (f ∷ fs) = climb (append p dot_dot) fs

pub relative_to : List Bytes → List Bytes → Bytes
unfolding climb append_all
relative_to [] [] = dot
relative_to es fs = append_all (climb [] fs) es

pub lexically_relative : Bytes → Bytes → Bytes
unfolding mismatch elements relative_to
lexically_relative p base =
    let rest = mismatch (elements p) (elements base) in relative_to rest.0 rest.1

pub lexically_proximate : Bytes → Bytes → Bytes
unfolding lexically_relative is_empty
lexically_proximate p base = let r = lexically_relative p base in if not (is_empty r) then r else p
