-- ===== src/FsPath/Tests.antt =====
-- Tests of src/filesystem/path.cpp, and its theorems at concrete inputs.
use irods_client_library_cpp.Base.{length, ◌≡◌, ◌↔◌, refl, [], ◌∷◌, arith, codes}
use irods_client_library_cpp.Base.Int.{pos}
use irods_client_library_cpp.Base.Dict.{str_ltb}
use irods_client_library_cpp.FsPath.Iteration.{
  separator, is_empty, is_absolute, begin, end, increment, decrement,
}
use irods_client_library_cpp.FsPath.{
  elements, range, append, append_all, join, with_separator, find_last_of, replace_extension,
  compare, compare_elements, path_eq, relative_path, root_collection, parent_path, object_name,
  has_no_stem, stem, extension, lexically_normal, lexically_relative, mismatch, relative_to, climb,
}
use irods_client_library_cpp.FsPath.Elements.{split_path, after, names, close_name}
use irods_client_library_cpp.FsPath.Visits.{advance, elements-split_path}
use irods_client_library_cpp.FsPath.Compare.{compare_iff}
use irods_client_library_cpp.FsPath.ObjectName.{IsName, name}
use irods_client_library_cpp.FsPath.NormalLoop.{normal}
use irods_client_library_cpp.FsPath.Lexical.{lexically_normal-normal, lexically_normal_twice}

parent_found : parent_path (codes "/a/b//c") ≡ codes "/a/b"
unfolding parent_path is_empty join range decrement increment begin end append_all append
    is_absolute with_separator
parent_found = refl

suffix_found :
    (stem (codes "/a/b.tar.gz") ≡ codes "b.tar") × (extension (codes "/a/b.tar.gz") ≡ codes ".gz")
unfolding stem extension has_no_stem object_name relative_path root_collection path_eq compare
    compare_elements str_ltb elements find_last_of is_empty join range decrement increment begin end
    append_all append is_absolute with_separator
suffix_found = (refl, refl)

suffix_replaced : replace_extension (codes "/a/b.tar") (codes "gz") ≡ codes "/a/b.gz"
unfolding replace_extension extension has_no_stem object_name relative_path root_collection path_eq
    compare compare_elements str_ltb elements find_last_of is_empty join range decrement increment
    begin end append_all append is_absolute with_separator
suffix_replaced = refl

relative_found : lexically_relative (codes "/a/d") (codes "/a/b/c") ≡ codes "../../d"
unfolding lexically_relative mismatch relative_to climb path_eq compare compare_elements str_ltb
    elements is_empty range increment begin end append_all append is_absolute with_separator
relative_found = refl

elements-split_path_example :
    (elements (codes "//home/a//") ≡ split_path (codes "//home/a//"))
    × ((advance
          (length (elements (codes "//home/a//")))
          (codes "//home/a//")
          (begin (codes "//home/a//"))).pos
        ≡ (end (codes "//home/a//")).pos)
elements-split_path_example = elements-split_path (codes "//home/a//")

split_found : split_path (codes "//home/a//") ≡ codes "/" ∷ codes "home" ∷ codes "a" ∷ [] ∷ []
unfolding split_path after names close_name
split_found = refl

compare_iff_example :
    (compare (codes "/a//b") (codes "/a/b") ≡ pos 0)
    ↔ (split_path (codes "/a//b") ≡ split_path (codes "/a/b"))
compare_iff_example = compare_iff (codes "/a//b") (codes "/a/b")

new-IsName : IsName (codes "new")
new-IsName = name b'n' (codes "ew") (omega arith) (omega arith, (omega arith, tt))

lexically_normal-normal_example :
    lexically_normal (separator ∷ codes "a/./b/../c") ≡ normal [] [] (after (codes "a/./b/../c"))
lexically_normal-normal_example = lexically_normal-normal (codes "a/./b/../c")

twice :
    after (codes "a/b/../../c") ≡ codes "a" ∷ codes "b" ∷ codes ".." ∷ codes ".." ∷ codes "c" ∷ []
unfolding after names close_name
twice = refl

once : after (codes "a/b/../c") ≡ codes "a" ∷ codes "b" ∷ codes ".." ∷ codes "c" ∷ []
unfolding after names close_name
once = refl

lexically_normal_twice_example :
    lexically_normal (codes "/a/b/../../c") ≡ lexically_normal (codes "/a/b/../c")
lexically_normal_twice_example =
    lexically_normal_twice (codes "a/b/../../c") (codes "a/b/../c") (codes "a" ∷ codes "b" ∷ [])
      (codes "c" ∷ []) twice once
