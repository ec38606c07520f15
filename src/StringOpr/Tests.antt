-- ===== src/StringOpr/Tests.antt =====
-- Runs of splitPathByKey at concrete inputs.
use irods_client_library_cpp.Base.{◌≡◌, refl, true, false, [], codes, arith}
use irods_client_library_cpp.Arrays.{rstrcpy}
use irods_client_library_cpp.StringOpr.{
  success, sys_invalid_file_path, user_strlen_toolong, is_all_digit, rfind, split_at,
  split_path_by_key,
}
use irods_client_library_cpp.StringOpr.Split.{split_path_by_key_lem}

split_path_by_key_lem_example :
    split_path_by_key b'/' (codes "/a/b") [] 64 [] 64 ≡ (success, codes "/a", codes "b")
split_path_by_key_lem_example =
    split_path_by_key_lem b'/' (codes "/a") (codes "b") [] 64 [] 64 ((λ e. ground (arith, e)), tt)
      (omega arith) (omega arith)

split_path_by_key_runs :
    (split_path_by_key b'/' (codes "/b") [] 64 [] 64 ≡ (success, codes "/", codes "b"))
    × (split_path_by_key b'/' (codes "a//") [] 64 [] 64 ≡ (success, codes "a/", []))
    × (split_path_by_key b'/' (codes "ab") [] 64 [] 2 ≡ (sys_invalid_file_path, [], codes "a"))
    × (split_path_by_key b'/' (codes "a/b") (codes "x") 64 (codes "y") 1
        ≡ (user_strlen_toolong, codes "x", codes "y"))
    × (is_all_digit (codes "019") ≡ true)
    × (is_all_digit (codes "1a") ≡ false)
unfolding split_path_by_key split_at rfind rstrcpy is_all_digit
split_path_by_key_runs = (refl, refl, refl, refl, refl, refl)
