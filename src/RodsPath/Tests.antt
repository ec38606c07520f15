-- ===== src/RodsPath/Tests.antt =====
-- Runs of parseRodsPath at concrete inputs.
use irods_client_library_cpp.Base.{
  ◌≡◌, refl, none, some, [], codes, starts_with, strstr, str_eq, ok, err, arith,
}
use irods_client_library_cpp.RodsPath.{
  RodsEnv, coll_obj_t, user_input_path_err, take_out, take_out_up, go_back, finish, at_end,
  check_length, normalize, is_one_of, below, parse_in_env, parse_rods_path,
}
use irods_client_library_cpp.RodsPath.Clean.{parse_rods_path_tilde}
use irods_client_library_cpp.RodsPath.Parsed.{IsParsed, parse_rods_path-IsParsed}

abbrev env : RodsEnv
env = record { rods_cwd = codes "/z/home/u"; rods_home = codes "/z/home" }

parse_rods_path-IsParsed_example :
    IsParsed (codes "a/../b") (some env) (parse_rods_path (codes "a/../b") (some env))
parse_rods_path-IsParsed_example = parse_rods_path-IsParsed (codes "a/../b") (some env)

parse_rods_path_tilde_example :
    parse_rods_path (codes "~ab") (some env) ≡ parse_rods_path (codes "~cb") (some env)
parse_rods_path_tilde_example =
    parse_rods_path_tilde b'a' b'c' (codes "b") env (omega arith) (omega arith)

parse_rods_path_runs :
    (parse_rods_path (codes "a//./../b/") (some env) ≡ ok (codes "/z/home/u/b", coll_obj_t))
    × (parse_rods_path (codes "/.") none ≡ ok ([], coll_obj_t))
    × (parse_rods_path (codes "/../a") none ≡ err user_input_path_err)
unfolding parse_rods_path parse_in_env normalize take_out take_out_up go_back finish at_end
    check_length is_one_of below str_eq strstr starts_with
parse_rods_path_runs = (refl, refl, refl)
