-- ===== src/RodsPath.antt =====
-- parseRodsPath of core/src/rodsPath.cpp. A path is a C string shorter than the arrays of a
-- rodsPath_t, so that the copies inside of `outPath` are whole. A byte before `outPath`, which the
-- source reads where a path begins with "/../" or is shorter than three bytes, is no '/'.
pub mod Find
pub mod Clean
pub mod Parsed
mod Tests
use irods_client_library_cpp.Base.{
  ℕ, zero, suc, ◌+◌, ◌-◌, ◌*◌, ◌==◌, ltb, leb, Bool, true, false, ◌&&◌, ◌||◌, Option, none, some,
  [], ◌∷◌, ◌++◌, Bytes, codes, str_eq, strstr, length, take, drop, get_or, if◌then◌else◌, Result,
  err, ok, ◌>>=◌,
}

-- `rodsCwd` and `rodsHome` of rodsEnv.
pub record RodsEnv : Type 0 where
  pub rods_cwd : Bytes
  pub rods_home : Bytes

pub data ObjType : Type 0 where
  unknown_obj_t coll_obj_t : ObjType

pub data Error : Type 0 where
  user_null_input_err user_input_path_err user_path_exceeds_max out_of_fuel : Error

abbrev pub max_path_allowed : ℕ
max_path_allowed = 1024

abbrev pub max_path_len : ℕ
max_path_len = max_path_allowed + 64

-- The two loops that take out "//" and "/./", on fuel: behind the first byte of the needle the path
-- goes on behind the needle.
unfoldable pub take_out : Bytes → ℕ → Bytes → Result Error Bytes
take_out needle zero s = err out_of_fuel
take_out needle (suc fuel) s = elim (strstr needle s) [
  | none ↦ ok s
  | some i ↦ take_out needle fuel (take (i + 1) s ++ drop (i + length needle) s)
]

-- Back from index `i` to the last '/' before it, `none` where there is none.
unfoldable pub go_back : Bytes → ℕ → Option ℕ
go_back s zero = none
go_back s (suc i) = if get_or s i 0 == b'/' then some i else go_back s i

-- The loop that takes out "/../" and the name before it.
unfoldable pub take_out_up : ℕ → Bytes → Result Error Bytes
unfolding go_back
take_out_up zero s = err out_of_fuel
take_out_up (suc fuel) s = elim (strstr (codes "/../") s) [
  | none ↦ ok s
  | some i ↦ elim (go_back s i) [
    | none ↦ err user_input_path_err
    | some j ↦ take_out_up fuel (take (j + 1) s ++ drop (i + 4) s)
  ]
]

unfoldable pub check_length : Bytes → ObjType → Result Error (Bytes × ObjType)
check_length s t =
    if leb (max_path_allowed - 1) (length s) then err user_path_exceeds_max else ok (s, t)

-- Where the needle stands in the last bytes of the path, as many as it has.
unfoldable pub at_end : Bytes → Bytes → Bool
at_end needle s =
    leb (length needle) (length s) && str_eq (drop (length s - length needle) s) needle

-- "/..", "/." and "/" at the end.
unfoldable pub finish : Bytes → Result Error (Bytes × ObjType)
unfolding go_back check_length at_end
finish s =
    if at_end (codes "/..") s
    then elim (go_back s (length s - 3)) [
      | none ↦ err user_input_path_err
      | some j ↦ check_length (if j == 0 then codes "/" else take j s) coll_obj_t
    ]
    else if at_end (codes "/.") s
    then check_length (take (length s - 2) s) coll_obj_t
    else if at_end (codes "/") s && ltb 1 (length s)
    then check_length (take (length s - 1) s) coll_obj_t
    else check_length s unknown_obj_t

-- What is done to `outPath` once it is filled.
unfoldable pub normalize : Bytes → Result Error (Bytes × ObjType)
unfolding take_out take_out_up finish
normalize s = take_out (codes "//") (length s + 1) s >>= λ t.
    take_out (codes "/./") (length t + 1) t >>= λ u. take_out_up (length u + 1) u >>= finish

unfoldable pub is_one_of : Bytes → Bytes → Bytes → Bool
is_one_of a b s = str_eq s a || str_eq s b

-- `snprintf( outPath, MAX_NAME_LEN, "%s/%s", base, name )`
unfoldable pub below : Bytes → Bytes → Bytes
below base name = take (max_path_len - 1) (base ++ b'/' ∷ name)

unfoldable pub parse_in_env : Bytes → RodsEnv → Result Error (Bytes × ObjType)
unfolding normalize is_one_of below
parse_in_env in_path env =
    if str_eq in_path []
    then ok (env.rods_cwd, coll_obj_t)
    else if is_one_of (codes ".") (codes "./") in_path
    then ok (env.rods_cwd, coll_obj_t)
    else if is_one_of (codes "~") (codes "~/") in_path || is_one_of (codes "^") (codes "^/") in_path
    then ok (env.rods_home, coll_obj_t)
    else if get_or in_path 0 0 == b'~' || get_or in_path 0 0 == b'^'
    then (if get_or in_path 1 0 == b'/'
        then normalize (below env.rods_home (drop 2 in_path))
        else normalize (below env.rods_cwd (drop 2 in_path)))
    else if get_or in_path 0 0 == b'/'
    then normalize (take (max_path_len - 1) in_path)
    else normalize (below env.rods_cwd in_path)

-- With no environment only a full path is taken.
unfoldable pub parse_rods_path : Bytes → Option RodsEnv → Result Error (Bytes × ObjType)
unfolding parse_in_env
parse_rods_path in_path (some env) = parse_in_env in_path env
parse_rods_path in_path none =
    if get_or in_path 0 0 == b'/'
    then normalize (take (max_path_len - 1) in_path)
    else err user_null_input_err
