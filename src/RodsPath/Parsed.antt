-- ===== src/RodsPath/Parsed.antt =====
-- What parseRodsPath makes of each input, in each environment.
use irods_client_library_cpp.Base.{
  ℕ, zero, suc, ◌+◌, ◌-◌, ◌<◌, ◌≡◌, refl, ◌==◌, ltb, Bool, true, false, not, ◌&&◌, ◌||◌, Bool-cases,
  Option-cases, inl, inr, Option, none, some, [], Bytes, codes, strstr, str_eq, length, take, drop,
  get_or, if_cases, Result, err, ok, arith,
}
use irods_client_library_cpp.RodsPath.{
  ObjType, unknown_obj_t, coll_obj_t, Error, user_null_input_err, max_path_allowed, max_path_len,
  RodsEnv, is_one_of, below, parse_in_env, parse_rods_path, take_out, take_out_up, check_length,
  at_end, finish, normalize,
}
use irods_client_library_cpp.RodsPath.Clean.{IsNormalized, normalize-IsNormalized}

abbrev has_in : Bytes → Bytes → Bool
has_in needle s = elim (strstr needle s) [ none ↦ false | some i ↦ true ]

-- There is nothing to take out of the path, and nothing to cut from its end.
abbrev pub is_clear : Bytes → Bool
is_clear s =
    not (has_in (codes "//") s || has_in (codes "/./") s || has_in (codes "/../") s)
    && not (at_end (codes "/..") s || at_end (codes "/.") s)
    && not (at_end (codes "/") s && ltb 1 (length s))

-- What may come of a path: a clear one that is short enough is kept as it is, and another is
-- refused or normalized.
pub data Comes (s : Bytes) : Result Error (Bytes × ObjType) → Type 0 where
  kept :
      (is_clear s && ltb (length s) (max_path_allowed - 1)) ≡ true → Comes s (ok (s, unknown_obj_t))
  changed :
      {r : Result Error (Bytes × ObjType)}
      → (is_clear s && ltb (length s) (max_path_allowed - 1)) ≡ false
      → IsNormalized r
      → Comes s r

lacks : (needle s : Bytes) → has_in needle s ≡ false → strstr needle s ≡ none
lacks needle s h = elim (Option-cases (strstr needle s)) [
  | inl e ↦ e
  | inr (i, e) ↦ ground (arith, e, h)
]

take_out-none :
    (needle s : Bytes) (n : ℕ) → 0 < n → strstr needle s ≡ none → take_out needle n s ≡ ok s
unfolding take_out
take_out-none needle s zero l h = elim l [ ]
take_out-none needle s (suc n) l h = rw (h, take_out) refl

take_out_up-none :
    (s : Bytes) (n : ℕ) → 0 < n → strstr (codes "/../") s ≡ none → take_out_up n s ≡ ok s
unfolding take_out_up
take_out_up-none s zero l h = elim l [ ]
take_out_up-none s (suc n) l h = rw (h, take_out_up) refl

finish_clear :
    (s : Bytes)
    → (is_clear s && ltb (length s) (max_path_allowed - 1)) ≡ true
    → finish s ≡ ok (s, unknown_obj_t)
unfolding finish check_length
finish_clear s h = ground (arith, h)

normalize_clear :
    (s : Bytes)
    → (is_clear s && ltb (length s) (max_path_allowed - 1)) ≡ true
    → normalize s ≡ ok (s, unknown_obj_t)
unfolding normalize
normalize_clear s h =
    let a =
      take_out-none (codes "//") s (length s + 1) (omega arith)
        (lacks (codes "//") s (ground (arith, h))) in
    let b =
      take_out-none (codes "/./") s (length s + 1) (omega arith)
        (lacks (codes "/./") s (ground (arith, h))) in
    let c =
      take_out_up-none s (length s + 1) (omega arith)
        (lacks (codes "/../") s (ground (arith, h))) in
    rw (a, b, c) (finish_clear s h)

normalize-Comes : (s : Bytes) → Comes s (normalize s)
normalize-Comes s = elim (Bool-cases (is_clear s && ltb (length s) (max_path_allowed - 1))) [
  | inl e ↦ rw (normalize_clear s e) (kept e)
  | inr e ↦ changed e (normalize-IsNormalized s)
]

-- What the input begins with, or is.
abbrev pub is_full_path : Bytes → Bool
is_full_path s = get_or s 0 0 == b'/'

abbrev pub is_tilde : Bytes → Bool
is_tilde s = get_or s 0 0 == b'~' || get_or s 0 0 == b'^'

abbrev pub is_current : Bytes → Bool
is_current s = str_eq s [] || is_one_of (codes ".") (codes "./") s

abbrev pub is_home : Bytes → Bool
is_home s = is_one_of (codes "~") (codes "~/") s || is_one_of (codes "^") (codes "^/") s

-- What may come of an input: the error of a missing environment, a collection of the environment, or
-- what may come of the path that the input stands for.
pub data IsParsed (s : Bytes) : Option RodsEnv → Result Error (Bytes × ObjType) → Type 0 where
  no_environment : is_full_path s ≡ false → IsParsed s none (err user_null_input_err)
  full :
      {env : Option RodsEnv} {r : Result Error (Bytes × ObjType)}
      → is_full_path s ≡ true
      → Comes (take (max_path_len - 1) s) r
      → IsParsed s env r
  current : {e : RodsEnv} → is_current s ≡ true → IsParsed s (some e) (ok (e.rods_cwd, coll_obj_t))
  home : {e : RodsEnv} → is_home s ≡ true → IsParsed s (some e) (ok (e.rods_home, coll_obj_t))
  below_home :
      {e : RodsEnv} {r : Result Error (Bytes × ObjType)}
      → (is_tilde s && not (is_home s) && (get_or s 1 0 == b'/')) ≡ true
      → Comes (below e.rods_home (drop 2 s)) r
      → IsParsed s (some e) r
  behind_tilde :
      {e : RodsEnv} {r : Result Error (Bytes × ObjType)}
      → (is_tilde s && not (is_home s) && not (get_or s 1 0 == b'/')) ≡ true
      → Comes (below e.rods_cwd (drop 2 s)) r
      → IsParsed s (some e) r
  relative :
      {e : RodsEnv} {r : Result Error (Bytes × ObjType)}
      → (is_full_path s || is_current s || is_tilde s) ≡ false
      → Comes (below e.rods_cwd s) r
      → IsParsed s (some e) r

parse_in_env-IsParsed : (s : Bytes) (e : RodsEnv) → IsParsed s (some e) (parse_in_env s e)
unfolding parse_in_env
parse_in_env-IsParsed s e =
    let P = IsParsed s (some e) in
    if_cases P (str_eq s []) (λ h. current (ground (arith, h)))
      λ h1.
        if_cases P (is_one_of (codes ".") (codes "./") s) (λ h. current (ground (arith, h)))
          λ h2.
            if_cases P (is_home s) (λ h. home h)
              λ h3.
                if_cases P (is_tilde s)
                  (λ h4.
                    if_cases P (get_or s 1 0 == b'/')
                      (λ h. below_home (ground (arith, h, h3, h4)) (normalize-Comes _))
                      (λ h. behind_tilde (ground (arith, h, h3, h4)) (normalize-Comes _)))
                  λ h4.
                    if_cases P (is_full_path s) (λ h. full h (normalize-Comes _))
                      (λ h. relative (ground (arith, h, h1, h2, h4)) (normalize-Comes _))

-- For every input, parseRodsPath ends, with as much fuel as the path has bytes and one. Without an
-- environment it refuses what is no full path. With one, the empty input, "." and "./" give the
-- current collection, and "~", "~/", "^" and "^/" the home collection. Every other input stands for a
-- path: itself where it is full, what is behind "~/" or "^/" below the home collection, what is behind
-- another byte after a tilde or caret below the current one, or itself below the current one. A path
-- with nothing to take out or to cut off and of fewer than 1023 bytes is kept as it is; another is
-- refused with USER_INPUT_PATH_ERR or USER_PATH_EXCEEDS_MAX, or gives a path without "//", "/./" and
-- "/../" and of fewer than 1023 bytes.
pub parse_rods_path-IsParsed :
    (in_path : Bytes) (env : Option RodsEnv) → IsParsed in_path env (parse_rods_path in_path env)
unfolding parse_rods_path
parse_rods_path-IsParsed s (some e) = parse_in_env-IsParsed s e
parse_rods_path-IsParsed s none =
    if_cases (IsParsed s none) (is_full_path s) (λ h. full h (normalize-Comes _))
      (λ h. no_environment h)
