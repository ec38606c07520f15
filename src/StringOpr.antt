-- ===== src/StringOpr.antt =====
-- isAllDigit and splitPathByKey of core/src/stringOpr.cpp. A buffer is the text that stands in it;
-- `std::string::rfind` is the function rfind, with `none` for npos.
mod Split
mod Tests
use irods_client_library_cpp.Base.{
  ℕ, zero, suc, ◌+◌, ◌==◌, ltb, leb, Bool, true, false, ◌&&◌, ◌||◌, Option, none, some, [], ◌∷◌,
  Bytes, length, take, drop, if◌then◌else◌,
}
use irods_client_library_cpp.Arrays.{rstrcpy}

unfoldable is_all_digit : Bytes → Bool
is_all_digit [] = true
is_all_digit (c ∷ s) = leb b'0' c && leb c b'9' && is_all_digit s

data Status : Type 0 where
  success sys_invalid_input_param sys_invalid_file_path user_strlen_toolong : Status

-- The last place of a character.
unfoldable rfind : ℕ → Bytes → Option ℕ
rfind key [] = none
rfind key (c ∷ s) = elim (rfind key s) [
  | some i ↦ some (i + 1)
  | none ↦ if c == key then some 0 else none
]

unfoldable split_at : ℕ → Bytes → Bytes → ℕ → Bytes → ℕ → Status × Bytes × Bytes
unfolding rstrcpy
split_at i src dir max_dir_len file max_file_len =
    let dir_path = take (if leb i 1 then 1 else i) src in
    let file_path = drop (i + 1) src in
    if leb max_dir_len (length dir_path) || leb max_file_len (length file_path)
    then (user_strlen_toolong, dir, file)
    else (success, rstrcpy dir_path max_dir_len, rstrcpy file_path max_file_len)

-- The status, and what stands in `dir` and `file` afterwards.
unfoldable split_path_by_key : ℕ → Bytes → Bytes → ℕ → Bytes → ℕ → Status × Bytes × Bytes
unfolding rfind split_at rstrcpy
split_path_by_key key src dir max_dir_len file max_file_len =
    if max_dir_len == 0 || max_file_len == 0
    then (sys_invalid_input_param, dir, file)
    else if length src == 0
    then (success, [], [])
    else elim (rfind key src) [
      | none ↦ (sys_invalid_file_path, [], rstrcpy src max_file_len)
      | some i ↦ split_at i src dir max_dir_len file max_file_len
    ]
