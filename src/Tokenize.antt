-- ===== src/Tokenize.antt =====
-- src/core/src/irods_string_tokenize.cpp. A position in the string is the rest of the string from
-- there, and `npos` the empty rest: the searches find no position at its end.
pub mod Fields
mod Tests
use irods_client_library_cpp.Base.{
  ℕ, zero, suc, Bool, true, false, ◌||◌, List, [], ◌∷◌, ◌++◌, ◌==◌, if◌then◌else◌, Bytes, length,
}

unfoldable pub is_one_of : Bytes → ℕ → Bool
is_one_of [] c = false
is_one_of (d ∷ ds) c = d == c || is_one_of ds c

module _ (delim : Bytes) where
  -- From `find_first_not_of(delim, pos)` on.
  pub skip_delims : Bytes → Bytes
  skip_delims [] = []
  skip_delims (c ∷ s) = if is_one_of delim c then skip_delims s else c ∷ s

  -- From `find_first_of(delim, pos)` on, and what stands before it.
  pub to_delim : Bytes → Bytes
  to_delim [] = []
  to_delim (c ∷ s) = if is_one_of delim c then c ∷ s else to_delim s

  pub before_delim : Bytes → Bytes
  before_delim [] = []
  before_delim (c ∷ s) = if is_one_of delim c then [] else c ∷ before_delim s

-- `if (tt[0] == ' ') tt = tt.substr(1);`
unfoldable pub drop_space : Bytes → Bytes
drop_space [] = []
drop_space (c ∷ s) = if c == b' ' then s else c ∷ s

-- The loop, at the start of a token; every round but the last takes a character at least.
pub tokenize_loop : ℕ → Bytes → Bytes → List Bytes → List Bytes
unfolding drop_space
tokenize_loop zero delim s tok = tok
tokenize_loop (suc f) delim [] tok = tok
tokenize_loop (suc f) delim (c ∷ s) tok =
    tokenize_loop f delim (skip_delims delim (to_delim delim (c ∷ s)))
      (tok ++ drop_space (before_delim delim (c ∷ s)) ∷ [])

unfoldable pub string_tokenize : Bytes → Bytes → List Bytes → List Bytes
unfolding tokenize_loop skip_delims to_delim before_delim is_one_of
string_tokenize s delim tok = tokenize_loop (length s) delim (skip_delims delim s) tok
