-- ===== src/Arrays/Multi.antt =====
-- parseMultiStr and splitMultiStr of core/src/rcMisc.cpp: a text that is taken apart at single
-- percent signs into the strings of an array. The text is not null.
pub mod RoundTrip
use irods_client_library_cpp.Base.{
  ℕ, zero, suc, ◌+◌, ◌==◌, Bool, true, false, Option, none, some, [], ◌∷◌, ◌++◌, Bytes, length,
  if◌then◌else◌, err, ok,
}
use irods_client_library_cpp.Arrays.{StrArray, add_str_array}

-- From `startPtr` up to the delimiter, and what is behind it, `none` where the text ends.
unfoldable pub scan : Bytes → Bytes × Option Bytes
scan [] = ([], none)
scan (c ∷ []) = if c == b'%' then ([], some []) else (c ∷ [], none)
scan (c ∷ d ∷ s) = elim (c == b'%') [
  | true ↦ elim (d == b'%') [
    | true ↦ let (w, behind) = scan s in (c ∷ d ∷ w, behind)
    | false ↦ ([], some (d ∷ s))
  ]
  | false ↦ let (w, behind) = scan (d ∷ s) in (c ∷ w, behind)
]

-- The status of addStrArray is not looked at.
unfoldable pub added : StrArray → Bytes → StrArray
unfolding add_str_array
added a value = elim (add_str_array a value) [ err e ↦ a | ok b ↦ b ]

-- The loop on fuel, `none` when it is used up; `take_apart` is what is made of each string.
unfoldable pub multi_loop : (Bytes → Bytes) → ℕ → StrArray → Bytes → Option StrArray
unfolding scan added
multi_loop edit zero a s = none
multi_loop edit (suc fuel) a s = elim (scan s).1 [
  | none ↦ some (added a (edit (scan s).0))
  | some behind ↦ multi_loop edit fuel (added a (edit (scan s).0)) behind
]

unfoldable pub parse_multi_str : Bytes → StrArray → Option (ℕ × StrArray)
unfolding multi_loop
parse_multi_str s a = elim (multi_loop (λ w. w) (length s + 1) a s) [
  | none ↦ none
  | some b ↦ some (b.len, b)
]

-- The inner loop of splitMultiStr, which keeps one of two percent signs.
unfoldable pub halved : Bytes → Bytes
halved [] = []
halved (c ∷ []) = c ∷ []
halved (c ∷ d ∷ s) = elim (c == b'%') [ true ↦ c ∷ halved s | false ↦ c ∷ halved (d ∷ s) ]

unfoldable pub split_multi_str : Bytes → StrArray → Option (ℕ × StrArray)
unfolding multi_loop halved
split_multi_str s a = elim (multi_loop halved (length s + 1) a s) [
  | none ↦ none
  | some b ↦ some (b.len, b)
]
