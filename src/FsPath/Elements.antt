-- ===== src/FsPath/Elements.antt =====
-- src/filesystem/path.cpp: the elements that the iterator visits from begin() to end(), against a
-- description that reads the path once, a character at a time.
use irods_client_library_cpp.Base.{
  ℕ, ◌≡◌, refl, ap, List, [], ◌∷◌, ◌++◌, arith, ◌==◌, if◌then◌else◌, Bool-cases, inl, inr, Bytes,
  drop, append_assoc, append-nil,
}
use irods_client_library_cpp.FsPath.Iteration.{separator, is_separator, to_separator, separators}

-- The name that was being read, if there is one.
unfoldable pub close_name : Bytes → List Bytes
close_name [] = []
close_name (c ∷ w) = (c ∷ w) ∷ []

-- The names of a text behind the part `w` of a name. Where the text ends in a separator, its last
-- name is empty.
unfoldable pub names : Bytes → Bytes → List Bytes
unfolding close_name
names w [] = w ∷ []
names w (c ∷ s) = if c == separator then close_name w ++ names [] s else names (w ++ c ∷ []) s

-- The rest behind an element.
unfoldable pub after : Bytes → List Bytes
unfolding names
after [] = []
after (c ∷ s) = names [] (c ∷ s)

-- The root, the names, and an empty name where a separator ends the path.
unfoldable pub split_path : Bytes → List Bytes
unfolding after names
split_path [] = []
split_path (c ∷ s) = if c == separator then (separator ∷ []) ∷ after s else names [] (c ∷ s)

-- The text from the first separator on.
unfoldable pub from_separator : Bytes → Bytes
from_separator [] = []
from_separator (c ∷ s) = if c == separator then c ∷ s else from_separator s

pub split_at : (s : Bytes) → to_separator s ++ from_separator s ≡ s
unfolding to_separator from_separator
split_at [] = refl
split_at (c ∷ s) = elim (Bool-cases (c == separator)) [
  | inl e ↦ rw e refl
  | inr e ↦ rw e (ap (λ r. c ∷ r) (split_at s))
]

-- The first name of a text, and what follows it.
pub names-to_separator :
    (x : ℕ) (w s : Bytes) → names (x ∷ w) s ≡ ((x ∷ w) ++ to_separator s) ∷ after (from_separator s)
unfolding names to_separator from_separator after close_name
names-to_separator x w [] = rw append-nil
names-to_separator x w (c ∷ s) = elim (Bool-cases (c == separator)) [
  | inl e ↦ rw (e, names) (rw (e, names) (rw append-nil))
  | inr e ↦ rw e (rw (names-to_separator x (w ++ c ∷ []) s, append_assoc w (c ∷ []) _))
]

-- The separators in front of a name are passed over.
pub names-drop : (s : Bytes) → names [] (drop (separators s) s) ≡ names [] s
unfolding names separators is_separator close_name
names-drop [] = refl
names-drop (c ∷ s) = ground (arith, names-drop s)
