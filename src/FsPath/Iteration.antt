-- ===== src/FsPath/Iteration.antt =====
-- src/filesystem/path.cpp: path::iterator. The path that it points to is an argument of every operation.
-- `end()` has an empty element: two iterators of a path are equal where their positions are.
use irods_client_library_cpp.Base.{
  ℕ, zero, suc, ◌+◌, ◌-◌, Bool, true, false, ◌&&◌, [], ◌∷◌, ◌==◌, ltb, if◌then◌else◌, Bytes, get_or,
  length, take, drop,
}

abbrev pub separator : ℕ
separator = b'/'

unfoldable pub is_empty : Bytes → Bool
is_empty [] = true
is_empty (c ∷ s) = false

unfoldable pub is_absolute : Bytes → Bool
is_absolute [] = false
is_absolute (c ∷ s) = c == separator

unfoldable pub is_separator : ℕ → Bool
is_separator c = c == separator

-- The characters up to the first separator: `substr(pos, find_first_of(separator, pos) - pos)`, or
-- all where there is none.
unfoldable pub to_separator : Bytes → Bytes
to_separator [] = []
to_separator (c ∷ s) = if c == separator then [] else c ∷ to_separator s

-- How many separators the text starts with: `while (is_separator(fp[pos_])) ++pos_;`.
unfoldable pub separators : Bytes → ℕ
unfolding is_separator
separators [] = 0
separators (c ∷ s) = if is_separator c then suc (separators s) else 0

pub record Iterator : Type 0 where
  pub element : Bytes
  pub pos : ℕ

unfoldable pub begin : Bytes → Iterator
unfolding is_absolute to_separator
begin p = record { element = if is_absolute p then separator ∷ [] else to_separator p; pos = 0 }

unfoldable pub end : Bytes → Iterator
end p = record { element = []; pos = length p }

-- The separator test of the last character.
unfoldable pub ends_in_separator : Bytes → Bool
unfolding is_separator
ends_in_separator p = is_separator (get_or p (length p - 1) 0)

-- The iterator behind the element and the separators that follow it, at the position `at`.
unfoldable pub increment_to : Bytes → ℕ → Iterator
unfolding ends_in_separator to_separator
increment_to p at =
    if (length p == at) && ends_in_separator p
    then record { element = []; pos = length p - 1 }
    else record { element = to_separator (drop at p); pos = at }

-- `operator++`. Over an empty path `fp.size() - 1` is the largest size, and no position.
unfoldable pub increment : Bytes → Iterator → Iterator
unfolding is_empty increment_to separators
increment p it =
    let next = it.pos + length it.element in
    if (length p == it.pos + 1) && is_empty it.element
    then record { element = it.element; pos = it.pos + 1 }
    else if length p == next
    then record { element = []; pos = next }
    else increment_to p (next + separators (drop next p))

-- `while (pos_ > 0 && is_separator(fp[pos_ - 1])) --pos_;`
unfoldable pub back_separators : Bytes → ℕ → ℕ
unfolding is_separator
back_separators p zero = 0
back_separators p (suc n) = if is_separator (get_or p n 0) then back_separators p n else suc n

-- `while (pos_ > 0 && !is_separator(fp[pos_ - 1])) --pos_;`
unfoldable pub back_name : Bytes → ℕ → ℕ
unfolding is_separator
back_name p zero = 0
back_name p (suc n) = if is_separator (get_or p n 0) then suc n else back_name p n

-- The element that ends at `stop`.
unfoldable pub element_before : Bytes → ℕ → Iterator
unfolding back_name
element_before p stop =
    let start = back_name p stop in
    record { element = take (stop - start) (drop start p); pos = start }

-- `operator--`. At position 0, where the code reads before the string, the model reads its first character.
unfoldable pub decrement : Bytes → Iterator → Iterator
unfolding is_separator back_separators element_before
decrement p it =
    let before = get_or p (it.pos - 1) 0 in
    if (length p == it.pos) && ltb 1 (length p) && is_separator before
    then record { element = []; pos = it.pos - 1 }
    else if is_separator before
    then (if it.pos - 1 == 0
        then record { element = separator ∷ []; pos = it.pos - 1 }
        else element_before p (back_separators p it.pos))
    else element_before p it.pos
