-- ===== src/Arrays/Rows.antt =====
-- addStrArray: the rows behave as a list of strings, and each fits in its row.
use irods_client_library_cpp.Base.{
  ℕ, zero, suc, ◌+◌, ◌-◌, ◌*◌, ◌%◌, ◌≤◌, ◌<◌, ◌≡◌, ◌⊎◌, refl, ap, ap₂, subst, ◌∙◌, ◌==◌, ltb, false,
  not, ◌||◌, some, [], ◌∷◌, ◌++◌, List, map, Bytes, length, take, replicate, set, length-append,
  length-set, take_all, take-length, ◌≢◌, if_cases, inl, inr, Bool-cases, All, All-append, ok,
  arith,
}
use irods_client_library_cpp.Arrays.{
  StrArray, rstrcpy, fitting_size, resize, rows_for, add_row, is_invalid, row_size, add_str_array,
}
use irods_client_library_cpp.Arrays.Growth.{allocated, set_last}

-- The doubling ends, with a size in which the string and its NUL fit.
pub fitting_size_lem :
    (fuel my_len size : ℕ)
    → 0 < size
    → 0 < fuel
    → my_len + 1 < size + fuel
    → (n : ℕ) × (fitting_size fuel my_len size ≡ some n) × (my_len < n) × (size ≤ n)
unfolding fitting_size
fitting_size_lem zero my_len size pos live h = elim live [ ]
fitting_size_lem (suc fuel) my_len size pos live h = elim (Bool-cases (ltb size (my_len + 1))) [
  | inl small ↦
      let (n, e, a, b) =
        fitting_size_lem fuel my_len (size * 2) (omega arith) (ground (arith, small))
          (ground (arith, small)) in
      (n, ground (arith, small, e), a, omega (arith, b))
  | inr big ↦ (size, ground (arith, big), ground (arith, big), omega arith)
]

-- An array that holds the strings, with room in each row and rows up to the next tens.
pub record HoldsRows (a : StrArray) (rows : List Bytes) : Type 0 where
  pub count : length rows ≡ a.len
  pub room : allocated a.len ≤ length a.value
  pub first : take a.len a.value ≡ rows
  pub fits : All (λ r. length r < a.size) rows
  pub sized : (0 < a.size) ⊎ (a.len ≡ 0)

copied :
    (size : ℕ) (rows : List Bytes)
    → All (λ r. length r < size) rows
    → map (λ r. rstrcpy r size) rows ≡ rows
unfolding rstrcpy
copied size [] _ = refl
copied size (r ∷ rows) (h, k) = ap₂ ◌∷◌ (take_all (size - 1) r (omega arith)) (copied size rows k)

wider :
    (old size : ℕ) (rows : List Bytes)
    → old ≤ size
    → All (λ r. length r < old) rows
    → All (λ r. length r < size) rows
wider old size [] h _ = tt
wider old size (r ∷ rows) h (k, ks) = (omega arith, wider old size rows h ks)

last_row :
    (slots rows : List Bytes) (len : ℕ) (v : Bytes)
    → len < length slots
    → take len slots ≡ rows
    → take (len + 1) (set slots len v) ≡ rows ++ v ∷ []
last_row slots rows len v h e = set_last slots len v h ∙ ap (λ w. w ++ v ∷ []) e

-- The rows before the write, either copied to ten more or as they are.
module _ (a : StrArray) (rows : List Bytes) (size : ℕ) (holds : HoldsRows a rows) where
  resized :
      All (λ r. length r < size) rows
      → (length (resize size a.len a.value) ≡ a.len + 10)
        × (take a.len (resize size a.len a.value) ≡ rows)
  unfolding resize
  resized fit =
      let kept : map (λ r. rstrcpy r size) (take a.len a.value) ≡ rows =
        ap (map (λ r. rstrcpy r size)) holds.first ∙ copied size rows fit in
      let n : length (map (λ r. rstrcpy r size) (take a.len a.value)) ≡ a.len =
        ap length kept ∙ holds.count in
      (
        omega (
          arith,
          n,
          length-append (map (λ r. rstrcpy r size) (take a.len a.value)) (replicate 10 []),
        ),
        subst
            (λ k. take k (map (λ r. rstrcpy r size) (take a.len a.value) ++ replicate 10 []) ≡ rows)
            n
            (take-length (map (λ r. rstrcpy r size) (take a.len a.value)) (replicate 10 []) ∙ kept),
      )

-- The rows in which a string is put have room for it and those after it up to the next tens.
abbrev Ready : StrArray → List Bytes → List Bytes → Type 0
Ready a rows slots =
    (allocated (a.len + 1) ≤ length slots) × (a.len < length slots) × (take a.len slots ≡ rows)

rows_for-Ready :
    (a : StrArray) (rows : List Bytes) (old size : ℕ)
    → HoldsRows a rows
    → All (λ r. length r < size) rows
    → Ready a rows (rows_for a old size)
unfolding rows_for
rows_for-Ready a rows old size holds fit =
    if_cases (Ready a rows) (not (size == old) || a.len % 10 == 0)
      (λ new. let (l, t) = resized a rows size holds fit in (omega (arith, l), omega (arith, l), t))
      (λ same.
        let odd : a.len % 10 ≢ 0 = ground (arith, same) in
        (omega (arith, odd, holds.room), omega (arith, odd, holds.room), holds.first))

-- The array with the string in its next row.
add_row-HoldsRows :
    (a : StrArray) (rows : List Bytes) (value : Bytes) (old size : ℕ)
    → HoldsRows a rows
    → All (λ r. length r < size) rows
    → length value < size
    → HoldsRows (add_row a value old size) (rows ++ value ∷ [])
unfolding add_row rstrcpy
add_row-HoldsRows a rows value old size holds fit short =
    let slots : List Bytes = rows_for a old size in
    let (room, in_range, kept) = rows_for-Ready a rows old size holds fit in
    let whole : take (size - 1) value ≡ value = take_all (size - 1) value (omega arith) in
    record {
      count = omega (arith, length-append rows (value ∷ []), holds.count);
      room = omega (arith, room, length-set slots a.len (take (size - 1) value));
      first =
          last_row slots rows a.len (take (size - 1) value) in_range kept
          ∙ ap (λ v. rows ++ v ∷ []) whole;
      fits = All-append _ rows (value ∷ []) fit (short, tt);
      sized = inl (omega arith);
    }

row_size_lem : (a : StrArray) → (0 < row_size a) × (a.size ≤ row_size a)
unfolding row_size
row_size_lem a = ground arith

HoldsRows-is_invalid : (a : StrArray) (rows : List Bytes) → HoldsRows a rows → is_invalid a ≡ false
unfolding is_invalid
HoldsRows-is_invalid a rows holds = ground (arith, holds.sized)

add_step :
    (a : StrArray) (value : Bytes) (n : ℕ)
    → is_invalid a ≡ false
    → fitting_size (length value + 1) (length value) (row_size a) ≡ some n
    → add_str_array a value ≡ ok (add_row a value (row_size a) n)
unfolding add_str_array
add_step a value n h e = rw (h, add_str_array, e) refl

-- addStrArray puts any string behind the strings that the array holds, which stay as they are,
-- whole and in a row in which it fits with its NUL: the size of the rows doubles until it does, and
-- the doubling ends.
pub add_str_array-HoldsRows :
    (a : StrArray) (rows : List Bytes) (value : Bytes)
    → HoldsRows a rows
    → (b : StrArray) × (add_str_array a value ≡ ok b) × HoldsRows b (rows ++ value ∷ [])
add_str_array-HoldsRows a rows value holds =
    let (pos, low) = row_size_lem a in
    let (n, e, short, grown) =
      fitting_size_lem (length value + 1) (length value) (row_size a) pos (omega arith)
        (omega (arith, pos)) in
    (
      add_row a value (row_size a) n,
      add_step a value n (HoldsRows-is_invalid a rows holds) e,
      add_row-HoldsRows a rows value (row_size a) n holds
          (wider a.size n rows (omega (arith, low, grown)) holds.fits) short,
    )
