-- ===== src/Base/Dict.antt =====
-- `std::map<std::string, V>`: the entries in the order of their keys.
use irods_client_library_cpp.Base.{
  ◌≡◌, refl, sym, ap, subst, ◌∙◌, ◌++◌, append-nil, append_assoc, str_eq_refl, Bool, true, false,
  ◌&&◌, ◌||◌, List, [], ◌∷◌, Option, none, some, arith, ltb, ◌==◌, if◌then◌else◌, Bytes, str_eq,
  str_eq_iff,
}

-- `<` on strings, by unsigned characters.
unfoldable pub str_ltb : Bytes → Bytes → Bool
str_ltb s [] = false
str_ltb [] (y ∷ ys) = true
str_ltb (x ∷ xs) (y ∷ ys) = ltb x y || (x == y && str_ltb xs ys)

pub str_ltb_irrefl : (a : Bytes) → str_ltb a a ≡ false
unfolding str_ltb
str_ltb_irrefl [] = refl
str_ltb_irrefl (x ∷ xs) = ground (arith, str_ltb_irrefl xs)

pub str_ltb_trans : (a b c : Bytes) → str_ltb a b ≡ true → str_ltb b c ≡ true → str_ltb a c ≡ true
unfolding str_ltb
str_ltb_trans a b [] h k = ground arith
str_ltb_trans a [] (z ∷ zs) h k = ground arith
str_ltb_trans [] (y ∷ ys) (z ∷ zs) h k = refl
str_ltb_trans (x ∷ xs) (y ∷ ys) (z ∷ zs) h k = ground (arith, str_ltb_trans xs ys zs)

pub str_ltb_total : (a b : Bytes) → str_eq a b ≡ false → str_ltb a b ≡ false → str_ltb b a ≡ true
unfolding str_ltb str_eq
str_ltb_total [] [] h k = cc
str_ltb_total [] (y ∷ ys) h k = cc
str_ltb_total (x ∷ xs) [] h k = refl
str_ltb_total (x ∷ xs) (y ∷ ys) h k = ground (arith, str_ltb_total xs ys)

abbrev pub Dict : Type 0 → Type 0
Dict V = List (Bytes × V)

module _ {V : Type 0} where
  unfoldable pub lookup : Bytes → Dict V → Option V
  lookup k [] = none
  lookup k ((j, v) ∷ m) = if str_eq j k then some v else lookup k m

  -- `m[k] = v`
  unfoldable pub insert : Bytes → V → Dict V → Dict V
  insert k v [] = (k, v) ∷ []
  insert k v ((j, w) ∷ m) =
      if str_eq j k
      then (k, v) ∷ m
      else if str_ltb k j
      then (k, v) ∷ (j, w) ∷ m
      else (j, w) ∷ insert k v m

  -- `m.erase(k)`
  unfoldable pub erase : Bytes → Dict V → Dict V
  erase k [] = []
  erase k ((j, v) ∷ m) = if str_eq j k then m else (j, v) ∷ erase k m

  unfoldable pub insert_all : Dict V → Dict V → Dict V
  unfolding insert
  insert_all [] m = m
  insert_all ((k, v) ∷ es) m = insert_all es (insert k v m)

  pub lookup-insert :
      (k j : Bytes) (v : V) (m : Dict V)
      → lookup j (insert k v m) ≡ (if str_eq k j then some v else lookup j m)
  unfolding lookup insert
  lookup-insert k j v [] = refl
  lookup-insert k j v ((i, w) ∷ m) =
      ground (arith, str_eq_iff i k, str_eq_iff k j, str_eq_iff i j, lookup-insert k j v m)

  -- Every key of the map is above `k`.
  abbrev pub Above : Bytes → Dict V → Type 0
  Above k [] = Unit
  Above k ((j, v) ∷ m) = (str_ltb k j ≡ true) × Above k m

  abbrev pub IsSorted : Dict V → Type 0
  IsSorted [] = Unit
  IsSorted ((k, v) ∷ m) = Above k m × IsSorted m

  Above-middle :
      (j k : Bytes) (v : V) (m es : Dict V) → Above j (m ++ (k, v) ∷ es) → str_ltb j k ≡ true
  Above-middle j k v [] es (h, a) = h
  Above-middle j k v ((i, w) ∷ m) es (h, a) = Above-middle j k v m es a

  -- A key above all others goes to the end.
  insert_last :
      (k : Bytes) (v : V) (m es : Dict V)
      → IsSorted (m ++ (k, v) ∷ es)
      → insert k v m ≡ m ++ (k, v) ∷ []
  unfolding insert
  insert_last k v [] es s = refl
  insert_last k v ((j, w) ∷ m) es (a, s) = ground (
    arith,
    Above-middle j k v m es a,
    str_eq_iff j k,
    str_ltb_irrefl k,
    str_ltb_trans k j k,
    insert_last k v m es s,
  )

  insert_all-append : (es m : Dict V) → IsSorted (m ++ es) → insert_all es m ≡ m ++ es
  unfolding insert_all
  insert_all-append [] m s = sym (append-nil m)
  insert_all-append ((k, v) ∷ es) m s =
      ap (insert_all es) (insert_last k v m es s)
      ∙ insert_all-append es (m ++ (k, v) ∷ [])
          (subst IsSorted (sym (append_assoc m ((k, v) ∷ []) es)) s)
      ∙ append_assoc m ((k, v) ∷ []) es

  -- A sorted map is what its entries make of an empty one.
  pub insert_all-IsSorted : (es : Dict V) → IsSorted es → insert_all es [] ≡ es
  insert_all-IsSorted es s = insert_all-append es [] s

  pub erase-insert :
      (k : Bytes) (v : V) (m : Dict V) → lookup k m ≡ none → erase k (insert k v m) ≡ m
  unfolding erase insert lookup
  erase-insert k v [] h = ground (arith, str_eq_refl k)
  erase-insert k v ((j, w) ∷ m) h = ground (arith, str_eq_refl k, erase-insert k v m)
