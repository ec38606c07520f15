-- ===== src/FsPath/Compare.antt =====
-- src/filesystem/path.cpp: compare orders the paths by their elements.
use irods_client_library_cpp.Base.{
  ◌≡◌, ◌↔◌, refl, sym, ap, ◌∙◌, true, false, List, [], ◌∷◌, arith, Bool-cases, inl, inr, Bytes,
  str_eq, str_eq_sound,
}
use irods_client_library_cpp.Base.Int.{pos, negsuc, ◌-ℤ◌}
use irods_client_library_cpp.Base.Dict.{str_ltb, str_ltb_irrefl, str_ltb_trans, str_ltb_total}
use irods_client_library_cpp.FsPath.{elements, compare_elements, compare, lexicographical_compare}
use irods_client_library_cpp.FsPath.Elements.{split_path}
use irods_client_library_cpp.FsPath.Visits.{elements_visit}

compare_elements_refl : (es : List Bytes) → compare_elements es es ≡ pos 0
unfolding compare_elements
compare_elements_refl [] = refl
compare_elements_refl (e ∷ es) = ground (arith, str_ltb_irrefl e, compare_elements_refl es)

same_str : (a b : Bytes) → str_ltb a b ≡ false → str_ltb b a ≡ false → a ≡ b
same_str a b h g = elim (Bool-cases (str_eq a b)) [
  | inl e ↦ str_eq_sound a b e
  | inr e ↦ cc (str_ltb_total a b e h, g)
]

compare_elements_zero : (es fs : List Bytes) → compare_elements es fs ≡ pos 0 → es ≡ fs
unfolding compare_elements
compare_elements_zero [] [] h = refl
compare_elements_zero [] (f ∷ fs) h = cc
compare_elements_zero (e ∷ es) [] h = ground arith
compare_elements_zero (e ∷ es) (f ∷ fs) h =
    ground (arith, same_str e f, compare_elements_zero es fs)

str_ltb_asym : (a b : Bytes) → str_ltb a b ≡ true → str_ltb b a ≡ false
str_ltb_asym a b h = ground (arith, str_ltb_trans a b a h, str_ltb_irrefl a)

compare_elements_flip :
    (es fs : List Bytes) → compare_elements fs es ≡ pos 0 -ℤ compare_elements es fs
unfolding compare_elements ◌-ℤ◌
compare_elements_flip [] [] = refl
compare_elements_flip [] (f ∷ fs) = refl
compare_elements_flip (e ∷ es) [] = refl
compare_elements_flip (e ∷ es) (f ∷ fs) =
    ground (arith, str_ltb_asym e f, str_ltb_asym f e, compare_elements_flip es fs)

compare_elements_trans :
    (es fs gs : List Bytes)
    → compare_elements es fs ≡ negsuc 0
    → compare_elements fs gs ≡ negsuc 0
    → compare_elements es gs ≡ negsuc 0
unfolding compare_elements
compare_elements_trans [] [] gs h k = k
compare_elements_trans [] (f ∷ fs) [] h k = ground arith
compare_elements_trans [] (f ∷ fs) (g ∷ gs) h k = refl
compare_elements_trans (e ∷ es) [] gs h k = ground arith
compare_elements_trans (e ∷ es) (f ∷ fs) [] h k = ground arith
compare_elements_trans (e ∷ es) (f ∷ fs) (g ∷ gs) h k = ground (
  arith,
  str_ltb_trans e f g,
  same_str e f,
  same_str f g,
  str_ltb_irrefl e,
  str_ltb_irrefl f,
  str_ltb_irrefl g,
  compare_elements_trans es fs gs,
)

compare_elements-lexicographical_compare :
    (es fs : List Bytes)
    → (lexicographical_compare es fs ≡ true) ↔ (compare_elements es fs ≡ negsuc 0)
unfolding compare_elements lexicographical_compare
compare_elements-lexicographical_compare [] [] = ground arith
compare_elements-lexicographical_compare [] (f ∷ fs) = ground arith
compare_elements-lexicographical_compare (e ∷ es) [] = ground arith
compare_elements-lexicographical_compare (e ∷ es) (f ∷ fs) =
    ground (arith, compare_elements-lexicographical_compare es fs)

-- Over all elements of two paths, lexicographical_compare says yes exactly where compare says less.
pub compare-lexicographical_compare :
    (p q : Bytes)
    → (lexicographical_compare (elements p) (elements q) ≡ true) ↔ (compare p q ≡ negsuc 0)
unfolding compare
compare-lexicographical_compare p q =
    compare_elements-lexicographical_compare (elements p) (elements q)

-- Two paths compare equal exactly where they have the same root, names and final separator, however
-- many separators stand between the names.
pub compare_iff : (p q : Bytes) → (compare p q ≡ pos 0) ↔ (split_path p ≡ split_path q)
unfolding compare
compare_iff p q = (
  λ h.
      sym (elements_visit p) ∙ compare_elements_zero (elements p) (elements q) h ∙ elements_visit q,
  λ h.
      let same = elements_visit p ∙ h ∙ sym (elements_visit q) in
      ap (compare_elements (elements p)) (sym same) ∙ compare_elements_refl (elements p),
)

-- compare is an order: with the paths exchanged it answers the opposite, and what is less than a
-- lesser path is less.
pub compare_order :
    (p q : Bytes)
    → (compare q p ≡ pos 0 -ℤ compare p q)
      × ((r : Bytes) → compare p q ≡ negsuc 0 → compare q r ≡ negsuc 0 → compare p r ≡ negsuc 0)
unfolding compare
compare_order p q = (
  compare_elements_flip (elements p) (elements q),
  λ r. compare_elements_trans (elements p) (elements q) (elements r),
)
