-- ===== src/Hierarchy/Next.antt =====
-- src/core/src/irods_hierarchy_parser.cpp: what `next` finds.
use irods_client_library_cpp.Base.{
  ◌≡◌, ◌≢◌, ◌↔◌, refl, Bool, true, false, List, [], ◌∷◌, ◌++◌, Bool-cases, inl, inr, Bytes, str_eq,
  str_eq_iff, str_eq_refl, All, Result, ok, err,
}
use irods_client_library_cpp.Hierarchy.{
  Error, no_next_resc_found, child_not_found, HierarchyParser, next_loop, next, in_list,
  resc_in_hier,
}

abbrev pub Absent : Bytes → List Bytes → Type 0
Absent r = All (λ q. q ≢ r)

str_eq_ne : (a b : Bytes) → a ≢ b → str_eq a b ≡ false
str_eq_ne a b h = elim (Bool-cases (str_eq a b)) [
  | inl e ↦ absurd (h ((str_eq_iff a b).0 e))
  | inr e ↦ e
]

-- The answers of `next`: the resource behind the first occurrence, the two failures.
pub data Next (current : Bytes) : List Bytes → Result Error Bytes → Type 0 where
  found :
      (before after : List Bytes) (q : Bytes)
      → Absent current before
      → Next current (before ++ current ∷ q ∷ after) (ok q)
  leaf :
      (before : List Bytes)
      → Absent current before
      → Next current (before ++ current ∷ []) (err no_next_resc_found)
  missing : (all : List Bytes) → Absent current all → Next current all (err child_not_found)

Next-cons :
    (r current : Bytes) {rs : List Bytes} {a : Result Error Bytes}
    → r ≢ current
    → Next current rs a
    → Next current (r ∷ rs) a
Next-cons r current h (found before after q b) = found (r ∷ before) after q (h, b)
Next-cons r current h (leaf before b) = leaf (r ∷ before) (h, b)
Next-cons r current h (missing all b) = missing (r ∷ all) (h, b)

Next-head :
    (r current : Bytes) (rs : List Bytes)
    → r ≡ current
    → Next current (r ∷ rs) (elim rs [ [] ↦ err no_next_resc_found | q ∷ _ ↦ ok q ])
Next-head r current [] e = rw e (leaf [] tt)
Next-head r current (q ∷ rs) e = rw e (found [] rs q tt)

next_loop-Next : (current : Bytes) (rs : List Bytes) → Next current rs (next_loop current rs)
unfolding next_loop
next_loop-Next current [] = missing [] tt
next_loop-Next current (r ∷ rs) = elim (Bool-cases (str_eq r current)) [
  | inl e ↦ rw e (Next-head r current rs ((str_eq_iff r current).0 e))
  | inr e ↦ rw e (Next-cons r current (λ q. cc (str_eq_refl r)) (next_loop-Next current rs))
]

-- `next` answers the resource behind the first occurrence of `current`, NO_NEXT_RESC_FOUND where that
-- occurrence is the last resource, and CHILD_NOT_FOUND where there is none.
pub next-Next : (p : HierarchyParser) (current : Bytes) → Next current p.resc_list (next p current)
unfolding next
next-Next p current = next_loop-Next current p.resc_list

true≢false : ◌≢◌ {A = Bool} true false
true≢false h = cc

in_list-Absent : (r : Bytes) (rs : List Bytes) → (in_list r rs ≡ false) ↔ Absent r rs
unfolding in_list
in_list-Absent r [] = (λ h. tt, λ h. refl)
in_list-Absent r (q ∷ rs) = elim (Bool-cases (str_eq q r)) [
  | inl e ↦ rw e ((λ h. absurd (true≢false h)), (λ h. absurd (h.0 ((str_eq_iff q r).0 e))))
  | inr e ↦ rw e (
    (λ h. ((λ p. cc (str_eq_refl q)), (in_list-Absent r rs).0 h)),
    (λ h. (in_list-Absent r rs).1 h.1),
  )
]

-- `resc_in_hier` says no exactly where no resource of the hierarchy has the name.
pub resc_in_hier_iff :
    (p : HierarchyParser) (r : Bytes) → (resc_in_hier p r ≡ false) ↔ Absent r p.resc_list
unfolding resc_in_hier
resc_in_hier_iff p r = in_list-Absent r p.resc_list
