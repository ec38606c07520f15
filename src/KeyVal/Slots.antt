-- ===== src/KeyVal/Slots.antt =====
-- src/core/src/rcMisc.cpp: the slots of a list of keywords that are all there and all different.
use irods_client_library_cpp.Base.{
  ◌≡◌, ◌≢◌, refl, false, List, [], ◌∷◌, ◌++◌, Option, none, some, arith, if◌then◌else◌, Bool-cases,
  inl, inr, Bytes, str_eq, str_eq_iff, All, ok,
}
use irods_client_library_cpp.KeyVal.{
  Slot, slot_of, is_blank, has_keyword, get_loop, rm_loop, overwrite,
}

-- No slot of the list has the keyword.
abbrev pub Fresh : Bytes → List Slot → Type 0
Fresh k = All (λ s. has_keyword k s ≡ false)

-- Every keyword is there, is not empty, and stands once.
pub data IsNamed : List Slot → Type 0 where
  nil : IsNamed []
  cons :
      {ss : List Slot} (k : Bytes) (v : Option Bytes)
      → k ≢ []
      → Fresh k ss
      → IsNamed ss
      → IsNamed (slot_of k v ∷ ss)

-- The slots after addKeyVal: overwritten, or one more.
abbrev pub added : Bytes → Option Bytes → List Slot → List Slot
added k v ss = elim (overwrite k v ss) [ some ss' ↦ ss' | none ↦ ss ++ slot_of k v ∷ [] ]

pub not_blank : (k : Bytes) (v : Option Bytes) → k ≢ [] → is_blank (slot_of k v) ≡ false
unfolding is_blank
not_blank [] v h = absurd (h refl)
not_blank (c ∷ k) v h = refl

added-cons :
    (k w : Bytes) (v x : Option Bytes) (ss : List Slot)
    → w ≢ []
    → added k v (slot_of w x ∷ ss)
      ≡ (if str_eq w k then slot_of w v ∷ ss else slot_of w x ∷ added k v ss)
unfolding overwrite has_keyword
added-cons k w v x ss h = ground (arith, not_blank w x h)

pub str_eq_flip : (a b : Bytes) → str_eq a b ≡ false → str_eq b a ≡ false
str_eq_flip a b h = ground (arith, str_eq_iff a b, str_eq_iff b a)

pub get_loop-added :
    (k j : Bytes) (v : Option Bytes) {ss : List Slot}
    → IsNamed ss
    → get_loop j (added k v ss) ≡ (if str_eq k j then ok v else get_loop j ss)
unfolding get_loop
get_loop-added k j v nil = unfold overwrite in refl
get_loop-added k j v (cons {ss} w x h fresh named) =
    rw (added-cons k w v x ss h)
      (ground (arith, str_eq_iff w k, str_eq_iff w j, str_eq_iff k j, get_loop-added k j v named))

get_loop-Fresh : (j : Bytes) {ss : List Slot} → IsNamed ss → Fresh j ss → get_loop j ss ≡ ok none
unfolding get_loop has_keyword
get_loop-Fresh j nil f = refl
get_loop-Fresh j (cons {ss} w x h fresh named) (f, fs) = ground (arith, get_loop-Fresh j named fs)

pub get_loop-rm_loop :
    (k j : Bytes) {ss : List Slot}
    → IsNamed ss
    → get_loop j (rm_loop k ss) ≡ (if str_eq k j then ok none else get_loop j ss)
unfolding get_loop rm_loop
get_loop-rm_loop k j nil = ground arith
get_loop-rm_loop k j (cons {ss} w x h fresh named) = ground (
  arith,
  str_eq_iff w k,
  str_eq_iff w j,
  str_eq_iff k j,
  get_loop-rm_loop k j named,
  get_loop-Fresh w named fresh,
)

Fresh-added :
    (w k : Bytes) (v : Option Bytes) {ss : List Slot}
    → str_eq k w ≡ false
    → IsNamed ss
    → Fresh w ss
    → Fresh w (added k v ss)
unfolding has_keyword
Fresh-added w k v e nil f = unfold overwrite in (e, tt)
Fresh-added w k v e (cons {ss} u x h fresh named) (f, fs) =
    rw (added-cons k u v x ss h) (elim (Bool-cases (str_eq u k)) [
      | inl q ↦ rw q (f, fs)
      | inr q ↦ rw q (f, Fresh-added w k v e named fs)
    ])

-- Adding keeps the keywords there and different.
pub added-IsNamed :
    (k : Bytes) (v : Option Bytes) {ss : List Slot} → k ≢ [] → IsNamed ss → IsNamed (added k v ss)
added-IsNamed k v ne nil = unfold overwrite in cons k v ne tt nil
added-IsNamed k v ne (cons {ss} w x h fresh named) =
    rw (added-cons k w v x ss h) (elim (Bool-cases (str_eq w k)) [
      | inl q ↦ rw q (cons w v h fresh named)
      | inr q ↦ rw q (
          cons w x h (Fresh-added w k v (str_eq_flip w k q) named fresh)
            (added-IsNamed k v ne named))
    ])

Fresh-rm_loop : (w k : Bytes) (ss : List Slot) → Fresh w ss → Fresh w (rm_loop k ss)
unfolding rm_loop
Fresh-rm_loop w k [] f = tt
Fresh-rm_loop w k (s ∷ ss) (f, fs) = elim (Bool-cases (has_keyword k s)) [
  | inl e ↦ rw e fs
  | inr e ↦ rw e (f, Fresh-rm_loop w k ss fs)
]

pub rm_loop-IsNamed : (k : Bytes) {ss : List Slot} → IsNamed ss → IsNamed (rm_loop k ss)
unfolding rm_loop
rm_loop-IsNamed k nil = nil
rm_loop-IsNamed k (cons {ss} w x h fresh named) = elim (Bool-cases (has_keyword k (slot_of w x))) [
  | inl e ↦ rw e named
  | inr e ↦ rw e (cons w x h (Fresh-rm_loop w k ss fresh) (rm_loop-IsNamed k named))
]
