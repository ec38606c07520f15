-- ===== src/KeyVal/Bounds.antt =====
-- src/core/src/rcMisc.cpp: the memory of the keyword-value lists.
use irods_client_library_cpp.Base.{
  ℕ, suc, ◌+◌, ◌*◌, ◌/◌, ◌≤◌, ◌≡◌, refl, sym, ap, ◌∙◌, List, [], ◌∷◌, ◌++◌, Option, none, some,
  arith, Option-cases, inl, inr, Bytes, length, length-append, subst,
}
use irods_client_library_cpp.KeyVal.{
  Slot, KeyValPair, slot_of, rm_loop, overwrite, reserve, checked_slots, add_to,
}
use irods_client_library_cpp.KeyVal.Slots.{IsNamed, added}

-- Whole blocks of ten slots.
abbrev pub rounded : ℕ → ℕ
rounded n = (n + 9) / 10 * 10

-- The keywords are there and different, and the slots are inside of what is allocated.
pub data IsWellFormed : KeyValPair → Type 0 where
  well_formed :
      {ss : List Slot} {a : ℕ}
      → IsNamed ss
      → rounded (length ss) ≤ a
      → IsWellFormed (record { slots = ss; allocated = a })

length-overwrite :
    (k : Bytes) (v : Option Bytes) (ss : List Slot) {ss' : List Slot}
    → overwrite k v ss ≡ some ss'
    → length ss' ≡ length ss
unfolding overwrite
length-overwrite k v [] h = ground arith
length-overwrite k v (s ∷ ss) {ss'} h = elim (Option-cases (overwrite k v ss)) [
  | inl e ↦ ground (arith, e)
  | inr (ts, e) ↦ ground (arith, e, length-overwrite k v ss e)
]

pub checked_same :
    (ss : List Slot) {a : ℕ}
    → rounded (length ss) ≤ a
    → checked_slots (record { slots = ss; allocated = a }) ≡ ss
unfolding checked_slots
checked_same [] h = ground arith
checked_same (s ∷ ss) h = ground arith

pub rounded-reserve : (n a : ℕ) → rounded n ≤ a → rounded (suc n) ≤ reserve n a
unfolding reserve
rounded-reserve n a h = ground arith

length-snoc : (ss : List Slot) (s : Slot) → length (ss ++ s ∷ []) ≡ suc (length ss)
length-snoc ss s = omega (arith, length-append ss (s ∷ []))

pub length-rm_loop : (k : Bytes) (ss : List Slot) → length (rm_loop k ss) ≤ length ss
unfolding rm_loop
length-rm_loop k [] = omega arith
length-rm_loop k (s ∷ ss) = ground (arith, length-rm_loop k ss)

-- What addKeyVal makes of the slots that it has checked.
abbrev placed : Bytes → Option Bytes → ℕ → List Slot → KeyValPair
placed k v a ss = elim (overwrite k v ss) [
  | some ss' ↦ record { slots = ss'; allocated = a }
  | none ↦ record { slots = ss ++ slot_of k v ∷ []; allocated = reserve (length ss) a }
]

placed_fits :
    (k : Bytes) (v : Option Bytes) (ss : List Slot) {a : ℕ}
    → rounded (length ss) ≤ a
    → (b : ℕ) × (placed k v a ss ≡ record { slots = added k v ss; allocated = b })
      × (rounded (length (added k v ss)) ≤ b)
placed_fits k v ss {a} h = elim (Option-cases (overwrite k v ss)) [
  | inl e ↦
      rw (e, placed, added)
        (
          reserve (length ss) a,
          refl,
          subst (λ n. rounded n ≤ reserve (length ss) a) (sym (length-snoc ss (slot_of k v)))
              (rounded-reserve (length ss) a h),
        )
  | inr (ts, e) ↦ rw (e, placed, added) (a, refl, rw (length-overwrite k v ss e) h)
]

-- addKeyVal makes the added slots, and room for them.
pub add_to_fits :
    (k : Bytes) (v : Option Bytes) (ss : List Slot) {a : ℕ}
    → rounded (length ss) ≤ a
    → (b : ℕ) × (add_to (record { slots = ss; allocated = a }) k v
        ≡ record { slots = added k v ss; allocated = b })
      × (rounded (length (added k v ss)) ≤ b)
unfolding add_to
add_to_fits k v ss {a} h =
    let (b, e, fits) = placed_fits k v ss h in (b, ap (placed k v a) (checked_same ss h) ∙ e, fits)
