-- ===== src/KeyVal/Lookup.antt =====
-- src/core/src/rcMisc.cpp: what getValByKey finds after the calls that change a list.
use irods_client_library_cpp.Base.{
  ◌≡◌, refl, sym, ap, ◌∙◌, false, List, [], ◌∷◌, inl, inr, Bool-cases, Option, none, some, arith,
  if◌then◌else◌, Bytes, str_eq, ok, ◌>>=◌,
}
use irods_client_library_cpp.KeyVal.{
  Slot, KeyValPair, get_val_by_key, rm_loop, has_slot, rm_key_val, add_key_val, get_loop,
}
use irods_client_library_cpp.KeyVal.Slots.{get_loop-added, get_loop-rm_loop}
use irods_client_library_cpp.KeyVal.Bounds.{IsWellFormed, well_formed, add_to_fits}

-- In a well-formed list, getValByKey after addKeyVal answers the new value for the keyword that was
-- added, be it new or not, and what it answered before for every other keyword.
pub get_val_by_key-add_key_val :
    (k j : Bytes) (v : Option Bytes) {kv : KeyValPair}
    → IsWellFormed kv
    → (add_key_val (some kv) k v >>= λ kv'. get_val_by_key (some kv') j)
      ≡ (if str_eq k j then ok v else get_val_by_key (some kv) j)
unfolding add_key_val get_val_by_key
get_val_by_key-add_key_val k j v (well_formed {ss} {a} named fits) =
    let (b, e, fits') = add_to_fits k v ss fits in
    ap (λ kv. get_loop j kv.slots) e ∙ get_loop-added k j v named

rm_loop_absent : (k : Bytes) (ss : List Slot) → has_slot k ss ≡ false → rm_loop k ss ≡ ss
unfolding rm_loop has_slot
rm_loop_absent k [] h = refl
rm_loop_absent k (s ∷ ss) h = ground (arith, rm_loop_absent k ss)

slots-rm_key_val : (k : Bytes) (kv : KeyValPair) → (rm_key_val kv k).slots ≡ rm_loop k kv.slots
unfolding rm_key_val
slots-rm_key_val k kv = elim (Bool-cases (has_slot k kv.slots)) [
  | inl e ↦ rw e refl
  | inr e ↦ rw e (sym (rm_loop_absent k kv.slots e))
]

-- In a well-formed list, getValByKey after rmKeyVal answers NULL for the keyword that was removed, and
-- what it answered before for every other keyword.
pub get_val_by_key-rm_key_val :
    (k j : Bytes) {kv : KeyValPair}
    → IsWellFormed kv
    → get_val_by_key (some (rm_key_val kv k)) j
      ≡ (if str_eq k j then ok none else get_val_by_key (some kv) j)
unfolding get_val_by_key
get_val_by_key-rm_key_val k j (well_formed {ss} {a} named fits) =
    ap (get_loop j) (slots-rm_key_val k (record { slots = ss; allocated = a }))
    ∙ get_loop-rm_loop k j named

-- In a well-formed list, getValByKey answers after addKeyVal the new value for the added keyword, and
-- NULL after rmKeyVal for the removed one, and after both what it answered before for every other.
pub get_val_by_key_lem :
    (k j : Bytes) (v : Option Bytes) {kv : KeyValPair}
    → IsWellFormed kv
    → ((add_key_val (some kv) k v >>= λ kv'. get_val_by_key (some kv') j)
        ≡ (if str_eq k j then ok v else get_val_by_key (some kv) j))
      × (get_val_by_key (some (rm_key_val kv k)) j
          ≡ (if str_eq k j then ok none else get_val_by_key (some kv) j))
get_val_by_key_lem k j v w = (get_val_by_key-add_key_val k j v w, get_val_by_key-rm_key_val k j w)
