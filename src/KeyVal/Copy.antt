-- ===== src/KeyVal/Copy.antt =====
-- src/core/src/rcMisc.cpp: the copy that replKeyVal makes.
use irods_client_library_cpp.Base.{
  ℕ, ◌≤◌, ◌≡◌, refl, sym, ap, ◌∙◌, subst, false, List, [], ◌∷◌, ◌++◌, append_assoc, append-nil,
  Option, none, arith, Bytes, length, Result, ok, ◌>>=◌,
}
use irods_client_library_cpp.KeyVal.{
  Error, Slot, KeyValPair, slot_of, has_keyword, overwrite, add_to, repl_loop, repl_key_val,
}
use irods_client_library_cpp.KeyVal.Slots.{IsNamed, nil, cons, Fresh, added, not_blank, str_eq_flip}
use irods_client_library_cpp.KeyVal.Bounds.{rounded, add_to_fits}

Fresh-middle :
    (w : Bytes) (ds : List Slot) (s : Slot) (ss : List Slot)
    → Fresh w (ds ++ s ∷ ss)
    → has_keyword w s ≡ false
Fresh-middle w [] s ss (f, fs) = f
Fresh-middle w (d ∷ ds) s ss (f, fs) = Fresh-middle w ds s ss fs

Fresh-differs :
    (w k : Bytes) (v : Option Bytes) (ds ss : List Slot)
    → Fresh w (ds ++ slot_of k v ∷ ss)
    → has_keyword k (slot_of w v) ≡ false
unfolding has_keyword
Fresh-differs w k v ds ss fresh = str_eq_flip k w (Fresh-middle w ds (slot_of k v) ss fresh)

-- The slots before a keyword that stands once are not overwritten by it.
overwrite_front :
    (k : Bytes) (x v : Option Bytes) (ds ss : List Slot)
    → IsNamed (ds ++ slot_of k v ∷ ss)
    → overwrite k x ds ≡ none
unfolding overwrite has_keyword
overwrite_front k x v [] ss h = refl
overwrite_front k x v (d ∷ ds) ss (cons w y h fresh named) =
    ground
      (arith, not_blank w y h, Fresh-differs w k v ds ss fresh, overwrite_front k x v ds ss named)

added_front :
    (k : Bytes) (v : Option Bytes) (ds ss : List Slot)
    → IsNamed (ds ++ slot_of k v ∷ ss)
    → added k v ds ≡ ds ++ slot_of k v ∷ []
added_front k v ds ss h = rw (overwrite_front k v v ds ss h, added) refl

-- The list holds these slots and has room for them.
abbrev pub Holds : Result Error KeyValPair → List Slot → Type 0
Holds r ss = (b : ℕ) × (r ≡ ok (record { slots = ss; allocated = b })) × (rounded (length ss) ≤ b)

add_front :
    (k : Bytes) (v : Option Bytes) (ds ss : List Slot) {a : ℕ}
    → IsNamed (ds ++ slot_of k v ∷ ss)
    → rounded (length ds) ≤ a
    → Holds (ok (add_to (record { slots = ds; allocated = a }) k v)) (ds ++ slot_of k v ∷ [])
add_front k v ds ss {a} h fits =
    let (b, e, fits') = add_to_fits k v ds fits in
    subst (Holds (ok (add_to (record { slots = ds; allocated = a }) k v))) (added_front k v ds ss h)
      (b, ap ok e, fits')

repl_loop_cons :
    (k : Bytes) (v : Option Bytes) (ss : List Slot) (d : KeyValPair) {e : KeyValPair}
    → ◌≡◌ {A = Result Error KeyValPair} (ok (add_to d k v)) (ok e)
    → repl_loop (slot_of k v ∷ ss) d ≡ repl_loop ss e
unfolding repl_loop
repl_loop_cons k v ss d h = ap (λ r. r >>= repl_loop ss) h

repl_loop_copies :
    {ss : List Slot} (ds : List Slot) {a : ℕ}
    → IsNamed ss
    → IsNamed (ds ++ ss)
    → rounded (length ds) ≤ a
    → Holds (repl_loop ss (record { slots = ds; allocated = a })) (ds ++ ss)
repl_loop_copies ds {a} nil whole fits =
    subst (Holds (repl_loop [] (record { slots = ds; allocated = a }))) (sym (append-nil ds))
      (unfold repl_loop in (a, refl, fits))
repl_loop_copies ds {a} (cons {ss} k v h fresh named) whole fits =
    let (b, e, fits') = add_front k v ds ss whole fits in
    let ds' = ds ++ slot_of k v ∷ [] in
    let same = append_assoc ds (slot_of k v ∷ []) ss in
    let (c, e', fits'') = repl_loop_copies ds' named (subst IsNamed (sym same) whole) fits' in
    subst (Holds (repl_loop (slot_of k v ∷ ss) (record { slots = ds; allocated = a }))) same
      (c, repl_loop_cons k v ss _ e ∙ e', fits'')

-- Where the keywords of a list are there, not empty and all different, replKeyVal makes a list of the
-- same slots in the same order, which are inside of what it allocates in whole blocks of ten.
pub repl_key_val_copies : (kv : KeyValPair) → IsNamed kv.slots → Holds (repl_key_val kv) kv.slots
unfolding repl_key_val
repl_key_val_copies kv h = repl_loop_copies [] h h (omega arith)
