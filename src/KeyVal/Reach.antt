-- ===== src/KeyVal/Reach.antt =====
-- src/core/src/rcMisc.cpp: the keyword-value lists that the calls make of an empty one.
use irods_client_library_cpp.Base.{
  ℕ, ◌≤◌, ◌≡◌, ◌≢◌, sym, ◌∙◌, subst, List, [], ◌==◌, if◌then◌else◌, inl, inr, Bool-cases, Option,
  some, arith, Bytes, length, Result, ok,
}
use irods_client_library_cpp.KeyVal.{
  Error, Slot, KeyValPair, zeroed, rm_loop, has_slot, rm_key_val, add_to, add_key_val, repl_key_val,
  clear_key_val,
}
use irods_client_library_cpp.KeyVal.Slots.{nil, cons, added-IsNamed, rm_loop-IsNamed}
use irods_client_library_cpp.KeyVal.Bounds.{
  rounded, IsWellFormed, well_formed, add_to_fits, length-rm_loop,
}
use irods_client_library_cpp.KeyVal.Copy.{repl_key_val_copies}

-- One call of the interface, from the list before it to the list after it.
pub data Step : KeyValPair → KeyValPair → Type 0 where
  add_step :
      {kv kv' : KeyValPair} (k : Bytes) (v : Option Bytes)
      → k ≢ []
      → add_key_val (some kv) k v ≡ ok kv'
      → Step kv kv'
  rm_step : {kv : KeyValPair} (k : Bytes) → Step kv (rm_key_val kv k)
  repl_step : {kv kv' : KeyValPair} → repl_key_val kv ≡ ok kv' → Step kv kv'
  clear_step : {kv : KeyValPair} → Step kv (clear_key_val kv)

pub data Reachable : KeyValPair → Type 0 where
  begin : Reachable zeroed
  next : {kv kv' : KeyValPair} → Reachable kv → Step kv kv' → Reachable kv'

zeroed-IsWellFormed : IsWellFormed zeroed
zeroed-IsWellFormed = well_formed nil (omega arith)

ok_same : {a b : KeyValPair} → ◌≡◌ {A = Result Error KeyValPair} (ok a) (ok b) → a ≡ b
ok_same h = cc

pub add_to-IsWellFormed :
    (k : Bytes) (v : Option Bytes) {kv : KeyValPair}
    → k ≢ []
    → IsWellFormed kv
    → IsWellFormed (add_to kv k v)
add_to-IsWellFormed k v ne (well_formed {ss} {a} named fits) =
    let (b, e, fits') = add_to_fits k v ss fits in
    subst IsWellFormed (sym e) (well_formed (added-IsNamed k v ne named) fits')

room_left :
    (k : Bytes) (ss : List Slot) {a : ℕ}
    → rounded (length ss) ≤ a
    → rounded (length (rm_loop k ss)) ≤ (if length (rm_loop k ss) == 0 then 0 else a)
room_left k ss h = ground (arith, length-rm_loop k ss)

pub rm_key_val-IsWellFormed :
    (k : Bytes) {kv : KeyValPair} → IsWellFormed kv → IsWellFormed (rm_key_val kv k)
unfolding rm_key_val
rm_key_val-IsWellFormed k (well_formed {ss} {a} named fits) = elim (Bool-cases (has_slot k ss)) [
  | inl e ↦ rw e (well_formed (rm_loop-IsNamed k named) (room_left k ss fits))
  | inr e ↦ rw e (well_formed named fits)
]

clear_key_val-IsWellFormed : {kv : KeyValPair} → IsWellFormed kv → IsWellFormed (clear_key_val kv)
unfolding clear_key_val
clear_key_val-IsWellFormed (well_formed nil fits) = well_formed nil fits
clear_key_val-IsWellFormed (well_formed (cons k v h fresh named) fits) = zeroed-IsWellFormed

Step-IsWellFormed : {kv kv' : KeyValPair} → Step kv kv' → IsWellFormed kv → IsWellFormed kv'
unfolding add_key_val
Step-IsWellFormed (add_step {kv} k v ne h) w =
    subst IsWellFormed (ok_same h) (add_to-IsWellFormed k v ne w)
Step-IsWellFormed (rm_step k) w = rm_key_val-IsWellFormed k w
Step-IsWellFormed (repl_step h) (well_formed {ss} {a} named fits) =
    let (b, e, fits') = repl_key_val_copies (record { slots = ss; allocated = a }) named in
    subst IsWellFormed (ok_same (sym e ∙ h)) (well_formed named fits')
Step-IsWellFormed clear_step w = clear_key_val-IsWellFormed w

-- Every list that calls of addKeyVal with keywords that are not empty, rmKeyVal, replKeyVal and
-- clearKeyVal make of a zeroed one has its keywords there and different, and its slots in whole blocks
-- of ten inside of what is allocated.
pub Reachable-IsWellFormed : {kv : KeyValPair} → Reachable kv → IsWellFormed kv
Reachable-IsWellFormed begin = zeroed-IsWellFormed
Reachable-IsWellFormed (next r s) = Step-IsWellFormed s (Reachable-IsWellFormed r)
