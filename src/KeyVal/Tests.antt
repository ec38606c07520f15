-- ===== src/KeyVal/Tests.antt =====
-- Tests of the keyword-value lists of src/core/src/rcMisc.cpp, and the theorems at concrete inputs.
use irods_client_library_cpp.Base.{
  ◌≡◌, refl, [], ◌∷◌, none, some, arith, codes, str_eq, if◌then◌else◌, ok, err, ◌>>=◌,
}
use irods_client_library_cpp.KeyVal.{
  sys_internal_null_input_err, null_keyword, KeyValPair, zeroed, slot_of, is_blank, has_keyword,
  get_loop, get_val_by_key, rm_loop, has_slot, rm_key_val, overwrite, reserve, checked_slots,
  add_to, add_key_val, clear_key_val,
}
use irods_client_library_cpp.KeyVal.Slots.{IsNamed, nil, cons}
use irods_client_library_cpp.KeyVal.Bounds.{IsWellFormed, well_formed}
use irods_client_library_cpp.KeyVal.Reach.{begin, next, add_step, rm_step, Reachable-IsWellFormed}
use irods_client_library_cpp.KeyVal.Lookup.{get_val_by_key_lem}

abbrev forced : KeyValPair
forced = record {
  slots = slot_of (codes "force") (some []) ∷ slot_of (codes "size") none ∷ [];
  allocated = 10;
}

abbrev sized : KeyValPair
sized = record { slots = slot_of (codes "size") none ∷ []; allocated = 10 }

forced-IsNamed : IsNamed forced.slots
unfolding has_keyword str_eq
forced-IsNamed =
    cons (codes "force") (some []) (λ e. cc) (refl, tt) (cons (codes "size") none (λ e. cc) tt nil)

forced-IsWellFormed : IsWellFormed forced
forced-IsWellFormed = well_formed forced-IsNamed (omega arith)

first_added :
    add_key_val (some zeroed) (codes "force") (some [])
    ≡ ok (record { slots = slot_of (codes "force") (some []) ∷ []; allocated = 10 })
unfolding add_key_val add_to overwrite reserve checked_slots
first_added = refl

second_added :
    add_key_val
      (some (record { slots = slot_of (codes "force") (some []) ∷ []; allocated = 10 }))
      (codes "size")
      none
    ≡ ok forced
unfolding add_key_val add_to overwrite reserve checked_slots is_blank has_keyword str_eq
second_added = refl

first_removed : rm_key_val forced (codes "force") ≡ sized
unfolding rm_key_val rm_loop has_slot has_keyword str_eq
first_removed = refl

last_removed : rm_key_val sized (codes "size") ≡ zeroed
unfolding rm_key_val rm_loop has_slot has_keyword str_eq
last_removed = refl

no_list : add_key_val none (codes "size") none ≡ err sys_internal_null_input_err
unfolding add_key_val
no_list = refl

blank_read :
    get_val_by_key
      (some (record { slots = record { keyword = none; value = none } ∷ []; allocated = 10 }))
      (codes "size")
    ≡ err null_keyword
unfolding get_val_by_key get_loop
blank_read = refl

cleared : clear_key_val forced ≡ zeroed
unfolding clear_key_val
cleared = refl

Reachable-IsWellFormed_example : IsWellFormed (rm_key_val forced (codes "force"))
Reachable-IsWellFormed_example = Reachable-IsWellFormed (
    next
      (next (next begin (add_step (codes "force") (some []) (λ e. cc) first_added))
        (add_step (codes "size") none (λ e. cc) second_added))
      (rm_step (codes "force")))

get_val_by_key_lem_example :
    ((add_key_val (some forced) (codes "force") (some (codes "5")) >>= λ kv.
    get_val_by_key (some kv) (codes "force"))
      ≡ (if str_eq (codes "force") (codes "force")
          then ok (some (codes "5"))
          else get_val_by_key (some forced) (codes "force")))
    × (get_val_by_key (some (rm_key_val forced (codes "force"))) (codes "force") ≡ (
        if str_eq (codes "force") (codes "force")
        then ok none
        else get_val_by_key (some forced) (codes "force")))
get_val_by_key_lem_example =
    get_val_by_key_lem (codes "force") (codes "force") (some (codes "5")) forced-IsWellFormed
