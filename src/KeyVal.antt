-- ===== src/KeyVal.antt =====
-- src/core/src/rcMisc.cpp: the keyword-value lists keyValPair_t. The two arrays are one list of `len`
-- slots with the size that is allocated for them; a size of 0 is the NULL of both pointers. A `char *`
-- that may be NULL is an Option. A read through a NULL keyword is the fault `null_keyword`.
pub mod Slots
pub mod Lookup
pub mod Bounds
pub mod Copy
pub mod Reach
mod Tests
use irods_client_library_cpp.Base.{
  ℕ, ◌+◌, ◌%◌, Bool, true, false, List, [], ◌∷◌, ◌++◌, Option, none, some, ◌==◌, if◌then◌else◌,
  Bytes, str_eq, length, Result, ok, err,
}

pub data Error : Type 0 where
  sys_internal_null_input_err null_keyword : Error

pub record Slot : Type 0 where
  pub keyword : Option Bytes
  pub value : Option Bytes

pub record KeyValPair : Type 0 where
  pub slots : List Slot
  pub allocated : ℕ

-- `memset(kv, 0, sizeof(keyValPair_t))`
abbrev pub zeroed : KeyValPair
zeroed = record { slots = []; allocated = 0 }

abbrev pub ptr_array_malloc_len : ℕ
ptr_array_malloc_len = 10

-- `keyWord[i] == NULL || strlen(keyWord[i]) == 0`
unfoldable pub is_blank : Slot → Bool
is_blank s = elim s.keyword [ none ↦ true | some w ↦ elim w [ [] ↦ true | c ∷ r ↦ false ] ]

-- `keyWord[i] != NULL && strcmp(keyWord[i], keyWord) == 0`
unfoldable pub has_keyword : Bytes → Slot → Bool
has_keyword k s = elim s.keyword [ none ↦ false | some w ↦ str_eq w k ]

pub get_loop : Bytes → List Slot → Result Error (Option Bytes)
get_loop k [] = ok none
get_loop k (s ∷ ss) = elim s.keyword [
  | none ↦ err null_keyword
  | some w ↦ if str_eq w k then ok s.value else get_loop k ss
]

unfoldable pub get_val_by_key : Option KeyValPair → Bytes → Result Error (Option Bytes)
unfolding get_loop
get_val_by_key none k = ok none
get_val_by_key (some kv) k = get_loop k kv.slots

-- The first slot of the keyword is closed up.
pub rm_loop : Bytes → List Slot → List Slot
unfolding has_keyword
rm_loop k [] = []
rm_loop k (s ∷ ss) = if has_keyword k s then ss else s ∷ rm_loop k ss

pub has_slot : Bytes → List Slot → Bool
unfolding has_keyword
has_slot k [] = false
has_slot k (s ∷ ss) = if has_keyword k s then true else has_slot k ss

unfoldable pub rm_key_val : KeyValPair → Bytes → KeyValPair
unfolding rm_loop has_slot
rm_key_val kv k =
    let slots = rm_loop k kv.slots in
    if has_slot k kv.slots
    then (record { slots = slots; allocated = if length slots == 0 then 0 else kv.allocated })
    else kv

abbrev pub slot_of : Bytes → Option Bytes → Slot
slot_of k v = record { keyword = some k; value = v }

-- The loop of addKeyVal: the slots with one overwritten, if one is blank or has the keyword.
pub overwrite : Bytes → Option Bytes → List Slot → Option (List Slot)
unfolding is_blank has_keyword
overwrite k v [] = none
overwrite k v (s ∷ ss) =
    if is_blank s
    then some (slot_of k v ∷ ss)
    else if has_keyword k s
    then some (record s { value = v } ∷ ss)
    else elim (overwrite k v ss) [ none ↦ none | some ss' ↦ some (s ∷ ss') ]

-- The reallocation before a new slot is written behind the last.
pub reserve : ℕ → ℕ → ℕ
reserve len allocated =
    if len % ptr_array_malloc_len == 0 then len + ptr_array_malloc_len else allocated

-- What addKeyVal works on: with NULL arrays the length is reset.
pub checked_slots : KeyValPair → List Slot
checked_slots kv = if kv.allocated == 0 then [] else kv.slots

pub add_to : KeyValPair → Bytes → Option Bytes → KeyValPair
unfolding overwrite reserve checked_slots
add_to kv k v =
    let ss = checked_slots kv in
    elim (overwrite k v ss) [
      | some ss' ↦ record { slots = ss'; allocated = kv.allocated }
      | none ↦ record {
        slots = ss ++ slot_of k v ∷ [];
        allocated = reserve (length ss) kv.allocated;
      }
    ]

unfoldable pub add_key_val : Option KeyValPair → Bytes → Option Bytes → Result Error KeyValPair
unfolding add_to
add_key_val none k v = err sys_internal_null_input_err
add_key_val (some kv) k v = ok (add_to kv k v)

pub repl_loop : List Slot → KeyValPair → Result Error KeyValPair
unfolding add_to
repl_loop [] dest = ok dest
repl_loop (s ∷ ss) dest = elim s.keyword [
  | none ↦ err null_keyword
  | some w ↦ repl_loop ss (add_to dest w s.value)
]

unfoldable pub repl_key_val : KeyValPair → Result Error KeyValPair
unfolding repl_loop
repl_key_val src = repl_loop src.slots zeroed

unfoldable pub clear_key_val : KeyValPair → KeyValPair
clear_key_val kv = elim kv.slots [ [] ↦ kv | s ∷ ss ↦ zeroed ]
