-- ===== src/Arrays/Tests.antt =====
-- Runs of the arrays at concrete inputs.
use irods_client_library_cpp.Base.{◌≡◌, refl, inr, some, [], ◌∷◌, codes, ok, arith}
use irods_client_library_cpp.Base.Int.{pos, negsuc}
use irods_client_library_cpp.Arrays.{
  InxIvalPair, InxValPair, RError, StrArray, add_str_array, add_row, rows_for, is_invalid, row_size,
  fitting_size, resize, rstrcpy,
}
use irods_client_library_cpp.Arrays.Growth.{
  Holds, add_inx_ivals, add_inx_vals, add_r_error_msgs, message_of, add_all-Holds,
}
use irods_client_library_cpp.Arrays.Rows.{HoldsRows, add_str_array-HoldsRows}
use irods_client_library_cpp.Arrays.Multi.{
  scan, added, multi_loop, halved, parse_multi_str, split_multi_str,
}
use irods_client_library_cpp.Arrays.Multi.RoundTrip.{doubled, joined, multi_str-joined}

abbrev zeroed : StrArray
zeroed = record { len = 0; size = 0; value = [] }

zeroed-HoldsRows : HoldsRows zeroed []
zeroed-HoldsRows = record {
  count = refl;
  room = omega arith;
  first = refl;
  fits = tt;
  sized = inr refl;
}

abbrev pair : InxIvalPair
pair = add_inx_ivals (record { len = 0; inx = []; value = [] }) ((pos 1, negsuc 0) ∷ [])

abbrev strings : InxValPair
strings = add_inx_vals (record { len = 0; inx = []; value = [] }) ((pos 7, codes "a") ∷ [])

abbrev errors : RError
errors = add_r_error_msgs (record { len = 0; err_msg = [] }) ((negsuc 4, codes "no") ∷ [])

add_all-Holds_example :
    (Holds pair.inx pair.len (pos 1 ∷ []) × Holds pair.value pair.len (negsuc 0 ∷ []))
    × (Holds strings.inx strings.len (pos 7 ∷ [])
        × Holds strings.value strings.len (some (codes "a") ∷ []))
    × Holds errors.err_msg errors.len (message_of (negsuc 4, codes "no") ∷ [])
add_all-Holds_example =
    add_all-Holds ((pos 1, negsuc 0) ∷ []) ((pos 7, codes "a") ∷ []) ((negsuc 4, codes "no") ∷ [])

add_str_array-HoldsRows_example :
    (b : StrArray) × (add_str_array zeroed (codes "ab") ≡ ok b) × HoldsRows b (codes "ab" ∷ [])
add_str_array-HoldsRows_example = add_str_array-HoldsRows zeroed [] (codes "ab") zeroed-HoldsRows

multi_str-joined_example :
    ((b : StrArray) × (split_multi_str (codes "a%%%b") zeroed ≡ some (b.len, b))
      × HoldsRows b (codes "a%" ∷ codes "b" ∷ []))
    × ((b : StrArray) × (parse_multi_str (codes "a%%%b") zeroed ≡ some (b.len, b))
        × HoldsRows b (codes "a%%" ∷ codes "b" ∷ []))
unfolding joined doubled
multi_str-joined_example =
    multi_str-joined (codes "a%") (codes "b" ∷ []) zeroed [] zeroed-HoldsRows (omega arith)

split_multi_str_runs :
    split_multi_str (codes "x%y%%z") zeroed
    ≡ some (
      2,
      record {
        len = 2;
        size = 64;
        value = codes "x" ∷ codes "y%z" ∷ [] ∷ [] ∷ [] ∷ [] ∷ [] ∷ [] ∷ [] ∷ [] ∷ [];
      },
    )
unfolding split_multi_str multi_loop scan added halved add_str_array add_row rows_for is_invalid
    row_size fitting_size resize rstrcpy
split_multi_str_runs = refl
