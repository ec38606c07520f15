-- ===== src/Obf/Password/Tests.antt =====
-- Tests of obfiEncode and obfiDecode of src/core/src/obf.cpp, and their theorems at concrete inputs.
use irods_client_library_cpp.Base.{◌≡◌, ◌↔◌, refl, false, arith, codes}
use irods_client_library_cpp.Base.Int.{pos, ◌+ℤ◌, ◌-ℤ◌, abs}
use irods_client_library_cpp.Obf.Wheel.{wheel_at, wheel_index, unwind}
use irods_client_library_cpp.Obf.Password.{
  Clock, success, auth_file_not_encrypted, now_of, obfi_encode, obfi_decode, obfi_time_check,
}
use irods_client_library_cpp.Obf.Password.RoundTrip.{decode-encode_password}
use irods_client_library_cpp.Obf.Password.TimeCheck.{Recent, time_check_iff}

abbrev noon : Clock
noon = record { tv_sec = 1_600_000_000; tv_usec = 123_457 }

plain_file :
    obfi_decode 1000 55 (codes "not encoded at all") 0
    ≡ (auth_file_not_encrypted, codes "not encoded at all")
unfolding obfi_decode obfi_time_check ◌+ℤ◌ ◌-ℤ◌ abs wheel_at wheel_index unwind
plain_file = refl

decode-encode_password_example :
    obfi_decode 1000 4660 (obfi_encode 1000 noon 4650 (codes "rods") 0) 0 ≡ (success, codes "rods")
unfolding now_of obfi_time_check ◌+ℤ◌ ◌-ℤ◌ abs
decode-encode_password_example =
    decode-encode_password 1000 noon 4650 4660 (codes "rods") 0 (omega arith) refl

time_check_iff_example : (obfi_time_check (pos 3) (pos 65530) ≡ false) ↔ Recent 3 65530
time_check_iff_example = time_check_iff 3 65530 (omega arith) (omega arith)
