-- ===== src/Obf/Password/Refusal.antt =====
-- src/core/src/obf.cpp: what obfiDecode refuses, and what it then gives back.
use irods_client_library_cpp.Base.{ℕ, ◌+◌, ◌<◌, ◌≡◌, ◌≢◌, ◌⊎◌, arith, Bytes, get_or, length}
use irods_client_library_cpp.Obf.Password.{auth_file_not_encrypted, is_not_encrypted, obfi_decode}

-- A text of fewer than six characters, one whose seventh is no key from 'e' to 't', and one that
-- does not start with a dot, is refused.
abbrev pub Unreadable : Bytes → Type 0
Unreadable s =
    (length s < 6) ⊎ (get_or s 6 0 < b'e') ⊎ (b'e' + 15 < get_or s 6 0) ⊎ (get_or s 0 0 ≢ b'.')

pub decode-Unreadable :
    (uid time_val : ℕ) (s : Bytes) (extra : ℕ)
    → Unreadable s
    → obfi_decode uid time_val s extra ≡ (auth_file_not_encrypted, s)
unfolding obfi_decode is_not_encrypted
decode-Unreadable uid time_val s extra u = ground arith

-- Whatever is refused comes back unchanged.
pub decode_refused :
    (uid time_val : ℕ) (s : Bytes) (extra : ℕ)
    → (obfi_decode uid time_val s extra).0 ≡ auth_file_not_encrypted
    → (obfi_decode uid time_val s extra).1 ≡ s
unfolding obfi_decode
decode_refused uid time_val s extra h = ground arith
