-- ===== src/Obf/Password/TimeCheck.antt =====
-- src/core/src/obf.cpp: which ages of the encoded time obfiTimeCheck accepts.
use irods_client_library_cpp.Base.{ℕ, ◌+◌, ◌<◌, ◌≤◌, ◌≡◌, ◌↔◌, ◌⊎◌, false, arith}
use irods_client_library_cpp.Base.Int.{pos, ◌+ℤ◌, ◌-ℤ◌, abs}
use irods_client_library_cpp.Obf.Password.{obfi_time_check}

-- Less than 20 seconds apart, or so across the wrap of the 16-bit clock.
abbrev pub Recent : ℕ → ℕ → Type 0
Recent a b =
    ((a < b + 20) × (b < a + 20))
    ⊎ ((a < 65000) × (65000 ≤ b) × (a + 65535 < b + 20))
    ⊎ ((b < 65000) × (65000 ≤ a) × (b + 65535 < a + 20))

-- Two times of the 16-bit clock pass the check exactly when they are less than 20 seconds apart,
-- counted across the wrap at 65535 too.
pub time_check_iff :
    (a b : ℕ) → a < 65536 → b < 65536 → (obfi_time_check (pos a) (pos b) ≡ false) ↔ Recent a b
unfolding obfi_time_check abs ◌+ℤ◌ ◌-ℤ◌
time_check_iff a b ha hb = (λ e. ground arith, λ r. ground arith)
