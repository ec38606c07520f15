-- ===== src/Obf/Wheel.antt =====
-- src/core/src/obf.cpp: the wheel of 77 characters, the search in it, and the loop
-- `while (j < 0) j += wheel_len` of the two decoders.
use irods_client_library_cpp.Base.{
  ℕ, zero, suc, ◌+◌, ◌-◌, ◌*◌, ◌%◌, ◌<◌, ◌≤◌, ◌≡◌, refl, Bool, true, false, ◌&&◌, [], ◌∷◌, ◌++◌,
  Option, none, some, arith, ltb, ◌==◌, if◌then◌else◌, Bytes, get_or, length, inl, inr, Bool-cases,
  holds_below, holds_below_at,
}

-- `for (i = 0; i < n; i++) wheel[j++] = c + i`
char_run : ℕ → ℕ → Bytes
char_run zero c = []
char_run (suc n) c = c ∷ char_run n (c + 1)

abbrev pub wheel_len : ℕ
wheel_len = 77

pub wheel : Bytes
unfolding char_run
wheel = char_run 10 b'0' ++ (char_run 26 b'A' ++ (char_run 26 b'a' ++ char_run 15 b'!'))

-- `(char)wheel[j]`
unfoldable pub wheel_at : ℕ → ℕ
unfolding wheel
wheel_at j = get_or wheel j 0

-- `for (i = 0; i < wheel_len; i++) if (c == (char)wheel[i])`: the first index, from `i` on.
find_from : ℕ → Bytes → ℕ → Option ℕ
find_from c [] i = none
find_from c (x ∷ xs) i = let rest = find_from c xs (i + 1) in if c == x then some i else rest

unfoldable pub wheel_index : ℕ → Option ℕ
unfolding find_from wheel
wheel_index c = find_from c wheel 0

-- `j = a - b; while (j < 0) j += wheel_len;` where `b` rounds are enough.
unwind_fuel : ℕ → ℕ → ℕ → ℕ
unwind_fuel zero a b = a - b
unwind_fuel (suc f) a b =
    let rest = unwind_fuel f (a + wheel_len) b in if ltb a b then rest else a - b

unfoldable pub unwind : ℕ → ℕ → ℕ
unfolding unwind_fuel
unwind a b = unwind_fuel b a b

-- The loop ends by its test with a place on the wheel, as far from `b` as `a` was.
unwind_fuel_lem :
    (f a b : ℕ)
    → b ≤ a + wheel_len * f
    → a < wheel_len + b
    → (unwind_fuel f a b < wheel_len) × ((unwind_fuel f a b + b) % wheel_len ≡ a % wheel_len)
unfolding unwind_fuel
unwind_fuel_lem zero a b h k = omega arith
unwind_fuel_lem (suc f) a b h k = ground (arith, unwind_fuel_lem f (a + wheel_len) b)

pub unwind_lem :
    (a b : ℕ)
    → a < wheel_len
    → (unwind a b < wheel_len) × ((unwind a b + b) % wheel_len ≡ a % wheel_len)
unfolding unwind
unwind_lem a b h = unwind_fuel_lem b a b (omega arith) (omega arith)

-- Turning back undoes a turn.
pub unwind-turn : (i d : ℕ) → i < wheel_len → unwind ((i + d) % wheel_len) d ≡ i
unwind-turn i d h = omega (arith, unwind_lem ((i + d) % wheel_len) d (omega arith))

find_from_lem :
    (c : ℕ) (xs : Bytes) (n i : ℕ)
    → find_from c xs n ≡ some i
    → (k : ℕ) × (i ≡ n + k) × (k < length xs) × (get_or xs k 0 ≡ c)
unfolding find_from
find_from_lem c [] n i h = cc
find_from_lem c (x ∷ xs) n i h = elim (Bool-cases (c == x)) [
  | inl e ↦ (0, ground arith, omega arith, ground arith)
  | inr e ↦
      let (k, p, q, r) = find_from_lem c xs (n + 1) i (ground arith) in
      (suc k, omega arith, omega arith, r)
]

-- A character that is found stands on the wheel at its index.
pub wheel_index-some : (c i : ℕ) → wheel_index c ≡ some i → (i < wheel_len) × (wheel_at i ≡ c)
unfolding wheel_index wheel_at
wheel_index-some c i h =
    let (k, p, q, r) = find_from_lem c wheel 0 i h in
    let e : i ≡ k = omega arith in (rw e q, rw e r)

-- No character stands on the wheel twice.
found_at : ℕ → Bool
found_at i = elim (wheel_index (wheel_at i)) [ none ↦ false | some k ↦ k == i ]

found_table : holds_below found_at wheel_len ≡ true
unfolding holds_below found_at wheel_index wheel_at
found_table = refl

found_at_lem : (i : ℕ) → found_at i ≡ true → wheel_index (wheel_at i) ≡ some i
unfolding found_at
found_at_lem i h = ground arith

pub wheel_index-wheel_at : (i : ℕ) → i < wheel_len → wheel_index (wheel_at i) ≡ some i
wheel_index-wheel_at i h = found_at_lem i (holds_below_at found_at wheel_len i h found_table)

printable_at : ℕ → Bool
printable_at i = ltb 32 (wheel_at i) && ltb (wheel_at i) 128

printable_table : holds_below printable_at wheel_len ≡ true
unfolding holds_below printable_at wheel_at
printable_table = refl

printable_at_lem : (i : ℕ) → printable_at i ≡ true → (32 < wheel_at i) × (wheel_at i < 128)
unfolding printable_at
printable_at_lem i h = ground arith

-- The wheel holds printable ASCII only.
pub wheel_at-printable : (i : ℕ) → i < wheel_len → (32 < wheel_at i) × (wheel_at i < 128)
wheel_at-printable i h =
    printable_at_lem i (holds_below_at printable_at wheel_len i h printable_table)
