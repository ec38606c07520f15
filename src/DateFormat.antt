-- ===== src/DateFormat.antt =====
-- isInteger and checkDateFormat of core/src/rcMisc.cpp. The text of at most TIME_LEN bytes is what
-- the function leaves in `s`. The products of the source are taken without overflow of `int`.
pub mod Offset
mod Tests
use irods_client_library_cpp.Base.{
  ℕ, zero, suc, ◌+◌, ◌-◌, ◌*◌, ◌/◌, ◌%◌, ◌==◌, ltb, leb, Bool, true, false, ◌&&◌, ◌||◌, Option,
  none, some, [], ◌∷◌, ◌++◌, List, Bytes, codes, length, take, drop, get_or, if◌then◌else◌, Result,
  err, ok, ◌>>=◌,
}
use irods_client_library_cpp.Base.Int.{ℤ, pos, negsuc, sub_ℕ}

pub data Error : Type 0 where
  date_format_err unix_time_err out_of_fuel : Error

unfoldable pub is_digit : ℕ → Bool
is_digit c = leb b'0' c && leb c b'9'

unfoldable pub is_integer : Bytes → Bool
unfolding is_digit
is_integer [] = true
is_integer (c ∷ s) = if is_digit c then is_integer s else false

-- The decimal digits of a number, on fuel for one more digit than it has.
unfoldable pub digits : ℕ → ℕ → Bytes
digits zero n = []
digits (suc fuel) n = (if ltb n 10 then [] else digits fuel (n / 10)) ++ (b'0' + n % 10) ∷ []

-- `snprintf( s, 19, "%d", offset )`
unfoldable pub printed : ℤ → Bytes
unfolding digits
printed (pos n) = take 18 (digits (n + 1) n)
printed (negsuc n) = take 18 (b'-' ∷ digits (n + 2) (n + 1))

-- `atoi`: white space, a sign and digits.
unfoldable pub number_of : ℕ → Bytes → ℕ
unfolding is_digit
number_of acc [] = acc
number_of acc (c ∷ s) = if is_digit c then number_of (acc * 10 + (c - b'0')) s else acc

unfoldable pub skip_space : Bytes → Bytes
skip_space [] = []
skip_space (c ∷ s) = if c == b' ' || (leb 9 c && leb c 13) then skip_space s else c ∷ s

unfoldable pub signed : Bytes → ℤ
unfolding number_of
signed [] = pos 0
signed (c ∷ s) =
    if c == b'-'
    then sub_ℕ 0 (number_of 0 s)
    else if c == b'+'
    then pos (number_of 0 s)
    else pos (number_of 0 (c ∷ s))

unfoldable pub atoi : Bytes → ℤ
unfolding skip_space signed
atoi s = signed (skip_space s)

unfoldable pub times : ℤ → ℕ → ℤ
times (pos n) k = pos (n * k)
times (negsuc n) k = sub_ℕ 0 ((n + 1) * k)

-- The seconds of a unit at the end of the text.
unfoldable pub unit_of : ℕ → Option ℕ
unit_of c =
    if c == b's'
    then some 1
    else if c == b'm'
    then some 60
    else if c == b'h'
    then some 3600
    else if c == b'd'
    then some (3600 * 24)
    else if c == b'y'
    then some (3600 * 24 * 365)
    else none

-- What the body of the loop over `mypos` looks for, from the end of the text: a digit that counts
-- for so many seconds, or a separator.
pub data Slot : Type 0 where
  digit : ℕ → Slot
  separator : ℕ → Slot

abbrev pub slots : List Slot
slots =
    digit 1
    ∷ digit 10
    ∷ separator b':'
    ∷ digit 60
    ∷ digit 600
    ∷ separator b':'
    ∷ digit 3600
    ∷ digit 36_000
    ∷ separator b'.'
    ∷ digit 86_400
    ∷ digit 864_000
    ∷ []

-- How one run of the body ends.
pub data Run : Type 0 where
  failed : Run
  done : ℕ → Run
  again : Bytes → ℕ → Run

-- The text is read from `mypos` down, so it is given the other way round. After the tens of the days
-- `mypos` stays where it is, and the body begins again.
unfoldable pub run : List Slot → Bytes → ℕ → Run
unfolding is_digit
run [] rev offset = again rev offset
run (digit w ∷ ss) [] offset = done offset
run (digit w ∷ []) (c ∷ rev) offset =
    if is_digit c then again (c ∷ rev) (offset + w * (c - b'0')) else failed
run (digit w ∷ s ∷ ss) (c ∷ rev) offset =
    if is_digit c then run (s ∷ ss) rev (offset + w * (c - b'0')) else failed
run (separator b ∷ ss) [] offset = run ss [] offset
run (separator b ∷ ss) (c ∷ rev) offset = if c == b then run ss rev offset else failed

unfoldable pub offset_loop : ℕ → Bytes → ℕ → Result Error ℕ
unfolding run
offset_loop zero rev offset = err out_of_fuel
offset_loop (suc fuel) [] offset = ok offset
offset_loop (suc fuel) (c ∷ rev) offset = elim (run slots (c ∷ rev) offset) [
  | failed ↦ err date_format_err
  | done n ↦ ok n
  | again rest n ↦ offset_loop fuel rest n
]

unfoldable pub backwards : Bytes → Bytes → Bytes
backwards acc [] = acc
backwards acc (c ∷ s) = backwards (c ∷ acc) s

-- `isdigit` of the bytes at these indices.
unfoldable pub digits_at : List ℕ → Bytes → Bool
unfolding is_digit
digits_at [] s = true
digits_at (i ∷ is) s = if is_digit (get_or s i 0) then digits_at is s else false

unfoldable pub is_full : Bytes → Bool
unfolding digits_at
is_full s =
    digits_at (0 ∷ 1 ∷ 2 ∷ 3 ∷ 5 ∷ 6 ∷ 8 ∷ 9 ∷ 11 ∷ 12 ∷ 14 ∷ 15 ∷ 17 ∷ 18 ∷ []) s
    && get_or s 4 0 == b'-'
    && get_or s 7 0 == b'-'
    && get_or s 10 0 == b'.'
    && get_or s 13 0 == b':'
    && get_or s 16 0 == b':'

-- The two ends of the function; `to_unix` is localToUnixTime.
unfoldable pub full_date : (Bytes → Result Error Bytes) → Bytes → Result Error Bytes
unfolding is_full
full_date to_unix s = if is_full s then to_unix s else err date_format_err

unfoldable pub offset_text : Bytes → Result Error Bytes
unfolding offset_loop backwards printed
offset_text s = offset_loop (length s + 1) (backwards [] s) 0 >>= λ n. ok (printed (pos n))

unfoldable pub date_or_offset : (Bytes → Result Error Bytes) → Bytes → Result Error Bytes
unfolding full_date offset_text digits_at
date_or_offset to_unix s =
    if ltb (length s) 19
    then (if digits_at (0 ∷ 1 ∷ 2 ∷ 3 ∷ []) s
        then full_date to_unix (s ++ drop (length s) (codes "0000-00-00.00:00:00"))
        else offset_text s)
    else full_date to_unix s

unfoldable pub check_date_format : (Bytes → Result Error Bytes) → Bytes → Result Error Bytes
unfolding is_integer unit_of printed times atoi date_or_offset
check_date_format to_unix s =
    if is_integer s then ok s else elim (unit_of (get_or s (length s - 1) 0)) [
      | some k ↦ ok (printed (times (atoi (take (length s - 1) s)) k))
      | none ↦ date_or_offset to_unix s
    ]
