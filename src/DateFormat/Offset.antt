-- ===== src/DateFormat/Offset.antt =====
-- Offsets in the form dd.hh:mm:ss and its ends.
use irods_client_library_cpp.Base.{
  ℕ, ◌+◌, ◌*◌, ◌<◌, ◌≡◌, refl, ◌∙◌, true, false, none, ◌-◌, ltb, length, get_or, [], ◌∷◌, Bytes, ok,
  Result, arith,
}
use irods_client_library_cpp.Base.Int.{pos}
use irods_client_library_cpp.DateFormat.{
  Error, is_digit, is_integer, printed, unit_of, run, offset_loop, backwards, digits_at,
  offset_text, date_or_offset, check_date_format,
}

-- A digit as a byte.
abbrev pub byte : ℕ → ℕ
byte d = b'0' + d

is_digit-byte : (d : ℕ) → d < 10 → is_digit (byte d) ≡ true
unfolding is_digit
is_digit-byte d h = ground arith

unit_of-byte : (d : ℕ) → d < 10 → unit_of (byte d) ≡ none
unfolding unit_of
unit_of-byte d h = ground arith

abbrev IsDigit : ℕ → Type 0
IsDigit d = d < 10

-- mm:ss, hh:mm:ss and dd.hh:mm:ss from digits.
abbrev pub minutes_text : ℕ → ℕ → ℕ → ℕ → Bytes
minutes_text m1 m0 s1 s0 = byte m1 ∷ byte m0 ∷ b':' ∷ byte s1 ∷ byte s0 ∷ []

abbrev pub hours_text : ℕ → ℕ → ℕ → ℕ → ℕ → ℕ → Bytes
hours_text h1 h0 m1 m0 s1 s0 = byte h1 ∷ byte h0 ∷ b':' ∷ minutes_text m1 m0 s1 s0

abbrev pub days_text : ℕ → ℕ → ℕ → ℕ → ℕ → ℕ → ℕ → ℕ → Bytes
days_text d1 d0 h1 h0 m1 m0 s1 s0 = byte d1 ∷ byte d0 ∷ b'.' ∷ hours_text h1 h0 m1 m0 s1 s0

abbrev pub seconds : ℕ → ℕ → ℕ → ℕ → ℕ
seconds m1 m0 s1 s0 = 60 * (10 * m1 + m0) + (10 * s1 + s0)

-- A text that begins with two digits and a separator, and does not end in a unit, is an offset.
to_offset :
    (to_unix : Bytes → Result Error Bytes) (x1 x0 sep : ℕ) (rest : Bytes)
    → IsDigit x1
    → IsDigit x0
    → is_digit sep ≡ false
    → unit_of
        (get_or (byte x1 ∷ byte x0 ∷ sep ∷ rest) (length (byte x1 ∷ byte x0 ∷ sep ∷ rest) - 1) 0)
      ≡ none
    → ltb (length (byte x1 ∷ byte x0 ∷ sep ∷ rest)) 19 ≡ true
    → check_date_format to_unix (byte x1 ∷ byte x0 ∷ sep ∷ rest)
      ≡ offset_text (byte x1 ∷ byte x0 ∷ sep ∷ rest)
unfolding check_date_format is_integer date_or_offset digits_at
to_offset to_unix x1 x0 sep rest a b c u l =
    let ia = is_digit-byte x1 a in
    let ib = is_digit-byte x0 b in rw (ia, ib, c, u, l) (rw (digits_at, ia, ib, c) refl)

offset_text_of :
    (s : Bytes) (n : ℕ)
    → offset_loop (length s + 1) (backwards [] s) 0 ≡ ok n
    → offset_text s ≡ ok (printed (pos n))
unfolding offset_text
offset_text_of s n h = rw (h, offset_text) refl

colon_is_no_digit : (is_digit b':' ≡ false) × (is_digit b'.' ≡ false)
unfolding is_digit
colon_is_no_digit = (refl, refl)

module _ (m1 m0 s1 s0 : ℕ) (c : IsDigit m1) (d : IsDigit m0) (e : IsDigit s1) (f : IsDigit s0) where
  minutes_offset :
      offset_loop 6 (backwards [] (minutes_text m1 m0 s1 s0)) 0 ≡ ok (seconds m1 m0 s1 s0)
  unfolding offset_loop run backwards
  minutes_offset =
      ground (arith, is_digit-byte m1 c, is_digit-byte m0 d, is_digit-byte s1 e, is_digit-byte s0 f)

  hours_offset :
      (h1 h0 : ℕ)
      → IsDigit h1
      → IsDigit h0
      → offset_loop 9 (backwards [] (hours_text h1 h0 m1 m0 s1 s0)) 0
        ≡ ok (3600 * (10 * h1 + h0) + seconds m1 m0 s1 s0)
  unfolding offset_loop run backwards
  hours_offset h1 h0 a b = ground (
    arith,
    is_digit-byte h1 a,
    is_digit-byte h0 b,
    is_digit-byte m1 c,
    is_digit-byte m0 d,
    is_digit-byte s1 e,
    is_digit-byte s0 f,
  )

  days_offset :
      (d1 d0 h1 h0 : ℕ)
      → IsDigit d1
      → IsDigit d0
      → IsDigit h1
      → IsDigit h0
      → offset_loop 12 (backwards [] (days_text d1 d0 h1 h0 m1 m0 s1 s0)) 0
        ≡ ok (86_400 * (10 * d1 + d0) + 3600 * (10 * h1 + h0) + seconds m1 m0 s1 s0 + d1)
  unfolding offset_loop run backwards
  days_offset d1 d0 h1 h0 x y a b = ground (
    arith,
    is_digit-byte d1 x,
    is_digit-byte d0 y,
    is_digit-byte h1 a,
    is_digit-byte h0 b,
    is_digit-byte m1 c,
    is_digit-byte m0 d,
    is_digit-byte s1 e,
    is_digit-byte s0 f,
  )

-- checkDateFormat turns mm:ss and hh:mm:ss, from any digits, into the printed number of seconds; of
-- dd.hh:mm:ss it prints the seconds and the tens of the days once more.
pub check_date_format_lem :
    (to_unix : Bytes → Result Error Bytes) (d1 d0 h1 h0 m1 m0 s1 s0 : ℕ)
    → d1 < 10
    → d0 < 10
    → h1 < 10
    → h0 < 10
    → m1 < 10
    → m0 < 10
    → s1 < 10
    → s0 < 10
    → (check_date_format to_unix (minutes_text m1 m0 s1 s0)
        ≡ ok (printed (pos (seconds m1 m0 s1 s0))))
      × (check_date_format to_unix (hours_text h1 h0 m1 m0 s1 s0)
          ≡ ok (printed (pos (3600 * (10 * h1 + h0) + seconds m1 m0 s1 s0))))
      × (check_date_format to_unix (days_text d1 d0 h1 h0 m1 m0 s1 s0)
          ≡ ok (
              printed
                (pos (86_400 * (10 * d1 + d0) + 3600 * (10 * h1 + h0) + seconds m1 m0 s1 s0 + d1))))
check_date_format_lem to_unix d1 d0 h1 h0 m1 m0 s1 s0 x y a b c d e f =
    let (colon, point) = colon_is_no_digit in
    let u = unit_of-byte s0 f in
    (
      to_offset to_unix m1 m0 b':' (byte s1 ∷ byte s0 ∷ []) c d colon u refl
          ∙ offset_text_of (minutes_text m1 m0 s1 s0) _ (minutes_offset m1 m0 s1 s0 c d e f),
      to_offset to_unix h1 h0 b':' (minutes_text m1 m0 s1 s0) a b colon u refl
          ∙ offset_text_of (hours_text h1 h0 m1 m0 s1 s0) _
              (hours_offset m1 m0 s1 s0 c d e f h1 h0 a b),
      to_offset to_unix d1 d0 b'.' (hours_text h1 h0 m1 m0 s1 s0) x y point u refl
          ∙ offset_text_of (days_text d1 d0 h1 h0 m1 m0 s1 s0) _
              (days_offset m1 m0 s1 s0 c d e f d1 d0 h1 h0 x y a b),
    )
