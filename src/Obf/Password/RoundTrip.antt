-- ===== src/Obf/Password/RoundTrip.antt =====
-- src/core/src/obf.cpp: obfiDecode undoes obfiEncode while the encoded time is recent.
use irods_client_library_cpp.Base.{
  ℕ, ◌+◌, ◌-◌, ◌%◌, ◌<◌, ◌≡◌, refl, sym, ap, ap₂, subst, ◌∙◌, false, ◌||◌, [], ◌∷◌, arith,
  Option-cases, inl, inr, Bytes, ltb, get_or, length,
}
use irods_client_library_cpp.Base.Int.{pos}
use irods_client_library_cpp.Obf.Wheel.{
  wheel_len, wheel_index, unwind-turn, wheel_index-some, wheel_index-wheel_at,
}
use irods_client_library_cpp.Obf.Password.{
  success, Clock, seq_of, offset_base, addin, next_addin, addin_after, encode_char, decode_char,
  encode_chars, decode_chars, headstring, now_of, obfi_encode, obfi_time_check, encoded_time,
  is_not_encrypted, decode_with, obfi_decode,
}

decode_char-encode_char : (turn c : ℕ) → decode_char turn (encode_char turn c) ≡ c
unfolding encode_char decode_char
decode_char-encode_char turn c = elim (Option-cases (wheel_index c)) [
  | inl e ↦ rw (e, encode_char) (rw (e, decode_char))
  | inr (i, e) ↦
      rw (e, encode_char)
        (rw (wheel_index-wheel_at ((i + turn) % wheel_len) (omega arith), decode_char)
          (rw (unwind-turn i turn (wheel_index-some c i e).0) (wheel_index-some c i e).1))
]

decode_chars-encode_chars :
    (seq base addin_i : ℕ) (s : Bytes)
    → decode_chars seq base addin_i (encode_chars seq base addin_i s) ≡ s
unfolding encode_chars decode_chars
decode_chars-encode_chars seq base addin_i [] = refl
decode_chars-encode_chars seq base addin_i (c ∷ s) =
    ap₂ ◌∷◌ (decode_char-encode_char (addin seq base addin_i) c)
      (decode_chars-encode_chars seq base (next_addin addin_i) s)

-- The digits of a 16-bit time are put together again.
encoded_time-headstring :
    (rval now : ℕ) → now < 65536 → encoded_time (headstring rval now) ≡ pos now
unfolding encoded_time headstring
encoded_time-headstring rval now h = ground arith

-- A fresh head is recognised.
is_not_encrypted-headstring :
    (rval now time_val : ℕ) (cipher : Bytes)
    → get_or cipher 0 0 ≡ b'.'
    → now < 65536
    → obfi_time_check (pos now) (pos time_val) ≡ false
    → is_not_encrypted rval time_val cipher (headstring rval now) ≡ false
unfolding is_not_encrypted
is_not_encrypted-headstring rval now time_val cipher dot low fresh =
    rw (dot, encoded_time-headstring rval now low, fresh) (unfold headstring in ground arith)

-- The decoder on a text with a key character and a head that passes.
module _ (uid time_val extra rval c₁ c₂ c₃ c₄ c₅ : ℕ) (s : Bytes) where
  text : Bytes
  text = b'.' ∷ c₁ ∷ c₂ ∷ c₃ ∷ c₄ ∷ c₅ ∷ (rval + b'e') ∷ s

  key_in_range :
      rval < 16
      → (ltb (length text) 6 || ltb (rval + b'e') b'e' || ltb (b'e' + 15) (rval + b'e')) ≡ false
  unfolding text
  key_in_range low = ground arith

  decode-text :
      rval < 16
      → is_not_encrypted rval time_val text
          (decode_chars (seq_of rval) (offset_base uid extra) 0 (c₁ ∷ c₂ ∷ c₃ ∷ c₄ ∷ c₅ ∷ []))
        ≡ false
      → obfi_decode uid time_val text extra
        ≡ (success, decode_chars (seq_of rval) (offset_base uid extra) (addin_after 5 0) s)
  unfolding text obfi_decode
  decode-text low fresh =
      let key : (rval + b'e') - b'e' ≡ rval = omega arith in
      rw (key_in_range low) (rw key (rw (fresh, decode_with)))

now_of-lt : (clock : Clock) (time_val : ℕ) → time_val < 65536 → now_of clock time_val < 65536
unfolding now_of
now_of-lt clock time_val h = ground arith

-- While the time that was encoded is recent for the decoder, the text comes back, for every user
-- id, pattern and offset.
pub decode-encode_password :
    (uid : ℕ) (clock : Clock) (time_val decoder_time : ℕ) (s : Bytes) (extra : ℕ)
    → time_val < 65536
    → obfi_time_check (pos (now_of clock time_val)) (pos decoder_time) ≡ false
    → obfi_decode uid decoder_time (obfi_encode uid clock time_val s extra) extra ≡ (success, s)
unfolding obfi_encode text
decode-encode_password uid clock time_val decoder_time s extra low fresh =
    decode-text uid decoder_time extra rval _ _ _ _ _ _ (omega arith) (
      subst (λ h. is_not_encrypted rval decoder_time cipher h ≡ false)
        (sym (decode_chars-encode_chars seq base 0 (headstring rval now)))
        (is_not_encrypted-headstring rval now decoder_time cipher refl
          (now_of-lt clock time_val low) fresh))
    ∙ ap (λ x. (success, x)) (decode_chars-encode_chars seq base (addin_after 5 0) s)
  where
    rval : ℕ
    rval = clock.tv_usec % 16

    cipher : Bytes
    cipher = obfi_encode uid clock time_val s extra

    now : ℕ
    now = now_of clock time_val

    seq : ℕ
    seq = seq_of rval

    base : ℕ
    base = offset_base uid extra
