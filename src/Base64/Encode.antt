-- ===== src/Base64/Encode.antt =====
-- src/core/src/base64.cpp: the size and the alphabet of what base64_encode writes.
use irods_client_library_cpp.Base.{
  ok, err, ℕ, ◌+◌, ◌*◌, ◌/◌, ◌≤◌, ◌<◌, ◌≡◌, ◌⊎◌, inl, inr, refl, [], ◌∷◌, arith, ltb, Bytes, All,
  length, Bool-cases,
}
use irods_client_library_cpp.Base64.{
  base64_buffer_overflow, code_at, mymap, encode_groups, base64_encode,
}
use irods_client_library_cpp.Base64.Rounds.{mymap-code_at}

length-encode_groups : (s : Bytes) → length (encode_groups s) ≡ 4 * ((length s + 2) / 3)
unfolding encode_groups
length-encode_groups [] = omega arith
length-encode_groups (a ∷ []) = omega arith
length-encode_groups (a ∷ b ∷ []) = omega arith
length-encode_groups (a ∷ b ∷ c ∷ s) = omega (arith, length-encode_groups s)

-- A character that the decoder reads as six bits, or the pad.
abbrev pub InAlphabet : ℕ → Type 0
InAlphabet c = (mymap c < 64) ⊎ (c ≡ b'=')

code_at-InAlphabet : (k : ℕ) → InAlphabet (code_at k)
code_at-InAlphabet k = inl (omega (arith, mymap-code_at k))

All-encode_groups : (s : Bytes) → All InAlphabet (encode_groups s)
unfolding encode_groups
All-encode_groups [] = tt
All-encode_groups (a ∷ []) =
    (code_at-InAlphabet _, (code_at-InAlphabet _, (inr refl, (inr refl, tt))))
All-encode_groups (a ∷ b ∷ []) =
    (code_at-InAlphabet _, (code_at-InAlphabet _, (code_at-InAlphabet _, (inr refl, tt))))
All-encode_groups (a ∷ b ∷ c ∷ s) = (
  code_at-InAlphabet _,
  (code_at-InAlphabet _, (code_at-InAlphabet _, (code_at-InAlphabet _, All-encode_groups s))),
)

-- The encoder fails exactly where its output and a NUL do not fit, and it fails by
-- BASE64_BUFFER_OVERFLOW; otherwise the output has the stated length, leaves room for the NUL and
-- holds characters of the alphabet only.
pub base64_encode_lem :
    (s : Bytes) (outlen : ℕ)
    → ((outlen ≤ 4 * ((length s + 2) / 3)) × (base64_encode s outlen ≡ err base64_buffer_overflow))
      ⊎ ((out : Bytes) × (base64_encode s outlen ≡ ok out)
          × (length out ≡ 4 * ((length s + 2) / 3))
          × (length out < outlen)
          × All InAlphabet out)
unfolding base64_encode
base64_encode_lem s outlen = elim (Bool-cases (ltb outlen (4 * ((length s + 2) / 3) + 1))) [
  | inl short ↦ inl (ground arith, rw short)
  | inr enough ↦ inr (
    encode_groups s,
    rw enough,
    length-encode_groups s,
    ground (arith, length-encode_groups s),
    All-encode_groups s,
  )
]
