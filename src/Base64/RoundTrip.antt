-- ===== src/Base64/RoundTrip.antt =====
-- src/core/src/base64.cpp: base64_decode undoes base64_encode.
use irods_client_library_cpp.Base.{
  ok, ℕ, ◌+◌, ◌*◌, ◌/◌, ◌%◌, ◌≤◌, ◌<◌, ◌≡◌, ap, ◌∙◌, [], ◌∷◌, ◌++◌, arith, Bytes, IsBytes, length,
  length-append, append_assoc, append-nil,
}
use irods_client_library_cpp.Base64.{
  encode_groups, base64_encode, group_bytes, steps, finish, base64_decode,
}
use irods_client_library_cpp.Base64.Rounds.{
  at_group, state, word, steps-group, steps_pad1, steps_pad2,
}

-- The digits of three bytes are put together again, and taken apart as three bytes.
word_of_bytes :
    (a b c : ℕ)
    → a < 256
    → b < 256
    → c < 256
    → word (a / 4 % 64) ((a % 4 * 16 + b / 16) % 64) ((b % 16 * 4 + c / 64) % 64) (c % 64)
      ≡ a * 65536 + b * 256 + c
word_of_bytes a b c ha hb hc = omega arith

group_bytes3 :
    (a b c w : ℕ)
    → a < 256
    → b < 256
    → c < 256
    → w ≡ a * 65536 + b * 256 + c
    → group_bytes w 3 ≡ a ∷ b ∷ c ∷ []
unfolding group_bytes
group_bytes3 a b c w ha hb hc e =
    let p : w / 65536 % 256 ≡ a = omega arith in
    let q : w / 256 % 256 ≡ b = omega arith in let r : w % 256 ≡ c = omega arith in cc

group_bytes2 :
    (a b w : ℕ) → a < 256 → b < 256 → w ≡ a * 65536 + b * 256 → group_bytes w 2 ≡ a ∷ b ∷ []
unfolding group_bytes
group_bytes2 a b w ha hb e =
    let p : w / 65536 % 256 ≡ a = omega arith in let q : w / 256 % 256 ≡ b = omega arith in cc

group_bytes1 : (a w : ℕ) → a < 256 → w ≡ a * 65536 → group_bytes w 1 ≡ a ∷ []
unfolding group_bytes
group_bytes1 a w ha e = let p : w / 65536 % 256 ≡ a = omega arith in cc

-- From the start of a group, the whole encoding is read and its bytes are appended.
steps-encode_groups :
    (n : ℕ) (s out : Bytes)
    → IsBytes s
    → length out + length s ≤ n
    → (g : ℕ) × (steps n (at_group out) (encode_groups s) ≡ ok (state 0 0 g (out ++ s)))
unfolding encode_groups
steps-encode_groups n [] out h fits = (3, unfold steps in rw append-nil)
steps-encode_groups n (a ∷ []) out (ha, _) fits = (
  1,
  steps_pad2 n _ _ out (omega arith)
      ∙ ap (λ x. ok (state 0 0 1 (out ++ x))) (group_bytes1 a _ ha (omega arith)),
)
steps-encode_groups n (a ∷ b ∷ []) out (ha, (hb, _)) fits = (
  2,
  steps_pad1 n _ _ _ out (omega arith)
      ∙ ap (λ x. ok (state 0 0 2 (out ++ x))) (group_bytes2 a b _ ha hb (omega arith)),
)
steps-encode_groups n (a ∷ b ∷ c ∷ s) out (ha, (hb, (hc, hs))) fits =
    let whole = group_bytes3 a b c _ ha hb hc (word_of_bytes a b c ha hb hc) in
    let (g, rest) =
      steps-encode_groups n s (out ++ (a ∷ b ∷ c ∷ [])) hs
        (omega (arith, length-append out (a ∷ b ∷ c ∷ []))) in
    (
      g,
      steps-group n _ _ _ _ out (encode_groups s) (omega arith)
          ∙ (ap (λ x. steps n (at_group (out ++ x)) (encode_groups s)) whole
              ∙ (rest ∙ ap (λ x. ok (state 0 0 g x)) (append_assoc out (a ∷ b ∷ c ∷ []) s))),
    )

-- Where the encoder finds room, its output is decoded to its input, in every buffer that holds it.
pub decode-encode_base64 :
    (s out : Bytes) (outlen room : ℕ)
    → IsBytes s
    → base64_encode s outlen ≡ ok out
    → length s ≤ room
    → base64_decode out room ≡ ok s
unfolding base64_encode base64_decode finish
decode-encode_base64 s out outlen room bytes e fits =
    let (g, read) = steps-encode_groups room s [] bytes (omega arith) in
    let same : out ≡ encode_groups s = ground arith in rw same (rw read)
