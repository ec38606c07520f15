-- ===== src/Obf/Key.antt =====
-- src/core/src/obf.cpp: obfMakeOneWayHash, obfEncodeByKey, obfDecodeByKey. A C string is the list of
-- its bytes without the NUL. MD5 and SHA1 are OpenSSL's, and a parameter; so are the two globals
-- `defaultHashType` and `cipherBlockChaining`, and what the encoder's buffer holds beyond the 17
-- bytes that it clears. The debug prints are left out.
pub mod RoundTrip
mod Tests
use irods_client_library_cpp.Base.{
  ℕ, suc, ◌+◌, ◌-◌, ◌%◌, Bool, true, false, ◌&&◌, ◌||◌, [], ◌∷◌, ◌++◌, none, some, ltb,
  if◌then◌else◌, Bytes, codes, starts_with, get_or, length, take, drop, replicate,
}
use irods_client_library_cpp.Obf.Wheel.{wheel_len, wheel_at, wheel_index, unwind}

pub data HashType : Type 0 where
  hash_md5 hash_sha1 hash_default : HashType

abbrev pub is_sha1 : HashType → Bool
is_sha1 hash_sha1 = true
is_sha1 _ = false

abbrev is_default : HashType → Bool
is_default hash_default = true
is_default _ = false

pub record Config : Type 0 where
  pub md5 : Bytes → Bytes
  pub sha1 : Bytes → Bytes
  pub default_hash_type : HashType
  pub cipher_block_chaining : Bool

pub obf_make_one_way_hash : Config → HashType → Bytes → Bytes
obf_make_one_way_hash cfg t s =
    if is_sha1 t || (is_default t && is_sha1 cfg.default_hash_type) then cfg.sha1 s else cfg.md5 s

-- What a write of `d` at offset `n` leaves in the buffer.
pub overlay : ℕ → Bytes → Bytes → Bytes
overlay n d buf = take n buf ++ (d ++ drop (n + length d) buf)

-- `snprintf(keyBuf, 101, "%s", key)` over 101 zero bytes, of which 100 are hashed.
pub key_buf : Bytes → Bytes
key_buf key = take 100 key ++ replicate (100 - length key) 0

-- The four hashes that fill the buffer.
pub fill_buffer : (Bytes → Bytes) → Bytes → Bytes → Bytes
fill_buffer hash key b₀ =
    let b₁ = overlay 0 (hash (key_buf key)) b₀ in
    let b₂ = overlay 16 (hash (take 16 b₁)) b₁ in
    let b₃ = overlay 32 (hash (take 32 b₂)) b₂ in overlay 48 (hash (take 32 b₃)) b₃

-- `cpKey++; if (cpKey > buffer + 60) cpKey = buffer;`
pub next_key : ℕ → ℕ
next_key kpos = if ltb 60 (kpos + 1) then 0 else kpos + 1

module _ (chaining : Bool) (buf : Bytes) where
  -- The loop over the input, at the place `kpos` of the buffer and after the character `pc`.
  pub encode_loop : ℕ → ℕ → Bytes → Bytes
  unfolding next_key
  encode_loop kpos pc [] = []
  encode_loop kpos pc (c ∷ s) =
      let k = get_or buf kpos 0 in
      elim (wheel_index c) [
        | some i ↦
            let o = wheel_at ((i + k + pc) % wheel_len) in
            o ∷ encode_loop (next_key kpos) (if chaining then o % 256 else pc) s
        | none ↦ c ∷ encode_loop (next_key kpos) pc s
      ]

  pub decode_loop : ℕ → ℕ → Bytes → Bytes
  unfolding next_key
  decode_loop kpos pc [] = []
  decode_loop kpos pc (c ∷ s) =
      let k = get_or buf kpos 0 in
      elim (wheel_index c) [
        | some i ↦
            wheel_at (unwind i (k + pc))
            ∷ decode_loop (next_key kpos) (if chaining then c % 256 else pc) s
        | none ↦ c ∷ decode_loop (next_key kpos) pc s
      ]

abbrev pub sha1_mark : Bytes
sha1_mark = codes "sha1"

-- `rest` is what the stack held behind the 17 cleared bytes of `buffer[65]`.
unfoldable pub obf_encode_by_key : Config → Bytes → Bytes → Bytes → Bytes
obf_encode_by_key cfg rest s key =
    let buf = fill_buffer (obf_make_one_way_hash cfg hash_default) key (replicate 17 0 ++ rest) in
    let out = encode_loop cfg.cipher_block_chaining buf 0 0 s in
    if is_sha1 cfg.default_hash_type then sha1_mark ++ out else out

unfoldable pub obf_decode_by_key : Config → Bytes → Bytes → Bytes
obf_decode_by_key cfg s key =
    let marked = starts_with sha1_mark s in
    let hash = obf_make_one_way_hash cfg (if marked then hash_sha1 else hash_md5) in
    let buf = fill_buffer hash key (replicate 65 0) in
    decode_loop cfg.cipher_block_chaining buf 0 0 (if marked then drop 4 s else s)
