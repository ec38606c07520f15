-- ===== src/Obf/Key/Tests.antt =====
-- Tests of the obfuscation of src/core/src/obf.cpp, and its theorems at concrete inputs.
use irods_client_library_cpp.Base.{
  ◌≡◌, ◌≢◌, refl, true, false, arith, Bytes, codes, replicate, starts_with,
}
use irods_client_library_cpp.Obf.Wheel.{wheel_at, wheel_index}
use irods_client_library_cpp.Obf.Key.{
  Config, hash_md5, obf_encode_by_key, obf_decode_by_key, fill_buffer, encode_loop,
  obf_make_one_way_hash, overlay, key_buf, next_key,
}
use irods_client_library_cpp.Obf.Key.RoundTrip.{decode-encode_by_key, decode-encode_by_key_clash}

-- Digests that are long enough and turn the wheel by 7.
abbrev sevens : Config
sevens = record {
  md5 = λ x. replicate 16 7;
  sha1 = λ x. replicate 20 7;
  default_hash_type = hash_md5;
  cipher_block_chaining = true;
}

abbrev zeros : Config
zeros = record {
  md5 = λ x. replicate 16 0;
  sha1 = λ x. replicate 20 0;
  default_hash_type = hash_md5;
  cipher_block_chaining = false;
}

abbrev stack : Bytes
stack = replicate 48 255

unchained :
    obf_encode_by_key
      (record sevens { cipher_block_chaining = false })
      stack
      (codes "ab z")
      (codes "key")
    ≡ codes "hi '"
unfolding obf_encode_by_key fill_buffer encode_loop obf_make_one_way_hash overlay key_buf next_key
    wheel_at wheel_index
unchained = refl

decode-encode_by_key_example :
    obf_decode_by_key sevens
      (obf_encode_by_key sevens stack (codes "p4ss word") (codes "key"))
      (codes "key")
    ≡ codes "p4ss word"
unfolding obf_encode_by_key fill_buffer encode_loop obf_make_one_way_hash overlay key_buf next_key
    wheel_at wheel_index starts_with
decode-encode_by_key_example =
    decode-encode_by_key sevens stack (codes "p4ss word") (codes "key") (λ x. omega arith)
      (λ x. omega arith) refl

decode-encode_by_key_clash_example :
    obf_decode_by_key zeros
      (obf_encode_by_key zeros stack (codes "sha1") (codes "key"))
      (codes "key")
    ≢ codes "sha1"
unfolding obf_encode_by_key fill_buffer encode_loop obf_make_one_way_hash overlay key_buf next_key
    wheel_at wheel_index starts_with
decode-encode_by_key_clash_example =
    decode-encode_by_key_clash zeros stack (codes "sha1") (codes "key") refl refl
