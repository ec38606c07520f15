-- ===== src/Base64/Tests.antt =====
-- Tests of src/core/src/base64.cpp, and its theorems at concrete inputs.
use irods_client_library_cpp.Base.{
  ok, err, ◌≡◌, ◌≤◌, ◌<◌, ◌*◌, ◌/◌, ◌+◌, ◌⊎◌, All, refl, arith, Bytes, codes, length,
}
use irods_client_library_cpp.Base64.{
  base64_buffer_overflow, base64_invalid_packet, code_at, mymap, encode_groups, base64_encode,
  group_bytes, shift_in, step, steps, finish, base64_decode,
}
use irods_client_library_cpp.Base64.RoundTrip.{decode-encode_base64}
use irods_client_library_cpp.Base64.Decode.{pads, base64_decode_fits}
use irods_client_library_cpp.Base64.Encode.{InAlphabet, base64_encode_lem}

known_text : base64_encode (codes "iRODS") 9 ≡ ok (codes "aVJPRFM=")
unfolding base64_encode encode_groups code_at
known_text = refl

no_room : base64_encode (codes "iRODS") 8 ≡ err base64_buffer_overflow
unfolding base64_encode
no_room = refl

pad_inside : base64_decode (codes "aVJP=RFM") 9 ≡ err base64_invalid_packet
unfolding base64_decode steps step shift_in mymap finish group_bytes
pad_inside = refl

decode-encode_base64_example : base64_decode (codes "aVJPRFM=") 5 ≡ ok (codes "iRODS")
decode-encode_base64_example =
    decode-encode_base64 (codes "iRODS") (codes "aVJPRFM=") 9 5 (omega arith) known_text
      (omega arith)

base64_decode_fits_example : length (codes "iRODS") ≤ 6
unfolding base64_decode steps step shift_in mymap finish group_bytes pads
base64_decode_fits_example =
    base64_decode_fits (codes "aVJPRFM=") (codes "iRODS") 6 (omega arith) refl

base64_encode_lem_example :
    ((8 ≤ 4 * ((length (codes "iRODS") + 2) / 3))
      × (base64_encode (codes "iRODS") 8 ≡ err base64_buffer_overflow))
    ⊎ ((out : Bytes) × (base64_encode (codes "iRODS") 8 ≡ ok out)
        × (length out ≡ 4 * ((length (codes "iRODS") + 2) / 3))
        × (length out < 8)
        × All InAlphabet out)
base64_encode_lem_example = base64_encode_lem (codes "iRODS") 8
