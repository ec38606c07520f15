-- ===== src/Pack/Escape/Total.antt =====
-- The loop of xmlStrToStr ends, on any bytes.
use irods_client_library_cpp.Base.{
  ℕ, zero, suc, ◌+◌, ◌<◌, ◌==◌, ltb, ◌≡◌, refl, ◌∙◌, some, [], ◌∷◌, ◌++◌, Bytes, get_or, drop, inl,
  inr, Bool-cases, Option-cases, arith,
}
use irods_client_library_cpp.Pack.Escape.{
  slice, c_str, entity_at, xml_str_to_str_loop, xml_str_to_str,
}
use irods_client_library_cpp.Pack.Escape.RoundTrip.{loop_end, loop_plain, loop_entity, loop_unknown}

loop_total :
    (fuel : ℕ) (s : Bytes) (len cf i : ℕ) (out : Bytes)
    → 0 < fuel
    → len < i + fuel
    → (r : Bytes) × (xml_str_to_str_loop fuel s len cf i out ≡ some r)
loop_total zero s len cf i out pos h = elim pos [ ]
loop_total (suc fuel) s len cf i out pos h = elim (Bool-cases (ltb i len)) [
  | inr stop ↦ (out ++ slice s cf len, loop_end fuel s len cf i out stop)
  | inl more ↦ elim (Bool-cases (get_or s i 0 == b'&')) [
    | inr other ↦
        let (r, e) = loop_total fuel s len cf (i + 1) out (ground (arith, more)) (omega arith) in
        (r, loop_plain fuel s len cf i out more other ∙ e)
    | inl amp ↦ elim (Option-cases (entity_at (drop (i + 1) s))) [
      | inl lost ↦
          ((out ++ slice s cf i) ++ slice s cf len, loop_unknown fuel s len cf i out more amp lost)
      | inr ((c, skip), known) ↦
          let (r, e) =
            loop_total fuel s len (i + skip + 1) (i + skip + 1) ((out ++ slice s cf i) ++ c ∷ [])
              (ground (arith, more)) (omega arith) in
          (r, loop_entity fuel s len cf i out more amp known ∙ e)
    ]
  ]
]

-- Fuel for one round more than there are bytes is enough: xmlStrToStr gives a text for any bytes
-- and any length.
xml_str_to_str_total : (s : Bytes) (len : ℕ) → (out : Bytes) × (xml_str_to_str s len ≡ some out)
unfolding xml_str_to_str
xml_str_to_str_total s len =
    let (r, e) = loop_total (len + 1) s len 0 0 [] (omega arith) (omega arith) in
    (c_str r, rw (xml_str_to_str, e) refl)
