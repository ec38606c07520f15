-- ===== src/Pack/Escape/RoundTrip.antt =====
-- Text that strToXmlStr escapes is read back by xmlStrToStr, with whatever follows it.
use irods_client_library_cpp.Base.{
  ℕ, zero, suc, ◌+◌, ◌-◌, ◌<◌, ◌==◌, ltb, ◌≡◌, refl, sym, ap, ap₂, subst, ◌∙◌, ◌≢◌, ◌⊎◌, inl, inr,
  true, false, none, some, [], ◌∷◌, ◌++◌, append-nil, append_assoc, Bytes, codes, starts_with,
  length, take, drop, take-length, get_or-middle, drop-middle, lt→ltb, get_or, length-append,
  drop-append, All-append, Lacks, arith, Bool-cases, Option-cases,
}
use irods_client_library_cpp.Pack.Escape.{
  slice, c_str, entity, str_to_xml_loop, str_to_xml_str, entity_at, xml_str_to_str_loop,
  xml_str_to_str,
}

-- The text with each byte replaced by itself: what the loop is to write.
unfoldable pub escaped : ℕ → Bytes
escaped c = elim (entity c) [ some e ↦ e | none ↦ c ∷ [] ]

unfoldable pub escape_all : Bytes → Bytes
escape_all [] = []
escape_all (c ∷ s) = escaped c ++ escape_all s

pub c_str-Lacks : (s : Bytes) → Lacks 0 s → c_str s ≡ s
unfolding c_str
c_str-Lacks [] _ = refl
c_str-Lacks (c ∷ s) (h, k) = ground (arith, c_str-Lacks s k)

slice-middle :
    (pre mid post : Bytes) (i j : ℕ)
    → length pre ≡ i
    → length pre + length mid ≡ j
    → slice (pre ++ (mid ++ post)) i j ≡ mid
unfolding slice
slice-middle pre mid post i j ei ej =
    let n : j - i ≡ length mid = omega arith in
    rw (n, ← ei, drop-append pre (mid ++ post)) (take-length mid post)

slice-all : (s : Bytes) (n : ℕ) → length s ≡ n → slice s 0 n ≡ s
unfolding slice
slice-all s n e =
    let m : n - 0 ≡ length s = omega arith in
    rw m (ap (take (length s)) (sym (append-nil s)) ∙ take-length s [])

Lacks-front : (front back : Bytes) → Lacks 0 (front ++ back) → Lacks 0 front
Lacks-front [] back _ = tt
Lacks-front (c ∷ front) back (h, k) = (h, Lacks-front front back k)

str_to_xml_loop-escape_all :
    (pre mid rest s xml : Bytes) (copy_from i : ℕ)
    → s ≡ pre ++ (mid ++ rest)
    → length pre ≡ copy_from
    → length pre + length mid ≡ i
    → str_to_xml_loop s copy_from i xml rest ≡ xml ++ (mid ++ escape_all rest)
unfolding str_to_xml_loop escape_all escaped
str_to_xml_loop-escape_all pre mid [] s xml cf i es ef ei =
    rw (es, slice-middle pre mid [] cf i ef ei, append-nil mid) refl
str_to_xml_loop-escape_all pre mid (c ∷ rest) s xml cf i es ef ei = elim (Option-cases (entity c)) [
  | inl h ↦
      rw (h, str_to_xml_loop, escape_all, escaped)
        (str_to_xml_loop-escape_all pre (mid ++ c ∷ []) rest s xml cf (i + 1)
            (simp (es, append_assoc)) ef (omega (arith, ei, length-append mid (c ∷ [])))
          ∙ simp (append_assoc))
  | inr (e, h) ↦
      rw (h, str_to_xml_loop, escape_all, escaped, es, slice-middle pre mid (c ∷ rest) cf i ef ei)
        (str_to_xml_loop-escape_all (pre ++ (mid ++ c ∷ [])) [] rest _ (xml ++ (mid ++ e)) (i + 1)
            (i + 1) (simp (es, append_assoc))
            (omega (arith, ei, length-append pre (mid ++ c ∷ []), length-append mid (c ∷ [])))
            (omega (arith, ei, length-append pre (mid ++ c ∷ []), length-append mid (c ∷ [])))
          ∙ simp (append_assoc))
]

-- An entity is '&' and a text that is recognised behind it; no other byte is '&'.
abbrev Split : ℕ → Type 0
Split c =
    ((entity c ≡ none) × ((c == b'&') ≡ false))
    ⊎ ((e : Bytes) × (entity c ≡ some (b'&' ∷ e))
        × ((t : Bytes) → entity_at (e ++ t) ≡ some (c, length e)))

at_byte : (b c : ℕ) → Split b → ((c == b) ≡ false → Split c) → Split c
at_byte b c here other = elim (Bool-cases (c == b)) [
  | inl h ↦ let e : b ≡ c = ground arith in subst Split e here
  | inr h ↦ other h
]

entity-Split : (c : ℕ) → Split c
unfolding entity entity_at starts_with
entity-Split c = at_byte b'&' c (inr (codes "amp;", refl, λ t. refl)) λ h1.
    at_byte b'<' c (inr (codes "lt;", refl, λ t. refl)) λ h2.
      at_byte b'>' c (inr (codes "gt;", refl, λ t. refl)) λ h3.
        at_byte b'"' c (inr (codes "quot;", refl, λ t. refl)) λ h4.
          at_byte b'`' c (inr (codes "apos;", refl, λ t. refl))
            λ h5. inl (ground (arith, h1, h2, h3, h4, h5))

module _ (fuel : ℕ) (s : Bytes) (len cf i : ℕ) (out : Bytes) where
  pub loop_end :
      ltb i len ≡ false
      → xml_str_to_str_loop (suc fuel) s len cf i out ≡ some (out ++ slice s cf len)
  unfolding xml_str_to_str_loop
  loop_end h = ground arith

  pub loop_plain :
      ltb i len ≡ true
      → (get_or s i 0 == b'&') ≡ false
      → xml_str_to_str_loop (suc fuel) s len cf i out
        ≡ xml_str_to_str_loop fuel s len cf (i + 1) out
  unfolding xml_str_to_str_loop
  loop_plain h k = ground arith

  pub loop_entity :
      {c skip : ℕ}
      → ltb i len ≡ true
      → (get_or s i 0 == b'&') ≡ true
      → entity_at (drop (i + 1) s) ≡ some (c, skip)
      → xml_str_to_str_loop (suc fuel) s len cf i out
        ≡ xml_str_to_str_loop fuel s len
            (i + skip + 1)
            (i + skip + 1)
            ((out ++ slice s cf i) ++ c ∷ [])
  unfolding xml_str_to_str_loop
  loop_entity h k e = ground (arith, e)

  pub loop_unknown :
      ltb i len ≡ true
      → (get_or s i 0 == b'&') ≡ true
      → entity_at (drop (i + 1) s) ≡ none
      → xml_str_to_str_loop (suc fuel) s len cf i out
        ≡ some ((out ++ slice s cf i) ++ slice s cf len)
  unfolding xml_str_to_str_loop
  loop_unknown h k e = ground (arith, e)

module _ (c : ℕ) (r : Bytes) where
  escape_all-none : entity c ≡ none → escape_all (c ∷ r) ≡ c ∷ escape_all r
  unfolding escape_all escaped
  escape_all-none h = rw (h, escape_all, escaped) refl

  escape_all-some : {e : Bytes} → entity c ≡ some e → escape_all (c ∷ r) ≡ e ++ escape_all r
  unfolding escape_all escaped
  escape_all-some h = rw (h, escape_all, escaped) refl

-- What the loop sees at index `i`, the text being known from there on.
module _ (front : Bytes) (c : ℕ) (back s : Bytes) (i : ℕ) (es : s ≡ front ++ c ∷ back) where
  byte_at : length front ≡ i → get_or s i 0 ≡ c
  byte_at e = rw es (get_or-middle front c back 0 i e)

  behind : length front ≡ i → drop (i + 1) s ≡ back
  behind e = rw es (drop-middle front c back i e)

xml_loop-escape_all :
    (r pre mid tail s out : Bytes) (fuel len cf i : ℕ)
    → s ≡ pre ++ (mid ++ (escape_all r ++ tail))
    → length pre ≡ cf
    → length pre + length mid ≡ i
    → i + length (escape_all r) ≡ len
    → length (escape_all r) < fuel
    → xml_str_to_str_loop fuel s len cf i out ≡ some (out ++ (mid ++ r))
unfolding escape_all
xml_loop-escape_all r pre mid tail s out zero len cf i es ef ei el low = elim low [ ]
xml_loop-escape_all [] pre mid tail s out (suc fuel) len cf i es ef ei el low =
    loop_end fuel s len cf i out (ground (arith, el))
    ∙ ap (λ m. some (out ++ m))
        ((rw es (slice-middle pre mid tail cf len ef (omega (arith, el, ei))))
          ∙ sym (append-nil mid))
xml_loop-escape_all (c ∷ r) pre mid tail s out (suc fuel) len cf i es ef ei el low =
    let n : length (pre ++ mid) ≡ i = omega (arith, length-append pre mid) in
    elim (entity-Split c) [
      | inl (h, k) ↦
          let q = escape_all-none c r h in
          let at =
            byte_at (pre ++ mid) c (escape_all r ++ tail) s i (es ∙ simp (q, append_assoc)) n in
          let m : length (escape_all (c ∷ r)) ≡ suc (length (escape_all r)) = ap length q in
          loop_plain fuel s len cf i out (lt→ltb i len (omega (arith, m, el))) (rw at k)
          ∙ xml_loop-escape_all r pre (mid ++ c ∷ []) tail s out fuel len cf (i + 1)
              (es ∙ simp (q, append_assoc)) ef (omega (arith, ei, length-append mid (c ∷ [])))
              (omega (arith, m, el)) (omega (arith, m, low))
          ∙ simp (append_assoc)
      | inr (e, h, known) ↦
          let q = escape_all-some c r h in
          let es' : s ≡ (pre ++ mid) ++ b'&' ∷ (e ++ (escape_all r ++ tail)) =
            es ∙ simp (q, append_assoc) in
          let at = byte_at (pre ++ mid) b'&' (e ++ (escape_all r ++ tail)) s i es' n in
          let rest = behind (pre ++ mid) b'&' (e ++ (escape_all r ++ tail)) s i es' n in
          let m : length (escape_all (c ∷ r)) ≡ suc (length e + length (escape_all r)) =
            ap length q ∙ ap suc (length-append e (escape_all r)) in
          let l : length (pre ++ (mid ++ b'&' ∷ e)) ≡ i + length e + 1 =
            omega (arith, length-append pre (mid ++ b'&' ∷ e), length-append mid (b'&' ∷ e), ei) in
          let w : slice s cf i ≡ mid =
            rw es (slice-middle pre mid (escape_all (c ∷ r) ++ tail) cf i ef ei) in
          loop_entity fuel s len cf i out (lt→ltb i len (omega (arith, m, el))) (rw at refl)
            (rw rest (known (escape_all r ++ tail)))
          ∙ xml_loop-escape_all r (pre ++ (mid ++ b'&' ∷ e)) [] tail s
              ((out ++ slice s cf i) ++ c ∷ []) fuel len (i + length e + 1) (i + length e + 1)
              (es' ∙ simp (append_assoc)) l (omega (arith, l)) (omega (arith, m, el))
              (omega (arith, m, low))
          ∙ ap (λ v. some (((out ++ v) ++ c ∷ []) ++ r)) w
          ∙ simp (append_assoc)
    ]

Lacks-escaped : (c : ℕ) → c ≢ 0 → Lacks 0 (escaped c)
unfolding escaped entity
Lacks-escaped c h = ground arith

pub Lacks-escape_all : (s : Bytes) → Lacks 0 s → Lacks 0 (escape_all s)
unfolding escape_all
Lacks-escape_all [] _ = tt
Lacks-escape_all (c ∷ s) (h, k) =
    All-append _ (escaped c) (escape_all s) (Lacks-escaped c h) (Lacks-escape_all s k)

pub str_to_xml_str-escape_all : (s : Bytes) → Lacks 0 s → str_to_xml_str s ≡ escape_all s
unfolding str_to_xml_str
str_to_xml_str-escape_all s h =
    ap c_str (str_to_xml_loop-escape_all [] [] s s [] 0 0 refl refl refl)
    ∙ c_str-Lacks (escape_all s) (Lacks-escape_all s h)

-- A C string that strToXmlStr has escaped is read back by xmlStrToStr, whatever bytes follow it.
pub xml_str_to_str-str_to_xml_str :
    (s tail : Bytes)
    → Lacks 0 s
    → xml_str_to_str (str_to_xml_str s ++ tail) (length (str_to_xml_str s)) ≡ some s
unfolding xml_str_to_str
xml_str_to_str-str_to_xml_str s tail h =
    let run =
      xml_loop-escape_all s [] [] tail (escape_all s ++ tail) [] (length (escape_all s) + 1)
        (length (escape_all s)) 0 0 refl refl refl (omega arith) (omega arith) in
    rw (str_to_xml_str-escape_all s h, xml_str_to_str, run) (ap some (c_str-Lacks s h))

unknown_run :
    (rest mid back s out : Bytes) (fuel len i : ℕ)
    → s ≡ mid ++ (rest ++ b'&' ∷ back)
    → Lacks b'&' rest
    → entity_at back ≡ none
    → length mid ≡ i
    → length s ≡ len
    → length rest < fuel
    → xml_str_to_str_loop fuel s len 0 i out ≡ some ((out ++ (mid ++ rest)) ++ s)
unknown_run rest mid back s out zero len i es lacks un ei el low = elim low [ ]
unknown_run [] mid back s out (suc fuel) len i es lacks un ei el low =
    let n : length s ≡ length mid + suc (length back) =
      ap length es ∙ length-append mid (b'&' ∷ back) in
    let w : slice s 0 i ≡ mid =
      rw es (slice-middle [] mid (b'&' ∷ back) 0 i refl (omega (arith, ei))) in
    loop_unknown fuel s len 0 i out (lt→ltb i len (omega (arith, n)))
      (rw (byte_at mid b'&' back s i es ei) refl) (rw (behind mid b'&' back s i es ei) un)
    ∙ ap₂ (λ v u. some ((out ++ v) ++ u)) (w ∙ sym (append-nil mid)) (slice-all s len el)
unknown_run (c ∷ rest) mid back s out (suc fuel) len i es (h, lacks) un ei el low =
    let n : length s ≡ length mid + suc (length (rest ++ b'&' ∷ back)) =
      ap length es ∙ length-append mid (c ∷ (rest ++ b'&' ∷ back)) in
    let at = byte_at mid c (rest ++ b'&' ∷ back) s i es ei in
    loop_plain fuel s len 0 i out (lt→ltb i len (omega (arith, n))) (rw at (ground arith))
    ∙ unknown_run rest (mid ++ c ∷ []) back s out fuel len (i + 1) (es ∙ simp (append_assoc)) lacks
        un (omega (arith, ei, length-append mid (c ∷ []))) el (omega (arith, low))
    ∙ simp (append_assoc)

-- Where the first '&' begins none of the five entities, the text before it is written twice.
pub xml_str_to_str_unknown :
    (front back : Bytes)
    → Lacks b'&' front
    → Lacks 0 (front ++ b'&' ∷ back)
    → entity_at back ≡ none
    → xml_str_to_str (front ++ b'&' ∷ back) (length (front ++ b'&' ∷ back))
      ≡ some (front ++ (front ++ b'&' ∷ back))
unfolding xml_str_to_str
xml_str_to_str_unknown front back lacks text un =
    let s : Bytes = front ++ b'&' ∷ back in
    let n : length s ≡ length front + suc (length back) = length-append front (b'&' ∷ back) in
    let run =
      unknown_run front [] back s [] (length s + 1) (length s) 0 refl lacks un refl refl
        (omega (arith, n)) in
    rw (xml_str_to_str, run)
      (ap some (c_str-Lacks (front ++ s) (All-append _ front s (Lacks-front front _ text) text)))
