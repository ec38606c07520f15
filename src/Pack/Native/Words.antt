-- ===== src/Pack/Native/Words.antt =====
-- Integers of the native protocol: packed and unpacked again they have their bytes.
use irods_client_library_cpp.Base.{
  ℕ, ◌+◌, ◌-◌, ◌*◌, ◌%◌, ◌≤◌, ◌<◌, ◌≡◌, refl, sym, ap, ap₂, subst, ◌∙◌, Bool, true, Option, some,
  [], ◌++◌, append-nil, append_assoc, Bytes, length, take, drop, length-take, length-drop,
  take-take, take-append_add, drop-append, take-append-drop, take-length, ok, arith,
}
use irods_client_library_cpp.Pack.Output.{PackedOutput, extend_packed_output, emit}
use irods_client_library_cpp.Pack.Output.Append.{
  IsValid, contents, extend_packed_output-Extended, extend_packed_output_total, emit-Appends,
  written, written-contents,
}
use irods_client_library_cpp.Pack.Native.{
  move, reversed, my_htonll, swapped, words_of, status_of, first_value, align_to, Packed,
  pack_words, pack_int, pack_int16, pack_double, unpack_words, unpack_int, unpack_int16,
  unpack_double,
}
use irods_client_library_cpp.Pack.Native.Order.{
  IsOrder, reversed-IsOrder, my_htonll-IsOrder, length-swapped, swapped_twice, align_to_lem,
}

-- Packing the integers at a pointer and unpacking what was sent.
pub record RoundTrip (width : ℕ) (pack unpack : Option Bytes → PackedOutput → ℕ → Packed)
    (o u : PackedOutput) (n : ℕ) (m rest : Bytes) : Type 0 where
  pub sent : PackedOutput
  pub received : PackedOutput
  pub stream : Bytes
  pub pad : Bytes
  pub status : ℕ
  pub packs : pack (some m) o n ≡ ok (status, some (drop (width * n) m), sent)
  pub sends : IsValid sent × (contents sent ≡ contents o ++ stream)
  pub unpacks : unpack (some (stream ++ rest)) u n ≡ ok (status, some rest, received)
  pub receives : IsValid received × (contents received ≡ contents u ++ (pad ++ take (width * n) m))
  pub aligned : (u.len + length pad) % width ≡ 0

take_whole : (xs : Bytes) (n : ℕ) → length xs ≡ n → take n xs ≡ xs
take_whole xs n e = ap₂ take (sym e) (sym (append-nil xs)) ∙ take-length xs []

-- The bytes in use, and those up to a later index.
contents_to :
    (o : PackedOutput) (at : ℕ)
    → IsValid o
    → o.len ≤ at
    → contents (record o { len = at }) ≡ contents o ++ take (at - o.len) (drop o.len o.buf)
unfolding contents
contents_to o at (hl, hb) h =
    let n : at ≡ length (take o.len o.buf) + (at - o.len) =
      omega (arith, length-take o.len o.buf) in
    ap₂ take n (sym (take-append-drop o.len o.buf))
    ∙ take-append_add (take o.len o.buf) (drop o.len o.buf) (at - o.len)

module _ (width : ℕ) (order : Bytes → Bytes) (realloc : ℕ → Bool) where
  pack_words_step :
      (m : Bytes) (o o' : PackedOutput) (n : ℕ)
      → emit realloc o (width * n) (swapped order width n m) (width * n) ≡ ok o'
      → pack_words realloc order width (some m) o n
        ≡ ok (status_of width (take width m), some (drop (width * n) m), o')
  unfolding pack_words words_of first_value move
  pack_words_step m o o' n h = rw h refl

  unpack_words_step :
      (m words : Bytes) (u u1 : PackedOutput) (n : ℕ)
      → extend_packed_output realloc u (width * (n + 1)) ≡ ok u1
      → swapped order width n m ≡ words
      → unpack_words realloc order width (some m) u n
        ≡ ok (
          status_of width (take width words),
          some (drop (width * n) m),
          written (record u1 { len = align_to width u1.len }) words (width * n),
        )
  unfolding unpack_words words_of move written
  unpack_words_step m words u u1 n h e = rw (h, e) refl

  -- What is written at the aligned index is within the room of one integer more.
  written_aligned :
      (u u1 : PackedOutput) (n : ℕ) (words : Bytes)
      → IsValid u
      → extend_packed_output realloc u (width * (n + 1)) ≡ ok u1
      → 0 < width
      → length words ≡ width * n
      → let out : PackedOutput =
          written (record u1 { len = align_to width u1.len }) words (width * n) in
        let pad : Bytes = take (align_to width u1.len - u1.len) (drop u1.len u1.buf) in
        IsValid out
        × (contents out ≡ contents u ++ (pad ++ words))
        × ((u.len + length pad) % width ≡ 0)
  written_aligned u u1 n words vu e hw hn =
      let ((v1, b1), c1, l1, room) =
        extend_packed_output-Extended realloc u u1 (width * (n + 1)) vu e in
      let at : ℕ = align_to width u1.len in
      let pad : Bytes = take (at - u1.len) (drop u1.len u1.buf) in
      let (a0, a1, a2) = align_to_lem width u1.len hw in
      let split : width * (n + 1) ≡ width * n + width = grind arith in
      let (w, d) =
        written-contents (record u1 { len = at }) words (width * n)
          (v1, omega (arith, a2, room, split, l1)) (omega (arith, a2, room, split, l1, hn))
          (omega (arith, hn)) in
      let p : u.len + length pad ≡ at = omega (
        arith,
        length-take (at - u1.len) (drop u1.len u1.buf),
        length-drop u1.len u1.buf,
        a2,
        room,
        split,
        l1,
      ) in
      (
        w,
        d
            ∙ ap₂ ◌++◌ (contents_to u1 at (v1, b1) a1 ∙ ap (λ x. x ++ pad) c1)
                (take_whole words (width * n) hn)
            ∙ append_assoc (contents u) pad words,
        ap (λ k. k % width) p ∙ a0,
      )

module _ (width : ℕ) (order : Bytes → Bytes) (is : IsOrder width order) where
  words-RoundTrip :
      (realloc : ℕ → Bool) (o u : PackedOutput) (n : ℕ) (m rest : Bytes)
      → ((k : ℕ) → realloc k ≡ true)
      → IsValid o
      → IsValid u
      → 0 < width
      → 0 < n
      → width * n ≤ length m
      → RoundTrip width
          (pack_words realloc order width)
          (unpack_words realloc order width)
          o
          u
          n
          m
          rest
  words-RoundTrip realloc o u n m rest mem vo vu hw hn hm =
      let stream : Bytes = swapped order width n m in
      let l = length-swapped width order is n m hm in
      let p =
        emit-Appends realloc o (width * n) stream (width * n) mem vo (omega (arith, l))
          (omega (arith, l)) in
      let (u1, e) = extend_packed_output_total realloc u (width * (n + 1)) mem in
      let words : Bytes = take (width * n) m in
      let lw : length words ≡ width * n = omega (arith, length-take (width * n) m) in
      let back = swapped_twice width order is n m rest hm in
      let one : width ≤ width * n = grind arith in
      let (v, c, a) = written_aligned width order realloc u u1 n words vu e hw lw in
      let received : PackedOutput =
        written (record u1 { len = align_to width u1.len }) words (width * n) in
      record {
        sent = p.out;
        received = received;
        stream = stream;
        pad = take (align_to width u1.len - u1.len) (drop u1.len u1.buf);
        status = status_of width (take width m);
        packs = pack_words_step width order realloc m o p.out n p.returns;
        sends = (p.valid, p.appended ∙ ap (λ x. contents o ++ x) (take_whole stream (width * n) l));
        unpacks =
            unpack_words_step width order realloc (stream ++ rest) words u u1 n e back
            ∙ ap₂ (λ a b. ok (status_of width a, some b, received))
                (take-take width (width * n) m one)
                (subst (λ k. drop k (stream ++ rest) ≡ rest) l (drop-append stream rest));
        receives = (v, c);
        aligned = a;
      }

module _ (realloc : ℕ → Bool) (o u : PackedOutput) (n : ℕ) (m rest : Bytes) (hn : 0 < n) where
  int_RoundTrip :
      (width : ℕ) (order : Bytes → Bytes) {pack unpack : Option Bytes → PackedOutput → ℕ → Packed}
      → pack (some m) o n ≡ pack_words realloc order width (some m) o n
      → ((s : Option Bytes) → unpack s u n ≡ unpack_words realloc order width s u n)
      → RoundTrip width
          (pack_words realloc order width)
          (unpack_words realloc order width)
          o
          u
          n
          m
          rest
      → RoundTrip width pack unpack o u n m rest
  int_RoundTrip width order ep eu r = record {
    sent = r.sent;
    received = r.received;
    stream = r.stream;
    pad = r.pad;
    status = r.status;
    packs = ep ∙ r.packs;
    sends = r.sends;
    unpacks = eu _ ∙ r.unpacks;
    receives = r.receives;
    aligned = r.aligned;
  }

  double_RoundTrip :
      RoundTrip 8 (pack_words realloc my_htonll 8) (unpack_words realloc my_htonll 8) o u n m rest
      → RoundTrip 8 (pack_double realloc) (unpack_double realloc) o u n m rest
  unfolding pack_double unpack_double
  double_RoundTrip r = record {
    sent = r.sent;
    received = r.received;
    stream = r.stream;
    pad = r.pad;
    status = 0;
    packs = ground (arith, r.packs);
    sends = r.sends;
    unpacks = ground (arith, r.unpacks);
    receives = r.receives;
    aligned = r.aligned;
  }

-- A positive number of integers of 4, 2 or 8 bytes that are packed natively and unpacked, from a
-- stream that may go on, are the same bytes behind at most some padding, at an aligned index; both
-- sides return the same status and leave their input behind the integers.
pub native_integers-RoundTrip :
    (realloc : ℕ → Bool) (o u : PackedOutput) (n : ℕ) (m rest : Bytes)
    → ((k : ℕ) → realloc k ≡ true)
    → IsValid o
    → IsValid u
    → 0 < n
    → 8 * n ≤ length m
    → RoundTrip 4 (pack_int realloc) (unpack_int realloc) o u n m rest
      × RoundTrip 2 (pack_int16 realloc) (unpack_int16 realloc) o u n m rest
      × RoundTrip 8 (pack_double realloc) (unpack_double realloc) o u n m rest
unfolding pack_int unpack_int pack_int16 unpack_int16
native_integers-RoundTrip realloc o u n m rest mem vo vu hn hm = (
  int_RoundTrip realloc o u n m rest hn 4 reversed (ground arith) (λ s. ground arith)
      (words-RoundTrip 4 reversed (reversed-IsOrder 4) realloc o u n m rest mem vo vu (omega arith)
        hn (omega arith)),
  int_RoundTrip realloc o u n m rest hn 2 reversed (ground arith) (λ s. ground arith)
      (words-RoundTrip 2 reversed (reversed-IsOrder 2) realloc o u n m rest mem vo vu (omega arith)
        hn (omega arith)),
  double_RoundTrip realloc o u n m rest hn (
      words-RoundTrip 8 my_htonll my_htonll-IsOrder realloc o u n m rest mem vo vu (omega arith) hn
        (omega arith)),
)
