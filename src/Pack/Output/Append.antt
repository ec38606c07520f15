-- ===== src/Pack/Output/Append.antt =====
-- What a packed output promises: the bytes in use, to which every routine appends.
use irods_client_library_cpp.Base.{
  ℕ, ◌+◌, ◌-◌, ◌≤◌, ◌≡◌, refl, sym, ap, subst, ◌∙◌, Bool, true, false, [], ◌∷◌, ◌++◌, append_assoc,
  Bytes, leb, length, take, drop, replicate, set, length-append, length-take, length-replicate,
  length-set, take-append_le, take-append_add, take-length, Result, err, ok, arith, length-drop,
  take-append-drop, ap₂, leb→le, Bool-cases, inl, inr,
}
use irods_client_library_cpp.Pack.Output.{
  PackedOutput, Error, sys_malloc_err, new_buf_size, grow, extend_packed_output, memcpy, emit,
}

abbrev pub IsValid : PackedOutput → Type 0
IsValid o = (length o.buf ≡ o.buf_size) × (o.len ≤ o.buf_size)

unfoldable pub contents : PackedOutput → Bytes
contents o = take o.len o.buf

-- The abstract view: the output is its contents, and a routine appends `bs` to them.
pub record Appends (r : Result Error PackedOutput) (o : PackedOutput) (bs : Bytes) : Type 0 where
  pub out : PackedOutput
  pub returns : r ≡ ok out
  pub valid : IsValid out
  pub appended : contents out ≡ contents o ++ bs

grow-IsValid :
    (o : PackedOutput) (size : ℕ)
    → IsValid o
    → o.len ≤ size
    → IsValid (grow o size) × (contents (grow o size) ≡ contents o)
unfolding grow contents
grow-IsValid o size (hl, hb) h =
    let n : length (take o.len o.buf) ≡ o.len = omega (arith, length-take o.len o.buf) in
    (
      (
        omega (
          arith,
          n,
          length-append (take o.len o.buf) (replicate (size - o.len) 0),
          length-replicate {A = ℕ} (size - o.len) 0,
        ),
        h,
      ),
      subst (λ k. take k (take o.len o.buf ++ replicate (size - o.len) 0) ≡ take o.len o.buf) n
          (take-length (take o.len o.buf) (replicate (size - o.len) 0)),
    )

-- What is asked for fits in the new size.
new_buf_size-le : (o : PackedOutput) (n : ℕ) → n ≤ new_buf_size o n
unfolding new_buf_size
new_buf_size-le o n = ground arith

-- What extendPackedOutput leaves behind.
abbrev pub Extended : PackedOutput → ℕ → PackedOutput → Type 0
Extended o ext_len o' =
    IsValid o' × (contents o' ≡ contents o) × (o'.len ≡ o.len) × (o.len + ext_len ≤ o'.buf_size)

module _ (realloc : ℕ → Bool) where
  extend_fits :
      (o : PackedOutput) (n : ℕ)
      → leb (o.len + n) o.buf_size ≡ true
      → extend_packed_output realloc o n ≡ ok o
  unfolding extend_packed_output
  extend_fits o n h = ground arith

  extend_grows :
      (o : PackedOutput) (n : ℕ)
      → leb (o.len + n) o.buf_size ≡ false
      → realloc (new_buf_size o (o.len + n)) ≡ true
      → extend_packed_output realloc o n ≡ ok (grow o (new_buf_size o (o.len + n)))
  unfolding extend_packed_output
  extend_grows o n h k = ground (arith, k)

  extend_fails :
      (o : PackedOutput) (n : ℕ)
      → leb (o.len + n) o.buf_size ≡ false
      → realloc (new_buf_size o (o.len + n)) ≡ false
      → extend_packed_output realloc o n ≡ err sys_malloc_err
  unfolding extend_packed_output
  extend_fails o n h k = ground (arith, k)

  grow-Extended :
      (o : PackedOutput) (n : ℕ) → IsValid o → Extended o n (grow o (new_buf_size o (o.len + n)))
  unfolding grow
  grow-Extended o n v =
      let room = new_buf_size-le o (o.len + n) in
      let (w, c) = grow-IsValid o (new_buf_size o (o.len + n)) v (omega (arith, room)) in
      (w, c, refl, room)

  -- The room that is made is within the buffer, whose contents are kept.
  pub extend_packed_output-Extended :
      (o o' : PackedOutput) (ext_len : ℕ)
      → IsValid o
      → extend_packed_output realloc o ext_len ≡ ok o'
      → Extended o ext_len o'
  extend_packed_output-Extended o o' n v e = elim (Bool-cases (leb (o.len + n) o.buf_size)) [
    | inl h ↦
        let same : o ≡ o' = cc (e, extend_fits o n h) in
        subst (Extended o n) same (v, refl, refl, leb→le _ _ h)
    | inr h ↦ elim (Bool-cases (realloc (new_buf_size o (o.len + n)))) [
      | inl k ↦
          let same : grow o (new_buf_size o (o.len + n)) ≡ o' = cc (e, extend_grows o n h k) in
          subst (Extended o n) same (grow-Extended o n v)
      | inr k ↦ cc (e, extend_fails o n h k)
    ]
  ]

-- Where memory is to be had there is an output with the room.
pub extend_packed_output_total :
    (realloc : ℕ → Bool) (o : PackedOutput) (n : ℕ)
    → ((k : ℕ) → realloc k ≡ true)
    → (o' : PackedOutput) × (extend_packed_output realloc o n ≡ ok o')
extend_packed_output_total realloc o n mem = elim (Bool-cases (leb (o.len + n) o.buf_size)) [
  | inl h ↦ (o, extend_fits realloc o n h)
  | inr h ↦ (grow o (new_buf_size o (o.len + n)), extend_grows realloc o n h (mem _))
]

length-memcpy : (buf : Bytes) (i : ℕ) (bs : Bytes) → length (memcpy buf i bs) ≡ length buf
unfolding memcpy
length-memcpy buf i [] = refl
length-memcpy buf i (b ∷ bs) = length-memcpy (set buf i b) (i + 1) bs ∙ length-set buf i b

set-append : (a : Bytes) (b c : ℕ) (t : Bytes) → set (a ++ c ∷ t) (length a) b ≡ a ++ b ∷ t
set-append [] b c t = refl
set-append (x ∷ a) b c t = ap (◌∷◌ x) (set-append a b c t)

-- A write behind the bytes in use.
memcpy-append :
    (a bs t : Bytes)
    → length bs ≤ length t
    → memcpy (a ++ t) (length a) bs ≡ a ++ (bs ++ drop (length bs) t)
unfolding memcpy
memcpy-append a [] t h = refl
memcpy-append a (b ∷ bs) [] h = elim h [ ]
memcpy-append a (b ∷ bs) (c ∷ t) h =
    let n : length (a ++ b ∷ []) ≡ length a + 1 = length-append a (b ∷ []) in
    ap (λ x. memcpy x (length a + 1) bs) (set-append a b c t ∙ sym (append_assoc a (b ∷ []) t))
    ∙ subst (λ k. memcpy ((a ++ b ∷ []) ++ t) k bs ≡ (a ++ b ∷ []) ++ (bs ++ drop (length bs) t)) n
        (memcpy-append (a ++ b ∷ []) bs t (omega (arith, h)))
    ∙ append_assoc a (b ∷ []) (bs ++ drop (length bs) t)

-- One write at the end of an extended output.
unfoldable pub written : PackedOutput → Bytes → ℕ → PackedOutput
written o bs count = record o { buf = memcpy o.buf o.len bs; len = o.len + count }

pub written-contents :
    (o : PackedOutput) (bs : Bytes) (count : ℕ)
    → IsValid o
    → o.len + length bs ≤ o.buf_size
    → count ≤ length bs
    → IsValid (written o bs count) × (contents (written o bs count) ≡ contents o ++ take count bs)
unfolding written contents
written-contents o bs count (hl, hb) room h =
    let a : Bytes = take o.len o.buf in
    let t : Bytes = drop o.len o.buf in
    let n : length a ≡ o.len = omega (arith, length-take o.len o.buf) in
    let l : length t ≡ length o.buf - o.len = length-drop o.len o.buf in
    let copied : memcpy o.buf o.len bs ≡ a ++ (bs ++ drop (length bs) t) =
      ap₂ (λ x k. memcpy x k bs) (sym (take-append-drop o.len o.buf)) (sym n)
      ∙ memcpy-append a bs t (omega (arith, l)) in
    (
      (length-memcpy o.buf o.len bs ∙ hl, omega arith),
      ap₂ take (ap (λ k. k + count) (sym n)) copied
          ∙ take-append_add a (bs ++ drop (length bs) t) count
          ∙ ap (λ w. a ++ w) (take-append_le count bs (drop (length bs) t) h),
    )

-- Every packing routine appends what it counts of what it writes, to any valid output.
pub emit-Appends :
    (realloc : ℕ → Bool) (o : PackedOutput) (ext_len : ℕ) (bs : Bytes) (count : ℕ)
    → ((k : ℕ) → realloc k ≡ true)
    → IsValid o
    → count ≤ length bs
    → length bs ≤ ext_len
    → Appends (emit realloc o ext_len bs count) o (take count bs)
unfolding emit written
emit-Appends realloc o n bs count mem v h k =
    let (o', e) = extend_packed_output_total realloc o n mem in
    let (v', c, l, room) = extend_packed_output-Extended realloc o o' n v e in
    let (w, d) = written-contents o' bs count v' (omega (arith, l, room)) h in
    record {
      out = written o' bs count;
      returns = rw (emit, e) refl;
      valid = w;
      appended = d ∙ ap (λ x. x ++ take count bs) c;
    }

-- A field of `count` bytes whose front is written: the bytes behind it are those of the buffer.
pub record Field (r : Result Error PackedOutput) (o : PackedOutput) (bs : Bytes) (count : ℕ)
    : Type 0 where
  pub out : PackedOutput
  pub behind : Bytes
  pub returns : r ≡ ok out
  pub valid : IsValid out
  pub appended : contents out ≡ contents o ++ (bs ++ behind)
  pub size : length bs + length behind ≡ count

pub emit-Field :
    (realloc : ℕ → Bool) (o : PackedOutput) (ext_len : ℕ) (bs : Bytes) (count : ℕ)
    → ((k : ℕ) → realloc k ≡ true)
    → IsValid o
    → length bs ≤ count
    → count ≤ ext_len
    → Field (emit realloc o ext_len bs count) o bs count
unfolding emit written contents
emit-Field realloc o n bs count mem v h k =
    let (o', e) = extend_packed_output_total realloc o n mem in
    let ((vl, vb), c, l, room) = extend_packed_output-Extended realloc o o' n v e in
    let a : Bytes = take o'.len o'.buf in
    let t : Bytes = drop o'.len o'.buf in
    let na : length a ≡ o'.len = omega (arith, length-take o'.len o'.buf) in
    let nt : length t ≡ length o'.buf - o'.len = length-drop o'.len o'.buf in
    let copied : memcpy o'.buf o'.len bs ≡ a ++ (bs ++ drop (length bs) t) =
      ap₂ (λ x k. memcpy x k bs) (sym (take-append-drop o'.len o'.buf)) (sym na)
      ∙ memcpy-append a bs t (omega (arith, nt)) in
    let more : count ≡ length bs + (count - length bs) = omega arith in
    record {
      out = written o' bs count;
      behind = take (count - length bs) (drop (length bs) t);
      returns = rw (emit, e) refl;
      valid = (length-memcpy o'.buf o'.len bs ∙ vl, omega (arith, room));
      appended =
          ap₂ take (ap (λ k. k + count) (sym na)) copied
          ∙ take-append_add a (bs ++ drop (length bs) t) count
          ∙ ap₂ ◌++◌ c (
              ap (λ k. take k (bs ++ drop (length bs) t)) more
              ∙ take-append_add bs (drop (length bs) t) (count - length bs));
      size = omega (
        arith,
        length-take (count - length bs) (drop (length bs) t),
        length-drop (length bs) t,
        nt,
        room,
      );
    }
