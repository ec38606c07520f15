-- ===== src/Pack/Native/Strings.antt =====
-- Strings of the native protocol: what is packed of them, what is read back, and where the two
-- sides differ on the longest string.
use irods_client_library_cpp.Base.{
  ℕ, ◌+◌, ◌≤◌, ◌<◌, ◌≡◌, refl, sym, ap, ap₂, ◌∙◌, Bool, true, false, Option, none, some, [], ◌∷◌,
  ◌++◌, append-nil, append_assoc, Bytes, leb, if◌then◌else◌, length, take, drop, length-append,
  take-length, drop-middle, Lacks, err, ok, arith,
}
use irods_client_library_cpp.Base.Int.{ℤ, pos}
use irods_client_library_cpp.Pack.Escape.{c_str}
use irods_client_library_cpp.Pack.Output.{PackedOutput, user_packstruct_input_err, emit}
use irods_client_library_cpp.Pack.Output.Append.{IsValid, contents, emit-Appends, emit-Field}
use irods_client_library_cpp.Pack.Native.{
  too_long, stride, string_at, move, pack_nat_string, ext_len_of, unpack_nat_string, unpack_read,
}

c_str-append : (s t : Bytes) → Lacks 0 s → c_str (s ++ 0 ∷ t) ≡ s
unfolding c_str
c_str-append [] t _ = refl
c_str-append (c ∷ s) t (h, k) = ground (arith, c_str-append s t k)

pub string_at-append : (s t : Bytes) → Lacks 0 s → string_at (some (s ++ 0 ∷ t)) ≡ s
unfolding string_at
string_at-append s t h = c_str-append s t h

module _ (max : ℕ) (n : ℕ) where
  pub too_long-lt : n < max → too_long n (pos max) ≡ false
  unfolding too_long
  too_long-lt h = ground arith

  pub stride-pos : 0 < max → stride n (pos max) ≡ max
  unfolding stride
  stride-pos h = ground arith

  ext_len_of-lt : n + 1 < max → ext_len_of n (pos max) ≡ some max
  unfolding ext_len_of
  ext_len_of-lt h = ground arith

  ext_len_of-le : max ≤ n + 1 → ext_len_of n (pos max) ≡ none
  unfolding ext_len_of
  ext_len_of-le h = ground arith

module _ (realloc : ℕ → Bool) (in_ptr : Option Bytes) (s : Bytes) (at : string_at in_ptr ≡ s) where
  pack_step :
      (o o' : PackedOutput) (max : ℤ)
      → too_long (length s) max ≡ false
      → emit realloc o (length s + 1) (s ++ 0 ∷ []) (length s + 1) ≡ ok o'
      → pack_nat_string realloc in_ptr o max ≡ ok (move in_ptr (stride (length s) max), o')
  unfolding pack_nat_string
  pack_step o o' max h e = rw (at, h, e) refl

  unpack_step :
      (o o' : PackedOutput) (max : ℤ) (ext_len : ℕ)
      → ext_len_of (length s) max ≡ some ext_len
      → emit realloc o ext_len (s ++ 0 ∷ []) (stride (length s) max) ≡ ok o'
      → unpack_nat_string realloc in_ptr o max
        ≡ ok (move in_ptr (length s + 1), o', if leb 1 (length s) then some o.len else none)
  unfolding unpack_nat_string unpack_read
  unpack_step o o' max ext_len h e =
      ap (λ w. unpack_read realloc w in_ptr o max) at ∙ rw (h, unpack_read, e) refl

  unpack_refused :
      (o : PackedOutput) (max : ℤ)
      → ext_len_of (length s) max ≡ none
      → unpack_nat_string realloc in_ptr o max ≡ err user_packstruct_input_err
  unfolding unpack_nat_string unpack_read
  unpack_refused o max h =
      ap (λ w. unpack_read realloc w in_ptr o max) at ∙ rw (h, unpack_read) refl

-- What packing a string that is short enough leaves behind.
abbrev pub PackedString :
    (ℕ → Bool) → Option Bytes → PackedOutput → ℤ → Bytes → PackedOutput → Type 0
PackedString realloc in_ptr o max s sent =
    (pack_nat_string realloc in_ptr o max ≡ ok (move in_ptr (stride (length s) max), sent))
    × IsValid sent
    × (contents sent ≡ contents o ++ (s ++ 0 ∷ []))

module _ (realloc : ℕ → Bool) (mem : (k : ℕ) → realloc k ≡ true) where
  pub pack_nat_string-Appends :
      (in_ptr : Option Bytes) (o : PackedOutput) (max : ℤ) (s : Bytes)
      → IsValid o
      → string_at in_ptr ≡ s
      → too_long (length s) max ≡ false
      → (sent : PackedOutput) × PackedString realloc in_ptr o max s sent
  pack_nat_string-Appends in_ptr o max s v at h =
      let n : length (s ++ 0 ∷ []) ≡ length s + 1 = length-append s (0 ∷ []) in
      let p =
        emit-Appends realloc o (length s + 1) (s ++ 0 ∷ []) (length s + 1) mem v (omega (arith, n))
          (omega (arith, n)) in
      (
        p.out,
        (
          pack_step realloc in_ptr s at o p.out max h p.returns,
          p.valid,
          p.appended
              ∙ ap (λ w. contents o ++ w)
                  (ap₂ take (sym n) (sym (append-nil _)) ∙ take-length _ []),
        ),
      )

-- A string that is shorter by two than its member of `max` bytes is packed with its NUL, and is
-- unpacked into a member of `max` bytes that begins with the string and its NUL; both sides move
-- their input behind what they read.
pub unpack_nat_string-pack_nat_string :
    (realloc : ℕ → Bool) (o u : PackedOutput) (s junk rest : Bytes) (max : ℕ)
    → ((k : ℕ) → realloc k ≡ true)
    → IsValid o
    → IsValid u
    → Lacks 0 s
    → length s + 1 < max
    → (sent received : PackedOutput) × (behind : Bytes) × (pack_nat_string realloc
          (some (s ++ 0 ∷ junk))
          o
          (pos max)
        ≡ ok (some (drop max (s ++ 0 ∷ junk)), sent))
      × (contents sent ≡ contents o ++ (s ++ 0 ∷ []))
      × (unpack_nat_string realloc (some (s ++ 0 ∷ rest)) u (pos max)
          ≡ ok (some rest, received, if leb 1 (length s) then some u.len else none))
      × (contents received ≡ contents u ++ (s ++ 0 ∷ behind))
      × (length s + 1 + length behind ≡ max)
unfolding move
unpack_nat_string-pack_nat_string realloc o u s junk rest max mem vo vu lacks h =
    let at = string_at-append s junk lacks in
    let n : length (s ++ 0 ∷ []) ≡ length s + 1 = length-append s (0 ∷ []) in
    let (sent, (p, _, c)) =
      pack_nat_string-Appends realloc mem (some (s ++ 0 ∷ junk)) o (pos max) s vo at
        (too_long-lt max (length s) (omega arith)) in
    let f = emit-Field realloc u max (s ++ 0 ∷ []) max mem vu (omega (arith, n)) (omega arith) in
    let st = stride-pos max (length s) (omega arith) in
    (
      sent,
      f.out,
      f.behind,
      p ∙ ap (λ k. ok (some (drop k (s ++ 0 ∷ junk)), sent)) st,
      c,
      unpack_step realloc (some (s ++ 0 ∷ rest)) s (string_at-append s rest lacks) u f.out (pos max)
            max (ext_len_of-lt max (length s) h) (rw st f.returns)
          ∙ ap (λ w. ok (some w, f.out, if leb 1 (length s) then some u.len else none))
              (drop-middle s 0 rest (length s) refl),
      f.appended ∙ ap (λ w. contents u ++ w) (append_assoc s (0 ∷ []) f.behind),
      omega (arith, f.size, n),
    )

-- The longest string that packing takes fills its member with its NUL; unpacking refuses it.
pub unpack_nat_string_longest :
    (realloc : ℕ → Bool) (o u : PackedOutput) (s junk rest : Bytes)
    → ((k : ℕ) → realloc k ≡ true)
    → IsValid o
    → Lacks 0 s
    → ((sent : PackedOutput) × PackedString realloc
          (some (s ++ 0 ∷ junk))
          o
          (pos (length s + 1))
          s
          sent)
      × (unpack_nat_string realloc (some (s ++ 0 ∷ rest)) u (pos (length s + 1))
          ≡ err user_packstruct_input_err)
unpack_nat_string_longest realloc o u s junk rest mem vo lacks = (
  pack_nat_string-Appends realloc mem (some (s ++ 0 ∷ junk)) o (pos (length s + 1)) s vo
      (string_at-append s junk lacks) (too_long-lt (length s + 1) (length s) (omega arith)),
  unpack_refused realloc (some (s ++ 0 ∷ rest)) s (string_at-append s rest lacks) u
      (pos (length s + 1)) (ext_len_of-le (length s + 1) (length s) (omega arith)),
)
