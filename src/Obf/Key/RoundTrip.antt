-- ===== src/Obf/Key/RoundTrip.antt =====
-- src/core/src/obf.cpp: obfDecodeByKey undoes obfEncodeByKey.
use irods_client_library_cpp.Base.{
  ℕ, suc, ◌+◌, ◌%◌, ◌≤◌, ◌<◌, ◌≡◌, ◌≢◌, refl, sym, ap, ap₂, subst, fun_ext, ◌∙◌, ◌≡⟨◌⟩◌, ◌∎, Bool,
  true, false, [], ◌∷◌, ◌++◌, some, arith, Option-cases, if◌then◌else◌, inl, inr, Bytes,
  starts_with, starts_with-length, length-drop, get_or, length, take, drop, replicate,
  length-append, length-take, take-append_le, take-append_add, take-take, get_or-take,
}
use irods_client_library_cpp.Obf.Wheel.{
  wheel_len, wheel_at, wheel_index, unwind, unwind-turn, wheel_index-some, wheel_index-wheel_at,
}
use irods_client_library_cpp.Obf.Key.{
  HashType, hash_md5, hash_sha1, hash_default, is_sha1, Config, obf_make_one_way_hash, overlay,
  fill_buffer, next_key, encode_loop, decode_loop, sha1_mark, obf_encode_by_key, obf_decode_by_key,
}

-- Two buffers hold the same first `n` bytes.
record Agree (n : ℕ) (u v : Bytes) : Type 0 where
  same : take n u ≡ take n v
  left : n ≤ length u
  right : n ≤ length v

Agree-take : (m n : ℕ) (u v : Bytes) → m ≤ n → Agree n u v → take m u ≡ take m v
Agree-take m n u v h a =
    take m u
    ≡⟨ sym (take-take m n u h) ⟩ take m (take n u)
    ≡⟨ ap (take m) a.same ⟩ take m (take n v)
    ≡⟨ take-take m n v h ⟩ take m v ∎

Agree-get_or : (n k : ℕ) (u v : Bytes) → k < n → Agree n u v → get_or u k 0 ≡ get_or v k 0
Agree-get_or n k u v h a =
    get_or u k 0
    ≡⟨ sym (get_or-take n k u 0 h) ⟩ get_or (take n u) k 0
    ≡⟨ ap (λ x. get_or x k 0) a.same ⟩ get_or (take n v) k 0
    ≡⟨ get_or-take n k v 0 h ⟩ get_or v k 0 ∎

take-overlay :
    (n : ℕ) (d u : Bytes)
    → n ≤ length u
    → 16 ≤ length d
    → take (n + 16) (overlay n d u) ≡ take n u ++ take 16 d
unfolding overlay
take-overlay n d u h k =
    subst (λ m. take (m + 16) (take n u ++ (d ++ tail)) ≡ take n u ++ take 16 d) len
      (take-append_add (take n u) (d ++ tail) 16
        ∙ ap (◌++◌ (take n u)) (take-append_le 16 d tail k))
  where
    tail : Bytes
    tail = drop (n + length d) u

    len : length (take n u) ≡ n
    len = omega (arith, length-take n u)

length-overlay :
    (n : ℕ) (d u : Bytes) → n ≤ length u → 16 ≤ length d → n + 16 ≤ length (overlay n d u)
unfolding overlay
length-overlay n d u h k = omega (
  arith,
  length-append (take n u) (d ++ drop (n + length d) u),
  length-append d (drop (n + length d) u),
  length-take n u,
)

overlay-Agree :
    (n : ℕ) (d u v : Bytes)
    → 16 ≤ length d
    → Agree n u v
    → Agree (n + 16) (overlay n d u) (overlay n d v)
overlay-Agree n d u v k a = record {
  same =
      take-overlay n d u a.left k
      ∙ (ap (λ x. x ++ take 16 d) a.same ∙ sym (take-overlay n d v a.right k));
  left = length-overlay n d u a.left k;
  right = length-overlay n d v a.right k;
}

-- A stage of `fill_buffer` hashes what the two buffers have in common.
stage-Agree :
    (hash : Bytes → Bytes) (m n : ℕ) (u v : Bytes)
    → ((s : Bytes) → 16 ≤ length (hash s))
    → m ≤ n
    → Agree n u v
    → Agree (n + 16) (overlay n (hash (take m u)) u) (overlay n (hash (take m v)) v)
stage-Agree hash m n u v long h a =
    subst (λ w. Agree (n + 16) (overlay n (hash (take m u)) u) (overlay n (hash w) v))
      (Agree-take m n u v h a) (overlay-Agree n (hash (take m u)) u v (long (take m u)) a)

fill_buffer-Agree :
    (hash : Bytes → Bytes) (key u v : Bytes)
    → ((s : Bytes) → 16 ≤ length (hash s))
    → Agree 64 (fill_buffer hash key u) (fill_buffer hash key v)
unfolding fill_buffer
fill_buffer-Agree hash key u v long = stage-Agree hash 32 48 _ _ long (omega arith) (
    stage-Agree hash 32 32 _ _ long (omega arith)
      (stage-Agree hash 16 16 _ _ long (omega arith) (overlay-Agree 0 _ u v (long _) start)))
  where
    start : Agree 0 u v
    start = record { same = refl; left = omega arith; right = omega arith }

next_key-lt : (kpos : ℕ) → next_key kpos < 61
unfolding next_key
next_key-lt kpos = ground arith

turn_back :
    (c i k k' pc : ℕ)
    → wheel_index c ≡ some i
    → k ≡ k'
    → wheel_at (unwind ((i + k + pc) % wheel_len) (k' + pc)) ≡ c
turn_back c i k k' pc e q =
    let (low, at) = wheel_index-some c i e in
    let p : (i + k + pc) % wheel_len ≡ (i + (k' + pc)) % wheel_len = omega arith in
    ap (λ x. wheel_at (unwind x (k' + pc))) p ∙ (ap wheel_at (unwind-turn i (k' + pc) low) ∙ at)

module _ (chaining : Bool) (u v : Bytes) (agree : Agree 64 u v) where
  decode_loop-encode_loop :
      (s : Bytes) (kpos pc : ℕ)
      → kpos < 61
      → decode_loop chaining v kpos pc (encode_loop chaining u kpos pc s) ≡ s
  unfolding encode_loop decode_loop
  decode_loop-encode_loop [] kpos pc h = refl
  decode_loop-encode_loop (c ∷ s) kpos pc h = elim (Option-cases (wheel_index c)) [
    | inl e ↦
        rw (e, encode_loop)
          (rw (e, decode_loop)
            (ap (◌∷◌ c) (decode_loop-encode_loop s (next_key kpos) pc (next_key-lt kpos))))
    | inr (i, e) ↦
        let k = get_or u kpos 0 in
        let j = (i + k + pc) % wheel_len in
        let pc' = if chaining then wheel_at j % 256 else pc in
        rw (e, encode_loop)
          (rw (wheel_index-wheel_at j (omega arith), decode_loop)
            (ap₂ ◌∷◌ (turn_back c i k _ pc e (Agree-get_or 64 kpos u v (omega arith) agree))
              (decode_loop-encode_loop s (next_key kpos) pc' (next_key-lt kpos))))
  ]

module _ (cfg : Config) where
  -- The decoder's choice of the hash is the encoder's.
  hash_default-eq :
      (b : Bool)
      → b ≡ is_sha1 cfg.default_hash_type
      → obf_make_one_way_hash cfg hash_default
        ≡ obf_make_one_way_hash cfg (if b then hash_sha1 else hash_md5)
  unfolding obf_make_one_way_hash
  hash_default-eq b e = fun_ext λ s. ground arith

  long_hash :
      (t : HashType) (s : Bytes)
      → ((x : Bytes) → 16 ≤ length (cfg.md5 x))
      → ((x : Bytes) → 16 ≤ length (cfg.sha1 x))
      → 16 ≤ length (obf_make_one_way_hash cfg t s)
  unfolding obf_make_one_way_hash
  long_hash t s long5 long1 = ground (arith, long5 s, long1 s)

  -- The decoder on a text with its mark, and without.
  decode_by_key-eq :
      (b : Bool) (text out key : Bytes)
      → starts_with sha1_mark text ≡ b
      → text ≡ (if b then sha1_mark ++ out else out)
      → obf_decode_by_key cfg text key
        ≡ decode_loop cfg.cipher_block_chaining
            (fill_buffer
              (obf_make_one_way_hash cfg (if b then hash_sha1 else hash_md5))
              key
              (replicate 65 0))
            0
            0
            out
  unfolding obf_decode_by_key
  decode_by_key-eq true text out key e q = rw e (rw q)
  decode_by_key-eq false text out key e q = rw e (rw q)

-- Whatever the text, the key, the stack behind the buffer and the chaining: with hashes of 16 bytes
-- at least, decoding gives the text back, if the output starts with "sha1" only where SHA1 is the
-- default.
pub decode-encode_by_key :
    (cfg : Config) (rest s key : Bytes)
    → ((x : Bytes) → 16 ≤ length (cfg.md5 x))
    → ((x : Bytes) → 16 ≤ length (cfg.sha1 x))
    → starts_with sha1_mark (obf_encode_by_key cfg rest s key) ≡ is_sha1 cfg.default_hash_type
    → obf_decode_by_key cfg (obf_encode_by_key cfg rest s key) key ≡ s
unfolding obf_encode_by_key
decode-encode_by_key cfg rest s key long5 long1 mark =
    rw (decode_by_key-eq cfg (is_sha1 cfg.default_hash_type) _ _ key mark refl) (
      rw (← hash_default-eq cfg (is_sha1 cfg.default_hash_type) refl) (
        decode_loop-encode_loop cfg.cipher_block_chaining _ _
          (fill_buffer-Agree _ key _ _ (λ x. long_hash cfg hash_default x long5 long1)) s 0 0
          (omega arith)))

module _ (chaining : Bool) (buf : Bytes) where
  length-encode_loop :
      (s : Bytes) (kpos pc : ℕ) → length (encode_loop chaining buf kpos pc s) ≡ length s
  unfolding encode_loop
  length-encode_loop [] kpos pc = refl
  length-encode_loop (c ∷ s) kpos pc = elim (Option-cases (wheel_index c)) [
    | inl e ↦ rw (e, encode_loop) (ap suc (length-encode_loop s (next_key kpos) pc))
    | inr (i, e) ↦ rw (e, encode_loop) (ap suc (length-encode_loop s (next_key kpos) _))
  ]

  length-decode_loop :
      (s : Bytes) (kpos pc : ℕ) → length (decode_loop chaining buf kpos pc s) ≡ length s
  unfolding decode_loop
  length-decode_loop [] kpos pc = refl
  length-decode_loop (c ∷ s) kpos pc = elim (Option-cases (wheel_index c)) [
    | inl e ↦ rw (e, decode_loop) (ap suc (length-decode_loop s (next_key kpos) pc))
    | inr (i, e) ↦ rw (e, decode_loop) (ap suc (length-decode_loop s (next_key kpos) _))
  ]

length-decode_marked :
    (cfg : Config) (text key : Bytes)
    → starts_with sha1_mark text ≡ true
    → length (obf_decode_by_key cfg text key) + 4 ≡ length text
unfolding obf_decode_by_key
length-decode_marked cfg text key mark = rw mark (
    omega (
      arith,
      length-decode_loop cfg.cipher_block_chaining
          (fill_buffer (obf_make_one_way_hash cfg hash_sha1) key (replicate 65 0)) (drop 4 text) 0
          0,
      length-drop 4 text,
      starts_with-length sha1_mark text mark,
    ))

length-encode_unmarked :
    (cfg : Config) (rest s key : Bytes)
    → is_sha1 cfg.default_hash_type ≡ false
    → length (obf_encode_by_key cfg rest s key) ≡ length s
unfolding obf_encode_by_key
length-encode_unmarked cfg rest s key plain =
    rw plain (length-encode_loop cfg.cipher_block_chaining _ s 0 0)

-- With MD5 as the default, a text whose output happens to start with "sha1" is not given back: the
-- decoder takes those four bytes for the mark.
pub decode-encode_by_key_clash :
    (cfg : Config) (rest s key : Bytes)
    → is_sha1 cfg.default_hash_type ≡ false
    → starts_with sha1_mark (obf_encode_by_key cfg rest s key) ≡ true
    → obf_decode_by_key cfg (obf_encode_by_key cfg rest s key) key ≢ s
decode-encode_by_key_clash cfg rest s key plain mark e = omega (
  arith,
  ap length e,
  length-decode_marked cfg (obf_encode_by_key cfg rest s key) key mark,
  length-encode_unmarked cfg rest s key plain,
)
