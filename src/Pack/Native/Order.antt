-- ===== src/Pack/Native/Order.antt =====
-- The order of the bytes of an integer: htonl, htons and myHtonll, and the alignment of addresses.
use irods_client_library_cpp.Base.{
  ℕ, zero, suc, ◌+◌, ◌-◌, ◌*◌, ◌/◌, ◌%◌, ◌≤◌, ◌<◌, ◌≡◌, refl, sym, ap, ap₂, subst, ◌∙◌, [], ◌∷◌,
  ◌++◌, append-nil, append_assoc, Bytes, get_or, length, get_or-take_end, take, drop, length-append,
  length-take, length-drop, take-append_add, drop-append, take-append-drop, take-length, arith,
}
use native.Mathlib.Nat.{mul-mod_right}
use irods_client_library_cpp.Pack.Native.{reversed, htonll_loop, my_htonll, swapped, align_to}

length-reversed : (bs : Bytes) → length (reversed bs) ≡ length bs
unfolding reversed
length-reversed [] = refl
length-reversed (b ∷ bs) = length-append (reversed bs) (b ∷ []) ∙ omega (arith, length-reversed bs)

reversed-append : (a b : Bytes) → reversed (a ++ b) ≡ reversed b ++ reversed a
unfolding reversed
reversed-append [] b = sym (append-nil (reversed b))
reversed-append (x ∷ a) b =
    ap (λ w. w ++ x ∷ []) (reversed-append a b) ∙ append_assoc (reversed b) (reversed a) (x ∷ [])

reversed_twice : (bs : Bytes) → reversed (reversed bs) ≡ bs
unfolding reversed
reversed_twice [] = refl
reversed_twice (b ∷ bs) =
    reversed-append (reversed bs) (b ∷ []) ∙ ap (λ w. b ∷ w) (reversed_twice bs)

-- The loop of myHtonll, from a word that has a byte for each round.
htonll_loop-reversed :
    (size n : ℕ) (word : Bytes) → n ≤ length word → htonll_loop size n word ≡ reversed (take n word)
unfolding htonll_loop reversed
htonll_loop-reversed size zero word h = refl
htonll_loop-reversed size (suc n) word h =
    ap (λ w. get_or word n 0 ∷ w) (htonll_loop-reversed size n word (omega arith))
    ∙ sym (
        ap reversed (get_or-take_end word n 0 (omega arith))
        ∙ reversed-append (take n word) (get_or word n 0 ∷ []))

pub my_htonll-reversed : (word : Bytes) → length word ≡ 8 → my_htonll word ≡ reversed word
unfolding my_htonll
my_htonll-reversed word h =
    htonll_loop-reversed 8 8 word (omega (arith, h))
    ∙ ap reversed (ap₂ take (sym h) (sym (append-nil word)) ∙ take-length word [])

-- What the integers need of the change of byte order.
pub record IsOrder (width : ℕ) (order : Bytes → Bytes) : Type 0 where
  pub keeps : (w : Bytes) → length w ≡ width → length (order w) ≡ width
  pub twice : (w : Bytes) → length w ≡ width → order (order w) ≡ w

pub reversed-IsOrder : (width : ℕ) → IsOrder width reversed
reversed-IsOrder width = record {
  keeps = λ w e. length-reversed w ∙ e;
  twice = λ w e. reversed_twice w;
}

pub my_htonll-IsOrder : IsOrder 8 my_htonll
my_htonll-IsOrder = record {
  keeps = λ w e. ap length (my_htonll-reversed w e) ∙ length-reversed w ∙ e;
  twice = λ w e.
      ap my_htonll (my_htonll-reversed w e)
      ∙ my_htonll-reversed (reversed w) (length-reversed w ∙ e)
      ∙ reversed_twice w;
}

module _ (width : ℕ) (order : Bytes → Bytes) (is : IsOrder width order) where
  word : (m : Bytes) → width ≤ length m → length (take width m) ≡ width
  word m h = omega (arith, length-take width m)

  pub length-swapped :
      (n : ℕ) (m : Bytes) → width * n ≤ length m → length (swapped order width n m) ≡ width * n
  unfolding swapped
  length-swapped zero m h = omega arith
  length-swapped (suc n) m h =
      let split : width * suc n ≡ width + width * n = grind arith in
      let rest : length (drop width m) ≡ length m - width = length-drop width m in
      length-append (order (take width m)) (swapped order width n (drop width m))
      ∙ ap₂ ◌+◌ (is.keeps (take width m) (word m (omega (arith, split))))
          (length-swapped n (drop width m) (omega (arith, split, rest)))
      ∙ sym split

  swapped-front :
      (n : ℕ) (w t : Bytes)
      → length w ≡ width
      → swapped order width (suc n) (w ++ t) ≡ order w ++ swapped order width n t
  unfolding swapped
  swapped-front n w t e =
      ap₂ (λ a b. order a ++ swapped order width n b)
        (subst (λ k. take k (w ++ t) ≡ w) e (take-length w t))
        (subst (λ k. drop k (w ++ t) ≡ t) e (drop-append w t))

  take-words :
      (n : ℕ) (m : Bytes)
      → width ≤ length m
      → take (width * suc n) m ≡ take width m ++ take (width * n) (drop width m)
  take-words n m h =
      let split : width * suc n ≡ length (take width m) + width * n = grind (arith, word m h) in
      ap₂ take split (sym (take-append-drop width m))
      ∙ take-append_add (take width m) (drop width m) (width * n)

  pub swapped_twice :
      (n : ℕ) (m rest : Bytes)
      → width * n ≤ length m
      → swapped order width n (swapped order width n m ++ rest) ≡ take (width * n) m
  unfolding swapped
  swapped_twice zero m rest h = let none : 0 ≡ width * 0 = omega arith in ap (λ k. take k m) none
  swapped_twice (suc n) m rest h =
      let split : width * suc n ≡ width + width * n = grind arith in
      let low : width ≤ length m = omega (arith, split) in
      let w : Bytes = order (take width m) in
      let t : Bytes = swapped order width n (drop width m) in
      ap (swapped order width (suc n)) (append_assoc w t rest)
      ∙ swapped-front n w (t ++ rest) (is.keeps (take width m) (word m low))
      ∙ ap₂ ◌++◌ (is.twice (take width m) (word m low))
          (swapped_twice n (drop width m) rest (omega (arith, split, length-drop width m)))
      ∙ sym (take-words n m low)

round_up : (w at : ℕ) → 0 < w → (at + w - at % w) % w ≡ 0
round_up w at h =
    let e : at + w - at % w ≡ w * (at / w + 1) = grind arith in
    ap (λ k. k % w) e ∙ mul-mod_right w (at / w + 1)

pub align_to_lem :
    (w at : ℕ) → 0 < w → (align_to w at % w ≡ 0) × (at ≤ align_to w at) × (align_to w at < at + w)
unfolding align_to
align_to_lem w at h = ground (arith, round_up w at h)
