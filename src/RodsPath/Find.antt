-- ===== src/RodsPath/Find.antt =====
-- Where a text stands in a path, and what the rounds of the loops of parseRodsPath leave of it.
use irods_client_library_cpp.Base.{
  ℕ, zero, suc, ◌+◌, ◌≤◌, ◌<◌, ◌≡◌, refl, sym, ap, ap₂, subst, ◌∙◌, inl, inr, ◌==◌, true, false,
  none, some, [], ◌∷◌, ◌++◌, append_assoc, Bytes, codes, starts_with, strstr, length, take, drop,
  get_or, length-append, take-length, take-append_add, length-take, get_or-take_end, drop-append,
  Lacks, Bool-cases, Option-cases, arith,
}
use irods_client_library_cpp.RodsPath.{go_back}

-- The needle stands nowhere in the text.
abbrev pub Free : Bytes → Bytes → Type 0
Free n [] = starts_with n [] ≡ false
Free n (c ∷ s) = (starts_with n (c ∷ s) ≡ false) × Free n s

pub strstr-Free : (n s : Bytes) → strstr n s ≡ none → Free n s
unfolding strstr
strstr-Free n [] h = ground (arith, h)
strstr-Free n (c ∷ s) h = elim (Bool-cases (starts_with n (c ∷ s))) [
  | inl y ↦ ground (arith, h, y)
  | inr y ↦ elim (Option-cases (strstr n s)) [
    | inl e ↦ (y, strstr-Free n s e)
    | inr (i, e) ↦ ground (arith, h, y, e)
  ]
]

pub Free-strstr : (n s : Bytes) → Free n s → strstr n s ≡ none
unfolding strstr
Free-strstr n [] h = ground (arith, h)
Free-strstr n (c ∷ s) (h, k) = ground (arith, h, Free-strstr n s k)

starts_with-Prefix : (n s : Bytes) → starts_with n s ≡ true → (t : Bytes) × (s ≡ n ++ t)
unfolding starts_with
starts_with-Prefix [] s h = (s, refl)
starts_with-Prefix (x ∷ n) [] h = cc
starts_with-Prefix (x ∷ n) (y ∷ s) h =
    let e : x ≡ y = ground (arith, h) in
    let (t, f) = starts_with-Prefix n s (ground (arith, h)) in (t, ap₂ ◌∷◌ (sym e) f)

-- Where the needle is found the text parts around it.
strstr-Parts :
    (n s : Bytes) (i : ℕ)
    → strstr n s ≡ some i
    → (a y : Bytes) × (s ≡ a ++ (n ++ y)) × (length a ≡ i)
unfolding strstr
strstr-Parts n [] i h = elim (Bool-cases (starts_with n [])) [
  | inl y ↦ let (t, f) = starts_with-Prefix n [] y in ([], t, f, ground (arith, h, y))
  | inr y ↦ ground (arith, h, y)
]
strstr-Parts n (c ∷ s) i h = elim (Bool-cases (starts_with n (c ∷ s))) [
  | inl y ↦ let (t, f) = starts_with-Prefix n (c ∷ s) y in ([], t, f, ground (arith, h, y))
  | inr y ↦ elim (Option-cases (strstr n s)) [
    | inl e ↦ ground (arith, h, y, e)
    | inr (j, e) ↦
        let (a, t, f, l) = strstr-Parts n s j e in
        (c ∷ a, t, ap (◌∷◌ c) f, ground (arith, h, y, e, l))
  ]
]

Free-suffix : (n a s : Bytes) → Free n (a ++ s) → Free n s
Free-suffix n [] s h = h
Free-suffix n (c ∷ a) s (h, k) = Free-suffix n a s k

starts_with-longer : (n s t : Bytes) → starts_with n s ≡ true → starts_with n (s ++ t) ≡ true
unfolding starts_with
starts_with-longer [] s t h = refl
starts_with-longer (x ∷ n) [] t h = cc
starts_with-longer (x ∷ n) (y ∷ s) t h = ground (arith, h, starts_with-longer n s t)

not_longer : (n s t : Bytes) → starts_with n (s ++ t) ≡ false → starts_with n s ≡ false
not_longer n s t h = elim (Bool-cases (starts_with n s)) [
  | inl y ↦ cc (starts_with-longer n s t y, h)
  | inr y ↦ y
]

Free-nil : (n t : Bytes) → Free n t → starts_with n [] ≡ false
Free-nil n [] h = h
Free-nil n (c ∷ t) (h, _) = not_longer n [] (c ∷ t) h

pub Free-prefix : (n s t : Bytes) → Free n (s ++ t) → Free n s
Free-prefix n [] t h = Free-nil n t h
Free-prefix n (c ∷ s) t (h, k) = (not_longer n (c ∷ s) t h, Free-prefix n s t k)

-- A needle that begins and ends with '/' and has none in between.
abbrev pub needle : Bytes → Bytes
needle mid = b'/' ∷ (mid ++ b'/' ∷ [])

-- Such a needle cannot reach beyond a '/'.
within :
    (mid a y : Bytes)
    → Lacks b'/' mid
    → starts_with (mid ++ b'/' ∷ []) (a ++ b'/' ∷ y) ≡ true
    → starts_with (mid ++ b'/' ∷ []) (a ++ b'/' ∷ []) ≡ true
unfolding starts_with
within [] [] y l h = refl
within [] (x ∷ a) y l h = ground (arith, h)
within (m ∷ mid) [] y (l, k) h = ground (arith, h, l)
within (m ∷ mid) (x ∷ a) y (l, k) h = ground (arith, h, within mid a y k)

splice :
    (mid a y : Bytes)
    → Lacks b'/' mid
    → Free (needle mid) (a ++ b'/' ∷ [])
    → Free (needle mid) (b'/' ∷ y)
    → Free (needle mid) (a ++ b'/' ∷ y)
unfolding starts_with
splice mid [] y l h k = k
splice mid (c ∷ a) y l (h, hs) k = (ground (arith, h, within mid a y l), splice mid a y l hs k)

-- A path with what is between two of its '/', and one of them, taken out.
pub record Shortened (s t : Bytes) : Type 0 where
  front : Bytes
  gone : Bytes
  back : Bytes
  before : s ≡ front ++ b'/' ∷ (gone ++ b'/' ∷ back)
  after : t ≡ front ++ b'/' ∷ back

pub Shortened-Free :
    (mid s t : Bytes) → Lacks b'/' mid → Shortened s t → Free (needle mid) s → Free (needle mid) t
Shortened-Free mid s t l sh f =
    let g : Free (needle mid) (sh.front ++ b'/' ∷ (sh.gone ++ b'/' ∷ sh.back)) =
      subst (Free (needle mid)) sh.before f in
    subst (Free (needle mid)) (sym sh.after) (
      splice mid sh.front sh.back l
        (Free-prefix (needle mid) (sh.front ++ b'/' ∷ []) (sh.gone ++ b'/' ∷ sh.back) (
          subst (Free (needle mid))
            (sym (append_assoc sh.front (b'/' ∷ []) (sh.gone ++ b'/' ∷ sh.back))) g))
        (Free-suffix (needle mid) (sh.front ++ b'/' ∷ sh.gone) (b'/' ∷ sh.back) (
          subst (Free (needle mid)) (sym (append_assoc sh.front (b'/' ∷ sh.gone) (b'/' ∷ sh.back)))
            g)))

pub Shortened-length : (s t : Bytes) → Shortened s t → length t < length s
Shortened-length s t sh =
    let a : length s ≡ length sh.front + suc (length (sh.gone ++ b'/' ∷ sh.back)) =
      ap length sh.before ∙ length-append sh.front (b'/' ∷ (sh.gone ++ b'/' ∷ sh.back)) in
    let b : length t ≡ length sh.front + suc (length sh.back) =
      ap length sh.after ∙ length-append sh.front (b'/' ∷ sh.back) in
    omega (arith, a, b, length-append sh.gone (b'/' ∷ sh.back))

-- What is kept of a path that parts around a '/' and before `y`.
kept :
    (s b r f y : Bytes) (i k : ℕ)
    → s ≡ b ++ b'/' ∷ r
    → length b ≡ i
    → s ≡ f ++ y
    → length f ≡ k
    → take (i + 1) s ++ drop k s ≡ b ++ b'/' ∷ y
kept s b r f y i k e le g lg =
    let t : take (i + 1) s ≡ b ++ b'/' ∷ [] =
      ap₂ take (ap (λ n. n + 1) (sym le)) e ∙ take-append_add b (b'/' ∷ r) 1 in
    let d : drop k s ≡ y = ap₂ drop (sym lg) g ∙ drop-append f y in
    ap₂ ◌++◌ t d ∙ append_assoc b (b'/' ∷ []) y

-- One round of the loops that take out a needle.
pub take_out-Shortened :
    (mid s : Bytes) (i : ℕ)
    → strstr (needle mid) s ≡ some i
    → Shortened s (take (i + 1) s ++ drop (i + length (needle mid)) s)
take_out-Shortened mid s i h =
    let (a, y, e, l) = strstr-Parts (needle mid) s i h in
    let b : s ≡ a ++ b'/' ∷ (mid ++ b'/' ∷ y) =
      e ∙ ap (λ w. a ++ b'/' ∷ w) (append_assoc mid (b'/' ∷ []) y) in
    record {
      front = a;
      gone = mid;
      back = y;
      before = b;
      after =
          kept s a (mid ++ b'/' ∷ y) (a ++ needle mid) y i (i + length (needle mid)) b l
            (e ∙ sym (append_assoc a (needle mid) y))
            (length-append a (needle mid) ∙ ap (λ n. n + length (needle mid)) l);
    }

go_back-Parts :
    (s : Bytes) (i j : ℕ)
    → go_back s i ≡ some j
    → i ≤ length s
    → (b c : Bytes) × (take i s ≡ b ++ b'/' ∷ c) × (length b ≡ j)
unfolding go_back
go_back-Parts s zero j h low = cc
go_back-Parts s (suc i) j h low = elim (Bool-cases (get_or s i 0 == b'/')) [
  | inl y ↦
      let c : get_or s i 0 ≡ b'/' = ground (arith, y) in
      (
        take i s,
        [],
        get_or-take_end s i 0 (omega arith) ∙ ap (λ x. take i s ++ x ∷ []) c,
        ground (arith, h, y, length-take i s),
      )
  | inr n ↦
      let (b, c, e, l) = go_back-Parts s i j (ground (arith, h, n)) (omega arith) in
      (
        b,
        c ++ get_or s i 0 ∷ [],
        get_or-take_end s i 0 (omega arith)
            ∙ ap (λ w. w ++ get_or s i 0 ∷ []) e
            ∙ append_assoc b (b'/' ∷ c) (get_or s i 0 ∷ []),
        l,
      )
]

-- One round of the loop that takes out "/../" and the name before it.
pub take_out_up-Shortened :
    (s : Bytes) (i j : ℕ)
    → strstr (codes "/../") s ≡ some i
    → go_back s i ≡ some j
    → Shortened s (take (j + 1) s ++ drop (i + 4) s)
take_out_up-Shortened s i j h g =
    let (a, y, e, l) = strstr-Parts (codes "/../") s i h in
    let n : length s ≡ length a + length (codes "/../" ++ y) =
      ap length e ∙ length-append a (codes "/../" ++ y) in
    let (b, c, f, k) = go_back-Parts s i j g (omega (arith, n, l)) in
    let ta : take i s ≡ a = ap₂ take (sym l) e ∙ take-length a (codes "/../" ++ y) in
    let p : s ≡ b ++ b'/' ∷ ((c ++ codes "/..") ++ b'/' ∷ y) =
      e ∙ ap (λ w. w ++ (codes "/../" ++ y)) (sym ta ∙ f) ∙ simp (append_assoc) in
    record {
      front = b;
      gone = c ++ codes "/..";
      back = y;
      before = p;
      after =
          kept s b ((c ++ codes "/..") ++ b'/' ∷ y) (a ++ codes "/../") y j (i + 4) p k
            (e ∙ sym (append_assoc a (codes "/../") y))
            (length-append a (codes "/../") ∙ ap (λ m. m + 4) l);
    }
