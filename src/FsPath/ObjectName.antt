-- ===== src/FsPath/ObjectName.antt =====
-- src/filesystem/path.cpp: object_name of a path that ends in a name.
use irods_client_library_cpp.Base.{
  ℕ, zero, suc, ◌+◌, ◌-◌, ◌<◌, ◌≤◌, ◌≡◌, ◌≢◌, refl, sym, ap, subst, ◌∙◌, false, List, [], ◌∷◌, ◌++◌,
  arith, ◌==◌, Bool-cases, ==_iff, inl, inr, Bytes, Lacks, length, length-append, take, drop,
  drop-append, get_or, append_assoc, append-nil,
}
use native.Mathlib.Nat.{add-zero}
use irods_client_library_cpp.FsPath.Iteration.{
  separator, is_empty, is_absolute, is_separator, end, back_name, element_before, decrement,
  increment,
}
use irods_client_library_cpp.FsPath.{
  append, append_all, join, range, root_collection, relative_path, object_name, with_separator,
}
use irods_client_library_cpp.FsPath.Elements.{names, after}
use irods_client_library_cpp.FsPath.Visits.{begins_with, range-root}
use irods_client_library_cpp.FsPath.Moves.{get_or-append}

-- The name of an object: it is not empty and has no separator.
pub data IsName : Bytes → Type 0 where
  name : (c : ℕ) (t : Bytes) → c ≢ separator → Lacks separator t → IsName (c ∷ t)

-- A text that a name can be written behind: it is empty or ends in a separator.
pub data IsBefore : Bytes → Type 0 where
  nothing : IsBefore []
  behind : (q : Bytes) → IsBefore (q ++ separator ∷ [])

pub get_or-Lacks :
    (t : Bytes) (k : ℕ) → Lacks separator t → k < length t → is_separator (get_or t k 0) ≡ false
unfolding is_separator
get_or-Lacks [] k h i = absurd (omega arith)
get_or-Lacks (c ∷ t) zero (h, hs) i = ground arith
get_or-Lacks (c ∷ t) (suc k) (h, hs) i = get_or-Lacks t k hs (omega arith)

back_name_over :
    (q t : Bytes) (k : ℕ)
    → Lacks separator t
    → k ≤ length t
    → back_name (q ++ t) (length q + k) ≡ back_name (q ++ t) (length q)
unfolding back_name
back_name_over q t zero h i = rw (add-zero (length q)) refl
back_name_over q t (suc k) h i =
    let n : length q + suc k ≡ suc (length q + k) = omega arith in
    ap (back_name (q ++ t)) n
    ∙ ground (
      arith,
      get_or-append q t k,
      get_or-Lacks t k h (omega arith),
      back_name_over q t k h (omega arith),
    )

get_or-separator : (q t : Bytes) → get_or ((q ++ separator ∷ []) ++ t) (length q) 0 ≡ separator
get_or-separator q t =
    ap (λ s. get_or s (length q) 0) (append_assoc q (separator ∷ []) t)
    ∙ ap (λ k. get_or (q ++ separator ∷ t) k 0) (omega arith)
    ∙ get_or-append q (separator ∷ t) 0

back_name_stops : {q : Bytes} (t : Bytes) → IsBefore q → back_name (q ++ t) (length q) ≡ length q
unfolding back_name is_separator
back_name_stops t nothing = refl
back_name_stops t (behind q) =
    let p = (q ++ separator ∷ []) ++ t in
    let n : length (q ++ separator ∷ []) ≡ suc (length q) =
      omega (arith, length-append q (separator ∷ [])) in
    ap (back_name p) n ∙ ground (arith, get_or-separator q t) ∙ sym n

take-all : (t : Bytes) (k : ℕ) → k ≡ length t → take k t ≡ t
take-all [] zero h = refl
take-all [] (suc k) h = absurd (omega arith)
take-all (c ∷ t) zero h = absurd (omega arith)
take-all (c ∷ t) (suc k) h = ap (λ r. c ∷ r) (take-all t k (omega arith))

element_before-name :
    {q t : Bytes}
    → IsBefore q
    → Lacks separator t
    → element_before (q ++ t) (length (q ++ t)) ≡ record { element = t; pos = length q }
unfolding element_before
element_before-name {q} {t} b h =
    let start : back_name (q ++ t) (length (q ++ t)) ≡ length q =
      ap (back_name (q ++ t)) (length-append q t)
      ∙ back_name_over q t (length t) h (omega arith)
      ∙ back_name_stops t b in
    ap (λ n. record { element = take (length (q ++ t) - n) (drop n (q ++ t)); pos = n }) start
    ∙ ap (λ r. record { element = take (length (q ++ t) - length q) r; pos = length q })
        (drop-append q t)
    ∙ ap (λ r. record { element = r; pos = length q })
        (take-all t (length (q ++ t) - length q) (omega (arith, length-append q t)))

decrement_within :
    (p : Bytes)
    → is_separator (get_or p (length p - 1) 0) ≡ false
    → decrement p (end p) ≡ element_before p (length p)
unfolding decrement end
decrement_within p h = ground (arith, h)

last_of_name :
    (q : Bytes) (c : ℕ) (t : Bytes)
    → Lacks separator (c ∷ t)
    → is_separator (get_or (q ++ c ∷ t) (length (q ++ c ∷ t) - 1) 0) ≡ false
last_of_name q c t h =
    let n : length (q ++ c ∷ t) - 1 ≡ length q + length t =
      omega (arith, length-append q (c ∷ t)) in
    ap (λ k. is_separator (get_or (q ++ c ∷ t) k 0)) n
    ∙ ap is_separator (get_or-append q (c ∷ t) (length t))
    ∙ get_or-Lacks (c ∷ t) (length t) h (omega arith)

-- From end() the iterator goes back to a last name.
pub decrement-name :
    {q t : Bytes}
    → IsBefore q
    → IsName t
    → decrement (q ++ t) (end (q ++ t)) ≡ record { element = t; pos = length q }
decrement-name {q} b (name c t ne h) =
    decrement_within (q ++ c ∷ t) (last_of_name q c t (ne, h)) ∙ element_before-name b (ne, h)

pub names-Lacks : (w t : Bytes) → Lacks separator t → names w t ≡ (w ++ t) ∷ []
unfolding names
names-Lacks w [] h = rw append-nil
names-Lacks w (c ∷ t) (ne, h) =
    ground (arith, ne, names-Lacks (w ++ c ∷ []) t h, append_assoc w (c ∷ []) t)

pub is_empty-++ : (p : Bytes) (c : ℕ) (t : Bytes) → is_empty (p ++ c ∷ t) ≡ false
unfolding is_empty
is_empty-++ [] c t = refl
is_empty-++ (d ∷ p) c t = refl

append_name : (p : Bytes) (c : ℕ) (t : Bytes) → is_empty (append p (c ∷ t)) ≡ false
unfolding append is_empty
append_name p c t = ground (arith, is_empty-++ (with_separator p (c ∷ t)) c t)

append_keeps : (p e : Bytes) → is_empty p ≡ false → is_empty (append p e) ≡ false
append_keeps p [] h = unfold append is_empty in h
append_keeps p (c ∷ e) h = append_name p c e

append_all_keeps :
    (p : Bytes) (es : List Bytes) → is_empty p ≡ false → is_empty (append_all p es) ≡ false
unfolding append_all
append_all_keeps p [] h = h
append_all_keeps p (e ∷ es) h = append_all_keeps (append p e) es (append_keeps p e h)

append_full : (r e : Bytes) → is_empty e ≡ false → is_empty (append r e) ≡ false
unfolding is_empty
append_full r [] h = ground arith
append_full r (c ∷ e) h = append_name r c e

append_all_one : (r e : Bytes) → is_empty e ≡ false → is_empty (append_all r (e ∷ [])) ≡ false
unfolding append_all
append_all_one r e h = append_full r e h

append_all-names_last :
    (r w : Bytes) (c : ℕ) (t : Bytes)
    → Lacks separator (c ∷ t)
    → is_empty (append_all r (names w (c ∷ t))) ≡ false
append_all-names_last r w c t h =
    ap (λ es. is_empty (append_all r es)) (names-Lacks w (c ∷ t) h)
    ∙ append_all_one r (w ++ c ∷ t) (is_empty-++ w c t)

-- The names of a text that ends in a name are not an empty path.
append_all-names :
    (r w s : Bytes) {t : Bytes} → IsName t → is_empty (append_all r (names w (s ++ t))) ≡ false
unfolding names append_all
append_all-names r w [] (name c t ne h) = append_all-names_last r w c t (ne, h)
append_all-names r [] (d ∷ s) n = elim (Bool-cases (d == separator)) [
  | inl e ↦ rw e (append_all-names r [] s n)
  | inr e ↦ rw e (append_all-names r (d ∷ []) s n)
]
append_all-names r (c ∷ w) (d ∷ s) n = elim (Bool-cases (d == separator)) [
  | inl e ↦ rw e (append_all-names (append r (c ∷ w)) [] s n)
  | inr e ↦ rw e (append_all-names r (c ∷ (w ++ d ∷ [])) s n)
]

relative_path-absolute : (s : Bytes) → relative_path (separator ∷ s) ≡ append_all [] (after s)
unfolding relative_path root_collection is_absolute is_empty join end
relative_path-absolute s =
    ap
      (λ it. append_all [] (
        range (suc (length (separator ∷ s))) (separator ∷ s) (increment (separator ∷ s) it)
          (length (separator ∷ s))))
      (begins_with separator s)
    ∙ ap (append_all []) (range-root (suc (length (separator ∷ s))) s (omega arith))

relative_path-relative :
    (c : ℕ) (s : Bytes) → (c == separator) ≡ false → relative_path (c ∷ s) ≡ c ∷ s
unfolding relative_path root_collection is_absolute is_empty
relative_path-relative c s h = rw h refl

after-name : (s : Bytes) {t : Bytes} → IsName t → names [] (s ++ t) ≡ after (s ++ t)
unfolding after
after-name [] (name c t ne h) = refl
after-name (d ∷ s) n = refl

relative_path_root :
    (s : Bytes) {t : Bytes} → IsName t → is_empty (relative_path (separator ∷ (s ++ t))) ≡ false
relative_path_root s {t} n =
    ap is_empty (relative_path-absolute (s ++ t) ∙ ap (append_all []) (sym (after-name s n)))
    ∙ append_all-names [] [] s n

relative_path_start :
    (c : ℕ) (s : Bytes) → (c == separator) ≡ false → is_empty (relative_path (c ∷ s)) ≡ false
relative_path_start c s h = ap is_empty (relative_path-relative c s h) ∙ is_empty-++ [] c s

relative_path_found : (s : Bytes) {t : Bytes} → IsName t → is_empty (relative_path (s ++ t)) ≡ false
relative_path_found [] (name c t ne h) = relative_path_start c t (ground (arith, ne))
relative_path_found (d ∷ s) {t} n = elim (Bool-cases (d == separator)) [
  | inl e ↦
      subst (λ d. is_empty (relative_path (d ∷ (s ++ t))) ≡ false) (sym ((==_iff d separator).0 e))
        (relative_path_root s n)
  | inr e ↦ relative_path_start d (s ++ t) e
]

-- The object name of a path that ends in a name is that name.
pub object_name-append : {q t : Bytes} → IsBefore q → IsName t → object_name (q ++ t) ≡ t
unfolding object_name
object_name-append {q} {t} b n =
    rw (relative_path_found q n) (ap (λ it. it.element) (decrement-name b n))
