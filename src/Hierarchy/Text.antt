-- ===== src/Hierarchy/Text.antt =====
-- src/core/src/irods_hierarchy_parser.cpp: `str` and `set_string`.
use irods_client_library_cpp.Base.{
  ℕ, ◌≡◌, ◌≢◌, refl, sym, ap, ◌∙◌, true, false, List, [], ◌∷◌, ◌++◌, arith, if◌then◌else◌,
  Bool-cases, inl, inr, Bytes, str_eq, str_eq_iff, All, Lacks, append_assoc, append-nil, ok,
}
use irods_client_library_cpp.Tokenize.{is_one_of, drop_space, string_tokenize}
use irods_client_library_cpp.Tokenize.Fields.{flush, fields, string_tokenize-fields}
use irods_client_library_cpp.Hierarchy.{
  HierarchyParser, delimiter, add_child, copy_resources, copy_constructor, set_string, str_loop,
  str,
}

-- The resources with a delimiter before each but the first.
pub joined : List Bytes → Bytes
joined [] = []
joined (r ∷ []) = r
joined (r ∷ q ∷ rs) = r ++ b';' ∷ joined (q ∷ rs)

-- Up to the first resource of the name, that one included.
pub up_to : Bytes → List Bytes → List Bytes
up_to term [] = []
up_to term (r ∷ rs) = if str_eq r term then r ∷ [] else r ∷ up_to term rs

-- The loop behind the first resource.
following : List Bytes → Bytes
following [] = []
following (r ∷ rs) = b';' ∷ (r ++ following rs)

joined-following : (r : Bytes) (rs : List Bytes) → joined (r ∷ rs) ≡ r ++ following rs
unfolding joined following
joined-following r [] = sym (append-nil r)
joined-following r (q ∷ rs) = ap (λ x. r ++ b';' ∷ x) (joined-following q rs)

str_loop-following :
    (term text : Bytes) (rs : List Bytes)
    → str_loop term false text rs ≡ text ++ following (up_to term rs)
unfolding str_loop following up_to
str_loop-following term text [] = sym (append-nil text)
str_loop-following term text (r ∷ rs) = elim (Bool-cases (str_eq r term)) [
  | inl e ↦ rw e (rw append-nil (append_assoc text delimiter r))
  | inr e ↦ rw e (
      str_loop-following term ((text ++ delimiter) ++ r) rs
      ∙ (append_assoc (text ++ delimiter) r _ ∙ append_assoc text delimiter _))
]

str_loop-joined :
    (term : Bytes) (rs : List Bytes) → str_loop term true [] rs ≡ joined (up_to term rs)
unfolding str_loop up_to
str_loop-joined term [] = unfold joined in refl
str_loop-joined term (r ∷ rs) = elim (Bool-cases (str_eq r term)) [
  | inl e ↦ rw e (unfold joined in refl)
  | inr e ↦ rw e (str_loop-following term r rs ∙ sym (joined-following r (up_to term rs)))
]

-- `str` prints the resources up to the terminating one, or all, with the delimiter between them.
pub str-joined : (p : HierarchyParser) (term : Bytes) → str p term ≡ joined (up_to term p.resc_list)
unfolding str
str-joined p term = str_loop-joined term p.resc_list

-- A name that the text keeps: not empty, without the delimiter, not led by a space.
pub data IsName : Bytes → Type 0 where
  name : (c : ℕ) (s : Bytes) → c ≢ b' ' → Lacks b';' (c ∷ s) → IsName (c ∷ s)

is_one_of-delimiter : (c : ℕ) → c ≢ b';' → is_one_of delimiter c ≡ false
unfolding is_one_of
is_one_of-delimiter c h = ground arith

fields-Lacks :
    (cur s rest : Bytes)
    → Lacks b';' s
    → fields delimiter cur (s ++ rest) ≡ fields delimiter (cur ++ s) rest
unfolding fields
fields-Lacks cur [] rest h = rw append-nil
fields-Lacks cur (c ∷ s) rest h = rw (is_one_of-delimiter c h.0) (
    fields-Lacks (cur ++ c ∷ []) s rest h.1
    ∙ ap (λ x. fields delimiter x rest) (append_assoc cur (c ∷ []) s))

flush-IsName : {r : Bytes} → IsName r → flush r ≡ r ∷ []
unfolding flush drop_space
flush-IsName (name c s h k) = ap (λ x. x ∷ []) (ground arith)

fields-delimiter :
    (r rest : Bytes) → fields delimiter r (b';' ∷ rest) ≡ flush r ++ fields delimiter [] rest
unfolding fields is_one_of
fields-delimiter r rest = refl

IsName-Lacks : {r : Bytes} → IsName r → Lacks b';' r
IsName-Lacks (name c s h k) = k

fields-joined : (rs : List Bytes) → All IsName rs → fields delimiter [] (joined rs) ≡ rs
unfolding joined
fields-joined [] h = unfold fields flush in refl
fields-joined (r ∷ []) (h, _) =
    ap (fields delimiter []) (sym (append-nil r))
    ∙ (fields-Lacks [] r [] (IsName-Lacks h) ∙ unfold fields in flush-IsName h)
fields-joined (r ∷ q ∷ rs) (h, hs) =
    fields-Lacks [] r (b';' ∷ joined (q ∷ rs)) (IsName-Lacks h)
    ∙ (fields-delimiter r (joined (q ∷ rs))
        ∙ rw (flush-IsName h) (ap (◌∷◌ r) (fields-joined (q ∷ rs) hs)))

set_string-text :
    (p : HierarchyParser) (text : Bytes)
    → text ≢ []
    → set_string p text ≡ ok (record { resc_list = string_tokenize text delimiter [] })
unfolding set_string
set_string-text p [] h = absurd (h refl)
set_string-text p (c ∷ s) h = refl

joined-ne-nil : (r : Bytes) (rs : List Bytes) → IsName r → joined (r ∷ rs) ≢ []
unfolding joined
joined-ne-nil _ [] (name c s h k) e = cc
joined-ne-nil _ (q ∷ rs) (name c s h k) e = cc

up_to-absent : (term : Bytes) (rs : List Bytes) → All (λ r. r ≢ term) rs → up_to term rs ≡ rs
unfolding up_to
up_to-absent term [] h = refl
up_to-absent term (r ∷ rs) (h, hs) = elim (Bool-cases (str_eq r term)) [
  | inl e ↦ absurd (h ((str_eq_iff r term).0 e))
  | inr e ↦ rw e (ap (◌∷◌ r) (up_to-absent term rs hs))
]

set_string-joined :
    (p : HierarchyParser) (rs : List Bytes)
    → rs ≢ []
    → All IsName rs
    → set_string p (joined rs) ≡ ok (record { resc_list = rs })
set_string-joined p [] h names = absurd (h refl)
set_string-joined p (r ∷ rs) h names =
    set_string-text p (joined (r ∷ rs)) (joined-ne-nil r rs names.0)
    ∙ ap (λ l. ok (record { resc_list = l }))
        (string_tokenize-fields (joined (r ∷ rs)) delimiter [] ∙ fields-joined (r ∷ rs) names)

-- What the parser prints without an end, it reads back, whatever it held before: for a hierarchy with
-- a resource at least and names that are not empty, hold no delimiter and start with no space.
pub set_string-str :
    (p q : HierarchyParser) (term : Bytes)
    → q.resc_list ≢ []
    → All IsName q.resc_list
    → All (λ r. r ≢ term) q.resc_list
    → set_string p (str q term) ≡ ok q
set_string-str p q term some_resc names open_end =
    rw (str-joined q term, up_to-absent term q.resc_list open_end)
      (set_string-joined p q.resc_list some_resc names)

copy_resources-append :
    (rs : List Bytes) (p : HierarchyParser)
    → copy_resources rs p ≡ record { resc_list = p.resc_list ++ rs }
unfolding copy_resources add_child
copy_resources-append [] p = ap (λ l. record { resc_list = l }) (sym (append-nil p.resc_list))
copy_resources-append (r ∷ rs) p =
    copy_resources-append rs (add_child p r)
    ∙ ap (λ l. record { resc_list = l }) (append_assoc p.resc_list (r ∷ []) rs)

-- The copy constructor copies all the resources in their order.
copy_constructor_lem : (p : HierarchyParser) → copy_constructor p ≡ p
unfolding copy_constructor
copy_constructor_lem p = copy_resources-append p.resc_list (record { resc_list = [] })
