-- ===== src/FsPath/NormalLoop.antt =====
-- src/filesystem/path.cpp: the loop of lexically_normal, name by name.
use irods_client_library_cpp.Base.{
  ℕ, ◌≡◌, ◌↔◌, refl, sym, ap, ◌∙◌, true, false, List, [], ◌∷◌, ◌++◌, arith, ◌==◌, if◌then◌else◌,
  Bool-cases, inl, inr, Bytes, str_eq, str_eq_iff, All, Lacks, append_assoc, append-nil,
}
use irods_client_library_cpp.Base.Int.{pos}
use irods_client_library_cpp.FsPath.Iteration.{separator, is_empty}
use irods_client_library_cpp.FsPath.{
  append, remove_object_name, object_name, path_eq, compare, dot, dot_dot, normal_loop,
}
use irods_client_library_cpp.FsPath.Elements.{split_path}
use irods_client_library_cpp.FsPath.Compare.{compare_iff}
use irods_client_library_cpp.FsPath.ObjectName.{
  IsName, name, nothing, object_name-append, names-Lacks,
}
use irods_client_library_cpp.FsPath.LastName.{remove_last, append_closed, append_open}

-- The names that stand, each with a separator in front of it.
unfoldable pub rooted : List Bytes → Bytes
rooted [] = []
rooted (n ∷ ns) = separator ∷ (n ++ rooted ns)

-- An absolute path of names, with a last name that may be empty.
unfoldable pub absolute : List Bytes → Bytes → Bytes
unfolding rooted
absolute done last = rooted done ++ separator ∷ last

-- The names in front of one more.
unfoldable pub put : List Bytes → Bytes → List Bytes
put done [] = done
put done (c ∷ w) = done ++ (c ∷ w) ∷ []

-- The normal form, name by name: a dot is left out, two dots empty the last name, and a name is put in
-- the place of a last name that is empty, or behind it.
unfoldable pub normal : List Bytes → Bytes → List Bytes → Bytes
unfolding absolute put
normal done last [] = absolute done last
normal done last ([] ∷ es) = normal done last es
normal done last ((c ∷ n) ∷ es) =
    if str_eq (c ∷ n) dot
    then normal done last es
    else if str_eq (c ∷ n) dot_dot
    then normal done [] es
    else normal (put done last) (c ∷ n) es

rooted-snoc : (ns : List Bytes) (m : Bytes) → rooted (ns ++ m ∷ []) ≡ rooted ns ++ separator ∷ m
unfolding rooted
rooted-snoc [] m = ap (λ r. separator ∷ r) (append-nil m)
rooted-snoc (n ∷ ns) m =
    ap (λ r. separator ∷ (n ++ r)) (rooted-snoc ns m)
    ∙ ap (λ r. separator ∷ r) (sym (append_assoc n (rooted ns) (separator ∷ m)))

IsName-intro : (c : ℕ) (t : Bytes) → Lacks separator (c ∷ t) → IsName (c ∷ t)
IsName-intro c t (ne, h) = name c t ne h

split_path-Lacks : (c : ℕ) (t : Bytes) → Lacks separator (c ∷ t) → split_path (c ∷ t) ≡ (c ∷ t) ∷ []
unfolding split_path
split_path-Lacks c t (ne, h) =
    let no : (c == separator) ≡ false = ground (arith, ne) in rw no (names-Lacks (c ∷ []) t h)

path_eq_iff : (p q : Bytes) → (path_eq p q ≡ true) ↔ (compare p q ≡ pos 0)
unfolding path_eq
path_eq_iff p q = (λ h. ground arith, λ h. ground arith)

-- Paths of one name each are equal as texts are.
path_eq-Lacks :
    (c : ℕ) (t : Bytes) (d : ℕ) (u : Bytes)
    → Lacks separator (c ∷ t)
    → Lacks separator (d ∷ u)
    → path_eq (c ∷ t) (d ∷ u) ≡ str_eq (c ∷ t) (d ∷ u)
path_eq-Lacks c t d u h k = ground (
  arith,
  path_eq_iff (c ∷ t) (d ∷ u),
  compare_iff (c ∷ t) (d ∷ u),
  split_path-Lacks c t h,
  split_path-Lacks d u k,
  str_eq_iff (c ∷ t) (d ∷ u),
)

object_name_nil : object_name [] ≡ []
unfolding object_name
object_name_nil = refl

normal_loop_nil : (p : Bytes) (es : List Bytes) → normal_loop p ([] ∷ es) ≡ normal_loop p es
unfolding normal_loop object_name append is_empty
normal_loop_nil p es = refl

normal_loop_end : (p : Bytes) → normal_loop p [] ≡ p
unfolding normal_loop
normal_loop_end p = refl

normal_loop_cons :
    (p : Bytes) (c : ℕ) (n : Bytes) (es : List Bytes)
    → Lacks separator (c ∷ n)
    → normal_loop p ((c ∷ n) ∷ es)
      ≡ normal_loop
          (if str_eq (c ∷ n) dot
            then p
            else if str_eq (c ∷ n) dot_dot
            then remove_object_name p
            else append p (c ∷ n))
          es
unfolding normal_loop
normal_loop_cons p c n es h =
    rw
      (
        object_name-append nothing (IsName-intro c n h),
        path_eq-Lacks c n b'.' [] h (omega arith, tt),
        path_eq-Lacks c n b'.' (b'.' ∷ []) h (omega arith, (omega arith, tt)),
      )
      refl

append-put :
    (done : List Bytes) (last : Bytes) {e : Bytes}
    → Lacks separator last
    → IsName e
    → append (absolute done last) e ≡ absolute (put done last) e
unfolding absolute put
append-put done [] h n = append_closed (rooted done) n
append-put done (d ∷ w) {e} h n =
    append_open (rooted done) d w h n
    ∙ ap (λ r. r ++ separator ∷ e) (sym (rooted-snoc done (d ∷ w)))

remove-absolute :
    (done : List Bytes) (last : Bytes)
    → Lacks separator last
    → remove_object_name (absolute done last) ≡ absolute done []
unfolding absolute
remove-absolute done last h = remove_last (rooted done) last h

-- The loop of lexically_normal over names makes what is described by `normal`.
pub normal_loop-normal :
    (done : List Bytes) (last : Bytes) (es : List Bytes)
    → Lacks separator last
    → All (Lacks separator) es
    → normal_loop (absolute done last) es ≡ normal done last es
unfolding normal
normal_loop-normal done last [] h hs = normal_loop_end (absolute done last)
normal_loop-normal done last ([] ∷ es) h (_, hs) =
    normal_loop_nil (absolute done last) es ∙ normal_loop-normal done last es h hs
normal_loop-normal done last ((c ∷ n) ∷ es) h (k, hs) =
    normal_loop_cons (absolute done last) c n es k ∙ elim (Bool-cases (str_eq (c ∷ n) dot)) [
      | inl e ↦ rw e (normal_loop-normal done last es h hs)
      | inr e ↦ elim (Bool-cases (str_eq (c ∷ n) dot_dot)) [
        | inl f ↦
            rw (e, f)
              (ap (λ p. normal_loop p es) (remove-absolute done last h)
                ∙ normal_loop-normal done [] es tt hs)
        | inr f ↦
            rw (e, f)
              (ap (λ p. normal_loop p es) (append-put done last h (IsName-intro c n k))
                ∙ normal_loop-normal (put done last) (c ∷ n) es k hs)
      ]
    ]
