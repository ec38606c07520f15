-- ===== src/FsPath/Appended.antt =====
-- src/filesystem/path.cpp: the object name of what `operator/=` and replace_object_name make.
use irods_client_library_cpp.Base.{
  ℕ, ◌-◌, ◌≡◌, sym, ap, subst, ◌∙◌, true, false, [], ◌∷◌, ◌++◌, arith, ◌==◌, if◌then◌else◌,
  Bool-cases, ==_iff, inl, inr, Bytes, length, get_or,
}
use irods_client_library_cpp.FsPath.Iteration.{separator, is_empty, is_absolute}
use irods_client_library_cpp.FsPath.{
  append, with_separator, remove_object_name, replace_object_name, object_name,
}
use irods_client_library_cpp.FsPath.ObjectName.{
  IsName, name, IsBefore, nothing, behind, object_name-append,
}

ends_split :
    (c : ℕ) (p : Bytes)
    → (get_or (c ∷ p) (length p) 0 == separator) ≡ true
    → (q : Bytes) × (c ∷ p ≡ q ++ separator ∷ [])
ends_split c [] h = ([], ap (λ c. c ∷ []) ((==_iff c separator).0 h))
ends_split c (d ∷ p) h = let (q, e) = ends_split d p h in (c ∷ q, ap (λ r. c ∷ r) e)

ends-IsBefore :
    (c : ℕ) (p : Bytes) → (get_or (c ∷ p) (length p) 0 == separator) ≡ true → IsBefore (c ∷ p)
ends-IsBefore c p h = let (q, e) = ends_split c p h in subst IsBefore (sym e) (behind q)

with_separator_cons :
    (c : ℕ) (p : Bytes) (d : ℕ) (t : Bytes)
    → (d == separator) ≡ false
    → with_separator (c ∷ p) (d ∷ t)
      ≡ (if get_or (c ∷ p) (length p) 0 == separator then c ∷ p else (c ∷ p) ++ separator ∷ [])
unfolding with_separator is_empty
with_separator_cons c p d t h =
    let last : length (c ∷ p) - 1 ≡ length p = omega arith in ground (arith, h, last)

pub with_separator-IsBefore : (p : Bytes) {t : Bytes} → IsName t → IsBefore (with_separator p t)
with_separator-IsBefore [] (name d t ne h) = unfold with_separator is_empty in nothing
with_separator-IsBefore (c ∷ p) (name d t ne h) =
    subst IsBefore (sym (with_separator_cons c p d t (ground (arith, ne))))
      (elim (Bool-cases (get_or (c ∷ p) (length p) 0 == separator)) [
        | inl e ↦ rw e (ends-IsBefore c p e)
        | inr e ↦ rw e (behind (c ∷ p))
      ])

pub append-IsName : (p : Bytes) {t : Bytes} → IsName t → append p t ≡ with_separator p t ++ t
unfolding append is_empty is_absolute
append-IsName p (name d t ne h) = ground (arith, ne)

pub object_name_appended : (p : Bytes) {t : Bytes} → IsName t → object_name (append p t) ≡ t
object_name_appended p n =
    ap object_name (append-IsName p n) ∙ object_name-append (with_separator-IsBefore p n) n

-- Whatever the path, the object name of what `operator/=` makes of it and of a name is that name, and
-- replace_object_name replaces the object name by it.
pub object_name_replaced :
    (p : Bytes) {t : Bytes}
    → IsName t
    → (object_name (append p t) ≡ t) × (object_name (replace_object_name p t) ≡ t)
unfolding replace_object_name
object_name_replaced p {t} n =
    (object_name_appended p n, object_name_appended (remove_object_name p) n)
