-- ===== src/FsPath/Lexical.antt =====
-- src/filesystem/path.cpp: lexically_normal of an absolute path, by its names.
use irods_client_library_cpp.Base.{
  ℕ, ◌≡◌, ◌≢◌, refl, sym, ap, ◌∙◌, false, List, [], ◌∷◌, ◌++◌, arith, ◌==◌, Bool-cases, inl, inr,
  Bytes, str_eq, All, All-append, Lacks,
}
use irods_client_library_cpp.FsPath.Iteration.{separator}
use irods_client_library_cpp.FsPath.{append, dot_dot, normal_loop, lexically_normal}
use irods_client_library_cpp.FsPath.Elements.{names, close_name, after, split_path}
use irods_client_library_cpp.FsPath.Visits.{elements_visit}
use irods_client_library_cpp.FsPath.NormalLoop.{absolute, rooted, put, normal, normal_loop-normal}

no_separator : (c : ℕ) → (c == separator) ≡ false → c ≢ separator
no_separator c e h = ground (arith, e, h)

names-All : (w s : Bytes) → Lacks separator w → All (Lacks separator) (names w s)
unfolding names close_name
names-All w [] h = (h, tt)
names-All [] (c ∷ s) h = elim (Bool-cases (c == separator)) [
  | inl e ↦ rw e (names-All [] s tt)
  | inr e ↦ rw e (names-All (c ∷ []) s (no_separator c e, tt))
]
names-All (d ∷ w) (c ∷ s) h = elim (Bool-cases (c == separator)) [
  | inl e ↦ rw e (h, names-All [] s tt)
  | inr e ↦ rw e (
      names-All (d ∷ (w ++ c ∷ [])) s
        (All-append (λ c. c ≢ separator) (d ∷ w) (c ∷ []) h (no_separator c e, tt)))
]

after-Lacks : (s : Bytes) → All (Lacks separator) (after s)
unfolding after
after-Lacks [] = tt
after-Lacks (c ∷ s) = names-All [] (c ∷ s) tt

root_first :
    (es : List Bytes) → normal_loop [] ((separator ∷ []) ∷ es) ≡ normal_loop (absolute [] []) es
unfolding normal_loop absolute rooted append
root_first es = refl

normal-root :
    (s : Bytes) → lexically_normal (separator ∷ s) ≡ normal_loop (absolute [] []) (after s)
unfolding lexically_normal split_path absolute after
normal-root s = ap (normal_loop []) (elements_visit (separator ∷ s)) ∙ root_first (after s)

-- lexically_normal of every absolute path: dots are left out, two dots take off the name in front of
-- them, if there is one since the last two dots, but not its separator, and every other name is kept.
pub lexically_normal-normal :
    (s : Bytes) → lexically_normal (separator ∷ s) ≡ normal [] [] (after s)
lexically_normal-normal s = normal-root s ∙ normal_loop-normal [] [] (after s) tt (after-Lacks s)

normal_dots :
    (done : List Bytes) (last : Bytes) (fs : List Bytes)
    → normal done last (dot_dot ∷ dot_dot ∷ fs) ≡ normal done last (dot_dot ∷ fs)
unfolding normal str_eq
normal_dots done last fs = refl

normal_twice :
    (done : List Bytes) (last : Bytes) (es fs : List Bytes)
    → normal done last (es ++ dot_dot ∷ dot_dot ∷ fs) ≡ normal done last (es ++ dot_dot ∷ fs)
unfolding normal
normal_twice done last [] fs = normal_dots done last fs
normal_twice done last ([] ∷ es) fs = normal_twice done last es fs
normal_twice done last ((c ∷ n) ∷ es) fs = ground (
  arith,
  normal_twice done last es fs,
  normal_twice done [] es fs,
  normal_twice (put done last) (c ∷ n) es fs,
)

-- Two absolute paths of which one has two dots twice in a row where the other has them once, and that
-- are else of the same names, have the same normal form: the second two dots take off no name.
pub lexically_normal_twice :
    (s t : Bytes) (es fs : List Bytes)
    → after s ≡ es ++ dot_dot ∷ dot_dot ∷ fs
    → after t ≡ es ++ dot_dot ∷ fs
    → lexically_normal (separator ∷ s) ≡ lexically_normal (separator ∷ t)
lexically_normal_twice s t es fs h k =
    lexically_normal-normal s
    ∙ ap (normal [] []) h
    ∙ normal_twice [] [] es fs
    ∙ ap (normal [] []) (sym k)
    ∙ sym (lexically_normal-normal t)
