-- ===== src/FsPath/LastName.antt =====
-- src/filesystem/path.cpp: what is written behind the last name of a path, and what takes it off.
use irods_client_library_cpp.Base.{
  ℕ, ◌+◌, ◌-◌, ◌≡◌, refl, ap, ◌∙◌, false, [], ◌∷◌, ◌++◌, some, none, arith, ◌==◌, if◌then◌else◌,
  Bytes, Lacks, length, length-append, take-append_add, get_or, append_assoc,
}
use irods_client_library_cpp.FsPath.Iteration.{separator, is_separator, is_empty}
use irods_client_library_cpp.FsPath.{append, with_separator, find_last_of, remove_object_name}
use irods_client_library_cpp.FsPath.Moves.{get_or-append}
use irods_client_library_cpp.FsPath.ObjectName.{IsName, name, is_empty-++, get_or-Lacks}
use irods_client_library_cpp.FsPath.Appended.{append-IsName}

find_last_of-Lacks : (t : Bytes) → Lacks separator t → find_last_of separator t ≡ none
unfolding find_last_of
find_last_of-Lacks [] h = refl
find_last_of-Lacks (c ∷ t) (ne, h) = ground (arith, ne, find_last_of-Lacks t h)

pub find_last_of-append :
    (f t : Bytes)
    → Lacks separator t
    → find_last_of separator (f ++ separator ∷ t) ≡ some (length f)
unfolding find_last_of
find_last_of-append [] t h = ground (arith, find_last_of-Lacks t h)
find_last_of-append (c ∷ f) t h = ground (arith, find_last_of-append f t h)

pub remove_last :
    (f t : Bytes)
    → Lacks separator t
    → remove_object_name (f ++ separator ∷ t) ≡ f ++ separator ∷ []
unfolding remove_object_name
remove_last f t h =
    rw (find_last_of-append f t h, remove_object_name) (take-append_add f (separator ∷ t) 1)

last_character :
    (f t : Bytes)
    → get_or (f ++ separator ∷ t) (length (f ++ separator ∷ t) - 1) 0
      ≡ get_or (separator ∷ t) (length t) 0
last_character f t =
    let n : length (f ++ separator ∷ t) - 1 ≡ length f + length t =
      omega (arith, length-append f (separator ∷ t)) in
    ap (λ k. get_or (f ++ separator ∷ t) k 0) n ∙ get_or-append f (separator ∷ t) (length t)

with_separator_last :
    (p : Bytes) {e : Bytes}
    → IsName e
    → is_empty p ≡ false
    → with_separator p e
      ≡ (if get_or p (length p - 1) 0 == separator then p else p ++ separator ∷ [])
unfolding with_separator
with_separator_last p (name c t ne h) full = ground (arith, ne, full)

-- What `operator/=` makes of a path with a known last name, and of a name.
append_last :
    (f w : Bytes) {e : Bytes}
    → IsName e
    → append (f ++ separator ∷ w) e
      ≡ (if get_or (separator ∷ w) (length w) 0 == separator
          then f ++ separator ∷ w
          else (f ++ separator ∷ w) ++ separator ∷ [])
        ++ e
append_last f w {e} n =
    let p = f ++ separator ∷ w in
    append-IsName p n
    ∙ ap (λ r. r ++ e) (with_separator_last p n (is_empty-++ f separator w))
    ∙ ap (λ k. (if k == separator then p else p ++ separator ∷ []) ++ e) (last_character f w)

pub append_closed :
    (f : Bytes) {e : Bytes} → IsName e → append (f ++ separator ∷ []) e ≡ f ++ separator ∷ e
append_closed f {e} n = append_last f [] n ∙ append_assoc f (separator ∷ []) e

pub append_open :
    (f : Bytes) (d : ℕ) (w : Bytes) {e : Bytes}
    → Lacks separator (d ∷ w)
    → IsName e
    → append (f ++ separator ∷ (d ∷ w)) e ≡ (f ++ separator ∷ (d ∷ w)) ++ separator ∷ e
unfolding is_separator
append_open f d w {e} h n =
    let p = f ++ separator ∷ (d ∷ w) in
    let ends : (get_or (d ∷ w) (length w) 0 == separator) ≡ false =
      get_or-Lacks (d ∷ w) (length w) h (omega arith) in
    append_last f (d ∷ w) n
    ∙ ap (λ b. (if b then p else p ++ separator ∷ []) ++ e) ends
    ∙ append_assoc p (separator ∷ []) e
