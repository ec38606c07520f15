-- ===== src/StringOpr/Split.antt =====
-- What splitPathByKey makes of a path with the key in it.
use irods_client_library_cpp.Base.{
  ℕ, ◌-◌, ◌≤◌, ◌≡◌, refl, ap, ◌∙◌, ◌==◌, ltb, leb, false, ◌&&◌, ◌||◌, none, some, [], ◌∷◌, ◌++◌,
  Bytes, length, length-append, take, take-length, take_all, drop-middle, if◌then◌else◌, Lacks,
  arith,
}
use irods_client_library_cpp.Arrays.{rstrcpy}
use irods_client_library_cpp.StringOpr.{
  Status, success, user_strlen_toolong, rfind, split_at, split_path_by_key,
}

rfind-Lacks : (key : ℕ) (s : Bytes) → Lacks key s → rfind key s ≡ none
unfolding rfind
rfind-Lacks key [] h = refl
rfind-Lacks key (c ∷ s) (h, hs) = ground (arith, h, rfind-Lacks key s hs)

rfind-last : (key : ℕ) (d f : Bytes) → Lacks key f → rfind key (d ++ key ∷ f) ≡ some (length d)
unfolding rfind
rfind-last key [] f h = ground (arith, rfind-Lacks key f h)
rfind-last key (c ∷ d) f h = rw (rfind-last key d f h, rfind) (ap some (omega arith))

-- The directory of a path: the text before the last key, or the key where there is none.
abbrev directory : ℕ → Bytes → Bytes
directory key [] = key ∷ []
directory key (c ∷ d) = c ∷ d

take-directory :
    (key : ℕ) (d f : Bytes)
    → take (if leb (length d) 1 then 1 else length d) (d ++ key ∷ f) ≡ directory key d
take-directory key [] f = refl
take-directory key (c ∷ []) f = refl
take-directory key (c ∷ e ∷ d) f =
    let whole : Bytes = c ∷ e ∷ d in
    let long : leb (length whole) 1 ≡ false = ground arith in
    ap (λ b. take (if b then 1 else length whole) (whole ++ key ∷ f)) long
    ∙ take-length whole (key ∷ f)

-- Two texts that fit in their buffers are copied whole.
copied :
    (p q dir file : Bytes) (m n : ℕ)
    → ◌≡◌ {A = Status × Bytes × Bytes}
        (if leb m (length p) || leb n (length q)
          then (user_strlen_toolong, dir, file)
          else (success, rstrcpy p m, rstrcpy q n))
        (if ltb (length p) m && ltb (length q) n
          then (success, p, q)
          else (user_strlen_toolong, dir, file))
unfolding rstrcpy
copied p q dir file m n = ground (arith, take_all (m - 1) p, take_all (n - 1) q)

-- Whatever the two buffers hold, whose sizes are not 0, and whatever the path is: of a path with the
-- key in it, splitPathByKey gives the text before the last key, or the key itself where there is
-- none, and the text behind the last key, both whole, where both fit in their buffers with their
-- NULs; where one does not, it answers USER_STRLEN_TOOLONG and leaves both buffers as they were.
pub split_path_by_key_lem :
    (key : ℕ) (d f dir : Bytes) (m : ℕ) (file : Bytes) (n : ℕ)
    → Lacks key f
    → 1 ≤ m
    → 1 ≤ n
    → split_path_by_key key (d ++ key ∷ f) dir m file n ≡ (
        if ltb (length (directory key d)) m && ltb (length f) n
        then (success, directory key d, f)
        else (user_strlen_toolong, dir, file))
unfolding split_path_by_key split_at
split_path_by_key_lem key d f dir m file n h hm hn =
    let sizes : (m == 0 || n == 0) ≡ false = ground (arith, hm, hn) in
    let full : (length (d ++ key ∷ f) == 0) ≡ false = ground (arith, length-append d (key ∷ f)) in
    rw
      (
        sizes,
        full,
        rfind-last key d f h,
        split_at,
        take-directory key d f,
        drop-middle d key f (length d) refl,
      )
      (copied (directory key d) f dir file m n)
