-- ===== src/RodsPath/Clean.antt =====
-- The loops of parseRodsPath end, and what they take out of a path is out of the path.
use irods_client_library_cpp.Base.{
  ℕ, zero, suc, ◌+◌, ◌-◌, ◌≤◌, ◌<◌, ◌≡◌, refl, sym, ap, subst, ◌∙◌, ◌≢◌, ◌⊎◌, inl, inr, ◌==◌, ltb,
  leb, ◌&&◌, Option, none, some, [], ◌∷◌, ◌++◌, Bytes, codes, starts_with, strstr, str_eq, length,
  take, drop, take-append-drop, Lacks, if_cases, if◌then◌else◌, Option-cases, Result, err, ok,
  ◌>>=◌, arith,
}
use irods_client_library_cpp.RodsPath.{
  ObjType, unknown_obj_t, coll_obj_t, Error, user_path_exceeds_max, user_input_path_err,
  max_path_allowed, RodsEnv, is_one_of, parse_in_env, parse_rods_path, take_out, go_back,
  take_out_up, check_length, at_end, finish, normalize,
}
use irods_client_library_cpp.RodsPath.Find.{
  Free, needle, strstr-Free, Free-strstr, Free-prefix, Shortened, Shortened-Free, Shortened-length,
  take_out-Shortened, take_out_up-Shortened,
}

-- What a loop makes of a path: it is free of the loop's needle, no longer than before, and still
-- free of every needle that it was free of.
record Left (mid s t : Bytes) : Type 0 where
  free : Free (needle mid) t
  shorter : length t ≤ length s
  stays : (m : Bytes) → Lacks b'/' m → Free (needle m) s → Free (needle m) t

Left-next : (mid s t u : Bytes) → Shortened s t → Left mid t u → Left mid s u
Left-next mid s t u sh l = record {
  free = l.free;
  shorter = omega (arith, l.shorter, Shortened-length s t sh);
  stays = λ m h f. l.stays m h (Shortened-Free m s t h sh f);
}

Left-here : (mid s : Bytes) → strstr (needle mid) s ≡ none → Left mid s s
Left-here mid s h = record {
  free = strstr-Free (needle mid) s h;
  shorter = omega arith;
  stays = λ m l f. f;
}

take_out-Left :
    (mid : Bytes) (fuel : ℕ) (s : Bytes)
    → length s < fuel
    → (t : Bytes) × (take_out (needle mid) fuel s ≡ ok t) × Left mid s t
unfolding take_out
take_out-Left mid zero s h = elim h [ ]
take_out-Left mid (suc fuel) s h = elim (Option-cases (strstr (needle mid) s)) [
  | inl e ↦ (s, rw (e, take_out) refl, Left-here mid s e)
  | inr (i, e) ↦
      let next : Bytes = take (i + 1) s ++ drop (i + length (needle mid)) s in
      let sh = take_out-Shortened mid s i e in
      let (t, f, l) = take_out-Left mid fuel next (omega (arith, h, Shortened-length s next sh)) in
      (t, rw (e, take_out) f, Left-next mid s next t sh l)
]

take_out_up-Left :
    (fuel : ℕ) (s : Bytes)
    → length s < fuel
    → (take_out_up fuel s ≡ err user_input_path_err)
      ⊎ ((t : Bytes) × (take_out_up fuel s ≡ ok t) × Left (codes "..") s t)
unfolding take_out_up
take_out_up-Left zero s h = elim h [ ]
take_out_up-Left (suc fuel) s h = elim (Option-cases (strstr (codes "/../") s)) [
  | inl e ↦ inr (s, rw (e, take_out_up) refl, Left-here (codes "..") s e)
  | inr (i, e) ↦ elim (Option-cases (go_back s i)) [
    | inl g ↦ inl (rw (e, take_out_up, g) refl)
    | inr (j, g) ↦
        let next : Bytes = take (j + 1) s ++ drop (i + 4) s in
        let sh = take_out_up-Shortened s i j e g in
        elim (take_out_up-Left fuel next (omega (arith, h, Shortened-length s next sh))) [
          | inl f ↦ inl (rw (e, take_out_up, g) f)
          | inr (t, f, l) ↦ inr (t, rw (e, take_out_up, g) f, Left-next (codes "..") s next t sh l)
        ]
  ]
]

-- A path without "//", "/./" and "/../".
abbrev pub IsClean : Bytes → Type 0
IsClean t =
    (strstr (codes "//") t ≡ none)
    × (strstr (codes "/./") t ≡ none)
    × (strstr (codes "/../") t ≡ none)

-- What may come of a path: it is refused, or it is clean and short enough.
pub data IsNormalized : Result Error (Bytes × ObjType) → Type 0 where
  refused : IsNormalized (err user_input_path_err)
  too_long : IsNormalized (err user_path_exceeds_max)
  normal :
      {t : Bytes} {o : ObjType}
      → IsClean t
      → length t < max_path_allowed - 1
      → IsNormalized (ok (t, o))

IsClean-front : (s t : Bytes) → IsClean (s ++ t) → IsClean s
IsClean-front s t (a, b, c) = (
  Free-strstr (codes "//") s (Free-prefix (codes "//") s t (strstr-Free (codes "//") (s ++ t) a)),
  Free-strstr (codes "/./") s
      (Free-prefix (codes "/./") s t (strstr-Free (codes "/./") (s ++ t) b)),
  Free-strstr (codes "/../") s
      (Free-prefix (codes "/../") s t (strstr-Free (codes "/../") (s ++ t) c)),
)

IsClean-take : (n : ℕ) (s : Bytes) → IsClean s → IsClean (take n s)
IsClean-take n s h =
    IsClean-front (take n s) (drop n s) (subst IsClean (sym (take-append-drop n s)) h)

IsClean-root : IsClean (codes "/")
unfolding strstr starts_with
IsClean-root = (refl, refl, refl)

check_length-IsNormalized : (t : Bytes) (o : ObjType) → IsClean t → IsNormalized (check_length t o)
unfolding check_length
check_length-IsNormalized t o c =
    if_cases IsNormalized (leb (max_path_allowed - 1) (length t)) (λ h. too_long)
      (λ h. normal c (ground (arith, h)))

go_back-IsNormalized :
    (s : Bytes) (o : Option ℕ)
    → IsClean s
    → IsNormalized (elim o [
      | none ↦ err user_input_path_err
      | some j ↦ check_length (if j == 0 then codes "/" else take j s) coll_obj_t
    ])
go_back-IsNormalized s none c = refused
go_back-IsNormalized s (some j) c =
    check_length-IsNormalized (if j == 0 then codes "/" else take j s) coll_obj_t
      (if_cases IsClean (j == 0) (λ h. IsClean-root) (λ h. IsClean-take j s c))

finish-IsNormalized : (s : Bytes) → IsClean s → IsNormalized (finish s)
unfolding finish
finish-IsNormalized s c =
    if_cases IsNormalized (at_end (codes "/..") s)
      (λ h. go_back-IsNormalized s (go_back s (length s - 3)) c)
      λ h1.
        if_cases IsNormalized (at_end (codes "/.") s)
          (λ h.
            check_length-IsNormalized (take (length s - 2) s) coll_obj_t
              (IsClean-take (length s - 2) s c))
          λ h2.
            if_cases IsNormalized (at_end (codes "/") s && ltb 1 (length s))
              (λ h.
                check_length-IsNormalized (take (length s - 1) s) coll_obj_t
                  (IsClean-take (length s - 1) s c))
              λ h3. check_length-IsNormalized s unknown_obj_t c

-- Whatever stands in `outPath`, the loops of parseRodsPath end, with as much fuel as the path has
-- bytes and one: the path is refused with USER_INPUT_PATH_ERR or USER_PATH_EXCEEDS_MAX, or what is
-- left of it has no "//", "/./" or "/../" in it and fewer than 1023 bytes.
pub normalize-IsNormalized : (s : Bytes) → IsNormalized (normalize s)
unfolding normalize
normalize-IsNormalized s =
    let (t, e, l) = take_out-Left [] (length s + 1) s (omega arith) in
    let (u, f, m) = take_out-Left (codes ".") (length t + 1) t (omega arith) in
    let a : Free (needle []) u = m.stays [] tt l.free in
    let start : normalize s ≡ (take_out_up (length u + 1) u >>= finish) =
      rw (e, normalize, f) refl in
    elim (take_out_up-Left (length u + 1) u (omega arith)) [
      | inl g ↦
          let r : normalize s ≡ err user_input_path_err = start ∙ ap (λ x. x >>= finish) g in
          subst IsNormalized (sym r) refused
      | inr (v, g, k) ↦
          let r : normalize s ≡ finish v = start ∙ ap (λ x. x >>= finish) g in
          let clean : IsClean v = (
            Free-strstr (codes "//") v (k.stays [] tt a),
            Free-strstr (codes "/./") v (k.stays (codes ".") (omega arith) m.free),
            Free-strstr (codes "/../") v k.free,
          ) in
          subst IsNormalized (sym r) (finish-IsNormalized v clean)
    ]

-- Two inputs that begin with a tilde and differ in the byte behind it only, which is no '/', are
-- parsed alike.
pub parse_rods_path_tilde :
    (c d : ℕ) (name : Bytes) (env : RodsEnv)
    → c ≢ b'/'
    → d ≢ b'/'
    → parse_rods_path (b'~' ∷ c ∷ name) (some env) ≡ parse_rods_path (b'~' ∷ d ∷ name) (some env)
unfolding parse_rods_path parse_in_env is_one_of str_eq
parse_rods_path_tilde c d name env hc hd = ground (arith, hc, hd)
