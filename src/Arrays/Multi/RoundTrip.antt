-- ===== src/Arrays/Multi/RoundTrip.antt =====
-- Strings that are joined by single percent signs, with their own percent signs doubled, are taken
-- apart again.
use irods_client_library_cpp.Base.{
  ℕ, zero, suc, ◌+◌, ◌≤◌, ◌<◌, ◌≡◌, refl, sym, ap, ap₂, subst, ◌∙◌, ◌≢◌, ◌==◌, true, false, Option,
  none, some, [], ◌∷◌, ◌++◌, List, map, append-nil, append_assoc, Bytes, length, get_or,
  length-append, if◌then◌else◌, inl, inr, Bool-cases, All, ok, arith,
}
use irods_client_library_cpp.Arrays.{StrArray, add_str_array}
use irods_client_library_cpp.Arrays.Rows.{HoldsRows, add_str_array-HoldsRows}
use irods_client_library_cpp.Arrays.Multi.{
  scan, added, multi_loop, parse_multi_str, halved, split_multi_str,
}

unfoldable pub doubled : Bytes → Bytes
doubled [] = []
doubled (c ∷ s) = if c == b'%' then c ∷ c ∷ doubled s else c ∷ doubled s

unfoldable pub joined : List Bytes → Bytes
joined [] = []
joined (w ∷ []) = doubled w
joined (w ∷ v ∷ ws) = doubled w ++ b'%' ∷ joined (v ∷ ws)

-- A string that can stand behind a delimiter: it is not empty and does not begin with one.
abbrev pub IsPlain : Bytes → Type 0
IsPlain w = get_or w 0 b'%' ≢ b'%'

-- What follows a delimiter.
abbrev IsClear : Bytes → Type 0
IsClear t = get_or t 0 0 ≢ b'%'

-- A scan with its first part put together.
abbrev after : Bytes → Bytes × Option Bytes → Bytes × Option Bytes
after w (v, behind) = (w ++ v, behind)

scan_both :
    (c : ℕ) (s : Bytes) → (c == b'%') ≡ true → scan (c ∷ c ∷ s) ≡ after (c ∷ c ∷ []) (scan s)
unfolding scan
scan_both c s h = ground (arith, h)

scan_other : (c : ℕ) (s : Bytes) → (c == b'%') ≡ false → scan (c ∷ s) ≡ after (c ∷ []) (scan s)
unfolding scan
scan_other c [] h = ground (arith, h)
scan_other c (d ∷ s) h = ground (arith, h)

scan_here : (t : Bytes) → IsClear t → scan (b'%' ∷ t) ≡ ([], some t)
unfolding scan
scan_here [] h = refl
scan_here (d ∷ t) h = ground (arith, h)

module _ (c : ℕ) (w : Bytes) where
  doubled_both : (c == b'%') ≡ true → doubled (c ∷ w) ≡ c ∷ c ∷ doubled w
  unfolding doubled
  doubled_both h = ground (arith, h)

  doubled_other : (c == b'%') ≡ false → doubled (c ∷ w) ≡ c ∷ doubled w
  unfolding doubled
  doubled_other h = ground (arith, h)

  doubled-IsClear : IsPlain (c ∷ w) → (r : Bytes) → IsClear (doubled (c ∷ w) ++ r)
  unfolding doubled
  doubled-IsClear h r = ground (arith, h)

scan-doubled :
    (w r : Bytes) (behind : Option Bytes)
    → scan r ≡ ([], behind)
    → scan (doubled w ++ r) ≡ (doubled w, behind)
unfolding doubled
scan-doubled [] r behind e = e
scan-doubled (c ∷ w) r behind e = elim (Bool-cases (c == b'%')) [
  | inl h ↦
      ap (λ v. scan (v ++ r)) (doubled_both c w h)
      ∙ scan_both c (doubled w ++ r) h
      ∙ ap (after (c ∷ c ∷ [])) (scan-doubled w r behind e)
      ∙ ap (λ v. (v, behind)) (sym (doubled_both c w h))
  | inr h ↦
      ap (λ v. scan (v ++ r)) (doubled_other c w h)
      ∙ scan_other c (doubled w ++ r) h
      ∙ ap (after (c ∷ [])) (scan-doubled w r behind e)
      ∙ ap (λ v. (v, behind)) (sym (doubled_other c w h))
]

halved_both : (c : ℕ) (s : Bytes) → (c == b'%') ≡ true → halved (c ∷ c ∷ s) ≡ c ∷ halved s
unfolding halved
halved_both c s h = ground (arith, h)

halved_other : (c : ℕ) (s : Bytes) → (c == b'%') ≡ false → halved (c ∷ s) ≡ c ∷ halved s
unfolding halved
halved_other c [] h = refl
halved_other c (d ∷ s) h = ground (arith, h)

halved-doubled : (w : Bytes) → halved (doubled w) ≡ w
unfolding halved doubled
halved-doubled [] = refl
halved-doubled (c ∷ w) = elim (Bool-cases (c == b'%')) [
  | inl h ↦
      ap halved (doubled_both c w h) ∙ halved_both c (doubled w) h ∙ ap (◌∷◌ c) (halved-doubled w)
  | inr h ↦
      ap halved (doubled_other c w h) ∙ halved_other c (doubled w) h ∙ ap (◌∷◌ c) (halved-doubled w)
]

joined-IsClear : (w : Bytes) (ws : List Bytes) → IsPlain w → IsClear (joined (w ∷ ws))
unfolding joined
joined-IsClear [] ws h = absurd (h refl)
joined-IsClear (c ∷ w) [] h =
    subst IsClear (append-nil (doubled (c ∷ w))) (doubled-IsClear c w h [])
joined-IsClear (c ∷ w) (v ∷ ws) h = doubled-IsClear c w h (b'%' ∷ joined (v ∷ ws))

scan_nil : scan [] ≡ ([], none)
unfolding scan
scan_nil = refl

length-joined : (w : Bytes) (ws : List Bytes) → length ws ≤ length (joined (w ∷ ws))
unfolding joined
length-joined w [] = omega arith
length-joined w (v ∷ ws) =
    omega (arith, length-joined v ws, length-append (doubled w) (b'%' ∷ joined (v ∷ ws)))

added_step : (a b : StrArray) (value : Bytes) → add_str_array a value ≡ ok b → added a value ≡ b
unfolding added
added_step a b value e = rw (e, added) refl

module _ (edit : Bytes → Bytes) (fuel : ℕ) (a : StrArray) (s w : Bytes) where
  loop_last : scan s ≡ (w, none) → multi_loop edit (suc fuel) a s ≡ some (added a (edit w))
  unfolding multi_loop
  loop_last e = rw (e, multi_loop) (ap (λ x. some (added a (edit x.0))) e)

  loop_more :
      (t : Bytes)
      → scan s ≡ (w, some t)
      → multi_loop edit (suc fuel) a s ≡ multi_loop edit fuel (added a (edit w)) t
  unfolding multi_loop
  loop_more t e = rw (e, multi_loop) (ap (λ x. multi_loop edit fuel (added a (edit x.0)) t) e)

-- The loop, with what it makes of each string.
multi_loop-joined :
    (edit : Bytes → Bytes) (w : Bytes) (ws : List Bytes) (fuel : ℕ) (a : StrArray)
    (rows : List Bytes)
    → HoldsRows a rows
    → All IsPlain ws
    → length ws < fuel
    → (b : StrArray) × (multi_loop edit fuel a (joined (w ∷ ws)) ≡ some b)
      × HoldsRows b (rows ++ map (λ v. edit (doubled v)) (w ∷ ws))
unfolding joined
multi_loop-joined edit w ws zero a rows holds plain low = elim low [ ]
multi_loop-joined edit w [] (suc fuel) a rows holds plain low =
    let e : scan (doubled w) ≡ (doubled w, none) =
      ap scan (sym (append-nil (doubled w))) ∙ scan-doubled w [] none scan_nil in
    let (b, f, h) = add_str_array-HoldsRows a rows (edit (doubled w)) holds in
    (b, loop_last edit fuel a (doubled w) (doubled w) e ∙ ap some (added_step a b _ f), h)
multi_loop-joined edit w (v ∷ ws) (suc fuel) a rows holds (plain, rest) low =
    let t : Bytes = joined (v ∷ ws) in
    let e : scan (doubled w ++ b'%' ∷ t) ≡ (doubled w, some t) =
      scan-doubled w (b'%' ∷ t) (some t) (scan_here t (joined-IsClear v ws plain)) in
    let (b, f, h) = add_str_array-HoldsRows a rows (edit (doubled w)) holds in
    let (c, g, k) =
      multi_loop-joined edit v ws fuel b (rows ++ edit (doubled w) ∷ []) h rest (omega arith) in
    (
      c,
      loop_more edit fuel a (doubled w ++ b'%' ∷ t) (doubled w) t e
          ∙ ap (λ x. multi_loop edit fuel x t) (added_step a b _ f)
          ∙ g,
      subst (HoldsRows c)
          (append_assoc rows (edit (doubled w) ∷ []) (map (λ u. edit (doubled u)) (v ∷ ws))) k,
    )

map_same : (f : Bytes → Bytes) → ((w : Bytes) → f w ≡ w) → (ws : List Bytes) → map f ws ≡ ws
map_same f h [] = refl
map_same f h (w ∷ ws) = ap₂ ◌∷◌ (h w) (map_same f h ws)

-- Of strings that are joined by percent signs, with the percent signs in them doubled, both
-- functions add each to the array, in the order of the text, and return its length: splitMultiStr
-- as it was, parseMultiStr with its percent signs doubled. The strings behind the first are not
-- empty and do not begin with a percent sign, and there is fuel for a round more than the text has
-- bytes.
pub multi_str-joined :
    (w : Bytes) (ws : List Bytes) (a : StrArray) (rows : List Bytes)
    → HoldsRows a rows
    → All IsPlain ws
    → ((b : StrArray) × (split_multi_str (joined (w ∷ ws)) a ≡ some (b.len, b))
        × HoldsRows b (rows ++ w ∷ ws))
      × ((b : StrArray) × (parse_multi_str (joined (w ∷ ws)) a ≡ some (b.len, b))
          × HoldsRows b (rows ++ map doubled (w ∷ ws)))
unfolding split_multi_str parse_multi_str
multi_str-joined w ws a rows holds plain =
    let fuel : ℕ = length (joined (w ∷ ws)) + 1 in
    let low : length ws < fuel = omega (arith, length-joined w ws) in
    let (b, e, h) = multi_loop-joined halved w ws fuel a rows holds plain low in
    let (c, f, k) = multi_loop-joined (λ v. v) w ws fuel a rows holds plain low in
    (
      (
        b,
        rw (e, split_multi_str) refl,
        subst (λ v. HoldsRows b (rows ++ v))
            (map_same (λ v. halved (doubled v)) halved-doubled (w ∷ ws)) h,
      ),
      (c, rw (f, parse_multi_str) refl, k),
    )
