-- ===== src/Base64/Rounds.antt =====
-- src/core/src/base64.cpp: the rounds of the decoder on the characters of one group.
use irods_client_library_cpp.Base.{
  ok, ℕ, suc, ◌+◌, ◌*◌, ◌%◌, ◌≤◌, ◌<◌, ◌≡◌, refl, ap, ◌∙◌, Bool, true, [], ◌∷◌, ◌++◌, arith, ◌==◌,
  Bytes, length, holds_below, holds_below_at,
}
use irods_client_library_cpp.Base64.{State, code_at, mymap, group_bytes, shift_in, step, steps}

maps_back : ℕ → Bool
maps_back k = mymap (code_at k) == k

maps_back_table : holds_below maps_back 64 ≡ true
unfolding holds_below maps_back mymap code_at
maps_back_table = refl

maps_back_lem : (k : ℕ) → maps_back k ≡ true → mymap (code_at k) ≡ k
unfolding maps_back
maps_back_lem k h = ground arith

code_at-mod : (k : ℕ) → code_at k ≡ code_at (k % 64)
unfolding code_at
code_at-mod k = let e : k % 64 % 64 ≡ k % 64 = omega arith in rw e

pub mymap-code_at : (k : ℕ) → mymap (code_at k) ≡ k % 64
mymap-code_at k =
    ap mymap (code_at-mod k)
    ∙ maps_back_lem (k % 64) (holds_below_at maps_back 64 (k % 64) (omega arith) maps_back_table)

pub mymap-pad : mymap b'=' ≡ 254
unfolding mymap
mymap-pad = refl

-- A group's rounds: a code, and a pad.
pub step-code :
    (n : ℕ) (st : State) (k : ℕ) → st.g ≡ 3 → step n st (code_at k) ≡ shift_in n st (k % 64) st.g
unfolding step
step-code n st k h = ground (arith, mymap-code_at k)

pub step-pad : (n : ℕ) (st : State) (g : ℕ) → st.g ≡ suc g → step n st b'=' ≡ shift_in n st 0 g
unfolding step
step-pad n st g h = ground (arith, mymap-pad)

abbrev pub at_group : Bytes → State
at_group out = record { t = 0; y = 0; g = 3; out = out }

-- The four rounds of a whole group.
pub shift_in-more :
    (n t y h g c : ℕ) (out : Bytes)
    → y < 3
    → shift_in n (record { t = t; y = y; g = h; out = out }) c g
      ≡ ok (record { t = t * 64 + c; y = y + 1; g = g; out = out })
unfolding shift_in
shift_in-more n t y h g c out low = ground arith

pub shift_in-last :
    (n t g h c : ℕ) (out : Bytes)
    → length out + g ≤ n
    → shift_in n (record { t = t; y = 3; g = h; out = out }) c g
      ≡ ok (record { t = 0; y = 0; g = g; out = out ++ group_bytes (t * 64 + c) g })
unfolding shift_in
shift_in-last n t g h c out fits = ground arith

abbrev pub state : ℕ → ℕ → ℕ → Bytes → State
state t y g out = record { t = t; y = y; g = g; out = out }

pub step_more :
    (n t y k : ℕ) (out : Bytes)
    → y < 3
    → step n (state t y 3 out) (code_at k) ≡ ok (state (t * 64 + k % 64) (y + 1) 3 out)
step_more n t y k out h =
    step-code n (state t y 3 out) k refl ∙ shift_in-more n t y 3 3 (k % 64) out h

pub steps-cons :
    (n : ℕ) (st st' : State) (ch : ℕ) (s : Bytes)
    → step n st ch ≡ ok st'
    → steps n st (ch ∷ s) ≡ steps n st' s
unfolding steps
steps-cons n st st' ch s e = rw e

pub steps-nil : (n : ℕ) (st : State) → steps n st [] ≡ ok st
unfolding steps
steps-nil n st = refl

abbrev pub word : ℕ → ℕ → ℕ → ℕ → ℕ
word p q r s = (((0 * 64 + p) * 64 + q) * 64 + r) * 64 + s

-- The four rounds of a whole group.
pub steps-group :
    (n p q r k : ℕ) (out s : Bytes)
    → length out + 3 ≤ n
    → steps n (at_group out) (code_at p ∷ code_at q ∷ code_at r ∷ code_at k ∷ s)
      ≡ steps n (at_group (out ++ group_bytes (word (p % 64) (q % 64) (r % 64) (k % 64)) 3)) s
steps-group n p q r k out s fits =
    steps-cons n _ _ _ _ (step_more n 0 0 p out (omega arith))
    ∙ (steps-cons n _ _ _ _ (step_more n _ 1 q out (omega arith))
        ∙ (steps-cons n _ _ _ _ (step_more n _ 2 r out (omega arith))
            ∙ steps-cons n _ _ _ _
                (step-code n _ k refl ∙ shift_in-last n _ 3 3 (k % 64) out fits)))

-- A last group with one pad, and with two.
pub steps_pad1 :
    (n p q r : ℕ) (out : Bytes)
    → length out + 2 ≤ n
    → steps n (at_group out) (code_at p ∷ code_at q ∷ code_at r ∷ b'=' ∷ [])
      ≡ ok (state 0 0 2 (out ++ group_bytes (word (p % 64) (q % 64) (r % 64) 0) 2))
steps_pad1 n p q r out fits =
    steps-cons n _ _ _ _ (step_more n 0 0 p out (omega arith))
    ∙ (steps-cons n _ _ _ _ (step_more n _ 1 q out (omega arith))
        ∙ (steps-cons n _ _ _ _ (step_more n _ 2 r out (omega arith))
            ∙ (steps-cons n _ _ _ _ (step-pad n _ 2 refl ∙ shift_in-last n _ 2 3 0 out fits)
                ∙ steps-nil n _)))

pub steps_pad2 :
    (n p q : ℕ) (out : Bytes)
    → length out + 1 ≤ n
    → steps n (at_group out) (code_at p ∷ code_at q ∷ b'=' ∷ b'=' ∷ [])
      ≡ ok (state 0 0 1 (out ++ group_bytes (word (p % 64) (q % 64) 0 0) 1))
steps_pad2 n p q out fits =
    steps-cons n _ _ _ _ (step_more n 0 0 p out (omega arith))
    ∙ (steps-cons n _ _ _ _ (step_more n _ 1 q out (omega arith))
        ∙ (steps-cons n _ _ _ _ (step-pad n (state _ 2 3 out) 2 refl ∙ shift_in_pad)
            ∙ (steps-cons n _ _ _ _ (step-pad n _ 1 refl ∙ shift_in-last n _ 1 2 0 out fits)
                ∙ steps-nil n _)))
  where
    shift_in_pad :
        shift_in n (state ((0 * 64 + p % 64) * 64 + q % 64) 2 3 out) 0 2
        ≡ ok (state (((0 * 64 + p % 64) * 64 + q % 64) * 64 + 0) 3 2 out)
    shift_in_pad = shift_in-more n _ 2 3 2 0 out (omega arith)
