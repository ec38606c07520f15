-- ===== src/Arrays/Growth.antt =====
-- The arrays behave as lists to whose end an element is appended, and no write is out of bounds.
use irods_client_library_cpp.Base.{
  ℕ, zero, suc, ◌+◌, ◌-◌, ◌*◌, ◌/◌, ◌≤◌, ◌<◌, ◌≡◌, refl, sym, ap, subst, ◌∙◌, Option, none, some,
  [], ◌∷◌, ◌++◌, List, map, Bytes, length, take, replicate, set, append-nil, append_assoc,
  length-append, length-take, length-set, length-replicate, take-length, arith,
}
use native.Mathlib.Nat.{suc-add}
use irods_client_library_cpp.Base.Int.{ℤ, pos}
use irods_client_library_cpp.Arrays.{
  reserve, put, InxIvalPair, add_inx_ival, InxValPair, add_inx_val, ErrMsg, RError, add_r_error_msg,
  err_msg_len,
}

-- What is allocated for `len` elements.
abbrev pub allocated : ℕ → ℕ
allocated len = (len + 9) / 10 * 10

module _ {A : Type 0} where
  length-reserve :
      (zeros : A) (slots : List A) (len : ℕ)
      → length slots ≡ allocated len
      → (length (reserve zeros slots len) ≡ allocated (len + 1)) × (len < allocated (len + 1))
  unfolding reserve
  length-reserve zeros slots len h = ground (
    arith,
    length-append (take len slots) (replicate 10 zeros),
    length-take len slots,
    length-replicate 10 zeros,
  )

  -- A write behind the elements, and the elements afterwards.
  pub set_last :
      (slots : List A) (len : ℕ) (a : A)
      → len < length slots
      → take (len + 1) (set slots len a) ≡ take len slots ++ a ∷ []
  set_last [] len a h = elim h [ ]
  set_last (x ∷ slots) zero a h = refl
  set_last (x ∷ slots) (suc len) a h =
      rw (suc-add len 1) (ap (◌∷◌ x) (set_last slots len a (omega arith)))

  pub take_copied :
      (slots more : List A) (len : ℕ)
      → len ≤ length slots
      → take len (take len slots ++ more) ≡ take len slots
  take_copied slots more len h =
      let n : length (take len slots) ≡ len = omega (arith, length-take len slots) in
      subst (λ k. take k (take len slots ++ more) ≡ take len slots) n
        (take-length (take len slots) more)

  take-reserve :
      (zeros : A) (slots : List A) (len : ℕ)
      → length slots ≡ allocated len
      → take len (reserve zeros slots len) ≡ take len slots
  unfolding reserve
  take-reserve zeros slots len h =
      ground (arith, take_copied slots (replicate 10 zeros) len (omega arith))

  put-append :
      (zeros : A) (slots : List A) (len : ℕ) (a : A)
      → length slots ≡ allocated len
      → (length (put zeros slots len a) ≡ allocated (len + 1))
        × (take (len + 1) (put zeros slots len a) ≡ take len slots ++ a ∷ [])
  unfolding put
  put-append zeros slots len a h =
      let (l, b) = length-reserve zeros slots len h in
      (
        length-set (reserve zeros slots len) len a ∙ l,
        set_last (reserve zeros slots len) len a (omega arith)
            ∙ ap (λ w. w ++ a ∷ []) (take-reserve zeros slots len h),
      )

-- An array in whose slots `len` elements stand.
abbrev pub Holds : {A : Type 0} → List A → ℕ → List A → Type 0
Holds slots len elements = (length slots ≡ allocated len) × (take len slots ≡ elements)

put-Holds :
    {A : Type 0} (zeros a : A) (slots elements : List A) (len : ℕ)
    → Holds slots len elements
    → Holds (put zeros slots len a) (len + 1) (elements ++ a ∷ [])
put-Holds zeros a slots elements len (h, e) =
    let (l, c) = put-append zeros slots len a h in (l, c ∙ ap (λ w. w ++ a ∷ []) e)

-- Calls in a row, from the first one on.
unfoldable pub add_inx_ivals : InxIvalPair → List (ℤ × ℤ) → InxIvalPair
add_inx_ivals p [] = p
add_inx_ivals p ((i, v) ∷ es) = add_inx_ivals (add_inx_ival p i v) es

unfoldable pub add_inx_vals : InxValPair → List (ℤ × Bytes) → InxValPair
add_inx_vals p [] = p
add_inx_vals p ((i, v) ∷ es) = add_inx_vals (add_inx_val p i v) es

unfoldable pub add_r_error_msgs : RError → List (ℤ × Bytes) → RError
add_r_error_msgs e [] = e
add_r_error_msgs e ((status, msg) ∷ es) = add_r_error_msgs (add_r_error_msg e status msg) es

-- What the message of a call becomes.
abbrev pub message_of : ℤ × Bytes → Option ErrMsg
message_of (status, msg) = some (record { status = status; msg = take (err_msg_len - 1) msg })

snoc : {A : Type 0} (xs : List A) (x : A) (ys : List A) → (xs ++ x ∷ []) ++ ys ≡ xs ++ x ∷ ys
snoc xs x ys = append_assoc xs (x ∷ []) ys

inx_ivals-Holds :
    (es : List (ℤ × ℤ)) (p : InxIvalPair) (inxs values : List ℤ)
    → Holds p.inx p.len inxs
    → Holds p.value p.len values
    → let q : InxIvalPair = add_inx_ivals p es in
      Holds q.inx q.len (inxs ++ map (λ e. e.0) es)
      × Holds q.value q.len (values ++ map (λ e. e.1) es)
unfolding add_inx_ivals add_inx_ival
inx_ivals-Holds [] p inxs values h k = (
  subst (Holds p.inx p.len) (sym (append-nil inxs)) h,
  subst (Holds p.value p.len) (sym (append-nil values)) k,
)
inx_ivals-Holds ((i, v) ∷ es) p inxs values h k =
    let q : InxIvalPair = add_inx_ivals p ((i, v) ∷ es) in
    let (a, b) =
      inx_ivals-Holds es (add_inx_ival p i v) (inxs ++ i ∷ []) (values ++ v ∷ [])
        (put-Holds (pos 0) i p.inx inxs p.len h) (put-Holds (pos 0) v p.value values p.len k) in
    (
      subst (Holds q.inx q.len) (snoc inxs i (map (λ e. e.0) es)) a,
      subst (Holds q.value q.len) (snoc values v (map (λ e. e.1) es)) b,
    )

inx_vals-Holds :
    (es : List (ℤ × Bytes)) (p : InxValPair) (inxs : List ℤ) (values : List (Option Bytes))
    → Holds p.inx p.len inxs
    → Holds p.value p.len values
    → let q : InxValPair = add_inx_vals p es in
      Holds q.inx q.len (inxs ++ map (λ e. e.0) es)
      × Holds q.value q.len (values ++ map (λ e. some e.1) es)
unfolding add_inx_vals add_inx_val
inx_vals-Holds [] p inxs values h k = (
  subst (Holds p.inx p.len) (sym (append-nil inxs)) h,
  subst (Holds p.value p.len) (sym (append-nil values)) k,
)
inx_vals-Holds ((i, v) ∷ es) p inxs values h k =
    let q : InxValPair = add_inx_vals p ((i, v) ∷ es) in
    let (a, b) =
      inx_vals-Holds es (add_inx_val p i v) (inxs ++ i ∷ []) (values ++ some v ∷ [])
        (put-Holds (pos 0) i p.inx inxs p.len h) (put-Holds none (some v) p.value values p.len k) in
    (
      subst (Holds q.inx q.len) (snoc inxs i (map (λ e. e.0) es)) a,
      subst (Holds q.value q.len) (snoc values (some v) (map (λ e. some e.1) es)) b,
    )

r_error_msgs-Holds :
    (es : List (ℤ × Bytes)) (p : RError) (messages : List (Option ErrMsg))
    → Holds p.err_msg p.len messages
    → let q : RError = add_r_error_msgs p es in
      Holds q.err_msg q.len (messages ++ map message_of es)
unfolding add_r_error_msgs add_r_error_msg
r_error_msgs-Holds [] p messages h = subst (Holds p.err_msg p.len) (sym (append-nil messages)) h
r_error_msgs-Holds ((s, m) ∷ es) p messages h =
    let q : RError = add_r_error_msgs p ((s, m) ∷ es) in
    subst (Holds q.err_msg q.len) (snoc messages (message_of (s, m)) (map message_of es)) (
      r_error_msgs-Holds es (add_r_error_msg p s m) (messages ++ message_of (s, m) ∷ [])
        (put-Holds none (message_of (s, m)) p.err_msg messages p.len h))

-- Whatever calls are made in a row of addInxIval, addInxVal and addRErrorMsg on zeroed structures,
-- the arrays hold what was added in its order, both arrays of a pair alike, with as many slots
-- allocated as the length rounded up to tens; a message is cut to 1023 bytes.
pub add_all-Holds :
    (ivals : List (ℤ × ℤ)) (vals messages : List (ℤ × Bytes))
    → let p : InxIvalPair = add_inx_ivals (record { len = 0; inx = []; value = [] }) ivals in
      let q : InxValPair = add_inx_vals (record { len = 0; inx = []; value = [] }) vals in
      let r : RError = add_r_error_msgs (record { len = 0; err_msg = [] }) messages in
      (Holds p.inx p.len (map (λ e. e.0) ivals) × Holds p.value p.len (map (λ e. e.1) ivals))
      × (Holds q.inx q.len (map (λ e. e.0) vals) × Holds q.value q.len (map (λ e. some e.1) vals))
      × Holds r.err_msg r.len (map message_of messages)
add_all-Holds ivals vals messages = (
  inx_ivals-Holds ivals (record { len = 0; inx = []; value = [] }) [] [] (refl, refl) (refl, refl),
  inx_vals-Holds vals (record { len = 0; inx = []; value = [] }) [] [] (refl, refl) (refl, refl),
  r_error_msgs-Holds messages (record { len = 0; err_msg = [] }) [] (refl, refl),
)
