-- ===== src/Children/Parse.antt =====
-- src/core/src/irods_children_parser.cpp: the loop of set_string against a description that reads the text
-- once, a character at a time.
use irods_client_library_cpp.Base.{
  ℕ, suc, ◌≡◌, refl, false, [], ◌∷◌, ◌++◌, Option, none, some, arith, ◌==◌, if◌then◌else◌, Bytes,
  Lacks,
}
use irods_client_library_cpp.Children.{
  Error, child_not_found, Children, split_at, add_parsed, set_loop,
}

-- What the end of a child's text does.
unfoldable pub close_child : Children → Bytes → Option Error × Children
close_child m cur = elim (add_parsed m cur) [
  | none ↦ (some child_not_found, m)
  | some m' ↦ (none, m')
]

-- The text behind the part `cur` of a child: a semicolon ends the child, and ends all where it is last.
unfoldable pub read_children : Children → Bytes → Bytes → Option Error × Children
unfolding close_child
read_children m cur [] = close_child m cur
read_children m cur (c ∷ []) =
    if c == b';' then close_child m cur else close_child m (cur ++ c ∷ [])
read_children m cur (c ∷ d ∷ s) =
    if c == b';'
    then elim (add_parsed m cur) [
      | none ↦ (some child_not_found, m)
      | some m' ↦ read_children m' [] (d ∷ s)
    ]
    else read_children m (cur ++ c ∷ []) (d ∷ s)

pub split_at-Lacks : (c : ℕ) (s : Bytes) → Lacks c s → split_at c s ≡ none
unfolding split_at
split_at-Lacks c [] h = refl
split_at-Lacks c (x ∷ s) (ne, h) = ground (arith, ne, split_at-Lacks c s h)

pub split_at-append : (c : ℕ) (a b : Bytes) → Lacks c a → split_at c (a ++ c ∷ b) ≡ some (a, b)
unfolding split_at
split_at-append c [] b h = ground arith
split_at-append c (x ∷ a) b (ne, h) =
    let no : (x == c) ≡ false = ground (arith, ne) in
    rw (no, split_at) (rw (split_at-append c a b h) refl)

-- The text lacks the character, or parts at its first one.
data Parting (c : ℕ) : Bytes → Type 0 where
  lacks : {s : Bytes} → Lacks c s → Parting c s
  parts : (a b : Bytes) → Lacks c a → Parting c (a ++ c ∷ b)

-- A child is added, and the rest goes on with the map.
unfoldable pub after_child :
    Children → Bytes → (Children → Option Error × Children) → Option Error × Children
after_child m cur rest = elim (add_parsed m cur) [
  | none ↦ (some child_not_found, m)
  | some m' ↦ rest m'
]

pub set_loop_end :
    (n : ℕ) (m : Children) (s : Bytes) → Lacks b';' s → set_loop (suc n) m s ≡ close_child m s
unfolding set_loop close_child
set_loop_end n m s h = rw (split_at-Lacks b';' s h, set_loop) refl

pub set_loop_more :
    (n : ℕ) (m : Children) (a : Bytes) (d : ℕ) (r : Bytes)
    → Lacks b';' a
    → set_loop (suc n) m (a ++ b';' ∷ d ∷ r) ≡ after_child m a (λ m'. set_loop n m' (d ∷ r))
unfolding set_loop after_child
set_loop_more n m a d r h = rw (split_at-append b';' a (d ∷ r) h, set_loop) refl
