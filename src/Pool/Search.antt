-- ===== src/Pool/Search.antt =====
-- src/core/src/connection_pool.cpp: the loop of get_connection.
use irods_client_library_cpp.Base.{
  ℕ, zero, suc, ◌+◌, ◌%◌, ◌<◌, ◌≡◌, ◌⊎◌, refl, sym, ap, subst, ◌∙◌, true, false, none, some, arith,
  inl, inr, length, get_elem?,
}
use native.Mathlib.Nat.{mod-eq_of_lt, mod-lt, mod-add-mod}
use irods_client_library_cpp.Pool.{ConnectionContext, ConnectionPool, count, is_free, search}

-- A context that get_connection passes over: its mutex is locked, or its flag is set.
abbrev pub IsBusy : ConnectionPool → ℕ → Type 0
IsBusy p i =
    (0 < count i p.refreshing)
    ⊎ ((ctx : ConnectionContext) × (get_elem? p.conn_ctxs i ≡ some ctx) × (ctx.in_use ≡ true))

-- A context with its mutex unlocked and its flag cleared.
abbrev pub IsIdle : ConnectionPool → ℕ → Type 0
IsIdle p i =
    (count i p.refreshing ≡ 0)
    × ((ctx : ConnectionContext) × (get_elem? p.conn_ctxs i ≡ some ctx) × (ctx.in_use ≡ false))

IsBusy-is_free : (p : ConnectionPool) (i : ℕ) → IsBusy p i → is_free p i ≡ false
unfolding is_free
IsBusy-is_free p i (inl h) = ground (arith, h)
IsBusy-is_free p i (inr (ctx, e, u)) = rw (e, u) (ground arith)

IsIdle-is_free : (p : ConnectionPool) (i : ℕ) → IsIdle p i → is_free p i ≡ true
unfolding is_free
IsIdle-is_free p i (c, (ctx, e, u)) = rw (c, e, u) refl

-- The place so many steps further, from the next index and from this one.
place_next : (i j n : ℕ) → ((i + 1) % n + j) % n ≡ (i + suc j) % n
place_next i j n = mod-add-mod (i + 1) n j ∙ ap (λ k. k % n) (omega arith)

place_here : (i n : ℕ) → i < n → (i + 0) % n ≡ i
place_here i n h = ap (λ k. k % n) (omega arith) ∙ mod-eq_of_lt h

-- In a pool that does not change meanwhile, get_connection takes, from any index on, the first place
-- whose mutex is unlocked and whose flag in_use is cleared, where the places before it, round the
-- end of the pool, have a locked mutex or the flag set, as soon as it may look at more places than those.
pub search_first :
    (n : ℕ) (p : ConnectionPool) (i d : ℕ)
    → i < length p.conn_ctxs
    → d < n
    → ((j : ℕ) → j < d → IsBusy p ((i + j) % length p.conn_ctxs))
    → IsIdle p ((i + d) % length p.conn_ctxs)
    → search n p i ≡ some ((i + d) % length p.conn_ctxs)
unfolding search
search_first zero p i d h l busy free = elim l [ ]
search_first (suc n) p i zero h l busy free =
    let here = place_here i (length p.conn_ctxs) h in
    rw (IsIdle-is_free p i (subst (IsIdle p) here free)) (ap some (sym here))
search_first (suc n) p i (suc d) h l busy free =
    let size = length p.conn_ctxs in
    let taken = subst (IsBusy p) (place_here i size h) (busy 0 (omega arith)) in
    rw (IsBusy-is_free p i taken) (
      search_first n p ((i + 1) % size) d (mod-lt (i + 1) (omega (arith, h))) (omega (arith, l))
        (λ j k. subst (IsBusy p) (sym (place_next i j size)) (busy (suc j) (omega (arith, k))))
        (subst (IsIdle p) (sym (place_next i d size)) free)
      ∙ ap some (place_next i d size))

-- Where none is free, it goes on for ever: however many indices it has tried, it has none.
search-none :
    (n : ℕ) (p : ConnectionPool) (i : ℕ) → ((j : ℕ) → is_free p j ≡ false) → search n p i ≡ none
unfolding search
search-none zero p i h = refl
search-none (suc n) p i h = rw (h i) (search-none n p ((i + 1) % length p.conn_ctxs) h)
