-- ===== src/Pool/Use.antt =====
-- src/core/src/connection_pool.cpp: which contexts are in use, and what the steps do to that.
use irods_client_library_cpp.Base.{
  ℕ, zero, suc, ◌+◌, ◌-◌, ◌≤◌, ◌<◌, ◌≡◌, ◌≢◌, refl, ap, subst, ◌∙◌, Bool, true, false, List, [],
  ◌∷◌, Option, none, some, arith, ◌==◌, if◌then◌else◌, Bool-cases, Option-cases, ==_iff, inl, inr,
  length, get_elem?, set, get_elem?-set_self, get_elem?-set_ne, Result, ok, err,
}
use irods_client_library_cpp.Base.Int.{ℤ}
use irods_client_library_cpp.Pool.{
  Failure, verify_connection, ConnectionContext, Answers, ConnectionPool, count, remove_one,
  set_in_use, is_free, end_refresh, refresh_connection, create_connection,
}

-- 1 where the context is in use.
unfoldable pub use_of : List ConnectionContext → ℕ → ℕ
use_of ctxs i = elim (get_elem? ctxs i) [ none ↦ 0 | some ctx ↦ if ctx.in_use then 1 else 0 ]

abbrev pub holders : ConnectionPool → ℕ → ℕ
holders p i = count i p.refreshing + count i p.held

pub get_elem?-in_range :
    (ctxs : List ConnectionContext) (i : ℕ) {ctx : ConnectionContext}
    → get_elem? ctxs i ≡ some ctx
    → i < length ctxs
get_elem?-in_range [] i h = cc
get_elem?-in_range (c ∷ ctxs) zero h = omega arith
get_elem?-in_range (c ∷ ctxs) (suc i) h = omega (arith, get_elem?-in_range ctxs i h)

pub use_of-set_self :
    (ctxs : List ConnectionContext) (i : ℕ) (old ctx : ConnectionContext)
    → get_elem? ctxs i ≡ some old
    → use_of (set ctxs i ctx) i ≡ (if ctx.in_use then 1 else 0)
unfolding use_of
use_of-set_self ctxs i old ctx h =
    rw (get_elem?-set_self ctxs i ctx (get_elem?-in_range ctxs i h), use_of) refl

pub use_of-set_ne :
    (ctxs : List ConnectionContext) {i j : ℕ} (ctx : ConnectionContext)
    → i ≢ j
    → use_of (set ctxs i ctx) j ≡ use_of ctxs j
unfolding use_of
use_of-set_ne ctxs ctx h = rw (get_elem?-set_ne ctxs ctx h, use_of) refl

pub use_of-set_in_use :
    (b : Bool) (ctxs : List ConnectionContext) (i j : ℕ)
    → i ≢ j
    → use_of (set_in_use b i ctxs) j ≡ use_of ctxs j
unfolding set_in_use
use_of-set_in_use b ctxs i j h = elim (Option-cases (get_elem? ctxs i)) [
  | inl e ↦ rw (e, set_in_use) refl
  | inr (ctx, e) ↦ rw (e, set_in_use) (use_of-set_ne ctxs (record ctx { in_use = b }) h)
]

pub use_of-set_in_use_self :
    (b : Bool) (ctxs : List ConnectionContext) (i : ℕ) (ctx : ConnectionContext)
    → get_elem? ctxs i ≡ some ctx
    → use_of (set_in_use b i ctxs) i ≡ (if b then 1 else 0)
unfolding set_in_use
use_of-set_in_use_self b ctxs i ctx e =
    rw (e, set_in_use) (use_of-set_self ctxs i ctx (record ctx { in_use = b }) e)

pub count-remove_one_self : (i : ℕ) (js : List ℕ) → count i (remove_one i js) ≡ count i js - 1
unfolding count remove_one
count-remove_one_self i [] = refl
count-remove_one_self i (j ∷ js) = ground (arith, count-remove_one_self i js)

pub count-remove_one_ne : (i j : ℕ) (js : List ℕ) → i ≢ j → count j (remove_one i js) ≡ count j js
unfolding count remove_one
count-remove_one_ne i j [] h = refl
count-remove_one_ne i j (k ∷ js) h = ground (arith, h, count-remove_one_ne i j js h)

pub use_of-none :
    (ctxs : List ConnectionContext) (i : ℕ) → get_elem? ctxs i ≡ none → use_of ctxs i ≡ 0
unfolding use_of
use_of-none ctxs i e = rw (e, use_of) refl

pub use_of-some :
    (ctxs : List ConnectionContext) (i : ℕ) {ctx : ConnectionContext}
    → get_elem? ctxs i ≡ some ctx
    → use_of ctxs i ≡ (if ctx.in_use then 1 else 0)
unfolding use_of
use_of-some ctxs i e = rw (e, use_of) refl

pub use_of_le : (ctxs : List ConnectionContext) (i : ℕ) → use_of ctxs i ≤ 1
use_of_le ctxs i = elim (Option-cases (get_elem? ctxs i)) [
  | inl e ↦ omega (arith, use_of-none ctxs i e)
  | inr (ctx, e) ↦ ground (arith, use_of-some ctxs i e)
]

-- A context that somebody uses is there.
pub used_there :
    (ctxs : List ConnectionContext) (i : ℕ)
    → 0 < use_of ctxs i
    → (ctx : ConnectionContext) × (get_elem? ctxs i ≡ some ctx)
used_there ctxs i h = elim (Option-cases (get_elem? ctxs i)) [
  | inl e ↦ absurd (omega (arith, h, use_of-none ctxs i e))
  | inr (ctx, e) ↦ (ctx, e)
]

pub every : {P : ℕ → Type 0} (i : ℕ) → P i → ((j : ℕ) → i ≢ j → P j) → (j : ℕ) → P j
every {P} i at_i others j = elim (Bool-cases (i == j)) [
  | inl e ↦ subst P ((==_iff i j).0 e) at_i
  | inr e ↦ others j (λ q. ground (arith, e, q))
]

pub free_none : (p : ConnectionPool) (i : ℕ) → get_elem? p.conn_ctxs i ≡ none → is_free p i ≡ false
unfolding is_free
free_none p i e = ground (arith, e)

pub free_some :
    (p : ConnectionPool) (i : ℕ) (ctx : ConnectionContext)
    → get_elem? p.conn_ctxs i ≡ some ctx
    → is_free p i ≡ true
    → ctx.in_use ≡ false
unfolding is_free
free_some p i ctx e h = ground (arith, e, h)

pub free_there :
    (p : ConnectionPool) (i : ℕ)
    → is_free p i ≡ true
    → (ctx : ConnectionContext) × (get_elem? p.conn_ctxs i ≡ some ctx) × (use_of p.conn_ctxs i ≡ 0)
free_there p i h = elim (Option-cases (get_elem? p.conn_ctxs i)) [
  | inl e ↦ absurd (ground (arith, h, free_none p i e))
  | inr (ctx, e) ↦
      (ctx, e, use_of-some p.conn_ctxs i e ∙ ap (λ b. if b then 1 else 0) (free_some p i ctx e h))
]

pub count_self : (i : ℕ) (js : List ℕ) → count i (i ∷ js) ≡ suc (count i js)
unfolding count
count_self i js = ground arith

pub count_ne : (i j : ℕ) (js : List ℕ) → i ≢ j → count j (i ∷ js) ≡ count j js
unfolding count
count_ne i j js h = ground (arith, h)

-- The proxies behind a refresh.
abbrev pub held_after : ConnectionPool → ℕ → Result Failure (Option ℕ) → List ℕ
held_after p i r = elim r [ ok c ↦ i ∷ p.held | err f ↦ p.held ]

abbrev pub pool_after :
    ConnectionPool → ℕ → ConnectionContext × Result Failure (Option ℕ) → ConnectionPool
pool_after p i r = record p {
  conn_ctxs = set p.conn_ctxs i r.0;
  refreshing = remove_one i p.refreshing;
  held = held_after p i r.1;
}

pub end_refresh-some :
    (p : ConnectionPool) (i : ℕ) (a : Answers) {ctx : ConnectionContext}
    → get_elem? p.conn_ctxs i ≡ some ctx
    → end_refresh p i a ≡ pool_after p i (refresh_connection p.refresh_time ctx a)
unfolding end_refresh
end_refresh-some p i a e = rw (e, end_refresh) refl

pub in_use-create_connection :
    (ctx : ConnectionContext) (a : Answers) → (create_connection ctx a).0.in_use ≡ ctx.in_use
unfolding create_connection
in_use-create_connection ctx a = elim (Option-cases a.connected) [
  | inl e ↦ rw (e, create_connection) refl
  | inr (c, e) ↦ rw (e, create_connection) refl
]

pub in_use-refresh_connection :
    (r : ℤ) (ctx : ConnectionContext) (a : Answers)
    → (refresh_connection r ctx a).0.in_use ≡ ctx.in_use
unfolding refresh_connection
in_use-refresh_connection r ctx a = elim (Bool-cases (verify_connection r ctx a)) [
  | inl e ↦ rw (e, refresh_connection) refl
  | inr e ↦ rw (e, refresh_connection) (in_use-create_connection ctx a)
]

pub held_after_self :
    (p : ConnectionPool) (i : ℕ) (r : Result Failure (Option ℕ))
    → count i (held_after p i r) ≤ suc (count i p.held)
held_after_self p i (ok c) = omega (arith, count_self i p.held)
held_after_self p i (err f) = omega arith

pub held_after_ne :
    (p : ConnectionPool) (i j : ℕ) (r : Result Failure (Option ℕ))
    → i ≢ j
    → count j (held_after p i r) ≡ count j p.held
held_after_ne p i j (ok c) ne = count_ne i j p.held ne
held_after_ne p i j (err f) ne = refl
