-- ===== src/Pool/Exclusive.antt =====
-- src/core/src/connection_pool.cpp: who holds the connections of a pool, step by step.
use irods_client_library_cpp.Base.{
  ℕ, ◌≤◌, ◌<◌, ◌≡◌, refl, sym, ap, subst, true, false, [], arith, if◌then◌else◌,
}
use irods_client_library_cpp.Pool.{
  Answers, ConnectionPool, count, is_free, take_connection, end_refresh, return_connection,
  assign_proxy, refresh_connection,
}
use irods_client_library_cpp.Pool.Use.{
  count-remove_one_ne, count-remove_one_self, count_ne, count_self, end_refresh-some, every,
  free_there, held_after_ne, held_after_self, holders, in_use-refresh_connection, use_of,
  use_of-set_in_use, use_of-set_in_use_self, use_of-set_ne, use_of-set_self, use_of_le, use_of-some,
  used_there,
}

-- One step of one of the threads.
pub data Step : ConnectionPool → ConnectionPool → Type 0 where
  takes : {p : ConnectionPool} (i : ℕ) → is_free p i ≡ true → Step p (take_connection p i)
  ends :
      {p : ConnectionPool} (i : ℕ) (a : Answers)
      → 0 < count i p.refreshing
      → Step p (end_refresh p i a)
  returns : {p : ConnectionPool} (i : ℕ) → 0 < count i p.held → Step p (return_connection p i)
  assigns : {p : ConnectionPool} (i : ℕ) → 0 < count i p.held → Step p (assign_proxy p i)

-- A new pool, and what the steps make of it, in whatever order the threads take them.
pub data Reachable : ConnectionPool → Type 0 where
  begin : {p : ConnectionPool} → p.refreshing ≡ [] → p.held ≡ [] → Reachable p
  next : {p q : ConnectionPool} → Reachable p → Step p q → Reachable q

abbrev pub Exclusive : ConnectionPool → Type 0
Exclusive p = (j : ℕ) → holders p j ≤ use_of p.conn_ctxs j

takes-Exclusive :
    (p : ConnectionPool) (i : ℕ)
    → is_free p i ≡ true
    → Exclusive p
    → Exclusive (take_connection p i)
unfolding take_connection
takes-Exclusive p i free inv =
    let (ctx, e, unused) = free_there p i free in
    every i
      (omega (
        arith,
        inv i,
        unused,
        count_self i p.refreshing,
        use_of-set_in_use_self true p.conn_ctxs i ctx e,
      ))
      (λ j ne.
        omega
          (arith, inv j, count_ne i j p.refreshing ne, use_of-set_in_use true p.conn_ctxs i j ne))

returns-Exclusive :
    (p : ConnectionPool) (i : ℕ)
    → 0 < count i p.held
    → Exclusive p
    → Exclusive (return_connection p i)
unfolding return_connection
returns-Exclusive p i held inv =
    let (ctx, e) = used_there p.conn_ctxs i (omega (arith, held, inv i)) in
    every i
      (omega (
        arith,
        held,
        inv i,
        use_of_le p.conn_ctxs i,
        count-remove_one_self i p.held,
        use_of-set_in_use_self false p.conn_ctxs i ctx e,
      ))
      (λ j ne. omega (
        arith,
        inv j,
        count-remove_one_ne i j p.held ne,
        use_of-set_in_use false p.conn_ctxs i j ne,
      ))

assigns-Exclusive : (p : ConnectionPool) (i : ℕ) → Exclusive p → Exclusive (assign_proxy p i)
unfolding assign_proxy
assigns-Exclusive p i inv =
    every i (omega (arith, inv i, count-remove_one_self i p.held))
      (λ j ne. omega (arith, inv j, count-remove_one_ne i j p.held ne))

ends-Exclusive :
    (p : ConnectionPool) (i : ℕ) (a : Answers)
    → 0 < count i p.refreshing
    → Exclusive p
    → Exclusive (end_refresh p i a)
ends-Exclusive p i a busy inv =
    let (ctx, e) = used_there p.conn_ctxs i (omega (arith, busy, inv i)) in
    let r = refresh_connection p.refresh_time ctx a in
    subst Exclusive (sym (end_refresh-some p i a e)) (
      every i
        (omega (
          arith,
          busy,
          inv i,
          count-remove_one_self i p.refreshing,
          held_after_self p i r.1,
          use_of-set_self p.conn_ctxs i ctx r.0 e,
          use_of-some p.conn_ctxs i e,
          ap {B = ℕ} (λ b. if b then 1 else 0) (in_use-refresh_connection p.refresh_time ctx a),
        ))
        (λ j ne. omega (
          arith,
          inv j,
          count-remove_one_ne i j p.refreshing ne,
          held_after_ne p i j r.1 ne,
          use_of-set_ne p.conn_ctxs r.0 ne,
        )))

Step-Exclusive : {p q : ConnectionPool} → Step p q → Exclusive p → Exclusive q
Step-Exclusive (takes {p} i free) inv = takes-Exclusive p i free inv
Step-Exclusive (ends {p} i a busy) inv = ends-Exclusive p i a busy inv
Step-Exclusive (returns {p} i held) inv = returns-Exclusive p i held inv
Step-Exclusive (assigns {p} i held) inv = assigns-Exclusive p i inv

no_count : (j : ℕ) → count j [] ≡ 0
unfolding count
no_count j = refl

begin-Exclusive : (p : ConnectionPool) → p.refreshing ≡ [] → p.held ≡ [] → Exclusive p
begin-Exclusive p h k j = omega (arith, ap (count j) h, ap (count j) k, no_count j)

Reachable-Exclusive : {p : ConnectionPool} → Reachable p → Exclusive p
Reachable-Exclusive (begin {p} h k) = begin-Exclusive p h k
Reachable-Exclusive (next r s) = Step-Exclusive s (Reachable-Exclusive r)

-- In every order of the steps of the threads, a connection of the pool has at most one thread that
-- refreshes it or proxy that holds it, and none unless it is in use.
pub connection_exclusive :
    {p : ConnectionPool}
    → Reachable p
    → (i : ℕ) → (holders p i ≤ 1) × (holders p i ≤ use_of p.conn_ctxs i)
connection_exclusive {p} r i =
    (omega (arith, Reachable-Exclusive r i, use_of_le p.conn_ctxs i), Reachable-Exclusive r i)
