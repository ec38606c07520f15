-- ===== src/Pool/Lost.antt =====
-- src/core/src/connection_pool.cpp: connections that no thread gets any more.
use irods_client_library_cpp.Base.{
  ℕ, ◌<◌, ◌≡◌, ◌≢◌, refl, sym, ap, subst, ◌∙◌, true, false, List, none, some, arith, if◌then◌else◌,
  Option-cases, inl, inr, get_elem?, err,
}
use irods_client_library_cpp.Pool.{
  Failure, ConnectionContext, Answers, ConnectionPool, count, is_free, take_connection, end_refresh,
  return_connection, assign_proxy, refresh_connection,
}
use irods_client_library_cpp.Pool.Use.{
  count-remove_one_ne, count-remove_one_self, count_ne, end_refresh-some, free_there, held_after,
  held_after_ne, holders, in_use-refresh_connection, use_of, use_of-set_in_use, use_of-set_ne,
  use_of-set_self, use_of_le, use_of-some,
}
use irods_client_library_cpp.Pool.Exclusive.{
  Step, takes, ends, returns, assigns, Reachable, connection_exclusive,
}

-- The connection is in use, and nobody has it.
abbrev pub IsLost : ℕ → ConnectionPool → Type 0
IsLost i p = (use_of p.conn_ctxs i ≡ 1) × (holders p i ≡ 0)

-- Any number of steps.
pub data Steps : ConnectionPool → ConnectionPool → Type 0 where
  stay : {p : ConnectionPool} → Steps p p
  go : {p q r : ConnectionPool} → Step p q → Steps q r → Steps p r

end_refresh-none :
    (p : ConnectionPool) (i : ℕ) (a : Answers)
    → get_elem? p.conn_ctxs i ≡ none
    → end_refresh p i a ≡ p
unfolding end_refresh
end_refresh-none p i a e = rw (e, end_refresh) refl

count_differs : {k i : ℕ} (js : List ℕ) → 0 < count k js → count i js ≡ 0 → k ≢ i
count_differs js h z q = omega (arith, h, z, ap (λ n. count n js) q)

takes-IsLost :
    (i : ℕ) (p : ConnectionPool) (k : ℕ)
    → is_free p k ≡ true
    → IsLost i p
    → IsLost i (take_connection p k)
unfolding take_connection
takes-IsLost i p k free (used, nobody) =
    let (ctx, e, unused) = free_there p k free in
    let ne : k ≢ i = λ q. ground (arith, q, used, unused) in
    (
      use_of-set_in_use true p.conn_ctxs k i ne ∙ used,
      omega (arith, nobody, count_ne k i p.refreshing ne),
    )

returns-IsLost :
    (i : ℕ) (p : ConnectionPool) (k : ℕ)
    → 0 < count k p.held
    → IsLost i p
    → IsLost i (return_connection p k)
unfolding return_connection
returns-IsLost i p k h (used, nobody) =
    let ne : k ≢ i = count_differs p.held h (omega (arith, nobody)) in
    (
      use_of-set_in_use false p.conn_ctxs k i ne ∙ used,
      omega (arith, nobody, count-remove_one_ne k i p.held ne),
    )

assigns-IsLost :
    (i : ℕ) (p : ConnectionPool) (k : ℕ)
    → 0 < count k p.held
    → IsLost i p
    → IsLost i (assign_proxy p k)
unfolding assign_proxy
assigns-IsLost i p k h (used, nobody) =
    let ne : k ≢ i = count_differs p.held h (omega (arith, nobody)) in
    (used, omega (arith, nobody, count-remove_one_ne k i p.held ne))

ends-IsLost :
    (i : ℕ) (p : ConnectionPool) (k : ℕ) (a : Answers)
    → 0 < count k p.refreshing
    → IsLost i p
    → IsLost i (end_refresh p k a)
ends-IsLost i p k a h (used, nobody) = elim (Option-cases (get_elem? p.conn_ctxs k)) [
  | inl e ↦ subst (IsLost i) (sym (end_refresh-none p k a e)) (used, nobody)
  | inr (ctx, e) ↦
      let ne : k ≢ i = count_differs p.refreshing h (omega (arith, nobody)) in
      let r = refresh_connection p.refresh_time ctx a in
      subst (IsLost i) (sym (end_refresh-some p k a e)) (
        use_of-set_ne p.conn_ctxs r.0 ne ∙ used,
        omega (arith, nobody, count-remove_one_ne k i p.refreshing ne, held_after_ne p k i r.1 ne),
      )
]

Step-IsLost : (i : ℕ) {p q : ConnectionPool} → Step p q → IsLost i p → IsLost i q
Step-IsLost i (takes {p} k free) l = takes-IsLost i p k free l
Step-IsLost i (ends {p} k a busy) l = ends-IsLost i p k a busy l
Step-IsLost i (returns {p} k held) l = returns-IsLost i p k held l
Step-IsLost i (assigns {p} k held) l = assigns-IsLost i p k held l

Steps-IsLost : (i : ℕ) {p q : ConnectionPool} → Steps p q → IsLost i p → IsLost i q
Steps-IsLost i stay l = l
Steps-IsLost i (go s r) l = Steps-IsLost i r (Step-IsLost i s l)

failed-IsLost :
    (p : ConnectionPool) (i : ℕ) (a : Answers) (ctx : ConnectionContext) (f : Failure)
    → Reachable p
    → 0 < count i p.refreshing
    → get_elem? p.conn_ctxs i ≡ some ctx
    → (refresh_connection p.refresh_time ctx a).1 ≡ err f
    → IsLost i (end_refresh p i a)
failed-IsLost p i a ctx f reach busy e fails =
    let r = refresh_connection p.refresh_time ctx a in
    let (one, used) = connection_exclusive reach i in
    subst (IsLost i) (sym (end_refresh-some p i a e)) (
      omega (
        arith,
        busy,
        used,
        use_of_le p.conn_ctxs i,
        use_of-set_self p.conn_ctxs i ctx r.0 e,
        use_of-some p.conn_ctxs i e,
        ap {B = ℕ} (λ b. if b then 1 else 0) (in_use-refresh_connection p.refresh_time ctx a),
      ),
      omega (
        arith,
        busy,
        one,
        count-remove_one_self i p.refreshing,
        ap (λ r. count i (held_after p i r)) fails,
      ),
    )

-- Where refresh_connection throws, get_connection leaves the connection in use: in whatever order the
-- threads go on, no thread and no proxy gets it any more.
pub end_refresh-IsLost :
    (p q : ConnectionPool) (i : ℕ) (a : Answers) (ctx : ConnectionContext) (f : Failure)
    → Reachable p
    → 0 < count i p.refreshing
    → get_elem? p.conn_ctxs i ≡ some ctx
    → (refresh_connection p.refresh_time ctx a).1 ≡ err f
    → Steps (end_refresh p i a) q
    → IsLost i q
end_refresh-IsLost p q i a ctx f reach busy e fails steps =
    Steps-IsLost i steps (failed-IsLost p i a ctx f reach busy e fails)

assigned-IsLost :
    (p : ConnectionPool) (i : ℕ) → Reachable p → 0 < count i p.held → IsLost i (assign_proxy p i)
unfolding assign_proxy
assigned-IsLost p i reach held =
    let (one, used) = connection_exclusive reach i in
    (
      omega (arith, held, used, use_of_le p.conn_ctxs i),
      omega (arith, held, one, count-remove_one_self i p.held),
    )

-- Where another proxy is assigned to one that holds a connection, the connection stays in use: in
-- whatever order the threads go on, no thread and no proxy gets it any more.
pub assign_proxy-IsLost :
    (p q : ConnectionPool) (i : ℕ)
    → Reachable p
    → 0 < count i p.held
    → Steps (assign_proxy p i) q
    → IsLost i q
assign_proxy-IsLost p q i reach held steps = Steps-IsLost i steps (assigned-IsLost p i reach held)
