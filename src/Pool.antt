-- ===== src/Pool.antt =====
-- src/core/src/connection_pool.cpp and include/connection_pool.hpp: the connection pool. A connection is
-- a number, a null pointer the `none` of an Option. What rcConnect, clientLogin, the query and the clock
-- answer during a call is the record Answers. The text of an rErrMsg_t is left out.
pub mod Refresh
pub mod Use
pub mod Exclusive
pub mod Lost
pub mod Search
mod Tests
use irods_client_library_cpp.Base.{
  ℕ, zero, suc, ◌+◌, ◌%◌, Bool, true, false, not, ◌&&◌, List, [], ◌∷◌, Option, none, some, ◌==◌,
  if◌then◌else◌, length, get_elem?, set, Result, ok, err,
}
use irods_client_library_cpp.Base.Int.{ℤ, ltb_ℤ, sub_ℕ}

pub data Failure : Type 0 where
  connect_error client_login_error : Failure

pub record ConnectionContext : Type 0 where
  pub in_use : Bool
  pub conn : Option ℕ
  pub creation_time : ℕ

pub record Answers : Type 0 where
  pub query_ok : Bool
  pub verified_at : ℕ
  pub created_at : ℕ
  pub connected : Option ℕ
  pub login_ok : Bool

-- The context with its new connection, and the callback that is called.
unfoldable pub create_connection : ConnectionContext → Answers → ConnectionContext × Option Failure
create_connection ctx a =
    let ctx' : ConnectionContext = record ctx {
      creation_time = a.created_at;
      conn = a.connected;
    } in
    elim a.connected [
      | none ↦ (ctx', some connect_error)
      | some c ↦ (ctx', if a.login_ok then none else some client_login_error)
    ]

unfoldable pub verify_connection : ℤ → ConnectionContext → Answers → Bool
verify_connection refresh_time ctx a = elim ctx.conn [
  | none ↦ false
  | some c ↦ a.query_ok && not (ltb_ℤ refresh_time (sub_ℕ a.verified_at ctx.creation_time))
]

-- The context that is left, and the connection or the exception.
unfoldable pub refresh_connection :
    ℤ → ConnectionContext → Answers → ConnectionContext × Result Failure (Option ℕ)
unfolding verify_connection create_connection
refresh_connection refresh_time ctx a =
    let made = create_connection ctx a in
    if verify_connection refresh_time ctx a
    then (ctx, ok ctx.conn)
    else (made.0, elim made.1 [ none ↦ ok made.0.conn | some f ↦ err f ])

-- The pool between the steps of its threads: its contexts; the indices that threads are refreshing,
-- with the mutex of the context locked; and the indices of the proxies that hold a connection.
pub record ConnectionPool : Type 0 where
  pub refresh_time : ℤ
  pub conn_ctxs : List ConnectionContext
  pub refreshing : List ℕ
  pub held : List ℕ

pub count : ℕ → List ℕ → ℕ
count i [] = 0
count i (j ∷ js) = (if j == i then 1 else 0) + count i js

pub remove_one : ℕ → List ℕ → List ℕ
remove_one i [] = []
remove_one i (j ∷ js) = if j == i then js else j ∷ remove_one i js

pub set_in_use : Bool → ℕ → List ConnectionContext → List ConnectionContext
set_in_use b i ctxs = elim (get_elem? ctxs i) [
  | none ↦ ctxs
  | some ctx ↦ set ctxs i (record ctx { in_use = b })
]

-- One try of get_connection at an index: the lock, and the flag.
unfoldable pub is_free : ConnectionPool → ℕ → Bool
unfolding count
is_free p i =
    (count i p.refreshing == 0)
    && elim (get_elem? p.conn_ctxs i) [ none ↦ false | some ctx ↦ not ctx.in_use ]

unfoldable pub take_connection : ConnectionPool → ℕ → ConnectionPool
unfolding set_in_use
take_connection p i = record p {
  conn_ctxs = set_in_use true i p.conn_ctxs;
  refreshing = i ∷ p.refreshing;
}

-- The end of refresh_connection under the lock: a proxy, or an exception that leaves get_connection.
unfoldable pub end_refresh : ConnectionPool → ℕ → Answers → ConnectionPool
unfolding refresh_connection remove_one
end_refresh p i a = elim (get_elem? p.conn_ctxs i) [
  | none ↦ p
  | some ctx ↦ record p {
    conn_ctxs = set p.conn_ctxs i (refresh_connection p.refresh_time ctx a).0;
    refreshing = remove_one i p.refreshing;
    held = elim (refresh_connection p.refresh_time ctx a).1 [ ok c ↦ i ∷ p.held | err f ↦ p.held ];
  }
]

-- The destructor of a proxy that holds a connection.
unfoldable pub return_connection : ConnectionPool → ℕ → ConnectionPool
unfolding set_in_use remove_one
return_connection p i = record p {
  conn_ctxs = set_in_use false i p.conn_ctxs;
  held = remove_one i p.held;
}

-- `operator=` over a proxy that holds a connection: its index is overwritten.
unfoldable pub assign_proxy : ConnectionPool → ℕ → ConnectionPool
unfolding remove_one
assign_proxy p i = record p { held = remove_one i p.held }

-- The loop of get_connection in a pool that does not change meanwhile: the first index that is free.
pub search : ℕ → ConnectionPool → ℕ → Option ℕ
unfolding is_free
search zero p i = none
search (suc n) p i = if is_free p i then some i else search n p ((i + 1) % length p.conn_ctxs)
