-- ===== src/Pool/Tests.antt =====
-- Tests of src/core/src/connection_pool.cpp, and its theorems at concrete inputs.
use irods_client_library_cpp.Base.{
  ◌+◌, ◌%◌, inr, ◌≡◌, ◌⊎◌, ℕ, ◌≤◌, refl, true, false, [], ◌∷◌, Option, none, some, arith, ◌<◌,
  get_elem?, zero, suc, ok, err,
}
use irods_client_library_cpp.Base.Int.{pos}
use irods_client_library_cpp.Pool.{
  ConnectionContext, ConnectionPool, Answers, connect_error, refresh_connection, create_connection,
  verify_connection, is_free, take_connection, end_refresh, return_connection, search, count,
  remove_one, set_in_use,
}
use irods_client_library_cpp.Pool.Use.{use_of, holders}
use irods_client_library_cpp.Pool.Exclusive.{
  Reachable, begin, next, takes, ends, connection_exclusive,
}
use irods_client_library_cpp.Pool.Lost.{IsLost, stay, end_refresh-IsLost}
use irods_client_library_cpp.Pool.Refresh.{refresh_connection_lem}
use irods_client_library_cpp.Pool.Search.{IsBusy, IsIdle, search_first}

abbrev idle : ConnectionContext
idle = record { in_use = false; conn = some 7; creation_time = 100 }

abbrev pool : ConnectionPool
pool = record { refresh_time = pos 600; conn_ctxs = idle ∷ idle ∷ []; refreshing = []; held = [] }

-- The query fails, and no new connection can be made.
abbrev down : Answers
down = record {
  query_ok = false;
  verified_at = 200;
  created_at = 201;
  connected = none;
  login_ok = false;
}

-- The connection is too old, and a new one can be made.
abbrev renewing : Answers
renewing = record {
  query_ok = true;
  verified_at = 900;
  created_at = 901;
  connected = some 8;
  login_ok = true;
}

renewed :
    refresh_connection (pos 600) idle renewing
    ≡ (record { in_use = false; conn = some 8; creation_time = 901 }, ok (some 8))
unfolding refresh_connection create_connection verify_connection
renewed = refl

pool_free : is_free pool 0 ≡ true
unfolding is_free count
pool_free = refl

abbrev taken : ConnectionPool
taken = take_connection pool 0

taken_busy : 0 < count 0 taken.refreshing
unfolding take_connection count
taken_busy = omega arith

taken_reached : Reachable taken
taken_reached = next (begin refl refl) (takes 0 pool_free)

abbrev borrowed : ConnectionPool
borrowed = end_refresh taken 0 renewing

borrowed_reached : Reachable borrowed
borrowed_reached = next taken_reached (ends 0 renewing taken_busy)

borrowed_held : 0 < count 0 borrowed.held
unfolding take_connection end_refresh count refresh_connection create_connection verify_connection
    set_in_use remove_one
borrowed_held = omega arith

connection_exclusive_example :
    (holders borrowed 0 ≤ 1) × (holders borrowed 0 ≤ use_of borrowed.conn_ctxs 0)
connection_exclusive_example = connection_exclusive borrowed_reached 0

abbrev used : ConnectionContext
used = record { in_use = true; conn = some 7; creation_time = 100 }

taken_context : get_elem? taken.conn_ctxs 0 ≡ some used
unfolding take_connection set_in_use
taken_context = refl

refresh_fails : (refresh_connection taken.refresh_time used down).1 ≡ err connect_error
unfolding take_connection refresh_connection create_connection verify_connection
refresh_fails = refl

end_refresh-IsLost_example : IsLost 0 (end_refresh taken 0 down)
end_refresh-IsLost_example =
    end_refresh-IsLost taken (end_refresh taken 0 down) 0 down used connect_error taken_reached
      taken_busy taken_context refresh_fails stay

returned_free : is_free (return_connection borrowed 0) 0 ≡ true
unfolding take_connection end_refresh count refresh_connection create_connection verify_connection
    set_in_use remove_one return_connection is_free
returned_free = refl

refresh_renews : (refresh_connection (pos 600) idle renewing).1 ≡ ok (some 8)
unfolding refresh_connection create_connection verify_connection
refresh_renews = refl

refresh_connection_lem_example :
    (c : ℕ) × (◌≡◌ {A = Option ℕ} (some 8) (some c))
    × ((refresh_connection (pos 600) idle renewing).0.conn ≡ some c)
    × ((verify_connection (pos 600) idle renewing ≡ true) ⊎ (renewing.connected ≡ some c))
refresh_connection_lem_example =
    refresh_connection_lem (pos 600) idle renewing (some 8) refresh_renews

-- The second connection is lent.
abbrev lent : ConnectionPool
lent = record pool { conn_ctxs = idle ∷ record idle { in_use = true } ∷ []; held = 1 ∷ [] }

second-IsBusy : (j : ℕ) → j < 1 → IsBusy lent ((1 + j) % 2)
second-IsBusy zero h = inr (record idle { in_use = true }, refl, refl)
second-IsBusy (suc j) h = absurd (omega arith)

first-IsIdle : IsIdle lent 0
unfolding count
first-IsIdle = (refl, (idle, refl, refl))

search_first_example : search 2 lent 1 ≡ some 0
search_first_example =
    search_first 2 lent 1 1 (omega arith) (omega arith) second-IsBusy first-IsIdle
