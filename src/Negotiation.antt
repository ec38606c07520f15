-- ===== src/Negotiation.antt =====
-- src/core/src/irods_client_negotiation.cpp: client_server_negotiations_context, which chooses between TLS and
-- TCP by the policies of both sides. The map of an object changes where it is asked for a key that it
-- does not have, as std::map's `operator[]` does.
pub mod Agreement
mod Tests
use irods_client_library_cpp.Base.{
  ℕ, Bool, List, [], ◌∷◌, Option, none, some, if◌then◌else◌, ltb, Bytes, codes, get_or, Result, ok,
  err,
}
use irods_client_library_cpp.Base.Dict.{Dict, lookup, insert}

pub data Error : Type 0 where
  sys_invalid_input_param : Error

abbrev pub cs_neg_require : Bytes
cs_neg_require = codes "CS_NEG_REQUIRE"

abbrev pub cs_neg_refuse : Bytes
cs_neg_refuse = codes "CS_NEG_REFUSE"

abbrev pub cs_neg_dont_care : Bytes
cs_neg_dont_care = codes "CS_NEG_DONT_CARE"

abbrev pub cs_neg_failure : Bytes
cs_neg_failure = codes "CS_NEG_FAILURE"

abbrev pub cs_neg_use_ssl : Bytes
cs_neg_use_ssl = codes "CS_NEG_USE_SSL"

abbrev pub cs_neg_use_tcp : Bytes
cs_neg_use_tcp = codes "CS_NEG_USE_TCP"

pub cs_neg_param_map : Dict ℕ
unfolding insert
cs_neg_param_map = insert cs_neg_refuse 2 (insert cs_neg_dont_care 1 (insert cs_neg_require 0 []))

-- The table, by the client's policy and the server's.
abbrev pub client_server_negotiations_table : List (List Bytes)
client_server_negotiations_table =
    (cs_neg_use_ssl ∷ cs_neg_use_ssl ∷ cs_neg_failure ∷ [])
    ∷ (cs_neg_use_ssl ∷ cs_neg_use_ssl ∷ cs_neg_use_tcp ∷ [])
    ∷ (cs_neg_failure ∷ cs_neg_use_tcp ∷ cs_neg_use_tcp ∷ [])
    ∷ []

-- `m[key]`, and the map that it leaves.
pub index_of : Dict ℕ → Bytes → ℕ
unfolding lookup
index_of m key = elim (lookup key m) [ none ↦ 0 | some i ↦ i ]

pub touch : Dict ℕ → Bytes → Dict ℕ
unfolding lookup insert
touch m key = elim (lookup key m) [ none ↦ insert key 0 m | some i ↦ m ]

-- `operator()`
pub negotiate : Dict ℕ → Bytes → Bytes → Result Error Bytes
unfolding index_of touch
negotiate m cli_policy svr_policy =
    let cli_idx = index_of m cli_policy in
    let svr_idx = index_of (touch m cli_policy) svr_policy in
    if ltb 2 cli_idx
    then err sys_invalid_input_param
    else if ltb 2 svr_idx
    then err sys_invalid_input_param
    else ok (get_or (get_or client_server_negotiations_table cli_idx []) svr_idx [])
