-- ===== src/Negotiation/Agreement.antt =====
-- src/core/src/irods_client_negotiation.cpp: what two policies agree on.
use irods_client_library_cpp.Base.{
  ℕ, ◌≡◌, refl, ap, ◌∙◌, [], ◌∷◌, arith, if◌then◌else◌, Bool-cases, Option-cases, inl, inr, Bytes,
  str_eq, str_eq_iff, Result, ok, err, ltb, get_or, ap₂,
}
use irods_client_library_cpp.Base.Dict.{Dict, lookup, insert, lookup-insert, str_ltb}
use irods_client_library_cpp.Negotiation.{
  Error, sys_invalid_input_param, client_server_negotiations_table, cs_neg_require, cs_neg_refuse,
  cs_neg_dont_care, cs_neg_failure, cs_neg_use_ssl, cs_neg_use_tcp, cs_neg_param_map, index_of,
  touch, negotiate,
}

pub data Wish : Type 0 where
  requires does_not_care refuses : Wish

-- What a side wants: whatever is not one of the other two policies counts as the requirement.
unfoldable pub wish : Bytes → Wish
wish policy =
    if str_eq cs_neg_dont_care policy
    then does_not_care
    else if str_eq cs_neg_refuse policy
    then refuses
    else requires

-- One side that refuses and one that requires do not agree; else TCP is used where a side refuses.
unfoldable pub agreed : Wish → Wish → Bytes
agreed requires refuses = cs_neg_failure
agreed refuses requires = cs_neg_failure
agreed refuses does_not_care = cs_neg_use_tcp
agreed refuses refuses = cs_neg_use_tcp
agreed does_not_care refuses = cs_neg_use_tcp
agreed requires requires = cs_neg_use_ssl
agreed requires does_not_care = cs_neg_use_ssl
agreed does_not_care requires = cs_neg_use_ssl
agreed does_not_care does_not_care = cs_neg_use_ssl

index_of-touch : (m : Dict ℕ) (k j : Bytes) → index_of (touch m k) j ≡ index_of m j
unfolding index_of touch
index_of-touch m k j = elim (Option-cases (lookup k m)) [
  | inl e ↦ ground (arith, e, lookup-insert k j 0 m, str_eq_iff k j)
  | inr (i, e) ↦ ground (arith, e)
]

abbrev wish_index : Wish → ℕ
wish_index requires = 0
wish_index does_not_care = 1
wish_index refuses = 2

abbrev sorted_map : Dict ℕ
sorted_map = (cs_neg_dont_care, 1) ∷ (cs_neg_refuse, 2) ∷ (cs_neg_require, 0) ∷ []

param_map : cs_neg_param_map ≡ sorted_map
unfolding cs_neg_param_map insert str_eq str_ltb
param_map = refl

index_of-wish_sorted : (p : Bytes) → index_of sorted_map p ≡ wish_index (wish p)
unfolding index_of lookup wish str_eq
index_of-wish_sorted p = elim (Bool-cases (str_eq cs_neg_dont_care p)) [
  | inl e ↦ rw e refl
  | inr e ↦ elim (Bool-cases (str_eq cs_neg_refuse p)) [
    | inl f ↦ rw (e, f) refl
    | inr f ↦ elim (Bool-cases (str_eq cs_neg_require p)) [
      | inl g ↦ rw (e, f, g) refl
      | inr g ↦ rw (e, f, g) refl
    ]
  ]
]

index_of-wish : (p : Bytes) → index_of cs_neg_param_map p ≡ wish_index (wish p)
index_of-wish p = ap (λ m. index_of m p) param_map ∙ index_of-wish_sorted p

abbrev choose : ℕ → ℕ → Result Error Bytes
choose cli_idx svr_idx =
    if ltb 2 cli_idx
    then err sys_invalid_input_param
    else if ltb 2 svr_idx
    then err sys_invalid_input_param
    else ok (get_or (get_or client_server_negotiations_table cli_idx []) svr_idx [])

choose-agreed : (w v : Wish) → choose (wish_index w) (wish_index v) ≡ ok (agreed w v)
unfolding agreed
choose-agreed requires requires = refl
choose-agreed requires does_not_care = refl
choose-agreed requires refuses = refl
choose-agreed does_not_care requires = refl
choose-agreed does_not_care does_not_care = refl
choose-agreed does_not_care refuses = refl
choose-agreed refuses requires = refl
choose-agreed refuses does_not_care = refl
choose-agreed refuses refuses = refl

negotiate-choose :
    (m : Dict ℕ) (c s : Bytes) → negotiate m c s ≡ choose (index_of m c) (index_of (touch m c) s)
unfolding negotiate
negotiate-choose m c s = refl

-- Whatever texts the policies are, the negotiation succeeds with what the two wishes agree on: a
-- failure where one side refuses TLS and the other requires it, TCP where else a side refuses it, and
-- TLS otherwise; a text that is none of the three policies counts as the requirement.
pub negotiate-agreed :
    (c s : Bytes) → negotiate cs_neg_param_map c s ≡ ok (agreed (wish c) (wish s))
negotiate-agreed c s =
    negotiate-choose cs_neg_param_map c s
    ∙ ap₂ choose (index_of-wish c) (index_of-touch cs_neg_param_map c s ∙ index_of-wish s)
    ∙ choose-agreed (wish c) (wish s)
