-- ===== src/Negotiation/Tests.antt =====
-- Tests of src/core/src/irods_client_negotiation.cpp, and its theorem at a concrete input.
use irods_client_library_cpp.Base.{◌≡◌, refl, codes, str_eq, ok}
use irods_client_library_cpp.Base.Dict.{insert, lookup, str_ltb}
use irods_client_library_cpp.Negotiation.{
  cs_neg_require, cs_neg_refuse, cs_neg_dont_care, cs_neg_use_ssl, cs_neg_use_tcp, cs_neg_param_map,
  index_of, touch, negotiate,
}
use irods_client_library_cpp.Negotiation.Agreement.{wish, agreed, negotiate-agreed}

careless : negotiate cs_neg_param_map cs_neg_dont_care cs_neg_refuse ≡ ok cs_neg_use_tcp
unfolding negotiate cs_neg_param_map index_of touch insert lookup str_eq str_ltb
careless = refl

unknown : negotiate cs_neg_param_map (codes "none") cs_neg_require ≡ ok cs_neg_use_ssl
unfolding negotiate cs_neg_param_map index_of touch insert lookup str_eq str_ltb
unknown = refl

negotiate-agreed_example :
    negotiate cs_neg_param_map (codes "none") cs_neg_refuse
    ≡ ok (agreed (wish (codes "none")) (wish cs_neg_refuse))
negotiate-agreed_example = negotiate-agreed (codes "none") cs_neg_refuse
