-- ===== src/Kvp.antt =====
-- src/core/src/irods_kvp_string_parser.cpp: key-value strings. What the code takes from Boost is the
-- parameter `boost`. A position in a string is the rest of the string from there; a loop that moves
-- on by the length of a token counts the characters that it still skips. The map that is filled is
-- part of the result, also of a failure.
pub mod Escape
pub mod RoundTrip
mod Tests
use irods_client_library_cpp.Base.{
  ℕ, zero, suc, ◌+◌, ◌-◌, ◌≡◌, ◌↔◌, Bool, true, false, not, ◌&&◌, ◌||◌, List, [], ◌∷◌, ◌++◌, Option,
  none, some, ◌==◌, if◌then◌else◌, Bytes, codes, str_eq, length,
}
use irods_client_library_cpp.Base.Dict.{Dict, insert}

pub data Error : Type 0 where
  sys_invalid_input_param sys_bad_input : Error

pub data Outcome : Type 0 where
  success : Dict Bytes → Outcome
  failure : Error → Dict Bytes → Outcome

-- `boost::starts_with` and `boost::split` with `is_any_of` (the flag is `token_compress_on`).
pub record Boost : Type 0 where
  pub starts_with : Bytes → Bytes → Bool
  pub starts_with_iff :
      (s p : Bytes) → (starts_with s p ≡ true) ↔ ((rest : Bytes) × (s ≡ p ++ rest))
  pub split : Bytes → Bytes → Bool → List Bytes

-- `s.find(p) != npos`
module _ (boost : Boost) where
  pub contains : Bytes → Bytes → Bool
  contains [] p = boost.starts_with [] p
  contains (c ∷ s) p = boost.starts_with (c ∷ s) p || contains s p

  -- parse_token_into_kvp: the pair, if there are two parts.
  pub parse_token_into_kvp : Bytes → Dict Bytes → Bytes → Outcome
  parse_token_into_kvp token kvp assoc = elim (boost.split token assoc true) [
    | [] ↦ failure sys_invalid_input_param kvp
    | key ∷ more ↦ elim more [
      | [] ↦ failure sys_invalid_input_param kvp
      | value ∷ rest ↦ elim rest [
        | [] ↦ success (insert key value kvp)
        | _ ∷ _ ↦ failure sys_invalid_input_param kvp
      ]
    ]
  ]

  pub parse_tokens : List Bytes → Dict Bytes → Bytes → Outcome
  parse_tokens [] kvp assoc = success kvp
  parse_tokens ([] ∷ tokens) kvp assoc = parse_tokens tokens kvp assoc
  parse_tokens ((c ∷ token) ∷ tokens) kvp assoc =
      elim (parse_token_into_kvp (c ∷ token) kvp assoc) [
        | success kvp' ↦ parse_tokens tokens kvp' assoc
        | failure e kvp' ↦ failure e kvp'
      ]

  pub parse_kvp_string : Bytes → Dict Bytes → Bytes → Bytes → Outcome
  parse_kvp_string s kvp assoc delim = parse_tokens (boost.split s delim false) kvp assoc

abbrev pub kvp_delimiter : Bytes
kvp_delimiter = codes ";"

abbrev pub kvp_association : Bytes
kvp_association = codes "="

abbrev pub kvp_escape : Bytes
kvp_escape = codes "\\"

-- The three tokens of a call.
pub record Tokens : Type 0 where
  pub assoc : Bytes
  pub delim : Bytes
  pub escape : Bytes

abbrev is_empty : Bytes → Bool
is_empty [] = true
is_empty (c ∷ s) = false

-- The variables of the loop of parse_escaped_kvp_string. `escaped` holds between an escape token and
-- the character behind it, which is copied whatever it is.
pub record Scan : Type 0 where
  pub key : Bytes
  pub value : Bytes
  pub assoc_encountered : Bool
  pub escaped : Bool
  pub kvp : Dict Bytes

-- `(assoc_encountered ? value : key) << c`
pub copy : Scan → ℕ → Scan
copy st c =
    if st.assoc_encountered
    then record st { value = st.value ++ c ∷ []; escaped = false }
    else record st { key = st.key ++ c ∷ []; escaped = false }

-- What follows the loop.
pub finish_scan : Scan → Outcome
finish_scan st =
    if st.escaped
    then failure sys_bad_input st.kvp
    else if not (is_empty st.key) && not st.assoc_encountered
    then failure sys_bad_input st.kvp
    else if st.assoc_encountered
    then success (insert st.key st.value st.kvp)
    else success st.kvp

-- What a round does at a position that it does not skip: fail, or go on with a new state after
-- skipping some characters more.
pub data Round : Type 0 where
  go_on : Scan → ℕ → Round
  stop : Error → Dict Bytes → Round

module _ (boost : Boost) (tokens : Tokens) where
  open tokens use {assoc, delim, escape}

  pub round : Scan → ℕ → Bytes → Round
  unfolding copy
  round st c s =
      if st.escaped
      then go_on (copy st c) 0
      else if boost.starts_with (c ∷ s) escape
      then go_on (record st { escaped = true }) (length escape - 1)
      else if boost.starts_with (c ∷ s) assoc
      then (if st.assoc_encountered
          then stop sys_bad_input st.kvp
          else go_on (record st { assoc_encountered = true }) (length assoc - 1))
      else if boost.starts_with (c ∷ s) delim
      then (if not st.assoc_encountered
          then stop sys_bad_input st.kvp
          else go_on
              (record {
                key = [];
                value = [];
                assoc_encountered = false;
                escaped = false;
                kvp = insert st.key st.value st.kvp;
              })
              (length delim - 1))
      else go_on (copy st c) 0

  pub scan : Scan → ℕ → Bytes → Outcome
  scan st skip [] = finish_scan st
  scan st (suc skip) (c ∷ s) = scan st skip s
  scan st zero (c ∷ s) = elim (round st c s) [
    | go_on st' skip ↦ scan st' skip s
    | stop e kvp ↦ failure e kvp
  ]

  -- The checks of the three tokens.
  pub tokens_rejected : Bool
  tokens_rejected =
      is_empty delim
      || is_empty assoc
      || is_empty escape
      || (str_eq delim escape
          || str_eq delim assoc
          || str_eq assoc escape
          || boost.starts_with assoc delim
          || boost.starts_with delim assoc)
      || (contains boost assoc delim
          || contains boost assoc escape
          || contains boost delim assoc
          || contains boost delim escape
          || contains boost escape assoc
          || contains boost escape delim)

  pub parse_escaped_kvp_string : Bytes → Dict Bytes → Outcome
  parse_escaped_kvp_string s kvp =
      if tokens_rejected
      then failure sys_bad_input kvp
      else scan
          (record { key = []; value = []; assoc_encountered = false; escaped = false; kvp = kvp }) 0
          s

module _ (boost : Boost) where
  -- The first special token, in the order of the set, that starts the string.
  pub first_token : List Bytes → Bytes → Option Bytes
  first_token [] s = none
  first_token (tok ∷ toks) s = if boost.starts_with s tok then some tok else first_token toks s

  -- `special_tokens.count(escape)`
  pub is_member : Bytes → List Bytes → Bool
  is_member t [] = false
  is_member t (tok ∷ toks) = str_eq tok t || is_member t toks

  -- What is written at a position that is not skipped, and how many characters are then skipped.
  pub write_at : Bytes → List Bytes → ℕ → Bytes → Bytes × ℕ
  write_at escape specials c s = elim (first_token specials (c ∷ s)) [
    | some tok ↦ (escape ++ tok, length tok - 1)
    | none ↦
        if not (is_member escape specials) && boost.starts_with (c ∷ s) escape
        then (escape ++ escape, length escape - 1)
        else (c ∷ [], 0)
  ]

  pub escape_from : Bytes → List Bytes → ℕ → Bytes → Bytes
  escape_from escape specials skip [] = []
  escape_from escape specials (suc skip) (c ∷ s) = escape_from escape specials skip s
  escape_from escape specials zero (c ∷ s) =
      let (out, skip) = write_at escape specials c s in out ++ escape_from escape specials skip s

  -- For special tokens that are not empty: an empty one would keep the loop where it is.
  pub escape_string : Bytes → Bytes → List Bytes → Bytes
  escape_string s escape specials = escape_from escape specials 0 s
