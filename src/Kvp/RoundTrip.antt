-- ===== src/Kvp/RoundTrip.antt =====
-- src/core/src/irods_kvp_string_parser.cpp: parse_escaped_kvp_string reads back what is written with
-- escape_string, for tokens of one character each.
use irods_client_library_cpp.Base.{
  ℕ, ◌≡◌, ◌≢◌, refl, sym, ap, ◌∙◌, true, false, ◌||◌, List, [], ◌∷◌, ◌++◌, arith, ◌==◌, Bytes,
  Bool-cases, append_assoc, append-nil, str_eq, inl, inr,
}
use irods_client_library_cpp.Base.Dict.{Dict, insert, insert_all}
use irods_client_library_cpp.Kvp.{
  success, Boost, Scan, copy, finish_scan, go_on, round, scan, tokens_rejected,
  parse_escaped_kvp_string, escape_string,
}
use irods_client_library_cpp.Kvp.Escape.{
  starts_one, contains_one, one_char, hide, hide_all, Specials, escape_string-hide_all,
}

abbrev in_key : Bytes → Dict Bytes → Scan
in_key k m = record { key = k; value = []; assoc_encountered = false; escaped = false; kvp = m }

abbrev in_value : Bytes → Bytes → Dict Bytes → Scan
in_value k v m = record { key = k; value = v; assoc_encountered = true; escaped = false; kvp = m }

module _ (boost : Boost) (a d e : ℕ) where
  round-plain :
      (st : Scan) (c : ℕ) (s : Bytes)
      → st.escaped ≡ false
      → (c == a || c == d || c == e) ≡ false
      → round boost (one_char a d e) st c s ≡ go_on (copy st c) 0
  unfolding round
  round-plain st c s plain h =
      ground (arith, starts_one boost c a s, starts_one boost c d s, starts_one boost c e s)

  round-escape :
      (st : Scan) (s : Bytes)
      → st.escaped ≡ false
      → round boost (one_char a d e) st e s ≡ go_on (record st { escaped = true }) 0
  unfolding round
  round-escape st s plain = ground (arith, starts_one boost e e s)

  round-escaped :
      (st : Scan) (c : ℕ) (s : Bytes)
      → round boost (one_char a d e) (record st { escaped = true }) c s ≡ go_on (copy st c) 0
  unfolding round copy
  round-escaped st c s = ground arith

  round_assoc :
      (k : Bytes) (m : Dict Bytes) (s : Bytes)
      → a ≢ e
      → round boost (one_char a d e) (in_key k m) a s ≡ go_on (in_value k [] m) 0
  unfolding round
  round_assoc k m s ae = ground (arith, starts_one boost a a s, starts_one boost a e s)

  round-delim :
      (k v : Bytes) (m : Dict Bytes) (s : Bytes)
      → a ≢ d
      → d ≢ e
      → round boost (one_char a d e) (in_value k v m) d s ≡ go_on (in_key [] (insert k v m)) 0
  unfolding round
  round-delim k v m s ad de =
      ground (arith, starts_one boost d a s, starts_one boost d d s, starts_one boost d e s)

  scan-round :
      (st st' : Scan) (c : ℕ) (s : Bytes)
      → round boost (one_char a d e) st c s ≡ go_on st' 0
      → scan boost (one_char a d e) st 0 (c ∷ s) ≡ scan boost (one_char a d e) st' 0 s
  unfolding scan
  scan-round st st' c s h = rw (h, scan)

  -- One character of a key or a value, escaped or not, is copied.
  scan-hide :
      (st : Scan) (c : ℕ) (rest : Bytes)
      → st.escaped ≡ false
      → scan boost (one_char a d e) st 0 (hide a d e c ++ rest)
        ≡ scan boost (one_char a d e) (copy st c) 0 rest
  unfolding hide
  scan-hide st c rest plain = elim (Bool-cases (c == a || c == d || c == e)) [
    | inl special ↦ rw special (
        scan-round st _ e (c ∷ rest) (round-escape st (c ∷ rest) plain)
        ∙ scan-round _ _ c rest (round-escaped st c rest))
    | inr ordinary ↦ rw ordinary (scan-round st _ c rest (round-plain st c rest plain ordinary))
  ]

  scan_key :
      (k w rest : Bytes) (m : Dict Bytes)
      → scan boost (one_char a d e) (in_key k m) 0 (hide_all a d e w ++ rest)
        ≡ scan boost (one_char a d e) (in_key (k ++ w) m) 0 rest
  unfolding hide_all copy
  scan_key k [] rest m = rw append-nil
  scan_key k (c ∷ w) rest m =
      rw append_assoc (scan-hide (in_key k m) c (hide_all a d e w ++ rest) refl)
      ∙ (scan_key (k ++ c ∷ []) w rest m
          ∙ ap (λ x. scan boost (one_char a d e) (in_key x m) 0 rest) (append_assoc k (c ∷ []) w))

  scan_value :
      (k v w rest : Bytes) (m : Dict Bytes)
      → scan boost (one_char a d e) (in_value k v m) 0 (hide_all a d e w ++ rest)
        ≡ scan boost (one_char a d e) (in_value k (v ++ w) m) 0 rest
  unfolding hide_all copy
  scan_value k v [] rest m = rw append-nil
  scan_value k v (c ∷ w) rest m =
      rw append_assoc (scan-hide (in_value k v m) c (hide_all a d e w ++ rest) refl)
      ∙ (scan_value k (v ++ c ∷ []) w rest m
          ∙ ap (λ x. scan boost (one_char a d e) (in_value k x m) 0 rest)
              (append_assoc v (c ∷ []) w))

  -- One pair, up to its end.
  scan_pair :
      (k v rest : Bytes) (m : Dict Bytes)
      → a ≢ e
      → scan boost
          (one_char a d e)
          (in_key [] m)
          0
          (hide_all a d e k ++ a ∷ (hide_all a d e v ++ rest))
        ≡ scan boost (one_char a d e) (in_value k v m) 0 rest
  scan_pair k v rest m ae =
      scan_key [] k (a ∷ (hide_all a d e v ++ rest)) m
      ∙ (scan-round (in_key k m) (in_value k [] m) a _ (round_assoc k m _ ae)
          ∙ scan_value k [] v rest m)

-- The text of some pairs, written with escape_string and the three tokens.
module _ (boost : Boost) (a d e : ℕ) (toks : List Bytes) where
  pub print_pair : Bytes × Bytes → Bytes
  print_pair (k, v) = escape_string boost k (e ∷ []) toks ++ a ∷ escape_string boost v (e ∷ []) toks

  unfoldable pub print_pairs : Dict Bytes → Bytes
  unfolding print_pair
  print_pairs [] = []
  print_pairs (p ∷ []) = print_pair p
  print_pairs (p ∷ q ∷ ps) = print_pair p ++ d ∷ print_pairs (q ∷ ps)

  tokens_rejected-one_char : a ≢ d → a ≢ e → d ≢ e → tokens_rejected boost (one_char a d e) ≡ false
  unfolding tokens_rejected str_eq
  tokens_rejected-one_char ad ae de = ground (
    arith,
    starts_one boost a d [],
    starts_one boost d a [],
    contains_one boost a d,
    contains_one boost a e,
    contains_one boost d a,
    contains_one boost d e,
    contains_one boost e a,
    contains_one boost e d,
  )

  print_pair-append :
      (k v rest : Bytes)
      → a ≢ e
      → d ≢ e
      → Specials a d toks
      → print_pair (k, v) ++ rest ≡ hide_all a d e k ++ a ∷ (hide_all a d e v ++ rest)
  unfolding print_pair
  print_pair-append k v rest ae de t = rw (escape_string-hide_all boost a d e toks k ae de t) (
      rw (escape_string-hide_all boost a d e toks v ae de t)
        (append_assoc (hide_all a d e k) _ rest))

  scan-print_pair :
      (k v rest : Bytes) (m : Dict Bytes)
      → a ≢ e
      → d ≢ e
      → Specials a d toks
      → scan boost (one_char a d e) (in_key [] m) 0 (print_pair (k, v) ++ rest)
        ≡ scan boost (one_char a d e) (in_value k v m) 0 rest
  scan-print_pair k v rest m ae de t =
      rw (print_pair-append k v rest ae de t) (scan_pair boost a d e k v rest m ae)

  scan-end :
      (k v : Bytes) (m : Dict Bytes)
      → scan boost (one_char a d e) (in_value k v m) 0 [] ≡ success (insert k v m)
  unfolding scan finish_scan
  scan-end [] v m = refl
  scan-end (c ∷ k) v m = refl

  scan-print_pairs :
      (ps : Dict Bytes) (m : Dict Bytes)
      → a ≢ d
      → a ≢ e
      → d ≢ e
      → Specials a d toks
      → scan boost (one_char a d e) (in_key [] m) 0 (print_pairs ps) ≡ success (insert_all ps m)
  unfolding print_pairs insert_all finish_scan scan
  scan-print_pairs [] m ad ae de t = refl
  scan-print_pairs ((k, v) ∷ []) m ad ae de t =
      ap (scan boost (one_char a d e) (in_key [] m) 0) (sym (append-nil (print_pair (k, v))))
      ∙ (scan-print_pair k v [] m ae de t ∙ scan-end k v m)
  scan-print_pairs ((k, v) ∷ q ∷ ps) m ad ae de t =
      scan-print_pair k v (d ∷ print_pairs (q ∷ ps)) m ae de t
      ∙ (scan-round boost a d e _ (in_key [] (insert k v m)) d _
            (round-delim boost a d e k v m _ ad de)
          ∙ scan-print_pairs (q ∷ ps) (insert k v m) ad ae de t)

  -- For three different tokens of one character each: what escape_string and the tokens make of any
  -- pairs is parsed to the map with those pairs inserted, in their order.
  pub parse-print_pairs :
      (ps : Dict Bytes) (m : Dict Bytes)
      → a ≢ d
      → a ≢ e
      → d ≢ e
      → Specials a d toks
      → parse_escaped_kvp_string boost (one_char a d e) (print_pairs ps) m
        ≡ success (insert_all ps m)
  unfolding parse_escaped_kvp_string
  parse-print_pairs ps m ad ae de t =
      rw (tokens_rejected-one_char ad ae de) (scan-print_pairs ps m ad ae de t)
