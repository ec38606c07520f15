-- ===== src/Pack/Instruct/ReadBack.antt =====
-- Packing instructions that parsePackInstruct of core/src/packStruct.cpp reads back.
use irods_client_library_cpp.Base.{
  ◌∙◌, ℕ, zero, suc, ◌+◌, ◌-◌, ◌≤◌, ◌<◌, ◌≡◌, refl, ap, Bool, true, false, [], ◌∷◌, ◌++◌, List,
  Bytes, length, length-append, append_assoc, ok, arith,
}
use irods_client_library_cpp.Pack.Instruct.{
  finish, parse_pack_instruct, copy_str, in_buf, copy_str_from_pi_buf, Item, on_text, parse_loop,
}
use irods_client_library_cpp.Pack.Instruct.Members.{
  Mark, Member, type_text, type_number, marked, mark_number, print_members, items_of, IsWord,
  type_text-IsWord, AreNamed, no_mark, pointer, no_free, no_pack,
}
use irods_client_library_cpp.Pack.Instruct.Tokens.{
  copy_word-space, on_token-word, before, typed, on_word-type, parse_loop_token, mark_rounds,
  mark_rounds_le, parse_loop-mark, parse_loop-name,
}

parse_loop-member :
    (m : Member) (fuel : ℕ) (q : List Item) (first : Bool) (s : Bytes)
    → IsWord m.name
    → 4 ≤ fuel
    → (f : ℕ) × (fuel ≤ f + 4)
      × (parse_loop fuel
            (type_text m.type ++ b' ' ∷ marked m.mark (m.name ++ b';' ∷ s))
            (before q first)
          ≡ parse_loop f s (before (q ++ items_of (m ∷ [])) false))
unfolding items_of
parse_loop-member m fuel q first s w h =
    let t = type_text-IsWord m.type in
    let i = type_number m.type in
    let r = mark_rounds q i m.mark in
    let text : Bytes = m.name ++ b';' ∷ s in
    let few : r ≤ 1 = mark_rounds_le q i m.mark in
    (
      fuel - 1 - r - 1 - 1,
      omega (arith, few),
      parse_loop_token fuel (type_text m.type ++ b' ' ∷ marked m.mark text) (type_text m.type)
            (marked m.mark text) (marked m.mark text) (before q first) (typed q i 0)
            (omega (arith, h))
            (copy_word-space [] (type_text m.type) (marked m.mark text) t.ordinary
              (omega (arith, t.some_byte)))
            t.some_byte t.fits
            (on_token-word (type_text m.type) (marked m.mark text) (before q first) t
              ∙ on_word-type m.type (marked m.mark text) q first)
          ∙ parse_loop-mark q i m.mark (fuel - 1) text (omega (arith, h))
          ∙ parse_loop-name q i (mark_number m.mark) (fuel - 1 - r) m.name s w
              (omega (arith, h, few)),
    )

length-marked : (m : Mark) (s : Bytes) → length s ≤ length (marked m s)
length-marked no_mark s = omega arith
length-marked pointer s = omega arith
length-marked no_free s = omega arith
length-marked no_pack s = omega arith

length-member :
    (m : Member) (s : Bytes)
    → IsWord m.name
    → length s + 4 ≤ length (type_text m.type ++ b' ' ∷ marked m.mark (m.name ++ b';' ∷ s))
length-member m s w =
    let text : Bytes = m.name ++ b';' ∷ s in
    omega (
      arith,
      length-append (type_text m.type) (b' ' ∷ marked m.mark text),
      length-marked m.mark text,
      length-append m.name (b';' ∷ s),
      (type_text-IsWord m.type).some_byte,
      w.some_byte,
    )

parse_loop_end : (fuel : ℕ) (q : List Item) → 0 < fuel → parse_loop fuel [] (before q false) ≡ ok q
unfolding parse_loop copy_str_from_pi_buf in_buf on_text finish copy_str
parse_loop_end zero q h = elim h [ ]
parse_loop_end (suc fuel) q h = refl

parse_loop-print_members :
    (ms : List Member) (m : Member) (fuel : ℕ) (q : List Item) (first : Bool)
    → AreNamed (m ∷ ms)
    → length (print_members (m ∷ ms)) < fuel
    → parse_loop fuel (print_members (m ∷ ms)) (before q first) ≡ ok (q ++ items_of (m ∷ ms))
unfolding print_members items_of
parse_loop-print_members [] m fuel q first (w, ws) h =
    let (f, l, e) =
      parse_loop-member m fuel q first [] w (omega (arith, h, length-member m [] w)) in
    e ∙ parse_loop_end f (q ++ items_of (m ∷ [])) (omega (arith, h, l, length-member m [] w))
parse_loop-print_members (m' ∷ ms) m fuel q first (w, ws) h =
    let rest : Bytes = print_members (m' ∷ ms) in
    let more = length-member m rest w in
    let (f, l, e) = parse_loop-member m fuel q first rest w (omega (arith, h, more)) in
    e
    ∙ parse_loop-print_members ms m' f (q ++ items_of (m ∷ [])) false ws (omega (arith, h, l, more))
    ∙ ap ok (append_assoc q (items_of (m ∷ [])) (items_of (m' ∷ ms)))

-- One or more members, each printed as its type, a blank, the mark of its pointer, its name and a
-- semicolon, are read by parsePackInstruct, however many they are, as items with these types, marks
-- and names in their order, where the names are not empty, are shorter than the buffer, are not "%" and not "#", and
-- are of bytes that are neither white space nor one of the four that are split off; the types are
-- those of packTypeTable but "?" and "%".
pub parse_pack_instruct-print_members :
    (m : Member) (ms : List Member)
    → AreNamed (m ∷ ms)
    → parse_pack_instruct (print_members (m ∷ ms)) ≡ ok (items_of (m ∷ ms))
unfolding parse_pack_instruct
parse_pack_instruct-print_members m ms h =
    parse_loop-print_members ms m (length (print_members (m ∷ ms)) + 1) [] true h (omega arith)
