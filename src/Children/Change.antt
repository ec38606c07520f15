-- ===== src/Children/Change.antt =====
-- src/core/src/irods_children_parser.cpp: the calls that change the map.
use irods_client_library_cpp.Base.{◌≡◌, refl, ap, ◌∙◌, none, some, arith, Bytes, str_eq_refl}
use irods_client_library_cpp.Base.Dict.{lookup, insert, erase, erase-insert, lookup-insert}
use irods_client_library_cpp.Children.{
  child_exists, child_not_found, Children, add_child, remove_child,
}

add_child_new :
    (m : Children) (child context : Bytes)
    → lookup child m ≡ none
    → add_child m child context ≡ (none, insert child context m)
unfolding add_child
add_child_new m child context h = rw (h, add_child) refl

add_child_known :
    (m : Children) (child context : Bytes) {v : Bytes}
    → lookup child m ≡ some v
    → add_child m child context ≡ (some child_exists, m)
unfolding add_child
add_child_known m child context h = rw (h, add_child) refl

remove_child_new :
    (m : Children) (child : Bytes)
    → lookup child m ≡ none
    → remove_child m child ≡ (some child_not_found, m)
unfolding remove_child
remove_child_new m child h = rw (h, remove_child) refl

remove_child_known :
    (m : Children) (child : Bytes) {v : Bytes}
    → lookup child m ≡ some v
    → remove_child m child ≡ (none, erase child m)
unfolding remove_child
remove_child_known m child h = rw (h, remove_child) refl

-- Of a child that is not in the map, add_child succeeds and inserts it with its context, remove_child
-- then succeeds and gives the map back as it was, and a second add_child of the child, with any
-- context, fails with CHILD_EXISTS and keeps the first one.
pub add_child_lem :
    (m : Children) (child context other : Bytes)
    → lookup child m ≡ none
    → (add_child m child context ≡ (none, insert child context m))
      × (remove_child (insert child context m) child ≡ (none, m))
      × (add_child (insert child context m) child other
          ≡ (some child_exists, insert child context m))
add_child_lem m child context other h =
    let found : lookup child (insert child context m) ≡ some context =
      ground (arith, lookup-insert child child context m, str_eq_refl child) in
    (
      add_child_new m child context h,
      remove_child_known (insert child context m) child found
          ∙ ap (λ r. (none, r)) (erase-insert child context m h),
      add_child_known (insert child context m) child other found,
    )
