-- ===== src/Squasher/Idem.antt =====
-- Adding one path twice.
use tracemate.Base.{
  ℕ, ◌+◌, Bool, true, false, List, [], ◌∷◌, ◌==◌, Bytes, ◌≡◌, refl, ap, arith, fun_ext,
}
use tracemate.Squasher.{
  Node, plain, squashed, Children, has, add_child, update, squash_children, place, enter, descend,
  add_segments, PathSquasher, segments, tm_path_squasher_add_path,
}
use tracemate.Squasher.Tree.{
  KeepsName, has-add_child, add_child-has, has-update, count-update, update-update,
  descend-KeepsName, add_segments-KeepsName,
}

module _ (factor depth : ℕ) (is_root : Bool) (segment : Bytes) (next : Node → Node)
    (k : KeepsName next) (idem : (n : Node) → next (next n) ≡ next n) where
  place_idem :
      (name : Bytes) (cs : Children)
      → has segment cs ≡ true
      → enter factor depth is_root segment next (place factor depth is_root segment next name cs)
        ≡ place factor depth is_root segment next name cs
  unfolding enter place
  place_idem name cs h = ground (
    arith,
    add_child-has segment (update segment next cs),
    has-update segment next k cs,
    count-update segment next k cs,
    update-update segment next k cs,
    ap (λ f. update segment f cs) (fun_ext idem),
    idem (squash_children cs),
  )

  enter_idem :
      (n : Node)
      → enter factor depth is_root segment next (enter factor depth is_root segment next n)
        ≡ enter factor depth is_root segment next n
  unfolding enter
  enter_idem (plain name cs) = place_idem name (add_child segment cs) (has-add_child segment cs)
  enter_idem (squashed name c) = ap (squashed name) (idem c)

descend_idem :
    (stop : Bool) (f : Node → Node)
    → ((n : Node) → f (f n) ≡ f n)
    → (n : Node) → descend stop f (descend stop f n) ≡ descend stop f n
unfolding descend
descend_idem true f h n = refl
descend_idem false f h n = h n

add_segments_idem :
    (factor depth : ℕ) (is_root : Bool) (ss : List Bytes) (n : Node)
    → add_segments factor depth is_root ss (add_segments factor depth is_root ss n)
      ≡ add_segments factor depth is_root ss n
unfolding add_segments
add_segments_idem factor depth is_root [] n = refl
add_segments_idem factor depth is_root (s ∷ ss) n =
    enter_idem factor depth is_root s _
      (descend-KeepsName (depth + 1 == 5) _ (add_segments-KeepsName factor (depth + 1) false ss))
      (descend_idem (depth + 1 == 5) _ (add_segments_idem factor (depth + 1) false ss)) n

-- Adding a path a second time leaves the tree as the first time left it, also where the first
-- time squashed levels.
pub add_path_again :
    (ps : PathSquasher) (url_path : Bytes)
    → (tm_path_squasher_add_path (tm_path_squasher_add_path ps url_path) url_path).root_node
      ≡ (tm_path_squasher_add_path ps url_path).root_node
unfolding tm_path_squasher_add_path
add_path_again ps url_path =
    add_segments_idem ps.cardinality_factor 0 true (segments url_path) ps.root_node
