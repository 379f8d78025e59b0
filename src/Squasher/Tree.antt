-- ===== src/Squasher/Tree.antt =====
-- Names and counts under the operations on children.
use tracemate.Base.{ℕ, Bool, true, false, List, [], ◌∷◌, Bytes, ◌≡◌, refl, arith, ◌==◌, ◌+◌}
use tracemate.CString.Search.{equal_self}
use tracemate.Squasher.{
  Node, plain, squashed, Children, nil, cons, segment_name, create_node, count, has, append_child,
  add_child, update, place, enter, descend, add_segments,
}

-- `f` leaves the name of every node alone.
abbrev pub KeepsName : (Node → Node) → Type 0
KeepsName f = (n : Node) → segment_name (f n) ≡ segment_name n

pub has-append_child :
    (name : Bytes) (cs : Children) → has name (append_child (create_node name) cs) ≡ true
unfolding has append_child
has-append_child name nil = ground (arith, equal_self name)
has-append_child name (cons c cs) = ground (arith, has-append_child name cs)

pub has-add_child : (name : Bytes) (cs : Children) → has name (add_child name cs) ≡ true
unfolding add_child
has-add_child name cs = ground (arith, has-append_child name cs)

pub add_child-has : (name : Bytes) (cs : Children) → has name cs ≡ true → add_child name cs ≡ cs
unfolding add_child
add_child-has name cs h = ground arith

module _ (name : Bytes) (f : Node → Node) (k : KeepsName f) where
  pub has-update : (cs : Children) → has name (update name f cs) ≡ has name cs
  unfolding has update
  has-update nil = refl
  has-update (cons c cs) = ground (arith, k c, has-update cs)

  pub count-update : (cs : Children) → count (update name f cs) ≡ count cs
  unfolding count update
  count-update nil = refl
  count-update (cons c cs) = ground (arith, count-update cs)

  pub update-update :
      (cs : Children) → update name f (update name f cs) ≡ update name (λ n. f (f n)) cs
  unfolding update
  update-update nil = refl
  update-update (cons c cs) = ground (arith, k c, update-update cs)

  pub enter-KeepsName :
      (factor depth : ℕ) (is_root : Bool) → KeepsName (enter factor depth is_root name f)
  unfolding enter place
  enter-KeepsName factor depth is_root (plain n cs) = ground arith
  enter-KeepsName factor depth is_root (squashed n c) = refl

pub descend-KeepsName : (stop : Bool) (f : Node → Node) → KeepsName f → KeepsName (descend stop f)
unfolding descend
descend-KeepsName true f k n = refl
descend-KeepsName false f k n = k n

pub add_segments-KeepsName :
    (factor depth : ℕ) (is_root : Bool) (segments : List Bytes)
    → KeepsName (add_segments factor depth is_root segments)
unfolding add_segments
add_segments-KeepsName factor depth is_root [] n = refl
add_segments-KeepsName factor depth is_root (s ∷ segments) n =
    enter-KeepsName s _
      (descend-KeepsName (depth + 1 == 5) _
        (add_segments-KeepsName factor (depth + 1) false segments))
      factor depth is_root n
