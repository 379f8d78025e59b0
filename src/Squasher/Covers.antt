-- ===== src/Squasher/Covers.antt =====
-- The paths that a tree stands for, where a squashed level stands for every name.
pub mod Merge
pub mod Added
use tracemate.Base.{
  ℕ, suc, Bool, true, false, List, [], ◌∷◌, if◌then◌else◌, Bytes, Bool-cases, ◌⊎◌, inl, inr, ◌≡◌,
  refl, ◌∙◌, arith,
}
use tracemate.CString.{equal}
use tracemate.CString.Search.{equal_iff, equal_self}
use tracemate.Squasher.{
  Node, plain, squashed, Children, nil, cons, segment_name, wildcard, create_node, has,
  append_child, add_child, update,
}
use tracemate.Squasher.Tree.{KeepsName, has-add_child}

-- A node's name stands for the segment: it is its name, or the wildcard.
abbrev pub Named : Bytes → Node → Type 0
Named s c = (segment_name c ≡ s) ⊎ (segment_name c ≡ wildcard)

abbrev pub Any : (Node → Type 0) → Children → Type 0
Any P nil = ⊥
Any P (cons c cs) = P c ⊎ Any P cs

-- The tree below a node stands for a path.
abbrev pub Covers : List Bytes → Node → Type 0
Covers [] n = Unit
Covers (s ∷ ss) (plain name cs) = Any (λ c. Named s c × Covers ss c) cs
Covers (s ∷ ss) (squashed name c) = Named s c × Covers ss c

-- Every squashed child bears the name that `squash_children` gives it.
mutual
  pub data IsTree : Node → Type 0 where
    plain_tree : {name : Bytes} {cs : Children} → AreTrees cs → IsTree (plain name cs)
    squashed_tree :
        {name : Bytes} {c : Node} → segment_name c ≡ wildcard → IsTree c → IsTree (squashed name c)

  pub data AreTrees : Children → Type 0 where
    no_trees : AreTrees nil
    more_trees : {c : Node} {cs : Children} → IsTree c → AreTrees cs → AreTrees (cons c cs)

-- `f` loses no path, and keeps a tree a tree.
abbrev pub KeepsPaths : (Node → Node) → Type 0
KeepsPaths f = (q : List Bytes) (n : Node) → Covers q n → Covers q (f n)

abbrev pub KeepsTree : (Node → Node) → Type 0
KeepsTree f = (n : Node) → IsTree n → IsTree (f n)

module _ (P : Node → Type 0) where
  Any-append_child : (n : Node) (cs : Children) → Any P cs → Any P (append_child n cs)
  unfolding append_child
  Any-append_child n nil h = elim h [ ]
  Any-append_child n (cons c cs) (inl h) = inl h
  Any-append_child n (cons c cs) (inr h) = inr (Any-append_child n cs h)

  pub Any-add_child : (name : Bytes) (cs : Children) → Any P cs → Any P (add_child name cs)
  unfolding add_child
  Any-add_child name cs h = elim (Bool-cases (has name cs)) [
    | inl e ↦ rw e h
    | inr e ↦ rw e (Any-append_child (create_node name) cs h)
  ]

  pub Any-update :
      (name : Bytes) (f : Node → Node)
      → ((c : Node) → P c → P (f c))
      → (cs : Children) → Any P cs
      → Any P (update name f cs)
  unfolding update
  Any-update name f k nil h = elim h [ ]
  Any-update name f k (cons c cs) h = elim (Bool-cases (equal (segment_name c) name)) [
    | inl e ↦ rw e (moved h)
    | inr e ↦ rw e (kept h (Any-update name f k cs))
  ]
    where
      moved : P c ⊎ Any P cs → P (f c) ⊎ Any P cs
      moved (inl x) = inl (k c x)
      moved (inr x) = inr x

      kept : P c ⊎ Any P cs → (Any P cs → Any P (update name f cs)) → P c ⊎ Any P (update name f cs)
      kept (inl x) g = inl x
      kept (inr x) g = inr (g x)

  -- The child of that name is there, and `f` makes it satisfy `P`.
  Any-update_named :
      (name : Bytes) (f : Node → Node)
      → ((c : Node) → IsTree c → segment_name c ≡ name → P (f c))
      → (cs : Children) → AreTrees cs
      → has name cs ≡ true
      → Any P (update name f cs)
  unfolding update has
  Any-update_named name f k nil t h = cc
  Any-update_named name f k (cons c cs) (more_trees t ts) h =
      elim (Bool-cases (equal (segment_name c) name)) [
        | inl e ↦ rw e (inl (k c t ((equal_iff (segment_name c) name).0 e)))
        | inr e ↦ rw e (inr (Any-update_named name f k cs ts (rw e at h)))
      ]

append_child-AreTrees :
    (name : Bytes) (cs : Children) → AreTrees cs → AreTrees (append_child (create_node name) cs)
unfolding append_child
append_child-AreTrees name nil t = more_trees (plain_tree no_trees) no_trees
append_child-AreTrees name (cons c cs) (more_trees t ts) =
    more_trees t (append_child-AreTrees name cs ts)

pub add_child-AreTrees : (name : Bytes) (cs : Children) → AreTrees cs → AreTrees (add_child name cs)
unfolding add_child
add_child-AreTrees name cs t = elim (Bool-cases (has name cs)) [
  | inl e ↦ rw e t
  | inr e ↦ rw e (append_child-AreTrees name cs t)
]

pub update-AreTrees :
    (name : Bytes) (f : Node → Node)
    → KeepsTree f
    → (cs : Children) → AreTrees cs
    → AreTrees (update name f cs)
unfolding update
update-AreTrees name f k nil t = t
update-AreTrees name f k (cons c cs) (more_trees t ts) =
    elim (Bool-cases (equal (segment_name c) name)) [
      | inl e ↦ rw e (more_trees (k c t) ts)
      | inr e ↦ rw e (more_trees t (update-AreTrees name f k cs ts))
    ]

pub Any-update-add_child :
    (P : Node → Type 0) (name : Bytes) (f : Node → Node) (cs : Children)
    → ((c : Node) → IsTree c → segment_name c ≡ name → P (f c))
    → AreTrees cs
    → Any P (update name f (add_child name cs))
Any-update-add_child P name f cs k t =
    Any-update_named P name f k (add_child name cs) (add_child-AreTrees name cs t)
      (has-add_child name cs)

-- A name kept stands for what it stood for.
pub Named-keeps :
    (f : Node → Node) → KeepsName f → (s : Bytes) (c : Node) → Named s c → Named s (f c)
Named-keeps f k s c (inl e) = inl (k c ∙ e)
Named-keeps f k s c (inr e) = inr (k c ∙ e)
