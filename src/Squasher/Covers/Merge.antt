-- ===== src/Squasher/Covers/Merge.antt =====
-- What merging two trees keeps, and what it takes over.
use tracemate.Base.{List, [], ◌∷◌, Bytes, ◌⊎◌, inl, inr, ◌≡◌, refl, ◌∙◌, sym}
use tracemate.Squasher.{
  Node, plain, squashed, Children, nil, cons, segment_name, wildcard, create_node, update,
  add_child, with_child, merge, merge_all, adopt, squash_onto, squash_children,
}
use tracemate.Squasher.Tree.{KeepsName}
use tracemate.Squasher.Covers.{
  Named, Any, Covers, IsTree, plain_tree, squashed_tree, no_trees, KeepsPaths, KeepsTree,
  Any-add_child, Any-update, Any-update-add_child, add_child-AreTrees, update-AreTrees, Named-keeps,
}

pub record Keeps (f : Node → Node) : Type 0 where
  pub name : KeepsName f
  pub paths : KeepsPaths f
  pub tree : KeepsTree f

pub Covers-update :
    (name : Bytes) (f : Node → Node)
    → Keeps f
    → (s : Bytes) (q : List Bytes) (cs : Children) → Any (λ c. Named s c × Covers q c) cs
    → Any (λ c. Named s c × Covers q c) (update name f cs)
Covers-update name f k s q cs h =
    Any-update (λ c. Named s c × Covers q c) name f
      (λ c g. (Named-keeps f k.name s c g.0, k.paths q c g.1)) cs h

pub Covers-add_child :
    (name s : Bytes) (q : List Bytes) (cs : Children)
    → Any (λ c. Named s c × Covers q c) cs
    → Any (λ c. Named s c × Covers q c) (add_child name cs)
Covers-add_child name s q cs h = Any-add_child (λ c. Named s c × Covers q c) name cs h

module _ (name : Bytes) (f : Node → Node) (k : Keeps f) where
  with_child-KeepsPaths : KeepsPaths (with_child name f)
  unfolding with_child
  with_child-KeepsPaths [] n h = h
  with_child-KeepsPaths (s ∷ q) (plain m cs) h =
      Covers-update name f k s q (add_child name cs) (Covers-add_child name s q cs h)
  with_child-KeepsPaths (s ∷ q) (squashed m c) h = (Named-keeps f k.name s c h.0, k.paths q c h.1)

  with_child-KeepsTree : KeepsTree (with_child name f)
  unfolding with_child
  with_child-KeepsTree (plain m cs) (plain_tree ts) =
      plain_tree (update-AreTrees name f k.tree (add_child name cs) (add_child-AreTrees name cs ts))
  with_child-KeepsTree (squashed m c) (squashed_tree e t) =
      squashed_tree (k.name c ∙ e) (k.tree c t)

  with_child-KeepsName : KeepsName (with_child name f)
  unfolding with_child
  with_child-KeepsName (plain m cs) = refl
  with_child-KeepsName (squashed m c) = refl

  pub with_child-Keeps : Keeps (with_child name f)
  with_child-Keeps = record {
    name = with_child-KeepsName;
    paths = with_child-KeepsPaths;
    tree = with_child-KeepsTree;
  }

pub id-Keeps : Keeps (λ n. n)
id-Keeps = record { name = λ n. refl; paths = λ q n h. h; tree = λ n t. t }

pub comp-Keeps : (f g : Node → Node) → Keeps f → Keeps g → Keeps (λ n. g (f n))
comp-Keeps f g k l = record {
  name = λ n. l.name (f n) ∙ k.name n;
  paths = λ q n h. l.paths q (f n) (k.paths q n h);
  tree = λ n t. l.tree (f n) (k.tree n t);
}

mutual
  unfolding merge

  pub merge-Keeps : (c : Node) → Keeps (merge c)
  merge-Keeps (plain name cs) = with_child-Keeps name _ (merge_all-Keeps cs)
  merge-Keeps (squashed name c) = with_child-Keeps name _ (merge-Keeps c)

  pub merge_all-Keeps : (cs : Children) → Keeps (merge_all cs)
  merge_all-Keeps nil = id-Keeps
  merge_all-Keeps (cons c cs) =
      comp-Keeps (merge c) (merge_all cs) (merge-Keeps c) (merge_all-Keeps cs)

-- A node that is named for the segment has a child that stands for it afterwards.
pub with_child-Includes :
    (name : Bytes) (f : Node → Node)
    → KeepsName f
    → (s : Bytes) (q : List Bytes) → (s ≡ name) ⊎ (name ≡ wildcard)
    → ((c : Node) → IsTree c → Covers q (f c))
    → (p : Node) → IsTree p
    → Covers (s ∷ q) (with_child name f p)
unfolding with_child
with_child-Includes name f k s q h g (plain m cs) (plain_tree ts) =
    Any-update-add_child (λ c. Named s c × Covers q c) name f cs (λ c t e. (named h c e, g c t)) ts
  where
    named : (s ≡ name) ⊎ (name ≡ wildcard) → (c : Node) → segment_name c ≡ name → Named s (f c)
    named (inl a) c e = inl (k c ∙ e ∙ sym a)
    named (inr a) c e = inr (k c ∙ e ∙ a)
with_child-Includes name f k s q h g (squashed m c) (squashed_tree e t) = (inr (k c ∙ e), g c t)

flip : (s : Bytes) (c : Node) → Named s c → (s ≡ segment_name c) ⊎ (segment_name c ≡ wildcard)
flip s c (inl e) = inl (sym e)
flip s c (inr e) = inr e

-- The only child of a squashed node.
below :
    (c : Node)
    → ((s : Bytes) (q : List Bytes)
        → Named s c
        → Covers q c
        → (p : Node) → IsTree p
        → Covers (s ∷ q) (merge c p))
    → (name : Bytes) (q : List Bytes) → Covers q (squashed name c)
    → (p : Node) → IsTree p
    → Covers q (merge c p)
below c g name [] h p t = tt
below c g name (s ∷ q) h p t = g s q h.0 h.1 p t

mutual
  unfolding merge

  -- What the child stood for, the parent stands for after the merge.
  pub merge-Includes :
      (c : Node) (s : Bytes) (q : List Bytes)
      → Named s c
      → Covers q c
      → (p : Node) → IsTree p
      → Covers (s ∷ q) (merge c p)
  merge-Includes (plain name cs) s q n h =
      with_child-Includes name _ ((merge_all-Keeps cs).name) s q (flip s (plain name cs) n)
        (merge_all-Includes cs name q h)
  merge-Includes (squashed name c) s q n h =
      with_child-Includes name _ ((merge-Keeps c).name) s q (flip s (squashed name c) n)
        (below c (merge-Includes c) name q h)

  pub merge_all-Includes :
      (cs : Children) (name : Bytes) (q : List Bytes)
      → Covers q (plain name cs)
      → (p : Node) → IsTree p
      → Covers q (merge_all cs p)
  merge_all-Includes cs name [] h p t = tt
  merge_all-Includes nil name (s ∷ q) h p t = elim h [ ]
  merge_all-Includes (cons c cs) name (s ∷ q) (inl h) p t =
      (merge_all-Keeps cs).paths (s ∷ q) (merge c p) (merge-Includes c s q h.0 h.1 p t)
  merge_all-Includes (cons c cs) name (s ∷ q) (inr h) p t =
      merge_all-Includes cs name (s ∷ q) h (merge c p) ((merge-Keeps c).tree p t)

adopt-Keeps : (c : Node) → Keeps (adopt c)
unfolding adopt
adopt-Keeps (plain name cs) = merge_all-Keeps cs
adopt-Keeps (squashed name c) = merge-Keeps c

adopt-Includes :
    (c : Node) (q : List Bytes) → Covers q c → (p : Node) → IsTree p → Covers q (adopt c p)
unfolding adopt
adopt-Includes (plain name cs) q h = merge_all-Includes cs name q h
adopt-Includes (squashed name c) q h = below c (merge-Includes c) name q h

squash_onto-Keeps : (cs : Children) → Keeps (squash_onto cs)
unfolding squash_onto
squash_onto-Keeps nil = id-Keeps
squash_onto-Keeps (cons c cs) =
    comp-Keeps (adopt c) (squash_onto cs) (adopt-Keeps c) (squash_onto-Keeps cs)

squash_onto-Includes :
    (cs : Children) (s : Bytes) (q : List Bytes)
    → Any (λ c. Named s c × Covers q c) cs
    → (p : Node) → IsTree p
    → Covers q (squash_onto cs p)
unfolding squash_onto
squash_onto-Includes nil s q h p t = elim h [ ]
squash_onto-Includes (cons c cs) s q (inl h) p t =
    (squash_onto-Keeps cs).paths q (adopt c p) (adopt-Includes c q h.1 p t)
squash_onto-Includes (cons c cs) s q (inr h) p t =
    squash_onto-Includes cs s q h (adopt c p) ((adopt-Keeps c).tree p t)

pub squash_children-named : (cs : Children) → segment_name (squash_children cs) ≡ wildcard
unfolding squash_children
squash_children-named cs = (squash_onto-Keeps cs).name (create_node wildcard)

pub squash_children-IsTree : (cs : Children) → IsTree (squash_children cs)
unfolding squash_children
squash_children-IsTree cs = (squash_onto-Keeps cs).tree (create_node wildcard) (plain_tree no_trees)

-- The squashed child stands for what any of the children stood for.
pub squash_children-Includes :
    (cs : Children) (s : Bytes) (q : List Bytes)
    → Any (λ c. Named s c × Covers q c) cs
    → Covers q (squash_children cs)
unfolding squash_children
squash_children-Includes cs s q h =
    squash_onto-Includes cs s q h (create_node wildcard) (plain_tree no_trees)
