-- ===== src/Squasher/Covers/Added.antt =====
-- Adding a path to the tree.
use tracemate.Base.{
  ℕ, zero, suc, ◌+◌, Bool, true, false, not, ◌&&◌, List, [], ◌∷◌, ltb, ◌==◌, Bytes, Bool-cases, inl,
  inr, ◌≡◌, refl, ◌∙◌, arith, take, All,
}
use tracemate.Squasher.{
  Node, plain, squashed, Children, segment_name, wildcard, count, add_child, limit, squash_children,
  place, enter, descend, add_segments, PathSquasher, tm_path_squasher_alloc, segments,
  tm_path_squasher_add_path,
}
use tracemate.Squasher.Tree.{enter-KeepsName}
use tracemate.Squasher.Covers.{
  Named, Any, Covers, IsTree, plain_tree, squashed_tree, no_trees, KeepsPaths, KeepsTree,
  Any-update-add_child, add_child-AreTrees, update-AreTrees,
}
use tracemate.Squasher.Covers.Merge.{
  Keeps, id-Keeps, Covers-update, Covers-add_child, squash_children-named, squash_children-IsTree,
  squash_children-Includes,
}

module _ (factor depth : ℕ) (is_root : Bool) (segment : Bytes) (next : Node → Node)
    (k : Keeps next) where
  squashed-named : (cs : Children) → segment_name (next (squash_children cs)) ≡ wildcard
  squashed-named cs = k.name (squash_children cs) ∙ squash_children-named cs

  place-Covers :
      (name : Bytes) (s : Bytes) (q : List Bytes) (cs : Children)
      → Any (λ c. Named s c × Covers q c) cs
      → Covers (s ∷ q) (place factor depth is_root segment next name cs)
  unfolding place
  place-Covers name s q cs h =
      elim (Bool-cases (ltb (limit factor depth) (count cs) && not is_root)) [
        | inl e ↦ rw e (
          inr (squashed-named cs),
          k.paths q (squash_children cs) (squash_children-Includes cs s q h),
        )
        | inr e ↦ rw e (Covers-update segment next k s q cs h)
      ]

  enter-KeepsPaths : KeepsPaths (enter factor depth is_root segment next)
  unfolding enter
  enter-KeepsPaths [] n h = tt
  enter-KeepsPaths (s ∷ q) (plain m cs) h =
      place-Covers m s q (add_child segment cs) (Covers-add_child segment s q cs h)
  enter-KeepsPaths (s ∷ q) (squashed m c) (inl e, h) = (inl (k.name c ∙ e), k.paths q c h)
  enter-KeepsPaths (s ∷ q) (squashed m c) (inr e, h) = (inr (k.name c ∙ e), k.paths q c h)

  enter-KeepsTree : KeepsTree (enter factor depth is_root segment next)
  unfolding enter place
  enter-KeepsTree (squashed m c) (squashed_tree e t) = squashed_tree (k.name c ∙ e) (k.tree c t)
  enter-KeepsTree (plain m cs) (plain_tree ts) =
      let ds = add_child segment cs in
      elim (Bool-cases (ltb (limit factor depth) (count ds) && not is_root)) [
        | inl e ↦ rw e (
            squashed_tree (squashed-named ds)
              (k.tree (squash_children ds) (squash_children-IsTree ds)))
        | inr e ↦
            rw e (
              plain_tree
                (update-AreTrees segment next k.tree ds (add_child-AreTrees segment cs ts)))
      ]

  enter-Keeps : Keeps (enter factor depth is_root segment next)
  enter-Keeps = record {
    name = enter-KeepsName segment next k.name factor depth is_root;
    paths = enter-KeepsPaths;
    tree = enter-KeepsTree;
  }

  enter-Includes :
      (q : List Bytes)
      → ((c : Node) → IsTree c → Covers q (next c))
      → (n : Node) → IsTree n
      → Covers (segment ∷ q) (enter factor depth is_root segment next n)
  unfolding enter place
  enter-Includes q g (squashed m c) (squashed_tree e t) = (inr (k.name c ∙ e), g c t)
  enter-Includes q g (plain m cs) (plain_tree ts) =
      let ds = add_child segment cs in
      elim (Bool-cases (ltb (limit factor depth) (count ds) && not is_root)) [
        | inl e ↦ rw e (inr (squashed-named ds), g (squash_children ds) (squash_children-IsTree ds))
        | inr e ↦ rw e (
            Any-update-add_child (λ c. Named segment c × Covers q c) segment next cs
              (λ c t n. (inl (k.name c ∙ n), g c t)) ts)
      ]

descend-Keeps : (stop : Bool) (f : Node → Node) → Keeps f → Keeps (descend stop f)
unfolding descend
descend-Keeps true f k = id-Keeps
descend-Keeps false f k = k

add_segments-Keeps :
    (factor depth : ℕ) (is_root : Bool) (segments : List Bytes)
    → Keeps (add_segments factor depth is_root segments)
unfolding add_segments
add_segments-Keeps factor depth is_root [] = id-Keeps
add_segments-Keeps factor depth is_root (s ∷ ss) =
    enter-Keeps factor depth is_root s _
      (descend-Keeps (depth + 1 == 5) _ (add_segments-Keeps factor (depth + 1) false ss))

descend-Includes :
    (m depth : ℕ) (f : Node → Node) (ss : List Bytes)
    → depth + m ≡ 5
    → ((k : ℕ) → depth + suc k ≡ 5 → (c : Node) → IsTree c → Covers (take (suc k) ss) (f c))
    → (c : Node) → IsTree c
    → Covers (take m ss) (descend (depth == 5) f c)
unfolding descend
descend-Includes zero depth f ss e g c t = tt
descend-Includes (suc m) depth f ss e g c t =
    let z : (depth == 5) ≡ false = ground arith in rw z (g m e c t)

-- The path's segments down to depth 5 are in the tree afterwards.
add_segments-Includes :
    (factor depth m : ℕ) (is_root : Bool) (ss : List Bytes)
    → depth + m ≡ 5
    → (n : Node) → IsTree n
    → Covers (take m ss) (add_segments factor depth is_root ss n)
unfolding add_segments
add_segments-Includes factor depth zero is_root ss e n t = tt
add_segments-Includes factor depth (suc m) is_root [] e n t = tt
add_segments-Includes factor depth (suc m) is_root (s ∷ ss) e n t =
    enter-Includes factor depth is_root s _
      (descend-Keeps (depth + 1 == 5) _ (add_segments-Keeps factor (depth + 1) false ss))
      (take m ss)
      (descend-Includes m (depth + 1) _ ss (omega arith)
        λ k f. add_segments-Includes factor (depth + 1) (suc k) false ss f)
      n t

abbrev pub add_paths : PathSquasher → List Bytes → PathSquasher
add_paths ps [] = ps
add_paths ps (url ∷ urls) = add_paths (tm_path_squasher_add_path ps url) urls

-- The tree stands for the first five segments of the URL path.
abbrev pub Remembers : PathSquasher → Bytes → Type 0
Remembers ps url = Covers (take 5 (segments url)) ps.root_node

add_path-IsTree :
    (ps : PathSquasher) (url : Bytes)
    → IsTree ps.root_node
    → IsTree (tm_path_squasher_add_path ps url).root_node
unfolding tm_path_squasher_add_path
add_path-IsTree ps url t =
    (add_segments-Keeps ps.cardinality_factor 0 true (segments url)).tree ps.root_node t

add_path-Remembers :
    (ps : PathSquasher) (url : Bytes)
    → IsTree ps.root_node
    → Remembers (tm_path_squasher_add_path ps url) url
unfolding tm_path_squasher_add_path
add_path-Remembers ps url t =
    add_segments-Includes ps.cardinality_factor 0 5 true (segments url) refl ps.root_node t

add_path-Remembers_kept :
    (ps : PathSquasher) (url other : Bytes)
    → Remembers ps other
    → Remembers (tm_path_squasher_add_path ps url) other
unfolding tm_path_squasher_add_path
add_path-Remembers_kept ps url other =
    (add_segments-Keeps ps.cardinality_factor 0 true (segments url)).paths _ ps.root_node

add_paths-Remembers :
    (ps : PathSquasher) (urls : List Bytes) (other : Bytes)
    → Remembers ps other
    → Remembers (add_paths ps urls) other
add_paths-Remembers ps [] other h = h
add_paths-Remembers ps (url ∷ urls) other h =
    add_paths-Remembers (tm_path_squasher_add_path ps url) urls other
      (add_path-Remembers_kept ps url other h)

add_paths-All :
    (ps : PathSquasher) (urls : List Bytes)
    → IsTree ps.root_node
    → All (Remembers (add_paths ps urls)) urls
add_paths-All ps [] t = tt
add_paths-All ps (url ∷ urls) t = (
  add_paths-Remembers (tm_path_squasher_add_path ps url) urls url (add_path-Remembers ps url t),
  add_paths-All (tm_path_squasher_add_path ps url) urls (add_path-IsTree ps url t),
)

-- No path that was added to a fresh squasher is ever lost, whatever came after it and however many
-- levels were squashed: the tree stands for its first five segments.
pub no_path_lost :
    (cardinality_factor : ℕ) (urls : List Bytes)
    → All (Remembers (add_paths (tm_path_squasher_alloc cardinality_factor) urls)) urls
unfolding tm_path_squasher_alloc
no_path_lost cardinality_factor urls =
    add_paths-All (tm_path_squasher_alloc cardinality_factor) urls (plain_tree no_trees)
