-- ===== src/Squasher.antt =====
-- src/tm_url_squasher.c: the tree of the URL paths that a service has seen. The hash set of a
-- node's children is a list in the order of arrival; the order in which `ck_hs_next` runs through
-- them is not specified.
pub mod Tree
pub mod Idem
pub mod Covers
pub mod Regexes
use tracemate.Base.{
  ℕ, zero, suc, ◌+◌, ◌*◌, ◌/◌, ◌%◌, ◌^◌, Bool, true, false, not, ◌&&◌, List, [], ◌∷◌, ltb, ◌==◌,
  if◌then◌else◌, Bytes, codes,
}
use tracemate.CString.{equal, tokens}

-- `node_t`: a name with its children, or, where `children_squashed`, with its one squashed child.
mutual
  pub data Node : Type 0 where
    plain : Bytes → Children → Node
    squashed : Bytes → Node → Node

  pub data Children : Type 0 where
    nil : Children
    cons : Node → Children → Children

abbrev pub segment_name : Node → Bytes
segment_name (plain name cs) = name
segment_name (squashed name c) = name

abbrev pub wildcard : Bytes
wildcard = codes "{...}"

abbrev pub create_node : Bytes → Node
create_node name = plain name nil

pub count : Children → ℕ
count nil = 0
count (cons c cs) = suc (count cs)

pub has : Bytes → Children → Bool
has name nil = false
has name (cons c cs) = if equal (segment_name c) name then true else has name cs

pub append_child : Node → Children → Children
append_child n nil = cons n nil
append_child n (cons c cs) = cons c (append_child n cs)

-- The children with the one of that name, which is made where there is none.
pub add_child : Bytes → Children → Children
add_child name cs = if has name cs then cs else append_child (create_node name) cs

-- What is done to the child of that name.
pub update : Bytes → (Node → Node) → Children → Children
update name f nil = nil
update name f (cons c cs) =
    if equal (segment_name c) name then cons (f c) cs else cons c (update name f cs)

-- `maybe_add_child(parent, name)`, and then `f` on the child that it returns.
pub with_child : Bytes → (Node → Node) → Node → Node
with_child name f (squashed n c) = squashed n (f c)
with_child name f (plain n cs) = plain n (update name f (add_child name cs))

unfoldable mutual
  -- `recurse_add_children(parent, child)`, with `child` first; the result is `parent` afterwards.
  pub merge : Node → Node → Node
  merge (plain name cs) parent = with_child name (λ foo. merge_all cs foo) parent
  merge (squashed name c) parent = with_child name (λ foo. merge c foo) parent

  pub merge_all : Children → Node → Node
  merge_all nil parent = parent
  merge_all (cons c cs) parent = merge_all cs (merge c parent)

-- One round of the loop of `squash_children`: the children of an old child move to the new one.
pub adopt : Node → Node → Node
adopt (plain name grandchildren) new_child = merge_all grandchildren new_child
adopt (squashed name c) new_child = merge c new_child

pub squash_onto : Children → Node → Node
squash_onto nil new_child = new_child
squash_onto (cons old rest) new_child = squash_onto rest (adopt old new_child)

pub squash_children : Children → Node
squash_children cs = squash_onto cs (create_node wildcard)

-- ps->cardinality_factor / (3 << depth)
abbrev pub limit : ℕ → ℕ → ℕ
limit factor depth = factor / (3 * 2 ^ depth)

-- The children of a node that is not squashed, with the segment's child: the level is squashed
-- where it has outgrown its limit and is not the root's.
pub place : ℕ → ℕ → Bool → Bytes → (Node → Node) → Bytes → Children → Node
place factor depth is_root segment next name cs =
    if ltb (limit factor depth) (count cs) && not is_root
    then squashed name (next (squash_children cs))
    else plain name (update segment next cs)

pub enter : ℕ → ℕ → Bool → Bytes → (Node → Node) → Node → Node
enter factor depth is_root segment next (squashed name c) = squashed name (next c)
enter factor depth is_root segment next (plain name cs) =
    place factor depth is_root segment next name (add_child segment cs)

-- `if (depth == 5) break;`, else the loop goes on at the child.
pub descend : Bool → (Node → Node) → Node → Node
descend true rest child = child
descend false rest child = rest child

-- The loop over the segments, from `parent` on; it ends at depth 5.
pub add_segments : ℕ → ℕ → Bool → List Bytes → Node → Node
add_segments factor depth is_root [] parent = parent
add_segments factor depth is_root (segment ∷ segments) parent =
    enter factor depth is_root segment
      (descend (depth + 1 == 5) (add_segments factor (depth + 1) false segments)) parent

pub record PathSquasher : Type 0 where
  pub root_node : Node
  pub cardinality_factor : ℕ
  pub added_path_count : ℕ

pub tm_path_squasher_alloc : ℕ → PathSquasher
tm_path_squasher_alloc cardinality_factor = record {
  root_node = create_node (codes "<ROOT>");
  cardinality_factor = cardinality_factor;
  added_path_count = 0;
}

-- A newline at the end is taken off.
pub strip_newline : Bytes → Bytes
strip_newline [] = []
strip_newline (c ∷ []) = if c == b'\n' then [] else c ∷ []
strip_newline (c ∷ d ∷ s) = c ∷ strip_newline (d ∷ s)

abbrev pub segments : Bytes → List Bytes
segments url_path = tokens b'/' (strip_newline url_path)

-- `added_path_count` is an `int`, as a bit pattern of 32 bits.
unfoldable pub tm_path_squasher_add_path : PathSquasher → Bytes → PathSquasher
unfolding add_segments descend enter place add_child has count append_child update squash_children
    squash_onto adopt merge with_child strip_newline
tm_path_squasher_add_path ps url_path = record ps {
  root_node = add_segments ps.cardinality_factor 0 true (segments url_path) ps.root_node;
  added_path_count = (ps.added_path_count + 1) % 2 ^ 32;
}

pub tm_path_squasher_get_seen_count : PathSquasher → ℕ
tm_path_squasher_get_seen_count ps = ps.added_path_count
