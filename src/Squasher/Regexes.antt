-- ===== src/Squasher/Regexes.antt =====
-- `recurse_regex` and `tm_path_squasher_get_regexes` of src/tm_url_squasher.c: the regular
-- expressions that the tree stands for. What `pcre_compile` accepts is a parameter. `none` as a
-- result stands for a text that overruns its 512 bytes. The table is a list, in which neither the
-- order nor a double entry counts: the stack's order of the nodes is not kept.
pub mod Leaves
use tracemate.Base.{
  ℕ, Bool, true, false, ◌&&◌, List, [], ◌∷◌, ◌++◌, Option, none, some, ltb, if◌then◌else◌, ◌>>=◌,
  Bytes, codes, length,
}
use tracemate.CString.{equal}
use tracemate.Squasher.{Node, plain, squashed, Children, nil, cons, wildcard, PathSquasher}

-- An entry of the table: a regular expression, and the `replace` of its `pcre_matcher`.
pub record Generated : Type 0 where
  pub regex : Bytes
  pub replace : Bytes

abbrev pub regex_of : Bytes → Bytes
regex_of name = if equal name wildcard then codes "[^\\/]+" else name

abbrev replace_of : Bytes → Bytes
replace_of name = if equal name wildcard then wildcard else name

-- The names below the first child of the root, each behind a separator.
unfoldable pub joined : Bytes → (Bytes → Bytes) → List Bytes → Bytes
joined separator f [] = []
joined separator f (name ∷ names) = separator ++ (f name ++ joined separator f names)

-- The root's child has no separator in front.
abbrev joined_below_root : Bytes → (Bytes → Bytes) → List Bytes → Bytes
joined_below_root separator f [] = []
joined_below_root separator f (name ∷ names) = f name ++ joined separator f names

-- What `regex` and `replace` are made of for the names from below the root to the end of the line.
unfoldable pub generated : List Bytes → Generated
unfolding joined
generated names = record {
  regex = codes "(" ++ (joined_below_root (codes "\\/") regex_of names ++ codes ".*)");
  replace = joined_below_root (codes "/") replace_of names;
}

-- `if (produce_regex)`
produced : Bool → List Bytes → List Generated
unfolding generated
produced true names = generated names ∷ []
produced false names = []

-- The ends of the lines below a node: `above` are the names on the way to it, without the root's,
-- and the flag says whether one of the nodes there is squashed.
mutual
  unfolding produced

  pub lines : List Bytes → Bool → Node → List Generated
  lines above produce (squashed name c) = lines (above ++ name ∷ []) true c
  lines above produce (plain name nil) = produced produce (above ++ name ∷ [])
  lines above produce (plain name (cons c cs)) = lines_all (above ++ name ∷ []) produce (cons c cs)

  pub lines_all : List Bytes → Bool → Children → List Generated
  lines_all above produce nil = []
  lines_all above produce (cons c cs) = lines above produce c ++ lines_all above produce cs

-- `ps->root_node->u.children`, of a root that is never squashed.
below_root : Node → List Generated
unfolding lines
below_root (plain name cs) = lines_all [] false cs
below_root (squashed name c) = []

abbrev fits : Generated → Bool
fits g = ltb (length g.regex) 512 && ltb (length g.replace) 512

-- What does not overrun its buffers and compiles is stored.
store_one : (Bytes → Bool) → Generated → List Generated → Option (List Generated)
store_one compiles g rest =
    if fits g then some (if compiles g.regex then g ∷ rest else rest) else none

stored : (Bytes → Bool) → List Generated → Option (List Generated)
unfolding store_one
stored compiles [] = some []
stored compiles (g ∷ gs) = do rest ← stored compiles gs; store_one compiles g rest

unfoldable pub tm_path_squasher_get_regexes :
    (Bytes → Bool) → PathSquasher → Option (List Generated)
unfolding stored below_root
tm_path_squasher_get_regexes compiles ps = stored compiles (below_root ps.root_node)
