-- ===== src/Tests/Paths.antt =====
-- src/tm_url_squasher.c, and what src/tm_utils.c does to paths, on small inputs.
use tracemate.Base.{arith, true, List, [], ◌∷◌, none, some, Bytes, codes, All, ◌≡◌, ◌↔◌, refl}
use tracemate.CString.{equal}
use mathlib.Core.List.{Memᴰ}
use tracemate.Squasher.Regexes.{Generated, generated, joined, tm_path_squasher_get_regexes}
use tracemate.Squasher.Regexes.Leaves.{
  LineIn, here, there, through_squashed, leaf, Fits, get_regexes_lem,
}
use tracemate.Squasher.{
  PathSquasher, Children, plain, squashed, nil, cons, wildcard, tm_path_squasher_alloc,
  tm_path_squasher_add_path,
}
use tracemate.Squasher.Idem.{add_path_again}
use tracemate.Squasher.Covers.Added.{add_paths, Remembers, no_path_lost}
use tracemate.Utils.Genericize.{Pcre, Rules, Generic, genericize_path}
use tracemate.Utils.Genericize.Bounds.{IsClean}
use tracemate.Utils.Genericize.Returns.Total.{genericize_path-returns}

-- Three children under one node outgrow the limit of 3 / 3.
abbrev urls : List Bytes
urls = codes "/a/b/c" ∷ codes "/a/d/c" ∷ codes "/a/e//f" ∷ codes "/g" ∷ []

no_path_lost_example : All (Remembers (add_paths (tm_path_squasher_alloc 3) urls)) urls
no_path_lost_example = no_path_lost 3 urls

add_path_again_example :
    let ps = add_paths (tm_path_squasher_alloc 3) urls in
    (tm_path_squasher_add_path
      (tm_path_squasher_add_path ps (codes "/a/b/c"))
      (codes "/a/b/c")).root_node
    ≡ (tm_path_squasher_add_path ps (codes "/a/b/c")).root_node
add_path_again_example = add_path_again (add_paths (tm_path_squasher_alloc 3) urls) (codes "/a/b/c")

-- A PCRE whose one expression matches nothing.
abbrev no_match : Pcre
no_match = record { Regex = Unit; exec = λ r s. none }

abbrev no_rules : Rules no_match
no_rules = record { matcher = []; squash_regexes = none; chopper = none }

genericize_path-returns_example :
    (g : Generic) × (genericize_path no_match no_rules (λ s. some s) (some (codes "/a/b/?x=1"))
      ≡ some g)
    × IsClean g.path
genericize_path-returns_example =
    genericize_path-returns no_match no_rules (λ s. some s) (codes "/a/b/?x=1") (codes "/a/b/?x=1")
      (λ regex s r e. cc) (tt, tt, tt) refl ((λ e. ground arith), (λ e. ground arith)) (omega arith)

-- The tree of /a/{...}, whose second level is squashed.
abbrev one_line : Children
one_line = cons (squashed (codes "a") (plain wildcard nil)) nil

abbrev one_squashed : PathSquasher
one_squashed = record {
  root_node = plain (codes "<ROOT>") one_line;
  cardinality_factor = 3;
  added_path_count = 9;
}

one_line-Fits : (names : List Bytes) → LineIn one_line names true → Fits (generated names)
unfolding generated joined equal
one_line-Fits names (here (through_squashed leaf)) = (omega arith, omega arith)
one_line-Fits names (there l) = elim l [ ]

get_regexes_lem_example :
    (gs : List Generated) × (tm_path_squasher_get_regexes (λ regex. true) one_squashed ≡ some gs)
    × ((g : Generated)
        → Memᴰ g gs ↔ (
            (true ≡ true)
            × (names : List Bytes) × LineIn one_line names true
            × (g ≡ generated names)))
get_regexes_lem_example =
    get_regexes_lem (λ regex. true) one_squashed (codes "<ROOT>") one_line refl one_line-Fits
