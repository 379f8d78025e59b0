-- ===== src/Tests/Objects.antt =====
-- Objects of JSON as trees, with a text from which they are read back.
use tracemate.Base.{
  ℕ, zero, suc, List, [], ◌∷◌, ◌++◌, Option, none, some, if◌then◌else◌, Bytes, append-nil,
  append_assoc, ◌≡◌, refl, sym, ap, ◌∙◌, arith,
}
use tracemate.CString.{equal}
use tracemate.CString.Search.{equal_iff, equal_self}
use tracemate.Message.{Json}
use tracemate.Store.{Codec, CodecLaws}
use tracemate.Transaction.Stored.{Builder, BuilderLaws}

pub data Tree : Type 0 where
  bare : Tree
  word : Bytes → Tree
  member : Tree → Bytes → Tree → Tree

abbrev member_of : Tree → Bytes → Option Tree
member_of bare name = none
member_of (word w) name = none
member_of (member o n v) name = if equal n name then some v else member_of o name

abbrev word_of : Tree → Bytes
word_of (word w) = w
word_of t = []

abbrev pub trees : Json
trees = record {
  Object = Tree;
  get = member_of;
  string = word_of;
  uint64 = λ o. 0;
  int = λ o. 0;
  members = λ o. [];
}

abbrev pub tree_builder : Builder trees
tree_builder = record {
  new_object = bare;
  new_string = word;
  object_add = λ o name v. member o name v;
}

pub tree_laws : BuilderLaws trees tree_builder
tree_laws = record {
  get-object_add = λ o name v. rw (equal_self name) refl;
  get-object_add_ne = λ o name other v ne. ground (arith, equal_iff name other);
  string-new_string = λ s. refl;
}

-- An empty word, a bare object, a member of the three last, and letters for the last word.
letters : Bytes → Bytes
letters [] = []
letters (c ∷ w) = suc (suc (suc c)) ∷ letters w

unfoldable pub print_tree : Tree → Bytes
unfolding letters
print_tree bare = 1 ∷ []
print_tree (word w) = 0 ∷ letters w
print_tree (member o n v) = print_tree o ++ (0 ∷ (letters n ++ (print_tree v ++ 2 ∷ [])))

add_member : List Tree → List Tree
add_member (v ∷ word n ∷ o ∷ stack) = member o n v ∷ stack
add_member stack = stack

add_letter : ℕ → List Tree → List Tree
add_letter c (word w ∷ stack) = word (w ++ c ∷ []) ∷ stack
add_letter c stack = stack

read_code : ℕ → List Tree → List Tree
unfolding add_member add_letter
read_code zero stack = word [] ∷ stack
read_code (suc zero) stack = bare ∷ stack
read_code (suc (suc zero)) stack = add_member stack
read_code (suc (suc (suc c))) stack = add_letter c stack

unfoldable pub read_codes : Bytes → List Tree → List Tree
unfolding read_code
read_codes [] stack = stack
read_codes (c ∷ s) stack = read_codes s (read_code c stack)

unfoldable pub top : List Tree → Option Tree
top [] = none
top (t ∷ stack) = some t

read_codes-letters :
    (w u rest : Bytes) (stack : List Tree)
    → read_codes (letters w ++ rest) (word u ∷ stack) ≡ read_codes rest (word (u ++ w) ∷ stack)
unfolding letters read_codes
read_codes-letters [] u rest stack = ap (λ x. read_codes rest (word x ∷ stack)) (sym (append-nil u))
read_codes-letters (c ∷ w) u rest stack =
    read_codes-letters w (u ++ c ∷ []) rest stack
    ∙ ap (λ x. read_codes rest (word x ∷ stack)) (append_assoc u (c ∷ []) w)

read_codes-print_tree :
    (t : Tree) (rest : Bytes) (stack : List Tree)
    → read_codes (print_tree t ++ rest) stack ≡ read_codes rest (t ∷ stack)
unfolding print_tree read_codes
read_codes-print_tree bare rest stack = refl
read_codes-print_tree (word w) rest stack = read_codes-letters w [] rest stack
read_codes-print_tree (member o n v) rest stack =
    let end = print_tree v ++ 2 ∷ [] in
    ap (λ s. read_codes s stack)
      (append_assoc (print_tree o) (0 ∷ (letters n ++ end)) rest
        ∙ ap (λ x. print_tree o ++ (0 ∷ x))
            (append_assoc (letters n) end rest
              ∙ ap (◌++◌ (letters n)) (append_assoc (print_tree v) (2 ∷ []) rest)))
    ∙ read_codes-print_tree o _ stack
    ∙ read_codes-letters n [] _ (o ∷ stack)
    ∙ read_codes-print_tree v (2 ∷ rest) (word n ∷ o ∷ stack)

abbrev pub tree_codec : Codec trees
tree_codec = record {
  to_json_string = print_tree;
  parse = λ s. top (read_codes s []);
  compress = λ s. some s;
  decompress = λ n s. some s;
  bound = λ n. n;
}

pub tree_codec_laws : CodecLaws trees tree_codec
unfolding top read_codes
tree_codec_laws = record {
  parse-to_json_string = λ t.
      ap (λ s. top (read_codes s [])) (sym (append-nil (print_tree t)))
      ∙ ap top (read_codes-print_tree t [] []);
  decompress-compress = λ n s c e h. sym e;
}
