-- ===== src/Squasher/Regexes/Leaves.antt =====
-- The regular expressions and the ends of the tree's lines.
use mathlib.Core.List.{Memᴰ}
use mathlib.Core.List.Memᴰ
use tracemate.Base.{
  ◌<◌, Bool, true, false, ◌||◌, List, [], ◌∷◌, ◌++◌, some, inl, inr, Bytes, length, append_assoc,
  Bool-cases, ◌≡◌, ◌↔◌, refl, sym, subst, ap, ◌∙◌, arith,
}
use tracemate.Squasher.{Node, plain, squashed, Children, nil, cons, PathSquasher}
use tracemate.Squasher.Regexes.{
  Generated, generated, produced, lines, lines_all, below_root, fits, store_one, stored,
  tm_path_squasher_get_regexes,
}

-- A line from a node down to a node without children: the names on it, and whether one of its nodes
-- is squashed.
mutual
  pub data Line : Node → List Bytes → Bool → Type 0 where
    leaf : {name : Bytes} → Line (plain name nil) (name ∷ []) false
    through_squashed :
        {name : Bytes} {c : Node} {names : List Bytes} {b : Bool}
        → Line c names b
        → Line (squashed name c) (name ∷ names) true
    through_child :
        {name : Bytes} {c : Node} {cs : Children} {names : List Bytes} {b : Bool}
        → LineIn (cons c cs) names b
        → Line (plain name (cons c cs)) (name ∷ names) b

  pub data LineIn : Children → List Bytes → Bool → Type 0 where
    here :
        {c : Node} {cs : Children} {names : List Bytes} {b : Bool}
        → Line c names b
        → LineIn (cons c cs) names b
    there :
        {c : Node} {cs : Children} {names : List Bytes} {b : Bool}
        → LineIn cs names b
        → LineIn (cons c cs) names b

mutual
  unfolding lines produced

  -- A line with a squashed node, or behind one, is found.
  Line-lines :
      (above : List Bytes) (p : Bool) {n : Node} {names : List Bytes} {b : Bool}
      → Line n names b
      → (p || b) ≡ true
      → Memᴰ (generated (above ++ names)) (lines above p n)
  Line-lines above true leaf h = Memᴰ.head refl
  Line-lines above false leaf h = cc
  Line-lines above p (through_squashed {name} {c} {names} l) h =
      subst (λ x. Memᴰ (generated x) (lines (above ++ name ∷ []) true c))
        (append_assoc above (name ∷ []) names) (Line-lines (above ++ name ∷ []) true l refl)
  Line-lines above p (through_child {name} {c} {cs} {names} l) h =
      subst (λ x. Memᴰ (generated x) (lines_all (above ++ name ∷ []) p (cons c cs)))
        (append_assoc above (name ∷ []) names) (Line-lines_all (above ++ name ∷ []) p l h)

  Line-lines_all :
      (above : List Bytes) (p : Bool) {cs : Children} {names : List Bytes} {b : Bool}
      → LineIn cs names b
      → (p || b) ≡ true
      → Memᴰ (generated (above ++ names)) (lines_all above p cs)
  Line-lines_all above p (here {c} {cs} l) h =
      Memᴰ.append_left (lines_all above p cs) (Line-lines above p l h)
  Line-lines_all above p (there {c} l) h =
      Memᴰ.append_right (lines above p c) (Line-lines_all above p l h)

mutual
  unfolding lines produced

  -- What is found is a line with a squashed node, or behind one.
  lines-Line :
      (above : List Bytes) (p : Bool) (n : Node) {g : Generated}
      → Memᴰ g (lines above p n)
      → (names : List Bytes) × (b : Bool) × Line n names b
        × ((p || b) ≡ true)
        × (g ≡ generated (above ++ names))
  lines-Line above true (plain name nil) m = (name ∷ [], false, leaf, refl, Memᴰ.eq_of_singleton m)
  lines-Line above false (plain name nil) m = absurd (Memᴰ.not-nil m)
  lines-Line above p (plain name (cons c cs)) {g} m =
      let (names, b, l, h, e) = lines_all-Line (above ++ name ∷ []) p (cons c cs) m in
      (name ∷ names, b, through_child l, h, e ∙ ap generated (append_assoc above (name ∷ []) names))
  lines-Line above true (squashed name c) m =
      let (names, b, l, h, e) = lines-Line (above ++ name ∷ []) true c m in
      (
        name ∷ names,
        true,
        through_squashed l,
        refl,
        e ∙ ap generated (append_assoc above (name ∷ []) names),
      )
  lines-Line above false (squashed name c) m =
      let (names, b, l, h, e) = lines-Line (above ++ name ∷ []) true c m in
      (
        name ∷ names,
        true,
        through_squashed l,
        refl,
        e ∙ ap generated (append_assoc above (name ∷ []) names),
      )

  lines_all-Line :
      (above : List Bytes) (p : Bool) (cs : Children) {g : Generated}
      → Memᴰ g (lines_all above p cs)
      → (names : List Bytes) × (b : Bool) × LineIn cs names b
        × ((p || b) ≡ true)
        × (g ≡ generated (above ++ names))
  lines_all-Line above p nil m = absurd (Memᴰ.not-nil m)
  lines_all-Line above p (cons c cs) m = elim (Memᴰ.append_cases (lines above p c) m) [
    | inl k ↦ let (names, b, l, h, e) = lines-Line above p c k in (names, b, here l, h, e)
    | inr k ↦ let (names, b, l, h, e) = lines_all-Line above p cs k in (names, b, there l, h, e)
  ]

-- The texts fit their buffers.
abbrev pub Fits : Generated → Type 0
Fits g = (length g.regex < 512) × (length g.replace < 512)

-- What is stored of texts that fit.
stored_lem :
    (compiles : Bytes → Bool) (gs : List Generated)
    → ((g : Generated) → Memᴰ g gs → Fits g)
    → (rest : List Generated) × (stored compiles gs ≡ some rest)
      × ((g : Generated) → Memᴰ g rest ↔ ((compiles g.regex ≡ true) × Memᴰ g gs))
unfolding stored store_one
stored_lem compiles [] h = ([], refl, λ g. (λ m. absurd (Memᴰ.not-nil m), λ t. t.1))
stored_lem compiles (x ∷ gs) h =
    let (rest, e, k) = stored_lem compiles gs (λ g m. h g (Memᴰ.tail m)) in
    let fit = h x (Memᴰ.head refl) in
    let z : fits x ≡ true = ground arith in
    elim (Bool-cases (compiles x.regex)) [
      | inl c ↦ (
        x ∷ rest,
        rw (e, z, c) refl,
        λ g. (
          λ m. elim (Memᴰ.cases_cons m) [
            | inl q ↦ (ap (λ (g : Generated). compiles g.regex) q ∙ c, Memᴰ.head q)
            | inr n ↦ let (d, r) = (k g).0 n in (d, Memᴰ.tail r)
          ],
          λ t. elim (Memᴰ.cases_cons t.1) [
            | inl q ↦ Memᴰ.head q
            | inr n ↦ Memᴰ.tail ((k g).1 (t.0, n))
          ],
        ),
      )
      | inr c ↦ (
        rest,
        rw (e, z, c) refl,
        λ g. (
          λ m. let (d, r) = (k g).0 m in (d, Memᴰ.tail r),
          λ t. elim (Memᴰ.cases_cons t.1) [
            | inl q ↦
                let y : true ≡ false = sym t.0 ∙ ap (λ (g : Generated). compiles g.regex) q ∙ c in
                cc
            | inr n ↦ (k g).1 (t.0, n)
          ],
        ),
      )
    ]

-- The regular expressions of a squasher whose root is not squashed are those of the lines below the
-- root that have a squashed node, each with its replacement, less those that do not compile. The
-- texts must fit their buffers of 512 bytes.
pub get_regexes_lem :
    (compiles : Bytes → Bool) (ps : PathSquasher) (name : Bytes) (cs : Children)
    → ps.root_node ≡ plain name cs
    → ((names : List Bytes) → LineIn cs names true → Fits (generated names))
    → (gs : List Generated) × (tm_path_squasher_get_regexes compiles ps ≡ some gs)
      × ((g : Generated)
          → Memᴰ g gs ↔ (
              (compiles g.regex ≡ true)
              × (names : List Bytes) × LineIn cs names true
              × (g ≡ generated names)))
unfolding tm_path_squasher_get_regexes below_root
get_regexes_lem compiles ps name cs e fit =
    let line : (g : Generated)
        → Memᴰ g (lines_all [] false cs)
        → (names : List Bytes) × LineIn cs names true × (g ≡ generated names) =
      λ g m.
        let (names, b, l, h, q) = lines_all-Line [] false cs m in
        (names, subst (LineIn cs names) h l, q) in
    let (gs, r, k) =
      stored_lem compiles (lines_all [] false cs)
        (λ g m. let (names, l, q) = line g m in subst Fits (sym q) (fit names l)) in
    (
      gs,
      rw e r,
      λ g. (
        λ m. let (c, n) = (k g).0 m in let (names, l, q) = line g n in (c, names, l, q),
        λ (c, names, l, q). (k g).1 (c, Memᴰ.cast q (Line-lines_all [] false l refl)),
      ),
    )
