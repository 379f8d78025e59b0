-- ===== src/Utils/Genericize/Returns.antt =====
-- What each step of `genericize_path` needs to go on, rather than stop the program.
pub mod Total
use tracemate.Base.{
  ℕ, zero, suc, ◌+◌, ◌-◌, ◌*◌, ◌≤◌, ◌<◌, Bool, true, false, List, [], ◌∷◌, ◌++◌, Option, none, some,
  inl, inr, Bytes, length, take, drop, length-append, length-take, length-drop, Option-cases,
  Bool-cases, ◌>>=◌, if◌then◌else◌, All, ◌==◌, ltb, ◌≡◌, ◌≢◌, refl, sym, ap, ◌∙◌, arith,
}
use tracemate.CString.{strchr, until_nul}
use tracemate.Utils.Genericize.{
  Match, Pcre, buffer_size, Generic, before_mark, chop_query, chop_last, chop_slash, finish, pad,
  Matcher, keep_first, matched, substitute, redo, apply_regex, apply_matchers, apply_squashers,
  apply_path_squasher, truncate, chop, Rules, squash_or_send, genericize_decoded, load,
  genericize_path,
}
use tracemate.Utils.Genericize.Bounds.{
  IsClean, genericize_path-IsClean, length-until_nul, length-pad,
}

-- The computation has a result, and the result satisfies `P`.
abbrev Yields {ℓ} : {A : Type ℓ} → (A → Type 0) → Option A → Type 0
Yields P none = ⊥
Yields P (some a) = P a

Yields->>= {ℓ κ} :
    {A : Type ℓ} {B : Type κ} (P : A → Type 0) (Q : B → Type 0) (o : Option A) (f : A → Option B)
    → Yields P o
    → ((a : A) → P a → Yields Q (f a))
    → Yields Q (o >>= f)
Yields->>= P Q none f h k = absurd h
Yields->>= P Q (some a) f h k = k a h

-- The text has a first byte, and it is neither a NUL nor a '?'.
abbrev pub StartsWell : Bytes → Type 0
StartsWell [] = ⊥
StartsWell (c ∷ s) = (c ≢ 0) × (c ≢ b'?')

-- At most `n` bytes, and a first one.
abbrev Good : ℕ → Bytes → Type 0
Good n copy = StartsWell copy × (length copy ≤ n)

-- The expression finds groups inside its subject.
abbrev pub InBounds : Pcre → Type 0
InBounds pcre =
    (regex : pcre.Regex) (s : Bytes) (r : Match)
    → pcre.exec regex s ≡ some r
    → (r.start ≤ r.end) × (r.end ≤ length s)

until_nul-StartsWell : (s : Bytes) → StartsWell s → StartsWell (until_nul s)
unfolding until_nul
until_nul-StartsWell [] h = h
until_nul-StartsWell (c ∷ s) h = ground arith

substituted-StartsWell :
    (start : ℕ) (copy replace rest : Bytes)
    → StartsWell copy
    → StartsWell replace
    → StartsWell (take start copy ++ (replace ++ rest))
substituted-StartsWell start [] replace rest h k = absurd h
substituted-StartsWell start (c ∷ copy) [] rest h k = absurd k
substituted-StartsWell zero (c ∷ copy) (d ∷ replace) rest h k = k
substituted-StartsWell (suc start) (c ∷ copy) (d ∷ replace) rest h k = h

-- What `again + 1` rounds can add.
abbrev pub rounds : ℕ → ℕ → ℕ
rounds zero n = n
rounds (suc again) n = n + rounds again n

-- What the replacements of a list can add, each used `again + 1` times.
abbrev pub room : {pcre : Pcre} → ℕ → List (Matcher pcre) → ℕ
room again [] = 0
room again (m ∷ ms) = rounds again (length m.replace) + room again ms

abbrev pub configured : {pcre : Pcre} → List (Option (Matcher pcre)) → List (Matcher pcre)
configured [] = []
configured (none ∷ ms) = configured ms
configured (some m ∷ ms) = m ∷ configured ms

abbrev pub listed {ℓ} : {A : Type ℓ} → Option A → List A
listed none = []
listed (some a) = a ∷ []

abbrev pub learnt {ℓ} : {A : Type ℓ} → Option (List A) → List A
learnt none = []
learnt (some ms) = ms

-- Every replacement has a first byte, neither a NUL nor a '?'.
abbrev pub ReplaceWell : {pcre : Pcre} → List (Matcher pcre) → Type 0
ReplaceWell ms = All (λ m. StartsWell m.replace) ms

module _ (pcre : Pcre) (bounds : InBounds pcre) (limit : ℕ) (fits : 2 * limit < 4096) where
  substitute-Yields :
      (m : Matcher pcre) (copy : Bytes) (r : Match) (n : ℕ)
      → StartsWell m.replace
      → n + length m.replace ≤ limit
      → Good n copy
      → (r.start ≤ r.end) × (r.end ≤ length copy)
      → Yields (Good (n + length m.replace)) (substitute pcre m copy r)
  unfolding substitute
  substitute-Yields m copy r n w k g i = ground (
    arith,
    until_nul-StartsWell (take r.start copy ++ (m.replace ++ drop r.end copy))
        (substituted-StartsWell r.start copy m.replace (drop r.end copy) g.0 w),
    length-until_nul (take r.start copy ++ (m.replace ++ drop r.end copy)),
    length-append (take r.start copy) (m.replace ++ drop r.end copy),
    length-append m.replace (drop r.end copy),
    length-take r.start copy,
    length-drop r.end copy,
  )

  redo-Yields :
      (again : ℕ) (m : Matcher pcre) (rval : Option ℕ) (copy : Bytes) (n k : ℕ)
      → StartsWell m.replace
      → n + rounds again (length m.replace) ≤ k
      → k ≤ limit
      → Good n copy
      → Yields (λ r. Good k r.1) (redo pcre again m rval copy)
  unfolding redo
  redo-Yields zero m rval copy n k w l q g = elim (Option-cases (pcre.exec m.match copy)) [
    | inl e ↦ rw (e, redo) (g.0, omega (arith, g.1))
    | inr (r, e) ↦
        rw (e, redo)
          (Yields->>= (Good (n + length m.replace)) (λ r. Good k r.1) _ _
            (substitute-Yields m copy r n w (omega arith) g (bounds m.match copy r e))
            (λ copy' h. (h.0, omega (arith, h.1))))
  ]
  redo-Yields (suc again) m rval copy n k w l q g = elim (Option-cases (pcre.exec m.match copy)) [
    | inl e ↦ rw (e, redo) (g.0, omega (arith, g.1))
    | inr (r, e) ↦
        rw (e, redo)
          (Yields->>= (Good (n + length m.replace)) (λ r. Good k r.1) _ _
            (substitute-Yields m copy r n w (omega arith) g (bounds m.match copy r e))
            (λ copy' h.
              redo-Yields again m (keep_first rval r.count) copy' (n + length m.replace) k w
                (omega arith) q h))
  ]

  apply_matchers-Yields :
      (ms : List (Option (Matcher pcre))) (squash : Bool) (copy : Bytes) (n k : ℕ)
      → ReplaceWell (configured ms)
      → n + room 2 (configured ms) ≤ k
      → k ≤ limit
      → Good n copy
      → Yields (λ r. Good k r.1) (apply_matchers pcre ms squash copy)
  unfolding apply_matchers apply_regex
  apply_matchers-Yields [] squash copy n k w l q g = (g.0, omega (arith, g.1))
  apply_matchers-Yields (none ∷ ms) squash copy n k w l q g =
      apply_matchers-Yields ms squash copy n k w l q g
  apply_matchers-Yields (some m ∷ ms) squash copy n k w l q g =
      Yields->>= (λ (r : Option ℕ × Bytes). Good (n + rounds 2 (length m.replace)) r.1)
        (λ r. Good k r.1) _ _
        (redo-Yields 2 m none copy n (n + rounds 2 (length m.replace)) w.0 (omega arith)
          (omega arith) g)
        (λ r h.
          apply_matchers-Yields ms (if matched r.0 then false else squash) r.1
            (n + rounds 2 (length m.replace)) k w.1 (omega arith) q h)

  apply_squashers-Yields :
      (ms : List (Matcher pcre)) (copy : Bytes) (n k : ℕ)
      → ReplaceWell ms
      → n + room 0 ms ≤ k
      → k ≤ limit
      → Good n copy
      → Yields (λ r. Good k r.1) (apply_squashers pcre ms copy)
  unfolding apply_squashers apply_regex
  apply_squashers-Yields [] copy n k w l q g = (g.0, omega (arith, g.1))
  apply_squashers-Yields (m ∷ ms) copy n k w l q g =
      Yields->>= (λ (r : Option ℕ × Bytes). Good (n + length m.replace) r.1) (λ r. Good k r.1) _ _
        (redo-Yields 0 m none copy n (n + length m.replace) w.0 (omega arith) (omega arith) g)
        (λ r h. elim (Bool-cases (matched r.0)) [
          | inl e ↦ rw e (h.0, omega (arith, h.1))
          | inr e ↦
              rw e (apply_squashers-Yields ms r.1 (n + length m.replace) k w.1 (omega arith) q h)
        ])

  apply_path_squasher-Yields :
      (ms : Option (List (Matcher pcre))) (copy : Bytes) (n k : ℕ)
      → ReplaceWell (learnt ms)
      → n + room 0 (learnt ms) ≤ k
      → k ≤ limit
      → Good n copy
      → Yields (λ r. Good k r.1) (apply_path_squasher pcre ms copy)
  unfolding apply_path_squasher
  apply_path_squasher-Yields none copy n k w l q g = (g.0, omega (arith, g.1))
  apply_path_squasher-Yields (some ms) copy n k w l q g = apply_squashers-Yields ms copy n k w l q g

  squash_or_send-Yields :
      (rules : Rules pcre) (str : Bytes) (squash : Bool) (copy : Bytes) (n k : ℕ)
      → ReplaceWell (learnt rules.squash_regexes)
      → n + room 0 (learnt rules.squash_regexes) ≤ k
      → k ≤ limit
      → Good n copy
      → Yields (λ r. Good k r.1) (squash_or_send pcre rules str squash copy)
  unfolding squash_or_send
  squash_or_send-Yields rules str false copy n k w l q g = (g.0, omega (arith, g.1))
  squash_or_send-Yields rules str true copy n k w l q g =
      Yields->>= (λ (r : Bool × Bytes). Good k r.1) (λ r. Good k r.1) _ _
        (apply_path_squasher-Yields rules.squash_regexes copy n k w l q g)
        (λ r h. elim (Bool-cases r.0) [ inl e ↦ rw e h | inr e ↦ rw e h ])

  truncate-StartsWell : (copy : Bytes) → StartsWell copy → StartsWell (truncate copy)
  unfolding truncate
  truncate-StartsWell [] h = absurd h
  truncate-StartsWell (c ∷ s) h = elim (Bool-cases (ltb 35 (length (c ∷ s)))) [
    | inl e ↦ rw (e, truncate) h
    | inr e ↦ rw (e, truncate) h
  ]

  chop-Yields :
      (squash : Bool) (chopper : Option (Matcher pcre)) (copy : Bytes) (n : ℕ)
      → ReplaceWell (listed chopper)
      → n + room 0 (listed chopper) ≤ limit
      → Good n copy
      → Yields StartsWell (chop pcre squash chopper copy)
  unfolding chop apply_regex
  chop-Yields false chopper copy n w l g = g.0
  chop-Yields true none copy n w l g = g.0
  chop-Yields true (some m) copy n w l g =
      Yields->>= (λ (r : Option ℕ × Bytes). Good limit r.1) StartsWell _ _
        (redo-Yields 0 m none copy n limit w.0 (omega arith) (omega arith) g)
        (λ r h. elim (Bool-cases (matched r.0)) [
          | inl e ↦ rw e h.0
          | inr e ↦ rw e (truncate-StartsWell r.1 h.0)
        ])
