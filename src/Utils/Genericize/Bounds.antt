-- ===== src/Utils/Genericize/Bounds.antt =====
-- What holds of every path that `genericize_path` returns.
use Prim.Native.Nat.{suc-le-suc}
use native.Mathlib.Nat.{le_trans}
use tracemate.Base.{
  ℕ, zero, suc, ◌+◌, ◌-◌, ◌≤◌, ◌<◌, Bool, true, false, List, [], ◌∷◌, ◌++◌, Option, none, some, inl,
  inr, Bytes, length, take, drop, length-append, length-take, length-drop, All, Holds, Holds->>=,
  Holds-some, ap, ltb→lt, Option-cases, ◌==◌, ◌≡◌, ◌≢◌, refl, arith, ltb, Bool-cases,
}
use tracemate.CString.{strchr, until_nul}
use tracemate.CString.Search.{strchr-eq-none, strchr-eq-some}
use tracemate.Utils.Genericize.{
  Match, Pcre, buffer_size, Generic, chop_query, chop_last, chop_slash, finish, pad, Matcher,
  keep_first, substitute, redo, apply_regex, apply_matchers, apply_squashers, apply_path_squasher,
  truncate, chop, Rules, squash_or_send, genericize_decoded, load, genericize_path,
}

pub length-until_nul : (s : Bytes) → length (until_nul s) ≤ length s
unfolding until_nul
length-until_nul [] = omega arith
length-until_nul (c ∷ s) = ground (arith, length-until_nul s)

abbrev Fits : Bytes → Type 0
Fits copy = length copy < buffer_size

length-cut : (n : ℕ) (copy : Bytes) → length (take n copy ++ (b'.' ∷ b'.' ∷ b'.' ∷ [])) ≤ n + 3
length-cut n copy =
    omega (arith, length-append (take n copy) (b'.' ∷ b'.' ∷ b'.' ∷ []), length-take n copy)

truncate-Fits : (copy : Bytes) → Fits copy → Fits (truncate copy)
unfolding truncate
truncate-Fits copy h = elim (Bool-cases (ltb 35 (length copy))) [
  | inl e ↦ rw e (le_trans (suc-le-suc (length-cut 32 copy)) (omega arith))
  | inr e ↦ rw e h
]

pub length-pad : (n : ℕ) (s : Bytes) → length (pad n s) ≡ n
length-pad zero s = refl
length-pad (suc n) [] = ap suc (length-pad n [])
length-pad (suc n) (c ∷ s) = ap suc (length-pad n s)

module _ (pcre : Pcre) where
  substitute-Fits :
      (m : Matcher pcre) (copy : Bytes) (r : Match) → Holds Fits (substitute pcre m copy r)
  unfolding substitute
  substitute-Fits m copy r = ground (
    arith,
    length-until_nul (take r.start copy ++ (m.replace ++ drop r.end copy)),
    length-append (take r.start copy) (m.replace ++ drop r.end copy),
    length-append m.replace (drop r.end copy),
    length-take r.start copy,
    length-drop r.end copy,
  )

  redo-Fits :
      (again : ℕ) (m : Matcher pcre) (rval : Option ℕ) (copy : Bytes)
      → Fits copy
      → Holds (λ r. Fits r.1) (redo pcre again m rval copy)
  unfolding redo
  redo-Fits zero m rval copy h = elim (Option-cases (pcre.exec m.match copy)) [
    | inl e ↦ rw (e, redo) h
    | inr (r, e) ↦
        rw (e, redo) (Holds->>= Fits (λ r. Fits r.1) _ _ (substitute-Fits m copy r) (λ copy' k. k))
  ]
  redo-Fits (suc again) m rval copy h = elim (Option-cases (pcre.exec m.match copy)) [
    | inl e ↦ rw (e, redo) h
    | inr (r, e) ↦
        rw (e, redo)
          (Holds->>= Fits (λ r. Fits r.1) _ _ (substitute-Fits m copy r)
            (λ copy' k. redo-Fits again m (keep_first rval r.count) copy' k))
  ]

  apply_regex-Fits :
      (m : Matcher pcre) (copy : Bytes) (attempts : ℕ)
      → Fits copy
      → Holds (λ r. Fits r.1) (apply_regex pcre m copy attempts)
  unfolding apply_regex
  apply_regex-Fits m copy attempts h = redo-Fits (attempts - 1) m none copy h

  apply_matchers-Fits :
      (ms : List (Option (Matcher pcre))) (squash : Bool) (copy : Bytes)
      → Fits copy
      → Holds (λ r. Fits r.1) (apply_matchers pcre ms squash copy)
  unfolding apply_matchers
  apply_matchers-Fits [] squash copy h = h
  apply_matchers-Fits (none ∷ ms) squash copy h = apply_matchers-Fits ms squash copy h
  apply_matchers-Fits (some m ∷ ms) squash copy h =
      Holds->>= (λ (r : Option ℕ × Bytes). Fits r.1) _ _ _ (apply_regex-Fits m copy 3 h)
        (λ (r, copy') k. apply_matchers-Fits ms _ copy' k)

  apply_squashers-Fits :
      (ms : List (Matcher pcre)) (copy : Bytes)
      → Fits copy
      → Holds (λ r. Fits r.1) (apply_squashers pcre ms copy)
  unfolding apply_squashers
  apply_squashers-Fits [] copy h = h
  apply_squashers-Fits (m ∷ ms) copy h =
      Holds->>= (λ (r : Option ℕ × Bytes). Fits r.1) _ _ _ (apply_regex-Fits m copy 1 h)
        (λ (r : Option ℕ × Bytes) k. ground (arith, apply_squashers-Fits ms r.1 k))

  apply_path_squasher-Fits :
      (t : Option (List (Matcher pcre))) (copy : Bytes)
      → Fits copy
      → Holds (λ r. Fits r.1) (apply_path_squasher pcre t copy)
  unfolding apply_path_squasher
  apply_path_squasher-Fits none copy h = h
  apply_path_squasher-Fits (some t) copy h = apply_squashers-Fits t copy h

  squash_or_send-Fits :
      (rules : Rules pcre) (str : Bytes) (squash : Bool) (copy : Bytes)
      → Fits copy
      → Holds (λ r. Fits r.1) (squash_or_send pcre rules str squash copy)
  unfolding squash_or_send
  squash_or_send-Fits rules str false copy h = h
  squash_or_send-Fits rules str true copy h =
      Holds->>= (λ (r : Bool × Bytes). Fits r.1) _ _ _
        (apply_path_squasher-Fits rules.squash_regexes copy h)
        (λ (r : Bool × Bytes) k. ground arith)

  chop-Fits :
      (squash : Bool) (chopper : Option (Matcher pcre)) (copy : Bytes)
      → Fits copy
      → Holds Fits (chop pcre squash chopper copy)
  unfolding chop
  chop-Fits false chopper copy h = h
  chop-Fits true none copy h = h
  chop-Fits true (some chopper) copy h =
      Holds->>= (λ (r : Option ℕ × Bytes). Fits r.1) _ _ _ (apply_regex-Fits chopper copy 1 h)
        (λ (r : Option ℕ × Bytes) k. ground (arith, truncate-Fits r.1 k))

-- No byte of the path is a '?' or a NUL, and it fits the buffer with its NUL.
abbrev pub IsClean : Bytes → Type 0
IsClean path = All (λ x. (x ≢ b'?') × (x ≢ 0)) path × Fits path

until_nul-All : (s : Bytes) → All (λ x. x ≢ b'?') s → All (λ x. x ≢ b'?') (until_nul s)
unfolding until_nul
until_nul-All [] h = tt
until_nul-All (c ∷ s) h = ground (arith, until_nul-All s h.1)

chop_query-clean : (copy : Bytes) → All (λ x. x ≢ b'?') (until_nul (chop_query copy))
unfolding chop_query
chop_query-clean copy = elim (Option-cases (strchr (until_nul copy) b'?')) [
  | inl e ↦ rw (e, chop_query) (strchr-eq-none (until_nul copy) b'?' e)
  | inr ((before, at), e) ↦
      let (_, _, _, clean) = strchr-eq-some (until_nul copy) b'?' e in
      rw (e, chop_query) (until_nul-All before clean)
]

chop_query-Fits : (copy : Bytes) → Fits copy → Fits (chop_query copy)
unfolding chop_query
chop_query-Fits copy h = elim (Option-cases (strchr (until_nul copy) b'?')) [
  | inl e ↦ rw (e, chop_query) h
  | inr ((before, at), e) ↦
      let (r, _, split, _) = strchr-eq-some (until_nul copy) b'?' e in
      rw (e, chop_query)
        (omega (arith, length-until_nul copy, ap length split, length-append before (b'?' ∷ r)))
]

chop_last-clean :
    (c : ℕ) (s : Bytes)
    → All (λ x. x ≢ b'?') (until_nul (c ∷ s))
    → All (λ x. (x ≢ b'?') × (x ≢ 0)) (until_nul (chop_last c s))
unfolding until_nul chop_last
chop_last-clean c [] h = ground arith
chop_last-clean c (d ∷ s) h = elim (Bool-cases (c == 0)) [
  | inl e ↦ rw e tt
  | inr e ↦ let k = rw e at h in rw e ((k.0, ground arith), chop_last-clean d s k.1)
]

length-chop_last : (c : ℕ) (s : Bytes) → length (chop_last c s) ≤ suc (length s)
unfolding chop_last
length-chop_last c [] = ground arith
length-chop_last c (d ∷ s) = omega (arith, length-chop_last d s)

chop_slash-IsClean :
    (copy : Bytes)
    → All (λ x. x ≢ b'?') (until_nul copy)
    → Fits copy
    → Holds IsClean (chop_slash copy)
unfolding chop_slash
chop_slash-IsClean [] h k = tt
chop_slash-IsClean (c ∷ s) h k =
    (chop_last-clean c s h, omega (arith, length-until_nul (chop_last c s), length-chop_last c s))

finish-IsClean :
    (copy : Bytes) (sent : List Bytes) → Fits copy → Holds (λ g. IsClean g.path) (finish copy sent)
unfolding finish
finish-IsClean copy sent h =
    Holds->>= IsClean (λ (g : Generic). IsClean g.path) _ _
      (chop_slash-IsClean (chop_query copy) (chop_query-clean copy) (chop_query-Fits copy h))
      (λ path k. k)

module _ (pcre : Pcre) where
  genericize_decoded-IsClean :
      (rules : Rules pcre) (str copy : Bytes)
      → Fits copy
      → Holds (λ g. IsClean g.path) (genericize_decoded pcre rules str copy)
  unfolding genericize_decoded
  genericize_decoded-IsClean rules str copy h =
      Holds->>= (λ (r : Bool × Bytes). Fits r.1) Q _ _
        (apply_matchers-Fits pcre rules.matcher true copy h)
        λ r k.
          Holds->>= (λ (r : Bool × Bytes × List Bytes). Fits r.1) Q _ _
            (squash_or_send-Fits pcre rules str r.0 r.1 k)
            λ q l.
              Holds->>= Fits Q _ _ (chop-Fits pcre q.0 rules.chopper q.1 l)
                λ c m. finish-IsClean c q.2 m
    where
      Q : Generic → Type 0
      Q g = IsClean g.path

  load-IsClean :
      (rules : Rules pcre) (str : Bytes) (decoded : Option Bytes)
      → Holds (λ g. IsClean g.path) (load pcre rules str decoded)
  unfolding load
  load-IsClean rules str none = tt
  load-IsClean rules str (some decoded) = elim (Bool-cases (ltb (length decoded) buffer_size)) [
    | inl e ↦ rw e (
        genericize_decoded-IsClean rules str (pad (length decoded) (until_nul decoded))
          (omega (arith, length-pad (length decoded) (until_nul decoded), ltb→lt _ _ e)))
    | inr e ↦ rw e tt
  ]

  -- Whatever the regular expressions match and put in, every path that is returned holds no '?' and
  -- no NUL, and fits the 4096 bytes of the buffer.
  pub genericize_path-IsClean :
      (rules : Rules pcre) (unescape : Bytes → Option Bytes) (str : Option Bytes) {g : Generic}
      → genericize_path pcre rules unescape str ≡ some g
      → IsClean g.path
  unfolding genericize_path
  genericize_path-IsClean rules unescape none h = ground arith
  genericize_path-IsClean rules unescape (some str) h =
      Holds-some (λ (g : Generic). IsClean g.path) _ (load-IsClean rules str (unescape str)) h
