-- ===== src/Utils/Genericize/Returns/Total.antt =====
-- When `genericize_path` returns a path.
use tracemate.Base.{
  ℕ, zero, suc, ◌+◌, ◌*◌, ◌<◌, Bool, true, List, [], ◌∷◌, Option, none, some, inl, inr, Bytes,
  length, Option-cases, ltb, ◌≡◌, refl, arith,
}
use tracemate.CString.{strchr, until_nul}
use tracemate.Utils.Genericize.{
  Pcre, buffer_size, Generic, chop_query, chop_slash, finish, pad, Rules, genericize_decoded, load,
  genericize_path,
}
use tracemate.Utils.Genericize.Bounds.{IsClean, genericize_path-IsClean, length-pad}
use tracemate.Utils.Genericize.Returns.{
  Yields, Yields->>=, StartsWell, Good, InBounds, until_nul-StartsWell, room, configured, listed,
  learnt, ReplaceWell, apply_matchers-Yields, squash_or_send-Yields, chop-Yields,
}

chop_query-StartsWell : (copy : Bytes) → StartsWell copy → StartsWell (chop_query copy)
unfolding chop_query strchr until_nul
chop_query-StartsWell [] h = absurd h
chop_query-StartsWell (c ∷ s) h = elim (Option-cases (strchr (until_nul s) b'?')) [
  | inl e ↦ ground (arith, e)
  | inr ((before, at), e) ↦ ground (arith, e)
]

chop_slash-Yields : (s : Bytes) → StartsWell s → Yields (λ path. Unit) (chop_slash s)
unfolding chop_slash
chop_slash-Yields [] h = absurd h
chop_slash-Yields (c ∷ s) h = tt

finish-Yields :
    (copy : Bytes) (sent : List Bytes) → StartsWell copy → Yields (λ g. Unit) (finish copy sent)
unfolding finish
finish-Yields copy sent h =
    Yields->>= (λ path. Unit) (λ g. Unit) _ _
      (chop_slash-Yields (chop_query copy) (chop_query-StartsWell copy h)) (λ path u. tt)

pad-StartsWell : (n : ℕ) (s : Bytes) → 0 < n → StartsWell s → StartsWell (pad n s)
pad-StartsWell zero s l h = absurd (omega arith)
pad-StartsWell (suc n) [] l h = absurd h
pad-StartsWell (suc n) (c ∷ s) l h = h

yielded {ℓ} : {A : Type ℓ} (P : A → Type 0) (o : Option A) → Yields P o → (a : A) × (o ≡ some a)
yielded P none h = absurd h
yielded P (some a) h = (a, refl)

module _ (pcre : Pcre) (rules : Rules pcre) where
  -- What all replacements can add to a path.
  abbrev pub growth : ℕ
  growth =
      room 2 (configured rules.matcher)
      + (room 0 (learnt rules.squash_regexes) + room 0 (listed rules.chopper))

  abbrev pub ReplacesWell : Type 0
  ReplacesWell =
      ReplaceWell (configured rules.matcher)
      × ReplaceWell (learnt rules.squash_regexes)
      × ReplaceWell (listed rules.chopper)

  genericize_decoded-Yields :
      (str copy : Bytes)
      → InBounds pcre
      → ReplacesWell
      → StartsWell copy
      → 2 * (length copy + growth) < 4096
      → Yields (λ g. Unit) (genericize_decoded pcre rules str copy)
  unfolding genericize_decoded
  genericize_decoded-Yields str copy bounds w h fits =
      let n₁ : ℕ = length copy + room 2 (configured rules.matcher) in
      let n₂ : ℕ = n₁ + room 0 (learnt rules.squash_regexes) in
      let limit : ℕ = length copy + growth in
      Yields->>= (λ (r : Bool × Bytes). Good n₁ r.1) (λ g. Unit) _ _
        (apply_matchers-Yields pcre bounds limit fits rules.matcher true copy (length copy) n₁ w.0
          (omega arith) (omega arith) (h, omega arith))
        λ r g.
          Yields->>= (λ (r : Bool × Bytes × List Bytes). Good n₂ r.1) (λ g. Unit) _ _
            (squash_or_send-Yields pcre bounds limit fits rules str r.0 r.1 n₁ n₂ w.1 (omega arith)
              (omega arith) g)
            λ q k.
              Yields->>= StartsWell (λ g. Unit) _ _
                (chop-Yields pcre bounds limit fits q.0 rules.chopper q.1 n₂ w.2 (omega arith) k)
                λ c l. finish-Yields c q.2 l

  load-Yields :
      (str decoded : Bytes)
      → InBounds pcre
      → ReplacesWell
      → StartsWell decoded
      → 2 * (length decoded + growth) < 4096
      → Yields (λ g. Unit) (load pcre rules str (some decoded))
  unfolding load
  load-Yields str decoded bounds w h fits =
      let copy = pad (length decoded) (until_nul decoded) in
      let small : ltb (length decoded) buffer_size ≡ true = ground arith in
      let long : length copy ≡ length decoded = length-pad (length decoded) (until_nul decoded) in
      rw small (
        genericize_decoded-Yields str copy bounds w
          (pad-StartsWell (length decoded) (until_nul decoded) (nonempty decoded h)
            (until_nul-StartsWell decoded h))
          (omega (arith, long)))
    where
      nonempty : (s : Bytes) → StartsWell s → 0 < length s
      nonempty [] k = absurd k
      nonempty (c ∷ s) k = omega arith

  -- Let the regular expressions find groups inside their subject only, and every replacement begin
  -- with a byte other than NUL and '?'. Then a path that is decoded to a text that begins with such
  -- a byte is made generic, if twice its length and what all replacements can add stay below the
  -- buffer's 4096 bytes; the result holds no '?' and no NUL, and fits the buffer.
  pub genericize_path-returns :
      (unescape : Bytes → Option Bytes) (str decoded : Bytes)
      → InBounds pcre
      → ReplacesWell
      → unescape str ≡ some decoded
      → StartsWell decoded
      → 2 * (length decoded + growth) < 4096
      → (g : Generic) × (genericize_path pcre rules unescape (some str) ≡ some g) × IsClean g.path
  unfolding genericize_path
  genericize_path-returns unescape str decoded bounds w e h fits =
      let (g, q) = yielded (λ g. Unit) _ (load-Yields str decoded bounds w h fits) in
      let r : genericize_path pcre rules unescape (some str) ≡ some g = rw e q in
      (g, r, genericize_path-IsClean pcre rules unescape (some str) r)
