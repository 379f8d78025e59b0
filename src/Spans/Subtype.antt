-- ===== src/Spans/Subtype.antt =====
-- `parse_v6_type` of src/tm_process_elastic_span.c: the second segment of a type such as
-- db.postgresql.query.
use tracemate.Base.{
  ℕ, ◌≤◌, ◌<◌, Bool, true, false, Option, none, some, [], ◌∷◌, ◌++◌, ltb, ◌==◌, if◌then◌else◌,
  Bytes, codes, length, All, append-nil, append_assoc, ◌≡◌, ◌≢◌, ◌⊎◌, inl, inr, refl, ap, ◌∙◌,
  arith,
}

-- The loop, with `in_segment` and what `subtype` holds.
v6_loop : Bool → Bytes → Bytes → Bool × Bytes
v6_loop in_segment subtype [] = (in_segment, subtype)
v6_loop false subtype (c ∷ type) = v6_loop (c == b'.') subtype type
v6_loop true subtype (c ∷ type) =
    let rest = v6_loop true (subtype ++ c ∷ []) type in if c == b'.' then (true, subtype) else rest

-- `none` stands for a segment that overruns the twenty bytes, or leaves no NUL in them.
in_buffer : Bool × Bytes → Option Bytes
in_buffer (false, subtype) = some (codes "unknown")
in_buffer (true, subtype) = if ltb (length subtype) 20 then some subtype else none

unfoldable pub parse_v6_type : Bytes → Option Bytes
unfolding v6_loop in_buffer
parse_v6_type type = in_buffer (v6_loop false [] type)

abbrev pub Lacks : ℕ → Bytes → Type 0
Lacks d s = All (λ c. c ≢ d) s

v6_loop-Lacks : (a out : Bytes) → Lacks b'.' a → v6_loop false out a ≡ (false, out)
unfolding v6_loop
v6_loop-Lacks [] out h = refl
v6_loop-Lacks (c ∷ a) out h = ground (arith, v6_loop-Lacks a out h.1)

v6_loop-first :
    (a rest : Bytes) → Lacks b'.' a → v6_loop false [] (a ++ (b'.' ∷ rest)) ≡ v6_loop true [] rest
unfolding v6_loop
v6_loop-first [] rest h = refl
v6_loop-first (c ∷ a) rest h = ground (arith, v6_loop-first a rest h.1)

-- Nothing follows, or a dot.
abbrev pub Ends : Bytes → Type 0
Ends rest = (rest ≡ []) ⊎ ((r : Bytes) × (rest ≡ b'.' ∷ r))

v6_loop-second :
    (b rest out : Bytes)
    → Lacks b'.' b
    → Ends rest
    → v6_loop true out (b ++ rest) ≡ (true, out ++ b)
unfolding v6_loop
v6_loop-second [] rest out h (inl e) = ground (arith, append-nil out)
v6_loop-second [] rest out h (inr (r, e)) = ground (arith, append-nil out)
v6_loop-second (c ∷ b) rest out h e =
    ground (arith, v6_loop-second b rest (out ++ c ∷ []) h.1 e, append_assoc out (c ∷ []) b)

-- A type without a dot has the subtype "unknown". Else it is what stands between the first dot and
-- the next one, or the end, if that is shorter than twenty bytes; a longer one overruns the buffer.
pub parse_v6_type_lem :
    (a b rest : Bytes)
    → Lacks b'.' a
    → Lacks b'.' b
    → Ends rest
    → (parse_v6_type a ≡ some (codes "unknown"))
      × (length b < 20 → parse_v6_type (a ++ (b'.' ∷ (b ++ rest))) ≡ some b)
      × (20 ≤ length b → parse_v6_type (a ++ (b'.' ∷ (b ++ rest))) ≡ none)
unfolding parse_v6_type
parse_v6_type_lem a b rest ha hb e =
    let second = v6_loop-second b rest [] hb e in
    let first = v6_loop-first a (b ++ rest) ha in
    (
      ap in_buffer (v6_loop-Lacks a [] ha),
      λ h. ap in_buffer (first ∙ second) ∙ ground arith,
      λ h. ap in_buffer (first ∙ second) ∙ ground arith,
    )
