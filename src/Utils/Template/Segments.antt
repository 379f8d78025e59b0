-- ===== src/Utils/Template/Segments.antt =====
-- `tm_replace_vars` against a reading of its input as a list of segments.
use tracemate.Base.{
  ℕ, List, [], ◌∷◌, ◌++◌, Option, ◌==◌, if◌then◌else◌, Bytes, All, ◌≡◌, ◌≢◌, sym, ap, ◌∙◌, arith,
  append-nil, append_assoc,
}
use tracemate.Utils.Template.{
  outside, in_var, end_brace, Scan, value_or_nothing, step_in, run, tm_replace_vars,
}

-- A byte of plain text, an opening brace that starts no variable with the byte behind it, or a
-- variable, whose name may be written with blanks.
pub data Segment : Type 0 where
  plain : ℕ → Segment
  lone_brace : ℕ → Segment
  variable : Bytes → Segment

abbrev pub IsSegment : Segment → Type 0
IsSegment (plain x) = x ≢ b'{'
IsSegment (lone_brace x) = x ≢ b'{'
IsSegment (variable name) = All (λ x. x ≢ b'}') name

abbrev pub print : List Segment → Bytes
print [] = []
print (plain x ∷ segs) = x ∷ print segs
print (lone_brace x ∷ segs) = b'{' ∷ x ∷ print segs
print (variable name ∷ segs) = b'{' ∷ b'{' ∷ (name ++ (b'}' ∷ b'}' ∷ print segs))

abbrev pub without_blanks : Bytes → Bytes
without_blanks [] = []
without_blanks (x ∷ xs) = if x == b' ' then without_blanks xs else x ∷ without_blanks xs

abbrev pub expand : (Bytes → Option Bytes) → List Segment → Bytes
expand values [] = []
expand values (plain x ∷ segs) = x ∷ expand values segs
expand values (lone_brace x ∷ segs) = b'{' ∷ x ∷ expand values segs
expand values (variable name ∷ segs) =
    value_or_nothing (values (without_blanks name)) ++ expand values segs

run-in_var :
    (values : Bytes → Option Bytes) (r v name rest : Bytes)
    → All (λ x. x ≢ b'}') name
    → run values (record { state = in_var; result = r; var_name = v }) (name ++ (b'}' ∷ rest))
      ≡ run values
          (record { state = end_brace; result = r; var_name = v ++ without_blanks name })
          rest
unfolding run step_in
run-in_var values r v [] rest h = rw append-nil
run-in_var values r v (x ∷ name) rest h = ground (
  arith,
  run-in_var values r v name rest h.1,
  run-in_var values r (v ++ x ∷ []) name rest h.1,
  append_assoc v (x ∷ []) (without_blanks name),
)

run-print :
    (values : Bytes → Option Bytes) (r : Bytes) (segs : List Segment)
    → All IsSegment segs
    → (run values (record { state = outside; result = r; var_name = [] }) (print segs)).result
      ≡ r ++ expand values segs
unfolding run step_in
run-print values r [] h = sym (append-nil r)
run-print values r (plain x ∷ segs) h =
    ground
      (arith, run-print values (r ++ x ∷ []) segs h.1, append_assoc r (x ∷ []) (expand values segs))
run-print values r (lone_brace x ∷ segs) h = ground (
  arith,
  run-print values (r ++ b'{' ∷ x ∷ []) segs h.1,
  append_assoc r (b'{' ∷ x ∷ []) (expand values segs),
)
run-print values r (variable name ∷ segs) h =
    rw (run-in_var values r [] name (b'}' ∷ print segs) h.0) (
      run-print values (r ++ value_or_nothing (values (without_blanks name))) segs h.1
      ∙ append_assoc r (value_or_nothing (values (without_blanks name))) (expand values segs))

-- On a text made of bytes other than an opening brace, of opening braces before such a byte, and of
-- variables whose names hold no closing brace, every variable is replaced by the value of its name
-- without blanks, or by nothing where there is none, and all other bytes stay.
pub replace_vars-print :
    (values : Bytes → Option Bytes) (segs : List Segment)
    → All IsSegment segs
    → tm_replace_vars (print segs) values ≡ expand values segs
unfolding tm_replace_vars
replace_vars-print values segs h = run-print values [] segs h

-- In a text {{a}x{{b}}, where none of a, b and the byte x holds a closing brace, the single brace
-- ends the first variable without clearing its name: what is put in for the second is the value of
-- both names joined, without their blanks.
pub replace_vars_stale :
    (values : Bytes → Option Bytes) (a b : Bytes) (x : ℕ)
    → All (λ c. c ≢ b'}') a
    → All (λ c. c ≢ b'}') b
    → x ≢ b'}'
    → tm_replace_vars
        (b'{' ∷ b'{' ∷ (a ++ (b'}' ∷ x ∷ b'{' ∷ b'{' ∷ (b ++ (b'}' ∷ b'}' ∷ [])))))
        values
      ≡ b'}' ∷ x ∷ value_or_nothing (values (without_blanks a ++ without_blanks b))
unfolding tm_replace_vars run step_in
replace_vars_stale values a b x ha hb hx =
    ap (λ (t : Scan). t.result)
      (run-in_var values [] [] a (x ∷ b'{' ∷ b'{' ∷ (b ++ (b'}' ∷ b'}' ∷ []))) ha)
    ∙ ground (arith, run-in_var values (b'}' ∷ x ∷ []) (without_blanks a) b (b'}' ∷ []) hb)
