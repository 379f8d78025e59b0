-- ===== src/Metric/Json/Read.antt =====
-- A reader of JSON strings, and that it reads back what `json_escape_str` writes.
use tracemate.Base.{
  ℕ, zero, suc, ◌+◌, ◌-◌, ◌*◌, ◌/◌, ◌%◌, ◌<◌, Bool, true, false, ◌&&◌, ◌||◌, [], ◌∷◌, ◌++◌, Option,
  none, some, ltb, leb, ltb→lt, ◌==◌, if◌then◌else◌, Bytes, get_or, Bool-cases, inl, inr,
  append-nil, append_assoc, ◌≡◌, refl, ap, ◌∙◌, arith,
}
use tracemate.Metric.Json.{
  json_hex_chars, is_named, named_escape, control_escape, escape_loop, json_escape_str,
}

-- Where a reader is: in the text, behind a backslash, or with so many hexadecimal digits left of a
-- number.
pub data Mode : Type 0 where
  plain escape : Mode
  hex : ℕ → ℕ → Mode

-- The byte that a letter behind a backslash stands for.
simple : ℕ → Option ℕ
simple c =
    if c == b'b'
    then some 8
    else if c == b'n'
    then some 10
    else if c == b'r'
    then some 13
    else if c == b't'
    then some 9
    else if c == b'"' || c == 92 || c == b'/'
    then some c
    else none

digit : ℕ → Option ℕ
digit c =
    if leb b'0' c && leb c b'9'
    then some (c - b'0')
    else if leb b'a' c && leb c b'f'
    then some (c - 87)
    else none

-- Of the numbers only those of ASCII are read.
unfoldable pub read : Mode → Bytes → Bytes → Option (Bytes × Bytes)
unfolding simple digit
read m out [] = none
read plain out (c ∷ s) =
    let escaped = read escape out s in
    let copied = read plain (out ++ c ∷ []) s in
    if c == b'"'
    then some (out, s)
    else if c == 92
    then escaped
    else if ltb c 32
    then none
    else copied
read escape out (c ∷ s) =
    let number = read (hex 3 0) out s in
    elim (simple c) [
      | some d ↦ read plain (out ++ d ∷ []) s
      | none ↦ if c == b'u' then number else none
    ]
read (hex zero value) out (c ∷ s) = elim (digit c) [
  | none ↦ none
  | some d ↦
      let rest = read plain (out ++ (value * 16 + d) ∷ []) s in
      if ltb (value * 16 + d) 128 then rest else none
]
read (hex (suc left) value) out (c ∷ s) = elim (digit c) [
  | none ↦ none
  | some d ↦ read (hex left (value * 16 + d)) out s
]

-- The string that stands before the next quote, and what follows; `none` where this is no JSON
-- string. The quote in front has been read.
unfoldable pub read_string : Bytes → Option (Bytes × Bytes)
unfolding read
read_string s = read plain [] s

is_hex : ℕ → Bool
unfolding digit json_hex_chars
is_hex n = elim (digit (get_or json_hex_chars n 0)) [ none ↦ false | some d ↦ d == n ]

all_below : ℕ → (ℕ → Bool) → Bool
all_below zero p = true
all_below (suc n) p = p n && all_below n p

all_below_lem : (n : ℕ) (p : ℕ → Bool) (x : ℕ) → all_below n p ≡ true → x < n → p x ≡ true
unfolding all_below
all_below_lem zero p x h lt = absurd (omega arith)
all_below_lem (suc n) p x h lt = ground (arith, all_below_lem n p x)

hex_table : all_below 16 is_hex ≡ true
unfolding all_below is_hex
hex_table = refl

of_is_hex : (n : ℕ) (o : Option ℕ) → elim o [ none ↦ false | some d ↦ d == n ] ≡ true → o ≡ some n
of_is_hex n none h = cc
of_is_hex n (some d) h = ground arith

digit-get_or : (n : ℕ) → n < 16 → digit (get_or json_hex_chars n 0) ≡ some n
unfolding is_hex
digit-get_or n h = of_is_hex n _ (all_below_lem 16 is_hex n hex_table h)

of_value :
    (v c : ℕ) (out rest : Bytes)
    → v ≡ c
    → c < 128
    → (if ltb v 128 then read plain (out ++ v ∷ []) rest else none)
      ≡ read plain (out ++ c ∷ []) rest
of_value v c out rest e h = ground arith

read-control_escape :
    (c : ℕ) (out rest : Bytes)
    → c < 32
    → read plain out (control_escape c ++ rest) ≡ read plain (out ++ c ∷ []) rest
unfolding read control_escape simple
read-control_escape c out rest h =
    let value : (0 + c / 16) * 16 + c % 16 ≡ c = omega arith in
    rw (digit-get_or (c / 16) (omega arith), digit-get_or (c % 16) (omega arith))
      (of_value ((0 + c / 16) * 16 + c % 16) c out rest value (omega arith))

read-named_escape :
    (c : ℕ) (out rest : Bytes)
    → is_named c ≡ true
    → read plain out (named_escape c ++ rest) ≡ read plain (out ++ c ∷ []) rest
unfolding read named_escape is_named simple
read-named_escape c out rest h = ground arith

read-copied :
    (c : ℕ) (out rest : Bytes)
    → is_named c ≡ false
    → ltb c 32 ≡ false
    → read plain out (c ∷ rest) ≡ read plain (out ++ c ∷ []) rest
unfolding read is_named
read-copied c out rest h k = ground arith

-- What is written for one byte.
escape_byte : ℕ → Bytes
escape_byte c = if is_named c then named_escape c else if ltb c 32 then control_escape c else c ∷ []

escape_each : Bytes → Bytes
escape_each [] = []
escape_each (c ∷ s) = escape_byte c ++ escape_each s

escape_loop-append :
    (s out pending : Bytes) → escape_loop out pending s ≡ out ++ (pending ++ escape_each s)
unfolding escape_loop escape_each escape_byte
escape_loop-append [] out pending = rw append-nil refl
escape_loop-append (c ∷ s) out pending = elim (Bool-cases (is_named c)) [
  | inl on ↦
      rw on (escape_loop-append s (out ++ (pending ++ named_escape c)) [] ∙ simp append_assoc)
  | inr off ↦ rw off (elim (Bool-cases (ltb c 32)) [
    | inl low ↦
        rw low (escape_loop-append s (out ++ (pending ++ control_escape c)) [] ∙ simp append_assoc)
    | inr high ↦ rw high (escape_loop-append s out (pending ++ c ∷ []) ∙ simp append_assoc)
  ])
]

read-escape_byte :
    (c : ℕ) (out rest : Bytes)
    → read plain out (escape_byte c ++ rest) ≡ read plain (out ++ c ∷ []) rest
unfolding escape_byte
read-escape_byte c out rest = elim (Bool-cases (is_named c)) [
  | inl on ↦ rw on (read-named_escape c out rest on)
  | inr off ↦ rw off (elim (Bool-cases (ltb c 32)) [
    | inl low ↦ rw low (read-control_escape c out rest (ltb→lt c 32 low))
    | inr high ↦ rw high (read-copied c out rest off high)
  ])
]

read-escape_each :
    (s out rest : Bytes) → read plain out (escape_each s ++ (b'"' ∷ rest)) ≡ some (out ++ s, rest)
unfolding escape_each read
read-escape_each [] out rest = rw append-nil refl
read-escape_each (c ∷ s) out rest =
    ap (read plain out) (append_assoc (escape_byte c) (escape_each s) (b'"' ∷ rest))
    ∙ read-escape_byte c out (escape_each s ++ (b'"' ∷ rest))
    ∙ read-escape_each s (out ++ c ∷ []) rest
    ∙ ap (λ (x : Bytes). some (x, rest)) (append_assoc out (c ∷ []) s)

-- Any text, written by `json_escape_str` in front of a quote, is read back as a JSON string, up to
-- that quote.
pub read_string-json_escape_str :
    (str rest : Bytes) → read_string (json_escape_str str ++ (b'"' ∷ rest)) ≡ some (str, rest)
unfolding read_string json_escape_str
read_string-json_escape_str str rest =
    ap (λ (x : Bytes). read plain [] (x ++ (b'"' ∷ rest))) (escape_loop-append str [] [])
    ∙ read-escape_each str [] rest
