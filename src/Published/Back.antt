-- ===== src/Published/Back.antt =====
-- The way of a regular expression through Kafka: as a JSON string, into the table of the service.
use tracemate.Base.{
  ℕ, ◌≤◌, ◌<◌, List, [], ◌∷◌, ◌++◌, some, ◌==◌, if◌then◌else◌, Bytes, codes, All, All-append,
  Bool-cases, inl, inr, append-nil, append_assoc, ◌≡◌, ◌≢◌, refl, sym, ap, ap₂, ◌∙◌, arith,
}
use tracemate.CString.{equal}
use tracemate.Squasher.{wildcard}
use tracemate.Squasher.Regexes.{regex_of, joined, generated}
use tracemate.Metric.Json.Read.{plain, read, read_string}
use tracemate.Handlers.Escape.{escaped, escape_regex, slashes, escape_regex_lem}

-- A byte that stands for itself in a JSON string, or a slash.
abbrev pub Printable : ℕ → Type 0
Printable c = (32 ≤ c) × (c ≢ b'"') × (c ≢ 92)

read-escaped :
    (u out rest : Bytes)
    → All Printable u
    → read plain out (escaped u ++ (b'"' ∷ rest)) ≡ some (out ++ u, rest)
unfolding read escaped
read-escaped [] out rest h = rw append-nil refl
read-escaped (c ∷ u) out rest h = elim (Bool-cases (c == b'/')) [
  | inl slash ↦
      rw slash (
        read-escaped u (out ++ b'/' ∷ []) rest h.1 ∙ ground (arith, append_assoc out (b'/' ∷ []) u))
  | inr other ↦
      rw other
        (ground (arith, read-escaped u (out ++ c ∷ []) rest h.1, append_assoc out (c ∷ []) u))
]

read_string-escaped :
    (u rest : Bytes) → All Printable u → read_string (escaped u ++ (b'"' ∷ rest)) ≡ some (u, rest)
unfolding read_string
read_string-escaped u rest h = read-escaped u [] rest h

read-Printable :
    (u out rest : Bytes)
    → All Printable u
    → read plain out (u ++ (b'"' ∷ rest)) ≡ some (out ++ u, rest)
unfolding read
read-Printable [] out rest h = rw append-nil refl
read-Printable (c ∷ u) out rest h =
    ground (arith, read-Printable u (out ++ c ∷ []) rest h.1, append_assoc out (c ∷ []) u)

-- A text without backslashes is read as it is.
pub read_string-Printable :
    (u rest : Bytes) → All Printable u → read_string (u ++ (b'"' ∷ rest)) ≡ some (u, rest)
unfolding read_string
read_string-Printable u rest h = read-Printable u [] rest h

escaped-append : (s t : Bytes) → escaped (s ++ t) ≡ escaped s ++ escaped t
unfolding escaped
escaped-append [] t = refl
escaped-append (c ∷ s) t = ground (arith, escaped-append s t)

escaped-plain : (s : Bytes) → All (λ c. c ≢ b'/') s → escaped s ≡ s
unfolding escaped
escaped-plain [] h = refl
escaped-plain (c ∷ s) h = ground (arith, escaped-plain s h.1)

-- The bytes of a segment's name, or of "{...}".
abbrev pub Segment : Bytes → Type 0
Segment = All (λ c. Printable c × (c ≢ b'/'))

-- What the sender's text says once a reader of JSON has taken the backslashes away.
abbrev name_read : Bytes → Bytes
name_read name = if equal name wildcard then codes "[^/]+" else name

abbrev names_read : List Bytes → Bytes
names_read [] = codes ".*)"
names_read (name ∷ names) = b'/' ∷ (name_read name ++ names_read names)

abbrev pub regex_read : List Bytes → Bytes
regex_read [] = codes "(.*)"
regex_read (name ∷ names) = b'(' ∷ (name_read name ++ names_read names)

wildcard_read : escaped (codes "[^/]+") ≡ codes "[^\\/]+"
unfolding escaped
wildcard_read = refl

plain_of_Segment : (s : Bytes) → Segment s → All (λ c. c ≢ b'/') s
plain_of_Segment [] h = tt
plain_of_Segment (c ∷ s) h = (h.0.1, plain_of_Segment s h.1)

Printable-of_Segment : (s : Bytes) → Segment s → All Printable s
Printable-of_Segment [] h = tt
Printable-of_Segment (c ∷ s) h = (h.0.0, Printable-of_Segment s h.1)

escaped-name_read : (name : Bytes) → Segment name → escaped (name_read name) ≡ regex_of name
escaped-name_read name h = elim (Bool-cases (equal name wildcard)) [
  | inl on ↦ rw on wildcard_read
  | inr off ↦ rw off (escaped-plain name (plain_of_Segment name h))
]

escaped-slash : (s : Bytes) → escaped (b'/' ∷ s) ≡ 92 ∷ (b'/' ∷ escaped s)
unfolding escaped
escaped-slash s = refl

escaped-open : (s : Bytes) → escaped (b'(' ∷ s) ≡ b'(' ∷ escaped s
unfolding escaped
escaped-open s = refl

escaped_end : escaped (codes ".*)") ≡ codes ".*)"
unfolding escaped
escaped_end = refl

escaped-names_read :
    (names : List Bytes)
    → All Segment names
    → escaped (names_read names) ≡ joined (codes "\\/") regex_of names ++ codes ".*)"
unfolding joined
escaped-names_read [] h = escaped_end
escaped-names_read (name ∷ names) h =
    escaped-slash (name_read name ++ names_read names)
    ∙ ap (λ (x : Bytes). 92 ∷ (b'/' ∷ x))
        (escaped-append (name_read name) (names_read names)
          ∙ ap₂ ◌++◌ (escaped-name_read name h.0) (escaped-names_read names h.1)
          ∙ sym (append_assoc (regex_of name) _ (codes ".*)")))

escaped-regex_read :
    (names : List Bytes) → All Segment names → escaped (regex_read names) ≡ (generated names).regex
unfolding generated
escaped-regex_read [] h = escaped-open (codes ".*)") ∙ ap (◌∷◌ b'(') escaped_end
escaped-regex_read (name ∷ names) h =
    escaped-open (name_read name ++ names_read names)
    ∙ ap (◌∷◌ b'(') (
        escaped-append (name_read name) (names_read names)
        ∙ ap₂ ◌++◌ (escaped-name_read name h.0) (escaped-names_read names h.1)
        ∙ sym (append_assoc (regex_of name) _ (codes ".*)")))

Printable-name_read : (name : Bytes) → Segment name → All Printable (name_read name)
Printable-name_read name h = elim (Bool-cases (equal name wildcard)) [
  | inl on ↦ rw on (omega arith)
  | inr off ↦ rw off (Printable-of_Segment name h)
]

Printable-names_read : (names : List Bytes) → All Segment names → All Printable (names_read names)
Printable-names_read [] h = omega arith
Printable-names_read (name ∷ names) h = (
  omega arith,
  All-append Printable (name_read name) (names_read names) (Printable-name_read name h.0)
      (Printable-names_read names h.1),
)

Printable-regex_read : (names : List Bytes) → All Segment names → All Printable (regex_read names)
Printable-regex_read [] h = omega arith
Printable-regex_read (name ∷ names) h = (
  omega arith,
  All-append Printable (name_read name) (names_read names) (Printable-name_read name h.0)
      (Printable-names_read names h.1),
)

-- Where no segment of a line holds a slash, a backslash, a quote or a control character: the
-- regular expression that the squasher makes of the line, put into a JSON text as it is, is read
-- without its backslashes; and `escape_regex` makes the same expression of that again, unless it
-- has twenty slashes or more.
pub generated_back :
    (names : List Bytes) (rest : Bytes)
    → All Segment names
    → (read_string ((generated names).regex ++ (b'"' ∷ rest)) ≡ some (regex_read names, rest))
      × (slashes (regex_read names) < 20
          → escape_regex (regex_read names) ≡ some (generated names).regex)
generated_back names rest h =
    let e = escaped-regex_read names h in
    (
      rw (← e) (read_string-escaped (regex_read names) rest (Printable-regex_read names h)),
      λ few. (escape_regex_lem (regex_read names)).0 few ∙ ap some e,
    )
