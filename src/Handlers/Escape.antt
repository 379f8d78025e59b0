-- ===== src/Handlers/Escape.antt =====
-- `escape_regex` of src/tm_process_regex.c.
use tracemate.Base.{
  ℕ, suc, ◌+◌, ◌≤◌, ◌<◌, true, false, Option, none, some, [], ◌∷◌, ltb, ◌==◌, if◌then◌else◌, Bytes,
  length, ==_iff, Bool-cases, inl, inr, ◌≡◌, ◌≢◌, refl, sym, ap, ◌∙◌, arith,
}

unfoldable pub escaped : Bytes → Bytes
escaped [] = []
escaped (c ∷ s) = let rest = escaped s in if c == b'/' then 92 ∷ (b'/' ∷ rest) else c ∷ rest

-- The text and its NUL have to fit the length and 20 bytes; `none` where they do not.
unfoldable pub escape_regex : Bytes → Option Bytes
unfolding escaped
escape_regex regex =
    if ltb (length (escaped regex)) (length regex + 20) then some (escaped regex) else none

-- The slashes of a text.
abbrev pub slashes : Bytes → ℕ
slashes [] = 0
slashes (c ∷ s) = if c == b'/' then suc (slashes s) else slashes s

-- A backslash in front of a slash is taken away.
unfoldable pub unescaped : Bytes → Bytes
unescaped [] = []
unescaped (c ∷ []) = c ∷ []
unescaped (c ∷ (d ∷ s)) =
    let rest = unescaped (d ∷ s) in
    if c == 92 then (if d == b'/' then rest else c ∷ rest) else c ∷ rest

length-escaped : (s : Bytes) → length (escaped s) ≡ length s + slashes s
unfolding escaped
length-escaped [] = refl
length-escaped (c ∷ s) = ground (arith, length-escaped s)

unescaped-cons :
    (c : ℕ) (s : Bytes) → c ≢ b'/' → unescaped (c ∷ escaped s) ≡ c ∷ unescaped (escaped s)
unfolding unescaped escaped
unescaped-cons c [] ne = refl
unescaped-cons c (d ∷ s) ne = ground arith

unescaped-slash : (s : Bytes) → unescaped (b'/' ∷ s) ≡ b'/' ∷ unescaped s
unfolding unescaped
unescaped-slash [] = refl
unescaped-slash (d ∷ s) = refl

unescaped-nil : unescaped (escaped []) ≡ []
unfolding unescaped escaped
unescaped-nil = refl

unescaped-two : (s : Bytes) → unescaped (92 ∷ (b'/' ∷ s)) ≡ b'/' ∷ unescaped s
unfolding unescaped
unescaped-two s = unescaped-slash s

escaped-slash :
    (c : ℕ) (s : Bytes)
    → (c == b'/') ≡ true
    → unescaped (escaped s) ≡ s
    → unescaped (escaped (c ∷ s)) ≡ c ∷ s
unfolding escaped
escaped-slash c s e h =
    rw e (unescaped-two (escaped s) ∙ ap (◌∷◌ b'/') h ∙ ap (λ d. d ∷ s) (sym ((==_iff c b'/').0 e)))

escaped-other :
    (c : ℕ) (s : Bytes)
    → (c == b'/') ≡ false
    → unescaped (escaped s) ≡ s
    → unescaped (escaped (c ∷ s)) ≡ c ∷ s
unfolding escaped
escaped-other c s e h = rw e (unescaped-cons c s (λ p. ground arith) ∙ ap (◌∷◌ c) h)

unescaped-escaped : (s : Bytes) → unescaped (escaped s) ≡ s
unescaped-escaped [] = unescaped-nil
unescaped-escaped (c ∷ s) = elim (Bool-cases (c == b'/')) [
  | inl slash ↦ escaped-slash c s slash (unescaped-escaped s)
  | inr other ↦ escaped-other c s other (unescaped-escaped s)
]

-- A regular expression with less than twenty slashes is escaped, and every other one overruns the
-- buffer; the text can be read back from what is made of it.
pub escape_regex_lem :
    (regex : Bytes)
    → (slashes regex < 20 → escape_regex regex ≡ some (escaped regex))
      × (20 ≤ slashes regex → escape_regex regex ≡ none)
      × (unescaped (escaped regex) ≡ regex)
unfolding escape_regex
escape_regex_lem regex = (
  λ h. ground (arith, length-escaped regex),
  λ h. ground (arith, length-escaped regex),
  unescaped-escaped regex,
)
