-- ===== src/CString/Search.antt =====
-- What `equal`, `starts_with`, `strstr` and `strchr` find.
use tracemate.Base.{
  ℕ, Bool, true, false, not, ◌&&◌, [], ◌∷◌, ◌++◌, Option, none, some, ◌≡◌, ◌≢◌, ◌↔◌, inl, inr, refl,
  sym, subst, ap, ◌∙◌, arith, ◌==◌, Bytes, All, Bool-cases,
}
use tracemate.CString.{equal, starts_with, strstr, strchr, shift}

pub equal_iff : (s t : Bytes) → (equal s t ≡ true) ↔ (s ≡ t)
unfolding equal
equal_iff [] [] = ground arith
equal_iff [] (d ∷ t) = ground arith
equal_iff (c ∷ s) [] = ground arith
equal_iff (c ∷ s) (d ∷ t) = ground (equal_iff s t, arith)

pub equal_self : (a : Bytes) → equal a a ≡ true
equal_self a = (equal_iff a a).1 refl

-- The text `p` stands somewhere in `s`.
abbrev pub Occurs : Bytes → Bytes → Type 0
Occurs p s = (a : Bytes) × (b : Bytes) × (s ≡ a ++ (p ++ b))

pub starts_with-eq : (p s : Bytes) → starts_with p s ≡ true → (b : Bytes) × (s ≡ p ++ b)
unfolding starts_with
starts_with-eq [] s h = (s, refl)
starts_with-eq (p ∷ ps) [] h = cc
starts_with-eq (p ∷ ps) (c ∷ s) h =
    let (b, e) = starts_with-eq ps s (ground arith) in (b, ground arith)

pub starts_with-append : (p b : Bytes) → starts_with p (p ++ b) ≡ true
unfolding starts_with
starts_with-append [] b = refl
starts_with-append (p ∷ ps) b = ground (arith, starts_with-append ps b)

shift-eq-some :
    (c : ℕ) (o : Option (Bytes × Bytes)) {a t : Bytes}
    → shift c o ≡ some (a, t)
    → (a' : Bytes) × (o ≡ some (a', t)) × (a ≡ c ∷ a')
shift-eq-some c none h = cc
shift-eq-some c (some (a', t')) h = (a', ground arith, ground arith)

shift-eq-none : (c : ℕ) (o : Option (Bytes × Bytes)) → shift c o ≡ none → o ≡ none
shift-eq-none c none h = refl
shift-eq-none c (some _) h = cc

-- A match that is found splits the text in front of the needle.
pub strstr-eq-some :
    (s p : Bytes) {a t : Bytes} → strstr s p ≡ some (a, t) → (s ≡ a ++ t) × (starts_with p t ≡ true)
unfolding strstr
strstr-eq-some [] p h = ground arith
strstr-eq-some (c ∷ s) p h = elim (Bool-cases (starts_with p (c ∷ s))) [
  | inl e ↦ ground arith
  | inr e ↦
      let (a', f, g) = shift-eq-some c (strstr s p) (rw e at h) in
      let ih = strstr-eq-some s p f in (ground arith, ih.1)
]

-- No match, no occurrence.
pub strstr-eq-none : (s p : Bytes) → strstr s p ≡ none → ¬ Occurs p s
unfolding strstr
strstr-eq-none [] p h ([], b, e) = ground (arith, rw (← e) at (starts_with-append p b))
strstr-eq-none [] p h (x ∷ a, b, e) = cc
strstr-eq-none (c ∷ s) p h ([], b, e) = ground (arith, rw (← e) at (starts_with-append p b))
strstr-eq-none (c ∷ s) p h (x ∷ a, b, e) = elim (Bool-cases (starts_with p (c ∷ s))) [
  | inl f ↦ ground arith
  | inr f ↦ strstr-eq-none s p (shift-eq-none c (strstr s p) (rw f at h)) (a, b, ground arith)
]

pub Occurs-strstr : (s p : Bytes) {a t : Bytes} → strstr s p ≡ some (a, t) → Occurs p s
Occurs-strstr s p {a} {t} h =
    let (e, f) = strstr-eq-some s p h in
    let (b, g) = starts_with-eq p t f in (a, b, e ∙ ap (◌++◌ a) g)

-- Where the needle's first byte stands nowhere before it, the match is found there.
pub strstr-append :
    (a : Bytes) (d : ℕ) (ps b : Bytes)
    → All (λ x. x ≢ d) a
    → strstr (a ++ (d ∷ (ps ++ b))) (d ∷ ps) ≡ some (a, d ∷ (ps ++ b))
unfolding strstr
strstr-append [] d ps b h = ground (arith, starts_with-append ps b)
strstr-append (x ∷ a) d ps b h = ground (arith, strstr-append a d ps b h.1)

pub strstr_absent : (s : Bytes) (d : ℕ) (ps : Bytes) → All (λ x. x ≢ d) s → strstr s (d ∷ ps) ≡ none
unfolding strstr
strstr_absent [] d ps h = refl
strstr_absent (x ∷ s) d ps h = ground (arith, strstr_absent s d ps h.1)

pub strchr-eq-some :
    (s : Bytes) (d : ℕ) {a t : Bytes}
    → strchr s d ≡ some (a, t)
    → (r : Bytes) × (t ≡ d ∷ r) × (s ≡ a ++ (d ∷ r)) × All (λ x. x ≢ d) a
unfolding strchr
strchr-eq-some [] d h = cc
strchr-eq-some (c ∷ s) d {a} {t} h = elim (Bool-cases (c == d)) [
  | inl e ↦ (
    s,
    ground arith,
    ground arith,
    let z : [] ≡ a = ground arith in subst (All (λ x. x ≢ d)) z tt,
  )
  | inr e ↦
      let (a', f, g) = shift-eq-some c (strchr s d) (rw e at h) in
      let (r, k, l, m) = strchr-eq-some s d f in
      (r, k, ground arith, subst (All (λ x. x ≢ d)) (sym g) (ground arith, m))
]

pub strchr-append :
    (a : Bytes) (d : ℕ) (r : Bytes) → All (λ x. x ≢ d) a → strchr (a ++ (d ∷ r)) d ≡ some (a, d ∷ r)
unfolding strchr
strchr-append [] d r h = ground arith
strchr-append (x ∷ a) d r h = ground (arith, strchr-append a d r h.1)

pub strchr-eq-none : (s : Bytes) (d : ℕ) → strchr s d ≡ none → All (λ x. x ≢ d) s
unfolding strchr
strchr-eq-none [] d h = tt
strchr-eq-none (c ∷ s) d h = elim (Bool-cases (c == d)) [
  | inl e ↦ ground arith
  | inr e ↦ (ground arith, strchr-eq-none s d (shift-eq-none c (strchr s d) (rw e at h)))
]

-- A text without the byte `d` holds no needle that has it.
starts_with_absent :
    (q : Bytes) (d : ℕ) (r s : Bytes) → All (λ x. x ≢ d) s → starts_with (q ++ (d ∷ r)) s ≡ false
unfolding starts_with
starts_with_absent [] d r [] h = refl
starts_with_absent [] d r (x ∷ s) h = ground arith
starts_with_absent (y ∷ q) d r [] h = refl
starts_with_absent (y ∷ q) d r (x ∷ s) h = ground (arith, starts_with_absent q d r s h.1)

pub strstr_without :
    (q : Bytes) (d : ℕ) (r s : Bytes) → All (λ x. x ≢ d) s → strstr s (q ++ (d ∷ r)) ≡ none
unfolding strstr
strstr_without q d r [] h = ground (arith, starts_with_absent q d r [] h)
strstr_without q d r (x ∷ s) h =
    ground (arith, starts_with_absent q d r (x ∷ s) h, strstr_without q d r s h.1)

-- No byte of the text is `d`, as a test.
abbrev pub lacks : ℕ → Bytes → Bool
lacks d [] = true
lacks d (x ∷ s) = not (x == d) && lacks d s

pub lacks-All : (d : ℕ) (s : Bytes) → lacks d s ≡ true → All (λ x. x ≢ d) s
lacks-All d [] h = tt
lacks-All d (x ∷ s) h = (ground arith, lacks-All d s (ground arith))
