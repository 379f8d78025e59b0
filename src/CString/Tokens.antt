-- ===== src/CString/Tokens.antt =====
-- What the loop of `strtok_r` yields on separated runs.
use tracemate.Base.{
  ℕ, [], ◌∷◌, ◌++◌, ◌≡◌, ◌≢◌, refl, sym, ap, ◌∙◌, arith, Bytes, All, append-nil, append_assoc,
}
use tracemate.CString.{tokens_onto, tokens, until_nul}

tokens_onto-append :
    (sep : ℕ) (cur a rest : Bytes)
    → All (λ x. x ≢ sep) a
    → tokens_onto sep cur (a ++ rest) ≡ tokens_onto sep (cur ++ a) rest
unfolding tokens_onto
tokens_onto-append sep cur [] rest h = rw append-nil
tokens_onto-append sep cur (x ∷ a) rest h =
    ground (arith, tokens_onto-append sep (cur ++ x ∷ []) a rest h.1, append_assoc cur (x ∷ []) a)

-- A run up to a separator is the first token.
pub tokens-run :
    (sep c : ℕ) (a rest : Bytes)
    → All (λ x. x ≢ sep) (c ∷ a)
    → tokens sep ((c ∷ a) ++ (sep ∷ rest)) ≡ (c ∷ a) ∷ tokens sep rest
unfolding tokens tokens_onto
tokens-run sep c a rest h = tokens_onto-append sep [] (c ∷ a) (sep ∷ rest) h ∙ ground arith

pub tokens-last :
    (sep c : ℕ) (a : Bytes) → All (λ x. x ≢ sep) (c ∷ a) → tokens sep (c ∷ a) ≡ (c ∷ a) ∷ []
unfolding tokens tokens_onto
tokens-last sep c a h =
    ap (tokens_onto sep []) (sym (append-nil (c ∷ a)))
    ∙ tokens_onto-append sep [] (c ∷ a) [] h
    ∙ ground arith

pub until_nul_lem : (s : Bytes) → All (λ x. x ≢ 0) s → until_nul s ≡ s
unfolding until_nul
until_nul_lem [] h = refl
until_nul_lem (c ∷ s) h = ground (arith, until_nul_lem s h.1)

pub until_nul-append : (s r : Bytes) → All (λ x. x ≢ 0) s → until_nul (s ++ (0 ∷ r)) ≡ s
unfolding until_nul
until_nul-append [] r h = refl
until_nul-append (c ∷ s) r h = ground (arith, until_nul-append s r h.1)
