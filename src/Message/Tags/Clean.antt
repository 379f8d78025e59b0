-- ===== src/Message/Tags/Clean.antt =====
-- What `tm_clean_tag_value` lets through.
use tracemate.Base.{
  ℕ, suc, [], ◌∷◌, ◌==◌, Bytes, All, get_or, length, Bool-cases, ==_iff, inl, inr, ◌≡◌, ◌≢◌, refl,
  ap, ap₂, arith,
}
use tracemate.Message.Tags.{vtagmap_value, clean_byte, tm_clean_tag_value}

-- The table marks the byte as fit for a tag.
abbrev pub IsTagByte : ℕ → Type 0
IsTagByte c = get_or vtagmap_value c 0 ≢ 0

underscore : IsTagByte b'_'
unfolding vtagmap_value
underscore = λ p. ground arith

clean_byte-IsTagByte : (c : ℕ) → IsTagByte (clean_byte c)
unfolding clean_byte
clean_byte-IsTagByte c = elim (Bool-cases (get_or vtagmap_value c 0 == 0)) [
  | inl e ↦ rw (e, clean_byte) underscore
  | inr e ↦ rw (e, clean_byte) (ground arith)
]

clean_byte_fixed : (c : ℕ) → IsTagByte c → clean_byte c ≡ c
unfolding clean_byte
clean_byte_fixed c h = elim (Bool-cases (get_or vtagmap_value c 0 == 0)) [
  | inl e ↦ absurd (h ((==_iff (get_or vtagmap_value c 0) 0).0 e))
  | inr e ↦ rw (e, clean_byte)
]

-- A cleaned tag is made of the bytes that the table allows, is as long as what it was made from,
-- and is the same where that was made of such bytes already.
pub tm_clean_tag_value_lem :
    (tag : Bytes)
    → All IsTagByte (tm_clean_tag_value tag)
      × (length (tm_clean_tag_value tag) ≡ length tag)
      × (All IsTagByte tag → tm_clean_tag_value tag ≡ tag)
unfolding tm_clean_tag_value
tm_clean_tag_value_lem [] = (tt, refl, λ _. refl)
tm_clean_tag_value_lem (c ∷ tag) =
    let (a, l, f) = tm_clean_tag_value_lem tag in
    ((clean_byte-IsTagByte c, a), ap suc l, λ h. ap₂ ◌∷◌ (clean_byte_fixed c h.0) (f h.1))

pub tm_clean_tag_value_idem :
    (tag : Bytes) → tm_clean_tag_value (tm_clean_tag_value tag) ≡ tm_clean_tag_value tag
tm_clean_tag_value_idem tag =
    (tm_clean_tag_value_lem (tm_clean_tag_value tag)).2 (tm_clean_tag_value_lem tag).0

-- The separators of a tag list are never let through.
pub separators : (¬ IsTagByte b',') × (¬ IsTagByte b']') × (¬ IsTagByte b'[') × (¬ IsTagByte b'|')
unfolding vtagmap_value
separators = (λ h. h refl, λ h. h refl, λ h. h refl, λ h. h refl)
