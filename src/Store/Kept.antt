-- ===== src/Store/Kept.antt =====
-- What every call other than a put leaves alone under a key without a dash, such as a trace id.
use tracemate.Base.{
  ℕ, Bool, true, false, Option, none, some, [], ◌∷◌, ◌++◌, inl, inr, Bytes, All, if◌then◌else◌, ◌≡◌,
  ◌≢◌, refl, sym, subst, ap, ◌∙◌, arith,
}
use tracemate.CString.{equal}
use tracemate.CString.Search.{equal_iff}
use tracemate.Store.{RootRecord, Stored, root, Lmdb, LmdbLaws, Bloom, Store}
use tracemate.Store.Write.{Which, in_current, in_last, put_ts}
use tracemate.Store.Steps.{get_in, get-put_ts, get-put_ts_ne, Same, Kept}

-- A key that no child has.
abbrev pub Plain : Bytes → Type 0
Plain id = All (λ c. c ≢ b'-') id

dash-ne : (front back : Bytes) → Plain (front ++ (b'-' ∷ back)) → ⊥
dash-ne [] back p = p.0 refl
dash-ne (c ∷ front) back p = dash-ne front back p.1

pub Plain-ne : (id front back : Bytes) → Plain id → id ≢ front ++ (b'-' ∷ back)
Plain-ne id front back p e = dash-ne front back (subst Plain e p)

root_record-eq :
    {b : Option Stored} (r r' : RootRecord) (now now' : ℕ)
    → b ≡ some (root (record r { last_modified_ms = now }))
    → b ≡ some (root r')
    → root (record r' { last_modified_ms = now' }) ≡ root (record r { last_modified_ms = now' })
root_record-eq r r' now now' e k = ground arith

pub ne_of_equal : (k id : Bytes) → equal k id ≡ false → id ≢ k
ne_of_equal k id h e = cc ((equal_iff k id).1 (sym e))

pub some_is_not_none {ℓ} : {A : Type ℓ} {a : A} → ◌≡◌ {A = Option A} none (some a) → ⊥
some_is_not_none e = cc

restamped : ℕ → RootRecord → Stored
restamped now r = root (record r { last_modified_ms = now })

root-inj : (r r' : RootRecord) → some (root r) ≡ some (root r') → r ≡ r'
root-inj r r' e = ground arith

pub Same-root :
    {a b : Option Stored} (r : RootRecord)
    → Same a b
    → a ≡ some (root r)
    → (m : ℕ) × (b ≡ some (root (record r { last_modified_ms = m })))
unfolding restamped
Same-root r (inl h) e = (r.last_modified_ms, sym h ∙ e)
Same-root r (inr (r', now, h, k)) e =
    (now, k ∙ ap some (ap (restamped now) (root-inj r' r (sym h ∙ e))))

pub Same-none : {a b : Option Stored} → Same a b → a ≡ none → b ≡ none
Same-none (inl h) e = sym h ∙ e
Same-none (inr (r, now, h, k)) e = absurd (some_is_not_none (sym e ∙ h))

pub in_either {ℓ} : (P : Which → Type ℓ) → P in_current → P in_last → (p : Which) → P p
in_either P c l in_current = c
in_either P c l in_last = l

Same-trans : {a b c : Option Stored} → Same a b → Same b c → Same a c
Same-trans {a} {b} {c} (inl e) h = subst (λ x. Same x c) (sym e) h
Same-trans (inr (r, now, e, e')) (inl k) = inr (r, now, e, sym k ∙ e')
Same-trans (inr (r, now, e, e')) (inr (r', now', k, k')) =
    inr (r, now', e, k' ∙ ap some (root_record-eq r r' now now' e' k))

module _ (lmdb : Lmdb) (laws : LmdbLaws lmdb) (bloom : Bloom) where
  pub Kept-refl : (id : Bytes) (s : Store lmdb bloom) → Kept lmdb laws bloom id s s
  Kept-refl id s = record { same = λ p. inl refl; current_bloom = λ h. h; last_bloom = refl }

  pub if-Kept :
      (b : Bool) {id : Bytes} {s t u : Store lmdb bloom}
      → Kept lmdb laws bloom id s t
      → Kept lmdb laws bloom id s u
      → Kept lmdb laws bloom id s (if b then t else u)
  if-Kept true h k = h
  if-Kept false h k = k

  pub Kept-trans :
      {id : Bytes} {s t u : Store lmdb bloom}
      → Kept lmdb laws bloom id s t
      → Kept lmdb laws bloom id t u
      → Kept lmdb laws bloom id s u
  Kept-trans h k = record {
    same = λ p. Same-trans (h.same p) (k.same p);
    current_bloom = λ c. k.current_bloom (h.current_bloom c);
    last_bloom = k.last_bloom ∙ h.last_bloom;
  }

  put_ts-current_bloom :
      (p : Which) (k : Bytes) (v : Stored) (s : Store lmdb bloom) {id : Bytes}
      → bloom.bloom_contains s.current_bloom id ≡ true
      → bloom.bloom_contains (put_ts lmdb bloom p k v s).current_bloom id ≡ true
  put_ts-current_bloom in_current k v s h = h
  put_ts-current_bloom in_last k v s h = h

  put_ts-last_bloom :
      (p : Which) (k : Bytes) (v : Stored) (s : Store lmdb bloom)
      → (put_ts lmdb bloom p k v s).last_bloom ≡ s.last_bloom
  put_ts-last_bloom in_current k v s = refl
  put_ts-last_bloom in_last k v s = refl

  -- A record that another key is given.
  pub put_ts-Kept :
      (p : Which) (k id : Bytes) (v : Stored) (s : Store lmdb bloom)
      → id ≢ k
      → Kept lmdb laws bloom id s (put_ts lmdb bloom p k v s)
  put_ts-Kept p k id v s ne = record {
    same = λ q. inl (sym (get-put_ts_ne lmdb laws bloom q p k id v s ne));
    current_bloom = put_ts-current_bloom p k v s;
    last_bloom = put_ts-last_bloom p k v s;
  }

  touch-Same :
      (q p : Which) (k : Bytes) (r : RootRecord) (now : ℕ) (s : Store lmdb bloom)
      → get_in lmdb laws bloom p s k ≡ some (root r)
      → Same (get_in lmdb laws bloom q s k) (
          get_in lmdb laws bloom q
            (put_ts lmdb bloom p k (root (record r { last_modified_ms = now })) s)
            k)
  touch-Same in_current in_current k r now s e =
      inr (r, now, e, get-put_ts lmdb laws bloom in_current k _ s)
  touch-Same in_current in_last k r now s e = inl refl
  touch-Same in_last in_current k r now s e = inl refl
  touch-Same in_last in_last k r now s e = inr (r, now, e, get-put_ts lmdb laws bloom in_last k _ s)

  -- A record that the key itself is given anew: only the time of its last change is another.
  pub touch-Kept :
      (p : Which) (k : Bytes) (r : RootRecord) (now : ℕ) (s : Store lmdb bloom)
      → get_in lmdb laws bloom p s k ≡ some (root r)
      → Kept lmdb laws bloom k s
          (put_ts lmdb bloom p k (root (record r { last_modified_ms = now })) s)
  touch-Kept p k r now s e = record {
    same = λ q. touch-Same q p k r now s e;
    current_bloom = put_ts-current_bloom p k _ s;
    last_bloom = put_ts-last_bloom p k _ s;
  }
