-- ===== src/Store/Children.antt =====
-- What `_tm_transaction_store_get_children` collects.
use tracemate.Base.{
  ℕ, zero, suc, ◌≤◌, ◌<◌, Option, none, some, List, [], ◌∷◌, ◌++◌, inl, inr, Bytes, Bool-cases,
  if◌then◌else◌, ◌>>=◌, ltb, ◌==◌, length, take, append-nil, append_assoc, length-append, ltb→lt,
  ltb→le, ◌≡◌, ◌≢◌, refl, sym, ap, ◌∙◌, arith,
}
use tracemate.CString.{starts_with}
use tracemate.Message.{Json}
use tracemate.Store.{Stored, Lmdb, Codec}
use tracemate.Store.Read.{
  Decoded, broken, unparsed, parsed, decode_child, take_child, children_loop, get_children,
  max_child_count,
}

-- An independent description: the records up to the first key without the prefix, but for the root
-- itself and for what is no JSON.
abbrev pub within : Bytes → List (Bytes × Stored) → List Stored
within id [] = []
within id ((key, v) ∷ rest) =
    if starts_with id key
    then (if length key == length id then within id rest else v ∷ within id rest)
    else []

module _ (json : Json) (codec : Codec json) where
  abbrev object_of : Option (Decoded codec) → List json.Object
  object_of none = []
  object_of (some broken) = []
  object_of (some unparsed) = []
  object_of (some (parsed o)) = o ∷ []

  abbrev pub objects : List Stored → List json.Object
  objects [] = []
  objects (v ∷ rest) = object_of (decode_child codec v) ++ objects rest

  -- Every record is a child that can be decompressed.
  abbrev pub Sound : List Stored → Type 0
  Sound [] = Unit
  Sound (v ∷ rest) =
      ((d : Decoded codec) × (decode_child codec v ≡ some d) × (d ≢ broken)) × Sound rest

  take-append_le {ℓ} :
      {A : Type ℓ} (n : ℕ) (xs ys : List A) → n ≤ length xs → length xs ≤ n → take n (xs ++ ys) ≡ xs
  take-append_le zero [] ys h k = refl
  take-append_le zero (x ∷ xs) ys h k = absurd (omega arith)
  take-append_le (suc n) [] ys h k = absurd (omega arith)
  take-append_le (suc n) (x ∷ xs) ys h k =
      ap (◌∷◌ x) (take-append_le n xs ys (omega arith) (omega arith))

  take-all {ℓ} : {A : Type ℓ} (n : ℕ) (xs : List A) → length xs ≤ n → take n xs ≡ xs
  take-all zero [] h = refl
  take-all zero (x ∷ xs) h = absurd (omega arith)
  take-all (suc n) [] h = refl
  take-all (suc n) (x ∷ xs) h = ap (◌∷◌ x) (take-all n xs (omega arith))

  stops :
      (found : List json.Object)
      → length found < max_child_count
      → some found ≡ some (take max_child_count (found ++ []))
  stops found h = ap some (sym (rw append-nil (take-all max_child_count found (omega arith))))

  filled :
      (o : json.Object) (more found : List json.Object)
      → length found < max_child_count
      → max_child_count ≤ length (found ++ o ∷ [])
      → some (found ++ o ∷ []) ≡ some (take max_child_count (found ++ (o ∷ more)))
  filled o more found le ge = ap some (
      sym (
        take-append_le max_child_count (found ++ o ∷ []) more ge
          (omega (arith, length-append found (o ∷ []))))
      ∙ ap (take max_child_count) (append_assoc found (o ∷ []) more))

  take_child-eq :
      (d : Option (Decoded codec)) (more : List json.Object)
      (pass : List json.Object → Option (List json.Object)) (found : List json.Object)
      → ((d' : Decoded codec) × (d ≡ some d') × (d' ≢ broken))
      → length found < max_child_count
      → ((found' : List json.Object)
          → length found' < max_child_count
          → pass found' ≡ some (take max_child_count (found' ++ more)))
      → (d >>= λ d'. take_child codec d' pass found)
        ≡ some (take max_child_count (found ++ (object_of d ++ more)))
  unfolding take_child
  take_child-eq none more pass found (d, e, ne) le rest = absurd (cc)
  take_child-eq (some broken) more pass found (d, e, ne) le rest = absurd (ne (cc))
  take_child-eq (some unparsed) more pass found sound le rest = rest found le
  take_child-eq (some (parsed o)) more pass found sound le rest =
      elim (Bool-cases (ltb (length (found ++ o ∷ [])) max_child_count)) [
        | inl on ↦ rw on (
            rest (found ++ o ∷ []) (ltb→lt _ _ on)
            ∙ ap (λ l. some (take max_child_count l)) (append_assoc found (o ∷ []) more))
        | inr off ↦ rw off (filled o more found le (ltb→le _ _ off))
      ]

  children_loop-eq :
      (id : Bytes) (records : List (Bytes × Stored)) (found : List json.Object)
      → Sound (within id records)
      → length found < max_child_count
      → children_loop codec id records found
        ≡ some (take max_child_count (found ++ objects (within id records)))
  unfolding children_loop
  children_loop-eq id [] found sound le = stops found le
  children_loop-eq id ((key, v) ∷ rest) found sound le = elim (Bool-cases (starts_with id key)) [
    | inr off ↦ rw off (stops found le)
    | inl on ↦ rw on (elim (Bool-cases (length key == length id)) [
      | inl e ↦ let h = rw (on, e) at sound in rw e (children_loop-eq id rest found h le)
      | inr e ↦
          let h = rw (on, e) at sound in
          rw e
            (take_child-eq _ _ _ found h.0 le (λ found' k. children_loop-eq id rest found' h.1 k))
    ])
  ]

  -- If every record of the trace can be decompressed, the children of the trace are found: the
  -- objects of the records whose keys go on after the id, in the order of the keys, those left out
  -- that are no JSON, and not more than a thousand.
  pub get_children-eq :
      (lmdb : Lmdb) (database : lmdb.Db) (id : Bytes)
      → Sound (within id (lmdb.from database id))
      → get_children codec lmdb database id
        ≡ some (take max_child_count (objects (within id (lmdb.from database id))))
  unfolding get_children
  get_children-eq lmdb database id sound =
      children_loop-eq id (lmdb.from database id) [] sound (omega arith)
