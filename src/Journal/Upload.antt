-- ===== src/Journal/Upload.antt =====
-- `send_metric_input` of src/tm_circonus.c, from which curl reads the body piece by piece.
use tracemate.Base.{
  ℕ, zero, suc, ◌+◌, ◌-◌, List, [], ◌∷◌, ◌++◌, Bytes, length, take, drop, min, ◌≡◌, refl, sym, ap,
  ap₂, ◌∙◌, arith,
}

-- `struct send_data`
pub record SendData : Type 0 where
  pub json : Bytes
  pub sent : ℕ

-- The bytes that are copied to a buffer of this size, and the structure after the call.
unfoldable pub send_metric_input : ℕ → SendData → Bytes × SendData
send_metric_input size sd =
    let send = min size (length sd.json - sd.sent) in
    (take send (drop sd.sent sd.json), record sd { sent = sd.sent + send })

-- What curl has read after calls with buffers of these sizes.
unfoldable pub uploaded : List ℕ → SendData → Bytes × SendData
unfolding send_metric_input
uploaded [] sd = ([], sd)
uploaded (size ∷ sizes) sd =
    let (piece, sd') = send_metric_input size sd in
    let (rest, sd'') = uploaded sizes sd' in (piece ++ rest, sd'')

abbrev pub total_size : List ℕ → ℕ
total_size [] = 0
total_size (size ∷ sizes) = size + total_size sizes

module _ {ℓ} {A : Type ℓ} where
  take_nil : (n : ℕ) → ◌≡◌ {A = List A} (take n []) []
  take_nil zero = refl
  take_nil (suc n) = refl

  drop_nil : (n : ℕ) → ◌≡◌ {A = List A} (drop n []) []
  drop_nil zero = refl
  drop_nil (suc n) = refl

  take-drop_append : (a b : ℕ) (xs : List A) → take a xs ++ take b (drop a xs) ≡ take (a + b) xs
  take-drop_append zero b xs = ap (λ (n : ℕ). take n xs) (omega arith)
  take-drop_append (suc a) b [] = take_nil b ∙ sym (take_nil (suc a + b))
  take-drop_append (suc a) b (x ∷ xs) =
      let e : suc a + b ≡ suc (a + b) = omega arith in
      ap (◌∷◌ x) (take-drop_append a b xs) ∙ ap (λ (n : ℕ). take n (x ∷ xs)) (sym e)

  drop-add : (a b : ℕ) (xs : List A) → drop (a + b) xs ≡ drop b (drop a xs)
  drop-add zero b xs = ap (λ (n : ℕ). drop n xs) (omega arith)
  drop-add (suc a) b [] = drop_nil (suc a + b) ∙ sym (drop_nil b)
  drop-add (suc a) b (x ∷ xs) =
      let e : suc a + b ≡ suc (a + b) = omega arith in
      ap (λ (n : ℕ). drop n (x ∷ xs)) e ∙ drop-add a b xs

-- What curl reads, from where it stands: the pieces in order are the bytes that follow there, as
-- many as the buffers hold, up to the end of the body, and the structure counts them. So nothing is
-- left out or sent twice, whatever sizes the buffers have.
pub uploaded_lem :
    (sizes : List ℕ) (sd : SendData)
    → let n = min (total_size sizes) (length sd.json - sd.sent) in
      uploaded sizes sd ≡ (take n (drop sd.sent sd.json), record sd { sent = sd.sent + n })
unfolding uploaded send_metric_input
uploaded_lem [] sd =
    let e : min 0 (length sd.json - sd.sent) ≡ 0 = omega arith in rw e (ground (arith, e))
uploaded_lem (size ∷ sizes) sd =
    let l = length sd.json in
    let a = min size (l - sd.sent) in
    let b = min (total_size sizes) (l - (sd.sent + a)) in
    let n = min (size + total_size sizes) (l - sd.sent) in
    let rest = uploaded_lem sizes (record sd { sent = sd.sent + a }) in
    let sum : a + b ≡ n = omega arith in
    let sent : sd.sent + a + b ≡ sd.sent + n = omega arith in
    ap₂ (λ (x : Bytes) (y : SendData). (x, y))
      (ap (λ (x : Bytes × SendData). take a (drop sd.sent sd.json) ++ x.0) rest
        ∙ ap (λ (x : Bytes). take a (drop sd.sent sd.json) ++ take b x) (drop-add sd.sent a sd.json)
        ∙ take-drop_append a b (drop sd.sent sd.json)
        ∙ ap (λ (k : ℕ). take k (drop sd.sent sd.json)) sum)
      (ap (λ (x : Bytes × SendData). x.1) rest ∙ ap (λ (k : ℕ). record sd { sent = k }) sent)
