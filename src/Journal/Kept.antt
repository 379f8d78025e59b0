-- ===== src/Journal/Kept.antt =====
-- Which entries of the journal a later round reads again.
use tracemate.Base.{
  ℕ, zero, suc, ◌+◌, ◌≤◌, ◌<◌, Bool, true, false, ◌&&◌, some, Bool-cases, Option-cases, inl, inr,
  ◌≡◌, ◌⊎◌, refl, sym, subst, ap, ◌∙◌, arith,
}
use tracemate.Message.{Json}
use tracemate.Store.Kept.{some_is_not_none}
use tracemate.Transaction.Stored.{some-inj}
use tracemate.Journal.{Surrounded, Submitted, submit, Sender, after_entry, send_loop, send_round}

module _ (json : Json) (w : Surrounded json) where
  -- The entry is done with, and the journal took note of that.
  abbrev pub Noted : ℕ → Type 0
  Noted i =
      (r : Submitted) × (submit json w i (w.read_message i) ≡ some r)
      × (r.do_checkpoint ≡ true)
      × (w.checkpoint_ok i ≡ true)

  -- The checkpoint behind a loop over the entries from `i` on.
  abbrev Behind : ℕ → ℕ → ℕ → ℕ → Type 0
  Behind i n before after =
      ((j : ℕ) → i ≤ j → j < i + n → Noted j → j < after)
      × ((after ≡ before) ⊎ ((j : ℕ) × (i ≤ j) × (j < i + n) × Noted j × (after ≡ suc j)))

  -- Whether the entry is the first of the interval.
  first_or_later : (i j : ℕ) → i ≤ j → (i ≡ j) ⊎ (suc i ≤ j)
  first_or_later i j h = ground arith

  Noted-now :
      (i n before after : ℕ)
      → Noted i
      → Behind (suc i) n (suc i) after
      → Behind i (suc n) before after
  Noted-now i n before after h (kept, from) = (
    λ j a b k. elim (first_or_later i j a) [
      | inr later ↦ kept j later (omega arith) k
      | inl same ↦ elim from [ inl e ↦ omega arith | inr (m, lo, hi, k', e) ↦ omega arith ]
    ],
    elim from [
      | inl e ↦ inr (i, omega arith, omega arith, h, e)
      | inr (m, lo, hi, k', e) ↦ inr (m, omega arith, omega arith, k', e)
    ],
  )

  not-Noted :
      (i n before after : ℕ)
      → (Noted i → ⊥)
      → Behind (suc i) n before after
      → Behind i (suc n) before after
  not-Noted i n before after h (kept, from) = (
    λ j a b k. elim (first_or_later i j a) [
      | inr later ↦ kept j later (omega arith) k
      | inl same ↦ absurd (h (subst Noted (sym same) k))
    ],
    elim from [ inl e ↦ inl e | inr (m, lo, hi, k', e) ↦ inr (m, omega arith, omega arith, k', e) ],
  )

  and_parts : (a b : Bool) → (a && b) ≡ true → (a ≡ true) × (b ≡ true)
  and_parts a b h = ground arith

  not-Noted_of :
      (i : ℕ) (r : Submitted)
      → submit json w i (w.read_message i) ≡ some r
      → (r.do_checkpoint && w.checkpoint_ok i) ≡ false
      → Noted i
      → ⊥
  not-Noted_of i r e off (r', e', on, ok) =
      let same : r' ≡ r = some-inj (sym e' ∙ e) in
      let on' : r.do_checkpoint ≡ true = ap (λ (x : Submitted). x.do_checkpoint) (sym same) ∙ on in
      ground arith

  send_loop-Behind :
      (n i : ℕ) (s t : Sender json w)
      → send_loop json w i n s ≡ some t
      → Behind i n s.checkpoint t.checkpoint
  unfolding send_loop
  send_loop-Behind zero i s t e = (
    λ j a b h. absurd (omega arith),
    inl (ap (λ (x : Sender json w). x.checkpoint) (sym (some-inj e))),
  )
  send_loop-Behind (suc n) i s t e = elim (Option-cases (submit json w i (w.read_message i))) [
    | inl none_ ↦ absurd (some_is_not_none (rw none_ at e))
    | inr (r, done) ↦
        let rest = send_loop-Behind n (suc i) (after_entry json w i r s) t (rw done at e) in
        checked i n s t r done rest
  ]
    where
      checked :
          (i n : ℕ) (s t : Sender json w) (r : Submitted)
          → submit json w i (w.read_message i) ≡ some r
          → Behind (suc i) n (after_entry json w i r s).checkpoint t.checkpoint
          → Behind i (suc n) s.checkpoint t.checkpoint
      checked i n s t r done rest = elim (Bool-cases (r.do_checkpoint && w.checkpoint_ok i)) [
        | inl on ↦
            let (a, b) = and_parts r.do_checkpoint (w.checkpoint_ok i) on in
            Noted-now i n s.checkpoint t.checkpoint (r, done, a, b)
              (subst (λ x. Behind (suc i) n x t.checkpoint) (rw (on, after_entry) refl) rest)
        | inr off ↦
            not-Noted i n s.checkpoint t.checkpoint (not-Noted_of i r done off)
              (subst (λ x. Behind (suc i) n x t.checkpoint) (rw (off, after_entry) refl) rest)
      ]

  -- A round that ends leaves the checkpoint behind the last of its entries that was done with and
  -- noted, or where it was if there is none: every such entry is before it. So an entry that could
  -- not be sent is read again only if no later one of the round was sent; else it is passed over,
  -- and lost.
  pub send_round-Behind :
      (n : ℕ) (s t : Sender json w)
      → send_round json w n s ≡ some t
      → ((j : ℕ) → s.checkpoint ≤ j → j < s.checkpoint + n → Noted j → j < t.checkpoint)
        × ((t.checkpoint ≡ s.checkpoint)
            ⊎ ((j : ℕ) × (s.checkpoint ≤ j)
                × (j < s.checkpoint + n)
                × Noted j
                × (t.checkpoint ≡ suc j)))
  unfolding send_round
  send_round-Behind n s t e = send_loop-Behind n s.checkpoint s t e
