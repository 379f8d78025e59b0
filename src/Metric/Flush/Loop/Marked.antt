-- ===== src/Metric/Flush/Loop/Marked.antt =====
-- What a flush marks as flushed, against what it wrote to the journal.
use mathlib.Core.List.{Memᴰ}
use mathlib.Core.List.Memᴰ
use tracemate.Base.{
  ℕ, ◌+◌, ◌<◌, ◌≤◌, Bool, true, false, List, [], ◌∷◌, ◌++◌, some, inl, inr, ltb, All, ◌≡◌, ◌≢◌, ◌⊎◌,
  refl, sym, subst, ◌∙◌, arith, Bool-cases,
}
use tracemate.Metric.{Numbers, MetricKey, same_key, MetricValue}
use tracemate.Metric.Table.{find, write, delete, same_key_iff, same_key-ne}
use tracemate.Metric.Update.{Metrics}
use tracemate.Metric.Flush.{Action, destroy, skip, emit_json, publish, wait, decide, Batch, World}
use tracemate.Metric.Flush.Loop.{
  State, start, mark_one, mark, journal, kept, perform, continues, taken, two_mb, post_long, body,
  loop, post_rest, delete_all, flush,
}
use tracemate.Metric.Flush.Loop.Kept.{Distinct, find-write_ne, find-delete_ne, find_only}

module _ (nums : Numbers) (j : MetricKey) (v : MetricValue nums) where
  -- The entry is in one of the batches.
  abbrev pub Journaled : List (Batch nums) → Type 0
  Journaled batches = (b : Batch nums) × Memᴰ b batches × Memᴰ (j, v) b

  record Inv (s : State nums) : Type 0 where
    marked : (find j s.table ≡ some v) ⊎ Journaled s.journaled
    listed : All (λ k. k ≡ j → Memᴰ (j, v) s.batch) s.json_expired
    filled : (s.batch ≡ []) ⊎ (2 ≤ s.used)
    started : 1 ≤ s.used
    spared : All (λ k. k ≢ j) s.kafka_expired

  mark_one-find :
      (ms : ℕ) (k : MetricKey) (t : Metrics nums) → k ≢ j → find j (mark_one nums ms k t) ≡ find j t
  unfolding find mark_one
  mark_one-find ms k [] ne = refl
  mark_one-find ms k ((i, u) ∷ t) ne =
      ground (arith, same_key_iff i k, same_key_iff i j, mark_one-find ms k t ne)

  mark-find :
      (ms : ℕ) (ks : List MetricKey) (t : Metrics nums)
      → All (λ k. k ≢ j) ks
      → find j (mark nums ms ks t) ≡ find j t
  unfolding mark
  mark-find ms [] t h = refl
  mark-find ms (k ∷ ks) t h = mark-find ms ks (mark_one nums ms k t) h.1 ∙ mark_one-find ms k t h.0

  -- Either the key is in the list, and what that brings holds, or it is not.
  absent_or {ℓ} :
      {X : Type ℓ} (ks : List MetricKey) → All (λ k. k ≡ j → X) ks → All (λ k. k ≢ j) ks ⊎ X
  absent_or [] h = inl tt
  absent_or (k ∷ ks) h = elim (Bool-cases (same_key k j)) [
    | inl e ↦ inr (h.0 ((same_key_iff k j).0 e))
    | inr e ↦ elim (absent_or ks h.1) [
      | inl a ↦ inl ((λ q. same_key-ne k j e (sym q)), a)
      | inr x ↦ inr x
    ]
  ]

  All-append_left :
      (b c : Batch nums) (ks : List MetricKey)
      → All (λ k. k ≡ j → Memᴰ (j, v) b) ks
      → All (λ k. k ≡ j → Memᴰ (j, v) (b ++ c)) ks
  All-append_left b c [] h = tt
  All-append_left b c (k ∷ ks) h = (λ q. Memᴰ.append_left c (h.0 q), All-append_left b c ks h.1)

  kept_full :
      (used : ℕ) (b : Batch nums)
      → Memᴰ (j, v) b
      → (b ≡ []) ⊎ (2 ≤ used)
      → kept nums (used + 1) b ≡ b ∷ []
  kept_full used [] m f = absurd (Memᴰ.not-nil m)
  kept_full used (e ∷ b) m (inl q) = cc
  kept_full used (e ∷ b) m (inr l) = ground arith

  -- What a batch that was taken leaves behind.
  taken-marked :
      (w : World nums) (s : State nums)
      → Inv s
      → (find j (taken nums w s).table ≡ some v) ⊎ Journaled (taken nums w s).journaled
  unfolding taken
  taken-marked w s i = elim (absent_or s.json_expired i.listed) [
    | inl a ↦ elim i.marked [
      | inl e ↦ inl (mark-find w.marked_ms s.json_expired s.table a ∙ e)
      | inr (b, m, n) ↦ inr (b, Memᴰ.append_left (kept nums (s.used + 1) s.batch) m, n)
    ]
    | inr m ↦ inr (
      s.batch,
      Memᴰ.append_right s.journaled
          (subst (Memᴰ s.batch) (sym (kept_full s.used s.batch m i.filled)) (Memᴰ.head refl)),
      m,
    )
  ]

  write-marked :
      (k : MetricKey) (u : MetricValue nums) (s : State nums)
      → k ≢ j
      → Inv s
      → (find j (write k u s.table) ≡ some v) ⊎ Journaled s.journaled
  write-marked k u s ne i = elim i.marked [
    | inl e ↦ inl (find-write_ne j k u s.table ne ∙ e)
    | inr b ↦ inr b
  ]

  abbrev Holding : Batch nums → Type 0
  Holding b = Memᴰ (j, v) b

  same_entry : (k : MetricKey) (u : MetricValue nums) → k ≡ j → u ≡ v → Holding ((k, u) ∷ [])
  same_entry k u q p =
      subst (λ x. Holding ((x, u) ∷ [])) (sym q)
        (subst (λ y. Holding ((j, y) ∷ [])) (sym p) (Memᴰ.head refl))

  perform-Inv :
      (a : Action) (w : World nums) (k : MetricKey) (u : MetricValue nums) (s : State nums)
      → 0 < w.json_length k u
      → (k ≡ j → (u ≡ v) × (a ≡ emit_json))
      → Inv s
      → Inv (perform nums a w k u s)
  unfolding perform
  perform-Inv destroy w k u s l h i =
      let ne : k ≢ j = λ q. let z = (h q).1 in cc in
      record {
        marked = write-marked k _ s ne i;
        listed = i.listed;
        filled = i.filled;
        started = i.started;
        spared = (ne, i.spared);
      }
  perform-Inv publish w k u s l h i = elim (Bool-cases (w.kafka_ok k u)) [
    | inl e ↦
        rw (e, perform)
          (record {
            marked = write-marked k _ s ne i;
            listed = i.listed;
            filled = i.filled;
            started = i.started;
            spared = i.spared;
          })
    | inr e ↦
        rw (e, perform)
          (record {
            marked = write-marked k _ s ne i;
            listed = i.listed;
            filled = i.filled;
            started = i.started;
            spared = i.spared;
          })
  ]
    where
      ne : k ≢ j
      ne q = let z = (h q).1 in cc
  perform-Inv emit_json w k u s l h i = record {
    marked = i.marked;
    listed = (
      λ q. Memᴰ.append_right s.batch (same_entry k u q (h q).0),
      All-append_left s.batch ((k, u) ∷ []) s.json_expired i.listed,
    );
    filled = inr (omega (arith, i.started));
    started = omega (arith, i.started);
    spared = i.spared;
  }
  perform-Inv skip w k u s l h i = i
  perform-Inv wait w k u s l h i = i

  post_long-Inv : (w : World nums) (s : State nums) → Inv s → Inv (post_long nums w s).0
  unfolding post_long
  post_long-Inv w s i = elim (Bool-cases (ltb (two_mb nums) s.used)) [
    | inl e ↦ elim (Bool-cases (journal nums w (s.used + 1) s.batch)) [
      | inl f ↦
          rw (e, f, post_long)
            (record {
              marked = taken-marked w s i;
              listed = tt;
              filled = inl refl;
              started = omega arith;
              spared = i.spared;
            })
      | inr f ↦ rw (e, f, post_long) i
    ]
    | inr e ↦ rw (e, post_long) i
  ]

  body-Inv :
      (w : World nums) (k : MetricKey) (u : MetricValue nums) (s : State nums)
      → 0 < w.json_length k u
      → (k ≡ j → (u ≡ v) × (decide nums w.now k u ≡ emit_json))
      → Inv s
      → Inv (body nums w k u s).0
  unfolding body
  body-Inv w k u s l h i =
      let i' = perform-Inv (decide nums w.now k u) w k u s l h i in
      elim (Bool-cases (continues nums (decide nums w.now k u))) [
        | inl e ↦ rw e i'
        | inr e ↦ rw e (post_long-Inv w (perform nums (decide nums w.now k u) w k u s) i')
      ]

  loop-Inv :
      (w : World nums) (es : Batch nums) (s : State nums)
      → ((k : MetricKey) (u : MetricValue nums) → 0 < w.json_length k u)
      → All (λ e. e.0 ≡ j → (e.1 ≡ v) × (decide nums w.now e.0 e.1 ≡ emit_json)) es
      → Inv s
      → Inv (loop nums w es s).0
  unfolding loop
  loop-Inv w [] s l h i = i
  loop-Inv w ((k, u) ∷ es) s l h i = elim (Bool-cases (body nums w k u s).1) [
    | inl e ↦ rw (e, loop) (body-Inv w k u s (l k u) h.0 i)
    | inr e ↦
        rw (e, loop) (loop-Inv w es (body nums w k u s).0 l h.1 (body-Inv w k u s (l k u) h.0 i))
  ]

  -- Before the metrics that are to be destroyed leave the table.
  abbrev Settled : State nums → Type 0
  Settled s = ((find j s.table ≡ some v) ⊎ Journaled s.journaled) × All (λ k. k ≢ j) s.kafka_expired

  post_rest-Settled :
      (w : World nums) (r : State nums × Bool) → Inv r.0 → Settled (post_rest nums w r)
  unfolding post_rest
  post_rest-Settled w (s, true) i = (i.marked, i.spared)
  post_rest-Settled w (s, false) i = elim (Bool-cases (journal nums w (s.used + 1) s.batch)) [
    | inl e ↦ rw (e, post_rest) (taken-marked w s i, i.spared)
    | inr e ↦ rw (e, post_rest) (i.marked, i.spared)
  ]

  delete_all-find :
      (ks : List MetricKey) (t : Metrics nums)
      → All (λ k. k ≢ j) ks
      → find j (delete_all nums ks t) ≡ find j t
  unfolding delete_all
  delete_all-find [] t h = refl
  delete_all-find (k ∷ ks) t h = delete_all-find ks (delete k t) h.1 ∙ find-delete_ne j k t h.0

  -- In a table without double keys, an entry that is to be sent to the journal is in a batch that
  -- the journal took, as it was, or it is still in the table exactly as it was, not marked as
  -- flushed. The JSON of every metric must have at least one byte.
  pub flush_journaled :
      (w : World nums) (t : Metrics nums)
      → Distinct t
      → find j t ≡ some v
      → decide nums w.now j v ≡ emit_json
      → ((k : MetricKey) (u : MetricValue nums) → 0 < w.json_length k u)
      → (find j (flush nums w t).table ≡ some v) ⊎ Journaled (flush nums w t).journaled
  unfolding flush
  flush_journaled w t d e a l =
      let es = find_only (λ k u. (u ≡ v) × (decide nums w.now k u ≡ emit_json)) j t d e (refl, a) in
      let s = post_rest nums w (loop nums w t (start nums t)) in
      let (m, spared) = post_rest-Settled w (loop nums w t (start nums t)) (
        loop-Inv w t (start nums t) l es (record {
          marked = inl e;
          listed = tt;
          filled = inl refl;
          started = omega arith;
          spared = tt;
        })) in
      elim m [ inl f ↦ inl (delete_all-find s.kafka_expired s.table spared ∙ f) | inr b ↦ inr b ]
