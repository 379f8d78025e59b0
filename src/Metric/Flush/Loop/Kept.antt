-- ===== src/Metric/Flush/Loop/Kept.antt =====
-- The entries of a table through a flush.
use tracemate.Base.{
  ℕ, Bool, true, false, List, [], ◌∷◌, Option, none, some, inl, inr, All, ◌≡◌, ◌≢◌, refl, sym,
  subst, arith, Bool-cases,
}
use tracemate.Metric.{Numbers, MetricKey, same_key, Metric, MetricValue}
use tracemate.Metric.Table.{Table, find, write, delete, same_key_iff, same_key-ne}
use tracemate.Metric.Update.{Metrics}
use tracemate.Metric.Flush.{Action, destroy, skip, emit_json, publish, wait, decide, Batch, World}
use tracemate.Metric.Flush.Loop.{
  State, start, mark_one, mark, perform, continues, taken, post_long, body, loop, post_rest,
  delete_all, flush,
}

-- No key stands in the table twice.
abbrev pub Distinct {ℓ} : {V : Type ℓ} → Table V → Type ℓ
Distinct [] = Unit
Distinct ((k, v) ∷ t) = All (λ e. e.0 ≢ k) t × Distinct t

module _ {ℓ} {V : Type ℓ} where
  pub find-write_ne :
      (j k : MetricKey) (v : V) (t : Table V) → k ≢ j → find j (write k v t) ≡ find j t
  unfolding find write
  find-write_ne j k v [] ne = refl
  find-write_ne j k v ((i, w) ∷ t) ne =
      ground (arith, same_key_iff i k, same_key_iff i j, find-write_ne j k v t ne)

  pub find-delete_ne : (j k : MetricKey) (t : Table V) → k ≢ j → find j (delete k t) ≡ find j t
  unfolding find delete
  find-delete_ne j k [] ne = refl
  find-delete_ne j k ((i, w) ∷ t) ne =
      ground (arith, same_key_iff i k, same_key_iff i j, find-delete_ne j k t ne)

  find_absent : (j : MetricKey) (t : Table V) → All (λ e. e.0 ≢ j) t → find j t ≡ none
  unfolding find
  find_absent j [] h = refl
  find_absent j ((i, w) ∷ t) h = ground (arith, same_key_iff i j, find_absent j t h.1)

  -- Under distinct keys the entry that a look finds is the only one of its key.
  pub find_only :
      (P : MetricKey → V → Type 0) (j : MetricKey) (t : Table V) {v : V}
      → Distinct t
      → find j t ≡ some v
      → P j v
      → All (λ e. e.0 ≡ j → P e.0 e.1) t
  unfolding find
  find_only P j [] d h p = tt
  find_only P j ((i, w) ∷ t) {v} d h p = elim (Bool-cases (same_key i j)) [
    | inl e ↦
        let i≡j : i ≡ j = (same_key_iff i j).0 e in
        let w≡v : w ≡ v = ground (arith, rw e at h) in
        (
          λ _. subst (λ x. P i x) (sym w≡v) (subst (λ x. P x v) (sym i≡j) p),
          others j t (subst (λ x. All (λ e. e.0 ≢ x) t) i≡j d.0),
        )
    | inr e ↦ (λ q. absurd (same_key-ne i j e (sym q)), find_only P j t d.1 (rw e at h) p)
  ]
    where
      others :
          (x : MetricKey) (s : Table V) → All (λ e. e.0 ≢ x) s → All (λ e. e.0 ≡ x → P e.0 e.1) s
      others x [] h = tt
      others x ((k, u) ∷ s) h = (λ q. absurd (h.0 q), others x s h.1)

module _ (nums : Numbers) where
  -- There is an entry, and it holds `m`.
  abbrev pub Holding : Metric nums → Option (MetricValue nums) → Type 0
  Holding m none = ⊥
  Holding m (some v) = v.metric ≡ m

  module _ (j : MetricKey) (m : Metric nums) where
    mark_one-Holding :
        (ms : ℕ) (k : MetricKey) (t : Metrics nums)
        → Holding m (find j t)
        → Holding m (find j (mark_one nums ms k t))
    unfolding find mark_one
    mark_one-Holding ms k [] h = h
    mark_one-Holding ms k ((i, v) ∷ t) h = ground (arith, mark_one-Holding ms k t)

    mark-Holding :
        (ms : ℕ) (ks : List MetricKey) (t : Metrics nums)
        → Holding m (find j t)
        → Holding m (find j (mark nums ms ks t))
    unfolding mark
    mark-Holding ms [] t h = h
    mark-Holding ms (k ∷ ks) t h = mark-Holding ms ks _ (mark_one-Holding ms k t h)

    record Inv (s : State nums) : Type 0 where
      holding : Holding m (find j s.table)
      spared : All (λ k. k ≢ j) s.kafka_expired

    write-Holding :
        (k : MetricKey) (v : MetricValue nums) (t : Metrics nums)
        → k ≢ j
        → Holding m (find j t)
        → Holding m (find j (write k v t))
    write-Holding k v t ne h = subst (Holding m) (sym (find-write_ne j k v t ne)) h

    perform-Inv :
        (a : Action) (w : World nums) (k : MetricKey) (v : MetricValue nums) (s : State nums)
        → (k ≡ j → (a ≢ destroy) × (a ≢ publish))
        → Inv s
        → Inv (perform nums a w k v s)
    unfolding perform
    perform-Inv destroy w k v s h i =
        let ne : k ≢ j = λ q. (h q).0 refl in
        record { holding = write-Holding k _ s.table ne i.holding; spared = (ne, i.spared) }
    perform-Inv publish w k v s h i = elim (Bool-cases (w.kafka_ok k v)) [
      | inl e ↦
          rw (e, perform)
            (record { holding = write-Holding k _ s.table ne i.holding; spared = i.spared })
      | inr e ↦
          rw (e, perform)
            (record { holding = write-Holding k _ s.table ne i.holding; spared = i.spared })
    ]
      where
        ne : k ≢ j
        ne q = (h q).1 refl
    perform-Inv emit_json w k v s h i = record { holding = i.holding; spared = i.spared }
    perform-Inv skip w k v s h i = i
    perform-Inv wait w k v s h i = i

    taken-Inv : (w : World nums) (s : State nums) → Inv s → Inv (taken nums w s)
    unfolding taken
    taken-Inv w s i = record {
      holding = mark-Holding w.marked_ms s.json_expired s.table i.holding;
      spared = i.spared;
    }

    post_long-Inv : (w : World nums) (s : State nums) → Inv s → Inv (post_long nums w s).0
    unfolding post_long
    post_long-Inv w s i = ground (arith, taken-Inv w s i)

    body-Inv :
        (w : World nums) (k : MetricKey) (v : MetricValue nums) (s : State nums)
        → (k ≡ j → (decide nums w.now k v ≢ destroy) × (decide nums w.now k v ≢ publish))
        → Inv s
        → Inv (body nums w k v s).0
    unfolding body
    body-Inv w k v s h i =
        let i' = perform-Inv (decide nums w.now k v) w k v s h i in
        elim (Bool-cases (continues nums (decide nums w.now k v))) [
          | inl e ↦ rw e i'
          | inr e ↦ rw e (post_long-Inv w (perform nums (decide nums w.now k v) w k v s) i')
        ]

    loop-Inv :
        (w : World nums) (es : Batch nums) (s : State nums)
        → All
            (λ e.
              e.0 ≡ j
              → (decide nums w.now e.0 e.1 ≢ destroy) × (decide nums w.now e.0 e.1 ≢ publish))
            es
        → Inv s
        → Inv (loop nums w es s).0
    unfolding loop
    loop-Inv w [] s h i = i
    loop-Inv w ((k, v) ∷ es) s h i = elim (Bool-cases (body nums w k v s).1) [
      | inl e ↦ rw (e, loop) (body-Inv w k v s h.0 i)
      | inr e ↦ rw (e, loop) (loop-Inv w es (body nums w k v s).0 h.1 (body-Inv w k v s h.0 i))
    ]

    post_rest-Inv : (w : World nums) (r : State nums × Bool) → Inv r.0 → Inv (post_rest nums w r)
    unfolding post_rest
    post_rest-Inv w (s, true) i = i
    post_rest-Inv w (s, false) i = ground (arith, taken-Inv w s i)

    delete_all-Holding :
        (ks : List MetricKey) (t : Metrics nums)
        → All (λ k. k ≢ j) ks
        → Holding m (find j t)
        → Holding m (find j (delete_all nums ks t))
    unfolding delete_all
    delete_all-Holding [] t h i = i
    delete_all-Holding (k ∷ ks) t h i =
        delete_all-Holding ks (delete k t) h.1
          (subst (Holding m) (sym (find-delete_ne j k t h.0)) i)

  -- In a table without double keys, an entry that is neither to be dropped nor to be published as
  -- an aggregate is still there after the flush, with the same metric, whatever the journal and
  -- Kafka answered.
  pub flush_kept :
      (w : World nums) (t : Metrics nums) (j : MetricKey) (v : MetricValue nums)
      → Distinct t
      → find j t ≡ some v
      → decide nums w.now j v ≢ destroy
      → decide nums w.now j v ≢ publish
      → (v' : MetricValue nums) × (find j (flush nums w t).table ≡ some v') × (v'.metric ≡ v.metric)
  unfolding flush
  flush_kept w t j v d e a b = held (find j (flush nums w t).table) refl last
    where
      s : State nums
      s = post_rest nums w (loop nums w t (start nums t))

      inv : Inv j v.metric s
      inv = post_rest-Inv j v.metric w (loop nums w t (start nums t)) (
          loop-Inv j v.metric w t (start nums t)
            (find_only
              (λ k u. (decide nums w.now k u ≢ destroy) × (decide nums w.now k u ≢ publish)) j t d e
              (a, b))
            (record { holding = subst (Holding v.metric) (sym e) refl; spared = tt }))

      last : Holding v.metric (find j (flush nums w t).table)
      last = delete_all-Holding j v.metric s.kafka_expired s.table inv.spared inv.holding

      held :
          (o : Option (MetricValue nums))
          → find j (flush nums w t).table ≡ o
          → Holding v.metric o
          → (v' : MetricValue nums) × (find j (flush nums w t).table ≡ some v')
            × (v'.metric ≡ v.metric)
      held none q h = absurd h
      held (some v') q h = (v', q, h)
