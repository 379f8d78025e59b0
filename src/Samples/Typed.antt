-- ===== src/Samples/Typed.antt =====
-- A team's table in which the name of a metric says whether its value is a counter, a histogram or
-- a text, and the updates that keep it so.
pub mod Names
use tracemate.Base.{
  ℕ, ◌+◌, ◌%◌, ◌<◌, Bool, map, true, false, List, [], ◌∷◌, Option, none, some, inl, inr,
  if◌then◌else◌, ◌≡◌, ◌≢◌, refl, sym, subst, ap, All, ◌∙◌, arith, u64, add64, Bytes, codes, ◌||◌,
  Bool-cases,
}
use tracemate.CString.{starts_with}
use tracemate.Metric.{
  Numbers, MetricKey, make_metric_key, same_key, number, histogram as durations, text as words,
  integer, MetricValue, make_value, make_histogram_latency_value,
}
use tracemate.Metric.Table.{find, put, find-put, same_key_iff, same_key_self, same_key-ne}
use tracemate.Metric.Upsert.{updated, upsert_lem}
use tracemate.Metric.Update.{Metrics, flagged, insert_duration}
use tracemate.Metric.Counter.{
  amount_of, amount, HoldsCount, amount-lt, amount_step, update_counter_lem,
}
use tracemate.Samples.{Op, replace, numeric, average, counter, histogram, perform_op, perform_all}

-- What the value of a metric is.
pub data ValueType : Type 0 where
  a_count some_durations some_words anything : ValueType

same_key_other : (j k : MetricKey) → j ≢ k → same_key k j ≡ false
same_key_other j k ne = elim (Bool-cases (same_key k j)) [
  | inl e ↦ absurd (ne (sym ((same_key_iff k j).0 e)))
  | inr e ↦ e
]

module _ (nums : Numbers) where
  abbrev pub HoldsDurations : Option (MetricValue nums) → Type 0
  HoldsDurations none = Unit
  HoldsDurations (some v) = (h : nums.Hist) × (v.metric ≡ durations h)

  abbrev pub HoldsWords : Option (MetricValue nums) → Type 0
  HoldsWords none = Unit
  HoldsWords (some v) = (s : Bytes) × (v.metric ≡ words s)

  abbrev pub HoldsType : ValueType → Option (MetricValue nums) → Type 0
  HoldsType a_count o = HoldsCount nums o
  HoldsType some_durations o = HoldsDurations o
  HoldsType some_words o = HoldsWords o
  HoldsType anything o = amount_of nums o < u64

  amount-Durations : (o : Option (MetricValue nums)) → HoldsDurations o → amount_of nums o ≡ 0
  amount-Durations none h = refl
  amount-Durations (some v) h = ground arith

  amount-Words : (o : Option (MetricValue nums)) → HoldsWords o → amount_of nums o ≡ 0
  amount-Words none h = refl
  amount-Words (some v) h = ground arith

  amount-Type :
      (b : ValueType) (o : Option (MetricValue nums)) → HoldsType b o → amount_of nums o < u64
  amount-Type a_count o h = amount-lt nums o h
  amount-Type some_durations o h = omega (arith, amount-Durations o h)
  amount-Type anything o h = h
  amount-Type some_words o h = omega (arith, amount-Words o h)

  insert_duration-updated :
      (key : MetricKey) (us now owner : ℕ) (o : Option (MetricValue nums))
      → HoldsDurations o
      → (v : MetricValue nums) × (updated key
            (insert_duration nums us now)
            (make_histogram_latency_value nums us now owner)
            o
          ≡ some v)
        × HoldsDurations (some v)
  insert_duration-updated key us now owner none h =
      (make_histogram_latency_value nums us now owner, refl, (_, refl))
  insert_duration-updated key us now owner (some v) (h, m) = (
    record v { metric = durations (nums.hist_insert h us); last_seen = now },
    rw m refl,
    (nums.hist_insert h us, refl),
  )

  -- The key that an update goes to, and what it adds to a counter.
  abbrev pub key_of : Op nums → MetricKey
  key_of (replace name m ts) = record (make_metric_key name ts) { immediate_flush = true }
  key_of (numeric name aggregate d ts) = flagged nums name ts aggregate
  key_of (average name aggregate d ts) = flagged nums name ts aggregate
  key_of (counter name aggregate n ts) = flagged nums name ts aggregate
  key_of (histogram name aggregate us ts) = record (make_metric_key name ts) {
    aggregate = aggregate;
  }

  abbrev pub count_of : Op nums → ℕ
  count_of (counter name aggregate n ts) = n
  count_of op = 0

  -- The sum of what goes to one key.
  abbrev pub added_to : MetricKey → List (Op nums) → ℕ
  added_to k [] = 0
  added_to k (op ∷ ops) = (if same_key (key_of op) k then count_of op else 0) + added_to k ops

  module _ (type_of : Bytes → ValueType) where
    -- Every entry is of the type that its name says.
    abbrev pub Typed : Metrics nums → Type 0
    Typed t = (k : MetricKey) → HoldsType (type_of k.metric_name) (find k t)

    -- A counter, a histogram or a text, under a name that says so.
    abbrev pub Agrees : Op nums → Type 0
    Agrees (counter name aggregate n ts) = (type_of name ≡ a_count) × (n < u64)
    Agrees (histogram name aggregate us ts) = type_of name ≡ some_durations
    Agrees (replace name (words s) ts) = type_of name ≡ some_words
    Agrees op = ⊥

    module _ (now owner : ℕ) where
      perform_op-Typed :
          (op : Op nums) (t : Metrics nums)
          → Agrees op
          → Typed t
          → (t₁ : Metrics nums) × (perform_op nums now owner op t ≡ some t₁)
            × HoldsType (type_of (key_of op).metric_name) (find (key_of op) t₁)
            × (amount nums t₁ (key_of op) ≡ add64 (amount nums t (key_of op)) (count_of op))
            × ((j : MetricKey) → j ≢ key_of op → find j t₁ ≡ find j t)
      unfolding perform_op
      perform_op-Typed (counter name aggregate n ts) t (e, lt) typed =
          let k = flagged nums name ts aggregate in
          let (t₁, r, self, sum, others) =
            update_counter_lem nums name aggregate n ts now owner t lt
              (subst (λ b. HoldsType b (find k t)) e (typed k)) in
          (t₁, r, subst (λ b. HoldsType b (find k t₁)) (sym e) self, sum, others)
      perform_op-Typed (histogram name aggregate us ts) t e typed =
          let k = key_of (histogram name aggregate us ts) in
          let old = subst (λ b. HoldsType b (find k t)) e (typed k) in
          let (v, u, new) = insert_duration-updated k us now owner (find k t) old in
          let (t₁, r, self, others) = upsert_lem k (insert_duration nums us now) _ t u in
          let held : HoldsDurations (find k t₁) = subst HoldsDurations (sym self) new in
          (
            t₁,
            r,
            subst (λ b. HoldsType b (find k t₁)) (sym e) held,
            omega (arith, amount-Durations (find k t₁) held, amount-Durations (find k t) old),
            others,
          )
      perform_op-Typed (replace name (words s) ts) t e typed =
          let k = key_of (replace name (words s) ts) in
          let v = make_value nums (words s) now owner in
          let self : find k (put k v t) ≡ some v =
            find-put k k v t ∙ ap (λ b. if b then some v else find k t) (same_key_self k) in
          let old = subst (λ b. HoldsType b (find k t)) e (typed k) in
          let held : HoldsWords (find k (put k v t)) = subst HoldsWords (sym self) (s, refl) in
          (
            put k v t,
            refl,
            subst (λ b. HoldsType b (find k (put k v t))) (sym e) held,
            omega (arith, amount-Words (find k (put k v t)) held, amount-Words (find k t) old),
            λ j ne.
                find-put j k v t ∙ ap (λ b. if b then some v else find j t) (same_key_other j k ne),
          )
      perform_op-Typed (replace name (number d) ts) t a typed = absurd a
      perform_op-Typed (replace name (durations d) ts) t a typed = absurd a
      perform_op-Typed (replace name (integer i) ts) t a typed = absurd a
      perform_op-Typed (numeric name aggregate d ts) t a typed = absurd a
      perform_op-Typed (average name aggregate d ts) t a typed = absurd a

      Typed-kept :
          (key : MetricKey) (t t₁ : Metrics nums)
          → Typed t
          → HoldsType (type_of key.metric_name) (find key t₁)
          → ((j : MetricKey) → j ≢ key → find j t₁ ≡ find j t)
          → Typed t₁
      Typed-kept key t t₁ typed self others k = elim (Bool-cases (same_key key k)) [
        | inl e ↦
            subst (λ (j : MetricKey). HoldsType (type_of j.metric_name) (find j t₁))
              ((same_key_iff key k).0 e) self
        | inr e ↦
            subst (HoldsType (type_of k.metric_name)) (sym (others k (same_key-ne key k e)))
              (typed k)
      ]

      -- On a table whose entries are of the types that their names say, updates that agree with
      -- those names all succeed, leave such a table, and add to each counter what goes to its key,
      -- modulo 2^64.
      pub perform_all-Typed :
          (ops : List (Op nums)) (t : Metrics nums)
          → All Agrees ops
          → Typed t
          → (t' : Metrics nums) × (perform_all nums now owner ops t ≡ some t')
            × Typed t'
            × ((k : MetricKey) → amount nums t' k ≡ (amount nums t k + added_to k ops) % u64)
      unfolding perform_all
      perform_all-Typed [] t agree typed = (
        t,
        refl,
        typed,
        λ k. omega (arith, amount-Type (type_of k.metric_name) (find k t) (typed k)),
      )
      perform_all-Typed (op ∷ ops) t agree typed =
          let (t₁, e₁, self, sum, others) = perform_op-Typed op t agree.0 typed in
          let (t₂, e₂, typed₂, sums) =
            perform_all-Typed ops t₁ agree.1 (Typed-kept (key_of op) t t₁ typed self others) in
          (
            t₂,
            rw e₁ e₂,
            typed₂,
            λ k.
                amount_step nums (key_of op) (count_of op) (added_to k ops) t t₁ (amount nums t₂ k)
                  k sum others (sums k),
          )
