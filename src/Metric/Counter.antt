-- ===== src/Metric/Counter.antt =====
-- What the updates do to the table, and the sums that the counters hold.
use tracemate.Base.{
  ℕ, ◌+◌, ◌%◌, ◌<◌, Bool, List, [], ◌∷◌, Option, none, some, inl, inr, if◌then◌else◌, ◌≡◌, ◌≢◌,
  refl, sym, subst, ap, All, ◌∙◌, arith, u64, add64, Bytes, Bool-cases, ◌>>=◌,
}
use tracemate.Metric.{Numbers, MetricKey, same_key, integer, MetricValue, make_integer_value}
use tracemate.Metric.Table.{find, same_key_iff, same_key-ne}
use tracemate.Metric.Upsert.{updated, upsert_lem}
use tracemate.Metric.Update.{Metrics, flagged, add_integer, update_counter}

module _ (nums : Numbers) where
  -- The number that the counter under a key holds: 0 where there is none.
  abbrev pub amount_of : Option (MetricValue nums) → ℕ
  amount_of none = 0
  amount_of (some v) = elim v.metric [ integer i ↦ i | _ ↦ 0 ]

  abbrev pub amount : Metrics nums → MetricKey → ℕ
  amount t k = amount_of (find k t)

  -- No entry of another type stands under the key, and the counter is a 64-bit number.
  abbrev pub HoldsCount : Option (MetricValue nums) → Type 0
  HoldsCount none = Unit
  HoldsCount (some v) = (i : ℕ) × (v.metric ≡ integer i) × (i < u64)

  abbrev pub IsCounter : Metrics nums → MetricKey → Type 0
  IsCounter t k = HoldsCount (find k t)

  pub add_integer-updated :
      (key : MetricKey) (count now owner : ℕ) (o : Option (MetricValue nums))
      → count < u64
      → HoldsCount o
      → (v : MetricValue nums) × (updated key
            (add_integer nums count now)
            (make_integer_value nums count now owner)
            o
          ≡ some v)
        × HoldsCount (some v)
        × (amount_of (some v) ≡ add64 (amount_of o) count)
  add_integer-updated key count now owner none h c =
      (make_integer_value nums count now owner, refl, (count, refl, h), omega arith)
  add_integer-updated key count now owner (some v) h (i, m, lt) = (
    record v { metric = integer (add64 i count); last_seen = now },
    ground arith,
    (add64 i count, refl, omega arith),
    ground arith,
  )

  -- Where no entry of another type stands under its key, a request with a count below 2^64
  -- succeeds: the count is added modulo 2^64 to the counter under the key, whether there was one or
  -- not, and every other entry stays.
  pub update_counter_lem :
      (metric_name : Bytes) (aggregate : Bool) (count timestamp now owner : ℕ) (t : Metrics nums)
      → let k = flagged nums metric_name timestamp aggregate in
        count < u64
        → IsCounter t k
        → (t' : Metrics nums) × (update_counter nums metric_name aggregate count timestamp now owner
              t t
            ≡ some t')
          × IsCounter t' k
          × (amount t' k ≡ add64 (amount t k) count)
          × ((j : MetricKey) → j ≢ k → find j t' ≡ find j t)
  unfolding update_counter
  update_counter_lem metric_name aggregate count timestamp now owner t h c =
      let k = flagged nums metric_name timestamp aggregate in
      let (v, u, hv, av) = add_integer-updated k count now owner (find k t) h c in
      let (t', r, self, others) = upsert_lem k (add_integer nums count now) _ t u in
      (t', r, subst HoldsCount (sym self) hv, ap amount_of self ∙ av, others)

-- One call of `update_counter`.
pub record Request : Type 0 where
  pub metric_name : Bytes
  pub aggregate : Bool
  pub count : ℕ
  pub timestamp : ℕ
  pub now : ℕ
  pub owner : ℕ

module _ (nums : Numbers) where
  abbrev pub key_of : Request → MetricKey
  key_of r = flagged nums r.metric_name r.timestamp r.aggregate

  pub run : List Request → Metrics nums → Option (Metrics nums)
  run [] t = some t
  run (r ∷ rs) t = do
    t' ← update_counter nums r.metric_name r.aggregate r.count r.timestamp r.now r.owner t t
    run rs t'

  -- The sum of the counts that go to one key.
  abbrev pub total : List Request → MetricKey → ℕ
  total [] k = 0
  total (r ∷ rs) k = (if same_key (key_of r) k then r.count else 0) + total rs k

  abbrev pub Counters : Metrics nums → Type 0
  Counters t = (k : MetricKey) → IsCounter nums t k

  pub amount-lt : (o : Option (MetricValue nums)) → HoldsCount nums o → amount_of nums o < u64
  amount-lt none h = omega arith
  amount-lt (some v) (i, m, lt) = ground arith

  pub amount_kept :
      (key : MetricKey) (t t₁ : Metrics nums) (k : MetricKey)
      → IsCounter nums t k
      → IsCounter nums t₁ key
      → ((j : MetricKey) → j ≢ key → find j t₁ ≡ find j t)
      → IsCounter nums t₁ k
  amount_kept key t t₁ k c self others = elim (Bool-cases (same_key key k)) [
    | inl e ↦ subst (IsCounter nums t₁) ((same_key_iff key k).0 e) self
    | inr e ↦ subst (HoldsCount nums) (sym (others k (same_key-ne key k e))) c
  ]

  -- One addition to a counter, in front of others that come to `n`.
  pub amount_step :
      (key : MetricKey) (count n : ℕ) (t t₁ : Metrics nums) (m : ℕ) (k : MetricKey)
      → amount nums t₁ key ≡ add64 (amount nums t key) count
      → ((j : MetricKey) → j ≢ key → find j t₁ ≡ find j t)
      → m ≡ (amount nums t₁ k + n) % u64
      → m ≡ (amount nums t k + ((if same_key key k then count else 0) + n)) % u64
  amount_step key count n t t₁ m k added others s = elim (Bool-cases (same_key key k)) [
    | inl e ↦
        let a =
          subst (λ j. amount nums t₁ j ≡ add64 (amount nums t j) count) ((same_key_iff key k).0 e)
            added in
        rw e (omega arith)
    | inr e ↦ let a = ap (amount_of nums) (others k (same_key-ne key k e)) in rw e (omega arith)
  ]

  -- On a table of counters any list of requests with counts below 2^64 succeeds, and leaves under
  -- each key what stood there plus the counts that went to that key, modulo 2^64, in whatever order
  -- they came.
  pub run-total :
      (rs : List Request) (t : Metrics nums)
      → All (λ r. r.count < u64) rs
      → Counters t
      → (t' : Metrics nums) × (run rs t ≡ some t')
        × Counters t'
        × ((k : MetricKey) → amount nums t' k ≡ (amount nums t k + total rs k) % u64)
  unfolding run
  run-total [] t h c = (t, refl, c, λ k. omega (arith, amount-lt (find k t) (c k)))
  run-total (r ∷ rs) t h c =
      let (t₁, e₁, self, added, others) =
        update_counter_lem nums r.metric_name r.aggregate r.count r.timestamp r.now r.owner t h.0
          (c (key_of r)) in
      let (t₂, e₂, c₂, sums) =
        run-total rs t₁ h.1 (λ k. amount_kept (key_of r) t t₁ k (c k) self others) in
      (
        t₂,
        rw e₁ e₂,
        c₂,
        λ k.
            amount_step (key_of r) r.count (total rs k) t t₁ (amount nums t₂ k) k added others
              (sums k),
      )
