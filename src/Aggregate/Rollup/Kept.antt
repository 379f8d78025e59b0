-- ===== src/Aggregate/Rollup/Kept.antt =====
-- The keys of rollups, and the table under them.
use tracemate.Base.{
  ℕ, min, ◌+◌, ◌-◌, ◌<◌, Option, none, some, inl, inr, Bytes, codes, length, take, drop,
  length-append, length-take, Bool-cases, Option-cases, ◌≡◌, refl, sym, subst, ap, ◌∙◌, arith,
}
use tracemate.CString.{strstr}
use tracemate.CString.Search.{strstr-eq-some, starts_with-eq}
use tracemate.Metric.{
  Numbers, MetricKey, make_metric_key, same_key, number, MetricValue, make_numeric_value,
}
use tracemate.Metric.Table.{find, same_key_iff, same_key-ne}
use tracemate.Metric.Upsert.{updated, upsert_lem}
use tracemate.Metric.Update.{Metrics}
use tracemate.Message.{Json}
use tracemate.Aggregate.Rollup.{
  Summaries, Surroundings, strlcat, metric_name_size, rollup_name, build_rollup_key, store_number,
  store_under, store_numeric_rollup, rollups,
}

-- What sums a histogram up, and what stands for "- latency" in the name of each.
pub data RollupName : Type 0 where
  average minimum p95 p99 maximum deviation : RollupName

abbrev pub rollup_text : RollupName → Bytes
rollup_text average = codes "- average_latency"
rollup_text minimum = codes "- min_latency"
rollup_text p95 = codes "- p95_latency"
rollup_text p99 = codes "- p99_latency"
rollup_text maximum = codes "- max_latency"
rollup_text deviation = codes "- stddev_latency"

rollup_text-longer : (r : RollupName) → 9 < length (rollup_text r)
rollup_text-longer average = omega arith
rollup_text-longer minimum = omega arith
rollup_text-longer p95 = omega arith
rollup_text-longer p99 = omega arith
rollup_text-longer maximum = omega arith
rollup_text-longer deviation = omega arith

-- `j` is the key of one of the six rollups of `key` at that time.
pub record IsRollupKey (key : Bytes) (timestamp : ℕ) (j : MetricKey) : Type 0 where
  pub rollup : RollupName
  pub metric_name : Bytes
  pub built : build_rollup_key key (codes "- latency") (rollup_text rollup) ≡ some metric_name
  pub same : make_metric_key metric_name timestamp ≡ j

module _ (nums : Numbers) (json : Json) (sums : Summaries nums json) where
  open nums use {Double, Hist}

  -- There is no entry, or it is a number.
  abbrev pub HoldsNumber : Option (MetricValue nums) → Type 0
  HoldsNumber none = Unit
  HoldsNumber (some v) = (d : Double) × (v.metric ≡ number d)

  abbrev pub AreNumbers : Bytes → ℕ → Metrics nums → Type 0
  AreNumbers key timestamp t =
      (j : MetricKey) → IsRollupKey key timestamp j → HoldsNumber (find j t)

  -- From `t` to `t'` only rollups changed, and they are numbers still.
  pub record Changed (key : Bytes) (timestamp : ℕ) (t t' : Metrics nums) : Type 0 where
    pub numbers : AreNumbers key timestamp t'
    pub others : (j : MetricKey) → ¬ IsRollupKey key timestamp j → find j t' ≡ find j t

  number_updated :
      (s : Surroundings) (key : MetricKey) (value : Double) (o : Option (MetricValue nums))
      → HoldsNumber o
      → (v : MetricValue nums) × (updated key
            (store_number nums json sums value s.now)
            (make_numeric_value nums value s.now s.owner)
            o
          ≡ some v)
        × HoldsNumber (some v)
  number_updated s key value none h =
      (make_numeric_value nums value s.now s.owner, refl, (value, refl))
  number_updated s key value (some v) (d, e) =
      (record v { metric = number value; last_seen = s.now }, ground arith, (value, refl))

  store_under-Changed :
      (s : Surroundings) (key name : Bytes) (r : RollupName) (value : Double) (timestamp : ℕ)
      (t : Metrics nums)
      → build_rollup_key key (codes "- latency") (rollup_text r) ≡ some name
      → AreNumbers key timestamp t
      → (t' : Metrics nums) × (store_under nums json sums s (some name) value timestamp t ≡ some t')
        × Changed key timestamp t t'
  unfolding store_under
  store_under-Changed s key name r value timestamp t b n =
      let k = make_metric_key name timestamp in
      let is_rollup : IsRollupKey key timestamp k = record {
        rollup = r;
        metric_name = name;
        built = b;
        same = refl;
      } in
      let (v, u, hv) = number_updated s k value (find k t) (n k is_rollup) in
      let (t', stores, self, others) =
        upsert_lem k (store_number nums json sums value s.now)
          (make_numeric_value nums value s.now s.owner) t u in
      (
        t',
        stores,
        record {
          numbers = λ j i. elim (Bool-cases (same_key k j)) [
            | inl e ↦
                subst (λ x. HoldsNumber (find x t')) ((same_key_iff k j).0 e)
                  (subst HoldsNumber (sym self) hv)
            | inr e ↦ subst HoldsNumber (sym (others j (same_key-ne k j e))) (n j i)
          ];
          others = λ j i. others j (λ q. i (subst (IsRollupKey key timestamp) (sym q) is_rollup));
        },
      )

  store_numeric_rollup-Changed :
      (s : Surroundings) (key : Bytes) (r : RollupName) (value : Double) (timestamp : ℕ)
      (t : Metrics nums)
      → AreNumbers key timestamp t
      → (t' : Metrics nums) × (store_numeric_rollup nums json sums s key
            (rollup_text r)
            value
            timestamp
            t
          ≡ some t')
        × Changed key timestamp t t'
  unfolding store_numeric_rollup
  store_numeric_rollup-Changed s key r value timestamp t n =
      elim (Bool-cases (sums.isnormal value)) [
        | inl e ↦ elim (Option-cases (build_rollup_key key (codes "- latency") (rollup_text r))) [
          | inl b ↦ (t, rw (e, b, store_under) refl, record { numbers = n; others = λ j i. refl })
          | inr (name, b) ↦
              let (t', stores, c) = store_under-Changed s key name r value timestamp t b n in
              (t', rw (e, b) stores, c)
        ]
        | inr e ↦ (t, rw e refl, record { numbers = n; others = λ j i. refl })
      ]

  Changed-trans :
      (key : Bytes) (timestamp : ℕ) (t₁ t₂ t₃ : Metrics nums)
      → Changed key timestamp t₁ t₂
      → Changed key timestamp t₂ t₃
      → Changed key timestamp t₁ t₃
  Changed-trans key timestamp t₁ t₂ t₃ c d = record {
    numbers = d.numbers;
    others = λ j i. d.others j i ∙ c.others j i;
  }

  -- The six rollups are stored, where no entry of another type is in their way, and nothing else
  -- changes.
  pub rollups-Changed :
      (s : Surroundings) (key : Bytes) (hist : Hist) (timestamp : ℕ) (t : Metrics nums)
      → AreNumbers key timestamp t
      → (t' : Metrics nums) × (rollups nums json sums s key hist timestamp t ≡ some t')
        × Changed key timestamp t t'
  unfolding rollups
  rollups-Changed s key hist timestamp t n =
      let (t₁, e₁, c₁) =
        store_numeric_rollup-Changed s key average (sums.mean hist) timestamp t n in
      let (t₂, e₂, c₂) =
        store_numeric_rollup-Changed s key minimum (sums.quantile hist 0) timestamp t₁ c₁.numbers in
      let (t₃, e₃, c₃) =
        store_numeric_rollup-Changed s key p95 (sums.quantile hist 95) timestamp t₂ c₂.numbers in
      let (t₄, e₄, c₄) =
        store_numeric_rollup-Changed s key p99 (sums.quantile hist 99) timestamp t₃ c₃.numbers in
      let (t₅, e₅, c₅) =
        store_numeric_rollup-Changed s key maximum (sums.quantile hist 100) timestamp t₄
          c₄.numbers in
      let (t₆, e₆, c₆) =
        store_numeric_rollup-Changed s key deviation (sums.stddev hist) timestamp t₅ c₅.numbers in
      let c = Changed-trans key timestamp in
      (
        t₆,
        rw (e₁, e₂, e₃, e₄, e₅) e₆,
        c t t₅ t₆ (c t t₄ t₅ (c t t₃ t₄ (c t t₂ t₃ (c t t₁ t₂ c₁ c₂) c₃) c₄) c₅) c₆,
      )

length-strlcat :
    (dest src : Bytes) (size : ℕ)
    → length (strlcat dest src size) ≡ length dest + min (size - 1 - length dest) (length src)
length-strlcat dest src size = omega (
  arith,
  length-append dest (take (size - 1 - length dest) src),
  length-take (size - 1 - length dest) src,
)

-- A rollup's name is longer than the histogram's, also where it is cut at 4095 bytes.
rollup-longer :
    (key replace name : Bytes)
    → 9 < length replace
    → length key < 4095
    → build_rollup_key key (codes "- latency") replace ≡ some name
    → length key < length name
unfolding build_rollup_key rollup_name
rollup-longer key replace name l k b = elim (Option-cases (strstr key (codes "- latency"))) [
  | inl e ↦ let z : none ≡ some name = rw (e, rollup_name) at b in cc
  | inr ((before, at), e) ↦
      let (split, starts) = strstr-eq-some key (codes "- latency") e in
      let (behind, f) = starts_with-eq (codes "- latency") at starts in
      let named : strlcat (strlcat before replace metric_name_size) (drop 9 at) metric_name_size
          ≡ name =
        ground (arith, rw (e, rollup_name) at b) in
      omega (
        arith,
        ap length named,
        ap length split,
        length-append before at,
        ap length f,
        ap (λ t. length (drop 9 t)) f,
        length-strlcat before replace metric_name_size,
        length-strlcat (strlcat before replace metric_name_size) (drop 9 at) metric_name_size,
      )
]

pub IsRollupKey-ne :
    (key : Bytes) (timestamp : ℕ)
    → length key < 4095
    → ¬ IsRollupKey key timestamp (make_metric_key key timestamp)
unfolding make_metric_key
IsRollupKey-ne key timestamp k i =
    let z =
      rollup-longer key (rollup_text i.rollup) i.metric_name (rollup_text-longer i.rollup) k
        i.built in
    let e : i.metric_name ≡ key = ap (λ (j : MetricKey). j.metric_name) i.same in
    absurd (omega (arith, ap length e))
