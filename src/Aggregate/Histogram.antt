-- ===== src/Aggregate/Histogram.antt =====
-- An inbound histogram, with its rollups.
use tracemate.Base.{
  ◌<◌, Option, none, some, Bytes, codes, length, ◌≡◌, ◌≢◌, refl, sym, subst, ap, ◌∙◌, arith,
}
use tracemate.Metric.{Numbers, MetricKey, make_metric_key, histogram, MetricValue}
use tracemate.Metric.Table.{find}
use tracemate.Metric.Upsert.{updated, upsert_lem}
use tracemate.Metric.Update.{Metrics}
use tracemate.Message.{Json}
use tracemate.Aggregate.Rollup.{Summaries, Surroundings}
use tracemate.Aggregate.Rollup.Kept.{
  IsRollupKey, HoldsNumber, AreNumbers, rollups-Changed, IsRollupKey-ne,
}
use tracemate.Aggregate.{timestamp_of, accumulate, new_histogram, hist_at, inbound_histogram}

module _ (nums : Numbers) (json : Json) (sums : Summaries nums json) where
  open nums use {Hist, hist_accumulate}

  -- There is no entry, or it is a histogram.
  abbrev pub HoldsHistogram : Option (MetricValue nums) → Type 0
  HoldsHistogram none = Unit
  HoldsHistogram (some v) = (h : Hist) × (v.metric ≡ histogram h)

  -- The histogram of an entry, if there is one.
  abbrev pub histogram_of : Option (MetricValue nums) → Option Hist
  histogram_of none = none
  histogram_of (some v) = elim v.metric [ histogram h ↦ some h | _ ↦ none ]

  -- A histogram that comes in on top of what is there.
  abbrev pub merged : Option Hist → Hist → Hist
  merged none h = h
  merged (some g) h = hist_accumulate g h

  histogram_updated :
      (s : Surroundings) (key : MetricKey) (h : Hist) (o : Option (MetricValue nums))
      → HoldsHistogram o
      → (v : MetricValue nums) × (updated key
            (accumulate nums json sums h s.now)
            (new_histogram nums json sums s h)
            o
          ≡ some v)
        × (v.metric ≡ histogram (merged (histogram_of o) h))
  histogram_updated s key h none i = (new_histogram nums json sums s h, refl, refl)
  histogram_updated s key h (some v) (g, e) = (
    record v { metric = histogram (hist_accumulate g h); last_seen = s.now },
    ground arith,
    ground arith,
  )

  -- Where no entry of another type stands under its key or under those of its rollups, an inbound
  -- histogram is taken: it is merged into the histogram under its key, or stored there, none of the
  -- rollups touches it, and no entry but it and its six rollups changes. The key is shorter than
  -- 4095 bytes.
  pub inbound_histogram_lem :
      (s : Surroundings) (key : Bytes) (val value : json.Object) (t : Metrics nums)
      → let k = make_metric_key key (timestamp_of nums json sums val) in
        json.get val (codes "_value") ≡ some value
        → length key < 4095
        → HoldsHistogram (find k t)
        → AreNumbers nums json sums key (timestamp_of nums json sums val) t
        → (t' : Metrics nums) × (inbound_histogram nums json sums s key val t ≡ some t')
          × (histogram_of (find k t')
              ≡ some (merged (histogram_of (find k t)) (sums.hist_deserialize (json.string value))))
          × ((j : MetricKey)
              → j ≢ k
              → ¬ IsRollupKey key (timestamp_of nums json sums val) j
              → find j t' ≡ find j t)
  unfolding inbound_histogram hist_at
  inbound_histogram_lem s key val value t e l i n =
      let ts = timestamp_of nums json sums val in
      let k = make_metric_key key ts in
      let h = sums.hist_deserialize (json.string value) in
      let (v, u, m) = histogram_updated s k h (find k t) i in
      let (t₁, r, self, others) =
        upsert_lem k (accumulate nums json sums h s.now) (new_histogram nums json sums s h) t u in
      let hist = merged (histogram_of (find k t)) h in
      let at : histogram_of (find k t₁) ≡ some hist = ground (arith, self, m) in
      let stored : hist_at nums json sums (find k t₁) ≡ some hist = ground (arith, self, m) in
      let (t₂, q, c) = rollups-Changed nums json sums s key hist ts t₁ (λ j i.
        subst (HoldsNumber nums json sums)
          (sym (others j λ q. IsRollupKey-ne key ts l (subst (IsRollupKey key ts) q i))) (n j i)) in
      (
        t₂,
        rw (e, r, stored, inbound_histogram) q,
        ap histogram_of (c.others k (IsRollupKey-ne key ts l)) ∙ at,
        λ j ne no. c.others j no ∙ others j ne,
      )
