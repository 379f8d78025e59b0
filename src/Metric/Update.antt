-- ===== src/Metric/Update.antt =====
-- `update_histogram`, `update_counter`, `update_text`, `update_numeric`, `update_average` and
-- `reset_value` of src/tm_process.c. `none` as a result stands for a write through a pointer to an
-- entry that is gone, or through a member of the union that the entry's tag does not name.
use tracemate.Base.{ℕ, Bool, false, not, Option, none, some, Bytes, add64}
use tracemate.Metric.{
  Numbers, MetricKey, make_metric_key, add32, Metric, number, text, histogram, integer, MetricValue,
  make_numeric_value, make_integer_value, make_histogram_latency_value, make_text_value,
}
use tracemate.Metric.Table.{Table, put}
use tracemate.Metric.Upsert.{upsert}

module _ (nums : Numbers) where
  open nums use {Double, zero_double, plus, Hist, hist_alloc, hist_insert}

  abbrev pub Metrics : Type 0
  Metrics = Table (MetricValue nums)

  abbrev with_metric : MetricValue nums → Metric nums → ℕ → MetricValue nums
  with_metric v m now = record v { metric = m; last_seen = now }

  abbrev pub insert_duration : ℕ → ℕ → MetricValue nums → Option (MetricValue nums)
  insert_duration duration_us now v = elim v.metric [
    | histogram h ↦ some (with_metric v (histogram (hist_insert h duration_us)) now)
    | _ ↦ none
  ]

  unfoldable pub update_histogram :
      Bytes → Bool → ℕ → ℕ → ℕ → ℕ → Metrics → Metrics → Option Metrics
  unfolding make_metric_key
  update_histogram metric_name aggregate duration_us timestamp now owner =
      upsert (record (make_metric_key metric_name timestamp) { aggregate = aggregate })
        (insert_duration duration_us now) (make_histogram_latency_value nums duration_us now owner)

  -- What the updates but `update_histogram` make of the key's flags.
  abbrev pub flagged : Bytes → ℕ → Bool → MetricKey
  flagged metric_name timestamp aggregate = record (make_metric_key metric_name timestamp) {
    aggregate = aggregate;
    immediate_flush = not aggregate;
  }

  abbrev pub add_integer : ℕ → ℕ → MetricValue nums → Option (MetricValue nums)
  add_integer count now v = elim v.metric [
    | integer i ↦ some (with_metric v (integer (add64 i count)) now)
    | _ ↦ none
  ]

  unfoldable pub update_counter : Bytes → Bool → ℕ → ℕ → ℕ → ℕ → Metrics → Metrics → Option Metrics
  unfolding make_metric_key
  update_counter metric_name aggregate count timestamp now owner =
      upsert (flagged metric_name timestamp aggregate) (add_integer count now)
        (make_integer_value nums count now owner)

  -- mtev_hash_replace
  unfoldable pub update_text : Bytes → Bytes → ℕ → ℕ → ℕ → Metrics → Metrics
  unfolding make_metric_key
  update_text metric_name str timestamp now owner =
      put (flagged metric_name timestamp false) (make_text_value nums str now owner)

  -- `times` is what is added to `count`.
  abbrev pub add_double : Double → ℕ → ℕ → MetricValue nums → Option (MetricValue nums)
  add_double value times now v = elim v.metric [
    | number d ↦
        some (record v {
          metric = number (plus d value);
          count = add32 v.count times;
          last_seen = now;
        })
    | _ ↦ none
  ]

  abbrev add_numeric : Double → ℕ → MetricValue nums → Option (MetricValue nums)
  add_numeric value now v = elim v.metric [
    | number d ↦ some (with_metric v (number (plus d value)) now)
    | _ ↦ none
  ]

  unfoldable pub update_numeric :
      Bytes → Bool → Double → ℕ → ℕ → ℕ → Metrics → Metrics → Option Metrics
  unfolding make_metric_key
  update_numeric metric_name aggregate value timestamp now owner =
      upsert (flagged metric_name timestamp aggregate) (add_numeric value now)
        (make_numeric_value nums value now owner)

  unfoldable pub update_average :
      Bytes → Bool → Double → ℕ → ℕ → ℕ → Metrics → Metrics → Option Metrics
  unfolding make_metric_key
  update_average metric_name aggregate value timestamp now owner =
      upsert (flagged metric_name timestamp aggregate) (add_double value 1 now)
        (make_numeric_value nums value now owner)

  reset_metric : Metric nums → Metric nums
  reset_metric (number d) = number zero_double
  reset_metric (text s) = text s
  reset_metric (histogram h) = histogram hist_alloc
  reset_metric (integer i) = integer 0

  unfoldable pub reset_value : MetricValue nums → MetricValue nums
  unfolding reset_metric
  reset_value v = record v { metric = reset_metric v.metric; count = 0; flushed_ms = 0 }
