-- ===== src/Aggregate/Rollup.antt =====
-- `_build_rollup_key` and `store_numeric_rollup` of src/tm_process_aggregate.c: the numbers that
-- sum a histogram up, each under a name of its own.
pub mod Kept
use tracemate.Base.{
  ℕ, ◌-◌, Bool, true, false, List, [], ◌∷◌, ◌++◌, Option, none, some, if◌then◌else◌, ◌>>=◌, Bytes,
  codes, length, take, drop,
}
use tracemate.CString.{strstr}
use tracemate.Metric.{Numbers, make_metric_key, number, MetricValue, make_numeric_value}
use tracemate.Metric.Upsert.{upsert}
use tracemate.Metric.Update.{Metrics}
use tracemate.Message.{Json}

-- What circllhist, <math.h> and json-c tell: `quantile h p` is hist_approx_quantile at p percent.
pub record Summaries (nums : Numbers) (json : Json) : Type 0 where
  pub isnormal : nums.Double → Bool
  pub mean : nums.Hist → nums.Double
  pub stddev : nums.Hist → nums.Double
  pub quantile : nums.Hist → ℕ → nums.Double
  pub hist_deserialize : Bytes → nums.Hist
  pub double_of : Option json.Object → nums.Double

-- `mtev_now_ms()`, `tm_metrics_get_owner_id()`, and what a fresh piece of memory holds.
pub record Surroundings : Type 0 where
  pub now : ℕ
  pub owner : ℕ
  pub uninitialised : ℕ

-- strlcat(dest, src, size)
abbrev pub strlcat : Bytes → Bytes → ℕ → Bytes
strlcat dest src size = dest ++ take (size - 1 - length dest) src

abbrev pub metric_name_size : ℕ
metric_name_size = 4096

rollup_name : Bytes → Option (Bytes × Bytes) → Option Bytes
rollup_name replace none = none
rollup_name replace (some (before, at)) =
    some (strlcat (strlcat before replace metric_name_size) (drop 9 at) metric_name_size)

-- The name with `replace` in the place of `search`.
unfoldable pub build_rollup_key : Bytes → Bytes → Bytes → Option Bytes
unfolding rollup_name strstr
build_rollup_key incoming_key search replace = rollup_name replace (strstr incoming_key search)

module _ (nums : Numbers) (json : Json) (sums : Summaries nums json) where
  open nums use {Double, Hist}
  open sums use {isnormal, mean, stddev, quantile}

  abbrev store_number : Double → ℕ → MetricValue nums → Option (MetricValue nums)
  store_number value now v = elim v.metric [
    | number d ↦ some (record v { metric = number value; last_seen = now })
    | _ ↦ none
  ]

  store_under : Surroundings → Option Bytes → Double → ℕ → Metrics nums → Option (Metrics nums)
  unfolding make_metric_key
  store_under s none value timestamp t = some t
  store_under s (some metric_name) value timestamp t =
      upsert (make_metric_key metric_name timestamp) (store_number value s.now)
        (make_numeric_value nums value s.now s.owner) t t

  unfoldable pub store_numeric_rollup :
      Surroundings → Bytes → Bytes → Double → ℕ → Metrics nums → Option (Metrics nums)
  unfolding store_under build_rollup_key
  store_numeric_rollup s key replace value timestamp t =
      if isnormal value
      then store_under s (build_rollup_key key (codes "- latency") replace) value timestamp t
      else some t

  -- The six calls behind the update of the histogram.
  unfoldable pub rollups : Surroundings → Bytes → Hist → ℕ → Metrics nums → Option (Metrics nums)
  unfolding store_numeric_rollup
  rollups s key hist timestamp t = do
    t ← store_numeric_rollup s key (codes "- average_latency") (mean hist) timestamp t
    t ← store_numeric_rollup s key (codes "- min_latency") (quantile hist 0) timestamp t
    t ← store_numeric_rollup s key (codes "- p95_latency") (quantile hist 95) timestamp t
    t ← store_numeric_rollup s key (codes "- p99_latency") (quantile hist 99) timestamp t
    t ← store_numeric_rollup s key (codes "- max_latency") (quantile hist 100) timestamp t
    store_numeric_rollup s key (codes "- stddev_latency") (stddev hist) timestamp t
