-- ===== src/Metric.antt =====
-- src/tm_metric.h and the updates of src/tm_process.c: the metrics of one team, by key.
-- Doubles and the histograms of circllhist are parameters (`Numbers`).
pub mod Table
pub mod Upsert
pub mod Update
pub mod Counter
pub mod Flush
pub mod Json
use tracemate.Base.{
  ℕ, ◌+◌, ◌%◌, ◌^◌, Bool, true, false, not, ◌&&◌, List, [], ◌∷◌, ◌++◌, Option, none, some, ◌==◌,
  if◌then◌else◌, Bytes,
}
use tracemate.CString.{equal}

-- `double`, as far as the program computes with it, and `histogram_t`.
pub record Numbers : Type 1 where
  pub Double : Type 0
  pub zero_double : Double
  pub plus : Double → Double → Double
  pub Hist : Type 0
  pub hist_alloc : Hist
  -- hist_insert_intscale(h, duration_us, -6, 1)
  pub hist_insert : Hist → ℕ → Hist
  -- hist_accumulate(h, &g, 1)
  pub hist_accumulate : Hist → Hist → Hist

-- `metric_key_t`; `key_len` is a function of the name.
pub record MetricKey : Type 0 where
  pub timestamp : ℕ
  pub aggregate : Bool
  pub immediate_flush : Bool
  pub metric_name : Bytes

abbrev pub bool_eq : Bool → Bool → Bool
bool_eq true b = b
bool_eq false b = not b

-- The table compares the bytes of the packed struct: every field counts.
unfoldable pub same_key : MetricKey → MetricKey → Bool
unfolding equal
same_key j k =
    j.timestamp == k.timestamp
    && bool_eq j.aggregate k.aggregate
    && bool_eq j.immediate_flush k.immediate_flush
    && equal j.metric_name k.metric_name

unfoldable pub make_metric_key : Bytes → ℕ → MetricKey
make_metric_key name timestamp_ms = record {
  timestamp = timestamp_ms;
  aggregate = false;
  immediate_flush = false;
  metric_name = name;
}

-- `ck_pr_add_int` on `count`, as a bit pattern of 32 bits.
abbrev pub add32 : ℕ → ℕ → ℕ
add32 a b = (a + b) % 2 ^ 32

module _ (nums : Numbers) where
  open nums use {Double, Hist, hist_alloc, hist_insert}

  -- The union `metric` with the tag `type` that says which member it holds.
  pub data Metric : Type 0 where
    number : Double → Metric
    text : Bytes → Metric
    histogram : Hist → Metric
    integer : ℕ → Metric

  pub record MetricValue : Type 0 where
    pub metric : Metric
    pub count : ℕ
    pub last_seen : ℕ
    pub flushed_ms : ℕ
    pub owner_id : ℕ
    pub scheduled_for_destruction : Bool

  -- What the `make_…_value` functions have in common; `now` is `mtev_now_ms()`, `owner` is
  -- `tm_metrics_get_owner_id()`.
  abbrev pub make_value : Metric → ℕ → ℕ → MetricValue
  make_value m now owner = record {
    metric = m;
    count = 1;
    last_seen = now;
    flushed_ms = 0;
    owner_id = owner;
    scheduled_for_destruction = false;
  }

  abbrev pub make_numeric_value : Double → ℕ → ℕ → MetricValue
  make_numeric_value d = make_value (number d)

  abbrev pub make_integer_value : ℕ → ℕ → ℕ → MetricValue
  make_integer_value i = make_value (integer i)

  abbrev pub make_histogram_latency_value : ℕ → ℕ → ℕ → MetricValue
  make_histogram_latency_value duration_us =
      make_value (histogram (hist_insert hist_alloc duration_us))

  abbrev pub make_text_value : Bytes → ℕ → ℕ → MetricValue
  make_text_value str = make_value (text str)
