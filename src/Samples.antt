-- ===== src/Samples.antt =====
-- src/tm_process_metric.c: the updates that a message with metrics of a process makes. Doubles are
-- those of `Numbers`, with the conversions that the code makes as parameters.
pub mod Gauges
pub mod Nested
pub mod Flat
pub mod Process
pub mod Same
pub mod Forms
pub mod Typed
use tracemate.Base.{
  ℕ, Bool, true, false, Option, none, some, List, [], ◌∷◌, ◌++◌, if◌then◌else◌, ◌>>=◌, Bytes, codes,
  take,
}
use tracemate.Message.{Json}
use tracemate.Metric.{Numbers, Metric, make_metric_key, make_value}
use tracemate.Metric.Table.{put}
use tracemate.Metric.Update.{
  Metrics, update_histogram, update_counter, update_numeric, update_average,
}

-- `double` and its conversions; mtev_json_object_get_double and _get_uint64 take NULL as well.
pub record Conversions (nums : Numbers) (json : Json) : Type 0 where
  pub get_double : Option json.Object → nums.Double
  pub get_uint64 : Option json.Object → ℕ
  pub of_uint64 : ℕ → nums.Double
  -- x / 1000.0
  pub thousandth : nums.Double → nums.Double
  -- (uint64_t)(x * 1000), and (uint64_t)x
  pub thousandfold : nums.Double → ℕ
  pub to_uint64 : nums.Double → ℕ

-- snprintf(metric_name, sizeof(metric_name) - 1, "%s|ST[%s]", …)
abbrev pub sample_name : Bytes → Bytes → Bytes
sample_name name tags = take 4094 (name ++ (codes "|ST[" ++ (tags ++ codes "]")))

module _ (nums : Numbers) where
  -- A change of the team's table: the replacement of a value that is flushed at once, or an update,
  -- with the flag `aggregate`.
  pub data Op : Type 0 where
    replace : Bytes → Metric nums → ℕ → Op
    numeric average : Bytes → Bool → nums.Double → ℕ → Op
    counter histogram : Bytes → Bool → ℕ → ℕ → Op

  -- The table after it; `none` as in the updates.
  unfoldable pub perform_op : ℕ → ℕ → Op → Metrics nums → Option (Metrics nums)
  unfolding update_histogram update_counter update_numeric update_average
  perform_op now owner (replace name m ts) t = some (
      put (record (make_metric_key name ts) { immediate_flush = true })
        (make_value nums m now owner) t)
  perform_op now owner (numeric name aggregate d ts) t =
      update_numeric nums name aggregate d ts now owner t t
  perform_op now owner (average name aggregate d ts) t =
      update_average nums name aggregate d ts now owner t t
  perform_op now owner (counter name aggregate n ts) t =
      update_counter nums name aggregate n ts now owner t t
  perform_op now owner (histogram name aggregate us ts) t =
      update_histogram nums name aggregate us ts now owner t t

  unfoldable pub perform_all : ℕ → ℕ → List Op → Metrics nums → Option (Metrics nums)
  unfolding perform_op
  perform_all now owner [] t = some t
  perform_all now owner (op ∷ ops) t = do
    t' ← perform_op now owner op t
    perform_all now owner ops t'

-- What the updates need of the message; `agg_timestamp` is the centre of the time window.
pub record At : Type 0 where
  pub tag_string : Bytes
  pub agg_tag_string : Bytes
  pub timestamp_ms : ℕ
  pub agg_timestamp : ℕ
  pub collect_host_level_system : Bool
