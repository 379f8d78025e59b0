-- ===== src/Metric/Flush.antt =====
-- `tm_flush_team_metrics` of src/tm_metric.c for one team: what is decided about each metric. What
-- a JSON text weighs, and whether a write to the journal or to Kafka succeeds, are parameters.
pub mod Loop
pub mod Decide
use tracemate.Base.{
  ℕ, ◌+◌, ◌-◌, ◌*◌, Bool, true, false, not, ◌&&◌, ◌||◌, List, [], ◌∷◌, ◌++◌, ltb, leb, ◌==◌,
  if◌then◌else◌, length,
}
use tracemate.Metric.{Numbers, MetricKey, MetricValue, same_key}
use tracemate.Metric.Table.{write, delete}
use tracemate.Metric.Update.{Metrics, reset_value}

-- What the loop body does with one metric.
pub data Action : Type 0 where
  destroy skip emit_json publish wait : Action

abbrev pub ten_minutes : ℕ
ten_minutes = 600000

module _ (nums : Numbers) where
  abbrev pub already_flushed : MetricValue nums → Bool
  already_flushed v = ltb 0 v.flushed_ms && leb v.last_seen v.flushed_ms

  abbrev pub older_than : ℕ → ℕ → ℕ → Bool
  older_than now time age = ltb time now && ltb age (now - time)

  -- The tests of the loop body, in order.
  unfoldable pub decide : ℕ → MetricKey → MetricValue nums → Action
  decide now k v =
      if already_flushed v && older_than now v.last_seen ten_minutes
      then destroy
      else if already_flushed v
      then skip
      else if not k.aggregate
      then if k.immediate_flush
          || (older_than now k.timestamp 1000 && older_than now v.last_seen 10000)
        then emit_json
        else wait
      else if older_than now v.last_seen 10000
      then publish
      else wait

  -- One POST: the metrics rendered into it, with the values they had.
  abbrev pub Batch : Type 0
  Batch = List (MetricKey × MetricValue nums)

  -- What surrounds a flush: `mtev_now_ms()` at its start and when a batch is marked, the length of
  -- `metric_to_json`'s text, whether the journal is open and takes a batch, whether Kafka takes an
  -- aggregate.
  pub record World : Type 0 where
    pub now : ℕ
    pub marked_ms : ℕ
    pub json_length : MetricKey → MetricValue nums → ℕ
    pub journal_open : Bool
    pub journal_ok : Batch → Bool
    pub kafka_ok : MetricKey → MetricValue nums → Bool
