-- ===== src/Metric/Flush/Decide.antt =====
-- When a metric is sent and when it is dropped.
use tracemate.Base.{ℕ, ◌+◌, ◌≤◌, ◌<◌, if◌then◌else◌, ◌≡◌, ◌≢◌, ◌⊎◌, arith}
use tracemate.Metric.{Numbers, MetricKey, MetricValue}
use tracemate.Metric.Flush.{destroy, skip, emit_json, publish, decide, ten_minutes}

module _ (nums : Numbers) (now : ℕ) (k : MetricKey) (v : MetricValue nums) where
  -- Data that came in after the last flush.
  abbrev pub IsPending : Type 0
  IsPending = (v.flushed_ms ≡ 0) ⊎ (v.flushed_ms < v.last_seen)

  -- A metric with data that was not flushed is sent, to Kafka where it is an aggregate and else to
  -- the journal, once more than ten seconds have passed since its last update and more than a
  -- second since its own time.
  pub pending_sent :
      IsPending
      → v.last_seen + 10000 < now
      → k.timestamp + 1000 < now
      → decide nums now k v ≡ (if k.aggregate then publish else emit_json)
  unfolding decide
  pending_sent p a b = ground arith

  -- A metric with data that was not flushed is neither dropped nor passed over.
  pub pending_kept : IsPending → (decide nums now k v ≢ destroy) × (decide nums now k v ≢ skip)
  unfolding decide
  pending_kept p = (ground arith, ground arith)

  -- A metric is dropped only if all of it was flushed and it was not updated for ten minutes.
  pub destroy_idle :
      decide nums now k v ≡ destroy
      → (0 < v.flushed_ms) × (v.last_seen ≤ v.flushed_ms) × (v.last_seen + ten_minutes < now)
  unfolding decide
  destroy_idle h = ground arith
