-- ===== src/Metric/Flush/Loop.antt =====
-- The loop of `tm_flush_team_metrics` over the metrics of one team, and what follows it, with
-- `journal_output_metrics` of src/tm_circonus.c.
pub mod Kept
pub mod Marked
use tracemate.Base.{
  ℕ, zero, ◌+◌, Bool, true, false, ◌&&◌, ◌||◌, List, [], ◌∷◌, ◌++◌, ltb, ◌==◌, if◌then◌else◌,
  length,
}
use tracemate.Metric.{Numbers, MetricKey, MetricValue, same_key}
use tracemate.Metric.Table.{write, delete}
use tracemate.Metric.Update.{Metrics, reset_value}
use tracemate.Metric.Flush.{Action, destroy, skip, emit_json, publish, wait, decide, Batch, World}

module _ (nums : Numbers) where
  pub record State : Type 0 where
    -- td->hash
    pub table : Metrics nums
    -- `json` and `mtev_dyn_buffer_used(&json)`
    pub batch : Batch nums
    pub used : ℕ
    -- `comma`
    pub comma : Bool
    -- json_expired_list and kafka_expired_list
    pub json_expired : List MetricKey
    pub kafka_expired : List MetricKey
    -- What the journal and Kafka took.
    pub journaled : List (Batch nums)
    pub published : Batch nums

  abbrev pub start : Metrics nums → State
  start t = record {
    table = t;
    batch = [];
    used = 1;
    comma = false;
    json_expired = [];
    kafka_expired = [];
    journaled = [];
    published = [];
  }

  abbrev set_flushed : ℕ → MetricValue nums → MetricValue nums
  set_flushed ms v = record v { flushed_ms = ms }

  mark_one : ℕ → MetricKey → Metrics nums → Metrics nums
  mark_one ms k [] = []
  mark_one ms k ((j, v) ∷ t) =
      if same_key j k then (j, set_flushed ms v) ∷ t else (j, v) ∷ mark_one ms k t

  -- The loop over json_expired_list.
  pub mark : ℕ → List MetricKey → Metrics nums → Metrics nums
  unfolding mark_one
  mark ms [] t = t
  mark ms (k ∷ ks) t = mark ms ks (mark_one ms k t)

  -- `journal_output_metrics`: nothing is written for less than three bytes or no metric.
  journal : World nums → ℕ → Batch nums → Bool
  journal w used batch = w.journal_open && (ltb used 3 || length batch == 0 || w.journal_ok batch)

  -- What is in the journal after a call that returned true.
  abbrev kept : ℕ → Batch nums → List (Batch nums)
  kept used batch = if ltb used 3 || length batch == 0 then [] else batch ∷ []

  two_mb : ℕ
  two_mb = 2097152

  destroyed : MetricKey → MetricValue nums → State → State
  destroyed k v s = record s {
    table = write k (record v { scheduled_for_destruction = true }) s.table;
    kafka_expired = k ∷ s.kafka_expired;
  }

  emitted : World nums → MetricKey → MetricValue nums → State → State
  emitted w k v s = record s {
    batch = s.batch ++ (k, v) ∷ [];
    used = s.used + (if s.comma then 1 else 0) + w.json_length k v;
    comma = true;
    json_expired = k ∷ s.json_expired;
  }

  -- The value is reset before Kafka is asked to take it.
  published_to : World nums → MetricKey → MetricValue nums → State → State
  unfolding reset_value
  published_to w k v s =
      if w.kafka_ok k v
      then record s {
        table = write k (set_flushed w.now (reset_value nums v)) s.table;
        published = s.published ++ (k, v) ∷ [];
      }
      else record s { table = write k (reset_value nums v) s.table }

  perform : Action → World nums → MetricKey → MetricValue nums → State → State
  unfolding destroyed emitted published_to
  perform destroy w k v s = destroyed k v s
  perform skip w k v s = s
  perform emit_json w k v s = emitted w k v s
  perform publish w k v s = published_to w k v s
  perform wait w k v s = s

  -- The two tests with `continue` leave the rest of the loop body out.
  continues : Action → Bool
  continues destroy = true
  continues skip = true
  continues _ = false

  -- The state after a batch was taken: every metric in it is marked.
  taken : World nums → State → State
  unfolding mark
  taken w s = record s {
    table = mark w.marked_ms s.json_expired s.table;
    journaled = s.journaled ++ kept (s.used + 1) s.batch;
  }

  -- Where the JSON is longer than two megabytes it is posted at once; the flag says that this
  -- failed (`goto next_team`).
  post_long : World nums → State → State × Bool
  unfolding taken journal two_mb
  post_long w s =
      if ltb two_mb s.used
      then if journal w (s.used + 1) s.batch
        then (record (taken w s) { batch = []; used = 1; comma = false; json_expired = [] }, false)
        else (s, true)
      else (s, false)

  body : World nums → MetricKey → MetricValue nums → State → State × Bool
  unfolding perform continues post_long decide
  body w k v s =
      let a = decide nums w.now k v in
      let s' = perform a w k v s in if continues a then (s', false) else post_long w s'

  -- The loop over the metrics of the team.
  loop : World nums → Batch nums → State → State × Bool
  unfolding body
  loop w [] s = (s, false)
  loop w ((k, v) ∷ rest) s =
      let r = body w k v s in elim (r.1) [ true ↦ (r.0, true) | false ↦ loop w rest r.0 ]

  -- Behind the loop: the last batch, unless the loop ended by `goto next_team`.
  post_rest : World nums → State × Bool → State
  unfolding taken journal
  post_rest w (s, true) = s
  post_rest w (s, false) = if journal w (s.used + 1) s.batch then taken w s else s

  delete_all : List MetricKey → Metrics nums → Metrics nums
  delete_all [] t = t
  delete_all (k ∷ ks) t = delete_all ks (delete k t)

  -- `next_team`: the metrics that were scheduled for destruction leave the table.
  pub flush : World nums → Metrics nums → State
  unfolding loop post_rest delete_all
  flush w t =
      let s = post_rest w (loop w t (start t)) in
      record s { table = delete_all s.kafka_expired s.table }
