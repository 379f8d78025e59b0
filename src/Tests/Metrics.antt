-- ===== src/Tests/Metrics.antt =====
-- src/tm_process.c and src/tm_metric.c on small tables: doubles are numbers, and a histogram is the
-- list of its samples.
use tracemate.Base.{
  ◌⊎◌, ℕ, ◌+◌, true, false, List, [], ◌∷◌, ◌++◌, some, codes, ◌≡◌, refl, arith, u64, ◌%◌,
}
use tracemate.CString.{equal}
use tracemate.Metric.{Numbers, MetricKey, MetricValue, make_integer_value, same_key}
use tracemate.Metric.Table.{find}
use tracemate.Metric.Upsert.{upsert, upsert_atomic}
use tracemate.Metric.Update.{Metrics, add_integer}
use tracemate.Metric.Counter.{Request, amount, run, total, Counters, run-total}
use tracemate.Metric.Flush.{emit_json, decide, World}
use tracemate.Metric.Flush.Loop.{flush}
use tracemate.Metric.Flush.Loop.Kept.{flush_kept}
use tracemate.Metric.Flush.Loop.Marked.{Journaled, flush_journaled}

abbrev pub small : Numbers
small = record {
  Double = ℕ;
  zero_double = 0;
  plus = λ a b. a + b;
  Hist = List ℕ;
  hist_alloc = [];
  hist_insert = λ h d. d ∷ h;
  hist_accumulate = λ h g. h ++ g;
}

abbrev pub errors_key : MetricKey
errors_key = record {
  timestamp = 1000;
  aggregate = false;
  immediate_flush = true;
  metric_name = codes "e";
}

abbrev all_key : MetricKey
all_key = record {
  timestamp = 1000;
  aggregate = true;
  immediate_flush = false;
  metric_name = codes "e";
}

abbrev pub seven : MetricValue small
seven = make_integer_value small 7 2000 1

abbrev table : Metrics small
table = (all_key, seven) ∷ (errors_key, seven) ∷ []

-- A flush at which neither the journal nor Kafka takes anything.
abbrev down : World small
down = record {
  now = 20000;
  marked_ms = 20001;
  json_length = λ k v. 60;
  journal_open = false;
  journal_ok = λ b. false;
  kafka_ok = λ k v. false;
}

abbrev ten_more : Request
ten_more = record {
  metric_name = codes "e";
  aggregate = false;
  count = 10;
  timestamp = 1000;
  now = 2500;
  owner = 1;
}

unflushed : decide small 20000 errors_key seven ≡ emit_json
unfolding decide
unflushed = refl

flush_kept_example :
    (v' : MetricValue small) × (find errors_key (flush small down table).table ≡ some v')
    × (v'.metric ≡ seven.metric)
unfolding find same_key equal decide
flush_kept_example =
    flush_kept small down table errors_key seven (((λ e. cc), tt), (tt, tt)) refl (λ e. cc)
      (λ e. cc)

upsert_atomic_example :
    upsert errors_key (add_integer small 10 2500) (make_integer_value small 10 2500 1) [] table
    ≡ upsert errors_key (add_integer small 10 2500) (make_integer_value small 10 2500 1) table table
unfolding find same_key equal
upsert_atomic_example =
    upsert_atomic errors_key (add_integer small 10 2500) (make_integer_value small 10 2500 1) []
      table (λ e. refl)

run-total_example :
    (t' : Metrics small) × (run small (ten_more ∷ ten_more ∷ []) [] ≡ some t')
    × Counters small t'
    × ((k : MetricKey)
        → amount small t' k ≡ (amount small [] k + total small (ten_more ∷ ten_more ∷ []) k) % u64)
unfolding find
run-total_example =
    run-total small (ten_more ∷ ten_more ∷ []) [] (omega arith, (omega arith, tt)) (λ k. tt)

flush_journaled_example :
    (find errors_key (flush small down table).table ≡ some seven)
    ⊎ Journaled small errors_key seven (flush small down table).journaled
unfolding find same_key equal
flush_journaled_example =
    flush_journaled small errors_key seven down table (((λ e. cc), tt), (tt, tt)) refl unflushed
      (λ k u. omega arith)
