-- ===== src/Spans/Performed.antt =====
-- What the updates of a span do to the table of the team.
use tracemate.Base.{ℕ, true, not, ◌&&◌, Option, some, Bytes, ◌≡◌, ◌∙◌, refl, ap, arith}
use tracemate.CString.{starts_with}
use tracemate.Metric.{Numbers}
use tracemate.Message.{Json}
use tracemate.Message.Tags.{Clock}
use tracemate.Utils.Genericize.{Pcre}
use tracemate.Transaction.{Setup}
use tracemate.Metric.Update.{Metrics}
use tracemate.Samples.{Op, counter, histogram}
use tracemate.Samples.Typed.{Agrees, Typed}
use tracemate.Samples.Typed.Names.{timed, name_type, Performs, updates-Performs}
use tracemate.Spans.{
  Layer, db, external, internal, intternal, Measure, latency, stmt_count, call_count, Spanned,
  span_metric_name, SpanUpdate, measured, counted,
}
use tracemate.Spans.Process.{SpanHandled, process_span_message}
use tracemate.Spans.Process.Counted.{
  is_layer, is_latency, Fair, located, Stores-Fair, process_span_message-Counted,
}

-- An update is a call of update_histogram or of update_counter.
abbrev pub op_of : (nums : Numbers) → SpanUpdate → Op nums
op_of nums (measured n duration_us timestamp) =
    histogram (span_metric_name n) true duration_us timestamp
op_of nums (counted n timestamp) = counter (span_metric_name n) true 1 timestamp

-- The name begins with the layer and the measure, whatever follows.
name_type-span :
    (layer : Layer) (measure : Measure) (spanned : Spanned) (tags rollup : Bytes)
    → name_type (
        span_metric_name (record {
          layer = layer;
          measure = measure;
          spanned = spanned;
          tags = tags;
          rollup = rollup;
        }))
      ≡ timed (is_latency measure && not (is_layer intternal layer))
unfolding span_metric_name starts_with
name_type-span db latency spanned tags rollup = refl
name_type-span db stmt_count spanned tags rollup = refl
name_type-span db call_count spanned tags rollup = refl
name_type-span external latency spanned tags rollup = refl
name_type-span external stmt_count spanned tags rollup = refl
name_type-span external call_count spanned tags rollup = refl
name_type-span internal latency spanned tags rollup = refl
name_type-span internal stmt_count spanned tags rollup = refl
name_type-span internal call_count spanned tags rollup = refl
name_type-span intternal latency spanned tags rollup = refl
name_type-span intternal stmt_count spanned tags rollup = refl
name_type-span intternal call_count spanned tags rollup = refl

op_of-Fair : (nums : Numbers) (u : SpanUpdate) → Fair u → Agrees nums name_type (op_of nums u)
op_of-Fair nums (measured n duration_us timestamp) fair =
    name_type-span n.layer n.measure n.spanned n.tags n.rollup ∙ ap timed fair
op_of-Fair nums (counted n timestamp) fair = (
  name_type-span n.layer n.measure n.spanned n.tags n.rollup
      ∙ ap (λ b. timed (b && not (is_layer intternal n.layer))) fair,
  omega arith,
)

-- A span message that is read to the end can be carried out on any table of the team in which
-- values have the types that their names say: histograms under the latencies of transactions and
-- spans, texts under the status of requests, counters under their other names, and anything under
-- the names of other messages. No update finds a value of another type, the table stays such a
-- table, and under each key the counter grows by the updates that go to it, modulo 2^64.
pub process_span_message-Performs :
    (nums : Numbers) (json : Json) (pcre : Pcre) (unescape : Bytes → Option Bytes) (clock : Clock)
    (setup_of : Bytes → Setup pcre) (m : json.Object) (h : SpanHandled json) (now owner : ℕ)
    (t : Metrics nums)
    → process_span_message json pcre unescape clock setup_of m ≡ some h
    → Typed nums name_type t
    → Performs nums (op_of nums) now owner h.branch.updates t
process_span_message-Performs nums json pcre unescape clock setup_of m h now owner t handled typed =
    let (x, n, stores) =
      process_span_message-Counted json pcre unescape clock setup_of m h handled in
    updates-Performs nums (op_of nums) Fair (op_of-Fair nums) now owner h.branch.updates t
      (Stores-Fair json pcre unescape (setup_of x.team) x m (located json m) h stores) typed
