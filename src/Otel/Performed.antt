-- ===== src/Otel/Performed.antt =====
-- What the updates of a span of OpenTelemetry do to the table of the team.
use tracemate.Base.{ℕ, true, List, Option, none, some, Bytes, ◌≡◌, ◌∙◌, refl, ap, arith}
use tracemate.CString.{starts_with}
use tracemate.Metric.{Numbers}
use tracemate.Metric.Update.{Metrics}
use tracemate.Samples.{Op, counter, histogram}
use tracemate.Samples.Typed.{Agrees, Typed}
use tracemate.Samples.Typed.Names.{timed, name_type, Performs, updates-Performs}
use tracemate.Otel.{JaegerSpan, ProcessOf}
use tracemate.Otel.Updates.{
  OtelMeasure, latency, request_count, error_count, execution_count, Among, otel_metric_name,
  OtelUpdate, measured, counted,
}
use tracemate.Otel.Process.{OtelHandled, otel_process_jaeger_span}
use tracemate.Otel.Process.Balanced.{
  is_latency, Fair, Counts-Fair, own_name, Told, otel_process_jaeger_span-Told,
}

-- An update is a call of update_histogram or of update_counter, with the span's duration and time.
abbrev pub op_of : (nums : Numbers) → OtelHandled → OtelUpdate → Op nums
op_of nums h (measured n) =
    histogram (otel_metric_name n h.agg_tag_string) true h.duration_us h.agg_timestamp
op_of nums h (counted n) = counter (otel_metric_name n h.agg_tag_string) true 1 h.agg_timestamp

-- The name begins with the measure, whatever the tags are.
name_type-otel :
    (measure : OtelMeasure) (before behind : List (Bytes × Bytes)) (key agg : Bytes) (among : Among)
    → name_type (
        otel_metric_name
          (record { measure = measure; before = before; key = key; among = among; behind = behind })
          agg)
      ≡ timed (is_latency measure)
unfolding otel_metric_name starts_with
name_type-otel latency before behind key agg among = refl
name_type-otel request_count before behind key agg among = refl
name_type-otel error_count before behind key agg among = refl
name_type-otel execution_count before behind key agg among = refl

op_of-Fair :
    (nums : Numbers) (h : OtelHandled) (u : OtelUpdate)
    → Fair u
    → Agrees nums name_type (op_of nums h u)
op_of-Fair nums h (measured n) fair =
    name_type-otel n.measure n.before n.behind n.key h.agg_tag_string n.among ∙ ap timed fair
op_of-Fair nums h (counted n) fair = (
  name_type-otel n.measure n.before n.behind n.key h.agg_tag_string n.among ∙ ap timed fair,
  omega arith,
)

-- What is said of a span that is handled.
abbrev pub Carried : (nums : Numbers) → ℕ → ℕ → Metrics nums → Option OtelHandled → Type 0
Carried nums now owner t none = Unit {0}
Carried nums now owner t (some h) = Performs nums (op_of nums h) now owner h.updates t

Told-Carried :
    (nums : Numbers) (now owner : ℕ) (print_int : ℕ → Bytes) (s : JaegerSpan) (t : Metrics nums)
    (freq : Bytes → ℕ) (p : Option ProcessOf) (h : Option OtelHandled)
    → Told print_int s freq p h
    → Typed nums name_type t
    → Carried nums now owner t h
Told-Carried nums now owner print_int s t freq p none told typed = tt
Told-Carried nums now owner print_int s t freq none (some h) told typed = absurd (cc)
Told-Carried nums now owner print_int s t freq (some p) (some h)
      (us, window, (kind, of_kind, counts)) typed =
    updates-Performs nums (op_of nums h) Fair (op_of-Fair nums h) now owner h.updates t
      (Counts-Fair _ (own_name kind s) h.updates counts) typed

-- A span of OpenTelemetry that is handled can be carried out on any table of the team in which
-- values have the types that their names say: histograms under the latencies of transactions and
-- spans, texts under the status of requests, counters under their other names, and anything under
-- the names of other messages. No update finds a value of another type, the table stays such a
-- table, and under each key the counter grows by the updates that go to it, modulo 2^64.
pub otel_process_jaeger_span-Carried :
    (nums : Numbers) (now owner : ℕ) (print_int : ℕ → Bytes) (s : JaegerSpan)
    (metric_flush_freq_ms : Bytes → ℕ) (h : Option OtelHandled) (t : Metrics nums)
    → otel_process_jaeger_span print_int metric_flush_freq_ms (some s) ≡ some h
    → Typed nums name_type t
    → Carried nums now owner t h
otel_process_jaeger_span-Carried nums now owner print_int s metric_flush_freq_ms h t handled typed =
    Told-Carried nums now owner print_int s t metric_flush_freq_ms s.process h
      (otel_process_jaeger_span-Told print_int s metric_flush_freq_ms h handled) typed
