-- ===== src/Spans/Updates.antt =====
-- The updates for a span of each layer.
use tracemate.Base.{Option, none, some, List, [], ◌∷◌, ◌++◌, if◌then◌else◌, Bytes}
use tracemate.Transaction.{Context}
use tracemate.Spans.{
  Layer, db, external, internal, intternal, Measure, latency, stmt_count, call_count, Spanned, of,
  of_both, all, SpanName, SpanUpdate, measured, counted,
}

-- if (td->collect_host_level_metrics)
abbrev of_hosts : Context → List SpanUpdate → List SpanUpdate
of_hosts c updates = if c.collect_host_level_metrics then updates else []

-- With the tags over all hosts, those of the host, and those over all hosts without the rollup.
abbrev agg_name : Layer → Measure → Spanned → Context → SpanName
agg_name layer measure spanned c = record {
  layer = layer;
  measure = measure;
  spanned = spanned;
  tags = c.agg_tag_string;
  rollup = c.rollup;
}

abbrev host_name : Layer → Measure → Spanned → Context → SpanName
host_name layer measure spanned c = record (agg_name layer measure spanned c) {
  tags = c.tag_string;
}

abbrev pub service_name : Layer → Measure → Spanned → Context → SpanName
service_name layer measure spanned c = record (agg_name layer measure spanned c) { rollup = [] }

abbrev took : SpanName → Context → SpanUpdate
took name c = measured name c.duration_us c.agg_timestamp

abbrev once_more : SpanName → Context → SpanUpdate
once_more name c = counted name c.agg_timestamp

unfoldable pub subtype_updates : Context → Bytes → Option Bytes → List SpanUpdate
subtype_updates c operation none = []
subtype_updates c operation (some subtype) =
    took (agg_name db latency (of_both subtype operation) c) c
    ∷ once_more (host_name db stmt_count (of_both subtype operation) c) c
    ∷ took (agg_name db latency (of subtype) c) c
    ∷ once_more (service_name db stmt_count (of subtype) c) c
    ∷ []

unfoldable pub db_updates : Context → Bytes → Option Bytes → List SpanUpdate
unfolding subtype_updates
db_updates c operation subtype =
    took (agg_name db latency (of operation) c) c
    ∷ (of_hosts c (
          took (host_name db latency (of operation) c) c
          ∷ once_more (host_name db stmt_count (of operation) c) c
          ∷ [])
        ++ (subtype_updates c operation subtype
            ++ (took (service_name db latency all c) c
                ∷ once_more (service_name db stmt_count all c) c
                ∷ [])))

unfoldable pub external_updates : Context → Bytes → List SpanUpdate
external_updates c external_name =
    took (agg_name external latency (of external_name) c) c
    ∷ took (service_name external latency all c) c
    ∷ (of_hosts c (
          took (host_name external latency (of external_name) c) c
          ∷ once_more (host_name external call_count (of external_name) c) c
          ∷ [])
        ++ once_more (service_name external call_count all c) c ∷ [])

unfoldable pub internal_updates : Context → Bytes → List SpanUpdate
internal_updates c span_name =
    took (agg_name internal latency (of span_name) c) c
    ∷ took (service_name internal latency all c) c
    ∷ once_more (agg_name internal call_count (of span_name) c) c
    ∷ once_more (service_name internal call_count all c) c
    ∷ of_hosts c (
        took (host_name internal latency (of span_name) c) c
        ∷ once_more (host_name intternal call_count (of span_name) c) c
        ∷ [])
