-- ===== src/Spans.antt =====
-- src/tm_process_elastic_span.c: which metrics a span of an Elastic agent updates, and what goes to
-- the transaction store. The handler does not read what it writes, so that its result is a list of
-- what it does.
pub mod Subtype
pub mod Updates
pub mod Process
pub mod Hosts
pub mod Performed
use tracemate.Base.{ℕ, ◌++◌, Bytes, codes, take}

-- On what a span spends its time. The last one is a misspelling of the source.
pub data Layer : Type 0 where
  db external internal intternal : Layer

abbrev layer_text : Layer → Bytes
layer_text db = codes "db"
layer_text external = codes "external"
layer_text internal = codes "internal"
layer_text intternal = codes "intternal"

pub data Measure : Type 0 where
  latency stmt_count call_count : Measure

abbrev measure_text : Measure → Bytes
measure_text latency = codes "latency"
measure_text stmt_count = codes "stmt_count"
measure_text call_count = codes "call_count"

-- Of which spans: those of a name, those of a subtype and a name, or all of the service.
pub data Spanned : Type 0 where
  of : Bytes → Spanned
  of_both : Bytes → Bytes → Spanned
  all : Spanned

abbrev spanned_text : Spanned → Bytes
spanned_text (of name) = name
spanned_text (of_both subtype name) = subtype ++ (codes " - " ++ name)
spanned_text all = codes "all"

pub record SpanName : Type 0 where
  pub layer : Layer
  pub measure : Measure
  pub spanned : Spanned
  pub tags : Bytes
  pub rollup : Bytes

-- snprintf(metric_name, sizeof(metric_name) - 1, "… - … - %s|ST[%s%s]", …)
unfoldable pub span_metric_name : SpanName → Bytes
span_metric_name n = take 4094 (
    layer_text n.layer
    ++ (codes " - "
        ++ (measure_text n.measure
            ++ (codes " - "
                ++ (spanned_text n.spanned
                    ++ (codes "|ST[" ++ (n.tags ++ (n.rollup ++ codes "]"))))))))

-- The updates of the team's table, each with the flag `aggregate` set: a duration at a time, and
-- one more at a time.
pub data SpanUpdate : Type 0 where
  measured : SpanName → ℕ → ℕ → SpanUpdate
  counted : SpanName → ℕ → SpanUpdate
