-- ===== src/Samples/Typed/Names.antt =====
-- The types that the names of src/tm_process_transaction.c, src/tm_process_elastic_span.c and
-- src/tm_process_otel_span.cc stand for, and the updates of these handlers as changes of a table.
use tracemate.Base.{
  ℕ, ◌+◌, ◌%◌, Bool, true, false, List, [], ◌∷◌, Option, none, some, if◌then◌else◌, ◌≡◌, All, map,
  ◌||◌, u64, Bytes, codes, arith,
}
use tracemate.CString.{starts_with}
use tracemate.Metric.{Numbers, MetricKey}
use tracemate.Metric.Table.{find}
use tracemate.Metric.Update.{Metrics}
use tracemate.Metric.Counter.{amount}
use tracemate.Samples.{Op, perform_all}
use tracemate.Samples.Typed.{
  ValueType, a_count, some_durations, some_words, anything, HoldsType, added_to, Typed, Agrees,
  perform_all-Typed,
}

-- The names under which durations are kept, and not counts: those of the spans of an Elastic agent,
-- of transactions, and of OpenTelemetry.
abbrev pub is_latency_name : Bytes → Bool
is_latency_name name =
    starts_with (codes "db - latency - ") name
    || starts_with (codes "external - latency - ") name
    || starts_with (codes "internal - latency - ") name
    || starts_with (codes "transaction - latency - ") name
    || starts_with (codes "latency|ST[") name

-- And those of counters. The third is a misspelling of the source.
abbrev pub is_count_name : Bytes → Bool
is_count_name name =
    starts_with (codes "db - ") name
    || starts_with (codes "external - ") name
    || starts_with (codes "intternal - ") name
    || starts_with (codes "internal - ") name
    || starts_with (codes "transaction - ") name
    || starts_with (codes "request_count|ST[") name
    || starts_with (codes "error_count|ST[") name
    || starts_with (codes "execution_count|ST[") name

abbrev pub timed : Bool → ValueType
timed true = some_durations
timed false = a_count

-- The status of a request is kept as a text.
abbrev pub name_type : Bytes → ValueType
name_type name =
    if starts_with (codes "transaction - status_code - ") name
    then some_words
    else if is_latency_name name || is_count_name name
    then timed (is_latency_name name)
    else anything

-- The updates of a handler, as such updates of the table.
module _ {ℓ} (nums : Numbers) {U : Type ℓ} (op_of : U → Op nums) where
  abbrev pub performed : ℕ → ℕ → List U → Metrics nums → Option (Metrics nums)
  performed now owner updates = perform_all nums now owner (map op_of updates)

  -- The updates succeed, the table stays as its names say, and the counters grow by what goes to
  -- them.
  abbrev pub Performs : ℕ → ℕ → List U → Metrics nums → Type 0
  Performs now owner updates t =
      (t' : Metrics nums) × (performed now owner updates t ≡ some t')
      × Typed nums name_type t'
      × ((k : MetricKey)
          → amount nums t' k ≡ (amount nums t k + added_to nums k (map op_of updates)) % u64)

  module _ {κ} (Fair : U → Type κ) (fair : (u : U) → Fair u → Agrees nums name_type (op_of u)) where
    All-map-Agrees :
        (updates : List U) → All Fair updates → All (Agrees nums name_type) (map op_of updates)
    All-map-Agrees [] h = tt
    All-map-Agrees (u ∷ updates) h = (fair u h.0, All-map-Agrees updates h.1)

    pub updates-Performs :
        (now owner : ℕ) (updates : List U) (t : Metrics nums)
        → All Fair updates
        → Typed nums name_type t
        → Performs now owner updates t
    updates-Performs now owner updates t h =
        perform_all-Typed nums name_type now owner (map op_of updates) t (All-map-Agrees updates h)

-- An empty table is such a table.
pub empty-Typed : (nums : Numbers) → Typed nums name_type []
unfolding find
empty-Typed nums k = empty_holds (name_type k.metric_name)
  where
    empty_holds : (type : ValueType) → HoldsType nums type none
    empty_holds a_count = tt
    empty_holds some_durations = tt
    empty_holds some_words = tt
    empty_holds anything = omega arith
