-- ===== src/Samples/Gauges.antt =====
-- The recurring groups of updates in `process_metric_message`: one for the host, where its metrics
-- are collected, and one for all hosts.
use tracemate.Base.{
  true, false, Option, none, some, List, [], ◌∷◌, ◌++◌, if◌then◌else◌, Bytes, codes,
}
use tracemate.Message.{Json}
use tracemate.Metric.{Numbers, number, integer}
use tracemate.Samples.{
  Conversions, sample_name, Op, replace, numeric, average, counter, histogram, At,
}

-- if (o) …
abbrev pub with_object : {A B : Type 0} → Option A → (A → List B) → List B
with_object none body = []
with_object (some o) body = body o

-- A member of an object that may be NULL.
abbrev pub member : (json : Json) → Option json.Object → Bytes → Option json.Object
member json none name = none
member json (some o) name = json.get o name

module _ (nums : Numbers) (json : Json) (conversions : Conversions nums json) (at : At) where
  open conversions use {get_double, get_uint64, of_uint64, thousandth, thousandfold, to_uint64}

  abbrev for_host : List (Op nums) → List (Op nums)
  for_host ops = if at.collect_host_level_system then ops else []

  abbrev host_name : Bytes → Bytes
  host_name name = sample_name name at.tag_string

  abbrev all_name : Bytes → Bytes
  all_name name = sample_name name at.agg_tag_string

  unfoldable pub numeric_gauge : Bytes → Option json.Object → List (Op nums)
  numeric_gauge name o =
      for_host (replace (host_name name) (number (get_double o)) at.timestamp_ms ∷ [])
      ++ numeric (all_name name) true (get_double o) at.agg_timestamp ∷ []

  unfoldable pub average_gauge : Bytes → Option json.Object → List (Op nums)
  average_gauge name o =
      for_host (replace (host_name name) (number (get_double o)) at.timestamp_ms ∷ [])
      ++ average (all_name name) true (get_double o) at.agg_timestamp ∷ []

  unfoldable pub thread_count : Option json.Object → List (Op nums)
  thread_count o =
      for_host (
        replace (host_name (codes "jvm - thread - count")) (integer (get_uint64 o)) at.timestamp_ms
        ∷ [])
      ++ numeric (all_name (codes "jvm - thread - count")) true (of_uint64 (get_uint64 o))
          at.agg_timestamp
        ∷ []

  -- "jvm.gc": the time and the count go together.
  gc_time : Option json.Object → Option json.Object → List (Op nums)
  gc_time none count = []
  gc_time (some time) none = []
  gc_time (some time) (some count) =
      for_host (
        numeric (host_name (codes "jvm - memory - gc - total_latency")) true
          (thousandth (of_uint64 (get_uint64 (some time)))) at.agg_timestamp
        ∷ [])
      ++ (numeric (all_name (codes "jvm - memory - gc - total_latency")) true
            (thousandth (get_double (some time))) at.agg_timestamp
          ∷ (for_host (
                counter (host_name (codes "jvm - memory - gc - count")) false
                  (get_uint64 (some count)) at.timestamp_ms
                ∷ [])
              ++ average (all_name (codes "jvm - memory - gc - count")) true
                  (of_uint64 (get_uint64 (some count))) at.agg_timestamp
                ∷ []))

  gc_alloc : Option json.Object → List (Op nums)
  gc_alloc alloc = with_object alloc λ a.
      for_host (
        numeric (host_name (codes "jvm - memory - gc - alloc")) false (get_double (some a))
          at.timestamp_ms
        ∷ [])
      ++ average (all_name (codes "jvm - memory - gc - alloc")) true (get_double (some a))
          at.agg_timestamp
        ∷ []

  unfoldable pub jvm_gc :
      Option json.Object → Option json.Object → Option json.Object → List (Op nums)
  unfolding gc_time gc_alloc
  jvm_gc time count alloc = gc_time time count ++ gc_alloc alloc

  unfoldable pub eventloop_latency : Option json.Object → List (Op nums)
  eventloop_latency ms =
      let mics = thousandfold (get_double ms) in
      for_host (
        histogram (host_name (codes "nodejs - eventloop - latency")) true mics at.agg_timestamp
        ∷ [])
      ++ histogram (all_name (codes "nodejs - eventloop - latency")) true mics at.agg_timestamp ∷ []

  -- "golang.heap.gc"
  unfoldable pub golang_gc : Option json.Object → Option json.Object → List (Op nums)
  golang_gc none count = []
  golang_gc (some pause) none = []
  golang_gc (some pause) (some count) =
      let ns = to_uint64 (get_double (some pause)) in
      let n = get_uint64 (some count) in
      for_host (
        counter (host_name (codes "golang - memory - gc - total_pause_ns")) false ns
          at.agg_timestamp
        ∷ [])
      ++ (counter (all_name (codes "golang - memory - gc - total_pause_ns")) true ns
            at.agg_timestamp
          ∷ (for_host (
                counter (host_name (codes "golang - memory - gc - total_count")) false n
                  at.timestamp_ms
                ∷ [])
              ++ counter (all_name (codes "golang - memory - gc - total_count")) true n
                  at.agg_timestamp
                ∷ []))

  unfoldable pub goroutines : Option json.Object → List (Op nums)
  goroutines g = with_object g λ o.
      for_host (
        average (host_name (codes "golang - goroutines")) false (of_uint64 (get_uint64 (some o)))
          at.agg_timestamp
        ∷ [])
      ++ average (all_name (codes "golang - goroutines")) true (of_uint64 (get_uint64 (some o)))
          at.agg_timestamp
        ∷ []
