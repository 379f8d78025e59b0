-- ===== src/Samples/Nested.antt =====
-- The nested form of a message with metrics.
use tracemate.Base.{Option, some, List, ◌++◌, Bytes, codes}
use tracemate.Message.{Json}
use tracemate.Metric.{Numbers}
use tracemate.Samples.{Conversions, Op, At}
use tracemate.Samples.Gauges.{
  with_object, member, numeric_gauge, average_gauge, thread_count, jvm_gc, eventloop_latency,
  golang_gc, goroutines,
}

module _ (nums : Numbers) (json : Json) (conversions : Conversions nums json) (at : At) where
  open json use {Object, get}

  abbrev numeric_of : Bytes → Option Object → List (Op nums)
  numeric_of = numeric_gauge nums json conversions at

  abbrev average_of : Bytes → Option Object → List (Op nums)
  average_of = average_gauge nums json conversions at

  unfoldable pub memory_part : Object → List (Op nums)
  memory_part system = with_object (get system (codes "memory")) λ mem.
      numeric_of (codes "system - memory - total") (get mem (codes "total"))
      ++ with_object (get mem (codes "actual"))
          (λ actual. numeric_of (codes "system - memory - free") (get actual (codes "free")))

  -- The part of the processor, in "process" and in "system".
  unfoldable pub cpu_part : Bytes → Object → List (Op nums)
  cpu_part name o = with_object (get o (codes "cpu")) λ cpu.
      with_object (get cpu (codes "total")) λ total.
        with_object (get total (codes "norm")) λ norm. numeric_of name (get norm (codes "pct"))

  unfoldable pub process_part : Object → List (Op nums)
  unfolding cpu_part
  process_part system = with_object (get system (codes "process")) λ process.
      cpu_part (codes "system - process - cpu - total - pct") process
      ++ with_object (get process (codes "memory"))
          (λ mems. numeric_of (codes "system - process - memory - size") (get mems (codes "size")))

  unfoldable pub nested_system : Object → List (Op nums)
  unfolding memory_part process_part cpu_part
  nested_system m = with_object (get m (codes "system")) λ system.
      memory_part system
      ++ (process_part system ++ cpu_part (codes "system - cpu - total - pct") system)

  unfoldable pub thread_part : Object → List (Op nums)
  thread_part jvm = with_object (get jvm (codes "thread")) λ thread.
      with_object (get thread (codes "count"))
        λ count. thread_count nums json conversions at (some count)

  -- "heap" and "non_heap", with the three names.
  unfoldable pub heap_part : Bytes → Bytes → Bytes → Option Object → List (Op nums)
  heap_part committed used max heap = with_object heap λ h.
      average_of committed (get h (codes "committed"))
      ++ (average_of used (get h (codes "used")) ++ average_of max (get h (codes "max")))

  unfoldable pub heaps_part : Object → List (Op nums)
  unfolding heap_part
  heaps_part jvm = with_object (get jvm (codes "memory")) λ mem.
      heap_part (codes "jvm - memory - heap - committed") (codes "jvm - memory - heap - used")
        (codes "jvm - memory - heap - max") (get mem (codes "heap"))
      ++ heap_part (codes "jvm - memory - non_heap - committed")
          (codes "jvm - memory - non_heap - used") (codes "jvm - memory - non_heap - max")
          (get mem (codes "non_heap"))

  unfoldable pub gc_part : Object → List (Op nums)
  gc_part jvm = with_object (get jvm (codes "gc")) λ gc.
      jvm_gc nums json conversions at (get gc (codes "time")) (get gc (codes "count"))
        (get gc (codes "alloc"))

  unfoldable pub nested_jvm : Object → List (Op nums)
  unfolding thread_part heaps_part gc_part
  nested_jvm m =
      with_object (get m (codes "jvm")) λ jvm. thread_part jvm ++ (heaps_part jvm ++ gc_part jvm)

  abbrev bytes_of : Bytes → Option Object → List (Op nums)
  bytes_of name o =
      with_object o λ x. with_object (get x (codes "bytes")) λ bytes. average_of name (some bytes)

  unfoldable pub nodejs_heap : Object → List (Op nums)
  nodejs_heap nodejs = with_object (get nodejs (codes "memory")) λ mem.
      with_object (get mem (codes "heap")) λ heap.
        bytes_of (codes "nodejs - memory - heap - used") (get heap (codes "used"))
        ++ bytes_of (codes "nodejs - memory - heap - allocated") (get heap (codes "allocated"))

  unfoldable pub nodejs_eventloop : Object → List (Op nums)
  nodejs_eventloop nodejs = with_object (get nodejs (codes "eventloop")) λ eventloop.
      with_object (get eventloop (codes "delay")) λ delay.
        with_object (get delay (codes "avg")) λ avg.
          with_object (get avg (codes "ms"))
            λ ms. eventloop_latency nums json conversions at (some ms)

  unfoldable pub nested_nodejs : Object → List (Op nums)
  unfolding nodejs_heap nodejs_eventloop
  nested_nodejs m =
      with_object (get m (codes "nodejs")) λ nodejs. nodejs_heap nodejs ++ nodejs_eventloop nodejs

  unfoldable pub golang_heap : Option Object → List (Op nums)
  golang_heap heap = with_object heap λ h. with_object (get h (codes "allocations")) λ allocations.
      with_object (get allocations (codes "allocated"))
        λ active. average_of (codes "golang - memory - heap - used") (some active)

  unfoldable pub golang_gc_part : Option Object → List (Op nums)
  golang_gc_part heap = with_object (member json heap (codes "gc")) λ gc.
      golang_gc nums json conversions at (member json (get gc (codes "total_pause")) (codes "ns"))
        (get gc (codes "total_count"))

  unfoldable pub nested_golang : Object → List (Op nums)
  unfolding golang_heap golang_gc_part
  nested_golang m = with_object (get m (codes "golang")) λ golang.
      golang_heap (get golang (codes "heap"))
      ++ (golang_gc_part (get golang (codes "heap"))
          ++ goroutines nums json conversions at (get golang (codes "goroutines")))
