-- ===== src/Samples/Flat.antt =====
-- The flat form of a message with metrics: "system.memory.total" and its kin are members of the
-- message.
use tracemate.Base.{some, List, ◌++◌, Bytes, codes}
use tracemate.Message.{Json}
use tracemate.Metric.{Numbers}
use tracemate.Samples.{Conversions, Op, At}
use tracemate.Samples.Gauges.{
  with_object, numeric_gauge, average_gauge, thread_count, jvm_gc, eventloop_latency,
}

module _ (nums : Numbers) (json : Json) (conversions : Conversions nums json) (at : At) where
  abbrev numeric_at : json.Object → Bytes → Bytes → List (Op nums)
  numeric_at m member name =
      with_object (json.get m member) λ o. numeric_gauge nums json conversions at name (some o)

  abbrev average_at : json.Object → Bytes → Bytes → List (Op nums)
  average_at m member name =
      with_object (json.get m member) λ o. average_gauge nums json conversions at name (some o)

  unfoldable pub flat_system : json.Object → List (Op nums)
  flat_system m =
      numeric_at m (codes "system.memory.total") (codes "system - memory - total")
      ++ (numeric_at m (codes "system.memory.actual.free") (codes "system - memory - free")
          ++ (numeric_at m (codes "system.process.cpu.total.norm.pct")
                (codes "system - process - cpu - total - pct")
              ++ (numeric_at m (codes "system.process.memory.size")
                    (codes "system - process - memory - size")
                  ++ numeric_at m (codes "system.cpu.total.norm.pct")
                      (codes "system - cpu - total - pct"))))

  unfoldable pub flat_jvm : json.Object → List (Op nums)
  flat_jvm m =
      with_object (json.get m (codes "jvm.thread.count"))
        (λ o. thread_count nums json conversions at (some o))
      ++ (average_at m (codes "jvm.memory.heap.committed") (codes "jvm - memory - heap - committed")
          ++ (average_at m (codes "jvm.memory.heap.used") (codes "jvm - memory - heap - used")
              ++ (average_at m (codes "jvm.memory.heap.max") (codes "jvm - memory - heap - max")
                  ++ (average_at m (codes "jvm.memory.non_heap.committed")
                        (codes "jvm - memory - non_heap - committed")
                      ++ (average_at m (codes "jvm.memory.non_heap.used")
                            (codes "jvm - memory - non_heap - used")
                          ++ (average_at m (codes "jvm.memory.non_heap.max")
                                (codes "jvm - memory - non_heap - max")
                              ++ jvm_gc nums json conversions at (json.get m (codes "jvm.gc.time"))
                                  (json.get m (codes "jvm.gc.count"))
                                  (json.get m (codes "jvm.gc.alloc"))))))))

  unfoldable pub flat_nodejs : json.Object → List (Op nums)
  flat_nodejs m =
      average_at m (codes "nodejs.memory.heap.used.bytes") (codes "nodejs - memory - heap - used")
      ++ (average_at m (codes "nodejs.memory.heap.allocated.bytes")
            (codes "nodejs - memory - heap - allocated")
          ++ with_object (json.get m (codes "nodejs.eventloop.delay.avg.ms"))
              (λ o. eventloop_latency nums json conversions at (some o)))
