-- ===== src/Samples/Same/Runtimes.antt =====
-- The updates for the Java and the Node.js runtimes are the same in the two forms.
use tracemate.Base.{
  Option, none, some, List, ◌++◌, append_assoc, inl, inr, Bytes, codes, ◌≡◌, refl, ap₂, ◌∙◌,
}
use tracemate.Message.{Json}
use tracemate.Metric.{Numbers}
use tracemate.Samples.{Conversions, Op, At}
use tracemate.Samples.Gauges.{with_object, member, average_gauge, jvm_gc}
use tracemate.Samples.Flat.{flat_jvm, flat_nodejs}
use tracemate.Samples.Nested.{
  thread_part, heap_part, heaps_part, gc_part, nested_jvm, nodejs_heap, nodejs_eventloop,
  nested_nodejs,
}
use tracemate.Samples.Same.{
  with_object-append, chain, average_leaf, Is, Whole, heap_of, IsHeapName, SameJvm, SameNodejs,
}

module _ (json : Json) (nums : Numbers) (conversions : Conversions nums json) (at : At) where
  open json use {Object, get}

  abbrev Ops : Type 0
  Ops = List (Op nums)

  heap_same :
      (committed used max : Bytes) (flat_committed flat_used flat_max : Bytes) (f : Object)
      (heap : Option Object)
      → Is json f flat_committed heap (codes "committed")
      → Is json f flat_used heap (codes "used")
      → Is json f flat_max heap (codes "max")
      → ((name : Bytes) → IsHeapName json name → Whole json heap name)
      → heap_part nums json conversions at committed used max heap
        ≡ with_object
            (get f flat_committed)
            (λ o. average_gauge nums json conversions at committed (some o))
          ++ (with_object
                (get f flat_used)
                (λ o. average_gauge nums json conversions at used (some o))
              ++ with_object
                  (get f flat_max)
                  (λ o. average_gauge nums json conversions at max (some o)))
  unfolding heap_part
  heap_same committed used max fc fu fm f heap c u x whole =
      with_object-append heap _ _
      ∙ ap₂ ◌++◌
          (average_leaf json nums conversions at committed fc f heap (codes "committed") c
            (whole (codes "committed") (inl refl)))
          (with_object-append heap _ _
            ∙ ap₂ ◌++◌
                (average_leaf json nums conversions at used fu f heap (codes "used") u
                  (whole (codes "used") (inr (inl refl))))
                (average_leaf json nums conversions at max fm f heap (codes "max") x
                  (whole (codes "max") (inr (inr refl)))))

  over :
      (committed used max : Bytes) (x : Option Object) (n : Bytes)
      → with_object x (λ o. heap_part nums json conversions at committed used max (get o n))
        ≡ heap_part nums json conversions at committed used max (member json x n)
  unfolding heap_part
  over committed used max none n = refl
  over committed used max (some o) n = refl

  gc_same :
      (gc : Option Object)
      → with_object gc (λ o.
        jvm_gc nums json conversions at
          (get o (codes "time"))
          (get o (codes "count"))
          (get o (codes "alloc")))
        ≡ jvm_gc nums json conversions at
            (member json gc (codes "time"))
            (member json gc (codes "count"))
            (member json gc (codes "alloc"))
  unfolding jvm_gc
  gc_same none = refl
  gc_same (some o) = refl

  pub jvm_same :
      (m f : Object)
      → SameJvm json m f
      → nested_jvm nums json conversions at m ≡ flat_jvm nums json conversions at f
  unfolding nested_jvm flat_jvm thread_part heaps_part gc_part
  jvm_same m f h =
      let jvm = get m (codes "jvm") in
      let mem = member json jvm (codes "memory") in
      let heaps =
        heap_same (codes "jvm - memory - heap - committed") (codes "jvm - memory - heap - used")
          (codes "jvm - memory - heap - max") (codes "jvm.memory.heap.committed")
          (codes "jvm.memory.heap.used") (codes "jvm.memory.heap.max") f
          (heap_of json m (codes "heap")) h.committed h.used h.max h.whole in
      let non_heaps =
        heap_same (codes "jvm - memory - non_heap - committed")
          (codes "jvm - memory - non_heap - used") (codes "jvm - memory - non_heap - max")
          (codes "jvm.memory.non_heap.committed") (codes "jvm.memory.non_heap.used")
          (codes "jvm.memory.non_heap.max") f (heap_of json m (codes "non_heap")) h.non_committed
          h.non_used h.non_max h.non_whole in
      let split =
        with_object-append jvm _ _
        ∙ ap₂ ◌++◌
            (chain json jvm (codes "thread") _
              ∙ chain json (member json jvm (codes "thread")) (codes "count") _)
            (with_object-append jvm _ _
              ∙ ap₂ ◌++◌
                  (chain json jvm (codes "memory") _
                    ∙ with_object-append mem _ _
                    ∙ ap₂ ◌++◌ (over _ _ _ mem (codes "heap") ∙ heaps)
                        (over _ _ _ mem (codes "non_heap") ∙ non_heaps))
                  (chain json jvm (codes "gc") _ ∙ gc_same (member json jvm (codes "gc")))) in
      split ∙ (rw (h.count, h.time, h.gc_count, h.alloc) (simp append_assoc))

  pub nodejs_same :
      (m f : Object)
      → SameNodejs json m f
      → nested_nodejs nums json conversions at m ≡ flat_nodejs nums json conversions at f
  unfolding nested_nodejs flat_nodejs nodejs_heap nodejs_eventloop
  nodejs_same m f h =
      let nodejs = get m (codes "nodejs") in
      let mem = member json nodejs (codes "memory") in
      let heap = member json mem (codes "heap") in
      let split =
        with_object-append nodejs _ _
        ∙ ap₂ ◌++◌
            (chain json nodejs (codes "memory") _
              ∙ chain json mem (codes "heap") _
              ∙ with_object-append heap _ _
              ∙ ap₂ ◌++◌
                  (chain json heap (codes "used") _
                    ∙ chain json (member json heap (codes "used")) (codes "bytes") _)
                  (chain json heap (codes "allocated") _
                    ∙ chain json (member json heap (codes "allocated")) (codes "bytes") _))
            (chain json nodejs (codes "eventloop") _
              ∙ chain json (member json nodejs (codes "eventloop")) (codes "delay") _
              ∙ chain json (member json (member json nodejs (codes "eventloop")) (codes "delay"))
                  (codes "avg") _
              ∙ chain json
                  (member json
                    (member json (member json nodejs (codes "eventloop")) (codes "delay"))
                    (codes "avg"))
                  (codes "ms") _) in
      split ∙ (rw (h.used, h.allocated, h.ms) (simp append_assoc))
