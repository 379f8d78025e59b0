-- ===== src/Samples/Same.antt =====
-- What the two forms of a message with metrics have in common, and the updates for "system".
pub mod Runtimes
use tracemate.Base.{
  ℕ, Option, none, some, List, [], ◌∷◌, ◌++◌, append-nil, append_assoc, inl, inr, Bytes, codes, ◌≡◌,
  ◌⊎◌, refl, sym, ap, ap₂, ◌∙◌, arith,
}
use tracemate.Message.{Json}
use tracemate.Metric.{Numbers}
use tracemate.Samples.{Conversions, Op, At}
use tracemate.Samples.Gauges.{
  with_object, member, numeric_gauge, average_gauge, thread_count, jvm_gc, eventloop_latency,
}
use tracemate.Samples.Flat.{flat_system, flat_jvm, flat_nodejs}
use tracemate.Samples.Nested.{
  memory_part, cpu_part, process_part, nested_system, thread_part, heap_part, heaps_part, gc_part,
  nested_jvm, nodejs_heap, nodejs_eventloop, nested_nodejs,
}

module _ {A B : Type 0} where
  pub with_object-append :
      (x : Option A) (f g : A → List B)
      → with_object x (λ a. f a ++ g a) ≡ with_object x f ++ with_object x g
  with_object-append none f g = refl
  with_object-append (some a) f g = refl

module _ (json : Json) where
  open json use {Object, get}

  -- If the object is there, then so is its member.
  abbrev pub Whole : Option Object → Bytes → Type 0
  Whole parent name = (parent ≡ none) ⊎ ((o : Object) × (member json parent name ≡ some o))

  -- The parents of the values in the nested form.
  abbrev pub system_of : Object → Bytes → Option Object
  system_of m name = member json (get m (codes "system")) name

  abbrev pub jvm_of : Object → Bytes → Option Object
  jvm_of m name = member json (get m (codes "jvm")) name

  abbrev pub heap_of : Object → Bytes → Option Object
  heap_of m name = member json (jvm_of m (codes "memory")) name

  abbrev pub norm_of : Option Object → Option Object
  norm_of o = member json (member json (member json o (codes "cpu")) (codes "total")) (codes "norm")

  abbrev pub nodejs_of : Object → Bytes → Option Object
  nodejs_of m name = member json (get m (codes "nodejs")) name

  abbrev pub nodejs_heap_of : Object → Bytes → Option Object
  nodejs_heap_of m name =
      member json (member json (nodejs_of m (codes "memory")) (codes "heap")) name

  -- A member of the flat message is that of the nested one.
  abbrev pub Is : Object → Bytes → Option Object → Bytes → Type 0
  Is f flat parent name = get f flat ≡ member json parent name

  pub chain :
      {B : Type 0} (x : Option Object) (n : Bytes) (body : Object → List B)
      → with_object x (λ a. with_object (get a n) body) ≡ with_object (member json x n) body
  chain none n body = refl
  chain (some a) n body = refl

  leaf :
      {B : Type 0} (parent : Option Object) (n : Bytes) (y : Option Object)
      (g : Option Object → List B)
      → y ≡ member json parent n
      → Whole parent n
      → with_object parent (λ p. g (get p n)) ≡ with_object y (λ o. g (some o))
  leaf none n y g e w = rw e refl
  leaf (some p) n y g e (inl w) = absurd (cc)
  leaf (some p) n y g e (inr (o, w)) = rw (e, w) refl

  -- The values of a heap.
  abbrev pub IsHeapName : Bytes → Type 0
  IsHeapName name = (name ≡ codes "committed") ⊎ ((name ≡ codes "used") ⊎ (name ≡ codes "max"))

  -- What a message in the flat form says as one in the nested form does.
  pub record SameSystem (m f : Object) : Type 0 where
    pub total : Is f (codes "system.memory.total") (system_of m (codes "memory")) (codes "total")
    pub total_whole : Whole (system_of m (codes "memory")) (codes "total")
    pub free :
        Is f
          (codes "system.memory.actual.free")
          (member json (system_of m (codes "memory")) (codes "actual"))
          (codes "free")
    pub free_whole :
        Whole (member json (system_of m (codes "memory")) (codes "actual")) (codes "free")
    pub own :
        Is f
          (codes "system.process.cpu.total.norm.pct")
          (norm_of (system_of m (codes "process")))
          (codes "pct")
    pub own_whole : Whole (norm_of (system_of m (codes "process"))) (codes "pct")
    pub size :
        Is f
          (codes "system.process.memory.size")
          (member json (system_of m (codes "process")) (codes "memory"))
          (codes "size")
    pub size_whole :
        Whole (member json (system_of m (codes "process")) (codes "memory")) (codes "size")
    pub cpu :
        Is f (codes "system.cpu.total.norm.pct") (norm_of (get m (codes "system"))) (codes "pct")
    pub cpu_whole : Whole (norm_of (get m (codes "system"))) (codes "pct")

  pub record SameJvm (m f : Object) : Type 0 where
    pub count : Is f (codes "jvm.thread.count") (jvm_of m (codes "thread")) (codes "count")
    pub committed :
        Is f (codes "jvm.memory.heap.committed") (heap_of m (codes "heap")) (codes "committed")
    pub used : Is f (codes "jvm.memory.heap.used") (heap_of m (codes "heap")) (codes "used")
    pub max : Is f (codes "jvm.memory.heap.max") (heap_of m (codes "heap")) (codes "max")
    pub whole : (name : Bytes) → IsHeapName name → Whole (heap_of m (codes "heap")) name
    pub non_committed :
        Is f
          (codes "jvm.memory.non_heap.committed")
          (heap_of m (codes "non_heap"))
          (codes "committed")
    pub non_used :
        Is f (codes "jvm.memory.non_heap.used") (heap_of m (codes "non_heap")) (codes "used")
    pub non_max :
        Is f (codes "jvm.memory.non_heap.max") (heap_of m (codes "non_heap")) (codes "max")
    pub non_whole : (name : Bytes) → IsHeapName name → Whole (heap_of m (codes "non_heap")) name
    pub time : Is f (codes "jvm.gc.time") (jvm_of m (codes "gc")) (codes "time")
    pub gc_count : Is f (codes "jvm.gc.count") (jvm_of m (codes "gc")) (codes "count")
    pub alloc : Is f (codes "jvm.gc.alloc") (jvm_of m (codes "gc")) (codes "alloc")

  pub record SameNodejs (m f : Object) : Type 0 where
    pub used :
        Is f
          (codes "nodejs.memory.heap.used.bytes")
          (nodejs_heap_of m (codes "used"))
          (codes "bytes")
    pub allocated :
        Is f
          (codes "nodejs.memory.heap.allocated.bytes")
          (nodejs_heap_of m (codes "allocated"))
          (codes "bytes")
    pub ms :
        Is f
          (codes "nodejs.eventloop.delay.avg.ms")
          (member json
            (member json (nodejs_of m (codes "eventloop")) (codes "delay"))
            (codes "avg"))
          (codes "ms")

  module _ (nums : Numbers) (conversions : Conversions nums json) (at : At) where
    abbrev Ops : Type 0
    Ops = List (Op nums)

    cpu_chain :
        (x : Option Object) (name : Bytes)
        → with_object x (cpu_part nums json conversions at name)
          ≡ with_object
              (norm_of x)
              (λ norm. numeric_gauge nums json conversions at name (get norm (codes "pct")))
    unfolding cpu_part
    cpu_chain x name =
        chain x (codes "cpu") _
        ∙ chain (member json x (codes "cpu")) (codes "total") _
        ∙ chain (member json (member json x (codes "cpu")) (codes "total")) (codes "norm") _

    memory_chain :
        (x : Option Object)
        → with_object x (memory_part nums json conversions at)
          ≡ with_object (member json x (codes "memory")) (λ o.
            numeric_gauge nums json conversions at
              (codes "system - memory - total")
              (get o (codes "total")))
            ++ with_object (member json (member json x (codes "memory")) (codes "actual")) (λ o.
              numeric_gauge nums json conversions at
                (codes "system - memory - free")
                (get o (codes "free")))
    unfolding memory_part
    memory_chain x =
        chain x (codes "memory") _
        ∙ with_object-append (member json x (codes "memory")) _ _
        ∙ ap (◌++◌ _) (chain (member json x (codes "memory")) (codes "actual") _)

    process_chain :
        (x : Option Object)
        → with_object x (process_part nums json conversions at)
          ≡ with_object (norm_of (member json x (codes "process"))) (λ o.
            numeric_gauge nums json conversions at
              (codes "system - process - cpu - total - pct")
              (get o (codes "pct")))
            ++ with_object (member json (member json x (codes "process")) (codes "memory")) (λ o.
              numeric_gauge nums json conversions at
                (codes "system - process - memory - size")
                (get o (codes "size")))
    unfolding process_part
    process_chain x =
        chain x (codes "process") _
        ∙ with_object-append (member json x (codes "process")) _ _
        ∙ ap₂ ◌++◌
            (cpu_chain (member json x (codes "process"))
              (codes "system - process - cpu - total - pct"))
            (chain (member json x (codes "process")) (codes "memory") _)

    numeric_leaf :
        (name flat : Bytes) (f : Object) (parent : Option Object) (n : Bytes)
        → Is f flat parent n
        → Whole parent n
        → with_object parent (λ p. numeric_gauge nums json conversions at name (get p n))
          ≡ with_object (get f flat) (λ o. numeric_gauge nums json conversions at name (some o))
    numeric_leaf name flat f parent n =
        leaf parent n (get f flat) (numeric_gauge nums json conversions at name)

    pub average_leaf :
        (name flat : Bytes) (f : Object) (parent : Option Object) (n : Bytes)
        → Is f flat parent n
        → Whole parent n
        → with_object parent (λ p. average_gauge nums json conversions at name (get p n))
          ≡ with_object (get f flat) (λ o. average_gauge nums json conversions at name (some o))
    average_leaf name flat f parent n =
        leaf parent n (get f flat) (average_gauge nums json conversions at name)

    pub system_same :
        (m f : Object)
        → SameSystem m f
        → nested_system nums json conversions at m ≡ flat_system nums json conversions at f
    unfolding nested_system flat_system
    system_same m f h =
        let system = get m (codes "system") in
        let split =
          with_object-append system _ _
          ∙ ap₂ ◌++◌ (memory_chain system) (
              with_object-append system _ _
              ∙ ap₂ ◌++◌ (process_chain system)
                  (cpu_chain system (codes "system - cpu - total - pct"))) in
        let joined =
          ap₂ ◌++◌
            (ap₂ ◌++◌
              (numeric_leaf (codes "system - memory - total") (codes "system.memory.total") f _
                (codes "total") h.total h.total_whole)
              (numeric_leaf (codes "system - memory - free") (codes "system.memory.actual.free") f _
                (codes "free") h.free h.free_whole))
            (ap₂ ◌++◌
              (ap₂ ◌++◌
                (numeric_leaf (codes "system - process - cpu - total - pct")
                  (codes "system.process.cpu.total.norm.pct") f _ (codes "pct") h.own h.own_whole)
                (numeric_leaf (codes "system - process - memory - size")
                  (codes "system.process.memory.size") f _ (codes "size") h.size h.size_whole))
              (numeric_leaf (codes "system - cpu - total - pct") (codes "system.cpu.total.norm.pct")
                f _ (codes "pct") h.cpu h.cpu_whole)) in
        (split ∙ joined) ∙ (simp append_assoc)
