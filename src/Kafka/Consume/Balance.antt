-- ===== src/Kafka/Consume/Balance.antt =====
-- What a batch of messages adds to the counts, and what it leaves allocated.
use tracemate.Base.{
  ℕ, ◌+◌, ◌-◌, ◌%◌, Bool, true, false, not, List, [], ◌∷◌, Option, none, some, ltb, ◌==◌,
  if◌then◌else◌, ◌>>=◌, Bytes, codes, u64, Holds, Holds-some, Holds-map, Holds->>=, Bool-cases, inl,
  inr, ◌≡◌, refl, arith,
}
use tracemate.CString.{equal}
use tracemate.Message.{Json}
use tracemate.Transaction.Handler.{text_of}
use tracemate.Kafka.{
  Event, event_of, Stats, KafkaMessage, Answered, HookAnswer, Surrounds, Consumer, seen,
  processed_at, counting, one_document,
}
use tracemate.Kafka.Consume.{
  known, tm_kafka_handle_message, handled, first_document, second_handled, second_document,
  with_processor, parsed, with_payload, no_message, tm_kafka_process_message, consume_loop,
  tm_kafka_consume_messages,
}

abbrev max : ℕ → ℕ → ℕ
max a b = if ltb a b then b else a

abbrev pub greatest : ℕ → List KafkaMessage → ℕ
greatest offset [] = offset
greatest offset (m ∷ ms) = greatest (max offset m.offset) ms

-- A handler that keeps no document and counts nothing but errors and messages that are left out.
abbrev pub Leaves : {S : Type 0} → Stats → Answered S → Type 0
Leaves s a =
    (a.keep ≡ false)
    × (a.stats.messages_seen ≡ s.messages_seen)
    × (a.stats.messages_processed ≡ s.messages_processed)
    × (a.stats.kafka_offset ≡ s.kafka_offset)

module _ (json : Json) {S : Type 0} (w : Surrounds json S) where
  abbrev pub HandlersLeave : Type 0
  HandlersLeave =
      (event : Event) (top : json.Object) (ttl : ℕ) (s : Stats) (x : S)
      → Holds (Leaves s) (w.handle event top ttl s x)

  -- The counts of messages stay, and so many documents are allocated then.
  abbrev Moved : ℕ → Consumer S → Consumer S → Type 0
  Moved d c c' =
      (c'.stats.messages_seen ≡ c.stats.messages_seen)
      × (c'.stats.messages_processed ≡ c.stats.messages_processed)
      × (c'.stats.kafka_offset ≡ c.stats.kafka_offset)
      × (c'.tokeners ≡ c.tokeners)
      × (c'.documents ≡ d)

  Moved-trans : (d e : ℕ) (c c1 c2 : Consumer S) → Moved d c c1 → Moved e c1 c2 → Moved e c c2
  Moved-trans d e c c1 c2 h k = ground arith

  abbrev LetGo : Consumer S → Bool × Consumer S → Type 0
  LetGo c r = (r.0 ≡ false) × Moved c.documents c r.1

  -- What stays allocated of a document with or without a "processor".
  abbrev unprocessed : Option json.Object → ℕ
  unprocessed none = 1
  unprocessed (some processor) = 0

  abbrev leak_of : Option json.Object → ℕ
  leak_of none = 0
  leak_of (some result) = unprocessed (json.get result (codes "processor"))

  abbrev hooked : json.Object → Option json.Object → ℕ
  hooked top none = 0
  hooked top (some processor) = leak_of (w.hook top).result

  module _ (laws : HandlersLeave) where
    known-LetGo :
        (event : Option Event) (top : json.Object) (ttl : ℕ) (c : Consumer S)
        → Holds (LetGo c) (known json w event top ttl c)
    unfolding known
    known-LetGo none top ttl c = ground arith
    known-LetGo (some event) top ttl c =
        Holds->>= (Leaves c.stats) (LetGo c) (w.handle event top ttl c.stats c.state) _
          (laws event top ttl c.stats c.state) (λ a h. ground arith)

    handled-Moved :
        (event : Option Bytes) (top : json.Object) (ttl : ℕ) (c : Consumer S)
        → Holds (Moved (c.documents - 1) c) (handled json w event top ttl c)
    unfolding handled tm_kafka_handle_message
    handled-Moved none top ttl c = tt
    handled-Moved (some event) top ttl c =
        Holds->>= (LetGo c) (Moved (c.documents - 1) c) (known json w (event_of event) top ttl c) _
          (known-LetGo (event_of event) top ttl c) (λ r h. ground arith)

    first-Moved :
        (h : HookAnswer json) (event : Option Bytes) (c : Consumer S)
        → Holds (Moved (c.documents - 1) c) (first_document json w h event c)
    unfolding first_document
    first-Moved h event c = elim (Bool-cases h.aborts) [
      | inl on ↦ rw on (ground arith)
      | inr off ↦ rw off (handled-Moved event h.top h.ttl c)
    ]

    second_handled-Moved :
        (ttl : ℕ) (result : json.Object) (processor : Option json.Object) (c : Consumer S)
        → Holds
            (Moved (c.documents + unprocessed processor) c)
            (second_handled json w ttl result processor (one_document c))
    unfolding second_handled
    second_handled-Moved ttl result none c = ground arith
    second_handled-Moved ttl result (some processor) c =
        Holds-map (Moved (c.documents + 1 - 1) (one_document c)) (Moved (c.documents + 0) c) _
          (handled-Moved (text_of json (json.get processor (codes "event"))) result ttl
            (one_document c))
          (λ c' h. ground arith)

    second-Moved :
        (ttl : ℕ) (result : Option json.Object) (c : Consumer S)
        → Holds (Moved (c.documents + leak_of result) c) (second_document json w ttl result c)
    unfolding second_document
    second-Moved ttl none c = ground arith
    second-Moved ttl (some result) c =
        second_handled-Moved ttl result (json.get result (codes "processor")) c

    with_processor-Moved :
        (top : json.Object) (processor : Option json.Object) (c : Consumer S)
        → Holds
            (λ (r : Bool × Consumer S). Moved (c.documents + hooked top processor) c r.1)
            (with_processor json w top processor (one_document c))
    unfolding with_processor
    with_processor-Moved top none c = ground arith
    with_processor-Moved top (some processor) c =
        let h = w.hook top in
        let Q = λ (r : Bool × Consumer S). Moved (c.documents + leak_of h.result) c r.1 in
        Holds->>= (Moved (c.documents + 1 - 1) (one_document c)) Q
          (first_document json w h (text_of json (json.get processor (codes "event")))
            (one_document c))
          _ (first-Moved h (text_of json (json.get processor (codes "event"))) (one_document c))
          (λ c1 first.
            Holds->>= (Moved (c1.documents + leak_of h.result) c1) Q
              (second_document json w h.ttl h.result c1) _ (second-Moved h.ttl h.result c1)
              (λ c2 second. ground arith))

  -- The document that a message is.
  abbrev document_of : Bool → Option Bytes → Option json.Object
  document_of true payload = payload >>= w.parse
  document_of false payload = none

  abbrev document : KafkaMessage → Option json.Object
  document m = document_of (m.err == 0) m.payload

  abbrev leak : Option json.Object → ℕ
  leak none = 0
  leak (some top) = hooked top (json.get top (codes "processor"))

  abbrev one_if : Option json.Object → ℕ
  one_if none = 0
  one_if (some top) = 1

  abbrev no_payload : Option Bytes → ℕ
  no_payload none = 1
  no_payload (some text) = 0

  abbrev one_if_seen : Bool → ℕ
  one_if_seen b = if b then 1 else 0

  abbrev no_payload_of : Bool → Option Bytes → ℕ
  no_payload_of b payload = if b then no_payload payload else 0

  -- Of a list of messages: those that are seen, those that are documents, how many documents made
  -- by the hook have no "processor", and how many messages have no payload.
  abbrev pub count_seen : List KafkaMessage → ℕ
  count_seen [] = 0
  count_seen (m ∷ ms) = one_if_seen (m.err == 0) + count_seen ms

  abbrev pub count_documents : List KafkaMessage → ℕ
  count_documents [] = 0
  count_documents (m ∷ ms) = one_if (document m) + count_documents ms

  abbrev pub count_leaks : List KafkaMessage → ℕ
  count_leaks [] = 0
  count_leaks (m ∷ ms) = leak (document m) + count_leaks ms

  abbrev pub count_no_payload : List KafkaMessage → ℕ
  count_no_payload [] = 0
  count_no_payload (m ∷ ms) = no_payload_of (m.err == 0) m.payload + count_no_payload ms

  -- The counts, as they wrap around at 64 bits.
  abbrev pub Grown : List KafkaMessage → Consumer S → Consumer S → Type 0
  Grown ms c c' =
      (c'.stats.messages_seen % u64 ≡ (c.stats.messages_seen + count_seen ms) % u64)
      × (c'.stats.messages_processed % u64
          ≡ (c.stats.messages_processed + count_documents ms) % u64)
      × (c'.documents ≡ c.documents + count_leaks ms)
      × (c'.tokeners ≡ c.tokeners + count_no_payload ms)

  Grown-trans :
      (m : KafkaMessage) (ms : List KafkaMessage) (c c1 c2 : Consumer S)
      → Grown (m ∷ []) c c1
      → Grown ms c1 c2
      → Grown (m ∷ ms) c c2
  Grown-trans m ms c c1 c2 h k = omega arith

  module _ (laws : HandlersLeave) (topic : Bytes)
      (elastic : equal (codes "otlp_spans") topic ≡ false) where
    -- The same of the parts of the handler, which find the message counted already.
    abbrev Added : Option json.Object → ℕ → Consumer S → Bool × Consumer S → Type 0
    Added top tokeners c r =
        (r.1.stats.messages_seen ≡ c.stats.messages_seen)
        × (r.1.stats.messages_processed % u64 ≡ (c.stats.messages_processed + one_if top) % u64)
        × (r.1.documents ≡ c.documents + leak top)
        × (r.1.tokeners ≡ c.tokeners + tokeners)

    parsed-Added :
        (offset : ℕ) (top : Option json.Object) (c : Consumer S)
        → Holds (Added top 0 c) (parsed json w offset top c)
    unfolding parsed
    parsed-Added offset none c = omega arith
    parsed-Added offset (some top) c =
        let p = json.get top (codes "processor") in
        let c0 = counting (processed_at offset) c in
        Holds-map (λ (r : Bool × Consumer S). Moved (c0.documents + hooked top p) c0 r.1)
          (Added (some top) 0 c) _ (with_processor-Moved laws top p c0) (λ r h. omega arith)

    with_payload-Added :
        (offset : ℕ) (payload : Option Bytes) (c : Consumer S)
        → Holds
            (Added (payload >>= w.parse) (no_payload payload) c)
            (with_payload json w offset payload c)
    unfolding with_payload
    with_payload-Added offset none c = omega arith
    with_payload-Added offset (some text) c = parsed-Added offset (w.parse text) c

    abbrev Unchanged : Consumer S → Bool × Consumer S → Type 0
    Unchanged c r =
        (r.1.stats.messages_seen ≡ c.stats.messages_seen)
        × (r.1.stats.messages_processed ≡ c.stats.messages_processed)
        × (r.1.documents ≡ c.documents)
        × (r.1.tokeners ≡ c.tokeners)

    no_message-Grown :
        (payload : Option Bytes) (c : Consumer S)
        → Holds (Unchanged c) (no_message json w payload c)
    unfolding no_message
    no_message-Grown none c = tt
    no_message-Grown (some text) c =
        elim (Bool-cases (equal (codes "Broker: No more messages") text)) [
          | inl none_left ↦ rw none_left (refl, refl, refl, refl)
          | inr other ↦ rw other (refl, refl, refl, refl)
        ]

    abbrev GrownBy : Bool → Option Bytes → Consumer S → Bool × Consumer S → Type 0
    GrownBy b payload c r =
        (r.1.stats.messages_seen % u64 ≡ (c.stats.messages_seen + (one_if_seen b + 0)) % u64)
        × (r.1.stats.messages_processed % u64
            ≡ (c.stats.messages_processed + (one_if (document_of b payload) + 0)) % u64)
        × (r.1.documents ≡ c.documents + (leak (document_of b payload) + 0))
        × (r.1.tokeners ≡ c.tokeners + (no_payload_of b payload + 0))

    process-GrownBy :
        (b : Bool) (m : KafkaMessage) (c : Consumer S)
        → Holds (GrownBy b m.payload c) (
            if not b
            then no_message json w m.payload c
            else with_payload json w m.offset m.payload (counting seen c))
    process-GrownBy true m c =
        Holds-map (Added (m.payload >>= w.parse) (no_payload m.payload) (counting seen c))
          (GrownBy true m.payload c) _ (with_payload-Added m.offset m.payload (counting seen c))
          (λ r h. omega arith)
    process-GrownBy false m c =
        Holds-map (Unchanged c) (GrownBy false m.payload c) _ (no_message-Grown m.payload c)
          (λ r h. omega arith)

    process-Grown :
        (m : KafkaMessage) (c : Consumer S)
        → Holds
            (λ (r : Bool × Consumer S). Grown (m ∷ []) c r.1)
            (tm_kafka_process_message json w topic (some m) c)
    unfolding tm_kafka_process_message
    process-Grown m c = rw elastic (process-GrownBy (m.err == 0) m c)

    abbrev pub Consumed : ℕ → List KafkaMessage → Consumer S → ℕ × Consumer S → Type 0
    Consumed offset ms c r = (r.0 ≡ greatest offset ms) × Grown ms c r.1

    consume_loop-Consumed :
        (offset : ℕ) (ms : List KafkaMessage) (c : Consumer S)
        → Holds (Consumed offset ms c) (consume_loop json w topic offset ms c)
    unfolding consume_loop
    consume_loop-Consumed offset [] c = omega arith
    consume_loop-Consumed offset (m ∷ ms) c =
        Holds->>= (λ (r : Bool × Consumer S). Grown (m ∷ []) c r.1) (Consumed offset (m ∷ ms) c)
          (tm_kafka_process_message json w topic (some m) c) _ (process-Grown m c)
          (λ r h.
            Holds-map (Consumed (max offset m.offset) ms r.1) (Consumed offset (m ∷ ms) c) _
              (consume_loop-Consumed (max offset m.offset) ms r.1)
              (λ q k. (k.0, Grown-trans m ms c r.1 q.1 h k.1)))

    -- A batch of a topic other than otlp_spans that is consumed to the end, by handlers that keep
    -- no document and leave the counts of messages alone: what is returned is the greatest offset;
    -- the messages without an error were each counted as seen, and those that are JSON as
    -- processed, up to the wrap-around at 64 bits. What is not freed is one document for each that
    -- the hook made without a "processor", and one tokener for each message without an error and
    -- without a payload.
    pub consume_messages-Consumed :
        (ms : List KafkaMessage) (c c' : Consumer S) (offset : ℕ)
        → tm_kafka_consume_messages json w topic (some ms) c ≡ some (offset, c')
        → Consumed 0 ms c (offset, c')
    unfolding tm_kafka_consume_messages
    consume_messages-Consumed ms c c' offset =
        Holds-some (Consumed 0 ms c) (consume_loop json w topic 0 ms c)
          (consume_loop-Consumed 0 ms c)
