-- ===== src/Kafka/Consume.antt =====
-- From `tm_kafka_handle_message` to `tm_kafka_consume_messages` of src/tm_kafka.c. `none` as a
-- result stands for a program that goes wrong: a NULL that is read.
pub mod Balance
use tracemate.Base.{
  ℕ, ◌+◌, Bool, true, false, ◌&&◌, not, List, [], ◌∷◌, Option, none, some, ltb, ◌==◌, if◌then◌else◌,
  ◌>>=◌, Bytes, codes, add64,
}
use tracemate.CString.{equal}
use tracemate.Message.{Json}
use tracemate.Transaction.Handler.{text_of}
use tracemate.Kafka.{
  Event, event_of, Stats, KafkaMessage, Answered, HookAnswer, Surrounds, Consumer, seen,
  processed_at, errored, filtered, counting, one_document, put_unless, answered,
}

module _ (json : Json) {S : Type 0} (w : Surrounds json S) where
  known : Option Event → json.Object → ℕ → Consumer S → Option (Bool × Consumer S)
  known none top ttl c = some (false, counting errored c)
  known (some event) top ttl c = do
    a ← w.handle event top ttl c.stats c.state
    some (a.keep, answered a c)

  -- The event is read without a test for NULL.
  unfoldable pub tm_kafka_handle_message :
      Option Bytes → json.Object → ℕ → Consumer S → Option (Bool × Consumer S)
  unfolding known event_of
  tm_kafka_handle_message none top ttl c = none
  tm_kafka_handle_message (some event) top ttl c = known (event_of event) top ttl c

  -- A document is handled, and put unless it is kept.
  handled : Option Bytes → json.Object → ℕ → Consumer S → Option (Consumer S)
  unfolding tm_kafka_handle_message
  handled event top ttl c = do
    (keep, c') ← tm_kafka_handle_message event top ttl c
    some (put_unless keep c')

  -- The document itself, unless the hook aborts.
  first_document : HookAnswer json → Option Bytes → Consumer S → Option (Consumer S)
  unfolding handled
  first_document h event c =
      if h.aborts
      then some (put_unless false (counting filtered c))
      else handled event h.top h.ttl c

  -- The document that the hook made, with its "processor"; without one it is not put.
  second_handled : ℕ → json.Object → Option json.Object → Consumer S → Option (Consumer S)
  unfolding handled
  second_handled ttl result none c = some c
  second_handled ttl result (some processor) c =
      handled (text_of json (json.get processor (codes "event"))) result ttl c

  -- If the hook made one.
  second_document : ℕ → Option json.Object → Consumer S → Option (Consumer S)
  unfolding second_handled
  second_document ttl none c = some c
  second_document ttl (some result) c =
      second_handled ttl result (json.get result (codes "processor")) (one_document c)

  -- A document that was parsed and counted; the handler's time is recorded at the end.
  with_processor : json.Object → Option json.Object → Consumer S → Option (Bool × Consumer S)
  unfolding first_document second_document
  with_processor top none c = some (true, put_unless false (counting errored c))
  with_processor top (some processor) c = do
    let h = w.hook top
    c1 ← first_document h (text_of json (json.get processor (codes "event"))) c
    c2 ← second_document h.ttl h.result c1
    some (true, counting (λ (s : Stats). record s { samples = s.samples + 1 }) c2)

  parsed : ℕ → Option json.Object → Consumer S → Option (Bool × Consumer S)
  unfolding with_processor
  parsed offset none c = some (false, c)
  parsed offset (some top) c =
      with_processor top (json.get top (codes "processor"))
        (counting (processed_at offset) (one_document c))

  -- Without a payload the tokener is not freed.
  with_payload : ℕ → Option Bytes → Consumer S → Option (Bool × Consumer S)
  unfolding parsed
  with_payload offset none c = some (false, record c { tokeners = c.tokeners + 1 })
  with_payload offset (some text) c = parsed offset (w.parse text) c

  -- An event of Kafka that is no message; its text is read without a test for NULL.
  no_message : Option Bytes → Consumer S → Option (Bool × Consumer S)
  no_message none c = none
  no_message (some text) c =
      some (false, if equal (codes "Broker: No more messages") text then c else counting errored c)

  unfoldable pub tm_kafka_process_message :
      Bytes → Option KafkaMessage → Consumer S → Option (Bool × Consumer S)
  unfolding with_payload no_message
  tm_kafka_process_message topic none c = none
  tm_kafka_process_message topic (some m) c =
      if not (m.err == 0)
      then no_message m.payload c
      else if equal (codes "otlp_spans") topic
      then (do a ← w.otel m (seen c.stats) c.state; some (a.keep, answered a c))
      else with_payload m.offset m.payload (counting seen c)

  -- The loop over a batch. The offsets are compared as unsigned numbers.
  unfoldable pub consume_loop : Bytes → ℕ → List KafkaMessage → Consumer S → Option (ℕ × Consumer S)
  unfolding tm_kafka_process_message
  consume_loop topic offset [] c = some (offset, c)
  consume_loop topic offset (m ∷ ms) c = do
    (b, c') ← tm_kafka_process_message topic (some m) c
    consume_loop topic (if ltb offset m.offset then m.offset else offset) ms c'

  -- The batch is `none` where librdkafka answers -1.
  unfoldable pub tm_kafka_consume_messages :
      Bytes → Option (List KafkaMessage) → Consumer S → Option (ℕ × Consumer S)
  unfolding consume_loop
  tm_kafka_consume_messages topic none c = some (0, c)
  tm_kafka_consume_messages topic (some ms) c = consume_loop topic 0 ms c
