-- ===== src/Kafka/Program/Consumed.antt =====
-- The consumer of src/tm_kafka.c with the handlers of src/tm_process_*.c.
use tracemate.Base.{ℕ, false, List, Option, none, some, Bytes, codes, ◌≡◌}
use tracemate.CString.{equal}
use tracemate.Metric.{Numbers}
use tracemate.Message.{Json}
use tracemate.Utils.Genericize.{Pcre}
use tracemate.Kafka.{KafkaMessage, HookAnswer, Surrounds, Consumer}
use tracemate.Kafka.Consume.{tm_kafka_consume_messages}
use tracemate.Kafka.Consume.Balance.{HandlersLeave, Consumed, consume_messages-Consumed}
use tracemate.Kafka.Program.{Given, Program, handle, handle-Leaves}

module _ (nums : Numbers) (json : Json) (Regex : Type 0) (pcre : Pcre)
    (given : Given nums json Regex pcre) (parse : Bytes → Option json.Object)
    (hook : json.Object → HookAnswer json) where
  -- What the consumer calls, on a topic of the agents, where the handler of otlp_spans is never
  -- called.
  abbrev pub agents_consumer : Surrounds json (Program nums json Regex pcre given)
  agents_consumer = record {
    parse = parse;
    hook = hook;
    handle = handle nums json Regex pcre given;
    otel = λ m s p. none;
  }

  abbrev pub leave : HandlersLeave json agents_consumer
  leave = handle-Leaves nums json Regex pcre given

  -- A batch of messages of the agents that is consumed to the end: what is returned is the greatest
  -- offset; the messages without an error were each counted as seen, and those that are JSON as
  -- processed, up to the wrap-around at 64 bits. What is not freed is one document for each that
  -- the hook made without a "processor", and one tokener for each message without an error and
  -- without a payload.
  pub program-Consumed :
      (topic : Bytes) (ms : List KafkaMessage)
      (c c' : Consumer (Program nums json Regex pcre given)) (offset : ℕ)
      (elastic : equal (codes "otlp_spans") topic ≡ false)
      → tm_kafka_consume_messages json agents_consumer topic (some ms) c ≡ some (offset, c')
      → Consumed json agents_consumer leave topic elastic 0 ms c (offset, c')
  program-Consumed topic ms c c' offset elastic =
      consume_messages-Consumed json agents_consumer leave topic elastic ms c c' offset
