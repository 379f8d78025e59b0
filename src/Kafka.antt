-- ===== src/Kafka.antt =====
-- src/tm_kafka.c: what is done with the messages of a topic, and how one is handed to Kafka.
-- librdkafka, the reader of JSON, the hook for documents and the handlers of the events are
-- parameters.
pub mod Consume
pub mod Produce
pub mod Program
use tracemate.Base.{
  ℕ, ◌+◌, ◌-◌, Bool, true, false, ◌||◌, List, [], ◌∷◌, Option, none, some, if◌then◌else◌, Bytes,
  codes, add64,
}
use tracemate.CString.{equal}
use tracemate.Message.{Json}

-- `processor.event` of a message that is known.
pub data Event : Type 0 where
  metric transaction span error aggregate url regex : Event

-- The chain of strcmp.
unfoldable pub event_of : Bytes → Option Event
unfolding equal
event_of event =
    if equal event (codes "metric")
    then some metric
    else if equal event (codes "transaction")
    then some transaction
    else if equal event (codes "span")
    then some span
    else if equal event (codes "error")
    then some error
    else if equal event (codes "aggregate")
    then some aggregate
    else if equal event (codes "url")
    then some url
    else if equal event (codes "regex")
    then some regex
    else none

-- `topic_stats_t`, as far as it counts messages. Of the latency, `samples` is how many were
-- recorded.
pub record Stats : Type 0 where
  pub messages_seen : ℕ
  pub messages_processed : ℕ
  pub messages_errored : ℕ
  pub messages_filtered : ℕ
  pub kafka_offset : ℕ
  pub samples : ℕ

-- `rd_kafka_message_t`: the error's code, 0 where there is none, the bytes, and the offset as a bit
-- pattern.
pub record KafkaMessage : Type 0 where
  pub err : ℕ
  pub payload : Option Bytes
  pub offset : ℕ

-- What a handler leaves behind: whether it keeps the document, the counts, and its own state.
pub record Answered (S : Type 0) : Type 0 where
  pub keep : Bool
  pub stats : Stats
  pub state : S

-- What the hook for documents answers: whether MTEV_HOOK_ABORT, the document as it left it, a
-- second document, and the time to live.
pub record HookAnswer (json : Json) : Type 0 where
  pub aborts : Bool
  pub top : json.Object
  pub result : Option json.Object
  pub ttl : ℕ

-- What surrounds the consumer. `handle` is the handler of an event, given the document and its time
-- to live; `otel` that of the topic otlp_spans; `none` stands for one that goes wrong.
pub record Surrounds (json : Json) (S : Type 0) : Type 0 where
  pub parse : Bytes → Option json.Object
  pub hook : json.Object → HookAnswer json
  pub handle : Event → json.Object → ℕ → Stats → S → Option (Answered S)
  pub otel : KafkaMessage → Stats → S → Option (Answered S)

-- The counts, the state of the handlers, and how many documents and tokeners were allocated here
-- and not freed.
pub record Consumer (S : Type 0) : Type 0 where
  pub stats : Stats
  pub state : S
  pub documents : ℕ
  pub tokeners : ℕ

-- stats_add64(…, 1)
abbrev pub seen : Stats → Stats
seen s = record s { messages_seen = add64 s.messages_seen 1 }

abbrev pub processed_at : ℕ → Stats → Stats
processed_at offset s = record s {
  messages_processed = add64 s.messages_processed 1;
  kafka_offset = offset;
}

abbrev pub errored : Stats → Stats
errored s = record s { messages_errored = add64 s.messages_errored 1 }

abbrev pub filtered : Stats → Stats
filtered s = record s { messages_filtered = add64 s.messages_filtered 1 }

module _ {S : Type 0} where
  abbrev pub counting : (Stats → Stats) → Consumer S → Consumer S
  counting f c = record c { stats = f c.stats }

  abbrev pub one_document : Consumer S → Consumer S
  one_document c = record c { documents = c.documents + 1 }

  -- mtev_json_object_put, unless the document was kept
  abbrev pub put_unless : Bool → Consumer S → Consumer S
  put_unless keep c = record c { documents = c.documents - (if keep then 0 else 1) }

  abbrev pub answered : Answered S → Consumer S → Consumer S
  answered a c = record c { stats = a.stats; state = a.state }
