-- ===== src/Tests/Kafka.antt =====
-- src/tm_kafka.c on a small batch, and on the answers of a queue that is full twice.
use tracemate.Base.{
  ℕ, ◌*◌, ◌/◌, Bytes, length, true, false, List, [], ◌∷◌, Option, none, some, if◌then◌else◌, codes,
  ◌≡◌, ◌↔◌, refl,
}
use tracemate.CString.{equal, starts_with, strchr}
use tracemate.Message.{Json}
use tracemate.Kafka.{KafkaMessage, Surrounds, Consumer, HookAnswer}
use tracemate.Kafka.Program.{Given, Program, handle}
use tracemate.Kafka.Program.Consumed.{agents_consumer, leave, program-Consumed}
use tracemate.Spans.Process.{process_span_message}
use tracemate.Tests.Metrics.{small}
use tracemate.Tests.Transactions.{no_pcre, setup, clock}
use tracemate.Kafka.Consume.{tm_kafka_consume_messages}
use tracemate.Kafka.Consume.Balance.{Consumed}
use tracemate.Kafka.Produce.{
  Produced, enqueued, queue_full, failed, Outcome, tm_kafka_produce, full, last_answer,
  tm_kafka_produce_iff,
}
use tracemate.Tests.Stores.{texts, member_text}

-- The document "bare" has no member.
abbrev some_bare : Json
some_bare = record texts {
  get = λ o name. if equal o (codes "bare") then none else some (member_text name);
}

abbrev fresh : Consumer ℕ
fresh = record {
  stats = record {
    messages_seen = 0;
    messages_processed = 0;
    messages_errored = 0;
    messages_filtered = 0;
    kafka_offset = 0;
    samples = 0;
  };
  state = 0;
  documents = 0;
  tokeners = 0;
}

abbrev batch : List KafkaMessage
batch =
    record { err = 0; payload = some (codes "m"); offset = 8 }
    ∷ record { err = 0; payload = none; offset = 9 }
    ∷ []

other_topic : equal (codes "otlp_spans") (codes "apm") ≡ false
unfolding equal
other_topic = refl

abbrev busy : List Produced
busy = queue_full ∷ queue_full ∷ enqueued ∷ failed ∷ []

abbrev third : Outcome
third = record { sent = true; polls = 2; unasked = failed ∷ [] }

tm_kafka_produce_iff_example :
    (tm_kafka_produce busy ≡ some third)
    ↔ (busy ≡ full third.polls (last_answer third.sent ∷ third.unasked))
tm_kafka_produce_iff_example = tm_kafka_produce_iff busy third

-- The handlers of spans and the rest, with nothing but their own state.
abbrev given : Given small some_bare Bytes no_pcre
given = record {
  conversions = record {
    get_double = λ o. 0;
    get_uint64 = λ o. 0;
    of_uint64 = λ n. n;
    thousandth = λ d. d / 1000;
    thousandfold = λ d. d * 1000;
    to_uint64 = λ d. d;
  };
  summaries = record {
    isnormal = λ d. true;
    mean = λ h. 0;
    stddev = λ h. 0;
    quantile = λ h p. 0;
    hist_deserialize = λ s. [];
    double_of = λ o. 0;
  };
  surroundings = record { now = 9000; owner = 1; uninitialised = 0 };
  more = record {
    boolean = λ o. true;
    array_get_idx_0 = λ o. some o;
    b64_encode = λ s. s;
    print_int = λ n. [];
  };
  unescape = λ s. some s;
  pcre_compile = λ s. some s;
  clock = clock;
  kafka_lag = 0;
  aborts = false;
  setup_of = λ t. setup;
  team_of = λ t. record { collect_host_level_system = true; metric_flush_freq_ms = λ s. 60000 };
}

abbrev Bare : Type 0
Bare = Consumer (Program small some_bare Bytes no_pcre given)

-- The hook makes the document "bare" of every document.
abbrev bare_hook : Bytes → HookAnswer some_bare
bare_hook o = record { aborts = false; top = o; result = some (codes "bare"); ttl = 600 }

abbrev agents : Surrounds some_bare (Program small some_bare Bytes no_pcre given)
agents = agents_consumer small some_bare Bytes no_pcre given (λ s. some s) bare_hook

abbrev started : Bare
started = record {
  stats = fresh.stats;
  state = record {
    caused = [];
    teams = [];
    urls = λ t. record {
      service_data = [];
      path_squashers = [];
      path_squash_cardinality_factor = 100;
    };
    regexes = λ t. [];
  };
  documents = 0;
  tokeners = 0;
}

abbrev or_started : Option (ℕ × Bare) → ℕ × Bare
or_started none = (0, started)
or_started (some r) = r

abbrev served : ℕ × Bare
served = or_started (tm_kafka_consume_messages some_bare agents (codes "apm") (some batch) started)

is_served :
    tm_kafka_consume_messages some_bare agents (codes "apm") (some batch) started
    ≡ some (served.0, served.1)
unfolding tm_kafka_consume_messages handle process_span_message equal starts_with strchr
is_served = refl

one_span : length served.1.state.caused ≡ 1
unfolding tm_kafka_consume_messages handle process_span_message equal starts_with strchr
one_span = refl

one_leak : served.1.documents ≡ 1
unfolding tm_kafka_consume_messages handle process_span_message equal starts_with strchr
one_leak = refl

program-Consumed_example :
    Consumed some_bare agents
      (leave small some_bare Bytes no_pcre given (λ s. some s) bare_hook)
      (codes "apm")
      other_topic
      0
      batch
      started
      (served.0, served.1)
program-Consumed_example =
    program-Consumed small some_bare Bytes no_pcre given (λ s. some s) bare_hook (codes "apm") batch
      started served.1 served.0 other_topic is_served
