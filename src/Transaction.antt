-- ===== src/Transaction.antt =====
-- src/tm_process_transaction.c: which metrics a transaction updates, and what goes to the
-- transaction store. The handler does not read what it writes, so that its result is a list of what
-- it does.
pub mod Request
pub mod Handler
pub mod Process
pub mod Answers
pub mod Errors
pub mod Stored
pub mod Performed
use tracemate.Base.{
  ℕ, ◌+◌, ◌-◌, Bool, true, false, ◌&&◌, Option, none, some, List, [], ◌∷◌, ◌++◌, leb, if◌then◌else◌,
  Bytes, codes, take,
}
use tracemate.Message.{Json}
use tracemate.Utils.Genericize.{Pcre, Rules}

-- What the handler uses of json-c beyond `Json`, of libmtev's base64 and of printf.
pub record More (json : Json) : Type 0 where
  -- mtev_json_object_get_boolean, of NULL as well
  pub boolean : Option json.Object → Bool
  pub array_get_idx_0 : json.Object → Option json.Object
  pub b64_encode : Bytes → Bytes
  -- "%d"
  pub print_int : ℕ → Bytes

-- `service_type_e`
pub data ServiceType : Type 0 where
  transactional message scheduled : ServiceType

-- What is counted or measured.
pub data Kind : Type 0 where
  latency request_count error_count client_error_count server_error_count status_code : Kind

abbrev pub kind_text : Kind → Bytes
kind_text latency = codes "latency"
kind_text request_count = codes "request_count"
kind_text error_count = codes "error_count"
kind_text client_error_count = codes "client_error_count"
kind_text server_error_count = codes "server_error_count"
kind_text status_code = codes "status_code"

-- Of which transactions: those of a name or a path, or all of the service.
pub data Subject : Type 0 where
  of : Bytes → Subject
  all : Subject

abbrev pub subject_text : Subject → Bytes
subject_text (of name) = name
subject_text all = codes "all"

-- A metric's name before it is printed. The user agent's tag excludes a rollup.
pub record Name : Type 0 where
  pub kind : Kind
  pub subject : Subject
  pub tags : Bytes
  pub method : Option Bytes
  pub user_agent : Option Bytes
  pub rollup : Bytes

abbrev method_text : Option Bytes → Bytes
method_text none = []
method_text (some m) = codes ",method:" ++ m

-- ,user_agent:b"…",__rollup:false
abbrev agent_text : Option Bytes → Bytes
agent_text none = []
agent_text (some a) = codes ",user_agent:b" ++ (b'"' ∷ (a ++ (b'"' ∷ codes ",__rollup:false")))

-- snprintf(metric_name, sizeof(metric_name) - 1, "transaction - %s - %s|ST[…]", …)
unfoldable pub metric_name : Name → Bytes
metric_name n = take 4094 (
    codes "transaction - "
    ++ (kind_text n.kind
        ++ (codes " - "
            ++ (subject_text n.subject
                ++ (codes "|ST["
                    ++ (n.tags
                        ++ (method_text n.method
                            ++ (agent_text n.user_agent ++ (n.rollup ++ codes "]")))))))))

-- The updates of the team's table, each with the flag `aggregate` set but for the text.
pub data Update : Type 0 where
  histogram_update : Name → ℕ → ℕ → Update
  counter_update : Name → ℕ → Update
  text_update : Name → Bytes → ℕ → Update

-- The calls of the store, the object that is put as the message and its url.
pub data StoreCall (json : Json) : Type 0 where
  add_child mark_traceable : Bytes → StoreCall json
  put : Bytes → Bytes → StoreCall json

-- `td`, as far as it is read, and what the configuration says of the service.
pub record Setup (pcre : Pcre) : Type 0 where
  pub collect_host_level_metrics : Bool
  pub rollup_high_cardinality : Bool
  pub rules : Rules pcre
  pub metric_flush_freq_ms : Bytes → ℕ
  pub jaeger_threshold_us : Bytes → ℕ

-- if (td->rollup_high_cardinality == mtev_false) rollup = ",__rollup:false";
abbrev pub rollup_of : Bool → Bytes
rollup_of true = []
rollup_of false = codes ",__rollup:false"

-- What the rest of the handler needs of the message.
pub record Context : Type 0 where
  pub tag_string : Bytes
  pub agg_tag_string : Bytes
  pub duration_us : ℕ
  pub metric_timestamp : ℕ
  pub agg_timestamp : ℕ
  pub rollup : Bytes
  pub collect_host_level_metrics : Bool

-- A name with nothing but the tags.
abbrev pub plain_name : Kind → Subject → Bytes → Name
plain_name kind subject tags = record {
  kind = kind;
  subject = subject;
  tags = tags;
  method = none;
  user_agent = none;
  rollup = [];
}

-- if (td->collect_host_level_metrics)
abbrev pub host_level : Context → List Update → List Update
host_level c updates = if c.collect_host_level_metrics then updates else []

-- "message_read", "messaging" and "scheduled"
unfoldable pub named_updates : Context → Bytes → List Update
named_updates c name =
    histogram_update (plain_name latency (of name) c.agg_tag_string) c.duration_us c.agg_timestamp
    ∷ histogram_update (plain_name latency all c.agg_tag_string) c.duration_us c.agg_timestamp
    ∷ counter_update (plain_name request_count (of name) c.agg_tag_string) c.agg_timestamp
    ∷ counter_update (plain_name request_count all c.agg_tag_string) c.agg_timestamp
    ∷ host_level c (
        histogram_update (plain_name latency (of name) c.tag_string) c.duration_us c.agg_timestamp
        ∷ [])
