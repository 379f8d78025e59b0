-- ===== src/Otel/Updates.antt =====
-- The updates for a span of each kind.
use tracemate.Base.{Bool, List, [], ◌∷◌, ◌++◌, if◌then◌else◌, Bytes, codes, take}

-- What is measured or counted.
pub data OtelMeasure : Type 0 where
  latency request_count error_count execution_count : OtelMeasure

abbrev measure_text : OtelMeasure → Bytes
measure_text latency = codes "latency"
measure_text request_count = codes "request_count"
measure_text error_count = codes "error_count"
measure_text execution_count = codes "execution_count"

-- The value of the tag that tells the spans apart: one of them, or all.
pub data Among : Type 0 where
  one : Bytes → Among
  all : Among

abbrev among_text : Among → Bytes
among_text (one name) = name
among_text all = codes "all"

-- Tags in front of that tag, its name and its value, and the tags behind.
pub record OtelName : Type 0 where
  pub measure : OtelMeasure
  pub before : List (Bytes × Bytes)
  pub key : Bytes
  pub among : Among
  pub behind : List (Bytes × Bytes)

tags_text : List (Bytes × Bytes) → Bytes
tags_text [] = []
tags_text ((key, value) ∷ tags) = key ++ (b':' ∷ (value ++ (b',' ∷ tags_text tags)))

-- snprintf(metric_name, sizeof(metric_name) - 1, "…|ST[…:%s,…,%s]", …)
unfoldable pub otel_metric_name : OtelName → Bytes → Bytes
unfolding tags_text
otel_metric_name n agg_tag_string = take 4094 (
    measure_text n.measure
    ++ (codes "|ST["
        ++ (tags_text n.before
            ++ (tags_text ((n.key, among_text n.among) ∷ [])
                ++ (tags_text n.behind ++ (agg_tag_string ++ codes "]"))))))

-- The updates of the team's table, each with the flag `aggregate` set, for the span's duration and
-- time.
pub data OtelUpdate : Type 0 where
  measured counted : OtelName → OtelUpdate

-- A kind of span: how it is counted, its tags, and the one that tells its spans apart.
pub record SpanKind : Type 0 where
  pub count : OtelMeasure
  pub before : List (Bytes × Bytes)
  pub key : Bytes
  pub value : Bytes
  pub behind : List (Bytes × Bytes)

abbrev name_of : SpanKind → OtelMeasure → Among → OtelName
name_of k measure among = record {
  measure = measure;
  before = k.before;
  key = k.key;
  among = among;
  behind = k.behind;
}

unfoldable pub kind_updates : SpanKind → List OtelUpdate
kind_updates k =
    measured (name_of k latency (one k.value))
    ∷ measured (name_of k latency all)
    ∷ counted (name_of k k.count (one k.value))
    ∷ counted (name_of k k.count all)
    ∷ []

-- Where the status is an error, with the code in front of the name.
abbrev error_name : Bytes → Bytes → Bytes → Among → OtelName
error_name method code flavor among = record {
  measure = error_count;
  before = (codes "type", codes "server") ∷ (codes "code", code) ∷ [];
  key = codes "name";
  among = among;
  behind = (codes "method", method) ∷ (codes "flavor", flavor) ∷ [];
}

unfoldable pub server_updates : Bytes → Bytes → Bytes → Bytes → Bool → List OtelUpdate
unfolding kind_updates
server_updates name method code flavor is_error =
    kind_updates (record {
      count = request_count;
      before = (codes "type", codes "server") ∷ [];
      key = codes "name";
      value = name;
      behind = (codes "method", method) ∷ (codes "code", code) ∷ (codes "flavor", flavor) ∷ [];
    })
    ++ (if is_error
        then counted (error_name method code flavor (one name))
          ∷ counted (error_name method code flavor all)
          ∷ []
        else [])

abbrev client_tags : Bytes → List (Bytes × Bytes) → List (Bytes × Bytes)
client_tags subtype tags = (codes "type", codes "client") ∷ (codes "subtype", subtype) ∷ tags

unfoldable pub db_kind : Bytes → Bytes → SpanKind
db_kind system name = record {
  count = request_count;
  before = client_tags (codes "db") ((codes "system", system) ∷ []);
  key = codes "op_name";
  value = name;
  behind = [];
}

unfoldable pub http_kind : Bytes → Bytes → Bytes → SpanKind
http_kind method domain code = record {
  count = request_count;
  before = client_tags (codes "http") ((codes "method", method) ∷ []);
  key = codes "domain";
  value = domain;
  behind = (codes "code", code) ∷ [];
}

unfoldable pub rpc_kind : Bytes → Bytes → SpanKind
rpc_kind system name = record {
  count = request_count;
  before = client_tags (codes "rpc") ((codes "system", system) ∷ []);
  key = codes "method";
  value = name;
  behind = [];
}

-- "producer" or "consumer"
unfoldable pub messaging_kind : Bytes → Bytes → Bytes → SpanKind
messaging_kind type system dest = record {
  count = request_count;
  before = (codes "type", type) ∷ (codes "system", system) ∷ [];
  key = codes "destination";
  value = dest;
  behind = [];
}

unfoldable pub internal_kind : Bytes → SpanKind
internal_kind name = record {
  count = execution_count;
  before = (codes "type", codes "internal") ∷ [];
  key = codes "op_name";
  value = name;
  behind = [];
}
