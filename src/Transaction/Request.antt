-- ===== src/Transaction/Request.antt =====
-- The updates for a transaction of type "request".
use tracemate.Base.{
  ℕ, ◌^◌, Bool, ◌&&◌, Option, none, some, List, [], ◌∷◌, ◌++◌, leb, ltb, if◌then◌else◌, Bytes,
}
use tracemate.Transaction.{
  Kind, latency, request_count, error_count, client_error_count, server_error_count, status_code,
  Subject, of, all, Name, Update, histogram_update, counter_update, text_update, Context,
  host_level,
}

-- What a request's updates are made of: the generic path, METHOD, the status, the user agent in
-- base64 and the status in print.
pub record Seen : Type 0 where
  pub clean_path : Bytes
  pub method : Bytes
  pub stat_code : ℕ
  pub user_agent : Option Bytes
  pub sc : Bytes

-- The status is an `int`, here as a bit pattern.
abbrev pub is_client_error : ℕ → Bool
is_client_error code = leb 400 code && ltb code 500

abbrev pub is_server_error : ℕ → Bool
is_server_error code = leb 500 code && ltb code (2 ^ 31)

-- "…|ST[%s,method:%s%s]" for a path, with the rollup
abbrev of_path : Kind → Context → Seen → Name
of_path kind c r = record {
  kind = kind;
  subject = of r.clean_path;
  tags = c.agg_tag_string;
  method = some r.method;
  user_agent = none;
  rollup = c.rollup;
}

-- "…all|ST[%s,method:%s]"
abbrev of_all : Kind → Context → Seen → Name
of_all kind c r = record {
  kind = kind;
  subject = all;
  tags = c.agg_tag_string;
  method = some r.method;
  user_agent = none;
  rollup = [];
}

abbrev by_agent : Kind → Subject → Context → Seen → Bytes → Name
by_agent kind subject c r agent = record {
  kind = kind;
  subject = subject;
  tags = c.agg_tag_string;
  method = some r.method;
  user_agent = some agent;
  rollup = [];
}

-- Four counters of an error, and four more for the user agent; `kind` is on which side the error
-- is.
abbrev agent_errors : Kind → Context → Seen → Option Bytes → List Update
agent_errors kind c r none = []
agent_errors kind c r (some agent) =
    counter_update (by_agent kind (of r.clean_path) c r agent) c.agg_timestamp
    ∷ counter_update (by_agent error_count (of r.clean_path) c r agent) c.agg_timestamp
    ∷ counter_update (by_agent kind all c r agent) c.agg_timestamp
    ∷ counter_update (by_agent error_count all c r agent) c.agg_timestamp
    ∷ []

unfoldable pub error_updates : Kind → Context → Seen → List Update
error_updates kind c r =
    counter_update (of_path kind c r) c.agg_timestamp
    ∷ counter_update (of_path error_count c r) c.agg_timestamp
    ∷ counter_update (of_all kind c r) c.agg_timestamp
    ∷ counter_update (of_all error_count c r) c.agg_timestamp
    ∷ agent_errors kind c r r.user_agent

abbrev agent_requests : Context → Seen → Option Bytes → List Update
agent_requests c r none = []
agent_requests c r (some agent) =
    counter_update (by_agent request_count all c r agent) c.agg_timestamp ∷ []

abbrev of_host : Kind → Context → Seen → Name
of_host kind c r = record (of_path kind c r) { tags = c.tag_string }

unfoldable pub request_updates : Context → Seen → List Update
unfolding error_updates
request_updates c r =
    histogram_update (of_path latency c r) c.duration_us c.agg_timestamp
    ∷ histogram_update (of_all latency c r) c.duration_us c.agg_timestamp
    ∷ ((if is_client_error r.stat_code then error_updates client_error_count c r else [])
        ++ ((if is_server_error r.stat_code then error_updates server_error_count c r else [])
            ++ (counter_update (of_path request_count c r) c.agg_timestamp
                ∷ counter_update (of_all request_count c r) c.agg_timestamp
                ∷ (agent_requests c r r.user_agent
                    ++ host_level c (
                        text_update (of_host status_code c r) r.sc c.metric_timestamp
                        ∷ histogram_update (of_host latency c r) c.duration_us c.agg_timestamp
                        ∷ [])))))
