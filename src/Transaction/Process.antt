-- ===== src/Transaction/Process.antt =====
-- `process_transaction_message` from its checks to the calls of the transaction store. `none` as a
-- result stands for a program that goes wrong: a NULL string that is read, or the team's name that
-- is read although `pre_process` did not set it.
pub mod Updated
use tracemate.Base.{
  ℕ, ◌/◌, Bool, false, not, ◌&&◌, ◌||◌, Option, none, some, List, [], ◌∷◌, ◌++◌, leb, ltb,
  if◌then◌else◌, ◌>>=◌, Bytes, codes, add64,
}
use tracemate.Message.{Json, tm_service_name}
use tracemate.Message.Tags.{Clock, Header, pre_process, build_agg_tag_string}
use tracemate.Utils.Timestamp.{center_timestamp}
use tracemate.Utils.Genericize.{Pcre}
use tracemate.Transaction.{
  More, StoreCall, add_child, mark_traceable, put, Setup, rollup_of, Context,
}
use tracemate.Transaction.Handler.{Part, nothing, malformed, text_of, uint64_of, typed_part}

-- From this many messages behind on, Kafka's lag turns tracing off.
abbrev pub lag_limit : ℕ
lag_limit = 50000

unfoldable pub context_of : {pcre : Pcre} → Setup pcre → Header → Bytes → ℕ → Bytes → Context
context_of setup h agg_tag_string duration_us service_string =
    let metric_timestamp = add64 h.timestamp (duration_us / 1000) in
    record {
      tag_string = h.tag_string;
      agg_tag_string = agg_tag_string;
      duration_us = duration_us;
      metric_timestamp = metric_timestamp;
      agg_timestamp = center_timestamp metric_timestamp (setup.metric_flush_freq_ms service_string);
      rollup = rollup_of setup.rollup_high_cardinality;
      collect_host_level_metrics = setup.collect_host_level_metrics;
    }

module _ (json : Json) where
  -- All that a message causes.
  pub record Handled : Type 0 where
    pub part : Part json
    pub calls : List (StoreCall json)

  abbrev or_none : Option Bytes → Bytes
  or_none none = codes "none"
  or_none (some clean_path) = clean_path

  -- The calls for a transaction without a parent.
  unfoldable pub root_calls : ℕ → ℕ → ℕ → Bytes → Option Bytes → List (StoreCall json)
  root_calls kafka_lag threshold_us duration_us trace_id clean_path =
      (if leb threshold_us duration_us then mark_traceable trace_id ∷ [] else [])
      ++ (if ltb kafka_lag lag_limit || leb threshold_us duration_us
          then put trace_id (or_none clean_path) ∷ []
          else [])

  unfoldable pub child_calls : ℕ → Bytes → List (StoreCall json)
  child_calls kafka_lag trace_id = if ltb kafka_lag lag_limit then add_child trace_id ∷ [] else []

  -- With the parent, if the message has one.
  unfoldable pub store_calls :
      Option json.Object → ℕ → ℕ → ℕ → Bytes → Option Bytes → List (StoreCall json)
  unfolding root_calls child_calls
  store_calls none kafka_lag threshold_us duration_us trace_id clean_path =
      root_calls kafka_lag threshold_us duration_us trace_id clean_path
  store_calls (some parent) kafka_lag threshold_us duration_us trace_id clean_path =
      child_calls kafka_lag trace_id

  -- `aborts` is whether the hook for traces answers MTEV_HOOK_ABORT; it is asked where the lag is
  -- small.
  unfoldable pub with_calls : Bool → Option json.Object → ℕ → ℕ → ℕ → Bytes → Part json → Handled
  unfolding store_calls
  with_calls aborts parent kafka_lag threshold_us duration_us trace_id p =
      if not p.goes_on || (ltb kafka_lag lag_limit && aborts)
      then record { part = p; calls = [] }
      else record {
        part = p;
        calls = store_calls parent kafka_lag threshold_us duration_us trace_id p.clean_path;
      }

  abbrev pub rejected : Handled
  rejected = record { part = malformed json (nothing json); calls = [] }

  module _ (more : More json) (pcre : Pcre) (unescape : Bytes → Option Bytes) (kafka_lag : ℕ)
      (aborts : Bool) where
    -- The names that the handler has found once its checks are done.
    with_type :
        Setup pcre → Context → json.Object → json.Object → Bytes → ℕ → Option Bytes → Option Handled
    unfolding typed_part with_calls
    with_type setup c m trans trace_id threshold_us none = none
    with_type setup c m trans trace_id threshold_us (some type) = do
      p ← typed_part json more pcre unescape setup c m trans type
      some (
          with_calls aborts (json.get m (codes "parent")) kafka_lag threshold_us c.duration_us
            trace_id p)

    with_service :
        Setup pcre
        → Header
        → Bytes
        → json.Object
        → json.Object
        → ℕ
        → Bytes
        → Option Bytes
        → Option Handled
    unfolding with_type context_of
    with_service setup h agg m trans duration_us trace_id none = some rejected
    with_service setup h agg m trans duration_us trace_id (some service_string) =
        with_type setup (context_of setup h agg duration_us service_string) m trans trace_id
          (setup.jaeger_threshold_us service_string) (text_of json (json.get trans (codes "type")))

    with_trace_id :
        Setup pcre
        → Header
        → Bytes
        → json.Object
        → json.Object
        → ℕ
        → Option json.Object
        → Option Handled
    unfolding with_service
    with_trace_id setup h agg m trans duration_us none = some rejected
    with_trace_id setup h agg m trans duration_us (some trace_id) =
        with_service setup h agg m trans duration_us (json.string trace_id)
          (tm_service_name json (some m))

    with_trace :
        Setup pcre
        → Header
        → Bytes
        → json.Object
        → json.Object
        → ℕ
        → Option json.Object
        → Option Handled
    unfolding with_trace_id
    with_trace setup h agg m trans duration_us none = some rejected
    with_trace setup h agg m trans duration_us (some trace) =
        with_trace_id setup h agg m trans duration_us (json.get trace (codes "id"))

    with_duration :
        Setup pcre
        → Header
        → Bytes
        → json.Object
        → json.Object
        → Option json.Object
        → Option Handled
    unfolding with_trace
    with_duration setup h agg m trans none = some rejected
    with_duration setup h agg m trans (some duration) =
        with_trace setup h agg m trans (uint64_of json (json.get duration (codes "us")))
          (json.get m (codes "trace"))

    with_transaction :
        Setup pcre → Header → Bytes → json.Object → Option json.Object → Option Handled
    unfolding with_duration
    with_transaction setup h agg m none = some rejected
    with_transaction setup h agg m (some trans) =
        with_duration setup h agg m trans (json.get trans (codes "duration"))

    with_tags : Setup pcre → Header → json.Object → Option Bytes → Option Handled
    unfolding with_transaction
    with_tags setup h m none =
        some (record { part = record (nothing json) { goes_on = false }; calls = [] })
    with_tags setup h m (some agg) =
        with_transaction setup h agg m (json.get m (codes "transaction"))

    -- `setup_of` is what get_team_data has of a team.
    unfoldable pub process_transaction_message :
        Clock → (Bytes → Setup pcre) → json.Object → Option Handled
    unfolding with_tags pre_process build_agg_tag_string
    process_transaction_message clock setup_of m = do
      h ← pre_process json clock m
      with_tags (setup_of h.team) h m (build_agg_tag_string json m)
