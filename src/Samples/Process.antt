-- ===== src/Samples/Process.antt =====
-- `process_metric_message`, and `tm_apm_server_version` of src/tm_process.h.
use tracemate.Base.{
  ℕ, Bool, false, Option, none, some, List, [], ◌∷◌, ◌++◌, min, ltb, if◌then◌else◌, ◌>>=◌, Bytes,
  codes, length, take,
}
use tracemate.CString.{equal}
use tracemate.Message.{Json, tm_apm_server_major_version, tm_service_name}
use tracemate.Message.Tags.{Clock, Header, pre_process, build_agg_tag_string}
use tracemate.Utils.Timestamp.{center_timestamp}
use tracemate.Metric.{Numbers}
use tracemate.Samples.{Conversions, Op, At}
use tracemate.Samples.Gauges.{member}
use tracemate.Samples.Flat.{flat_system, flat_jvm, flat_nodejs}
use tracemate.Samples.Nested.{nested_system, nested_jvm, nested_nodejs, nested_golang}

-- `td`, as far as it is read, and what the configuration says of the service.
pub record Team : Type 0 where
  pub collect_host_level_system : Bool
  pub metric_flush_freq_ms : Bytes → ℕ

-- strncmp(version, "7.15", …) over the shorter of the two lengths
unfoldable pub is_flat : Option Bytes → Bool
unfolding equal
is_flat none = false
is_flat (some version) =
    let n = min (length version) 4 in equal (take n version) (take n (codes "7.15"))

module _ (nums : Numbers) (json : Json) (conversions : Conversions nums json) where
  non_empty : Bytes → Option Bytes
  non_empty [] = none
  non_empty (c ∷ v) = some (c ∷ v)

  unfoldable pub tm_apm_server_version : json.Object → Option Bytes
  unfolding non_empty
  tm_apm_server_version m = do
    version ← member json (json.get m (codes "@metadata")) (codes "version")
    non_empty (json.string version)

  unfoldable pub flat_ops : At → json.Object → List (Op nums)
  unfolding flat_system flat_jvm flat_nodejs
  flat_ops at m =
      flat_system nums json conversions at m
      ++ (flat_jvm nums json conversions at m ++ flat_nodejs nums json conversions at m)

  unfoldable pub nested_ops : At → json.Object → List (Op nums)
  unfolding nested_system nested_jvm nested_nodejs nested_golang
  nested_ops at m =
      nested_system nums json conversions at m
      ++ (nested_jvm nums json conversions at m
          ++ (nested_nodejs nums json conversions at m ++ nested_golang nums json conversions at m))

  -- The name of the agent, for a service that is known and has none yet.
  abbrev agent_of : ℕ → json.Object → Option json.Object
  agent_of mv m =
      if ltb 6 mv
      then json.get m (codes "agent")
      else member json (member json (json.get m (codes "context")) (codes "service"))
          (codes "agent")

  abbrev string_or_null : Option json.Object → Option Bytes
  string_or_null none = none
  string_or_null (some o) = some (json.string o)

  unfoldable pub agent_name : json.Object → Option Bytes
  agent_name m =
      string_or_null
        (member json (agent_of (tm_apm_server_major_version json (some m)) m) (codes "name"))

  -- The updates in their order, and the agent; `errored` is the count of messages that are
  -- malformed.
  pub record Sampled : Type 0 where
    pub ops : List (Op nums)
    pub service_agent : Option Bytes
    pub errored : ℕ

  abbrev at_of : Team → Header → Bytes → Bytes → At
  at_of team h agg_tag_string service_string = record {
    tag_string = h.tag_string;
    agg_tag_string = agg_tag_string;
    timestamp_ms = h.timestamp;
    agg_timestamp = center_timestamp h.timestamp (team.metric_flush_freq_ms service_string);
    collect_host_level_system = team.collect_host_level_system;
  }

  unfoldable pub sampled : At → json.Object → Sampled
  unfolding flat_ops nested_ops is_flat tm_apm_server_version agent_name
  sampled at m =
      if is_flat (tm_apm_server_version m)
      then record { ops = flat_ops at m; service_agent = none; errored = 0 }
      else record { ops = nested_ops at m; service_agent = agent_name m; errored = 0 }

  with_service_name : Team → Header → json.Object → Bytes → Option Bytes → Sampled
  unfolding sampled
  with_service_name team h m agg none = record { ops = []; service_agent = none; errored = 1 }
  with_service_name team h m agg (some service_string) = sampled (at_of team h agg service_string) m

  -- `none` where the message has no team, or no service for the tags.
  unfoldable pub process_metric_message : Clock → (Bytes → Team) → json.Object → Option Sampled
  unfolding with_service_name pre_process build_agg_tag_string
  process_metric_message clock team_of m = do
    h ← pre_process json clock m
    agg ← build_agg_tag_string json m
    some (with_service_name (team_of h.team) h m agg (tm_service_name json (some m)))
