-- ===== src/Otel/Process.antt =====
-- `otel_process_jaeger_span` of src/tm_process_otel_span.cc. `none` as a result stands for a NULL
-- that is read: a tag that the code takes to be there. The function falls off its end without a
-- value, so that what its caller gets is not modelled.
pub mod Balanced
use tracemate.Base.{
  ℕ, ◌/◌, Bool, true, false, ◌||◌, List, [], ◌∷◌, Option, none, some, if◌then◌else◌, ◌>>=◌, Bytes,
  codes,
}
use tracemate.CString.{equal}
use tracemate.Message.Tags.{tm_clean_tag_value}
use tracemate.Utils.Timestamp.{center_timestamp}
use tracemate.Otel.{
  KeyValue, JaegerSpan, ProcessOf, get_tag, team_of, parse_domain, simplify_status_code, is_error,
  otel_tags, duration_us_of, end_of,
}
use tracemate.Otel.Updates.{
  OtelUpdate, kind_updates, server_updates, db_kind, http_kind, rpc_kind, messaging_kind,
  internal_kind,
}

-- What a span causes: the team whose table is updated, the tags of every metric, the duration and
-- the time window.
pub record OtelHandled : Type 0 where
  pub team : Bytes
  pub agg_tag_string : Bytes
  pub duration_us : ℕ
  pub agg_timestamp : ℕ
  pub updates : List OtelUpdate

-- The text of a tag; `none` where it is not there.
abbrev pub str : List KeyValue → Bytes → Option Bytes
str tags name = do kv ← get_tag tags name; some kv.v_str

abbrev pub or_text : Bytes → Option Bytes → Bytes
or_text s none = s
or_text s (some t) = t

module _ (print_int : ℕ → Bytes) where
  -- NULL is printed where there is no status.
  abbrev code_text : Option KeyValue → Bytes
  code_text none = codes "(null)"
  code_text (some status) = simplify_status_code print_int status.v_int64

  abbrev status_is_error : Option KeyValue → Bool
  status_is_error none = false
  status_is_error (some status) = is_error status.v_int64

  server : JaegerSpan → Option (List OtelUpdate)
  unfolding get_tag server_updates simplify_status_code tm_clean_tag_value
  server s = do
    method ← str s.tags (codes "http.method")
    let status = get_tag s.tags (codes "http.status_code")
    some (
        server_updates (tm_clean_tag_value s.operation_name) method (code_text status)
          (or_text (codes "unknown") (str s.tags (codes "http.flavor"))) (status_is_error status))

  http : JaegerSpan → Bytes → Option (List OtelUpdate)
  unfolding get_tag http_kind kind_updates simplify_status_code parse_domain
  http s url = do
    status ← get_tag s.tags (codes "http.status_code")
    method ← str s.tags (codes "http.method")
    some (
        kind_updates (
          http_kind method (or_text (codes "(null)") (parse_domain url))
            (simplify_status_code print_int status.v_int64)))

  rpc : JaegerSpan → Option Bytes → Option (List OtelUpdate)
  unfolding rpc_kind kind_updates tm_clean_tag_value
  rpc s none = some []
  rpc s (some system) = some (kind_updates (rpc_kind system (tm_clean_tag_value s.operation_name)))

  http_or_rpc : JaegerSpan → Option Bytes → Option (List OtelUpdate)
  unfolding http rpc get_tag
  http_or_rpc s none = rpc s (str s.tags (codes "rpc.system"))
  http_or_rpc s (some url) = http s url

  client : JaegerSpan → Option Bytes → Option (List OtelUpdate)
  unfolding http_or_rpc db_kind kind_updates get_tag tm_clean_tag_value
  client s none = http_or_rpc s (str s.tags (codes "http.url"))
  client s (some system) =
      some (kind_updates (db_kind system (tm_clean_tag_value s.operation_name)))

  messaging : Bytes → JaegerSpan → Option (List OtelUpdate)
  unfolding get_tag messaging_kind kind_updates
  messaging type s = do
    system ← str s.tags (codes "messaging.system")
    dest ← str s.tags (codes "messaging.destination")
    some (kind_updates (messaging_kind type system dest))

  -- By the tag "span.kind".
  unfoldable pub updates_of : JaegerSpan → Bytes → Option (List OtelUpdate)
  unfolding server client messaging internal_kind kind_updates get_tag equal tm_clean_tag_value
  updates_of s kind =
      if equal kind (codes "server")
      then server s
      else if equal kind (codes "client")
      then client s (str s.tags (codes "db.system"))
      else if equal kind (codes "producer") || equal kind (codes "consumer")
      then messaging kind s
      else if equal kind (codes "internal")
      then some (kind_updates (internal_kind (tm_clean_tag_value s.operation_name)))
      else some []

  -- The team "unknown" where the process has none.
  handled_of : (Bytes → ℕ) → JaegerSpan → ProcessOf → List OtelUpdate → OtelHandled
  unfolding team_of otel_tags duration_us_of end_of
  handled_of metric_flush_freq_ms s p updates =
      let team = or_text (codes "unknown") (team_of p.tags none) in
      record {
        team = team;
        agg_tag_string = otel_tags p.service_name team;
        duration_us = duration_us_of s;
        agg_timestamp = center_timestamp (end_of s / 1000) (metric_flush_freq_ms p.service_name);
        updates = updates;
      }

  -- The inner `none` is a span that is left.
  with_process : (Bytes → ℕ) → JaegerSpan → Option ProcessOf → Option (Option OtelHandled)
  unfolding updates_of handled_of
  with_process metric_flush_freq_ms s none = some none
  with_process metric_flush_freq_ms s (some p) = do
    kind ← str s.tags (codes "span.kind")
    updates ← updates_of s kind
    some (some (handled_of metric_flush_freq_ms s p updates))

  -- A payload that cannot be parsed is `none`.
  unfoldable pub otel_process_jaeger_span :
      (Bytes → ℕ) → Option JaegerSpan → Option (Option OtelHandled)
  unfolding with_process
  otel_process_jaeger_span metric_flush_freq_ms none = some none
  otel_process_jaeger_span metric_flush_freq_ms (some s) =
      with_process metric_flush_freq_ms s s.process
