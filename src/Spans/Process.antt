-- ===== src/Spans/Process.antt =====
-- `process_span_message` from its checks to the updates. `none` as a result stands for a program
-- that goes wrong: a NULL string that is read, a subtype that overruns its buffer, or the team's
-- name that is read although `pre_process` did not set it. The result of the C function is always
-- false.
pub mod Counted
use tracemate.Base.{
  ℕ, Bool, ◌||◌, Option, none, some, List, [], ◌∷◌, ltb, if◌then◌else◌, ◌>>=◌, Bytes, codes,
}
use tracemate.CString.{equal, starts_with}
use tracemate.Message.{Json, tm_apm_server_major_version, tm_service_name}
use tracemate.Message.Tags.{Clock, Header, pre_process, build_agg_tag_string}
use tracemate.Utils.Genericize.{Pcre, genericize_path}
use tracemate.Transaction.{StoreCall, add_child, Setup, Context}
use tracemate.Transaction.Handler.{text_of, uint64_of, or_null}
use tracemate.Transaction.Process.{context_of}
use tracemate.Spans.{SpanUpdate}
use tracemate.Spans.Subtype.{parse_v6_type}
use tracemate.Spans.Updates.{db_updates, external_updates, internal_updates}

-- What the branch for the type does; `sent` are the URLs that genericize_path sends.
pub record Branch : Type 0 where
  pub updates : List SpanUpdate
  pub sent : List Bytes

abbrev pub no_updates : Branch
no_updates = record { updates = []; sent = [] }

module _ (json : Json) where
  -- All that a span causes; `errored` is how much the count of malformed messages grows.
  pub record SpanHandled : Type 0 where
    pub branch : Branch
    pub calls : List (StoreCall json)
    pub errored : ℕ

  abbrev pub left : SpanHandled
  left = record { branch = no_updates; calls = []; errored = 0 }

  -- The outer result is `none` where the buffer is overrun, the inner one is NULL.
  subtype_of : ℕ → json.Object → Bytes → Option (Option Bytes)
  unfolding parse_v6_type
  subtype_of mv span type =
      if ltb 6 mv
      then some (text_of json (json.get span (codes "subtype")))
      else (do subtype ← parse_v6_type type; some (some subtype))

  db_branch : Context → ℕ → json.Object → Bytes → Option Branch
  unfolding subtype_of db_updates
  db_branch c mv span type = do
    subtype ← subtype_of mv span type
    some (record no_updates {
      updates = db_updates c (or_null json (json.get span (codes "name"))) subtype;
    })

  module _ (pcre : Pcre) (unescape : Bytes → Option Bytes) where
    external_branch : Setup pcre → Context → json.Object → Option Branch
    unfolding genericize_path external_updates
    external_branch setup c span = do
      g ← genericize_path pcre setup.rules unescape (text_of json (json.get span (codes "name")))
      some (record { updates = external_updates c g.path; sent = g.sent })

    unfoldable pub typed_branch : Setup pcre → Context → ℕ → json.Object → Bytes → Option Branch
    unfolding db_branch external_branch internal_updates equal starts_with
    typed_branch setup c mv span type =
        if starts_with (codes "db") type
        then db_branch c mv span type
        else if equal type (codes "external.http")
            || equal type (codes "ext.http.http")
            || equal type (codes "external")
        then external_branch setup c span
        else if equal type (codes "custom") || equal type (codes "app")
        then some (record no_updates {
          updates = internal_updates c (or_null json (json.get span (codes "name")));
        })
        else some no_updates

    with_type :
        Setup pcre
        → Context
        → ℕ
        → json.Object
        → List (StoreCall json)
        → Option Bytes
        → Option SpanHandled
    unfolding typed_branch
    with_type setup c mv span calls none = none
    with_type setup c mv span calls (some type) = do
      b ← typed_branch setup c mv span type
      some (record { branch = b; calls = calls; errored = 0 })

    with_service :
        Setup pcre
        → Header
        → Bytes
        → ℕ
        → json.Object
        → ℕ
        → List (StoreCall json)
        → Option Bytes
        → Option SpanHandled
    unfolding with_type context_of
    with_service setup h agg mv span duration_us calls none =
        some (record left { calls = calls; errored = 1 })
    with_service setup h agg mv span duration_us calls (some service_string) =
        with_type setup (context_of setup h agg duration_us service_string) mv span calls
          (text_of json (json.get span (codes "type")))

    -- The span goes to the store as soon as its trace is known.
    with_trace_id :
        Setup pcre
        → Header
        → Bytes
        → json.Object
        → json.Object
        → ℕ
        → Option json.Object
        → Option SpanHandled
    unfolding with_service
    with_trace_id setup h agg m span duration_us none = some left
    with_trace_id setup h agg m span duration_us (some trace_id) =
        with_service setup h agg (tm_apm_server_major_version json (some m)) span duration_us
          (add_child (json.string trace_id) ∷ []) (tm_service_name json (some m))

    with_trace :
        Setup pcre
        → Header
        → Bytes
        → json.Object
        → json.Object
        → ℕ
        → Option json.Object
        → Option SpanHandled
    unfolding with_trace_id
    with_trace setup h agg m span duration_us none = some left
    with_trace setup h agg m span duration_us (some trace) =
        with_trace_id setup h agg m span duration_us (json.get trace (codes "id"))

    with_duration :
        Setup pcre
        → Header
        → Bytes
        → json.Object
        → json.Object
        → Option json.Object
        → Option SpanHandled
    unfolding with_trace
    with_duration setup h agg m span none = some left
    with_duration setup h agg m span (some dur) =
        with_trace setup h agg m span (uint64_of json (json.get dur (codes "us")))
          (json.get m (codes "trace"))

    with_span :
        Setup pcre → Header → json.Object → Option json.Object → Option Bytes → Option SpanHandled
    unfolding with_duration
    with_span setup h m none agg = some left
    with_span setup h m (some span) none = some left
    with_span setup h m (some span) (some agg) =
        with_duration setup h agg m span (json.get span (codes "duration"))

    -- `setup_of` is what get_team_data has of a team.
    unfoldable pub process_span_message :
        Clock → (Bytes → Setup pcre) → json.Object → Option SpanHandled
    unfolding with_span pre_process build_agg_tag_string
    process_span_message clock setup_of m = do
      h ← pre_process json clock m
      with_span (setup_of h.team) h m (json.get m (codes "span")) (build_agg_tag_string json m)
