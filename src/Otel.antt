-- ===== src/Otel.antt =====
-- src/tm_process_otel_span.cc, as far as the consumer calls it: `otel_process_jaeger_span`, the
-- handler of the spans of OpenTelemetry, which arrive as spans of Jaeger. The classes that protobuf
-- generates are records with the fields of src/proto/jaeger.proto that are read; a text holds no
-- NUL.
pub mod Updates
pub mod Process
pub mod Performed
use tracemate.Base.{
  ℕ, ◌+◌, ◌-◌, ◌*◌, ◌/◌, ◌%◌, ◌^◌, Bool, ◌&&◌, List, [], ◌∷◌, ◌++◌, Option, none, some, leb, ltb,
  if◌then◌else◌, ◌>>=◌, Bytes, codes, take, length, drop, map, u64,
}
use tracemate.CString.{equal, strstr, strchr}

-- `KeyValue`; the integer is a bit pattern of 64 bits.
pub record KeyValue : Type 0 where
  pub key : Bytes
  pub v_str : Bytes
  pub v_int64 : ℕ

pub record ProcessOf : Type 0 where
  pub service_name : Bytes
  pub tags : List KeyValue

-- Times and durations are not negative.
pub record JaegerSpan : Type 0 where
  pub operation_name : Bytes
  pub tags : List KeyValue
  pub start_seconds : ℕ
  pub start_nanos : ℕ
  pub duration_seconds : ℕ
  pub duration_nanos : ℕ
  pub process : Option ProcessOf

-- The first tag of the name; `none` is NULL.
unfoldable pub get_tag : List KeyValue → Bytes → Option KeyValue
unfolding equal
get_tag [] name = none
get_tag (kv ∷ tags) name = if equal kv.key name then some kv else get_tag tags name

-- The last tag "mlb.team" of the process.
unfoldable pub team_of : List KeyValue → Option Bytes → Option Bytes
unfolding equal
team_of [] team = team
team_of (kv ∷ tags) team =
    team_of tags (if equal kv.key (codes "mlb.team") then some kv.v_str else team)

abbrev tolower : ℕ → ℕ
tolower c = if leb b'A' c && leb c b'Z' then c + 32 else c

up_to_slash : Bytes → Bytes
unfolding strchr
up_to_slash s = elim (strchr s b'/') [ none ↦ s | some (before, at) ↦ before ]

-- The text between :// and the next slash; `none` is NULL.
unfoldable pub parse_domain : Bytes → Option Bytes
unfolding strstr up_to_slash
parse_domain url_s = do
  (before, at) ← strstr url_s (codes "://")
  some (map tolower (up_to_slash (drop 3 at)))

-- code / 100 of an `int64_t`, then (int)
abbrev hundreds : ℕ → ℕ
hundreds code =
    (if ltb code (2 ^ 63) then code / 100 else (u64 - (u64 - code) / 100) % u64) % 2 ^ 32

-- "%dXX"; `print_int` is "%d" of a bit pattern.
unfoldable pub simplify_status_code : (ℕ → Bytes) → ℕ → Bytes
simplify_status_code print_int code = print_int (hundreds code) ++ codes "XX"

-- sc_int > 399
abbrev pub is_error : ℕ → Bool
is_error sc_int = ltb 399 sc_int && ltb sc_int (2 ^ 63)

-- snprintf(agg_tag_string, sizeof(agg_tag_string) - 1, …)
unfoldable pub otel_tags : Bytes → Bytes → Bytes
otel_tags service team =
    take 2046
      (codes "service:" ++ (service ++ (codes ",team:" ++ (team ++ codes ",__rollup:false"))))

-- s.duration() and the end of the span, in microseconds
unfoldable pub duration_us_of : JaegerSpan → ℕ
duration_us_of s = (s.duration_seconds * 1000000 + s.duration_nanos / 1000) % u64

unfoldable pub end_of : JaegerSpan → ℕ
unfolding duration_us_of
end_of s = (s.start_seconds * 1000000 + s.start_nanos / 1000 + duration_us_of s) % u64
