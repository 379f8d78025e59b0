-- ===== src/Tests/Published.antt =====
-- The texts that src/tm_metric.c writes, on small metrics and regular expressions.
use tracemate.Base.{
  ◌++◌, Bool, true, false, Option, none, some, List, [], ◌∷◌, if◌then◌else◌, Bytes, codes, All, ◌≡◌,
  refl, arith,
}
use tracemate.CString.{equal, strchr}
use tracemate.Message.{Json}
use tracemate.Metric.{MetricValue}
use tracemate.Metric.Json.{Printing, metric_to_json}
use tracemate.Metric.Json.Read.{read_string}
use tracemate.Metric.Json.Named.{ReadsBack, Emptied, SameElse, metric_to_json_lem}
use tracemate.Squasher.{wildcard}
use tracemate.Squasher.Regexes.{Generated, generated}
use tracemate.Handlers.Escape.{escape_regex}
use tracemate.Handlers.{ByService, retrieved, service_and_team}
use tracemate.Handlers.Regex.{Regexes, process_regex_message}
use tracemate.Published.{SentRegex, publish_service}
use tracemate.Published.Back.{regex_read, generated_back}
use tracemate.Published.Once.{Avoids, publish_service-known}
use tracemate.Tests.Stores.{texts}
use tracemate.Tests.Metrics.{small, errors_key, seven}

abbrev letters : Printing small
letters = record {
  print_uint = λ n. codes "1";
  print_int = λ n. codes "1";
  print_double = λ d. codes "1.5";
  print_average = λ d n. codes "1.5";
  hist_serialize_b64 = λ h. codes "AAA=";
  hist_clear = λ h. [];
}

abbrev written : Bytes × MetricValue small
written = metric_to_json small letters errors_key seven true true none

metric_to_json_lem_example :
    (rest : Bytes) × (written.0 ≡ b'"' ∷ rest)
    × ((body : Bytes) × (read_string rest ≡ some (codes "e", codes ":{" ++ (body ++ codes "}")))
        × ReadsBack small letters errors_key seven none seven.metric body)
    × (◌≡◌ {A = Bool} true false → written.1 ≡ seven)
    × (◌≡◌ {A = Bool} true true
        → Emptied small letters seven.metric seven.count written.1
          × SameElse small letters seven written.1)
metric_to_json_lem_example = metric_to_json_lem small letters errors_key seven true true none

abbrev names : List Bytes
names = codes "games" ∷ wildcard ∷ []

-- Every member of a message is this expression or the name of the service.
abbrev regexes : Json
regexes = record texts {
  get = λ o name. some (if equal name (codes "regex") then regex_read names else codes "ops-api");
}

abbrev compiles : Bytes → Option Bytes
compiles s = some s

abbrev no_table : Bytes → ByService (Regexes regexes Bytes compiles)
no_table team = []

abbrev one_table : ByService (Regexes regexes Bytes compiles)
one_table =
    (
      codes "ops-api",
      (
        (generated names).regex,
        record { match = (generated names).regex; replace = codes "ops-api" },
      )
          ∷ [],
    )
    ∷ []

taken_once :
    process_regex_message regexes Bytes compiles (codes "m") no_table
    ≡ some (some (codes "ops", one_table))
unfolding process_regex_message equal strchr escape_regex generated
taken_once = refl

abbrev lines : List Generated
lines = generated names ∷ generated (codes "teams" ∷ wildcard ∷ []) ∷ []

abbrev or_nothing : Option (List SentRegex) → List SentRegex
or_nothing none = []
or_nothing (some sent) = sent

abbrev sent_now : List SentRegex
sent_now = or_nothing (
    publish_service regexes Bytes compiles (codes "ops-api") (retrieved (codes "ops-api") one_table)
      lines)

published_now :
    publish_service regexes Bytes compiles
      (codes "ops-api")
      (retrieved (codes "ops-api") one_table)
      lines
    ≡ some sent_now
unfolding publish_service generated equal retrieved
published_now = refl

publish_service-known_example : All (Avoids (generated names).regex) sent_now
unfolding equal service_and_team strchr
publish_service-known_example =
    publish_service-known regexes Bytes compiles (codes "m") (regex_read names) no_table
      (codes "ops-api") (codes "ops") [] one_table (generated names).regex names lines sent_now
      (omega arith) (omega arith) refl refl refl (generated_back names [] (omega arith)).0
      taken_once published_now
