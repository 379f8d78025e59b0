-- ===== src/Tests/Spans.antt =====
-- src/tm_process_elastic_span.c on a small message.
use tracemate.Base.{
  [], ◌≤◌, ◌<◌, ◌++◌, ◌≡◌, inr, Option, none, some, ◌∷◌, if◌then◌else◌, codes, length, refl, arith,
}
use tracemate.CString.{equal, starts_with, strchr}
use tracemate.Message.{Json}
use tracemate.Spans.Subtype.{parse_v6_type, parse_v6_type_lem}
use tracemate.Spans.Process.{SpanHandled, left, process_span_message}
use tracemate.Spans.Process.Counted.{Counted, process_span_message-Counted}
use tracemate.Spans.Performed.{op_of, process_span_message-Performs}
use tracemate.Samples.Typed.Names.{Performs, empty-Typed}
use tracemate.Tests.Metrics.{small}
use tracemate.Tests.Stores.{texts, member_text}
use tracemate.Tests.Transactions.{no_pcre, setup, clock}

parse_v6_type_lem_example :
    (parse_v6_type (codes "db") ≡ some (codes "unknown"))
    × (length (codes "redis") < 20
        → parse_v6_type (codes "db" ++ (b'.' ∷ (codes "redis" ++ codes ".query")))
          ≡ some (codes "redis"))
    × (20 ≤ length (codes "redis")
        → parse_v6_type (codes "db" ++ (b'.' ∷ (codes "redis" ++ codes ".query"))) ≡ none)
parse_v6_type_lem_example =
    parse_v6_type_lem (codes "db") (codes "redis") (codes ".query") (omega arith) (omega arith)
      (inr (codes "query", refl))

-- A server of the version 6, and a query of a database.
abbrev queries : Json
queries = record texts {
  get = λ o name. some (
      if equal name (codes "type")
      then codes "db.redis.query"
      else if equal name (codes "version")
      then codes "6.8"
      else member_text name);
}

abbrev or_left : Option (SpanHandled queries) → SpanHandled queries
or_left none = left queries
or_left (some h) = h

abbrev query : SpanHandled queries
query = or_left (process_span_message queries no_pcre (λ s. some s) clock (λ t. setup) (codes "m"))

query_handled :
    process_span_message queries no_pcre (λ s. some s) clock (λ t. setup) (codes "m") ≡ some query
unfolding process_span_message equal starts_with strchr
query_handled = refl

process_span_message-Counted_example :
    Counted queries no_pcre (λ s. some s) clock (λ t. setup) (codes "m") query
process_span_message-Counted_example =
    process_span_message-Counted queries no_pcre (λ s. some s) clock (λ t. setup) (codes "m") query
      query_handled

process_span_message-Performs_example : Performs small (op_of small) 2000 1 query.branch.updates []
process_span_message-Performs_example =
    process_span_message-Performs small queries no_pcre (λ s. some s) clock (λ t. setup) (codes "m")
      query 2000 1 [] query_handled (empty-Typed small)
