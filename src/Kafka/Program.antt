-- ===== src/Kafka/Program.antt =====
-- The handlers of src/tm_process_*.c as those that the consumer of src/tm_kafka.c calls. What a
-- message of the agents causes is listed; the tables of aggregates, URLs and regular expressions
-- are changed.
pub mod Consumed
use tracemate.Base.{
  ℕ, Bool, false, List, [], ◌∷◌, ◌++◌, Option, none, some, if◌then◌else◌, ◌>>=◌, Bytes, add64,
  Holds, Option-cases, inl, inr, refl,
}
use tracemate.CString.{equal}
use tracemate.Metric.{Numbers}
use tracemate.Message.{Json}
use tracemate.Message.Tags.{Clock}
use tracemate.Utils.Genericize.{Pcre}
use tracemate.Teams.{Teams}
use tracemate.Aggregate.{process_aggregate_message}
use tracemate.Aggregate.Rollup.{Summaries, Surroundings}
use tracemate.Transaction.{More, Setup}
use tracemate.Transaction.Process.{Handled, process_transaction_message}
use tracemate.Samples.{Conversions}
use tracemate.Samples.Process.{Team, Sampled, process_metric_message}
use tracemate.Spans.Process.{SpanHandled, process_span_message}
use tracemate.Handlers.{ByService}
use tracemate.Handlers.Error.{ErrorHandled, process_error_message}
use tracemate.Handlers.Url.{TeamUrls, process_url_message}
use tracemate.Handlers.Regex.{Regexes, process_regex_message}
use tracemate.Kafka.{
  Event, metric, transaction, span, error, aggregate, url, regex, Stats, Answered,
}
use tracemate.Kafka.Consume.Balance.{Leaves}

-- What a table by team holds after a change.
abbrev pub at_team : {V : Type 0} → Bytes → V → (Bytes → V) → Bytes → V
at_team team v table j = if equal j team then v else table j

-- What the handlers are given besides the document: the libraries, the configuration, the time, and
-- what the topic knows of Kafka's lag.
pub record Given (nums : Numbers) (json : Json) (Regex : Type 0) (pcre : Pcre) : Type 0 where
  pub conversions : Conversions nums json
  pub summaries : Summaries nums json
  pub surroundings : Surroundings
  pub more : More json
  pub unescape : Bytes → Option Bytes
  pub pcre_compile : Bytes → Option Regex
  pub clock : Clock
  pub kafka_lag : ℕ
  pub aborts : Bool
  pub setup_of : Bytes → Setup pcre
  pub team_of : Bytes → Team

module _ (nums : Numbers) (json : Json) (Regex : Type 0) (pcre : Pcre)
    (given : Given nums json Regex pcre) where
  pub data Caused : Type 0 where
    of_metric : Sampled nums json given.conversions → Caused
    of_transaction : Handled json → Caused
    of_span : SpanHandled json → Caused
    of_error : ErrorHandled json → Caused

  pub record Program : Type 0 where
    pub caused : List Caused
    pub teams : Teams nums
    pub urls : Bytes → TeamUrls
    pub regexes : Bytes → ByService (Regexes json Regex given.pcre_compile)

  -- Every handler returns false.
  abbrev done : ℕ → ℕ → Stats → Program → Answered Program
  done errored filtered s p = record {
    keep = false;
    stats = record s {
      messages_errored = add64 s.messages_errored errored;
      messages_filtered = add64 s.messages_filtered filtered;
    };
    state = p;
  }

  abbrev caused_by : Caused → Program → Program
  caused_by c p = record p { caused = p.caused ++ c ∷ [] }

  after_metric : Option (Sampled nums json given.conversions) → Stats → Program → Answered Program
  after_metric none s p = done 0 0 s p
  after_metric (some h) s p = done h.errored 0 s (caused_by (of_metric h) p)

  after_url : Option (Bytes × TeamUrls) → Stats → Program → Answered Program
  after_url none s p = done 0 0 s p
  after_url (some (team, v)) s p = done 0 0 s (record p { urls = at_team team v p.urls })

  after_regex :
      Option (Bytes × ByService (Regexes json Regex given.pcre_compile))
      → Stats
      → Program
      → Answered Program
  after_regex none s p = done 0 0 s p
  after_regex (some (team, v)) s p = done 0 0 s (record p { regexes = at_team team v p.regexes })

  -- The handler that tm_kafka_handle_message calls for an event.
  unfoldable pub handle : Event → json.Object → ℕ → Stats → Program → Option (Answered Program)
  unfolding after_metric after_url after_regex process_metric_message process_transaction_message
      process_span_message process_error_message process_aggregate_message process_url_message
      process_regex_message
  handle metric top ttl s p = some (
      after_metric
        (process_metric_message nums json given.conversions given.clock given.team_of top) s p)
  handle transaction top ttl s p = do
    h ←
        process_transaction_message json given.more pcre given.unescape given.kafka_lag given.aborts
          given.clock given.setup_of top
    some (done h.part.errored h.part.filtered s (caused_by (of_transaction h) p))
  handle span top ttl s p = do
    h ← process_span_message json pcre given.unescape given.clock given.setup_of top
    some (done h.errored 0 s (caused_by (of_span h) p))
  handle error top ttl s p = do
    h ← process_error_message json pcre given.clock given.setup_of top
    some (done h.errored 0 s (caused_by (of_error h) p))
  handle aggregate top ttl s p = do
    teams ← process_aggregate_message nums json given.summaries given.surroundings top p.teams
    some (done 0 0 s (record p { teams = teams }))
  handle url top ttl s p = some (after_url (process_url_message json top p.urls) s p)
  handle regex top ttl s p = do
    r ← process_regex_message json Regex given.pcre_compile top p.regexes
    some (after_regex r s p)

  after_metric-Leaves :
      (h : Option (Sampled nums json given.conversions)) (s : Stats) (p : Program)
      → Leaves s (after_metric h s p)
  unfolding after_metric
  after_metric-Leaves none s p = (refl, refl, refl, refl)
  after_metric-Leaves (some h) s p = (refl, refl, refl, refl)

  after_url-Leaves :
      (h : Option (Bytes × TeamUrls)) (s : Stats) (p : Program) → Leaves s (after_url h s p)
  unfolding after_url
  after_url-Leaves none s p = (refl, refl, refl, refl)
  after_url-Leaves (some h) s p = (refl, refl, refl, refl)

  after_regex-Leaves :
      (h : Option (Bytes × ByService (Regexes json Regex given.pcre_compile))) (s : Stats)
      (p : Program)
      → Leaves s (after_regex h s p)
  unfolding after_regex
  after_regex-Leaves none s p = (refl, refl, refl, refl)
  after_regex-Leaves (some h) s p = (refl, refl, refl, refl)

  -- No handler keeps the document, and none touches the counts of messages seen and processed or
  -- the offset.
  pub handle-Leaves :
      (event : Event) (top : json.Object) (ttl : ℕ) (s : Stats) (p : Program)
      → Holds (Leaves s) (handle event top ttl s p)
  unfolding handle
  handle-Leaves metric top ttl s p = after_metric-Leaves _ s p
  handle-Leaves transaction top ttl s p =
      elim (Option-cases (
        process_transaction_message json given.more pcre given.unescape given.kafka_lag given.aborts
          given.clock given.setup_of top)) [
            | inl n ↦ rw n tt
            | inr (h, n) ↦ rw n (refl, refl, refl, refl)
          ]
  handle-Leaves span top ttl s p =
      elim (Option-cases
        (process_span_message json pcre given.unescape given.clock given.setup_of top)) [
          | inl n ↦ rw n tt
          | inr (h, n) ↦ rw n (refl, refl, refl, refl)
        ]
  handle-Leaves error top ttl s p =
      elim (Option-cases (process_error_message json pcre given.clock given.setup_of top)) [
        | inl n ↦ rw n tt
        | inr (h, n) ↦ rw n (refl, refl, refl, refl)
      ]
  handle-Leaves aggregate top ttl s p =
      elim (Option-cases
        (process_aggregate_message nums json given.summaries given.surroundings top p.teams)) [
          | inl n ↦ rw n tt
          | inr (h, n) ↦ rw n (refl, refl, refl, refl)
        ]
  handle-Leaves url top ttl s p = after_url-Leaves _ s p
  handle-Leaves regex top ttl s p =
      elim (Option-cases (process_regex_message json Regex given.pcre_compile top p.regexes)) [
        | inl n ↦ rw n tt
        | inr (r, n) ↦ rw n (after_regex-Leaves r s p)
      ]
