-- ===== src/Tests/Aggregates.antt =====
-- src/tm_process_aggregate.c on small messages: doubles are numbers, and a histogram is the list of
-- its samples.
use tracemate.Base.{
  ℕ, ◌+◌, ◌%◌, true, List, [], ◌∷◌, ◌++◌, Option, none, some, if◌then◌else◌, Bytes, codes, u64, ◌≡◌,
  ◌≢◌, refl, arith, All,
}
use tracemate.CString.{equal}
use tracemate.Metric.{Numbers, MetricKey, make_metric_key, make_integer_value}
use tracemate.Metric.Upsert.{upsert}
use tracemate.Metric.Table.{find, store}
use tracemate.Metric.Update.{Metrics}
use tracemate.Metric.Counter.{Counters, amount}
use tracemate.Message.{Json, tm_service_name, tm_get_team}
use tracemate.Message.Tags.{build_agg_tag_string}
use tracemate.Aggregate.{deliver, inbound, inbound_histogram}
use tracemate.Aggregate.Key.{Buffers, parse_key}
use tracemate.Aggregate.Key.Routing.{IsServiceByte, parse_key-build_agg_tag_string}
use tracemate.Aggregate.Rollup.{Summaries, Surroundings}
use tracemate.Aggregate.Rollup.Kept.{IsRollupKey}
use tracemate.Aggregate.Histogram.{histogram_of, inbound_histogram_lem}
use tracemate.Aggregate.Deliver.{deliver_lem}
use tracemate.Teams.{Teams, get_team_data, retrieve}
use tracemate.Aggregate.Sums.{receive, received, receive-received}

abbrev counts : Numbers
counts = record {
  Double = ℕ;
  zero_double = 0;
  plus = λ a b. a + b;
  Hist = List ℕ;
  hist_alloc = [];
  hist_insert = λ h d. d ∷ h;
  hist_accumulate = λ h g. h ++ g;
}

-- An object is a number, a text, or holds one field; a text is its own bytes as the number 5.
data Value : Type 0 where
  words : Bytes → Value
  field : Bytes → Value → Value

abbrev get_field : Value → Bytes → Option Value
get_field (words s) name = none
get_field (field n v) name = if equal n name then some v else none

abbrev text_of : Value → Bytes
text_of (words s) = s
text_of (field n v) = []

abbrev fields : Json
fields = record {
  Object = Value;
  get = get_field;
  string = text_of;
  uint64 = λ v. 5;
  int = λ v. 5;
  members = λ v. [];
}

abbrev sums : Summaries counts fields
sums = record {
  isnormal = λ d. true;
  mean = λ h. 1;
  stddev = λ h. 1;
  quantile = λ h p. p;
  hist_deserialize = λ s. s;
  double_of = λ o. 1;
}

abbrev noon : Surroundings
noon = record { now = 9000; owner = 1; uninitialised = 77 }

-- A message of a server of version 6 whose service has that name.
abbrev message_of : Bytes → Value
message_of name =
    field (codes "context") (field (codes "service") (field (codes "name") (words name)))

abbrev unread : Buffers
unread = record { service_name = none; team = some (codes "web") }

ops_name : All IsServiceByte (codes "o-a")
ops_name = (
  ((λ e. ground arith), (λ e. ground arith), (λ e. ground arith)),
  (
    ((λ e. ground arith), (λ e. ground arith), (λ e. ground arith)),
    (((λ e. ground arith), (λ e. ground arith), (λ e. ground arith)), tt),
  ),
)

parse_key-build_agg_tag_string_example :
    parse_key (codes "m|ST[service:o-a,host:all,ip:all]") unread
    ≡ some (true, record { service_name = some (codes "o-a"); team = some (codes "o") })
unfolding tm_get_team build_agg_tag_string tm_service_name equal
parse_key-build_agg_tag_string_example =
    parse_key-build_agg_tag_string fields (message_of (codes "o-a")) (codes "m") (codes "o-a")
      (codes "o") (codes "service:o-a,host:all,ip:all") [] unread refl refl refl
      ((λ e. ground arith), tt) ops_name (omega arith)

abbrev entries : List (Bytes × Value)
entries =
    (codes "m", field (codes "_value") (words (codes "5")))
    ∷ (codes "m", field (codes "_value") (words (codes "5")))
    ∷ []

receive-received_example :
    (t' : Metrics counts) × (receive counts fields sums noon entries [] ≡ some t')
    × Counters counts t'
    × ((k : MetricKey)
        → amount counts t' k
          ≡ (amount counts [] k + received counts fields sums noon entries k) % u64)
unfolding find equal
receive-received_example =
    receive-received counts fields sums noon entries [] (omega arith, (omega arith, tt)) (λ k. tt)

abbrev samples : Value
samples = field (codes "_value") (words (codes "h"))

inbound_histogram_lem_example :
    (t' : Metrics counts) × (inbound_histogram counts fields sums noon
        (codes "a - latency|ST[]")
        samples
        []
      ≡ some t')
    × (histogram_of counts fields sums (find (make_metric_key (codes "a - latency|ST[]") 0) t')
        ≡ some (codes "h"))
    × ((j : MetricKey)
        → j ≢ make_metric_key (codes "a - latency|ST[]") 0
        → ¬ IsRollupKey (codes "a - latency|ST[]") 0 j
        → find j t' ≡ none)
unfolding find equal
inbound_histogram_lem_example =
    inbound_histogram_lem counts fields sums noon (codes "a - latency|ST[]") samples
      (words (codes "h")) [] refl (omega arith) tt (λ j i. tt)

-- A count without a value, and the table that it makes.
abbrev no_count : Value
no_count = field (codes "_type") (words (codes "L"))

abbrev one_counter : Metrics counts
one_counter = (make_metric_key (codes "m") 0, make_integer_value counts 0 9000 1) ∷ []

deliver_lem_example :
    (teams' : Teams counts) × (deliver counts fields sums noon (codes "m") no_count (codes "web") []
      ≡ some teams')
    × (retrieve counts (codes "web") teams' ≡ some one_counter)
    × ((other : Bytes)
        → other ≢ codes "web"
        → retrieve counts other teams' ≡ retrieve counts other [])
unfolding equal inbound get_team_data retrieve upsert store make_metric_key find
deliver_lem_example =
    deliver_lem counts fields sums noon (codes "m") no_count (words (codes "L")) (codes "web") []
      one_counter refl refl
