-- ===== src/Aggregate.antt =====
-- src/tm_process_aggregate.c: the aggregates that come in from Kafka. `none` as a result stands for
-- a program that stops or goes wrong: a NULL string that is read, a buffer that is overrun or was
-- never written, a write through a member of the union that the entry's tag does not name.
pub mod Key
pub mod Rollup
pub mod Sums
pub mod Histogram
pub mod Deliver
use tracemate.Base.{
  ℕ, ◌==◌, ◌||◌, Bool, true, false, List, [], ◌∷◌, Option, none, some, if◌then◌else◌, ◌>>=◌, Bytes,
  codes, add64,
}
use tracemate.CString.{equal}
use tracemate.Metric.{
  Numbers, MetricKey, make_metric_key, Metric, number, text, histogram, integer, MetricValue,
  make_numeric_value, make_integer_value, make_value,
}
use tracemate.Metric.Table.{Table, find}
use tracemate.Metric.Upsert.{upsert}
use tracemate.Metric.Update.{Metrics, add_integer, add_double}
use tracemate.Message.{Json}
use tracemate.Teams.{Teams, get_team_data, changed}
use tracemate.Aggregate.Key.{Buffers, parse_key}
use tracemate.Aggregate.Rollup.{Summaries, Surroundings, rollups}

module _ (nums : Numbers) (json : Json) (sums : Summaries nums json) where
  open nums use {Hist, hist_accumulate}
  open json use {Object, get, string, uint64, int}

  -- mtev_json_object_get_uint64 and its like give 0 for NULL.
  abbrev pub number_of : (Object → ℕ) → Option Object → ℕ
  number_of read none = 0
  number_of read (some o) = read o

  abbrev pub timestamp_of : Object → ℕ
  timestamp_of val = number_of uint64 (get val (codes "_ts"))

  abbrev accumulate : Hist → ℕ → MetricValue nums → Option (MetricValue nums)
  accumulate h now v = elim v.metric [
    | histogram g ↦ some (record v { metric = histogram (hist_accumulate g h); last_seen = now })
    | _ ↦ none
  ]

  -- `count` of the new entry is what the memory held.
  abbrev new_histogram : Surroundings → Hist → MetricValue nums
  new_histogram s h = record (make_value nums (histogram h) s.now s.owner) {
    count = s.uninitialised;
  }

  -- The histogram that the rollups are made of.
  hist_at : Option (MetricValue nums) → Option Hist
  hist_at none = none
  hist_at (some v) = elim v.metric [ histogram h ↦ some h | _ ↦ none ]

  unfoldable pub inbound_histogram :
      Surroundings → Bytes → Object → Metrics nums → Option (Metrics nums)
  unfolding make_metric_key hist_at
  inbound_histogram s key val t = do
    value ← get val (codes "_value")
    let h = sums.hist_deserialize (string value)
    let mkey = make_metric_key key (timestamp_of val)
    t' ← upsert mkey (accumulate h s.now) (new_histogram s h) t t
    hist ← hist_at (find mkey t')
    rollups nums json sums s key hist (timestamp_of val) t'

  unfoldable pub inbound_integer :
      Surroundings → Bytes → Object → Metrics nums → Option (Metrics nums)
  unfolding make_metric_key
  inbound_integer s key val t =
      let count = number_of uint64 (get val (codes "_value")) in
      upsert (make_metric_key key (timestamp_of val)) (add_integer nums count s.now)
        (make_integer_value nums count s.now s.owner) t t

  abbrev at_least_one : ℕ → ℕ
  at_least_one count = if count == 0 then 1 else count

  unfoldable pub inbound_numeric :
      Surroundings → Bytes → Object → Metrics nums → Option (Metrics nums)
  unfolding make_metric_key
  inbound_numeric s key val t =
      let num = sums.double_of (get val (codes "_value")) in
      let count = at_least_one (number_of int (get val (codes "_count"))) in
      upsert (make_metric_key key (timestamp_of val)) (add_double nums num count s.now)
        (record (make_numeric_value nums num s.now s.owner) { count = count }) t t

  -- switch (*s), on the first byte of "_type"
  unfoldable pub inbound :
      Surroundings → Bytes → Object → Bytes → Metrics nums → Option (Metrics nums)
  unfolding inbound_histogram inbound_integer inbound_numeric
  inbound s key val [] t = some t
  inbound s key val (c ∷ type) t =
      if c == b'h'
      then inbound_histogram s key val t
      else if c == b'L'
      then inbound_integer s key val t
      else if c == b'n'
      then inbound_numeric s key val t
      else some t

  -- One key of the message that has a team.
  unfoldable pub deliver : Surroundings → Bytes → Object → Bytes → Teams nums → Option (Teams nums)
  unfolding inbound get_team_data changed
  deliver s key val team teams = do
    let found = get_team_data nums team teams
    type ← get val (codes "_type")
    t' ← inbound s key val (string type) found.0
    some (changed nums team t' found.1)

  skipped : Bytes → Bool
  unfolding equal
  skipped key = equal key (codes "processor") || equal key (codes "context")

  -- `parse_key` found no tags: the key is passed over.
  routed :
      Surroundings → Bytes → Object → Bool × Buffers → Teams nums → Option (Buffers × Teams nums)
  unfolding deliver
  routed s key val (false, buffers) teams = some (buffers, teams)
  routed s key val (true, buffers) teams = do
    team ← buffers.team
    teams' ← deliver s key val team teams
    some (buffers, teams')

  -- The loop over the members; both buffers keep what an earlier key left in them.
  members_loop : Surroundings → List (Bytes × Object) → Buffers → Teams nums → Option (Teams nums)
  unfolding skipped routed parse_key
  members_loop s [] buffers teams = some teams
  members_loop s ((key, val) ∷ rest) buffers teams =
      let pass = members_loop s rest in
      if skipped key then pass buffers teams else do
        parsed ← parse_key key buffers
        (buffers', teams') ← routed s key val parsed teams
        pass buffers' teams'

  unfoldable pub process_aggregate_message :
      Surroundings → Object → Teams nums → Option (Teams nums)
  unfolding members_loop
  process_aggregate_message s message teams =
      members_loop s (json.members message) (record { service_name = none; team = none }) teams
