-- ===== src/Store/Jaeger.antt =====
-- `tm_transaction_store_process_jaeger`: the marked traces that have settled go to Jaeger. What
-- src/tm_jaeger.cpp does with a transaction or a span is outside: a call of it is an event. `none`
-- as a result stands for a program that goes wrong: a NULL string that is read, an event that is
-- used after it was freed, a record of another kind than the code takes it for, or a commit after
-- an abort.
pub mod Process
pub mod Idle
pub mod Counted
use tracemate.Base.{
  ℕ, suc, ◌+◌, ◌-◌, ◌*◌, ◌%◌, Bool, true, false, not, ◌&&◌, ◌||◌, Option, none, some, List, [], ◌∷◌,
  ◌++◌, leb, ltb, u64, if◌then◌else◌, ◌>>=◌, Bytes, codes,
}
use tracemate.CString.{equal}
use tracemate.Message.{Json, tm_service_name, tm_get_team}
use tracemate.Store.{
  RootRecord, Stored, root, child, opened, trace, Lmdb, Bloom, Codec, Env, Store, Config,
}
use tracemate.Store.Write.{Which, in_current, in_last, env_of}
use tracemate.Store.Read.{unpack, get_children}

-- JAEGER_MAX_COUNT
abbrev pub jaeger_max_count : ℕ
jaeger_max_count = 200

-- `MDB_dbi`: the number of a database within its environment. In either environment "ts" is opened
-- first and "jaeger" second.
pub data Dbi : Type 0 where
  first second : Dbi

-- current_dbi, last_dbi, current_jaeger_dbi and last_jaeger_dbi
abbrev pub dbi_of : Which → Dbi
dbi_of in_current = first
dbi_of in_last = first

abbrev pub jaeger_dbi_of : Which → Dbi
jaeger_dbi_of in_current = second
jaeger_dbi_of in_last = second

abbrev pub other_of : Which → Which
other_of in_current = in_last
other_of in_last = in_current

module _ (json : Json) where
  -- `span_errors`: the errors by the id of their parent; what is there already stays.
  abbrev pub SpanErrors : Type 0
  SpanErrors = List (Bytes × json.Object)

  unfoldable pub store_error : Bytes → json.Object → SpanErrors → SpanErrors
  unfolding equal
  store_error parent_hex o [] = (parent_hex, o) ∷ []
  store_error parent_hex o ((k, e) ∷ errors) =
      if equal k parent_hex then (k, e) ∷ errors else (k, e) ∷ store_error parent_hex o errors

  -- The calls that leave the file, in their order: of get_team_data, which adds a team that is new,
  -- jaegerize_transaction and jaegerize_span, the url given as the team it belongs to.
  pub data Event : Type 0 where
    team_data : Bytes → Event
    jaegerize_transaction jaegerize_span : json.Object → Bytes → SpanErrors → Event

  -- The string of an object that must be there.
  abbrev string_in : json.Object → Bytes → Option Bytes
  string_in o name = do x ← json.get o name; some (json.string x)

  pass_1_error : json.Object → Option json.Object → SpanErrors → Option SpanErrors
  unfolding store_error
  pass_1_error o none errors = none
  pass_1_error o (some parent) errors = do
    parent_hex ← string_in parent (codes "id")
    some (store_error parent_hex o errors)

  pass_1_child : json.Object → Option json.Object → SpanErrors → Option SpanErrors
  unfolding pass_1_error
  pass_1_child o none errors = some errors
  pass_1_child o (some processor) errors = do
    event ← string_in processor (codes "event")
    if equal event (codes "error")
        then pass_1_error o (json.get o (codes "parent")) errors
        else some errors

  unfoldable pub pass_1 : List json.Object → SpanErrors → Option SpanErrors
  unfolding pass_1_child
  pass_1 [] errors = some errors
  pass_1 (o ∷ children) errors = do
    errors' ← pass_1_child o (json.get o (codes "processor")) errors
    pass_1 children errors'

  -- `other_td`, with the call that finds it; that of another team than the root's.
  unfoldable pub other_team : Option Bytes → Option Bytes × List Event
  other_team none = (none, [])
  other_team (some span_team) = (some span_team, team_data span_team ∷ [])

  unfoldable pub different : Bytes → Option Bytes → Option Bytes
  different team none = none
  different team (some other) = if equal other team then none else some other

  -- An event to the root's team, and to the other one.
  unfoldable pub to_teams : (Bytes → Event) → Bytes → Option Bytes → List Event
  to_teams send team none = send team ∷ []
  to_teams send team (some other) = send team ∷ send other ∷ []

  unfoldable pub send_child : Bytes → json.Object → Bytes → Option Bytes → SpanErrors → List Event
  unfolding to_teams equal
  send_child event o team other errors =
      if equal event (codes "transaction")
      then to_teams (λ t. jaegerize_transaction o t errors) team other
      else if equal event (codes "span")
      then to_teams (λ t. jaegerize_span o t errors) team other
      else []

  abbrev pub is_sent : Bytes → Bool
  is_sent event = equal event (codes "transaction") || equal event (codes "span")

  -- The root goes to the first other team that is met, and to no further one.
  unfoldable pub send_root : json.Object → Bool → Option Bytes → SpanErrors → Bool × List Event
  send_root trans true other errors = (true, [])
  send_root trans false none errors = (false, [])
  send_root trans false (some other) errors = (true, jaegerize_transaction trans other errors ∷ [])

  -- What the second pass changes: `rejaegered_root`, `jaegered_count` and what was called.
  pub record Sending : Type 0 where
    pub rejaegered_root : Bool
    pub jaegered_count : ℕ
    pub events : List Event

  unfoldable pub pass_2_child :
      json.Object → Bytes → SpanErrors → json.Object → Option json.Object → Sending → Option Sending
  unfolding send_child send_root other_team different
  pass_2_child trans team errors o none z = some z
  pass_2_child trans team errors o (some processor) z =
      let (other_td, asked) = other_team (tm_get_team (tm_service_name json (some o))) in
      let other = different team other_td in
      let (rejaegered, again) = send_root trans z.rejaegered_root other errors in
      do
        event ← string_in processor (codes "event")
        some (record {
          rejaegered_root = rejaegered;
          jaegered_count = (if is_sent event then z.jaegered_count + 1 else z.jaegered_count);
          events = z.events ++ (asked ++ (again ++ send_child event o team other errors));
        })

  unfoldable pub pass_2 :
      json.Object → Bytes → SpanErrors → List json.Object → Sending → Option Sending
  unfolding pass_2_child
  pass_2 trans team errors [] z = some z
  pass_2 trans team errors (o ∷ children) z = do
    z' ← pass_2_child trans team errors o (json.get o (codes "processor")) z
    pass_2 trans team errors children z'
