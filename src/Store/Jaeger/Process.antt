-- ===== src/Store/Jaeger/Process.antt =====
-- The loops of `tm_transaction_store_process_jaeger` over the environments and their marks.
use tracemate.Base.{
  ℕ, ◌+◌, ◌-◌, ◌*◌, ◌%◌, Bool, true, false, Option, none, some, List, [], ◌∷◌, ◌++◌, leb, u64,
  if◌then◌else◌, ◌>>=◌, Bytes, codes,
}
use tracemate.Message.{Json, tm_service_name, tm_get_team}
use tracemate.Store.{Stored, root, child, opened, trace, Lmdb, Bloom, Codec, Env, Store, Config}
use tracemate.Store.Write.{Which, in_current, in_last, env_of}
use tracemate.Store.Read.{unpack, get_children}
use tracemate.Store.Jaeger.{
  jaeger_max_count, Dbi, first, second, dbi_of, jaeger_dbi_of, other_of, Event, team_data,
  jaegerize_transaction, pass_1, pass_2,
}

-- How the short transaction for the delete ends: no transaction, mdb_del refused, nothing
-- committed, or deleted.
pub data Delete : Type 0 where
  refused undeleted uncommitted deleted : Delete

module _ (lmdb : Lmdb) where
  -- A handle, used in a transaction of the environment.
  abbrev pub by_handle : Env lmdb → Dbi → lmdb.Db
  by_handle env first = env.ts
  by_handle env second = env.jaeger

  or_else : Option Stored → Option Stored → Option Stored
  or_else none w = w
  or_else (some v) w = some v

  -- `parent_cursor`, then `last_parent_cursor`; both stand in the transaction of `env`.
  unfoldable pub marked_root : Which → Env lmdb → Bytes → Option Stored
  unfolding or_else
  marked_root p env key =
      or_else (lmdb.get (by_handle env (dbi_of p)) key)
        (lmdb.get (by_handle env (dbi_of (other_of p))) key)

  -- The record that a key of "jaeger" leads to.
  unfoldable pub leads_to : Which → Env lmdb → Bytes → Stored → Option Stored
  unfolding marked_root
  leads_to p env key trace = marked_root p env key
  leads_to p env key (root r) = some (root r)
  leads_to p env key (child c) = some (child c)
  leads_to p env key (opened ms) = some (opened ms)

  module _ (bloom : Bloom) where
    abbrev pub del_jaeger : Which → Bytes → Store lmdb bloom → Store lmdb bloom
    del_jaeger in_current key s = record s {
      current_env = record s.current_env { jaeger = lmdb.del s.current_env.jaeger key };
    }
    del_jaeger in_last key s = record s {
      last_env = record s.last_env { jaeger = lmdb.del s.last_env.jaeger key };
    }

    module _ (json : Json) where
      pub record Progress : Type 0 where
        pub jaegered_count : ℕ
        pub events : List (Event json)
        pub store : Store lmdb bloom

      -- After a record: the next one, `break`, or `return 0`.
      pub data Outcome : Type 0 where
        next stop abort : Progress → Outcome

      unfoldable pub delete_mark :
          Delete → Which → Bytes → (Progress → Outcome) → Progress → Option Outcome
      delete_mark refused p key go g = some (abort g)
      delete_mark undeleted p key go g = none
      delete_mark uncommitted p key go g = some (go g)
      delete_mark deleted p key go g = some (go (record g { store = del_jaeger p key g.store }))

      counted : Progress → Outcome
      counted g =
          let g' = record g { jaegered_count = g.jaegered_count + 1 } in
          if leb jaeger_max_count g'.jaegered_count then stop g' else next g'

      module _ (codec : Codec json) where
        send_trace : json.Object → Bytes → List json.Object → Progress → Option Progress
        unfolding pass_1 pass_2
        send_trace trans team children g = do
          errors ← pass_1 json children []
          z ← pass_2 json trans team errors children (record {
            rejaegered_root = false;
            jaegered_count = g.jaegered_count + 1;
            events = g.events ++ (team_data team ∷ jaegerize_transaction trans team errors ∷ []);
          })
          some (record g { jaegered_count = z.jaegered_count; events = z.events })

        send_to : Which → Env lmdb → Bytes → json.Object → Option Bytes → Progress → Option Progress
        unfolding send_trace get_children
        send_to p env key trans none g = some g
        send_to p env key trans (some team) g = do
          children ← get_children codec lmdb (by_handle env (dbi_of p)) key
          send_trace trans team children g

        send_root_of : Which → Env lmdb → Bytes → Option json.Object → Progress → Option Progress
        unfolding send_to
        send_root_of p env key none g = some g
        send_root_of p env key (some trans) g =
            send_to p env key trans (tm_get_team (tm_service_name json (some trans))) g

        -- A text that is no JSON is dropped without being counted.
        unfoldable pub process_parsed :
            Delete → Which → Env lmdb → Bytes → Option json.Object → Progress → Option Outcome
        unfolding send_root_of delete_mark counted
        process_parsed d p env key none g = delete_mark d p key next g
        process_parsed d p env key (some o) g = do
          g' ← send_root_of p env key (json.get o (codes "transaction")) g
          delete_mark d p key counted g'

        -- mdb_cursor_del in a transaction that only reads leaves a record that cannot be
        -- decompressed.
        process_text : Delete → Which → Env lmdb → Bytes → Option Bytes → Progress → Option Outcome
        unfolding process_parsed
        process_text d p env key none g = some (next g)
        process_text d p env key (some text) g = process_parsed d p env key (codec.parse text) g

        unfoldable pub process_record :
            Delete → Which → Env lmdb → ℕ → Bytes → Option Stored → Progress → Option Outcome
        unfolding process_text unpack
        process_record d p env time_ms key none g = some (next g)
        process_record d p env time_ms key (some (root r)) g =
            if leb r.last_modified_ms time_ms
            then process_text d p env key (unpack codec r.compressed r.bytes) g
            else some (next g)
        process_record d p env time_ms key (some (child c)) g = none
        process_record d p env time_ms key (some (opened ms)) g = none
        process_record d p env time_ms key (some trace) g = none

        unfoldable pub after : Outcome → (Progress → Option Outcome) → Option Outcome
        after (next g) rest = rest g
        after (stop g) rest = some (next g)
        after (abort g) rest = some (abort g)

        -- The loop over the marks as they were when the transaction began; `answer` is how the
        -- delete of a key ends.
        unfoldable pub marks_loop :
            (Bytes → Delete)
            → Which
            → Env lmdb
            → ℕ
            → List (Bytes × Stored)
            → Progress
            → Option Outcome
        unfolding process_record leads_to after
        marks_loop answer p env time_ms [] g = some (next g)
        marks_loop answer p env time_ms ((key, v) ∷ rest) g = do
          outcome ← process_record (answer key) p env time_ms key (leads_to p env key v) g
          after outcome (marks_loop answer p env time_ms rest)

        -- One round of the outer loop; `opens` is whether the transaction and its cursors open.
        unfoldable pub process_env : Bool → (Bytes → Delete) → Which → ℕ → Progress → Option Outcome
        unfolding marks_loop
        process_env false answer p time_ms g = some (abort g)
        process_env true answer p time_ms g =
            let env = env_of lmdb bloom p g.store in
            marks_loop answer p env time_ms (lmdb.entries (by_handle env (jaeger_dbi_of p))) g

        answered : Outcome → ℕ × List (Event json) × Store lmdb bloom
        answered (next g) = (g.jaegered_count, g.events, g.store)
        answered (stop g) = (g.jaegered_count, g.events, g.store)
        answered (abort g) = (0, g.events, g.store)

        -- What is older is settled.
        abbrev pub settled_before : Config → ℕ → ℕ
        settled_before config now = (now + u64 - config.default_lookback_secs * 1000 % u64) % u64

        -- The number that is returned, the calls and the store.
        unfoldable pub tm_transaction_store_process_jaeger :
            Config
            → (Which → Bool)
            → (Which → Bytes → Delete)
            → ℕ
            → Store lmdb bloom
            → Option (ℕ × List (Event json) × Store lmdb bloom)
        unfolding process_env after answered
        tm_transaction_store_process_jaeger config opens answer now s = do
          let time_ms = settled_before config now
          let g : Progress = record { jaegered_count = 0; events = []; store = s }
          outcome ← process_env (opens in_current) (answer in_current) in_current time_ms g
          outcome' ← after outcome (process_env (opens in_last) (answer in_last) in_last time_ms)
          some (answered outcome')
