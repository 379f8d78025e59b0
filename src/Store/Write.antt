-- ===== src/Store/Write.antt =====
-- `tm_transaction_store_put`, `tm_transaction_store_add_child` and
-- `tm_transaction_store_mark_traceable`. `none` as a result stands for a program that goes wrong: a
-- key that overruns its buffer, or a record of another kind than the code takes it for.
use tracemate.Base.{
  ℕ, ◌+◌, Bool, true, false, not, ◌&&◌, Option, none, some, [], ◌∷◌, ◌++◌, ltb, ◌==◌, if◌then◌else◌,
  ◌>>=◌, Bytes, codes, length,
}
use tracemate.CString.{equal}
use tracemate.Message.{Json, tm_apm_server_major_version}
use tracemate.Store.{
  RootRecord, ChildRecord, Stored, root, child, opened, trace, Lmdb, Bloom, Codec, Env, Store,
  Config, passes, Reads, Writes,
}

module _ {json : Json} (codec : Codec json) where
  -- What is stored of a text: whether it is compressed, and the bytes.
  packed : Bytes → Option Bytes → Bool × Bytes
  packed json_string none = (false, json_string)
  packed json_string (some compressed) = (true, compressed)

  unfoldable pub pack : json.Object → Bool × Bytes
  unfolding packed
  pack o = let s = codec.to_json_string o in packed s (codec.compress s)

-- if (ttl == 0) ttl = default_lookback_secs + 300;
abbrev pub ttl_or_default : Config → ℕ → ℕ
ttl_or_default config ttl = if ttl == 0 then config.default_lookback_secs + 300 else ttl

abbrev pub written : Writes → Bool
written w = w.begin_ok && w.open_ok && w.put_ok && w.commit_ok

-- The environments of the store, as an address that the code holds.
pub data Which : Type 0 where
  in_current in_last : Which

module _ (lmdb : Lmdb) (bloom : Bloom) where
  abbrev pub env_of : Which → Store lmdb bloom → Env lmdb
  env_of in_current s = s.current_env
  env_of in_last s = s.last_env

  abbrev pub put_ts : Which → Bytes → Stored → Store lmdb bloom → Store lmdb bloom
  put_ts in_current k v s = record s {
    current_env = record s.current_env { ts = lmdb.put s.current_env.ts k v };
  }
  put_ts in_last k v s = record s {
    last_env = record s.last_env { ts = lmdb.put s.last_env.ts k v };
  }

  abbrev pub seen_by_bloom : Config → Bytes → Store lmdb bloom → Store lmdb bloom
  seen_by_bloom config id s =
      if config.use_bloom_filters
      then record s { current_bloom = bloom.bloom_add s.current_bloom id }
      else s

  module _ {json : Json} (codec : Codec json) (config : Config) where
    abbrev pub root_record : json.Object → ℕ → ℕ → ℕ → RootRecord
    root_record o first_seen_ms now ttl = record {
      compressed = (pack codec o).0;
      bytes = (pack codec o).1;
      first_seen_ms = first_seen_ms;
      last_modified_ms = now;
      ttl = ttl_or_default config ttl;
    }

    unfoldable pub tm_transaction_store_put :
        Writes → ℕ → Bytes → json.Object → ℕ → ℕ → Store lmdb bloom → Bool × Store lmdb bloom
    unfolding pack
    tm_transaction_store_put w now id data_ first_seen_ms ttl s =
        if written w
        then (
          true,
          seen_by_bloom config id
              (put_ts in_current id (root (root_record data_ first_seen_ms now ttl)) s),
        )
        else (false, s)

    -- What the search for the parent comes to.
    pub data Parent : Type 0 where
      failed absent : Parent
      present : Which → Stored → Parent

    abbrev pub present_or : Which → Option Stored → Parent → Parent
    present_or place none other = other
    present_or place (some v) other = present place v

    unfoldable pub check_current : Reads → Bytes → Store lmdb bloom → Parent
    check_current r trace_id s =
        if passes bloom config s.current_bloom trace_id
        then (if r.begin_ok && r.open_ok && r.get_ok
            then present_or in_current (lmdb.get s.current_env.ts trace_id) absent
            else failed)
        else absent

    -- The last environment comes first.
    unfoldable pub find_parent : Reads → Reads → Bytes → Store lmdb bloom → Parent
    unfolding check_current
    find_parent r_last r_current trace_id s =
        let next = check_current r_current trace_id s in
        if passes bloom config s.last_bloom trace_id
        then (if r_last.begin_ok && r_last.open_ok && r_last.get_ok
            then present_or in_last (lmdb.get s.last_env.ts trace_id) next
            else failed)
        else next

    -- What snprintf prints for a string that may be NULL.
    abbrev or_null : Option json.Object → Bytes
    or_null none = codes "(null)"
    or_null (some o) = json.string o

    -- The object of the event in which the id stands, and the id's name.
    abbrev id_of : json.Object → Bytes → Bytes → Option json.Object
    id_of message part name = do o ← json.get message part; json.get o name

    unfoldable pub hex_id : ℕ → json.Object → Bytes → Bytes
    unfolding equal
    hex_id mv message ev =
        if equal ev (codes "span")
        then or_null (id_of message (codes "span") (if mv == 6 then codes "hex_id" else codes "id"))
        else if equal ev (codes "error")
        then or_null (id_of message (codes "error") (codes "id"))
        else if equal ev (codes "transaction")
        then or_null (id_of message (codes "transaction") (codes "id"))
        else codes "(null)"

    -- snprintf(root_key, 96, …), whose result is taken for the length of the key.
    unfoldable pub within_root_key : Bytes → Option Bytes
    within_root_key k = if ltb (length k) 96 then some k else none

    unfoldable pub key_for : json.Object → Bytes → Option json.Object → Option Bytes
    unfolding hex_id within_root_key
    key_for message trace_id none = some []
    key_for message trace_id (some event) = within_root_key (
        trace_id
        ++ (b'-'
            ∷ hex_id (tm_apm_server_major_version json (some message)) message (json.string event)))

    -- Without an event the key is empty, which LMDB refuses.
    unfoldable pub child_key : Bytes → json.Object → Option Bytes
    unfolding key_for
    child_key trace_id message =
        key_for message trace_id
          (do processor ← json.get message (codes "processor"); json.get processor (codes "event"))

    abbrev pub child_record : json.Object → ℕ → ℕ → ChildRecord
    child_record o now ttl = record {
      compressed = (pack codec o).0;
      bytes = (pack codec o).1;
      first_seen_ms = now;
      ttl = ttl_or_default config ttl;
    }

    abbrev pub is_empty : Bytes → Bool
    is_empty [] = true
    is_empty (c ∷ k) = false

    -- The second transaction: the child goes to the environment of its parent.
    unfoldable pub write_child :
        Writes → ℕ → Which → Bytes → json.Object → ℕ → Store lmdb bloom → Bool × Store lmdb bloom
    unfolding pack
    write_child w now place key message ttl s =
        if written w && not (is_empty key)
        then (true, put_ts place key (child (child_record message now ttl)) s)
        else (false, s)

    -- The parent's own transaction; that it was not committed goes unnoticed.
    unfoldable pub touched :
        Writes → ℕ → Which → Bytes → RootRecord → Store lmdb bloom → Store lmdb bloom
    touched w now place trace_id r s =
        if w.commit_ok
        then put_ts place trace_id (root (record r { last_modified_ms = now })) s
        else s

    unfoldable pub add_to :
        Writes
        → Writes
        → ℕ
        → Parent
        → Bytes
        → Bytes
        → json.Object
        → ℕ
        → Store lmdb bloom
        → Option (Bool × Store lmdb bloom)
    unfolding write_child touched
    add_to w_parent w_child now failed trace_id key message ttl s = some (false, s)
    add_to w_parent w_child now absent trace_id key message ttl s =
        some (write_child w_child now in_current key message ttl s)
    add_to w_parent w_child now (present place (root r)) trace_id key message ttl s =
        if w_parent.begin_ok && w_parent.open_ok && w_parent.put_ok
        then some (
            write_child w_child now place key message ttl (touched w_parent now place trace_id r s))
        else some (false, s)
    add_to w_parent w_child now (present place (child c)) trace_id key message ttl s = none
    add_to w_parent w_child now (present place (opened ms)) trace_id key message ttl s = none
    add_to w_parent w_child now (present place trace) trace_id key message ttl s = none

    -- `none` as the child is NULL.
    unfoldable pub tm_transaction_store_add_child :
        Reads
        → Reads
        → Writes
        → Writes
        → ℕ
        → Bytes
        → Option json.Object
        → ℕ
        → Store lmdb bloom
        → Option (Bool × Store lmdb bloom)
    unfolding add_to find_parent child_key
    tm_transaction_store_add_child r_last r_current w_parent w_child now trace_id none ttl s =
        some (false, s)
    tm_transaction_store_add_child r_last r_current w_parent w_child now trace_id (some message) ttl
          s =
        do
          key ← child_key trace_id message
          add_to w_parent w_child now (find_parent r_last r_current trace_id s) trace_id key message
              ttl s

  -- The mark always goes to the current environment.
  unfoldable pub tm_transaction_store_mark_traceable :
      Writes → Bytes → Store lmdb bloom → Store lmdb bloom
  tm_transaction_store_mark_traceable w trace_id s =
      if written w
      then record s {
        current_env = record s.current_env {
          jaeger = lmdb.put s.current_env.jaeger trace_id trace;
        };
      }
      else s
