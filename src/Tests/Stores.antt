-- ===== src/Tests/Stores.antt =====
-- src/tm_transaction_store.c over association lists in place of LMDB, a list of keys in place of
-- the Bloom filter, and texts in place of JSON.
use tracemate.Base.{
  ◌+◌, Bool, true, false, ◌||◌, Option, none, some, List, [], ◌∷◌, inl, inr, Bytes, codes, take,
  Bool-cases, if◌then◌else◌, ◌≡◌, ◌≢◌, refl, sym, arith,
}
use tracemate.CString.{equal, starts_with}
use tracemate.CString.Search.{equal_iff, equal_self}
use tracemate.Message.{Json, tm_apm_server_major_version, tm_service_name, tm_get_team}
use tracemate.Store.{
  passes, RootRecord, Stored, root, child, opened, trace, Lmdb, LmdbLaws, Bloom, BloomLaws, Codec,
  CodecLaws, Env, Store, Config, all_read, all_written,
}
use tracemate.Store.Write.{
  Which, in_last, child_key, child_record, tm_transaction_store_put, tm_transaction_store_add_child,
  tm_transaction_store_mark_traceable,
}
use tracemate.Store.Read.{
  tm_transaction_store_get, parsed, decode_child, get_children, max_child_count,
}
use tracemate.Store.Rotate.{open_ms_key}
use tracemate.Store.Steps.{get_in}
use tracemate.Store.Effects.{get-put_stale, add_child-present}
use tracemate.Store.Children.{within, objects, Sound, get_children-eq}
use tracemate.Store.Jaeger.{team_data, jaegerize_span, Sending, pass_2}
use tracemate.Store.Jaeger.Process.{deleted, tm_transaction_store_process_jaeger}
use tracemate.Store.Jaeger.Idle.{process_jaeger_idle}
use tracemate.Store.Jaeger.Counted.{sent_to, pass_2-counted}

-- Every text has every member.
abbrev pub member_text : Bytes → Bytes
member_text name =
    if equal name (codes "event")
    then codes "span"
    else if equal name (codes "version")
    then codes "7.0"
    else if equal name (codes "id")
    then codes "7"
    else codes "ops-api"

abbrev pub texts : Json
texts = record {
  Object = Bytes;
  get = λ o name. some (member_text name);
  string = λ o. o;
  uint64 = λ o. 0;
  int = λ o. 0;
  members = λ o. [];
}

abbrev pub plain : Codec texts
plain = record {
  to_json_string = λ o. o;
  parse = λ s. some s;
  compress = λ s. some s;
  decompress = λ n s. some s;
  bound = λ n. n;
}

pub plain_laws : CodecLaws texts plain
plain_laws = record { parse-to_json_string = λ o. refl; decompress-compress = λ n s c e h. sym e }

abbrev pub find : List (Bytes × Stored) → Bytes → Option Stored
find [] k = none
find ((j, v) ∷ d) k = if equal j k then some v else find d k

abbrev pub without : List (Bytes × Stored) → Bytes → List (Bytes × Stored)
without [] k = []
without ((j, v) ∷ d) k = if equal j k then without d k else (j, v) ∷ without d k

abbrev pub table : Lmdb
table = record {
  Db = List (Bytes × Stored);
  empty = [];
  get = find;
  put = λ d k v. (k, v) ∷ d;
  del = without;
  from = λ d k. d;
  entries = λ d. d;
}

pub find-cons : (d : List (Bytes × Stored)) (k : Bytes) (v : Stored) → find ((k, v) ∷ d) k ≡ some v
find-cons d k v = rw (equal_self k) refl

pub find-cons_ne :
    (d : List (Bytes × Stored)) (j k : Bytes) (v : Stored) → j ≢ k → find ((k, v) ∷ d) j ≡ find d j
find-cons_ne d j k v ne = elim (Bool-cases (equal k j)) [
  | inl e ↦ absurd (ne (sym ((equal_iff k j).0 e)))
  | inr e ↦ rw e refl
]

pub table_laws : LmdbLaws table
table_laws = record { get-empty = λ k. refl; get-put = find-cons; get-put_ne = find-cons_ne }

abbrev pub holds : List Bytes → Bytes → Bool
holds [] k = false
holds (j ∷ f) k = equal j k || holds f k

abbrev pub keys : Bloom
keys = record {
  Filter = List Bytes;
  bloom_create = [];
  bloom_add = λ f k. k ∷ f;
  bloom_contains = holds;
}

pub keys_laws : BloomLaws keys
keys_laws = record {
  contains-add = λ f k. rw (equal_self k) refl;
  contains-add_kept = λ f j k h. ground arith;
}

abbrev pub config : Config
config = record { use_bloom_filters = true; default_lookback_secs = 30 }

abbrev pub id : Bytes
id = codes "t1"

abbrev pub env_with : List (Bytes × Stored) → List (Bytes × Stored) → Env table
env_with d j = record { ts = d; jaeger = j }

abbrev pub store_with : Env table → Env table → Store table keys
store_with c l = record {
  current_env = c;
  last_env = l;
  current_open_ms = 1000;
  last_open_ms = 500;
  current_bloom = id ∷ [];
  last_bloom = id ∷ [];
}

abbrev kept_root : RootRecord
kept_root = record {
  compressed = true;
  bytes = codes "{}";
  first_seen_ms = 900;
  last_modified_ms = 950;
  ttl = 330;
}

abbrev pub empty_store : Store table keys
empty_store = store_with (env_with [] []) (env_with [] [])

-- The last environment has the root.
abbrev older_store : Store table keys
older_store = store_with (env_with [] []) (env_with ((id, root kept_root) ∷ []) [])

abbrev put_store : Store table keys
put_store =
    (tm_transaction_store_put table keys plain config all_written 2000 id (codes "doc") 1500 0
      empty_store).1

abbrev marked_store : Store table keys
marked_store = tm_transaction_store_mark_traceable table keys all_written id put_store

abbrev rotated_store : Store table keys
rotated_store = record {
  current_env = env_with ((open_ms_key, opened 700000) ∷ []) [];
  last_env = record marked_store.current_env {
    ts = (open_ms_key, opened 700000) ∷ marked_store.current_env.ts;
  };
  current_open_ms = 700000;
  last_open_ms = 700000;
  current_bloom = [];
  last_bloom = marked_store.current_bloom;
}

pub id-ne : id ≢ open_ms_key
id-ne e = ground arith

get-put_stale_example :
    tm_transaction_store_get plain table keys config all_read all_read id
      (tm_transaction_store_put table keys plain config all_written 2000 id
        (codes "new")
        1500
        0
        older_store).1
    ≡ tm_transaction_store_get plain table keys config all_read all_read id older_store
unfolding equal
get-put_stale_example =
    get-put_stale table table_laws keys keys_laws texts plain plain_laws config 2000 (codes "new")
      1500 0 id older_store (root kept_root) refl refl

abbrev child_id : Bytes
child_id = codes "t1-7"

id_found : table.get older_store.last_env.ts id ≡ some (root kept_root)
unfolding equal
id_found = refl

id_passes : passes keys config older_store.last_bloom id ≡ true
unfolding equal
id_passes = refl

child_keyed : child_key table keys plain config id (codes "doc") ≡ some child_id
unfolding child_key equal tm_apm_server_major_version
child_keyed = refl

add_child-present_example :
    (t : Store table keys) × (tm_transaction_store_add_child table keys plain config all_read
        all_read all_written all_written 3000 id
        (some (codes "doc"))
        0
        older_store
      ≡ some (true, t))
    × (get_in table table_laws keys in_last t child_id
        ≡ some (child (child_record table keys plain config (codes "doc") 3000 0)))
    × (get_in table table_laws keys in_last t id
        ≡ some (root (record kept_root { last_modified_ms = 3000 })))
    × ((q : Which) (j : Bytes)
        → j ≢ child_id
        → j ≢ id
        → get_in table table_laws keys q t j ≡ get_in table table_laws keys q older_store j)
add_child-present_example =
    add_child-present table table_laws keys keys_laws texts plain plain_laws config 3000 id child_id
      (codes "doc") 0 older_store in_last kept_root (id_passes, id_found) child_keyed (λ e. cc)
      (λ e. ground arith)

abbrev flipped_store : Store table keys
flipped_store = record {
  current_env = env_with ((open_ms_key, opened 700000) ∷ []) [];
  last_env = env_with ((open_ms_key, opened 700000) ∷ []) [];
  current_open_ms = 700000;
  last_open_ms = 700000;
  current_bloom = [];
  last_bloom = id ∷ [];
}

abbrev child_of : Bytes → Stored
child_of o = child (record { compressed = true; bytes = o; first_seen_ms = 3000; ttl = 330 })

abbrev two_children : List (Bytes × Stored)
two_children =
    (id, root kept_root)
    ∷ (child_id, child_of (codes "a"))
    ∷ (codes "t1-8", child_of (codes "b"))
    ∷ (codes "t2", root kept_root)
    ∷ []

children-Sound : Sound texts plain (within id two_children)
unfolding equal starts_with decode_child
children-Sound = ((parsed (codes "a"), refl, λ e. cc), ((parsed (codes "b"), refl, λ e. cc), tt))

get_children-eq_example :
    get_children plain table two_children id
    ≡ some (take max_child_count (objects texts plain (within id (table.from two_children id))))
get_children-eq_example = get_children-eq texts plain table two_children id children-Sound

-- The mark and the root stand in different environments.
abbrev split_store : Store table keys
split_store = store_with (env_with [] ((id, trace) ∷ [])) (env_with ((id, root kept_root) ∷ []) [])

process_jaeger_idle_example :
    tm_transaction_store_process_jaeger table keys texts plain config
      (λ p. true)
      (λ p k. deleted)
      1000000
      split_store
    ≡ some (0, [], split_store)
process_jaeger_idle_example =
    process_jaeger_idle table keys texts plain config (λ p k. deleted) 1000000 split_store
      (inl refl, tt) tt

abbrev one_sent : Sending texts
one_sent = record { rejaegered_root = false; jaegered_count = 1; events = [] }

abbrev two_sent : Sending texts
two_sent = record {
  rejaegered_root = false;
  jaegered_count = 2;
  events = team_data (codes "ops") ∷ jaegerize_span (codes "a") (codes "ops") [] ∷ [];
}

passed : pass_2 texts (codes "doc") (codes "ops") [] (codes "a" ∷ []) one_sent ≡ some two_sent
unfolding pass_2 equal tm_service_name tm_get_team
passed = refl

pass_2-counted_example :
    sent_to texts (codes "ops") two_sent.events + 1
    ≡ sent_to texts (codes "ops") one_sent.events + 2
pass_2-counted_example =
    pass_2-counted texts (codes "doc") (codes "ops") [] (codes "a" ∷ []) one_sent two_sent passed
