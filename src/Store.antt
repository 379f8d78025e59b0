-- ===== src/Store.antt =====
-- src/tm_transaction_store.c: the transactions whose spans are still coming in, in two LMDB
-- environments. LMDB, json-c, LZ4 and the Bloom filters of src/bloom are parameters, each with the
-- laws that the theorems rest on. The lock is left out: a call is one step.
pub mod Write
pub mod Read
pub mod Rotate
pub mod RoundTrip
pub mod Steps
pub mod Kept
pub mod Calls
pub mod Flip
pub mod Jaeger
pub mod Children
pub mod Effects
pub mod Retention
use tracemate.Base.{
  ℕ, ◌≤◌, Bool, true, false, not, ◌||◌, Option, none, some, List, Bytes, codes, length, ◌≡◌, ◌≢◌,
  ◌↔◌,
}
use tracemate.Message.{Json}

-- `lmdb_stored_root_t`, without the word that is not used; `compressed` is what the magic word
-- says.
pub record RootRecord : Type 0 where
  pub compressed : Bool
  pub bytes : Bytes
  pub first_seen_ms : ℕ
  pub last_modified_ms : ℕ
  pub ttl : ℕ

-- `lmdb_stored_child_t`
pub record ChildRecord : Type 0 where
  pub compressed : Bool
  pub bytes : Bytes
  pub first_seen_ms : ℕ
  pub ttl : ℕ

-- What stands under a key: a root, a child, the time of creation of the environment, or the five
-- bytes "trace".
pub data Stored : Type 0 where
  root : RootRecord → Stored
  child : ChildRecord → Stored
  opened : ℕ → Stored
  trace : Stored

-- One database of an environment: `get` is mdb_cursor_get with MDB_SET_KEY, `from` what a cursor
-- runs through from MDB_SET_RANGE on, `entries` from MDB_FIRST on.
pub record Lmdb : Type 1 where
  pub Db : Type 0
  pub empty : Db
  pub get : Db → Bytes → Option Stored
  pub put : Db → Bytes → Stored → Db
  pub del : Db → Bytes → Db
  pub from : Db → Bytes → List (Bytes × Stored)
  pub entries : Db → List (Bytes × Stored)

pub record LmdbLaws (lmdb : Lmdb) : Type 0 where
  pub get-empty : (k : Bytes) → lmdb.get lmdb.empty k ≡ none
  pub get-put : (d : lmdb.Db) (k : Bytes) (v : Stored) → lmdb.get (lmdb.put d k v) k ≡ some v
  pub get-put_ne :
      (d : lmdb.Db) (j k : Bytes) (v : Stored) → j ≢ k → lmdb.get (lmdb.put d k v) j ≡ lmdb.get d j

-- `bloom_t`
pub record Bloom : Type 1 where
  pub Filter : Type 0
  pub bloom_create : Filter
  pub bloom_add : Filter → Bytes → Filter
  pub bloom_contains : Filter → Bytes → Bool

-- A filter has no false negatives.
pub record BloomLaws (bloom : Bloom) : Type 0 where
  pub contains-add :
      (f : bloom.Filter) (k : Bytes) → bloom.bloom_contains (bloom.bloom_add f k) k ≡ true
  pub contains-add_kept :
      (f : bloom.Filter) (j k : Bytes)
      → bloom.bloom_contains f j ≡ true
      → bloom.bloom_contains (bloom.bloom_add f k) j ≡ true

-- json-c's printer and parser, and LZ4: `decompress n` writes at most `n` bytes, and `bound` is
-- mtev_compress_bound.
pub record Codec (json : Json) : Type 0 where
  pub to_json_string : json.Object → Bytes
  pub parse : Bytes → Option json.Object
  pub compress : Bytes → Option Bytes
  pub decompress : ℕ → Bytes → Option Bytes
  pub bound : ℕ → ℕ

pub record CodecLaws (json : Json) (codec : Codec json) : Type 0 where
  pub parse-to_json_string : (o : json.Object) → codec.parse (codec.to_json_string o) ≡ some o
  pub decompress-compress :
      (n : ℕ) (s c : Bytes)
      → codec.compress s ≡ some c
      → length s ≤ n
      → codec.decompress n c ≡ some s

module _ (lmdb : Lmdb) where
  -- An environment: its databases "ts" and "jaeger".
  pub record Env : Type 0 where
    pub ts : lmdb.Db
    pub jaeger : lmdb.Db

module _ (lmdb : Lmdb) (bloom : Bloom) where
  -- The static variables of the file.
  pub record Store : Type 0 where
    pub current_env : Env lmdb
    pub last_env : Env lmdb
    pub current_open_ms : ℕ
    pub last_open_ms : ℕ
    pub current_bloom : bloom.Filter
    pub last_bloom : bloom.Filter

-- `tm_transaction_store_entry_t`; `none` is NULL as its data.
pub record StoreEntry (json : Json) : Type 0 where
  pub first_seen_ms : ℕ
  pub last_modified_ms : ℕ
  pub data_ : Option json.Object

-- What `tm_transaction_store_init` sets once.
pub record Config : Type 0 where
  pub use_bloom_filters : Bool
  pub default_lookback_secs : ℕ

-- Whether the calls of a read transaction succeed: `get` may also fail with another code than
-- MDB_NOTFOUND.
pub record Reads : Type 0 where
  pub begin_ok : Bool
  pub open_ok : Bool
  pub get_ok : Bool

-- Whether the calls of a write transaction succeed; what is aborted, or not committed, changes
-- nothing.
pub record Writes : Type 0 where
  pub begin_ok : Bool
  pub open_ok : Bool
  pub put_ok : Bool
  pub commit_ok : Bool

abbrev pub all_read : Reads
all_read = record { begin_ok = true; open_ok = true; get_ok = true }

abbrev pub all_written : Writes
all_written = record { begin_ok = true; open_ok = true; put_ok = true; commit_ok = true }

-- Without filters, or where the filter has the key, an environment is looked into.
abbrev pub passes : (bloom : Bloom) → Config → bloom.Filter → Bytes → Bool
passes bloom config filter id = not config.use_bloom_filters || bloom.bloom_contains filter id
