-- ===== src/Store/Rotate.antt =====
-- `_tm_transaction_store_open_environments`, `tm_transaction_store_init` and
-- `tm_transaction_store_delete_old_transactions`. A failing call of LMDB stops the program there,
-- and the calls that move files are taken to succeed.
use tracemate.Base.{
  ℕ, ◌-◌, Bool, ◌&&◌, Option, none, some, List, [], ◌∷◌, ltb, if◌then◌else◌, Bytes, codes, length,
}
use tracemate.Store.{Stored, root, child, opened, trace, Lmdb, Bloom, Env, Store, Config}

abbrev pub open_ms_key : Bytes
open_ms_key = codes "tm_transaction_store_open_ms"

module _ (lmdb : Lmdb) where
  -- The environment of a directory without files.
  abbrev pub new_env : Env lmdb
  new_env = record { ts = lmdb.empty; jaeger = lmdb.empty }

  -- The environment once it is open, and the time of its creation; `none` is a record of another
  -- kind under the key.
  unfoldable pub with_open_ms : ℕ → Env lmdb → Option Stored → Option (Env lmdb × ℕ)
  with_open_ms now env none =
      some (record env { ts = lmdb.put env.ts open_ms_key (opened now) }, now)
  with_open_ms now env (some (opened ms)) = some (env, ms)
  with_open_ms now env (some (root r)) = none
  with_open_ms now env (some (child c)) = none
  with_open_ms now env (some trace) = none

  unfoldable pub open_env : ℕ → Env lmdb → Option (Env lmdb × ℕ)
  unfolding with_open_ms
  open_env now env = with_open_ms now env (lmdb.get env.ts open_ms_key)

module _ (lmdb : Lmdb) (bloom : Bloom) where
  -- Every key of the database is added.
  unfoldable pub populate : bloom.Filter → List (Bytes × Stored) → bloom.Filter
  populate filter [] = filter
  populate filter ((key, v) ∷ rest) = populate (bloom.bloom_add filter key) rest

  unfoldable pub opened_store :
      bloom.Filter
      → bloom.Filter
      → Option (Env lmdb × ℕ)
      → Option (Env lmdb × ℕ)
      → Option (Store lmdb bloom)
  opened_store current_bloom last_bloom none l = none
  opened_store current_bloom last_bloom (some c) none = none
  opened_store current_bloom last_bloom (some (current, current_ms)) (some (last, last_ms)) =
      some (record {
        current_env = current;
        last_env = last;
        current_open_ms = current_ms;
        last_open_ms = last_ms;
        current_bloom = current_bloom;
        last_bloom = last_bloom;
      })

  -- The two environments as they are on disk are opened, and the filters are those given.
  unfoldable pub open_environments :
      ℕ → Env lmdb → Env lmdb → bloom.Filter → bloom.Filter → Option (Store lmdb bloom)
  unfolding opened_store open_env
  open_environments now current last current_bloom last_bloom =
      opened_store current_bloom last_bloom (open_env lmdb now current) (open_env lmdb now last)

  -- With `create_blooms` the filters are made of what is there.
  populated : Config → Store lmdb bloom → Store lmdb bloom
  unfolding populate
  populated config s =
      if config.use_bloom_filters
      then record s {
        current_bloom = populate bloom.bloom_create (lmdb.entries s.current_env.ts);
        last_bloom = populate bloom.bloom_create (lmdb.entries s.last_env.ts);
      }
      else s

  populated_if_any : Config → Option (Store lmdb bloom) → Option (Store lmdb bloom)
  unfolding populated
  populated_if_any config none = none
  populated_if_any config (some s) = some (populated config s)

  unfoldable pub tm_transaction_store_init :
      Config → ℕ → Env lmdb → Env lmdb → Option (Store lmdb bloom)
  unfolding populated_if_any open_environments
  tm_transaction_store_init config now current last =
      populated_if_any config
        (open_environments now current last bloom.bloom_create bloom.bloom_create)

  abbrev pub ten_minutes_ms : ℕ
  ten_minutes_ms = 600000

  abbrev rotated_blooms : Config → Store lmdb bloom → bloom.Filter × bloom.Filter
  rotated_blooms config s =
      if config.use_bloom_filters
      then (bloom.bloom_create, s.current_bloom)
      else (s.current_bloom, s.last_bloom)

  -- The current environment becomes the last one, whose files are gone, and a new one is made.
  unfoldable pub rotate : Config → ℕ → Store lmdb bloom → Option (Store lmdb bloom)
  unfolding open_environments
  rotate config now s =
      let (current_bloom, last_bloom) = rotated_blooms config s in
      open_environments now (new_env lmdb) s.current_env current_bloom last_bloom

  abbrev pub is_due : ℕ → Store lmdb bloom → Bool
  is_due now s = ltb s.current_open_ms now && ltb ten_minutes_ms (now - s.current_open_ms)

  unfoldable pub counted_if_any : ℕ → Option (Store lmdb bloom) → Option (ℕ × Store lmdb bloom)
  counted_if_any n none = none
  counted_if_any n (some s) = some (n, s)

  -- The count that is returned is that of the environment that is kept.
  unfoldable pub tm_transaction_store_delete_old_transactions :
      Config → ℕ → Store lmdb bloom → Option (ℕ × Store lmdb bloom)
  unfolding rotate counted_if_any
  tm_transaction_store_delete_old_transactions config now s =
      if is_due now s
      then counted_if_any (length (lmdb.entries s.current_env.ts)) (rotate config now s)
      else some (0, s)
