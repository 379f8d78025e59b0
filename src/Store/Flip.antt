-- ===== src/Store/Flip.antt =====
-- What a rotation leaves under a key.
use tracemate.Base.{
  ℕ, true, Option, none, some, inl, inr, Bytes, Bool-cases, ◌≡◌, ◌≢◌, sym, ap, arith,
}
use tracemate.Store.{Stored, root, child, opened, trace, Lmdb, LmdbLaws, Bloom, Env, Store, Config}
use tracemate.Store.Rotate.{open_ms_key, with_open_ms, open_env, opened_store, rotate}

module _ (lmdb : Lmdb) (laws : LmdbLaws lmdb) where
  with_open_ms_lem :
      (now : ℕ) (env env' : Env lmdb) (ms : ℕ) (id : Bytes) (v : Option Stored)
      → id ≢ open_ms_key
      → with_open_ms lmdb now env v ≡ some (env', ms)
      → lmdb.get env'.ts id ≡ lmdb.get env.ts id
  unfolding with_open_ms
  with_open_ms_lem now env env' ms id none ne e =
      let h : record env { ts = lmdb.put env.ts open_ms_key (opened now) } ≡ env' = ground arith in
      rw (← h) (laws.get-put_ne env.ts id open_ms_key (opened now) ne)
  with_open_ms_lem now env env' ms id (some (opened m)) ne e =
      let h : env ≡ env' = ground arith in ap (λ (x : Env lmdb). lmdb.get x.ts id) (sym h)
  with_open_ms_lem now env env' ms id (some (root r)) ne e = absurd (cc)
  with_open_ms_lem now env env' ms id (some (child r)) ne e = absurd (cc)
  with_open_ms_lem now env env' ms id (some trace) ne e = absurd (cc)

  open_env_lem :
      (now : ℕ) (env env' : Env lmdb) (ms : ℕ) (id : Bytes)
      → id ≢ open_ms_key
      → open_env lmdb now env ≡ some (env', ms)
      → lmdb.get env'.ts id ≡ lmdb.get env.ts id
  unfolding open_env
  open_env_lem now env env' ms id ne e = with_open_ms_lem now env env' ms id _ ne e

  opened_store_lem :
      (bloom : Bloom) (c l : bloom.Filter) (x y : Option (Env lmdb × ℕ)) (t : Store lmdb bloom)
      → opened_store lmdb bloom c l x y ≡ some t
      → (y ≡ some (t.last_env, t.last_open_ms)) × (t.last_bloom ≡ l)
  unfolding opened_store
  opened_store_lem bloom c l none y t e = absurd (cc)
  opened_store_lem bloom c l (some x) none t e = absurd (cc)
  opened_store_lem bloom c l (some (x, m)) (some (y, n)) t e = ground arith

  pub rotate_lem :
      (bloom : Bloom) (config : Config) (now : ℕ) (s t : Store lmdb bloom) (id : Bytes)
      → id ≢ open_ms_key
      → rotate lmdb bloom config now s ≡ some t
      → (lmdb.get t.last_env.ts id ≡ lmdb.get s.current_env.ts id)
        × (config.use_bloom_filters ≡ true → t.last_bloom ≡ s.current_bloom)
  unfolding rotate
  rotate_lem bloom config now s t id ne e = elim (Bool-cases config.use_bloom_filters) [
    | inl on ↦
        let h = opened_store_lem bloom _ _ _ _ t (rw on at e) in
        (open_env_lem now s.current_env t.last_env t.last_open_ms id ne h.0, λ u. h.1)
    | inr off ↦
        let h = opened_store_lem bloom _ _ _ _ t (rw off at e) in
        (open_env_lem now s.current_env t.last_env t.last_open_ms id ne h.0, λ u. absurd (cc))
  ]
