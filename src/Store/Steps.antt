-- ===== src/Store/Steps.antt =====
-- The calls on the transaction store as steps, and what they leave under one key.
use tracemate.Base.{ℕ, zero, suc, Bool, true, Option, some, Bytes, ◌≡◌, ◌≢◌, ◌⊎◌, refl}
use tracemate.Message.{Json}
use tracemate.Store.{
  RootRecord, Stored, root, Lmdb, LmdbLaws, Bloom, Codec, Store, Config, Reads, Writes,
}
use tracemate.Store.Write.{
  Which, in_current, in_last, env_of, put_ts, tm_transaction_store_put,
  tm_transaction_store_add_child, tm_transaction_store_mark_traceable,
}
use tracemate.Store.Rotate.{rotate}

module _ (lmdb : Lmdb) (laws : LmdbLaws lmdb) (bloom : Bloom) where
  abbrev pub get_in : Which → Store lmdb bloom → Bytes → Option Stored
  get_in p s id = lmdb.get (env_of lmdb bloom p s).ts id

  pub get-put_ts_ne :
      (p q : Which) (k id : Bytes) (v : Stored) (s : Store lmdb bloom)
      → id ≢ k
      → get_in p (put_ts lmdb bloom q k v s) id ≡ get_in p s id
  get-put_ts_ne in_current in_current k id v s ne = laws.get-put_ne s.current_env.ts id k v ne
  get-put_ts_ne in_current in_last k id v s ne = refl
  get-put_ts_ne in_last in_current k id v s ne = refl
  get-put_ts_ne in_last in_last k id v s ne = laws.get-put_ne s.last_env.ts id k v ne

  pub get-put_ts :
      (p : Which) (k : Bytes) (v : Stored) (s : Store lmdb bloom)
      → get_in p (put_ts lmdb bloom p k v s) k ≡ some v
  get-put_ts in_current k v s = laws.get-put s.current_env.ts k v
  get-put_ts in_last k v s = laws.get-put s.last_env.ts k v

  pub get-put_ts_apart :
      (p q : Which) (k id : Bytes) (v : Stored) (s : Store lmdb bloom)
      → p ≢ q
      → get_in p (put_ts lmdb bloom q k v s) id ≡ get_in p s id
  get-put_ts_apart in_current in_current k id v s ne = absurd (ne refl)
  get-put_ts_apart in_current in_last k id v s ne = refl
  get-put_ts_apart in_last in_current k id v s ne = refl
  get-put_ts_apart in_last in_last k id v s ne = absurd (ne refl)

-- What was there is there still, but for the time of a root's last change.
abbrev pub Same : Option Stored → Option Stored → Type 0
Same a b =
    (a ≡ b)
    ⊎ ((r : RootRecord) × (now : ℕ) × (a ≡ some (root r))
        × (b ≡ some (root (record r { last_modified_ms = now }))))

module _ (lmdb : Lmdb) (laws : LmdbLaws lmdb) (bloom : Bloom) where
  -- Under the key `id` the step keeps both environments, and the filters forget nothing of it.
  pub record Kept (id : Bytes) (s t : Store lmdb bloom) : Type 0 where
    pub same : (p : Which) → Same (get_in lmdb laws bloom p s id) (get_in lmdb laws bloom p t id)
    pub current_bloom :
        bloom.bloom_contains s.current_bloom id ≡ true
        → bloom.bloom_contains t.current_bloom id ≡ true
    pub last_bloom : t.last_bloom ≡ s.last_bloom

module _ (lmdb : Lmdb) (bloom : Bloom) (json : Json) (codec : Codec json) (config : Config) where
  -- A call other than a put under `id`, with whatever its calls of LMDB answer.
  pub data Other (id : Bytes) : Store lmdb bloom → Store lmdb bloom → Type 0 where
    put :
        {j : Bytes} {s : Store lmdb bloom} (w : Writes) (now : ℕ) (o : json.Object)
        (first_seen_ms ttl : ℕ)
        → j ≢ id
        → Other id s
            (tm_transaction_store_put lmdb bloom codec config w now j o first_seen_ms ttl s).1
    add_child :
        {s t : Store lmdb bloom} {b : Bool} (r_last r_current : Reads) (w_parent w_child : Writes)
        (now : ℕ) (trace_id : Bytes) (message : Option json.Object) (ttl : ℕ)
        → tm_transaction_store_add_child lmdb bloom codec config r_last r_current w_parent w_child
            now trace_id message ttl s
          ≡ some (b, t)
        → Other id s t
    mark_traceable :
        {s : Store lmdb bloom} (w : Writes) (trace_id : Bytes)
        → Other id s (tm_transaction_store_mark_traceable lmdb bloom w trace_id s)

  -- Such calls, with `n` rotations between them.
  pub data Run (id : Bytes) : ℕ → Store lmdb bloom → Store lmdb bloom → Type 0 where
    here : {s : Store lmdb bloom} → Run id zero s s
    step : {n : ℕ} {s t u : Store lmdb bloom} → Other id s t → Run id n t u → Run id n s u
    flip :
        {n : ℕ} {s t u : Store lmdb bloom} (now : ℕ)
        → rotate lmdb bloom config now s ≡ some t
        → Run id n t u
        → Run id (suc n) s u
