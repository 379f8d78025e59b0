-- ===== src/Store/Effects.antt =====
-- What one call does to the store, and what it answers.
use tracemate.Base.{
  ℕ, Bool, true, false, Option, none, some, [], ◌∷◌, inl, inr, Bytes, Bool-cases, if◌then◌else◌,
  ◌≡◌, ◌≢◌, refl, sym, subst, ap, ◌∙◌, arith,
}
use tracemate.Message.{Json}
use tracemate.Store.{
  RootRecord, Stored, root, child, Lmdb, LmdbLaws, Bloom, BloomLaws, Codec, CodecLaws, Env, Store,
  Config, passes, all_read, all_written,
}
use tracemate.Store.Write.{
  Which, in_current, in_last, root_record, child_record, find_parent, check_current, present,
  child_key, is_empty, write_child, touched, add_to, put_ts, tm_transaction_store_put,
  tm_transaction_store_add_child,
}
use tracemate.Store.Read.{tm_transaction_store_get}
use tracemate.Store.Rotate.{
  new_env, open_env, with_open_ms, opened_store, open_environments, open_ms_key, rotate, is_due,
  counted_if_any, tm_transaction_store_delete_old_transactions,
}
use tracemate.Store.RoundTrip.{Passes, get-last}
use tracemate.Store.Steps.{get_in, get-put_ts, get-put_ts_ne}

module _ (lmdb : Lmdb) (laws : LmdbLaws lmdb) (bloom : Bloom) (bloom_laws : BloomLaws bloom)
    (json : Json) (codec : Codec json) (codec_laws : CodecLaws json codec) (config : Config) where
  last-if_bloom :
      (b : Bool) (f : bloom.Filter) (s : Store lmdb bloom)
      → ((if b then record s { current_bloom = f } else s).last_env ≡ s.last_env)
        × ((if b then record s { current_bloom = f } else s).last_bloom ≡ s.last_bloom)
  last-if_bloom true f s = (refl, refl)
  last-if_bloom false f s = (refl, refl)

  is_empty-ne : (key : Bytes) → key ≢ [] → is_empty lmdb bloom codec config key ≡ false
  is_empty-ne [] ne = absurd (ne refl)
  is_empty-ne (c ∷ key) ne = refl

  -- As long as the last environment has a record under the id, and its filter does not rule the id
  -- out, a put under it is not seen, though every call of LMDB succeeds: a read returns what it
  -- returned before.
  pub get-put_stale :
      (now : ℕ) (o : json.Object) (ms ttl : ℕ) (id : Bytes) (s : Store lmdb bloom) (v : Stored)
      → Passes json codec codec_laws lmdb bloom config s.last_bloom id
      → lmdb.get s.last_env.ts id ≡ some v
      → tm_transaction_store_get codec lmdb bloom config all_read all_read id
          (tm_transaction_store_put lmdb bloom codec config all_written now id o ms ttl s).1
        ≡ tm_transaction_store_get codec lmdb bloom config all_read all_read id s
  unfolding tm_transaction_store_put
  get-put_stale now o ms ttl id s v p e =
      let h = last-if_bloom config.use_bloom_filters (bloom.bloom_add s.current_bloom id) (
        put_ts lmdb bloom in_current id (root (root_record lmdb bloom codec config o ms now ttl))
          s) in
      get-last json codec codec_laws lmdb bloom config id _
        (subst (λ f. Passes json codec codec_laws lmdb bloom config f id) (sym h.1) p)
        (ap (λ (x : Env lmdb). lmdb.get x.ts id) h.0 ∙ e)
      ∙ sym (get-last json codec codec_laws lmdb bloom config id s p e)

  -- Where the root of a trace is: in the last environment, whose filter does not rule it out, or
  -- not there but in the current one, whose filter does not rule it out.
  abbrev pub HasRoot : Which → Bytes → RootRecord → Store lmdb bloom → Type 0
  HasRoot in_last trace_id r s =
      Passes json codec codec_laws lmdb bloom config s.last_bloom trace_id
      × (lmdb.get s.last_env.ts trace_id ≡ some (root r))
  HasRoot in_current trace_id r s =
      (lmdb.get s.last_env.ts trace_id ≡ none)
      × Passes json codec codec_laws lmdb bloom config s.current_bloom trace_id
      × (lmdb.get s.current_env.ts trace_id ≡ some (root r))

  find_parent-HasRoot :
      (trace_id : Bytes) (s : Store lmdb bloom) (p : Which) (r : RootRecord)
      → HasRoot p trace_id r s
      → find_parent lmdb bloom codec config all_read all_read trace_id s ≡ present p (root r)
  unfolding find_parent check_current
  find_parent-HasRoot trace_id s in_last r (passed, found) = rw (passed, found) refl
  find_parent-HasRoot trace_id s in_current r (missed, passed, found) =
      elim (Bool-cases (passes bloom config s.last_bloom trace_id)) [
        | inl on ↦ rw (on, missed, passed, found) refl
        | inr off ↦ rw (off, passed, found) refl
      ]

  -- A child whose trace has a root goes to the environment that has it, the last one being asked
  -- first, as long as no call of LMDB fails and the child's key is neither empty nor the trace's
  -- id: the answer is true, the child's record stands under its key, the root's record differs only
  -- in its last-modified time, which is now, and under every other key both environments hold what
  -- they held.
  pub add_child-present :
      (now : ℕ) (trace_id key : Bytes) (message : json.Object) (ttl : ℕ) (s : Store lmdb bloom)
      (p : Which) (r : RootRecord)
      → HasRoot p trace_id r s
      → child_key lmdb bloom codec config trace_id message ≡ some key
      → key ≢ []
      → trace_id ≢ key
      → (t : Store lmdb bloom) × (tm_transaction_store_add_child lmdb bloom codec config all_read
            all_read all_written all_written now trace_id
            (some message)
            ttl
            s
          ≡ some (true, t))
        × (get_in lmdb laws bloom p t key
            ≡ some (child (child_record lmdb bloom codec config message now ttl)))
        × (get_in lmdb laws bloom p t trace_id ≡ some (root (record r { last_modified_ms = now })))
        × ((q : Which) (j : Bytes)
            → j ≢ key
            → j ≢ trace_id
            → get_in lmdb laws bloom q t j ≡ get_in lmdb laws bloom q s j)
  unfolding tm_transaction_store_add_child add_to write_child touched
  add_child-present now trace_id key message ttl s p r has k ne ne' =
      let found = find_parent-HasRoot trace_id s p r has in
      let parent = root (record r { last_modified_ms = now }) in
      let u = put_ts lmdb bloom p trace_id parent s in
      (
        put_ts lmdb bloom p key (child (child_record lmdb bloom codec config message now ttl)) u,
        rw (k, found, is_empty-ne key ne) refl,
        get-put_ts lmdb laws bloom p key _ u,
        get-put_ts_ne lmdb laws bloom p p key trace_id _ u ne'
            ∙ get-put_ts lmdb laws bloom p trace_id _ s,
        λ q j h h'.
            get-put_ts_ne lmdb laws bloom q p key j _ u h
            ∙ get-put_ts_ne lmdb laws bloom q p trace_id j _ s h',
      )

  opened_store_first :
      (c l : bloom.Filter) (x y : Option (Env lmdb × ℕ)) (t : Store lmdb bloom)
      → opened_store lmdb bloom c l x y ≡ some t
      → x ≡ some (t.current_env, t.current_open_ms)
  unfolding opened_store
  opened_store_first c l none y t e = absurd (cc)
  opened_store_first c l (some x) none t e = absurd (cc)
  opened_store_first c l (some (x, m)) (some (y, n)) t e = ground arith

  opened_now :
      (now ms : ℕ) (env env' : Env lmdb) (v : Option Stored)
      → v ≡ none
      → with_open_ms lmdb now env v ≡ some (env', ms)
      → ms ≡ now
  unfolding with_open_ms
  opened_now now ms env env' none n e = ground arith
  opened_now now ms env env' (some v) n e = absurd (cc)

  rotate-opened :
      (now : ℕ) (s t : Store lmdb bloom)
      → rotate lmdb bloom config now s ≡ some t
      → t.current_open_ms ≡ now
  unfolding rotate open_environments open_env
  rotate-opened now s t e =
      opened_now now t.current_open_ms (new_env lmdb) t.current_env
        (lmdb.get lmdb.empty open_ms_key) (laws.get-empty open_ms_key)
        (opened_store_first _ _ _ _ t e)

  counted_if_any-some :
      (m n : ℕ) (o : Option (Store lmdb bloom)) (t : Store lmdb bloom)
      → counted_if_any lmdb bloom m o ≡ some (n, t)
      → o ≡ some t
  unfolding counted_if_any
  counted_if_any-some m n none t e = absurd (cc)
  counted_if_any-some m n (some s) t e = ground arith

  not_due :
      (now : ℕ) (t : Store lmdb bloom)
      → is_due lmdb bloom now t ≡ false
      → tm_transaction_store_delete_old_transactions lmdb bloom config now t ≡ some (0, t)
  unfolding tm_transaction_store_delete_old_transactions
  not_due now t e = rw e refl

  -- After a deletion of old transactions that returned, a second one at the same time returns 0 and
  -- changes nothing.
  pub delete_old_transactions_idem :
      (now n : ℕ) (s t : Store lmdb bloom)
      → tm_transaction_store_delete_old_transactions lmdb bloom config now s ≡ some (n, t)
      → tm_transaction_store_delete_old_transactions lmdb bloom config now t ≡ some (0, t)
  unfolding tm_transaction_store_delete_old_transactions
  delete_old_transactions_idem now n s t e =
      not_due now t (elim (Bool-cases (is_due lmdb bloom now s)) [
        | inr off ↦
            let h : s ≡ t = ground (arith, rw off at e) in
            subst (λ x. is_due lmdb bloom now x ≡ false) h off
        | inl on ↦
            let h = rotate-opened now s t (counted_if_any-some _ n _ t (rw on at e)) in ground arith
      ])
