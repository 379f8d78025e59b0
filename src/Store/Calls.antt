-- ===== src/Store/Calls.antt =====
-- The calls of the store other than a put keep what stands under a key without a dash.
use tracemate.Base.{
  ℕ, Bool, false, not, ◌&&◌, Option, none, some, [], inl, inr, Bytes, Holds, Option-cases,
  Bool-cases, ◌≡◌, ◌≢◌, ◌⊎◌, refl, sym, subst, ◌∙◌, arith,
}
use tracemate.CString.{equal}
use tracemate.CString.Search.{equal_iff}
use tracemate.Message.{Json}
use tracemate.Store.{
  RootRecord, Stored, root, child, opened, trace, Lmdb, LmdbLaws, Bloom, BloomLaws, Codec, Store,
  Config, Reads, Writes,
}
use tracemate.Store.Write.{
  Which, in_current, in_last, put_ts, root_record, seen_by_bloom, Parent, failed, absent, present,
  find_parent, child_key, key_for, within_root_key, write_child, touched, add_to, written, is_empty,
  tm_transaction_store_put, tm_transaction_store_add_child, tm_transaction_store_mark_traceable,
}
use tracemate.Store.Steps.{get_in, Kept, Other, put, add_child, mark_traceable}
use tracemate.Store.Kept.{
  Plain, Plain-ne, ne_of_equal, some_is_not_none, in_either, Kept-refl, if-Kept, Kept-trans,
  put_ts-Kept, touch-Kept,
}

module _ (lmdb : Lmdb) (laws : LmdbLaws lmdb) (bloom : Bloom) (bloom_laws : BloomLaws bloom)
    (json : Json) (codec : Codec json) (config : Config) where
  within_root_key-eq :
      (k : Bytes) {key : Bytes} → within_root_key lmdb bloom codec config k ≡ some key → k ≡ key
  unfolding within_root_key
  within_root_key-eq k e = ground arith

  key_for_cases :
      (trace_id : Bytes) (message : json.Object) (event : Option json.Object) {key : Bytes}
      (id : Bytes)
      → Plain id
      → key_for lmdb bloom codec config message trace_id event ≡ some key
      → (key ≡ []) ⊎ (id ≢ key)
  unfolding key_for
  key_for_cases trace_id message none id p e = inl (cc)
  key_for_cases trace_id message (some event) id p e =
      inr (λ h. Plain-ne id trace_id _ p (h ∙ sym (within_root_key-eq _ e)))

  child_key_cases :
      (trace_id : Bytes) (message : json.Object) {key : Bytes} (id : Bytes)
      → Plain id
      → child_key lmdb bloom codec config trace_id message ≡ some key
      → (key ≡ []) ⊎ (id ≢ key)
  unfolding child_key
  child_key_cases trace_id message id p e = key_for_cases trace_id message _ id p e

  touched-Kept :
      (w : Writes) (now : ℕ) (p : Which) (k id : Bytes) (r : RootRecord) (s : Store lmdb bloom)
      → get_in lmdb laws bloom p s k ≡ some (root r)
      → Kept lmdb laws bloom id s (touched lmdb bloom codec config w now p k r s)
  unfolding touched
  touched-Kept w now p k id r s e = elim (Bool-cases w.commit_ok) [
    | inr off ↦ rw off (Kept-refl lmdb laws bloom id s)
    | inl on ↦ rw on (elim (Bool-cases (equal k id)) [
      | inl same ↦
          subst
            (λ i.
              Kept lmdb laws bloom i s
                (put_ts lmdb bloom p k (root (record r { last_modified_ms = now })) s))
            ((equal_iff k id).0 same) (touch-Kept lmdb laws bloom p k r now s e)
      | inr other ↦ put_ts-Kept lmdb laws bloom p k id _ s (ne_of_equal k id other)
    ])
  ]

  write_child-nil :
      (w : Writes) (now : ℕ) (p : Which) (message : json.Object) (ttl : ℕ) (s : Store lmdb bloom)
      → write_child lmdb bloom codec config w now p [] message ttl s ≡ (false, s)
  unfolding write_child
  write_child-nil w now p message ttl s = ground arith

  write_child-Kept :
      (w : Writes) (now : ℕ) (p : Which) (key id : Bytes) (message : json.Object) (ttl : ℕ)
      (s : Store lmdb bloom)
      → (key ≡ []) ⊎ (id ≢ key)
      → Kept lmdb laws bloom id s (write_child lmdb bloom codec config w now p key message ttl s).1
  unfolding write_child
  write_child-Kept w now p key id message ttl s (inl e) =
      subst
        (λ k.
          Kept lmdb laws bloom id s (write_child lmdb bloom codec config w now p k message ttl s).1)
        (sym e) (rw (write_child-nil w now p message ttl s) (Kept-refl lmdb laws bloom id s))
  write_child-Kept w now p key id message ttl s (inr ne) =
      elim (Bool-cases (written w && not (is_empty lmdb bloom codec config key))) [
        | inl on ↦ rw on (put_ts-Kept lmdb laws bloom p key id _ s ne)
        | inr off ↦ rw off (Kept-refl lmdb laws bloom id s)
      ]

  find_parent-present :
      (r_last r_current : Reads) (trace_id : Bytes) (s : Store lmdb bloom) (p : Which) (v : Stored)
      → find_parent lmdb bloom codec config r_last r_current trace_id s ≡ present p v
      → get_in lmdb laws bloom p s trace_id ≡ some v
  unfolding find_parent
  find_parent-present r_last r_current trace_id s in_current v e = ground arith
  find_parent-present r_last r_current trace_id s in_last v e = ground arith

  -- The state in the result.
  result-Kept :
      {id : Bytes} {s : Store lmdb bloom} (x : Bool × Store lmdb bloom) {b : Bool}
      {t : Store lmdb bloom}
      → some x ≡ some (b, t)
      → Kept lmdb laws bloom id s x.1
      → Kept lmdb laws bloom id s t
  result-Kept {id} {s} x e h =
      subst (λ o. Holds (λ (y : Bool × Store lmdb bloom). Kept lmdb laws bloom id s y.1) o) e h

  add_to-Kept :
      (w_parent w_child : Writes) (now : ℕ) (parent : Parent lmdb bloom codec config)
      (trace_id key id : Bytes) (message : json.Object) (ttl : ℕ) (s : Store lmdb bloom) {b : Bool}
      {t : Store lmdb bloom}
      → (key ≡ []) ⊎ (id ≢ key)
      → ((p : Which) (v : Stored)
          → parent ≡ present p v
          → get_in lmdb laws bloom p s trace_id ≡ some v)
      → add_to lmdb bloom codec config w_parent w_child now parent trace_id key message ttl s
        ≡ some (b, t)
      → Kept lmdb laws bloom id s t
  unfolding add_to
  add_to-Kept w_parent w_child now failed trace_id key id message ttl s h found e =
      result-Kept (false, s) e (Kept-refl lmdb laws bloom id s)
  add_to-Kept w_parent w_child now absent trace_id key id message ttl s h found e =
      result-Kept _ e (write_child-Kept w_child now in_current key id message ttl s h)
  add_to-Kept w_parent w_child now (present p (root r)) trace_id key id message ttl s h found e =
      elim (Bool-cases (w_parent.begin_ok && w_parent.open_ok && w_parent.put_ok)) [
        | inr off ↦ result-Kept (false, s) (rw off at e) (Kept-refl lmdb laws bloom id s)
        | inl on ↦ result-Kept _ (rw on at e) (
            Kept-trans lmdb laws bloom
              (touched-Kept w_parent now p trace_id id r s (found p (root r) refl))
              (write_child-Kept w_child now p key id message ttl _ h))
      ]
  add_to-Kept w_parent w_child now (present p (child c)) trace_id key id message ttl s h found e =
      cc
  add_to-Kept w_parent w_child now (present p (opened ms)) trace_id key id message ttl s h found e =
      cc
  add_to-Kept w_parent w_child now (present p trace) trace_id key id message ttl s h found e = cc

  seen_by_bloom-Kept :
      (j id : Bytes) (s : Store lmdb bloom)
      → Kept lmdb laws bloom id s (seen_by_bloom lmdb bloom config j s)
  seen_by_bloom-Kept j id s =
      if-Kept lmdb laws bloom config.use_bloom_filters
        (record {
          same = in_either _ (inl refl) (inl refl);
          current_bloom = λ h. bloom_laws.contains-add_kept s.current_bloom id j h;
          last_bloom = refl;
        })
        (Kept-refl lmdb laws bloom id s)

  put-Kept :
      (w : Writes) (now : ℕ) (j id : Bytes) (o : json.Object) (first_seen_ms ttl : ℕ)
      (s : Store lmdb bloom)
      → id ≢ j
      → Kept lmdb laws bloom id s
          (tm_transaction_store_put lmdb bloom codec config w now j o first_seen_ms ttl s).1
  unfolding tm_transaction_store_put
  put-Kept w now j id o first_seen_ms ttl s ne = elim (Bool-cases (written w)) [
    | inr off ↦ rw off (Kept-refl lmdb laws bloom id s)
    | inl on ↦ rw on (
        Kept-trans lmdb laws bloom
          (put_ts-Kept lmdb laws bloom in_current j id
            (root (root_record lmdb bloom codec config o first_seen_ms now ttl)) s ne)
          (seen_by_bloom-Kept j id _))
  ]

  mark_traceable-Kept :
      (w : Writes) (trace_id id : Bytes) (s : Store lmdb bloom)
      → Kept lmdb laws bloom id s (tm_transaction_store_mark_traceable lmdb bloom w trace_id s)
  unfolding tm_transaction_store_mark_traceable
  mark_traceable-Kept w trace_id id s = elim (Bool-cases (written w)) [
    | inr off ↦ rw off (Kept-refl lmdb laws bloom id s)
    | inl on ↦ rw on (record {
      same = in_either _ (inl refl) (inl refl);
      current_bloom = λ h. h;
      last_bloom = refl;
    })
  ]

  add_child-Kept :
      (r_last r_current : Reads) (w_parent w_child : Writes) (now : ℕ) (trace_id id : Bytes)
      (message : json.Object) (ttl : ℕ) (s : Store lmdb bloom) {b : Bool} {t : Store lmdb bloom}
      → Plain id
      → tm_transaction_store_add_child lmdb bloom codec config r_last r_current w_parent w_child now
          trace_id
          (some message)
          ttl
          s
        ≡ some (b, t)
      → Kept lmdb laws bloom id s t
  unfolding tm_transaction_store_add_child
  add_child-Kept r_last r_current w_parent w_child now trace_id id message ttl s plain e =
      elim (Option-cases (child_key lmdb bloom codec config trace_id message)) [
        | inl n ↦ absurd (some_is_not_none (rw n at e))
        | inr (key, k) ↦
            add_to-Kept w_parent w_child now
              (find_parent lmdb bloom codec config r_last r_current trace_id s) trace_id key id
              message ttl s (child_key_cases trace_id message id plain k)
              (find_parent-present r_last r_current trace_id s) (rw k at e)
      ]

  -- Every other call keeps what stands under a key without a dash.
  pub Other-Kept :
      {id : Bytes} {s t : Store lmdb bloom}
      → Plain id
      → Other lmdb bloom json codec config id s t
      → Kept lmdb laws bloom id s t
  unfolding tm_transaction_store_put tm_transaction_store_add_child
      tm_transaction_store_mark_traceable
  Other-Kept plain (put w now o first_seen_ms ttl ne) =
      put-Kept w now _ _ o first_seen_ms ttl _ (λ e. ne (sym e))
  Other-Kept plain (add_child r_last r_current w_parent w_child now trace_id none ttl e) =
      result-Kept (false, _) e (Kept-refl lmdb laws bloom _ _)
  Other-Kept plain (add_child r_last r_current w_parent w_child now trace_id (some message) ttl e) =
      add_child-Kept r_last r_current w_parent w_child now trace_id _ message ttl _ plain e
  Other-Kept plain (mark_traceable w trace_id) = mark_traceable-Kept w trace_id _ _
