-- ===== src/Metric/Table.antt =====
-- The hash table of a team's metrics, as an association list, and its laws.
use tracemate.Base.{
  true, false, List, [], ◌∷◌, Option, none, some, if◌then◌else◌, ◌≡◌, ◌≢◌, ◌↔◌, refl, sym, arith,
}
use tracemate.CString.Search.{equal_iff}
use tracemate.Metric.{MetricKey, same_key}

pub same_key_iff : (j k : MetricKey) → (same_key j k ≡ true) ↔ (j ≡ k)
unfolding same_key
same_key_iff j k = ground (arith, equal_iff j.metric_name k.metric_name)

pub same_key_self : (k : MetricKey) → same_key k k ≡ true
same_key_self k = (same_key_iff k k).1 refl

pub same_key-ne : (j k : MetricKey) → same_key j k ≡ false → k ≢ j
same_key-ne j k e p = let z = (same_key_iff j k).1 (sym p) in cc

abbrev pub Table {ℓ} : Type ℓ → Type ℓ
Table V = List (MetricKey × V)

module _ {ℓ} {V : Type ℓ} where
  -- mtev_hash_retrieve
  unfoldable pub find : MetricKey → Table V → Option V
  find k [] = none
  find k ((j, v) ∷ t) = if same_key j k then some v else find k t

  -- A write through the pointer that a retrieval gave.
  unfoldable pub write : MetricKey → V → Table V → Table V
  write k v [] = []
  write k v ((j, w) ∷ t) = if same_key j k then (j, v) ∷ t else (j, w) ∷ write k v t

  -- mtev_hash_store, of a key that is not in the table
  unfoldable pub store : MetricKey → V → Table V → Table V
  store k v t = (k, v) ∷ t

  -- mtev_hash_replace
  unfoldable pub put : MetricKey → V → Table V → Table V
  put k v [] = (k, v) ∷ []
  put k v ((j, w) ∷ t) = if same_key j k then (k, v) ∷ t else (j, w) ∷ put k v t

  -- mtev_hash_delete
  unfoldable pub delete : MetricKey → Table V → Table V
  delete k [] = []
  delete k ((j, v) ∷ t) = if same_key j k then t else (j, v) ∷ delete k t

  pub find-store :
      (j k : MetricKey) (v : V) (t : Table V)
      → find j (store k v t) ≡ (if same_key k j then some v else find j t)
  unfolding find store
  find-store j k v t = refl

  pub find-put :
      (j k : MetricKey) (v : V) (t : Table V)
      → find j (put k v t) ≡ (if same_key k j then some v else find j t)
  unfolding find put
  find-put j k v [] = refl
  find-put j k v ((i, u) ∷ t) =
      ground (arith, same_key_iff k j, same_key_iff i k, same_key_iff i j, find-put j k v t)

  pub find-write :
      (j k : MetricKey) (v w : V) (t : Table V)
      → find k t ≡ some w
      → find j (write k v t) ≡ (if same_key k j then some v else find j t)
  unfolding find write
  find-write j k v w [] h = cc
  find-write j k v w ((i, u) ∷ t) h =
      ground (arith, same_key_iff k j, same_key_iff i k, same_key_iff i j, find-write j k v w t)
