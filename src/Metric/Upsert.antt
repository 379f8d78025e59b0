-- ===== src/Metric/Upsert.antt =====
-- What the updates of src/tm_process.c and src/tm_process_aggregate.c have in common: an update
-- looks its key up, and where that fails looks it up again under the team's mutex. `seen` is the
-- table that the first look found, `t` the one that the update finds when it writes. `none` as a
-- result stands for a write through a pointer to an entry that is gone, or for a failing `f`.
use tracemate.Base.{Option, none, some, inl, inr, ◌≡◌, ◌≢◌, arith, Option-cases, ◌>>=◌}
use tracemate.Metric.{MetricKey}
use tracemate.Metric.Table.{
  Table, find, write, store, find-store, find-write, same_key_iff, same_key_self,
}

module _ {ℓ} {V : Type ℓ} where
  modify : MetricKey → (V → Option V) → Table V → Table V → Option (Table V)
  modify key f t found = do v ← find key found; v' ← f v; some (write key v' t)

  under_mutex : MetricKey → (V → Option V) → V → Table V → Option (Table V)
  unfolding modify
  under_mutex key f fresh t = elim (find key t) [
    | none ↦ some (store key fresh t)
    | some _ ↦ modify key f t t
  ]

  -- Change the entry under `key` by `f`, or store `fresh` there.
  unfoldable pub upsert : MetricKey → (V → Option V) → V → Table V → Table V → Option (Table V)
  unfolding under_mutex
  upsert key f fresh seen t = elim (find key seen) [
    | none ↦ under_mutex key f fresh t
    | some _ ↦ modify key f t t
  ]

module _ {ℓ} {V : Type ℓ} (key : MetricKey) (f : V → Option V) (fresh : V) where
  -- Looking a second time under the mutex makes an update one step: unless the entry that the first
  -- look found has gone, the update is the one that a single look at the later table would have
  -- made.
  pub upsert_atomic :
      (seen t : Table V)
      → (find key t ≡ none → find key seen ≡ none)
      → upsert key f fresh seen t ≡ upsert key f fresh t t
  unfolding upsert under_mutex
  upsert_atomic seen t h = elim (Option-cases (find key t)) [
    | inl e ↦ let g = h e in ground arith
    | inr (v, e) ↦ ground arith
  ]

  -- One step changes the entry under the key and no other.
  pub find-upsert :
      (j : MetricKey) (t : Table V) {t' : Table V}
      → upsert key f fresh t t ≡ some t'
      → j ≢ key
      → find j t' ≡ find j t
  unfolding upsert under_mutex modify
  find-upsert j t {t'} h ne = elim (Option-cases (find key t)) [
    | inl e ↦ ground (arith, find-store j key fresh t, same_key_iff key j)
    | inr (v, e) ↦ elim (Option-cases (f v)) [
      | inl g ↦ ground arith
      | inr (v', g) ↦ ground (arith, find-write j key v' v t e, same_key_iff key j)
    ]
  ]

  -- What an update makes of the entry under its key.
  abbrev pub updated : Option V → Option V
  updated none = some fresh
  updated (some v) = f v

  -- Where the entry under a key, or its absence, can be updated, the update succeeds: what it makes
  -- stands under the key, and every other entry stays.
  pub upsert_lem :
      (t : Table V) {v' : V}
      → updated (find key t) ≡ some v'
      → (t' : Table V) × (upsert key f fresh t t ≡ some t')
        × (find key t' ≡ some v')
        × ((j : MetricKey) → j ≢ key → find j t' ≡ find j t)
  unfolding upsert under_mutex modify
  upsert_lem t {v'} h = elim (Option-cases (find key t)) [
    | inl e ↦
        let u : upsert key f fresh t t ≡ some (store key fresh t) = ground arith in
        (
          store key fresh t,
          u,
          ground (arith, find-store key key fresh t, same_key_self key),
          λ j ne. find-upsert j t u ne,
        )
    | inr (v, e) ↦
        let u : upsert key f fresh t t ≡ some (write key v' t) = ground arith in
        (
          write key v' t,
          u,
          ground (arith, find-write key key v' v t e, same_key_self key),
          λ j ne. find-upsert j t u ne,
        )
  ]
