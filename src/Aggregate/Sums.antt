-- ===== src/Aggregate/Sums.antt =====
-- Lists of inbound counts, and the sums that come in under each key.
use tracemate.Base.{
  ℕ, ◌+◌, ◌%◌, ◌<◌, List, [], ◌∷◌, Option, some, if◌then◌else◌, ◌>>=◌, Bytes, codes, All, u64,
  add64, ◌≡◌, ◌≢◌, refl, sym, subst, ap, ◌∙◌, arith,
}
use tracemate.Metric.{Numbers, MetricKey, make_metric_key, same_key}
use tracemate.Metric.Table.{find}
use tracemate.Metric.Upsert.{upsert_lem}
use tracemate.Metric.Update.{Metrics, add_integer}
use tracemate.Metric.Counter.{
  amount_of, amount, HoldsCount, IsCounter, Counters, add_integer-updated, amount-lt, amount_kept,
  amount_step,
}
use tracemate.Message.{Json}
use tracemate.Aggregate.Rollup.{Summaries, Surroundings}
use tracemate.Aggregate.{number_of, timestamp_of, inbound_integer, inbound}

module _ (nums : Numbers) (json : Json) (sums : Summaries nums json) (s : Surroundings) where
  abbrev pub value_of : json.Object → ℕ
  value_of val = number_of nums json sums json.uint64 (json.get val (codes "_value"))

  abbrev pub inbound_key : Bytes → json.Object → MetricKey
  inbound_key key val = make_metric_key key (timestamp_of nums json sums val)

  -- An inbound count is added modulo 2^64 to the counter under its key, which is made where there
  -- is none; every other entry stays.
  inbound_integer_lem :
      (key : Bytes) (val : json.Object) (t : Metrics nums)
      → value_of val < u64
      → IsCounter nums t (inbound_key key val)
      → (t' : Metrics nums) × (inbound_integer nums json sums s key val t ≡ some t')
        × IsCounter nums t' (inbound_key key val)
        × (amount nums t' (inbound_key key val)
            ≡ add64 (amount nums t (inbound_key key val)) (value_of val))
        × ((j : MetricKey) → j ≢ inbound_key key val → find j t' ≡ find j t)
  unfolding inbound_integer
  inbound_integer_lem key val t h c =
      let k = inbound_key key val in
      let n = value_of val in
      let (v, u, hv, av) = add_integer-updated nums k n s.now s.owner (find k t) h c in
      let (t', r, self, others) = upsert_lem k (add_integer nums n s.now) _ t u in
      (t', r, subst (HoldsCount nums) (sym self) hv, ap (amount_of nums) self ∙ av, others)

  -- The entries of messages, one after the other, for one team; all are counts.
  pub receive : List (Bytes × json.Object) → Metrics nums → Option (Metrics nums)
  receive [] t = some t
  receive ((key, val) ∷ rest) t = do
    t' ← inbound nums json sums s key val (codes "L") t
    receive rest t'

  -- What comes in for one key.
  abbrev pub received : List (Bytes × json.Object) → MetricKey → ℕ
  received [] k = 0
  received ((key, val) ∷ rest) k =
      (if same_key (inbound_key key val) k then value_of val else 0) + received rest k

  -- On a table of counters, whatever counts below 2^64 come in for a team, from however many
  -- instances and in whatever order, all are taken, and each counter ends at what it held plus all
  -- that came in under its key, modulo 2^64.
  pub receive-received :
      (entries : List (Bytes × json.Object)) (t : Metrics nums)
      → All (λ e. value_of e.1 < u64) entries
      → Counters nums t
      → (t' : Metrics nums) × (receive entries t ≡ some t')
        × Counters nums t'
        × ((k : MetricKey) → amount nums t' k ≡ (amount nums t k + received entries k) % u64)
  unfolding receive inbound
  receive-received [] t h c = (t, refl, c, λ k. omega (arith, amount-lt nums (find k t) (c k)))
  receive-received ((key, val) ∷ rest) t h c =
      let j = inbound_key key val in
      let (t₁, e₁, self, added, others) = inbound_integer_lem key val t h.0 (c j) in
      let (t₂, e₂, c₂, sum) =
        receive-received rest t₁ h.1 (λ k. amount_kept nums j t t₁ k (c k) self others) in
      (
        t₂,
        rw e₁ e₂,
        c₂,
        λ k.
            amount_step nums j (value_of val) (received rest k) t t₁ (amount nums t₂ k) k added
              others (sum k),
      )
