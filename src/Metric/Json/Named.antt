-- ===== src/Metric/Json/Named.antt =====
-- What is written for a metric, and what becomes of its value.
use tracemate.Base.{
  add64, ◌%◌, none, ap, append_assoc, ℕ, Bool, true, false, Option, ◌∷◌, ◌++◌, Bytes, codes, some,
  ◌≡◌, refl,
}
use tracemate.Metric.{Numbers, MetricKey, Metric, number, text, integer, histogram, MetricValue}
use tracemate.Metric.Json.{
  json_escape_str, Printing, owner_text, ts_text, members_text, emptied, metric_to_json,
}
use tracemate.Metric.Json.Read.{read_string, read_string-json_escape_str}

module _ (nums : Numbers) (printing : Printing nums) where
  -- The number under "_ts".
  abbrev pub stamp : MetricKey → Option ℕ → ℕ
  stamp k none = k.timestamp
  stamp k (some drawn) = add64 k.timestamp (drawn % 30000)

  -- A text is read back from behind its quote as it was, up to the member "_ts".
  abbrev pub ReadsBack : MetricKey → MetricValue nums → Option ℕ → Metric nums → Bytes → Type 0
  ReadsBack k v jitter (text str) body =
      (quoted : Bytes) × (body
        ≡ codes "\"_type\":\"s\",\"_owner\": "
          ++ (printing.print_uint v.owner_id ++ (codes ",\"_value\": \"" ++ quoted)))
      × (read_string quoted
          ≡ some (str, codes ",\"_ts\": " ++ printing.print_uint (stamp k jitter)))
  ReadsBack k v jitter m body = Unit

  -- What is left of a value and its count when it was written for good: nothing of a number or a
  -- counter, an empty histogram, and all of a text.
  abbrev pub Emptied : Metric nums → ℕ → MetricValue nums → Type 0
  Emptied (number d) n w = (w.metric ≡ number nums.zero_double) × (w.count ≡ 0)
  Emptied (text str) n w = (w.metric ≡ text str) × (w.count ≡ n)
  Emptied (integer i) n w = (w.metric ≡ integer 0) × (w.count ≡ n)
  Emptied (histogram h) n w = (w.metric ≡ histogram (printing.hist_clear h)) × (w.count ≡ n)

  -- The other fields.
  abbrev pub SameElse : MetricValue nums → MetricValue nums → Type 0
  SameElse v w =
      (w.last_seen ≡ v.last_seen)
      × (w.flushed_ms ≡ v.flushed_ms)
      × (w.owner_id ≡ v.owner_id)
      × (w.scheduled_for_destruction ≡ v.scheduled_for_destruction)

  emptied_lem :
      (v : MetricValue nums) (m : Metric nums)
      → v.metric ≡ m
      → Emptied m v.count (emptied nums printing v m) × SameElse v (emptied nums printing v m)
  unfolding emptied
  emptied_lem v (number d) e = ((refl, refl), (refl, refl, refl, refl))
  emptied_lem v (text str) e = ((e, refl), (refl, refl, refl, refl))
  emptied_lem v (integer i) e = ((refl, refl), (refl, refl, refl, refl))
  emptied_lem v (histogram h) e = ((refl, refl), (refl, refl, refl, refl))

  members_text-ReadsBack :
      (k : MetricKey) (v : MetricValue nums) (resolve_avg : Bool) (jitter : Option ℕ)
      (m : Metric nums)
      → ReadsBack k v jitter m (members_text nums printing k v resolve_avg jitter m)
  unfolding members_text ts_text owner_text
  members_text-ReadsBack k v resolve_avg none (text str) =
      let quoted = json_escape_str str ++ (codes "\"," ++ ts_text nums printing k none) in
      (
        quoted,
        ap (◌++◌ (codes "\"_type\":\"s\",\"_owner\": ")) (
            append_assoc (printing.print_uint v.owner_id) (codes ",")
              (codes "\"_value\": \"" ++ quoted)),
        read_string-json_escape_str str _,
      )
  members_text-ReadsBack k v resolve_avg (some drawn) (text str) =
      let quoted = json_escape_str str ++ (codes "\"," ++ ts_text nums printing k (some drawn)) in
      (
        quoted,
        ap (◌++◌ (codes "\"_type\":\"s\",\"_owner\": ")) (
            append_assoc (printing.print_uint v.owner_id) (codes ",")
              (codes "\"_value\": \"" ++ quoted)),
        read_string-json_escape_str str _,
      )
  members_text-ReadsBack k v resolve_avg jitter (number d) = tt
  members_text-ReadsBack k v resolve_avg jitter (integer i) = tt
  members_text-ReadsBack k v resolve_avg jitter (histogram h) = tt

  -- What is behind the first quote of a metric's text is read back as its name, whatever bytes it
  -- has, up to the member's object; and in that the value of a metric that is a text is read back,
  -- whatever bytes it has, up to the time, with the jitter. The value stays where no reset is asked
  -- for. Where one is, a counter becomes 0, a number 0 with a count of 0, and a histogram is
  -- cleared; a text stays, and so do the other fields.
  pub metric_to_json_lem :
      (k : MetricKey) (v : MetricValue nums) (resolve_avg reset : Bool) (jitter : Option ℕ)
      → (rest : Bytes) × ((metric_to_json nums printing k v resolve_avg reset jitter).0
          ≡ b'"' ∷ rest)
        × ((body : Bytes) × (read_string rest
              ≡ some (k.metric_name, codes ":{" ++ (body ++ codes "}")))
            × ReadsBack k v jitter v.metric body)
        × (reset ≡ false → (metric_to_json nums printing k v resolve_avg reset jitter).1 ≡ v)
        × (reset ≡ true
            → Emptied v.metric v.count (metric_to_json nums printing k v resolve_avg reset jitter).1
              × SameElse v (metric_to_json nums printing k v resolve_avg reset jitter).1)
  unfolding metric_to_json
  metric_to_json_lem k v resolve_avg true jitter = (
    _,
    refl,
    (
      _,
      read_string-json_escape_str k.metric_name _,
      members_text-ReadsBack k v resolve_avg jitter v.metric,
    ),
    λ e. absurd (cc),
    λ e. emptied_lem v v.metric refl,
  )
  metric_to_json_lem k v resolve_avg false jitter = (
    _,
    refl,
    (
      _,
      read_string-json_escape_str k.metric_name _,
      members_text-ReadsBack k v resolve_avg jitter v.metric,
    ),
    λ e. refl,
    λ e. absurd (cc),
  )
