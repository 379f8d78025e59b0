-- ===== src/Metric/Json.antt =====
-- `json_escape_str` and `metric_to_json` of src/tm_metric.c. How printf prints numbers, and how
-- circllhist writes a histogram, are parameters.
pub mod Read
pub mod Named
use tracemate.Base.{
  ℕ, ◌+◌, ◌/◌, ◌%◌, Bool, true, false, not, ◌||◌, List, [], ◌∷◌, ◌++◌, Option, none, some, ltb,
  ◌==◌, if◌then◌else◌, Bytes, codes, get_or, add64,
}
use tracemate.Metric.{Numbers, MetricKey, Metric, number, text, histogram, integer, MetricValue}

json_hex_chars : Bytes
json_hex_chars = codes "0123456789abcdef"

-- The bytes of the cases of the switch.
is_named : ℕ → Bool
is_named c = c == 8 || c == 10 || c == 13 || c == 9 || c == b'"' || c == 92 || c == b'/'

named_escape : ℕ → Bytes
named_escape c =
    if c == 8
    then codes "\\b"
    else if c == 10
    then codes "\\n"
    else if c == 13
    then codes "\\r"
    else if c == 9
    then codes "\\t"
    else if c == b'"'
    then 92 ∷ (b'"' ∷ [])
    else if c == 92
    then 92 ∷ (92 ∷ [])
    else 92 ∷ (b'/' ∷ [])

-- "\\u00%c%c"
control_escape : ℕ → Bytes
unfolding json_hex_chars
control_escape c =
    codes "\\u00" ++ (get_or json_hex_chars (c / 16) 0 ∷ (get_or json_hex_chars (c % 16) 0 ∷ []))

-- The loop: `pending` is what stands from start_offset to pos, `out` what was added to the buffer.
escape_loop : Bytes → Bytes → Bytes → Bytes
unfolding is_named named_escape control_escape
escape_loop out pending [] = out ++ pending
escape_loop out pending (c ∷ str) =
    let named = escape_loop (out ++ (pending ++ named_escape c)) [] str in
    let control = escape_loop (out ++ (pending ++ control_escape c)) [] str in
    let copied = escape_loop out (pending ++ c ∷ []) str in
    if is_named c then named else if ltb c 32 then control else copied

-- What is added to the buffer.
unfoldable pub json_escape_str : Bytes → Bytes
unfolding escape_loop
json_escape_str str = escape_loop [] [] str

pub record Printing (nums : Numbers) : Type 0 where
  -- "%u" or "%llu", and "%d" of a bit pattern
  pub print_uint : ℕ → Bytes
  pub print_int : ℕ → Bytes
  -- "%g", and of the number over the count, or over 1 where the count is less
  pub print_double : nums.Double → Bytes
  pub print_average : nums.Double → ℕ → Bytes
  pub hist_serialize_b64 : nums.Hist → Bytes
  pub hist_clear : nums.Hist → nums.Hist

module _ (nums : Numbers) (printing : Printing nums) where
  open printing use {print_uint, print_int, print_double, print_average, hist_serialize_b64}

  -- `ts += rand() % 30000` if there is jitter; the number drawn is an argument.
  abbrev jittered : MetricKey → Option ℕ → ℕ
  jittered k none = k.timestamp
  jittered k (some drawn) = add64 k.timestamp (drawn % 30000)

  owner_text : MetricValue nums → Bytes
  owner_text v = codes "\"_owner\": " ++ (print_uint v.owner_id ++ codes ",")

  ts_text : MetricKey → Option ℕ → Bytes
  ts_text k jitter = codes "\"_ts\": " ++ print_uint (jittered k jitter)

  number_text : MetricValue nums → Bool → nums.Double → Bytes
  number_text v false d =
      codes "\"_count\": "
      ++ (print_int v.count ++ (codes ",\"_value\": " ++ (print_double d ++ codes ",")))
  number_text v true d = codes "\"_value\": " ++ (print_average d v.count ++ codes ",")

  -- The members of the object for the value.
  unfoldable pub members_text : MetricKey → MetricValue nums → Bool → Option ℕ → Metric nums → Bytes
  unfolding owner_text ts_text number_text json_escape_str
  members_text k v resolve_avg jitter (number d) =
      codes "\"_type\":\"n\","
      ++ (owner_text v ++ (number_text v resolve_avg d ++ ts_text k jitter))
  members_text k v resolve_avg jitter (text str) =
      codes "\"_type\":\"s\","
      ++ (owner_text v
          ++ (codes "\"_value\": \"" ++ (json_escape_str str ++ (codes "\"," ++ ts_text k jitter))))
  members_text k v resolve_avg jitter (integer i) =
      codes "\"_type\":\"L\","
      ++ (codes "\"_value\": "
          ++ (print_uint i ++ (codes "," ++ (owner_text v ++ ts_text k jitter))))
  members_text k v resolve_avg jitter (histogram h) =
      codes "\"_type\":\"h\","
      ++ (ts_text k jitter
          ++ (codes ","
              ++ (owner_text v ++ (codes "\"_value\":\"" ++ (hist_serialize_b64 h ++ codes "\"")))))

  -- The value after the call, where it is reset.
  unfoldable pub emptied : MetricValue nums → Metric nums → MetricValue nums
  emptied v (number d) = record v { metric = number nums.zero_double; count = 0 }
  emptied v (text str) = v
  emptied v (integer i) = record v { metric = integer 0 }
  emptied v (histogram h) = record v { metric = histogram (printing.hist_clear h) }

  -- What is added to the buffer, and the value.
  unfoldable pub metric_to_json :
      MetricKey → MetricValue nums → Bool → Bool → Option ℕ → Bytes × MetricValue nums
  unfolding members_text emptied
  metric_to_json k v resolve_avg reset jitter = (
    codes "\""
        ++ (json_escape_str k.metric_name
            ++ (codes "\":{" ++ (members_text k v resolve_avg jitter v.metric ++ codes "}"))),
    if reset then emptied v v.metric else v,
  )
