-- ===== src/Otel/Process/Balanced.antt =====
-- How a span of OpenTelemetry is counted.
use tracemate.Base.{
  ◌*◌, ◌/◌, add64, subst, sym, ℕ, ◌+◌, All, Bool, true, false, ◌&&◌, ◌||◌, List, [], ◌∷◌, Option,
  none, some, if◌then◌else◌, Bytes, codes, Bool-cases, Option-cases, Holds, Holds-some, Holds->>=,
  inl, inr, ◌≡◌, refl, arith,
}
use tracemate.CString.{equal}
use tracemate.Message.Tags.{tm_clean_tag_value}
use tracemate.Utils.Timestamp.{center_timestamp}
use tracemate.Otel.{KeyValue, JaegerSpan, ProcessOf, get_tag, parse_domain, duration_us_of, end_of}
use tracemate.Otel.Updates.{
  OtelMeasure, latency, error_count, Among, one, all, OtelUpdate, measured, counted, SpanKind,
  kind_updates, server_updates, db_kind, http_kind, rpc_kind, messaging_kind, internal_kind,
}
use tracemate.Otel.Process.{
  OtelHandled, or_text, str, server, http, rpc, http_or_rpc, client, messaging, updates_of,
  status_is_error, handled_of, with_process, otel_process_jaeger_span,
}

abbrev is_all : Among → Bool
is_all (one name) = false
is_all all = true

abbrev same : Bool → Bool → Bool
same true b = b
same false b = if b then false else true

-- How many updates of all spans of the kind, or of one of them, give the duration to a latency.
abbrev pub latencies : Bool → List OtelUpdate → ℕ
latencies b [] = 0
latencies b (measured n ∷ updates) =
    (if same b (is_all n.among) then 1 else 0) + latencies b updates
latencies b (counted n ∷ updates) = latencies b updates

abbrev is_error_count : OtelMeasure → Bool
is_error_count error_count = true
is_error_count m = false

-- How many raise a count of requests or executions, or one of errors.
abbrev pub counts : Bool → Bool → List OtelUpdate → ℕ
counts errors b [] = 0
counts errors b (measured n ∷ updates) = counts errors b updates
counts errors b (counted n ∷ updates) =
    (if same errors (is_error_count n.measure) && same b (is_all n.among) then 1 else 0)
    + counts errors b updates

abbrev once : Bool → ℕ
once b = if b then 1 else 0

abbrev pub is_latency : OtelMeasure → Bool
is_latency latency = true
is_latency m = false

-- Durations are given to latencies, and counts to what is no latency.
abbrev pub Fair : OtelUpdate → Type 0
Fair (measured n) = is_latency n.measure ≡ true
Fair (counted n) = is_latency n.measure ≡ false

abbrev Named : Bytes → Among → Type 0
Named own (one name) = name ≡ own
Named own all = Unit

-- Each is about the spans of that name, or about all of the kind.
abbrev pub IsNamed : Bytes → OtelUpdate → Type 0
IsNamed own (measured n) = Named own n.among
IsNamed own (counted n) = Named own n.among

-- One latency and one count for the span and for all of its kind, and as said a count of errors for
-- each.
pub record Balanced (error : Bool) (own : Bytes) (updates : List OtelUpdate) : Type 0 where
  pub latency_one : latencies false updates ≡ 1
  pub latency_all : latencies true updates ≡ 1
  pub count_one : counts false false updates ≡ 1
  pub count_all : counts false true updates ≡ 1
  pub errors_one : counts true false updates ≡ once error
  pub errors_all : counts true true updates ≡ once error
  pub fair : All Fair updates
  pub named : All (IsNamed own) updates

-- Counted so under a name, or, without one, not at all; then this is no error.
abbrev pub Counts : Bool → Option Bytes → List OtelUpdate → Type 0
Counts error none updates = (updates ≡ []) × (error ≡ false)
Counts error (some own) updates = Balanced error own updates

pub Counts-Fair :
    (error : Bool) (own : Option Bytes) (updates : List OtelUpdate)
    → Counts error own updates
    → All Fair updates
Counts-Fair error none updates h = subst (All Fair) (sym h.0) tt
Counts-Fair error (some own) updates h = h.fair

-- Under which name the spans of a client are counted: under the operation for a database and for a
-- remote procedure, under the domain for HTTP, and under none for others.
abbrev pub client_name : (db url rpc : Option Bytes) → JaegerSpan → Option Bytes
client_name (some system) url rpc s = some (tm_clean_tag_value s.operation_name)
client_name none (some url) rpc s = some (or_text (codes "(null)") (parse_domain url))
client_name none none (some system) s = some (tm_clean_tag_value s.operation_name)
client_name none none none s = none

-- And those of each kind: a message's under the destination.
abbrev pub own_name : Bytes → JaegerSpan → Option Bytes
own_name kind s =
    if equal kind (codes "server")
    then some (tm_clean_tag_value s.operation_name)
    else if equal kind (codes "client")
    then client_name (str s.tags (codes "db.system")) (str s.tags (codes "http.url"))
        (str s.tags (codes "rpc.system")) s
    else if equal kind (codes "producer") || equal kind (codes "consumer")
    then str s.tags (codes "messaging.destination")
    else if equal kind (codes "internal")
    then some (tm_clean_tag_value s.operation_name)
    else none

server_updates-Balanced :
    (name method code flavor : Bytes) (error : Bool)
    → Balanced error name (server_updates name method code flavor error)
unfolding server_updates kind_updates
server_updates-Balanced name method code flavor true = ground arith
server_updates-Balanced name method code flavor false = ground arith

-- A kind whose spans are counted as requests or executions.
abbrev Plain : OtelMeasure → Type 0
Plain m = (is_error_count m ≡ false) × (is_latency m ≡ false)

kind_updates-Balanced : (k : SpanKind) → Plain k.count → Balanced false k.value (kind_updates k)
unfolding kind_updates
kind_updates-Balanced k h = ground arith

module _ (print_int : ℕ → Bytes) (s : JaegerSpan) where
  abbrev status : Option KeyValue
  status = get_tag s.tags (codes "http.status_code")

  abbrev clean_name : Bytes
  clean_name = tm_clean_tag_value s.operation_name

  server-Balanced :
      Holds (Balanced (status_is_error print_int status) clean_name) (server print_int s)
  unfolding server
  server-Balanced = elim (Option-cases (get_tag s.tags (codes "http.method"))) [
    | inl n ↦ rw n tt
    | inr (method, n) ↦ rw n (server_updates-Balanced _ _ _ _ _)
  ]

  http-Balanced :
      (url : Bytes)
      → Holds (Balanced false (or_text (codes "(null)") (parse_domain url))) (http print_int s url)
  unfolding http http_kind
  http-Balanced url = elim (Option-cases status) [
    | inl n ↦ rw n tt
    | inr (code, n) ↦ rw n (elim (Option-cases (get_tag s.tags (codes "http.method"))) [
      | inl n' ↦ rw n' tt
      | inr (method, n') ↦ rw n' (kind_updates-Balanced _ (refl, refl))
    ])
  ]

  client-Counts :
      (db : Option Bytes)
      → Holds
          (Counts false
            (client_name db (str s.tags (codes "http.url")) (str s.tags (codes "rpc.system")) s))
          (client print_int s db)
  unfolding client http_or_rpc rpc db_kind rpc_kind
  client-Counts (some system) = kind_updates-Balanced _ (refl, refl)
  client-Counts none = elim (Option-cases (get_tag s.tags (codes "http.url"))) [
    | inr (url, n) ↦ rw n (http-Balanced url.v_str)
    | inl n ↦ rw n (elim (Option-cases (get_tag s.tags (codes "rpc.system"))) [
      | inl n' ↦ rw n' (refl, refl)
      | inr (system, n') ↦ rw n' (kind_updates-Balanced _ (refl, refl))
    ])
  ]

  messaging-Counts :
      (type : Bytes)
      → Holds
          (Counts false (str s.tags (codes "messaging.destination")))
          (messaging print_int type s)
  unfolding messaging messaging_kind
  messaging-Counts type = elim (Option-cases (get_tag s.tags (codes "messaging.system"))) [
    | inl n ↦ rw n tt
    | inr (system, n) ↦ rw n (elim (Option-cases (get_tag s.tags (codes "messaging.destination"))) [
      | inl n' ↦ rw n' tt
      | inr (dest, n') ↦ rw n' (kind_updates-Balanced _ (refl, refl))
    ])
  ]

  -- A server's span whose status is 400 or more, as a signed number.
  abbrev pub is_server_error : Bytes → Bool
  is_server_error kind = equal kind (codes "server") && status_is_error print_int status

  updates_of-Counts :
      (kind : Bytes)
      → Holds (Counts (is_server_error kind) (own_name kind s)) (updates_of print_int s kind)
  unfolding updates_of internal_kind
  updates_of-Counts kind = elim (Bool-cases (equal kind (codes "server"))) [
    | inl on ↦ rw on server-Balanced
    | inr off ↦ rw off (elim (Bool-cases (equal kind (codes "client"))) [
      | inl on ↦ rw on (client-Counts (str s.tags (codes "db.system")))
      | inr not_client ↦
          rw not_client
            (elim (Bool-cases (equal kind (codes "producer") || equal kind (codes "consumer"))) [
              | inl on ↦ rw on (messaging-Counts kind)
              | inr other ↦ rw other (elim (Bool-cases (equal kind (codes "internal"))) [
                | inl on ↦ rw on (kind_updates-Balanced _ (refl, refl))
                | inr nothing ↦ rw nothing (refl, refl)
              ])
            ])
    ])
  ]

  -- The span's duration in microseconds, and the time of its end, both of 64 bits.
  abbrev pub lasted : ℕ
  lasted = add64 (s.duration_seconds * 1000000) (s.duration_nanos / 1000)

  abbrev pub ended : ℕ
  ended = add64 (s.start_seconds * 1000000 + s.start_nanos / 1000) lasted

  -- What is proved of a span that is handled, of a process.
  abbrev pub Told : (Bytes → ℕ) → Option ProcessOf → Option OtelHandled → Type 0
  Told freq none h = h ≡ none
  Told freq (some p) none = ⊥
  Told freq (some p) (some h) =
      (h.duration_us ≡ lasted)
      × (h.agg_timestamp ≡ center_timestamp (ended / 1000) (freq p.service_name))
      × ((kind : Bytes) × (str s.tags (codes "span.kind") ≡ some kind)
          × Counts (is_server_error kind) (own_name kind s) h.updates)

  with_process-Told :
      (freq : Bytes → ℕ) (p : Option ProcessOf)
      → Holds (Told freq p) (with_process print_int freq s p)
  unfolding with_process handled_of duration_us_of end_of
  with_process-Told freq none = refl
  with_process-Told freq (some p) = elim (Option-cases (str s.tags (codes "span.kind"))) [
    | inl n ↦ rw n tt
    | inr (kind, n) ↦ rw n (
        Holds->>= (Counts (is_server_error kind) (own_name kind s)) (Told freq (some p))
          (updates_of print_int s kind) _ (updates_of-Counts kind)
          (λ updates h. (refl, refl, (kind, n, h))))
  ]

  -- A span that is handled is left if it has no process. Else its duration is that of the span, and
  -- its window that in which the span ended; its kind and its tags say under which name it is
  -- counted, which is the operation's, or the domain for a client's call over HTTP, or the
  -- destination of a message: its duration is recorded once under that name and once under that of
  -- all spans of its kind, both are counted once, a span of a server with a status of 400 or more
  -- raises the count of errors of both once, no other span raises one, and no other name is used.
  -- The kinds that the code does not know, and a client's span of no known system, alone have no
  -- update.
  pub otel_process_jaeger_span-Told :
      (metric_flush_freq_ms : Bytes → ℕ) (h : Option OtelHandled)
      → otel_process_jaeger_span print_int metric_flush_freq_ms (some s) ≡ some h
      → Told metric_flush_freq_ms s.process h
  unfolding otel_process_jaeger_span
  otel_process_jaeger_span-Told metric_flush_freq_ms h =
      Holds-some (Told metric_flush_freq_ms s.process)
        (with_process print_int metric_flush_freq_ms s s.process)
        (with_process-Told metric_flush_freq_ms s.process)
