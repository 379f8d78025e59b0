-- ===== src/Spans/Process/Counted.antt =====
-- How a span is counted.
use tracemate.Base.{
  ◌/◌, ◌>>=◌, add64, subst, sym, ℕ, ◌+◌, Bool, true, false, ◌&&◌, Option, none, some, List, [], ◌∷◌,
  if◌then◌else◌, ◌==◌, Bytes, codes, not, All, Holds, Holds-some, Holds->>=, ◌||◌, inl, inr, ◌≡◌,
  refl, arith, Bool-cases, Option-cases,
}
use tracemate.CString.{equal, starts_with}
use tracemate.Message.{Json, tm_apm_server_major_version, tm_service_name}
use tracemate.Message.Tags.{Clock, Header, pre_process, build_agg_tag_string}
use tracemate.Utils.Genericize.{Pcre, genericize_path}
use tracemate.Store.Kept.{some_is_not_none}
use tracemate.Utils.Timestamp.{center_timestamp}
use tracemate.Transaction.{StoreCall, add_child, Setup, Context}
use tracemate.Transaction.Handler.{text_of, uint64_of}
use tracemate.Transaction.Process.{context_of}
use tracemate.Spans.{
  Layer, db, external, internal, intternal, Measure, latency, Spanned, all, SpanUpdate, measured,
  counted,
}
use tracemate.Spans.Updates.{subtype_updates, db_updates, external_updates, internal_updates}
use tracemate.Spans.Process.{
  Branch, SpanHandled, subtype_of, db_branch, external_branch, typed_branch, with_type,
  with_service, with_trace_id, with_trace, with_trace_id, with_duration, with_span,
  process_span_message,
}

abbrev pub is_layer : Layer → Layer → Bool
is_layer db db = true
is_layer external external = true
is_layer internal internal = true
is_layer intternal intternal = true
is_layer l k = false

abbrev is_all : Spanned → Bool
is_all all = true
is_all s = false

-- How often the service's latency of the layer, over all of its spans, is given the duration.
abbrev pub measured_all : Layer → ℕ → List SpanUpdate → ℕ
measured_all l us [] = 0
measured_all l us (measured n d t ∷ updates) =
    (if is_layer l n.layer && is_all n.spanned && (d == us) then 1 else 0)
    + measured_all l us updates
measured_all l us (counted n t ∷ updates) = measured_all l us updates

-- How often the service's count of spans of the layer is raised.
abbrev pub counted_all : Layer → List SpanUpdate → ℕ
counted_all l [] = 0
counted_all l (measured n d t ∷ updates) = counted_all l updates
counted_all l (counted n t ∷ updates) =
    (if is_layer l n.layer && is_all n.spanned then 1 else 0) + counted_all l updates

-- The time window that an update goes to.
abbrev AtTime : ℕ → SpanUpdate → Type 0
AtTime t (measured n d s) = s ≡ t
AtTime t (counted n s) = s ≡ t

abbrev pub is_latency : Measure → Bool
is_latency latency = true
is_latency m = false

-- Durations are given to latencies of a layer that is spelt right, counts to what is no latency.
abbrev pub Fair : SpanUpdate → Type 0
Fair (measured n d t) = (is_latency n.measure && not (is_layer intternal n.layer)) ≡ true
Fair (counted n t) = is_latency n.measure ≡ false

-- A span of the layer is measured once and counted once, over all spans of the service, and every
-- update goes to the same window.
pub record CountedOnce (us t : ℕ) (layer : Layer) (updates : List SpanUpdate) : Type 0 where
  pub measured_once : measured_all layer us updates ≡ 1
  pub counted_once : counted_all layer updates ≡ 1
  pub in_window : All (AtTime t) updates
  pub fair : All Fair updates

db_updates-CountedOnce :
    (c : Context) (operation : Bytes) (subtype : Option Bytes)
    → CountedOnce c.duration_us c.agg_timestamp db (db_updates c operation subtype)
unfolding db_updates subtype_updates
db_updates-CountedOnce c operation none = ground arith
db_updates-CountedOnce c operation (some subtype) = ground arith

external_updates-CountedOnce :
    (c : Context) (name : Bytes)
    → CountedOnce c.duration_us c.agg_timestamp external (external_updates c name)
unfolding external_updates
external_updates-CountedOnce c name = ground arith

internal_updates-CountedOnce :
    (c : Context) (name : Bytes)
    → CountedOnce c.duration_us c.agg_timestamp internal (internal_updates c name)
unfolding internal_updates
internal_updates-CountedOnce c name = ground arith

-- Which layer the spans of a type belong to, if to any.
abbrev pub layer_of : Bytes → Option Layer
layer_of type =
    if starts_with (codes "db") type
    then some db
    else if equal type (codes "external.http")
        || equal type (codes "ext.http.http")
        || equal type (codes "external")
    then some external
    else if equal type (codes "custom") || equal type (codes "app")
    then some internal
    else none

-- Counted once where there is a layer, and not at all where there is none.
abbrev pub Counts : ℕ → ℕ → Option Layer → List SpanUpdate → Type 0
Counts us t none updates = updates ≡ []
Counts us t (some layer) updates = CountedOnce us t layer updates

Counts-Fair :
    (us t : ℕ) (layer : Option Layer) (updates : List SpanUpdate)
    → Counts us t layer updates
    → All Fair updates
Counts-Fair us t none updates h = subst (All Fair) (sym h) tt
Counts-Fair us t (some layer) updates h = h.fair

module _ (json : Json) (pcre : Pcre) (unescape : Bytes → Option Bytes) (setup : Setup pcre)
    (c : Context) where
  abbrev CountsAt : Option Layer → Branch → Type 0
  CountsAt layer b = Counts c.duration_us c.agg_timestamp layer b.updates

  db_branch-Counts :
      (mv : ℕ) (span : json.Object) (type : Bytes)
      → Holds (CountsAt (some db)) (db_branch json c mv span type)
  unfolding db_branch
  db_branch-Counts mv span type = elim (Option-cases (subtype_of json mv span type)) [
    | inl n ↦ rw n tt
    | inr (subtype, n) ↦ rw n (db_updates-CountedOnce c _ subtype)
  ]

  external_branch-Counts :
      (span : json.Object)
      → Holds (CountsAt (some external)) (external_branch json pcre unescape setup c span)
  unfolding external_branch
  external_branch-Counts span =
      elim (Option-cases
        (genericize_path pcre setup.rules unescape (text_of json (json.get span (codes "name"))))) [
          | inl n ↦ rw n tt
          | inr (g, n) ↦ rw n (external_updates-CountedOnce c g.path)
        ]

  typed_branch-Counts :
      (mv : ℕ) (span : json.Object) (type : Bytes)
      → Holds (CountsAt (layer_of type)) (typed_branch json pcre unescape setup c mv span type)
  unfolding typed_branch
  typed_branch-Counts mv span type = elim (Bool-cases (starts_with (codes "db") type)) [
    | inl on ↦ rw on (db_branch-Counts mv span type)
    | inr off ↦
        rw off
          (elim (Bool-cases (
            equal type (codes "external.http")
            || equal type (codes "ext.http.http")
            || equal type (codes "external"))) [
              | inl on ↦ rw on (external_branch-Counts span)
              | inr out ↦
                  rw out
                    (elim (Bool-cases (equal type (codes "custom") || equal type (codes "app"))) [
                      | inl on ↦ rw on (internal_updates-CountedOnce c _)
                      | inr none_ ↦ rw none_ refl
                    ])
            ])
  ]

-- What a span message has to have to be stored: the span, its duration and its trace's id.
pub record Located (json : Json) : Type 0 where
  pub span : json.Object
  pub us : ℕ
  pub trace_id : Bytes

module _ (json : Json) where
  abbrev pub located_in : json.Object → Option json.Object → Option Bytes → Option (Located json)
  located_in m span agg = do
    s ← span
    a ← agg
    duration ← json.get s (codes "duration")
    trace ← json.get m (codes "trace")
    id ← json.get trace (codes "id")
    some (record {
      span = s;
      us = uint64_of json (json.get duration (codes "us"));
      trace_id = json.string id;
    })

  -- Its members, where the tags over all hosts can be made.
  abbrev pub located : json.Object → Option (Located json)
  located m = located_in m (json.get m (codes "span")) (build_agg_tag_string json m)

  module _ (pcre : Pcre) (unescape : Bytes → Option Bytes) (setup : Setup pcre) (x : Header)
      (m : json.Object) where
    -- The window of the span's end, which is the header's time and the duration.
    abbrev pub window_of : ℕ → Bytes → ℕ
    window_of us service =
        center_timestamp (add64 x.timestamp (us / 1000)) (setup.metric_flush_freq_ms service)

    abbrev pub Served : Located json → Option Bytes → SpanHandled json → Type 0
    Served l none h = (h.branch.updates ≡ []) × (h.errored ≡ 1)
    Served l (some service) h =
        (type : Bytes) × (text_of json (json.get l.span (codes "type")) ≡ some type)
        × Counts l.us (window_of l.us service) (layer_of type) h.branch.updates

    abbrev pub Stores : Option (Located json) → SpanHandled json → Type 0
    Stores none h = (h.calls ≡ []) × (h.branch.updates ≡ [])
    Stores (some l) h =
        (h.calls ≡ add_child l.trace_id ∷ []) × Served l (tm_service_name json (some m)) h

    Served-Fair :
        (l : Located json) (service : Option Bytes) (h : SpanHandled json)
        → Served l service h
        → All Fair h.branch.updates
    Served-Fair l none h served = subst (All Fair) (sym served.0) tt
    Served-Fair l (some service) h (type, typed, counts) = Counts-Fair _ _ (layer_of type) _ counts

    pub Stores-Fair :
        (l : Option (Located json)) (h : SpanHandled json) → Stores l h → All Fair h.branch.updates
    Stores-Fair none h stores = subst (All Fair) (sym stores.1) tt
    Stores-Fair (some l) h stores = Served-Fair l (tm_service_name json (some m)) h stores.1

    with_type-Served :
        (agg service : Bytes) (l : Located json) (calls : List (StoreCall json))
        (type : Option Bytes)
        → text_of json (json.get l.span (codes "type")) ≡ type
        → Holds
            (λ h. (h.calls ≡ calls) × Served l (some service) h)
            (with_type json pcre unescape setup
              (context_of setup x agg l.us service)
              (tm_apm_server_major_version json (some m))
              l.span
              calls
              type)
    unfolding with_type context_of
    with_type-Served agg service l calls none e = tt
    with_type-Served agg service l calls (some type) e =
        let c = context_of setup x agg l.us service in
        let mv = tm_apm_server_major_version json (some m) in
        Holds->>= (λ (b : Branch). CountsAt json pcre unescape setup c (layer_of type) b)
          (λ (h : SpanHandled json). (h.calls ≡ calls) × Served l (some service) h)
          (typed_branch json pcre unescape setup c mv l.span type) _
          (typed_branch-Counts json pcre unescape setup c mv l.span type)
          (λ b h. (refl, (type, e, h)))

    with_service-Served :
        (agg : Bytes) (l : Located json) (service : Option Bytes)
        → Holds
            (λ h. (h.calls ≡ add_child l.trace_id ∷ []) × Served l service h)
            (with_service json pcre unescape setup x agg
              (tm_apm_server_major_version json (some m))
              l.span
              l.us
              (add_child l.trace_id ∷ [])
              service)
    unfolding with_service
    with_service-Served agg l none = (refl, (refl, refl))
    with_service-Served agg l (some service) =
        with_type-Served agg service l (add_child l.trace_id ∷ []) _ refl

    with_span-Stores :
        (span : Option json.Object) (agg : Option Bytes)
        → Holds (Stores (located_in m span agg)) (with_span json pcre unescape setup x m span agg)
    unfolding with_span with_duration with_trace with_trace_id
    with_span-Stores none agg = (refl, refl)
    with_span-Stores (some span) none = (refl, refl)
    with_span-Stores (some span) (some agg) =
        elim (Option-cases (json.get span (codes "duration"))) [
          | inl n ↦ rw n (refl, refl)
          | inr (duration, n) ↦ rw n (elim (Option-cases (json.get m (codes "trace"))) [
            | inl n' ↦ rw n' (refl, refl)
            | inr (trace, n') ↦ rw n' (elim (Option-cases (json.get trace (codes "id"))) [
              | inl n'' ↦ rw n'' (refl, refl)
              | inr (id, n'') ↦ rw n'' (
                  with_service-Served agg
                    (record {
                      span = span;
                      us = uint64_of json (json.get duration (codes "us"));
                      trace_id = json.string id;
                    })
                    (tm_service_name json (some m)))
            ])
          ])
        ]

module _ (json : Json) (pcre : Pcre) (unescape : Bytes → Option Bytes) where
  -- A message that is read to the end has a header; with it and what the message has of the span it
  -- is stored and counted.
  abbrev pub Counted : Clock → (Bytes → Setup pcre) → json.Object → SpanHandled json → Type 0
  Counted clock setup_of m h =
      (x : Header) × (pre_process json clock m ≡ some x)
      × Stores json pcre unescape (setup_of x.team) x m (located json m) h

  -- A span message that is read to the end does nothing where the span, its duration, the id of its
  -- trace or what the tags are made of is missing. Else it goes to the store, as a child of that
  -- trace and once. Without a service's name it is an error, and has no update. Else its type
  -- decides: one that begins with "db", the three for external calls, and "custom" and "app" each
  -- give the span's duration to the service's latency of their layer once, and raise the service's
  -- count of that layer once; all of the updates go to the window in which the span ended;
  -- durations are given to names of latencies, and counts to others. A span of another type has no
  -- update.
  pub process_span_message-Counted :
      (clock : Clock) (setup_of : Bytes → Setup pcre) (m : json.Object) (h : SpanHandled json)
      → process_span_message json pcre unescape clock setup_of m ≡ some h
      → Counted clock setup_of m h
  unfolding process_span_message
  process_span_message-Counted clock setup_of m h e =
      elim (Option-cases (pre_process json clock m)) [
        | inl n ↦ absurd (some_is_not_none (rw n at e))
        | inr (x, n) ↦ (
          x,
          n,
          Holds-some (Stores json pcre unescape (setup_of x.team) x m (located json m)) _
              (with_span-Stores json pcre unescape (setup_of x.team) x m (json.get m (codes "span"))
                (build_agg_tag_string json m))
              (rw n at e),
        )
      ]
