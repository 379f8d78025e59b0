-- ===== src/Transaction/Process/Updated.antt =====
-- The updates of a transaction are none, or those that the branch for its type makes.
use tracemate.Base.{
  ℕ, ◌&&◌, ◌||◌, not, ltb, List, [], Option, none, some, Holds, Holds->>=, Holds-some, Bytes, codes,
  Bool, Bool-cases, Option-cases, inl, inr, ◌≡◌,
}
use tracemate.Message.{Json, tm_service_name}
use tracemate.Message.Tags.{Clock, Header, pre_process, build_agg_tag_string}
use tracemate.Utils.Genericize.{Pcre}
use tracemate.Transaction.{More, Setup, Context, Update}
use tracemate.Transaction.Handler.{Part, text_of, uint64_of, typed_part}
use tracemate.Transaction.Process.{
  lag_limit, context_of, Handled, with_calls, with_type, with_service, with_trace_id, with_trace,
  with_duration, with_transaction, with_tags, process_transaction_message,
}

module _ (json : Json) (more : More json) (pcre : Pcre) (unescape : Bytes → Option Bytes)
    (kafka_lag : ℕ) (aborts : Bool) (P : List Update → Type 0) (empty : P [])
    (typed : (setup : Setup pcre) (c : Context) (m trans : json.Object) (type : Bytes)
      → Holds
          (λ (p : Part json). P p.updates)
          (typed_part json more pcre unescape setup c m trans type)) where
  abbrev OfPart : Handled json → Type 0
  OfPart h = P h.part.updates

  with_calls-OfPart :
      (parent : Option json.Object) (threshold_us duration_us : ℕ) (trace_id : Bytes)
      (p : Part json)
      → P p.updates
      → OfPart (with_calls json aborts parent kafka_lag threshold_us duration_us trace_id p)
  unfolding with_calls
  with_calls-OfPart parent threshold_us duration_us trace_id p h =
      elim (Bool-cases (not p.goes_on || (ltb kafka_lag lag_limit && aborts))) [
        | inl on ↦ rw on h
        | inr off ↦ rw off h
      ]

  with_type-OfPart :
      (setup : Setup pcre) (c : Context) (m trans : json.Object) (trace_id : Bytes)
      (threshold_us : ℕ) (type : Option Bytes)
      → Holds OfPart (
          with_type json more pcre unescape kafka_lag aborts setup c m trans trace_id threshold_us
            type)
  unfolding with_type
  with_type-OfPart setup c m trans trace_id threshold_us none = tt
  with_type-OfPart setup c m trans trace_id threshold_us (some type) =
      Holds->>= (λ (p : Part json). P p.updates) OfPart
        (typed_part json more pcre unescape setup c m trans type) _ (typed setup c m trans type)
        (with_calls-OfPart (json.get m (codes "parent")) threshold_us c.duration_us trace_id)

  with_service-OfPart :
      (setup : Setup pcre) (h : Header) (agg : Bytes) (m trans : json.Object) (us : ℕ)
      (trace_id : Bytes) (service : Option Bytes)
      → Holds OfPart (
          with_service json more pcre unescape kafka_lag aborts setup h agg m trans us trace_id
            service)
  unfolding with_service
  with_service-OfPart setup h agg m trans us trace_id none = empty
  with_service-OfPart setup h agg m trans us trace_id (some s) =
      with_type-OfPart setup (context_of setup h agg us s) m trans trace_id
        (setup.jaeger_threshold_us s) (text_of json (json.get trans (codes "type")))

  with_trace-OfPart :
      (setup : Setup pcre) (h : Header) (agg : Bytes) (m trans : json.Object) (us : ℕ)
      (trace : Option json.Object)
      → Holds OfPart
          (with_trace json more pcre unescape kafka_lag aborts setup h agg m trans us trace)
  unfolding with_trace with_trace_id
  with_trace-OfPart setup h agg m trans us none = empty
  with_trace-OfPart setup h agg m trans us (some trace) =
      elim (Option-cases (json.get trace (codes "id"))) [
        | inl n ↦ rw n empty
        | inr (id, n) ↦ rw n (
            with_service-OfPart setup h agg m trans us (json.string id)
              (tm_service_name json (some m)))
      ]

  with_transaction-OfPart :
      (setup : Setup pcre) (h : Header) (agg : Bytes) (m : json.Object) (trans : Option json.Object)
      → Holds OfPart (with_transaction json more pcre unescape kafka_lag aborts setup h agg m trans)
  unfolding with_transaction with_duration
  with_transaction-OfPart setup h agg m none = empty
  with_transaction-OfPart setup h agg m (some trans) =
      elim (Option-cases (json.get trans (codes "duration"))) [
        | inl n ↦ rw n empty
        | inr (duration, n) ↦ rw n (
            with_trace-OfPart setup h agg m trans (uint64_of json (json.get duration (codes "us")))
              (json.get m (codes "trace")))
      ]

  with_tags-OfPart :
      (setup : Setup pcre) (h : Header) (m : json.Object) (agg : Option Bytes)
      → Holds OfPart (with_tags json more pcre unescape kafka_lag aborts setup h m agg)
  unfolding with_tags
  with_tags-OfPart setup h m none = empty
  with_tags-OfPart setup h m (some agg) =
      with_transaction-OfPart setup h agg m (json.get m (codes "transaction"))

  -- What holds of no updates, and of those that the branch for a type makes, holds of those of a
  -- message that is read to the end.
  pub process_transaction_message-updates :
      (clock : Clock) (setup_of : Bytes → Setup pcre) (m : json.Object) (h : Handled json)
      → process_transaction_message json more pcre unescape kafka_lag aborts clock setup_of m
        ≡ some h
      → P h.part.updates
  unfolding process_transaction_message
  process_transaction_message-updates clock setup_of m h =
      Holds-some OfPart
        (process_transaction_message json more pcre unescape kafka_lag aborts clock setup_of m)
        (Holds->>= (λ (x : Header). Unit {0}) OfPart (pre_process json clock m) _
          (elim (Option-cases (pre_process json clock m)) [
            | inl n ↦ rw n tt
            | inr (x, n) ↦ rw n tt
          ])
          (λ x u. with_tags-OfPart (setup_of x.team) x m (build_agg_tag_string json m)))
