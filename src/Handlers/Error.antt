-- ===== src/Handlers/Error.antt =====
-- `process_error_message` of src/tm_process_error.c. `none` as a result stands for a program that
-- goes wrong: an id that is NULL, or the team's name that is read although `pre_process` did not
-- set it.
use tracemate.Base.{
  ℕ, Option, none, some, List, [], ◌∷◌, ◌++◌, if◌then◌else◌, ◌>>=◌, Bytes, codes, Option-cases, inl,
  inr, ◌≡◌, sym, ap, ◌∙◌,
}
use tracemate.Message.{Json, tm_service_name}
use tracemate.Message.Tags.{Clock, Header, pre_process, build_agg_tag_string}
use tracemate.Utils.Timestamp.{center_timestamp}
use tracemate.Utils.Genericize.{Pcre}
use tracemate.Store.{trace, Lmdb, LmdbLaws, Bloom, Codec, Store, Config, all_written}
use tracemate.Store.Write.{tm_transaction_store_mark_traceable}
use tracemate.Store.Kept.{some_is_not_none}
use tracemate.Samples.{sample_name}
use tracemate.Transaction.{StoreCall, add_child, mark_traceable, Setup, rollup_of}
use tracemate.Transaction.Stored.{Builder, call, run_calls, some-inj}

module _ (json : Json) where
  -- The counters that are raised by one, with their timestamp, the calls of the store, and the
  -- count of messages that are malformed.
  pub record ErrorHandled : Type 0 where
    pub counters : List Bytes
    pub agg_timestamp : ℕ
    pub calls : List (StoreCall json)
    pub errored : ℕ

  abbrev malformed_error : ErrorHandled
  malformed_error = record { counters = []; agg_timestamp = 0; calls = []; errored = 1 }

  abbrev error_name : Bytes → Bytes
  error_name tags = sample_name (codes "transaction - apm_error_count") tags

  -- The trace is marked at once.
  unfoldable pub error_calls : Bytes → List (StoreCall json)
  error_calls trace_id = add_child trace_id ∷ mark_traceable trace_id ∷ []

  module _ (pcre : Pcre) where
    counted_error : Setup pcre → Header → Bytes → Bytes → Bytes → ErrorHandled
    unfolding error_calls
    counted_error setup h agg_tag_string service_string trace_id = record {
      counters =
          (if setup.collect_host_level_metrics
            then error_name (h.tag_string ++ rollup_of setup.rollup_high_cardinality) ∷ []
            else [])
          ++ error_name agg_tag_string ∷ [];
      agg_timestamp = center_timestamp h.timestamp (setup.metric_flush_freq_ms service_string);
      calls = error_calls trace_id;
      errored = 0;
    }

    with_error_id : Setup pcre → Header → Bytes → Bytes → Option json.Object → Option ErrorHandled
    unfolding counted_error
    with_error_id setup h agg service_string none = none
    with_error_id setup h agg service_string (some trace_id) =
        some (counted_error setup h agg service_string (json.string trace_id))

    with_error :
        Setup pcre
        → Header
        → Bytes
        → Bytes
        → Option json.Object
        → Option json.Object
        → Option ErrorHandled
    unfolding with_error_id
    with_error setup h agg service_string none trace_json = some malformed_error
    with_error setup h agg service_string (some error) none = some malformed_error
    with_error setup h agg service_string (some error) (some trace_json) =
        with_error_id setup h agg service_string (json.get trace_json (codes "id"))

    of_service : Setup pcre → Header → Bytes → json.Object → Option Bytes → Option ErrorHandled
    unfolding with_error
    of_service setup h agg m none = some malformed_error
    of_service setup h agg m (some service_string) =
        with_error setup h agg service_string (json.get m (codes "error"))
          (json.get m (codes "trace"))

    with_agg_tags : Setup pcre → Header → json.Object → Option Bytes → Option ErrorHandled
    unfolding of_service
    with_agg_tags setup h m none = some (record malformed_error { errored = 0 })
    with_agg_tags setup h m (some agg) = of_service setup h agg m (tm_service_name json (some m))

    unfoldable pub process_error_message :
        Clock → (Bytes → Setup pcre) → json.Object → Option ErrorHandled
    unfolding with_agg_tags pre_process build_agg_tag_string
    process_error_message clock setup_of m = do
      h ← pre_process json clock m
      with_agg_tags (setup_of h.team) h m (build_agg_tag_string json m)

  -- Once its calls are performed, the trace of an error is marked, to go to Jaeger with all of its
  -- spans.
  pub error_calls-marked :
      (lmdb : Lmdb) (laws : LmdbLaws lmdb) (bloom : Bloom) (codec : Codec json) (config : Config)
      (build : Builder json) (now : ℕ) (m : json.Object) (ttl : ℕ) (trace_id : Bytes)
      (s t : Store lmdb bloom)
      → run_calls lmdb bloom json codec config build now m ttl (error_calls trace_id) s ≡ some t
      → lmdb.get t.current_env.jaeger trace_id ≡ some trace
  unfolding error_calls run_calls call tm_transaction_store_mark_traceable
  error_calls-marked lmdb laws bloom codec config build now m ttl trace_id s t e =
      elim (Option-cases
        (call lmdb bloom json codec config build now m ttl (add_child trace_id) s)) [
          | inl n ↦ absurd (some_is_not_none (rw n at e))
          | inr (u, n) ↦
              let same : tm_transaction_store_mark_traceable lmdb bloom all_written trace_id u ≡ t =
                some-inj (rw n at e) in
              ap (λ (x : Store lmdb bloom). lmdb.get x.current_env.jaeger trace_id) (sym same)
              ∙ laws.get-put u.current_env.jaeger trace_id trace
        ]
