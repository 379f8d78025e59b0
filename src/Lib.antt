-- ===== src/Lib.antt =====
-- Verification of the core of tracemate. The program reads Elastic APM messages from Kafka, keeps
-- one table of metrics per team, flushes the tables to a journal (for Circonus) or back to Kafka
-- (for aggregation), keeps the events of each trace in a store until they go to Jaeger, and learns
-- from the URLs of a service how to make its paths generic.
--
-- Base and CString hold what the parts share: Boolean tests on the native numbers, lists and
-- options, words (`u64`, `add64`), and C strings as lists of bytes with the functions of
-- <string.h>.
--
-- Utils/ models src/tm_utils.h and src/tm_utils.c: Timestamp is `floor_timestamp` and its kin,
-- Base64 is `to_b64_url`, Template is `tm_replace_vars`, PathCheck is `is_path_ok`, and Genericize
-- is `genericize_path` with `apply_regex` and `apply_path_squasher`. PCRE and curl's unescaping are
-- parameters. Curl returns in tm_utils.c a buffer with its length; a decoded NUL ends the string.
--
-- Squasher/ models src/tm_url_squasher.c: the tree of path segments, the merge of two trees and the
-- squashing of a level (`recurse_add_children`, `squash_children`), `tm_path_squasher_add_path`,
-- and, in Regexes, the regular expressions that the tree stands for. The recursion is structural,
-- on the list of segments and on the tree that is merged in. The factor is not negative. A URL path
-- is not empty.
--
-- Metric/ models src/tm_metric.h, the updates of src/tm_process.c, and the flush of one team in
-- src/tm_metric.c with `journal_output_metrics` of src/tm_circonus.c. A team's table is an
-- association list by `MetricKey`; Table has the operations of mtev_hash and their laws, Upsert
-- what the updates share (a look without the lock, and a second one under it), Update the updates
-- themselves, and Flush/ the loop over a team's metrics. Json is `json_escape_str` and
-- `metric_to_json`; the flush takes the length of a metric's JSON, and what the journal and Kafka
-- answer, as parameters, as doubles, histograms and the formats of printf are. Counters wrap at
-- 2^64. An update is one step; during a flush no update comes in.
--
-- Message/ models the inline functions of src/tm_process.h and `pre_process`, `tm_clean_tag_value`
-- and `build_agg_tag_string` of src/tm_process.c. json-c, `sscanf` and `mktime` are parameters.
-- That `service_name` fits the buffers it is copied to is taken for granted.
--
-- Teams models `get_team_data` and `tm_add_team` of src/tm_metric.c, the registry of teams.
--
-- Aggregate/ models src/tm_process_aggregate.c: Key is `parse_key`, Rollup is `_build_rollup_key`
-- and `store_numeric_rollup`, and Aggregate itself is `process_aggregate_message` with its three
-- kinds of inbound values. What circllhist computes is a parameter. The two buffers that the loop
-- over the members never clears are part of the state.
--
-- Store/ models src/tm_transaction_store.c: the two LMDB environments, current and last, in which a
-- transaction waits for its spans. Store has the records; Write is `tm_transaction_store_put`,
-- `_add_child` and `_mark_traceable`, Read is `tm_transaction_store_get` and
-- `_tm_transaction_store_get_children`, Rotate is `_init` and `_delete_old_transactions`, and
-- Jaeger is `tm_transaction_store_process_jaeger`. Steps makes the calls the steps of a relation.
-- LMDB, json-c, LZ4 and the Bloom filters (src/bloom wraps two libraries) are parameters, with
-- laws: what was put is got, a filter has no false negatives, and printing and parsing are inverse.
-- Whether a call of LMDB succeeds is an argument. The lock, the paths and the moving of files are
-- left out, and what src/tm_jaeger.cpp does with a transaction or a span is an event.
--
-- Transaction/ models src/tm_process_transaction.c: Transaction has the names and the updates of
-- metrics, Request the updates for a request, Handler the branches for the types, and Process
-- `process_transaction_message` itself. Its result is the list of the updates, which Metric/
-- models, of the calls of the store, which Stored performs, and of what else it changes. The lag of
-- Kafka and the answer of the hook for traces are arguments. A name is printed into 4095 bytes.
--
-- Samples/ models src/tm_process_metric.c: Samples has the changes of a team's table and performs
-- them, Gauges the groups of updates that recur, Flat and Nested the two forms of a message, and
-- Process `process_metric_message`. Its result is the list of the changes. The conversions of
-- doubles are parameters. Same and its children compare the two forms. Typed says which type of
-- value a name stands for, and what such a list of changes does to a table where values are of
-- these types.
--
-- Handlers/ models src/tm_process_error.c, src/tm_process_regex.c (Escape is `escape_regex`) and
-- src/tm_process_url.c. What a team keeps by service is an association list; the table of a team is
-- an argument, and its change part of the result.
--
-- Spans/ models src/tm_process_elastic_span.c: Subtype is `parse_v6_type`, Updates has the updates
-- of each layer, and Process is `process_span_message`. Its result is the list of the updates and
-- of the calls of the store. The names are kept in parts; `span_metric_name` prints them.
-- Performed, here and in Transaction/ and Otel/, makes changes as in Samples/ of the updates.
--
-- Otel/ models `otel_process_jaeger_span` of src/tm_process_otel_span.cc with `get_tag`,
-- `parse_domain` and `simplify_status_code`: Updates has the updates of each kind of span, Process
-- the handler. A span is what protobuf gives the handler, and whether it could be parsed is an
-- argument; seconds and nanoseconds are not negative. What the function returns is left out, since
-- it falls off its end.
--
-- Published models `send_regex_to_kafka` and the loop of `tm_flush_team_metrics` in src/tm_metric.c
-- that publishes the regular expressions of the path squashers. Published/Once puts it together
-- with the handler that reads them.
--
-- Kafka/ models src/tm_kafka.c: Consume is `tm_kafka_handle_message`, `tm_kafka_process_message`
-- and `tm_kafka_consume_messages`, with the handlers, the hook and the JSON parser as parameters,
-- and with counts of the documents and tokeners that are not freed; Produce is `tm_kafka_produce`,
-- whose loop reads the list of what librdkafka answers; Program puts the handlers of Samples/,
-- Transaction/, Spans/, Handlers/ and Aggregate/ in the place of the parameter.
--
-- Journal/ models the rest of the way to Circonus, in src/tm_circonus.c: the entry that
-- `journal_output_metrics` writes, the thread that reads the entries (`send_thread`), with the loop
-- that polls curl and the checkpoint, and `send_metric_input`. jlog, curl and base64 are
-- parameters. The build without NO_PUBLISH is modelled, and a round of entries rather than the
-- endless loop around it.
--
-- No function runs on fuel: every loop is a recursion on a list, a text or a tree, or, where
-- `apply_regex` matches again, on the number of rounds that are left. A loop that waits for another
-- program reads the list of its answers, and has no result where that list ends first.
--
-- Tests/ runs the theorems at concrete inputs.
--
-- Not modelled: how the Kafka client, curl and the journal are set up; OAuth and JWT; the
-- conversion to Jaeger's protobuf classes and its gRPC client; `otel_process_otel_span`, which
-- nothing calls; the threads, the start-up and the configuration in src/main.c; the visuals; the
-- Bloom filter, which wraps two libraries; the web server's JavaScript and the deployment.
pub mod Base
pub mod CString
pub mod Utils
pub mod Metric
pub mod Message
pub mod Squasher
pub mod Teams
pub mod Aggregate
pub mod Store
pub mod Transaction
pub mod Samples
pub mod Handlers
pub mod Spans
pub mod Otel
pub mod Published
pub mod Kafka
pub mod Journal
pub mod Tests
