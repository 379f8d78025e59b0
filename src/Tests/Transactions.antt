-- ===== src/Tests/Transactions.antt =====
-- src/tm_process_transaction.c on small transactions.
use tracemate.Base.{
  if◌then◌else◌, ◌+◌, ◌≤◌, true, false, Option, none, some, [], codes, ◌⊎◌, ◌≡◌, refl,
}
use tracemate.CString.{equal, strstr, tokens}
use tracemate.Message.{Json, tm_apm_server_major_version}
use tracemate.Utils.PathCheck.{is_path_ok}
use tracemate.Utils.Genericize.{Pcre, genericize_path}
use tracemate.Store.{Store, all_written}
use tracemate.Store.Write.{tm_transaction_store_put, tm_transaction_store_mark_traceable}
use tracemate.Transaction.{
  More, Setup, Context, request_count, error_count, client_error_count, server_error_count,
}
use tracemate.Transaction.Request.{request_updates}
use tracemate.Transaction.Errors.{raised}
use tracemate.Transaction.Handler.{Part, nothing, typed_part}
use tracemate.Transaction.Answers.{typed_part-request}
use tracemate.Transaction.Process.{Handled, rejected, process_transaction_message}
use tracemate.Transaction.Performed.{op_of, process_transaction_message-Performs}
use tracemate.Samples.Typed.Names.{Performs, empty-Typed}
use tracemate.Tests.Metrics.{small}
use tracemate.Message.Tags.{Clock}
use tracemate.Transaction.Stored.{wrapped}
use tracemate.Tests.Objects.{Tree, word, tree_builder, tree_codec}
use tracemate.Tests.Stores.{texts, member_text, table, keys, config, id, empty_store}

abbrev more : More texts
more = record {
  boolean = λ o. true;
  array_get_idx_0 = λ o. some o;
  b64_encode = λ s. s;
  print_int = λ n. codes "200";
}

abbrev pub no_pcre : Pcre
no_pcre = record { Regex = Unit {0}; exec = λ r s. none }

abbrev pub setup : Setup no_pcre
setup = record {
  collect_host_level_metrics = true;
  rollup_high_cardinality = false;
  rules = record { matcher = []; squash_regexes = none; chopper = none };
  metric_flush_freq_ms = λ s. 60000;
  jaeger_threshold_us = λ s. 1000000;
}

abbrev pub context : Context
context = record {
  tag_string = codes "service:ops-api,host:a";
  agg_tag_string = codes "service:ops-api,host:all,ip:all";
  duration_us = 1500;
  metric_timestamp = 61000;
  agg_timestamp = 90000;
  rollup = [];
  collect_host_level_metrics = true;
}

abbrev part_or_nothing : Option (Part texts) → Part texts
part_or_nothing none = nothing texts
part_or_nothing (some p) = p

abbrev answered : Part texts
answered = part_or_nothing (
    typed_part texts more no_pcre (λ s. some s) setup context (codes "m") (codes "t")
      (codes "request"))

goes_through :
    typed_part texts more no_pcre
      (λ s. some s)
      setup
      context
      (codes "m")
      (codes "t")
      (codes "request")
    ≡ some answered
unfolding typed_part equal tokens tm_apm_server_major_version is_path_ok genericize_path strstr
goes_through = refl

typed_part-request_example :
    ((answered.goes_on ≡ false) × (answered.updates ≡ []))
    ⊎ ((raised request_count answered.updates ≡ 1)
        × (raised error_count answered.updates ≤ 1)
        × (raised error_count answered.updates
            ≡ raised client_error_count answered.updates
              + raised server_error_count answered.updates))
typed_part-request_example =
    typed_part-request texts more no_pcre (λ s. some s) setup context (codes "m") (codes "t")
      answered goes_through

abbrev slow : Tree
slow = word (codes "m")

abbrev slow_put : Tree
slow_put = wrapped tree_builder slow (codes "/a")

abbrev slow_store : Store table keys
slow_store =
    (tm_transaction_store_put table keys tree_codec config all_written 2000 id slow_put 2000 0
      (tm_transaction_store_mark_traceable table keys all_written id empty_store)).1

-- A server of the version 6, and a request.
abbrev requests : Json
requests = record texts {
  get = λ o name. some (
      if equal name (codes "type")
      then codes "request"
      else if equal name (codes "version")
      then codes "6.8"
      else member_text name);
}

abbrev pub clock : Clock
clock = record {
  scan = λ s. record { year = 2020; month = 1; day = 1; hour = 0; minute = 0; second = 0; ms = 0 };
  mktime = λ t. 1577836800;
}

abbrev agents : More requests
agents = record {
  boolean = λ o. true;
  array_get_idx_0 = λ o. some o;
  b64_encode = λ s. s;
  print_int = λ n. codes "200";
}

abbrev or_rejected : Option (Handled requests) → Handled requests
or_rejected none = rejected requests
or_rejected (some h) = h

abbrev request : Handled requests
request = or_rejected (
    process_transaction_message requests agents no_pcre (λ s. some s) 0 false clock (λ t. setup)
      (codes "m"))

request_handled :
    process_transaction_message requests agents no_pcre
      (λ s. some s)
      0
      false
      clock
      (λ t. setup)
      (codes "m")
    ≡ some request
unfolding process_transaction_message equal tokens tm_apm_server_major_version is_path_ok
    genericize_path strstr
request_handled = refl

request_is_counted : raised request_count request.part.updates ≡ 1
unfolding process_transaction_message equal tokens tm_apm_server_major_version is_path_ok
    genericize_path strstr request_updates
request_is_counted = refl

process_transaction_message-Performs_example :
    Performs small (op_of small) 2000 1 request.part.updates []
process_transaction_message-Performs_example =
    process_transaction_message-Performs small requests agents no_pcre (λ s. some s) 0 false clock
      (λ t. setup) (codes "m") request 2000 1 [] request_handled (empty-Typed small)
