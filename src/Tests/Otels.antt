-- ===== src/Tests/Otels.antt =====
-- src/tm_process_otel_span.cc on a span of a server.
use tracemate.Base.{ℕ, [], ◌∷◌, Option, none, some, Bytes, codes, ◌≡◌, refl}
use tracemate.Otel.{KeyValue, JaegerSpan, parse_domain}
use tracemate.Otel.Process.{OtelHandled, otel_process_jaeger_span}
use tracemate.Otel.Performed.{Carried, otel_process_jaeger_span-Carried}
use tracemate.Samples.Typed.Names.{empty-Typed}
use tracemate.Tests.Metrics.{small}
use tracemate.Otel.Process.Balanced.{Told, otel_process_jaeger_span-Told}

abbrev tag : Bytes → Bytes → KeyValue
tag key value = record { key = key; v_str = value; v_int64 = 503 }

abbrev failed_request : JaegerSpan
failed_request = record {
  operation_name = codes "GET /a";
  tags =
      tag (codes "span.kind") (codes "server")
      ∷ tag (codes "http.method") (codes "GET")
      ∷ tag (codes "http.status_code") []
      ∷ [];
  start_seconds = 60;
  start_nanos = 0;
  duration_seconds = 1;
  duration_nanos = 500000000;
  process =
      some
        (record { service_name = codes "api"; tags = tag (codes "mlb.team") (codes "ops") ∷ [] });
}

abbrev print_int : ℕ → Bytes
print_int n = codes "5"

abbrev freq : Bytes → ℕ
freq service = 60000

abbrev or_none : Option (Option OtelHandled) → Option OtelHandled
or_none none = none
or_none (some h) = h

abbrev told : Option OtelHandled
told = or_none (otel_process_jaeger_span print_int freq (some failed_request))

is_handled : otel_process_jaeger_span print_int freq (some failed_request) ≡ some told
unfolding otel_process_jaeger_span
is_handled = refl

otel_process_jaeger_span-Told_example :
    Told print_int failed_request freq failed_request.process told
otel_process_jaeger_span-Told_example =
    otel_process_jaeger_span-Told print_int failed_request freq told is_handled

domain_test :
    parse_domain (codes "https://Search-api.MLB.com/svc") ≡ some (codes "search-api.mlb.com")
unfolding parse_domain
domain_test = refl

otel_process_jaeger_span-Carried_example : Carried small 2000 1 [] told
otel_process_jaeger_span-Carried_example =
    otel_process_jaeger_span-Carried small 2000 1 print_int failed_request freq told [] is_handled
      (empty-Typed small)
