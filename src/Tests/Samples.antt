-- ===== src/Tests/Samples.antt =====
-- src/tm_process_metric.c on a message with one value, in its two forms.
use tracemate.Base.{
  ℕ, ◌+◌, true, false, Option, none, some, [], Bytes, codes, if◌then◌else◌, inl, inr, ◌≡◌, refl,
}
use tracemate.CString.{equal}
use tracemate.Message.{Json}
use tracemate.Metric.{Numbers}
use tracemate.Samples.{Conversions, At}
use tracemate.Samples.Process.{is_flat, tm_apm_server_version, sampled}
use tracemate.Samples.Same.{SameSystem, SameJvm, SameNodejs}
use tracemate.Samples.Forms.{flat_nested_same}

data Doc : Type 0 where
  flat nested flat_metadata nested_metadata flat_version nested_version system memory total : Doc

abbrev get_member : Doc → Bytes → Option Doc
get_member flat name =
    if equal name (codes "system.memory.total")
    then some total
    else if equal name (codes "@metadata")
    then some flat_metadata
    else none
get_member nested name =
    if equal name (codes "system")
    then some system
    else if equal name (codes "@metadata")
    then some nested_metadata
    else none
get_member flat_metadata name = some flat_version
get_member nested_metadata name = some nested_version
get_member system name = if equal name (codes "memory") then some memory else none
get_member memory name = if equal name (codes "total") then some total else none
get_member flat_version name = none
get_member nested_version name = none
get_member total name = none

abbrev string_of : Doc → Bytes
string_of flat_version = codes "7.15.2"
string_of nested_version = codes "7.10.0"
string_of o = []

abbrev docs : Json
docs = record {
  Object = Doc;
  get = get_member;
  string = string_of;
  uint64 = λ o. 8;
  int = λ o. 8;
  members = λ o. [];
}

abbrev numbers : Numbers
numbers = record {
  Double = ℕ;
  zero_double = 0;
  plus = ◌+◌;
  Hist = ℕ;
  hist_alloc = 0;
  hist_insert = λ h d. h + d;
  hist_accumulate = ◌+◌;
}

abbrev conversions : Conversions numbers docs
conversions = record {
  get_double = λ o. 8;
  get_uint64 = λ o. 8;
  of_uint64 = λ n. n;
  thousandth = λ n. n;
  thousandfold = λ n. n;
  to_uint64 = λ n. n;
}

abbrev at : At
at = record {
  tag_string = codes "service:ops-api,host:a";
  agg_tag_string = codes "service:ops-api,host:all,ip:all";
  timestamp_ms = 61000;
  agg_timestamp = 90000;
  collect_host_level_system = true;
}

flat_test : is_flat (tm_apm_server_version numbers docs conversions flat) ≡ true
unfolding is_flat tm_apm_server_version equal
flat_test = refl

nested_test : is_flat (tm_apm_server_version numbers docs conversions nested) ≡ false
unfolding is_flat tm_apm_server_version equal
nested_test = refl

system_test : SameSystem docs nested flat
unfolding equal
system_test = record {
  total = refl;
  total_whole = inr (total, refl);
  free = refl;
  free_whole = inl refl;
  own = refl;
  own_whole = inl refl;
  size = refl;
  size_whole = inl refl;
  cpu = refl;
  cpu_whole = inl refl;
}

jvm_test : SameJvm docs nested flat
unfolding equal
jvm_test = record {
  count = refl;
  committed = refl;
  used = refl;
  max = refl;
  whole = λ name h. inl refl;
  non_committed = refl;
  non_used = refl;
  non_max = refl;
  non_whole = λ name h. inl refl;
  time = refl;
  gc_count = refl;
  alloc = refl;
}

nodejs_test : SameNodejs docs nested flat
unfolding equal
nodejs_test = record { used = refl; allocated = refl; ms = refl }

flat_nested_same_example :
    (sampled numbers docs conversions at flat).ops
    ≡ (sampled numbers docs conversions at nested).ops
unfolding equal
flat_nested_same_example =
    flat_nested_same docs numbers conversions at nested flat flat_test nested_test system_test
      jvm_test nodejs_test refl
