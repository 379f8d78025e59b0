-- ===== src/Transaction/Performed.antt =====
-- What the updates of a transaction do to the table of the team.
use tracemate.Base.{
  ℕ, Option, some, All, Holds, Holds-map, Bytes, codes, Bool, Bool-cases, true, ◌≡◌, ◌∙◌, refl, sym,
  subst, inl, inr, arith, ◌||◌,
}
use tracemate.CString.{equal, starts_with}
use tracemate.Metric.{Numbers, text}
use tracemate.Message.{Json}
use tracemate.Message.Tags.{Clock}
use tracemate.Utils.Genericize.{Pcre}
use tracemate.Metric.Update.{Metrics}
use tracemate.Samples.{Op, counter, histogram, replace}
use tracemate.Samples.Typed.{ValueType, a_count, some_durations, some_words, Agrees, Typed}
use tracemate.Samples.Typed.Names.{name_type, Performs, updates-Performs}
use tracemate.Transaction.{
  Kind, latency, request_count, error_count, client_error_count, server_error_count, status_code,
  Subject, metric_name, Update, histogram_update, counter_update, text_update, More, Setup, Context,
  named_updates,
}
use tracemate.Transaction.Request.{Seen, error_updates, request_updates}
use tracemate.Transaction.Handler.{Part, typed_part, request_part, named_part}
use tracemate.Transaction.Answers.{Answers, request_part-Answers}
use tracemate.Transaction.Process.{Handled, process_transaction_message}
use tracemate.Transaction.Process.Updated.{process_transaction_message-updates}

-- An update is a call of update_histogram, update_counter or update_text.
abbrev pub op_of : (nums : Numbers) → Update → Op nums
op_of nums (histogram_update n duration_us timestamp) =
    histogram (metric_name n) true duration_us timestamp
op_of nums (counter_update n timestamp) = counter (metric_name n) true 1 timestamp
op_of nums (text_update n str timestamp) = replace (metric_name n) (text str) timestamp

abbrev pub kind_type : Kind → ValueType
kind_type latency = some_durations
kind_type status_code = some_words
kind_type kind = a_count

-- The name begins with the kind, whatever follows.
name_type-transaction :
    (kind : Kind) (subject : Subject) (tags rollup : Bytes) (method agent : Option Bytes)
    → name_type (
        metric_name (record {
          kind = kind;
          subject = subject;
          tags = tags;
          method = method;
          user_agent = agent;
          rollup = rollup;
        }))
      ≡ kind_type kind
unfolding metric_name starts_with
name_type-transaction latency subject tags rollup method agent = refl
name_type-transaction request_count subject tags rollup method agent = refl
name_type-transaction error_count subject tags rollup method agent = refl
name_type-transaction client_error_count subject tags rollup method agent = refl
name_type-transaction server_error_count subject tags rollup method agent = refl
name_type-transaction status_code subject tags rollup method agent = refl

-- Durations are given to latencies, texts to the status, and counts to the other kinds.
abbrev pub Fair : Update → Type 0
Fair (histogram_update n duration_us timestamp) = kind_type n.kind ≡ some_durations
Fair (counter_update n timestamp) = kind_type n.kind ≡ a_count
Fair (text_update n str timestamp) = kind_type n.kind ≡ some_words

op_of-Fair : (nums : Numbers) (u : Update) → Fair u → Agrees nums name_type (op_of nums u)
op_of-Fair nums (histogram_update n duration_us timestamp) fair =
    name_type-transaction n.kind n.subject n.tags n.rollup n.method n.user_agent ∙ fair
op_of-Fair nums (counter_update n timestamp) fair = (
  name_type-transaction n.kind n.subject n.tags n.rollup n.method n.user_agent ∙ fair,
  omega arith,
)
op_of-Fair nums (text_update n str timestamp) fair =
    name_type-transaction n.kind n.subject n.tags n.rollup n.method n.user_agent ∙ fair

named_updates-Fair : (c : Context) (name : Bytes) → All Fair (named_updates c name)
unfolding named_updates
named_updates-Fair c name = ground arith

request_updates-Fair : (c : Context) (r : Seen) → All Fair (request_updates c r)
unfolding request_updates error_updates
request_updates-Fair c r = ground arith

module _ (json : Json) (more : More json) (pcre : Pcre) (unescape : Bytes → Option Bytes)
    (setup : Setup pcre) (c : Context) where
  Answers-Fair : (p : Part json) → Answers json more pcre unescape setup c p → All Fair p.updates
  Answers-Fair p (inl (over, nothing)) = subst (All Fair) (sym nothing) tt
  Answers-Fair p (inr (r, e)) = subst (All Fair) (sym e) (request_updates-Fair c r)

  typed_part-Fair :
      (m trans : json.Object) (type : Bytes)
      → Holds
          (λ (p : Part json). All Fair p.updates)
          (typed_part json more pcre unescape setup c m trans type)
  unfolding typed_part named_part
  typed_part-Fair m trans type =
      elim (Bool-cases (equal type (codes "message_read") || equal type (codes "messaging"))) [
        | inl on ↦ rw on (named_updates-Fair c _)
        | inr off ↦ rw off (elim (Bool-cases (equal type (codes "scheduled"))) [
          | inl on ↦ rw on (named_updates-Fair c _)
          | inr off ↦ rw off (elim (Bool-cases (equal type (codes "request"))) [
            | inl on ↦ rw on (
                Holds-map (Answers json more pcre unescape setup c) (λ p. All Fair p.updates)
                  (request_part json more pcre unescape setup c m trans)
                  (request_part-Answers json more pcre unescape setup c m trans) Answers-Fair)
            | inr off ↦ rw off (elim (Bool-cases (equal type (codes "page-load"))) [
              | inl on ↦ rw on tt
              | inr off ↦ rw off tt
            ])
          ])
        ])
      ]

-- A transaction message that is read to the end can be carried out on any table of the team in
-- which values have the types that their names say: histograms under the latencies of transactions
-- and spans, texts under the status of requests, counters under their other names, and anything
-- under the names of other messages. No update finds a value of another type, the table stays such
-- a table, and under each key the counter grows by the updates that go to it, modulo 2^64.
pub process_transaction_message-Performs :
    (nums : Numbers) (json : Json) (more : More json) (pcre : Pcre)
    (unescape : Bytes → Option Bytes) (kafka_lag : ℕ) (aborts : Bool) (clock : Clock)
    (setup_of : Bytes → Setup pcre) (m : json.Object) (h : Handled json) (now owner : ℕ)
    (t : Metrics nums)
    → process_transaction_message json more pcre unescape kafka_lag aborts clock setup_of m ≡ some h
    → Typed nums name_type t
    → Performs nums (op_of nums) now owner h.part.updates t
process_transaction_message-Performs nums json more pcre unescape kafka_lag aborts clock setup_of m
      h now owner t handled typed =
    updates-Performs nums (op_of nums) Fair (op_of-Fair nums) now owner h.part.updates t
      (process_transaction_message-updates json more pcre unescape kafka_lag aborts (All Fair) tt
        (typed_part-Fair json more pcre unescape) clock setup_of m h handled)
      typed
