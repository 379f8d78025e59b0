-- ===== src/Tests/Journals.antt =====
-- src/tm_circonus.c over a reader of JSON for the entries of the journal, and unary numbers for
-- base64.
use tracemate.Base.{
  ℕ, zero, suc, ◌+◌, ◌≤◌, ◌<◌, true, false, List, [], ◌∷◌, ◌++◌, Option, none, some, ◌==◌,
  if◌then◌else◌, ◌>>=◌, Bytes, codes, All, take, drop, min, ◌≡◌, ◌⊎◌, ◌↔◌, refl, ap, ◌∙◌, arith,
}
use tracemate.CString.{equal}
use tracemate.CString.Search.{equal_iff, equal_self}
use tracemate.Message.{Json}
use tracemate.Metric.Json.Read.{read_string}
use tracemate.Published.Back.{Printable, read_string-Printable}
use tracemate.Journal.{
  Poll, ended, curl_failed, curl_ok, Surrounded, Submitted, poll_loop, submit, Sender, send_round,
  journal_entry,
}
use tracemate.Journal.Upload.{uploaded, uploaded_lem}
use tracemate.Journal.Kept.{Noted, send_round-Behind}
use tracemate.Journal.Entry.{object_text, EntryLaws, submit-journal_entry}

data Doc : Type 0 where
  entry : Bytes → Bytes → Bytes → Bytes → Doc
  leaf : Bytes → Doc

abbrev member_of : Doc → Bytes → Option Doc
member_of (entry n v m u) name =
    if equal n name then some (leaf v) else if equal m name then some (leaf u) else none
member_of (leaf s) name = none

abbrev text : Doc → Bytes
text (entry n v m u) = []
text (leaf s) = s

abbrev entries : Json
entries = record {
  Object = Doc;
  get = member_of;
  string = text;
  uint64 = λ o. 0;
  int = λ o. 0;
  members = λ o. [];
}

-- Two members, each a name and a string.
read_entry : Bytes → Option Doc
unfolding read_string
read_entry s = do
  (n, rest) ← read_string (drop 2 s)
  (v, rest) ← read_string (drop 2 rest)
  (m, rest) ← read_string (drop 2 rest)
  (u, end) ← read_string (drop 2 rest)
  some (entry n v m u)

abbrev marks : ℕ → Bytes → Bytes
marks zero s = b'b' ∷ s
marks (suc n) s = b'a' ∷ marks n s

abbrev encode : Bytes → Bytes
encode [] = []
encode (c ∷ s) = marks c (encode s)

abbrev decode : ℕ → Bytes → Bytes
decode n [] = []
decode n (c ∷ s) = elim (c == b'b') [ true ↦ n ∷ decode 0 s | false ↦ decode (suc n) s ]

decode-marks : (c n : ℕ) (s : Bytes) → decode n (marks c s) ≡ (n + c) ∷ decode 0 s
decode-marks zero n s = ap (λ (k : ℕ). k ∷ decode 0 s) (omega arith)
decode-marks (suc c) n s = decode-marks c (suc n) s ∙ ap (λ (k : ℕ). k ∷ decode 0 s) (omega arith)

decode-encode : (s : Bytes) → decode 0 (encode s) ≡ s
decode-encode [] = refl
decode-encode (c ∷ s) =
    decode-marks c 0 (encode s)
    ∙ ap (λ (k : ℕ). k ∷ decode 0 (encode s)) (omega arith)
    ∙ ap (◌∷◌ c) (decode-encode s)

marks-Printable : (c : ℕ) (s : Bytes) → All Printable s → All Printable (marks c s)
marks-Printable zero s h = (omega arith, h)
marks-Printable (suc c) s h = (omega arith, marks-Printable c s h)

encode-Printable : (s : Bytes) → All Printable (encode s)
encode-Printable [] = tt
encode-Printable (c ∷ s) = marks-Printable c (encode s) (encode-Printable s)

read_entry-object_text :
    (n v m u : Bytes)
    → All Printable n
    → All Printable v
    → All Printable m
    → All Printable u
    → read_entry (object_text n v m u) ≡ some (entry n v m u)
unfolding read_entry
read_entry-object_text n v m u hn hv hm hu =
    let last = codes ":\"" ++ (u ++ codes "\"}") in
    let second = codes ",\"" ++ (m ++ (b'"' ∷ last)) in
    let first = codes ":\"" ++ (v ++ (b'"' ∷ second)) in
    rw
      (
        read_string-Printable n first hn,
        read_string-Printable v second hv,
        read_string-Printable m last hm,
        read_string-Printable u (codes "}") hu,
      )
      refl

abbrev batch : Bytes
batch = codes "{}"

abbrev url : Bytes
url = codes "https://a/b"

abbrev active : List Poll
active = record { multi_ok = true; numfds = 1; still_running = false } ∷ []

-- The first transfer fails, and the second one succeeds.
abbrev second_only : Surrounded entries
second_only = record {
  parse = read_entry;
  b64_decode = decode 0;
  read_message = λ i. some (journal_entry url (encode batch));
  polls = λ i. active;
  transfer = λ i. if i == 0 then curl_failed else curl_ok;
  checkpoint_ok = λ i. true;
}

entry_laws : EntryLaws entries second_only encode
entry_laws = record {
  decode-encode = decode-encode;
  encode-Printable = encode-Printable;
  parse-object_text = λ n v m u hn hv hm hu ne. (
    entry n v m u,
    read_entry-object_text n v m u hn hv hm hu,
    (leaf v, rw (equal_self n) refl, refl),
    (leaf u, ground (arith, equal_self m, equal_iff n m), refl),
  );
}

few_polls : poll_loop 0 active ≡ some ended
unfolding poll_loop
few_polls = refl

submit-journal_entry_example :
    (r : Submitted) × (submit entries second_only 0 (second_only.read_message 0) ≡ some r)
    × (r.post ≡ some (record { url = url; body = batch }))
    × ((r.do_checkpoint ≡ true) ↔ ((ended ≡ ended) × (second_only.transfer 0 ≡ curl_ok)))
submit-journal_entry_example =
    submit-journal_entry entries second_only encode entry_laws 0 url batch ended (omega arith) refl
      few_polls

abbrev start : Sender entries second_only
start = record { posts = []; checkpoint = 0 }

abbrev or_start : Option (Sender entries second_only) → Sender entries second_only
or_start none = start
or_start (some s) = s

abbrev after_two : Sender entries second_only
after_two = or_start (send_round entries second_only 2 start)

two_sent : send_round entries second_only 2 start ≡ some after_two
unfolding send_round equal read_entry journal_entry
two_sent = refl

-- The first entry is behind the checkpoint, although its transfer failed.
first_is_lost : after_two.checkpoint ≡ 2
unfolding send_round equal read_entry journal_entry
first_is_lost = refl

send_round-Behind_example :
    ((j : ℕ) → 0 ≤ j → j < 0 + 2 → Noted entries second_only j → j < after_two.checkpoint)
    × ((after_two.checkpoint ≡ 0)
        ⊎ ((j : ℕ) × (0 ≤ j)
            × (j < 0 + 2)
            × Noted entries second_only j
            × (after_two.checkpoint ≡ suc j)))
send_round-Behind_example = send_round-Behind entries second_only 2 start after_two two_sent

uploaded_lem_example : uploaded (4 ∷ 4 ∷ 4 ∷ []) (record { json = codes "{\"a\":1}"; sent = 0 }) ≡ (
  take (min 12 7) (drop 0 (codes "{\"a\":1}")),
  record { json = codes "{\"a\":1}"; sent = 0 + min 12 7 },
)
uploaded_lem_example = uploaded_lem (4 ∷ 4 ∷ 4 ∷ []) (record { json = codes "{\"a\":1}"; sent = 0 })
