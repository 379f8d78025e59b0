-- ===== src/Journal/Entry.antt =====
-- An entry that `journal_output_metrics` wrote, as the thread reads and sends it; and when polling
-- gives up.
use tracemate.Base.{
  ℕ, zero, suc, ◌+◌, ◌≤◌, ◌<◌, Bool, true, false, List, ◌∷◌, ◌++◌, some, Bytes, codes, All, ◌≡◌,
  ◌≢◌, ◌↔◌, refl, ap, ◌∙◌, arith,
}
use tracemate.Message.{Json}
use tracemate.Published.Back.{Printable}
use tracemate.Journal.{
  Poll, Left, ended, gave_up, Done, no_transfer, curl_failed, curl_ok, Surrounded, Submitted,
  poll_loop, idle_limit, confirmed, posted, wrapped, submit, journal_entry,
}

-- A JSON object with two members that are strings in print.
abbrev pub object_text : (name value name' value' : Bytes) → Bytes
object_text name value name' value' =
    codes "{\""
    ++ (name
        ++ (codes "\":\""
            ++ (value ++ (codes "\",\"" ++ (name' ++ (codes "\":\"" ++ (value' ++ codes "\"}")))))))

-- The member is there, as a string.
abbrev pub HasString : (json : Json) → json.Object → Bytes → Bytes → Type 0
HasString json o name value =
    (x : json.Object) × (json.get o name ≡ some x) × (json.string x ≡ value)

-- What base64 and a reader of JSON do: printable strings need no escape in JSON.
pub record EntryLaws (json : Json) (w : Surrounded json) (b64_encode : Bytes → Bytes) : Type 0 where
  pub decode-encode : (s : Bytes) → w.b64_decode (b64_encode s) ≡ s
  pub encode-Printable : (s : Bytes) → All Printable (b64_encode s)
  pub parse-object_text :
      (name value name' value' : Bytes)
      → All Printable name
      → All Printable value
      → All Printable name'
      → All Printable value'
      → name ≢ name'
      → (o : json.Object) × (w.parse (object_text name value name' value') ≡ some o)
        × HasString json o name value
        × HasString json o name' value'

module _ (json : Json) (w : Surrounded json) (b64_encode : Bytes → Bytes)
    (laws : EntryLaws json w b64_encode) where
  confirmed_iff :
      (l : Left) (d : Done)
      → (b : Bool) × (confirmed json w (some l) d ≡ some b)
        × ((b ≡ true) ↔ ((l ≡ ended) × (d ≡ curl_ok)))
  unfolding confirmed
  confirmed_iff gave_up d = (false, refl, (λ e. absurd (cc), λ e. absurd (cc)))
  confirmed_iff ended no_transfer = (false, refl, (λ e. absurd (cc), λ e. absurd (cc)))
  confirmed_iff ended curl_failed = (false, refl, (λ e. absurd (cc), λ e. absurd (cc)))
  confirmed_iff ended curl_ok = (true, refl, (λ e. (refl, refl), λ e. refl))

  -- The entry that was written for a batch and a printable URL is posted to that URL, with the
  -- bytes of the batch; and the checkpoint may go behind it exactly if polling ended and curl says
  -- that the transfer succeeded.
  pub submit-journal_entry :
      (i : ℕ) (url batch : Bytes) (l : Left)
      → All Printable url
      → w.read_message i ≡ some (journal_entry url (b64_encode batch))
      → poll_loop 0 (w.polls i) ≡ some l
      → (r : Submitted) × (submit json w i (w.read_message i) ≡ some r)
        × (r.post ≡ some (record { url = url; body = batch }))
        × ((r.do_checkpoint ≡ true) ↔ ((l ≡ ended) × (w.transfer i ≡ curl_ok)))
  unfolding submit wrapped posted journal_entry
  submit-journal_entry i url batch l plain read polled =
      let d = b64_encode batch in
      let (wrapper, parsed, (u, at_url, is_url), (o, at_data, is_data)) =
        laws.parse-object_text (codes "url") url (codes "data") d (omega arith) plain (omega arith)
          (laws.encode-Printable batch) (λ e. cc) in
      let parsed' : w.parse (journal_entry url d) ≡ some wrapper = parsed in
      let (b, result, when) = confirmed_iff l (w.transfer i) in
      (
        record {
          post = some (record { url = json.string u; body = w.b64_decode (json.string o) });
          do_checkpoint = b;
        },
        rw (read, parsed', at_url, at_data, polled, result) refl,
        rw (is_url, is_data, laws.decode-encode batch) refl,
        when,
      )

-- A round in which nothing happens while a transfer is running.
abbrev pub idle_poll : Poll
idle_poll = record { multi_ok = true; numfds = 0; still_running = true }

abbrev pub idles : ℕ → List Poll → List Poll
idles zero polls = polls
idles (suc n) polls = idle_poll ∷ idles n polls

poll_loop-few :
    (n repeats : ℕ) (polls : List Poll)
    → repeats + n < idle_limit
    → poll_loop repeats (idles n polls) ≡ poll_loop (repeats + n) polls
unfolding poll_loop
poll_loop-few zero repeats polls h = ap (λ (k : ℕ). poll_loop k polls) (omega arith)
poll_loop-few (suc n) repeats polls h = ground (arith, poll_loop-few n (suc repeats) polls)

poll_loop-many :
    (n repeats : ℕ) (polls : List Poll)
    → repeats < idle_limit
    → idle_limit ≤ repeats + n
    → poll_loop repeats (idles n polls) ≡ some gave_up
unfolding poll_loop
poll_loop-many zero repeats polls h k = absurd (omega arith)
poll_loop-many (suc n) repeats polls h k = ground (arith, poll_loop-many n (suc repeats) polls)

-- Less than a thousand idle rounds of polling do not end it: it goes on with their number. After a
-- thousand of them it gives up, whatever would come then.
pub poll_loop_idle :
    (n : ℕ) (polls : List Poll)
    → (n < idle_limit → poll_loop 0 (idles n polls) ≡ poll_loop n polls)
      × (idle_limit ≤ n → poll_loop 0 (idles n polls) ≡ some gave_up)
poll_loop_idle n polls = (
  λ h. poll_loop-few n 0 polls (omega arith) ∙ ap (λ (k : ℕ). poll_loop k polls) (omega arith),
  λ h. poll_loop-many n 0 polls (omega arith) (omega arith),
)
