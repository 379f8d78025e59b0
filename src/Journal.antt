-- ===== src/Journal.antt =====
-- src/tm_circonus.c: the entry that `journal_output_metrics` writes, and the thread that sends the
-- entries of the journal over HTTP. jlog, curl, base64 and the reader of JSON are parameters. An
-- entry's id is its number; the reader's checkpoint is the number of the first entry that a later
-- round reads.
pub mod Upload
pub mod Kept
pub mod Entry
use tracemate.Base.{
  ℕ, zero, suc, ◌+◌, Bool, true, false, ◌&&◌, List, [], ◌∷◌, ◌++◌, Option, none, some, leb, ◌==◌,
  if◌then◌else◌, ◌>>=◌, Bytes, codes,
}
use tracemate.Message.{Json}

-- {"url":"…","data":"…"}
unfoldable pub journal_entry : Bytes → Bytes → Bytes
journal_entry metric_submission_url b64 =
    codes "{\"url\":\""
    ++ (metric_submission_url ++ (codes "\",\"data\":\"" ++ (b64 ++ codes "\"}")))

-- A round of the loop over curl_multi_perform and curl_multi_wait: whether both answered CURLM_OK,
-- how many file descriptors there were, and whether a transfer is still running.
pub record Poll : Type 0 where
  pub multi_ok : Bool
  pub numfds : ℕ
  pub still_running : Bool

-- How that loop is left: by its test or by `break`, or because nothing happened for too long.
pub data Left : Type 0 where
  ended gave_up : Left

abbrev pub idle_limit : ℕ
idle_limit = 1000

-- On the rounds to come; `none` where it still runs behind the last of them.
unfoldable pub poll_loop : ℕ → List Poll → Option Left
poll_loop repeats [] = none
poll_loop repeats (p ∷ polls) =
    let idle = suc repeats in
    let more = poll_loop (if p.numfds == 0 then idle else 0) polls in
    if p.multi_ok
    then if p.numfds == 0 && leb idle_limit idle
      then some gave_up
      else if p.still_running
      then more
      else some ended
    else some ended

-- What curl_multi_info_read finds: no transfer that is done, or one with its result.
pub data Done : Type 0 where
  no_transfer curl_failed curl_ok : Done

-- What surrounds the thread, by the number of an entry: jlog_ctx_read_message, the rounds of
-- polling and the result of the transfer, and whether jlog_ctx_read_checkpoint succeeds.
pub record Surrounded (json : Json) : Type 0 where
  pub parse : Bytes → Option json.Object
  pub b64_decode : Bytes → Bytes
  pub read_message : ℕ → Option Bytes
  pub polls : ℕ → List Poll
  pub transfer : ℕ → Done
  pub checkpoint_ok : ℕ → Bool

-- A body and where it is sent to.
pub record Post : Type 0 where
  pub url : Bytes
  pub body : Bytes

-- What is sent for an entry, and `do_checkpoint`.
pub record Submitted : Type 0 where
  pub post : Option Post
  pub do_checkpoint : Bool

module _ (json : Json) (w : Surrounded json) where
  -- The entry is done with where the transfer succeeded.
  confirmed : Option Left → Done → Option Bool
  confirmed none d = none
  confirmed (some gave_up) d = some false
  confirmed (some ended) no_transfer = some false
  confirmed (some ended) curl_failed = some false
  confirmed (some ended) curl_ok = some true

  -- An entry without one of the two members is left for good.
  posted : ℕ → Option json.Object → Option json.Object → Option Submitted
  unfolding confirmed poll_loop
  posted i none o = some (record { post = none; do_checkpoint = true })
  posted i (some url) none = some (record { post = none; do_checkpoint = true })
  posted i (some url) (some o) = do
    done ← confirmed (poll_loop 0 (w.polls i)) (w.transfer i)
    some (record {
      post = some (record { url = json.string url; body = w.b64_decode (json.string o) });
      do_checkpoint = done;
    })

  -- One that is no JSON is not.
  wrapped : ℕ → Option json.Object → Option Submitted
  unfolding posted
  wrapped i none = some (record { post = none; do_checkpoint = false })
  wrapped i (some wrapper) =
      posted i (json.get wrapper (codes "url")) (json.get wrapper (codes "data"))

  unfoldable pub submit : ℕ → Option Bytes → Option Submitted
  unfolding wrapped
  submit i none = some (record { post = none; do_checkpoint = false })
  submit i (some message) = wrapped i (w.parse message)

  -- What was posted so far, and the reader's checkpoint.
  pub record Sender : Type 0 where
    pub posts : List (ℕ × Post)
    pub checkpoint : ℕ

  post_of : ℕ → Option Post → List (ℕ × Post)
  post_of i none = []
  post_of i (some p) = (i, p) ∷ []

  after_entry : ℕ → Submitted → Sender → Sender
  unfolding post_of
  after_entry i r s = record s {
    posts = s.posts ++ post_of i r.post;
    checkpoint = if r.do_checkpoint && w.checkpoint_ok i then suc i else s.checkpoint;
  }

  -- The loop over an interval of the journal: so many entries from `i` on. `none` stands for
  -- polling that does not end.
  unfoldable pub send_loop : ℕ → ℕ → Sender → Option Sender
  unfolding submit after_entry
  send_loop i zero s = some s
  send_loop i (suc n) s = do
    r ← submit i (w.read_message i)
    send_loop (suc i) n (after_entry i r s)

  -- A round of the thread: the interval that jlog gives begins at the checkpoint.
  unfoldable pub send_round : ℕ → Sender → Option Sender
  unfolding send_loop
  send_round msg_count s = send_loop s.checkpoint msg_count s
