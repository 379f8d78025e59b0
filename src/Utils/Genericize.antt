-- ===== src/Utils/Genericize.antt =====
-- `apply_regex`, `apply_path_squasher`, `genericize_path` and `init_path_regex`'s chopper, of
-- src/tm_utils.c. `curl_easy_unescape` and PCRE are parameters. `none` as a result stands for the
-- program's stop: a failed `assert`, a read or write outside the 4096 bytes of `copy`, or a NULL
-- string given to `strncpy`.
pub mod Bounds
pub mod Returns
use tracemate.Base.{
  ℕ, zero, suc, ◌+◌, ◌-◌, ◌≤◌, ◌<◌, Bool, true, false, not, ◌&&◌, List, [], ◌∷◌, ◌++◌, Option, none,
  some, ltb, leb, ◌==◌, ◌>>=◌, if◌then◌else◌, Bytes, length, take, drop, codes, ◌≡◌,
}
use tracemate.CString.{strchr, until_nul}

-- What `pcre_exec` reports of a match: its positive return value, and the first group's ends.
pub record Match : Type 0 where
  pub count : ℕ
  pub start : ℕ
  pub end : ℕ

-- PCRE: `exec` is `none` for every result that is not positive. The ends of a group that took part
-- in a match are offsets into the subject, in order.
pub record Pcre : Type 1 where
  pub Regex : Type 0
  pub exec : Regex → Bytes → Option Match

abbrev pub buffer_size : ℕ
buffer_size = 4096

-- `rval`, which keeps the first positive result.
abbrev keep_first : Option ℕ → ℕ → Option ℕ
keep_first none r = some r
keep_first (some r') r = some r'

-- The return value is positive.
abbrev matched : Option ℕ → Bool
matched none = false
matched (some r) = true

-- `send_url_to_kafka` publishes nothing for an empty url.
abbrev sent_url : Bytes → List Bytes
sent_url [] = []
sent_url (c ∷ url) = (c ∷ url) ∷ []

-- strncpy(copy, decoded, len), with `len` the length of `decoded`: NULs behind its first NUL.
abbrev pad : ℕ → Bytes → Bytes
pad zero s = []
pad (suc n) [] = 0 ∷ pad n []
pad (suc n) (c ∷ s) = c ∷ pad n s

-- The bytes of `copy` up to `len` in, and out, of the chop at the first '?'.
abbrev before_mark : Bytes → Option (Bytes × Bytes) → Bytes
before_mark copy none = copy
before_mark copy (some (before, _)) = before

chop_query : Bytes → Bytes
chop_query copy = before_mark copy (strchr (until_nul copy) b'?')

-- copy[len - 1] == '/', for a first byte and the rest
chop_last : ℕ → Bytes → Bytes
chop_last c [] = if c == b'/' then [] else c ∷ []
chop_last c (d ∷ s) = c ∷ chop_last d s

chop_slash : Bytes → Option Bytes
chop_slash [] = none
chop_slash (c ∷ s) = some (until_nul (chop_last c s))

-- The path that is returned, and the urls published meanwhile.
pub record Generic : Type 0 where
  pub path : Bytes
  pub sent : List Bytes

finish : Bytes → List Bytes → Option Generic
unfolding chop_query chop_slash chop_last strchr until_nul
finish copy sent = do
  path ← chop_slash (chop_query copy)
  some (record { path = path; sent = sent })

-- A path that the chopper does not match is cut behind 32 bytes.
truncate : Bytes → Bytes
truncate copy = if ltb 35 (length copy) then take 32 copy ++ codes "..." else copy

module _ (pcre : Pcre) where
  open pcre use {Regex, exec}

  -- `pcre_matcher`
  pub record Matcher : Type 0 where
    pub match : Regex
    pub replace : Bytes

  -- The three copies into `temp`, each behind its assertion, and `strcpy` back. The last copy reads
  -- `copy` up to offset *len + ovector[2], which must lie in the buffer.
  substitute : Matcher → Bytes → Match → Option Bytes
  unfolding until_nul
  substitute m copy r =
      if ltb r.start buffer_size
        && ltb (length m.replace) (buffer_size - r.start)
        && ltb (length copy - (r.end - r.start)) (buffer_size - r.start - length m.replace)
        && leb (length copy + r.start) buffer_size
      then some (until_nul (take r.start copy ++ (m.replace ++ drop r.end copy)))
      else none

  -- From the label `redo` on, with `again` more rounds allowed. The pair is the return value, with
  -- `none` for -1, and `copy`.
  redo : ℕ → Matcher → Option ℕ → Bytes → Option (Option ℕ × Bytes)
  unfolding substitute
  redo zero m rval copy = elim (exec m.match copy) [
    | none ↦ some (rval, copy)
    | some r ↦ do copy' ← substitute m copy r; some (keep_first rval r.count, copy')
  ]
  redo (suc again) m rval copy = elim (exec m.match copy) [
    | none ↦ some (rval, copy)
    | some r ↦ do copy' ← substitute m copy r; redo again m (keep_first rval r.count) copy'
  ]

  unfoldable pub apply_regex : Matcher → Bytes → ℕ → Option (Option ℕ × Bytes)
  unfolding redo
  apply_regex m copy attempts = redo (attempts - 1) m none copy

  -- The loop over `td->matcher`; an entry may be missing. The flag is `squash`.
  apply_matchers : List (Option Matcher) → Bool → Bytes → Option (Bool × Bytes)
  unfolding apply_regex
  apply_matchers [] squash copy = some (squash, copy)
  apply_matchers (none ∷ ms) squash copy = apply_matchers ms squash copy
  apply_matchers (some m ∷ ms) squash copy = do
    (r, copy') ← apply_regex m copy 3
    apply_matchers ms (if matched r then false else squash) copy'

  -- The loop over the service's table, in the table's order: the first match ends it.
  apply_squashers : List Matcher → Bytes → Option (Bool × Bytes)
  unfolding apply_regex
  apply_squashers [] copy = some (false, copy)
  apply_squashers (m ∷ ms) copy = do
    (r, copy') ← apply_regex m copy 1
    let rest = apply_squashers ms copy'
    if matched r then some (true, copy') else rest

  -- `none` is a service that has no table.
  apply_path_squasher : Option (List Matcher) → Bytes → Option (Bool × Bytes)
  unfolding apply_squashers
  apply_path_squasher none copy = some (false, copy)
  apply_path_squasher (some t) copy = apply_squashers t copy

  -- `if (squash && chopper)`
  chop : Bool → Option Matcher → Bytes → Option Bytes
  unfolding apply_regex truncate
  chop false chopper copy = some copy
  chop true none copy = some copy
  chop true (some chopper) copy = do
    (r, copy') ← apply_regex chopper copy 1
    some (if matched r then copy' else truncate copy')

  -- What a team configures, and what its service has learnt.
  pub record Rules : Type 0 where
    pub matcher : List (Option Matcher)
    pub squash_regexes : Option (List Matcher)
    pub chopper : Option Matcher

  -- `if (squash)`: the new flag, `copy`, and what was published.
  squash_or_send : Rules → Bytes → Bool → Bytes → Option (Bool × Bytes × List Bytes)
  unfolding apply_path_squasher
  squash_or_send rules str false copy = some (false, copy, [])
  squash_or_send rules str true copy = do
    (squashed, copy') ← apply_path_squasher rules.squash_regexes copy
    some (if squashed then (false, copy', []) else (true, copy', sent_url str))

  genericize_decoded : Rules → Bytes → Bytes → Option Generic
  unfolding apply_matchers squash_or_send chop finish
  genericize_decoded rules str copy = do
    (squash, copy₁) ← apply_matchers rules.matcher true copy
    (squash', copy₂, sent) ← squash_or_send rules str squash copy₁
    copy₃ ← chop squash' rules.chopper copy₂
    finish copy₃ sent

  load : Rules → Bytes → Option Bytes → Option Generic
  unfolding genericize_decoded
  load rules str none = none
  load rules str (some decoded) =
      if ltb (length decoded) buffer_size
      then genericize_decoded rules str (pad (length decoded) (until_nul decoded))
      else none

  -- `none` as the string is NULL.
  unfoldable pub genericize_path : Rules → (Bytes → Option Bytes) → Option Bytes → Option Generic
  unfolding load
  genericize_path rules unescape none = some (record { path = codes "/"; sent = [] })
  genericize_path rules unescape (some str) = load rules str (unescape str)
