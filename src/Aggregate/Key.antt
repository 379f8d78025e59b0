-- ===== src/Aggregate/Key.antt =====
-- `parse_key` of src/tm_process_aggregate.c: the service and the team in the tags of a key.
pub mod Routing
use tracemate.Base.{
  ℕ, Bool, true, false, List, [], ◌∷◌, Option, none, some, ltb, if◌then◌else◌, ◌>>=◌, Bytes, codes,
  length, drop,
}
use tracemate.CString.{strstr, tokens}
use tracemate.Message.{tm_get_team}

-- The caller's two buffers; `none` is a buffer that was never written.
pub record Buffers : Type 0 where
  pub service_name : Option Bytes
  pub team : Option Bytes

-- strcpy into a buffer of 256 bytes
abbrev copied : Bytes → Option Bytes
copied s = if ltb (length s) 256 then some s else none

-- A buffer after `strcpy` of what stands behind the match, if there is one.
overwritten : ℕ → Option (Bytes × Bytes) → Option Bytes → Option (Option Bytes)
overwritten n none buffer = some buffer
overwritten n (some (before, at)) buffer = do s ← copied (drop n at); some (some s)

abbrev found : Option (Bytes × Bytes) → Bool → Bool
found none b = b
found (some _) b = true

-- One round of the loop over the tags; the flag is `team_tag`.
read_tag : Bytes → Buffers × Bool → Option (Buffers × Bool)
unfolding overwritten strstr
read_tag tag (buffers, team_tag) = do
  let team_start = strstr tag (codes "team:")
  service ← overwritten 8 (strstr tag (codes "service:")) buffers.service_name
  team ← overwritten 5 team_start buffers.team
  some (record { service_name = service; team = team }, found team_start team_tag)

read_tags : List Bytes → Buffers × Bool → Option (Buffers × Bool)
unfolding read_tag
read_tags [] r = some r
read_tags (tag ∷ tags) r = do r' ← read_tag tag r; read_tags tags r'

-- `tm_get_team(service_name, team)`, which leaves `team` alone where there is no dash.
abbrev team_from : Option Bytes → Option Bytes → Option Bytes
team_from none team = team
team_from (some t) team = some t

-- Without a tag for the team it is the service's; the service must have been written.
with_team : Buffers × Bool → Option (Bool × Buffers)
with_team (buffers, true) = some (true, buffers)
with_team (buffers, false) = do
  sn ← buffers.service_name
  some (true, record buffers { team = team_from (tm_get_team (some sn)) buffers.team })

-- The text between "|ST[" and the next ']', which `tags_copy` must hold with its NUL.
tags_copy : Bytes → Option Bytes
unfolding strstr
tags_copy tag_start = do
  (tags, tag_end) ← strstr tag_start (codes "]")
  if ltb (length tags) 3172 then some tags else none

parse_at : Option (Bytes × Bytes) → Buffers → Option (Bool × Buffers)
unfolding tags_copy read_tags with_team tokens
parse_at none buffers = some (false, buffers)
parse_at (some (name, at)) buffers = do
  tags ← tags_copy (drop 4 at)
  r ← read_tags (tokens b',' tags) (buffers, false)
  with_team r

unfoldable pub parse_key : Bytes → Buffers → Option (Bool × Buffers)
unfolding parse_at strstr tm_get_team
parse_key key = parse_at (strstr key (codes "|ST["))
