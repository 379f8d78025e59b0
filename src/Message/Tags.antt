-- ===== src/Message/Tags.antt =====
-- `tm_clean_tag_value`, `pre_process` and `build_agg_tag_string` of src/tm_process.c, and
-- `parse_timestamp` of src/tm_utils.h. `sscanf`'s fields and `mktime` are parameters. The table of
-- the team, which `get_team_data` makes where there is none, is left to the caller.
pub mod Clean
use tracemate.Base.{
  ℕ, ◌+◌, ◌-◌, ◌*◌, ◌%◌, ◌^◌, Bool, true, false, not, ◌&&◌, List, [], ◌∷◌, ◌++◌, Option, none, some,
  ltb, ◌==◌, if◌then◌else◌, ◌>>=◌, Bytes, codes, get_or, drop, length, map, u64,
}
use mathlib.Core.Option
use tracemate.Message.{Json, tm_apm_server_major_version, tm_service_name, tm_get_team}

-- The table of the bytes that may stand in a tag's value.
unfoldable pub vtagmap_value : List ℕ
vtagmap_value =
    0 ∷ 0 ∷ 0 ∷ 0 ∷ 0 ∷ 0 ∷ 0 ∷ 0 ∷ 0 ∷ 0 ∷ 0 ∷ 0 ∷ 0 ∷ 0 ∷ 0 ∷ 0 ∷ 0 ∷ 0 ∷ 0 ∷ 0 ∷ 0 ∷ 0 ∷ 0 ∷ 0
    ∷ 0 ∷ 0 ∷ 0 ∷ 0 ∷ 0 ∷ 0 ∷ 0 ∷ 0 ∷ 0 ∷ 1 ∷ 1 ∷ 1 ∷ 1 ∷ 1 ∷ 1 ∷ 1 ∷ 0 ∷ 0 ∷ 0 ∷ 0 ∷ 0 ∷ 1 ∷ 1 ∷ 1
    ∷ 1 ∷ 1 ∷ 1 ∷ 1 ∷ 1 ∷ 1 ∷ 1 ∷ 1 ∷ 1 ∷ 1 ∷ 1 ∷ 0 ∷ 0 ∷ 1 ∷ 0 ∷ 1 ∷ 1 ∷ 1 ∷ 1 ∷ 1 ∷ 1 ∷ 1 ∷ 1 ∷ 1
    ∷ 1 ∷ 1 ∷ 1 ∷ 1 ∷ 1 ∷ 1 ∷ 1 ∷ 1 ∷ 1 ∷ 1 ∷ 1 ∷ 1 ∷ 1 ∷ 1 ∷ 1 ∷ 1 ∷ 1 ∷ 1 ∷ 1 ∷ 0 ∷ 0 ∷ 0 ∷ 1 ∷ 1
    ∷ 1 ∷ 1 ∷ 1 ∷ 1 ∷ 1 ∷ 1 ∷ 1 ∷ 1 ∷ 1 ∷ 1 ∷ 1 ∷ 1 ∷ 1 ∷ 1 ∷ 1 ∷ 1 ∷ 1 ∷ 1 ∷ 1 ∷ 1 ∷ 1 ∷ 1 ∷ 1 ∷ 1
    ∷ 1 ∷ 1 ∷ 1 ∷ 0 ∷ 0 ∷ 0 ∷ 0 ∷ 0 ∷ 0 ∷ 0 ∷ 0 ∷ 0 ∷ 0 ∷ 0 ∷ 0 ∷ 0 ∷ 0 ∷ 0 ∷ 0 ∷ 0 ∷ 0 ∷ 0 ∷ 0 ∷ 0
    ∷ 0 ∷ 0 ∷ 0 ∷ 0 ∷ 0 ∷ 0 ∷ 0 ∷ 0 ∷ 0 ∷ 0 ∷ 0 ∷ 0 ∷ 0 ∷ 0 ∷ 0 ∷ 0 ∷ 0 ∷ 0 ∷ 0 ∷ 0 ∷ 0 ∷ 0 ∷ 0 ∷ 0
    ∷ 0 ∷ 0 ∷ 0 ∷ 0 ∷ 0 ∷ 0 ∷ 0 ∷ 0 ∷ 0 ∷ 0 ∷ 0 ∷ 0 ∷ 0 ∷ 0 ∷ 0 ∷ 0 ∷ 0 ∷ 0 ∷ 0 ∷ 0 ∷ 0 ∷ 0 ∷ 0 ∷ 0
    ∷ 0 ∷ 0 ∷ 0 ∷ 0 ∷ 0 ∷ 0 ∷ 0 ∷ 0 ∷ 0 ∷ 0 ∷ 0 ∷ 0 ∷ 0 ∷ 0 ∷ 0 ∷ 0 ∷ 0 ∷ 0 ∷ 0 ∷ 0 ∷ 0 ∷ 0 ∷ 0 ∷ 0
    ∷ 0 ∷ 0 ∷ 0 ∷ 0 ∷ 0 ∷ 0 ∷ 0 ∷ 0 ∷ 0 ∷ 0 ∷ 0 ∷ 0 ∷ 0 ∷ 0 ∷ 0 ∷ 0 ∷ 0 ∷ 0 ∷ 0 ∷ 0 ∷ 0 ∷ 0 ∷ 0 ∷ 0
    ∷ 0 ∷ 0 ∷ 0 ∷ 0 ∷ 0 ∷ 0 ∷ 0 ∷ 0 ∷ 0 ∷ 0 ∷ 0 ∷ 0 ∷ 0 ∷ 0 ∷ 0 ∷ 0 ∷ []

clean_byte : ℕ → ℕ
clean_byte c = if get_or vtagmap_value c 0 == 0 then b'_' else c

-- The text written to `dest`; the length returned is that of `tag`.
unfoldable pub tm_clean_tag_value : Bytes → Bytes
unfolding clean_byte
tm_clean_tag_value [] = []
tm_clean_tag_value (c ∷ tag) = clean_byte c ∷ tm_clean_tag_value tag

-- `struct tm`, each `int` as a bit pattern of 32 bits.
pub record Tm : Type 0 where
  pub tm_year : ℕ
  pub tm_mon : ℕ
  pub tm_mday : ℕ
  pub tm_hour : ℕ
  pub tm_min : ℕ
  pub tm_sec : ℕ

-- The numbers that `sscanf` reads by "%d-%d-%dT%d:%d:%d.%dZ".
pub record Scanned : Type 0 where
  pub year : ℕ
  pub month : ℕ
  pub day : ℕ
  pub hour : ℕ
  pub minute : ℕ
  pub second : ℕ
  pub ms : ℕ

pub record Clock : Type 0 where
  pub scan : Option Bytes → Scanned
  pub mktime : Tm → ℕ

abbrev sub32 : ℕ → ℕ → ℕ
sub32 a b = (a + 2 ^ 32 - b) % 2 ^ 32

unfoldable pub parse_timestamp : Clock → Option Bytes → ℕ
parse_timestamp clock ts =
    let f = clock.scan ts in
    let time : Tm = record {
      tm_year = sub32 f.year 1900;
      tm_mon = sub32 f.month 1;
      tm_mday = f.day;
      tm_hour = f.hour;
      tm_min = f.minute;
      tm_sec = f.second;
    } in
    (clock.mktime time * 1000 + f.ms) % u64

-- What `pre_process` gives its caller besides the team's table.
pub record Header : Type 0 where
  pub team : Bytes
  pub tag_string : Bytes
  pub timestamp : ℕ

module _ (json : Json) where
  open json use {Object, get, string}

  abbrev tag : Bytes → Option Object → Bytes
  tag name none = []
  tag name (some value) = name ++ tm_clean_tag_value (string value)

  abbrev host_tags : Option Object → Bytes
  host_tags none = []
  host_tags (some host) =
      tag (codes ",host:") (get host (codes "hostname"))
      ++ tag (codes ",ip:") (get host (codes "ip"))

  -- Where the host is described, which the version decides.
  abbrev host_of : ℕ → Object → Option Object
  host_of mv m =
      if mv == 6
      then (do context ← get m (codes "context"); get context (codes "system"))
      else get m (codes "host")

  unfoldable pub pre_process : Clock → Object → Option Header
  unfolding tm_service_name tm_get_team parse_timestamp tm_clean_tag_value
  pre_process clock m =
      let mv = tm_apm_server_major_version json (some m) in
      if ltb mv 6 then none else do
        service_name ← tm_service_name json (some m)
        team ← tm_get_team (some service_name)
        some (record {
          team = team;
          tag_string = codes "service:" ++ (service_name ++ host_tags (host_of mv m));
          timestamp = parse_timestamp clock (Option.map string (get m (codes "@timestamp")));
        })

  -- The tags of an aggregate: every host counts for the same one. `none` stands for a service name
  -- that is NULL.
  unfoldable pub build_agg_tag_string : Object → Option Bytes
  build_agg_tag_string m = do
    service_name ← tm_service_name json (some m)
    some (codes "service:" ++ (service_name ++ codes ",host:all,ip:all"))
