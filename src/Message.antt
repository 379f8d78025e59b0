-- ===== src/Message.antt =====
-- The inline functions of src/tm_process.h that read the header of an APM message. json-c is a
-- parameter; a missing object is `none`, as the library's NULL, which every getter accepts.
pub mod Service
pub mod Tags
use tracemate.Base.{
  ℕ, ◌-◌, Bool, true, false, not, ◌&&◌, List, [], ◌∷◌, ◌++◌, Option, none, some, ltb, leb, ◌==◌,
  if◌then◌else◌, ◌>>=◌, Bytes, codes,
}
use tracemate.CString.{strchr}

-- mtev_json_object: `get` is mtev_json_object_object_get, `string` is
-- mtev_json_object_get_string, `members` is what mtev_json_object_object_foreach runs through.
pub record Json : Type 1 where
  pub Object : Type 0
  pub get : Object → Bytes → Option Object
  pub string : Object → Bytes
  pub uint64 : Object → ℕ
  pub int : Object → ℕ
  pub members : Object → List (Bytes × Object)

-- atoi of a text of one byte
abbrev pub atoi_digit : ℕ → ℕ
atoi_digit c = if leb b'0' c && leb c b'9' then c - b'0' else 0

module _ (json : Json) where
  open json use {Object, get, string}

  -- A version text: empty is 6, else its first byte alone is read.
  pub major_of : Bytes → ℕ
  major_of [] = 6
  major_of (c ∷ v) = atoi_digit c

  abbrev version_of : Option Object → ℕ
  version_of none = 6
  version_of (some version) = major_of (string version)

  unfoldable pub tm_apm_server_major_version : Option Object → ℕ
  unfolding major_of
  tm_apm_server_major_version none = 0
  tm_apm_server_major_version (some m) =
      version_of (do md ← get m (codes "@metadata"); get md (codes "version"))

  -- `root`, which the version decides.
  abbrev root_of : ℕ → Object → Option Object
  root_of mv m = if mv == 6 then get m (codes "context") else some m

  abbrev service_field : ℕ → Bytes → Object → Option Bytes
  service_field mv field m = do
    root ← root_of mv m
    service ← get root (codes "service")
    name ← get service field
    some (string name)

  -- A version that could not be read is taken for 6.
  abbrev assumed : ℕ → ℕ
  assumed mv = if mv == 0 then 6 else mv

  unfoldable pub tm_service_name : Option Object → Option Bytes
  unfolding tm_apm_server_major_version
  tm_service_name none = none
  tm_service_name (some m) =
      let mv = assumed (tm_apm_server_major_version (some m)) in
      if ltb mv 6 then none else service_field mv (codes "name") m

  unfoldable pub tm_service_env : Option Object → Option Bytes
  unfolding tm_apm_server_major_version
  tm_service_env none = none
  tm_service_env (some m) =
      let mv = tm_apm_server_major_version (some m) in
      if ltb mv 6 then none else service_field mv (codes "environment") m

-- `none` is NULL as the service name, and `false` as the result.
unfoldable pub tm_get_team : Option Bytes → Option Bytes
unfolding strchr
tm_get_team none = none
tm_get_team (some sn) = do (before, first_dash) ← strchr sn b'-'; some before
