-- ===== src/Published.antt =====
-- The regular expressions that a flush publishes: `send_regex_to_kafka` and the loop over the path
-- squashers in `tm_flush_team_metrics` of src/tm_metric.c. Whether Kafka takes a message is not
-- looked at.
pub mod Back
pub mod Once
use tracemate.Base.{
  ℕ, Bool, true, false, List, [], ◌∷◌, ◌++◌, Option, none, some, ltb, if◌then◌else◌, ◌>>=◌, Bytes,
  codes, length,
}
use tracemate.CString.{equal}
use tracemate.Message.{Json}
use tracemate.Squasher.{PathSquasher}
use tracemate.Squasher.Regexes.{Generated, tm_path_squasher_get_regexes}
use tracemate.Handlers.{ByService, retrieved}
use tracemate.Handlers.Regex.{CompiledRegex, Regexes}

-- A message for the topic, with the key under which Kafka compacts it.
pub record SentRegex : Type 0 where
  pub service_name : Bytes
  pub generated : Generated
  pub payload : Bytes
  pub key : Bytes

regex_payload : Bytes → Generated → Bytes
regex_payload service_name g =
    codes "{\"processor\":{\"event\": \"regex\"},\"context\":{\"service\":{\"name\": \""
    ++ (service_name
        ++ (codes "\"}},\"regex\":\""
            ++ (g.regex ++ (codes "\",\"replace\":\"" ++ (g.replace ++ codes "\"}")))))

regex_key : Bytes → Generated → Bytes
regex_key service_name g = service_name ++ (b'|' ∷ g.regex)

-- What is handed to Kafka. `none` stands for a key that is cut off at its 1024 bytes: the length
-- that is passed is that of the whole key.
unfoldable pub send_regex_to_kafka : Bytes → Generated → Option (List SentRegex)
unfolding regex_payload regex_key equal
send_regex_to_kafka service_name g =
    if equal g.regex []
    then some []
    else if ltb (length (regex_key service_name g)) 1024
    then some (
        record {
          service_name = service_name;
          generated = g;
          payload = regex_payload service_name g;
          key = regex_key service_name g;
        }
        ∷ [])
    else none

without_regex : Bytes → List Generated → List Generated
unfolding equal
without_regex regex [] = []
without_regex regex (g ∷ gs) =
    let rest = without_regex regex gs in if equal g.regex regex then rest else g ∷ rest

-- The entries of the table: what is stored first stays.
unfoldable pub entries : List Generated → List Generated
unfolding without_regex
entries [] = []
entries (g ∷ gs) = g ∷ without_regex g.regex (entries gs)

module _ (json : Json) (Regex : Type 0) (pcre_compile : Bytes → Option Regex) where
  -- The loop over the regular expressions of one service, with those of the service that Kafka gave
  -- back.
  unfoldable pub publish_unknown :
      Bytes → Regexes json Regex pcre_compile → List Generated → Option (List SentRegex)
  unfolding send_regex_to_kafka retrieved
  publish_unknown service_name x [] = some []
  publish_unknown service_name x (g ∷ gs) = do
    rest ← publish_unknown service_name x gs
    sent ← elim (retrieved g.regex x) [
      | some m ↦ some []
      | none ↦ send_regex_to_kafka service_name g
    ]
    some (sent ++ rest)

  -- A service of which nothing was ever given back has no table.
  unfoldable pub publish_service :
      Bytes → Option (Regexes json Regex pcre_compile) → List Generated → Option (List SentRegex)
  unfolding publish_unknown
  publish_service service_name none gs = some []
  publish_service service_name (some x) gs = publish_unknown service_name x gs

  -- The loop over td->path_squashers.
  unfoldable pub publish_regexes :
      (Bytes → Bool)
      → ByService (Regexes json Regex pcre_compile)
      → ByService PathSquasher
      → Option (List SentRegex)
  unfolding publish_service entries tm_path_squasher_get_regexes retrieved
  publish_regexes compiles squash_regexes [] = some []
  publish_regexes compiles squash_regexes ((service_name, ps) ∷ squashers) = do
    gs ← tm_path_squasher_get_regexes compiles ps
    sent ← publish_service service_name (retrieved service_name squash_regexes) (entries gs)
    rest ← publish_regexes compiles squash_regexes squashers
    some (sent ++ rest)
