-- ===== src/Tests/Handlers.antt =====
-- src/tm_process_regex.c and src/tm_process_url.c on small messages.
use tracemate.Base.{◌≤◌, ◌<◌, Option, none, some, [], ◌∷◌, Bytes, codes, ◌≡◌, ◌≢◌, refl, inr}
use tracemate.CString.{equal, strchr}
use tracemate.Squasher.{tm_path_squasher_alloc, tm_path_squasher_add_path}
use tracemate.Handlers.{ByService, retrieved, service_and_team}
use tracemate.Handlers.Escape.{escape_regex, escaped, unescaped, slashes, escape_regex_lem}
use tracemate.Handlers.Regex.{Regexes, process_regex_message}
use tracemate.Handlers.Regex.Tables.{Took, process_regex_message_lem}
use tracemate.Handlers.Url.{
  ServiceInfo, TeamUrls, or_new, process_url_message, process_url_message_lem,
}
use tracemate.Tests.Stores.{texts}

escape_regex_lem_example :
    (slashes (codes "/a/b") < 20 → escape_regex (codes "/a/b") ≡ some (escaped (codes "/a/b")))
    × (20 ≤ slashes (codes "/a/b") → escape_regex (codes "/a/b") ≡ none)
    × (unescaped (escaped (codes "/a/b")) ≡ codes "/a/b")
escape_regex_lem_example = escape_regex_lem (codes "/a/b")

abbrev compile : Bytes → Option Bytes
compile s = some s

abbrev none_yet : Bytes → ByService (Regexes texts Bytes compile)
none_yet team = []

-- Every member of these messages is a text, that of the service included.
abbrev one_regex : ByService (Regexes texts Bytes compile)
one_regex =
    (
      codes "ops-api",
      (codes "ops-api", record { match = codes "ops-api"; replace = codes "ops-api" }) ∷ [],
    )
    ∷ []

first_time :
    process_regex_message texts Bytes compile (codes "m") none_yet
    ≡ some (some (codes "ops", one_regex))
unfolding process_regex_message equal strchr escape_regex
first_time = refl

-- The service has another expression already.
abbrev old_regex : Bytes → ByService (Regexes texts Bytes compile)
old_regex team =
    (codes "ops-api", (codes "old", record { match = codes "old"; replace = codes "$1" }) ∷ []) ∷ []

abbrev two_regexes : ByService (Regexes texts Bytes compile)
two_regexes =
    (
      codes "ops-api",
      (codes "old", record { match = codes "old"; replace = codes "$1" })
          ∷ (codes "ops-api", record { match = codes "ops-api"; replace = codes "ops-api" })
          ∷ [],
    )
    ∷ []

names_test : service_and_team texts (codes "m") ≡ some (codes "ops-api", codes "ops")
unfolding service_and_team equal strchr
names_test = refl

plain_text : escape_regex (codes "ops-api") ≡ some (codes "ops-api")
unfolding escape_regex
plain_text = refl

second_kept :
    process_regex_message texts Bytes compile (codes "m") old_regex
    ≡ some (some (codes "ops", two_regexes))
unfolding process_regex_message equal strchr escape_regex
second_kept = refl

regex_member : texts.get (codes "m") (codes "regex") ≡ some (codes "ops-api")
unfolding equal
regex_member = refl

process_regex_message_lem_example :
    (t : ByService (Regexes texts Bytes compile)) × (process_regex_message texts Bytes compile
        (codes "m")
        old_regex
      ≡ some (some (codes "ops", t)))
    × Took texts Bytes compile
        (codes "ops-api")
        (codes "ops-api")
        (some (codes "ops-api"))
        (old_regex (codes "ops"))
        t
unfolding equal retrieved
process_regex_message_lem_example =
    process_regex_message_lem texts Bytes compile (codes "m") (codes "ops-api") old_regex
      (codes "ops-api") (codes "ops") (codes "ops-api") names_test regex_member plain_text
      (inr (codes "ops-api", refl))

abbrev no_urls : Bytes → TeamUrls
no_urls team = record {
  service_data = [];
  path_squashers = [];
  path_squash_cardinality_factor = 100;
}

process_url_message_lem_example :
    (td : TeamUrls) × (process_url_message texts (codes "m") no_urls ≡ some (codes "ops", td))
    × (retrieved (codes "ops-api") td.path_squashers
        ≡ some (
            tm_path_squasher_add_path
              (or_new
                (tm_path_squasher_alloc 100)
                (retrieved (codes "ops-api") (no_urls (codes "ops")).path_squashers))
              (codes "ops-api")))
    × ((other : Bytes)
        → other ≢ codes "ops-api"
        → retrieved other td.path_squashers
          ≡ retrieved other (no_urls (codes "ops")).path_squashers)
    × ((info : ServiceInfo) × (retrieved (codes "ops-api") td.service_data ≡ some info))
unfolding equal
process_url_message_lem_example =
    process_url_message_lem texts (codes "m") (codes "ops-api") no_urls (codes "ops-api")
      (codes "ops") names_test refl
