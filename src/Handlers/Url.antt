-- ===== src/Handlers/Url.antt =====
-- `process_url_message` of src/tm_process_url.c, on the tables `service_data` and `path_squashers`
-- of the team of the service.
use tracemate.Base.{ℕ, Bool, false, Option, none, some, Bytes, codes, ◌≡◌, ◌≢◌, refl}
use tracemate.Message.{Json}
use tracemate.Squasher.{PathSquasher, tm_path_squasher_alloc, tm_path_squasher_add_path}
use tracemate.Handlers.{
  ByService, retrieved, stored, retrieved-stored, retrieved-stored_ne, service_and_team,
}

-- `service_info_t`; 0 is SERVICE_TYPE_UNKNOWN.
pub record ServiceInfo : Type 0 where
  pub service_agent : Option Bytes
  pub service_type : ℕ
  pub created : Bool

abbrev pub new_service : ServiceInfo
new_service = record { service_agent = none; service_type = 0; created = false }

-- `team_data_t`, as far as the handler reads and changes it.
pub record TeamUrls : Type 0 where
  pub service_data : ByService ServiceInfo
  pub path_squashers : ByService PathSquasher
  pub path_squash_cardinality_factor : ℕ

-- The value under the name, or a new one.
abbrev pub or_new : {V : Type 0} → V → Option V → V
or_new v none = v
or_new v (some w) = w

squashed_url : TeamUrls → Bytes → Bytes → ByService PathSquasher
unfolding tm_path_squasher_add_path retrieved stored
squashed_url td service_name url =
    let ps =
      or_new (tm_path_squasher_alloc td.path_squash_cardinality_factor)
        (retrieved service_name td.path_squashers) in
    stored service_name (tm_path_squasher_add_path ps url) td.path_squashers

module _ (json : Json) where
  with_url : TeamUrls → Bytes → Option json.Object → TeamUrls
  unfolding squashed_url
  with_url td service_name none = td
  with_url td service_name (some u) = record td {
    path_squashers = squashed_url td service_name (json.string u);
  }

  unfoldable pub known_service : TeamUrls → Bytes → TeamUrls
  unfolding retrieved stored
  known_service td service_name = record td {
    service_data =
        stored service_name (or_new new_service (retrieved service_name td.service_data))
          td.service_data;
  }

  urls_of : json.Object → (Bytes → TeamUrls) → Option (Bytes × Bytes) → Option (Bytes × TeamUrls)
  unfolding with_url known_service
  urls_of message team_urls none = none
  urls_of message team_urls (some (service_name, team)) = some (
    team,
    with_url (known_service (team_urls team) service_name) service_name
        (json.get message (codes "url")),
  )

  -- The team that is asked for, and what it keeps after the message; `none` is a message that is
  -- left.
  unfoldable pub process_url_message : json.Object → (Bytes → TeamUrls) → Option (Bytes × TeamUrls)
  unfolding urls_of service_and_team
  process_url_message message team_urls = urls_of message team_urls (service_and_team json message)

  -- A URL goes into the tree of its service, a new one with the team's factor if there was none;
  -- the trees of the other services stay as they are, and the service is known from then on.
  pub process_url_message_lem :
      (message u : json.Object) (team_urls : Bytes → TeamUrls) (service_name team : Bytes)
      → service_and_team json message ≡ some (service_name, team)
      → json.get message (codes "url") ≡ some u
      → (td : TeamUrls) × (process_url_message message team_urls ≡ some (team, td))
        × (retrieved service_name td.path_squashers
            ≡ some (
                tm_path_squasher_add_path
                  (or_new
                    (tm_path_squasher_alloc (team_urls team).path_squash_cardinality_factor)
                    (retrieved service_name (team_urls team).path_squashers))
                  (json.string u)))
        × ((other : Bytes)
            → other ≢ service_name
            → retrieved other td.path_squashers ≡ retrieved other (team_urls team).path_squashers)
        × ((info : ServiceInfo) × (retrieved service_name td.service_data ≡ some info))
  unfolding process_url_message urls_of with_url known_service squashed_url
  process_url_message_lem message u team_urls service_name team e f = (
    with_url (known_service (team_urls team) service_name) service_name (some u),
    rw (e, f) refl,
    retrieved-stored service_name _ (team_urls team).path_squashers,
    λ other ne. retrieved-stored_ne other service_name _ (team_urls team).path_squashers ne,
    (_, retrieved-stored service_name _ (team_urls team).service_data),
  )
