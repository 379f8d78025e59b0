-- ===== src/Handlers.antt =====
-- src/tm_process_error.c, src/tm_process_regex.c and src/tm_process_url.c: the handlers of errors,
-- of regular expressions and of URLs. What a team keeps by service is an association list.
pub mod Escape
pub mod Regex
pub mod Url
pub mod Error
use tracemate.Base.{
  ℕ, Bool, true, false, Option, none, some, List, [], ◌∷◌, if◌then◌else◌, ◌>>=◌, Bytes, codes, ◌≡◌,
  ◌≢◌, refl, arith,
}
use tracemate.CString.{equal}
use tracemate.CString.Search.{equal_iff, equal_self}
use tracemate.Message.{Json, tm_get_team}

-- A table by the service's name.
abbrev pub ByService : Type 0 → Type 0
ByService V = List (Bytes × V)

module _ {V : Type 0} where
  -- mtev_hash_retrieve
  unfoldable pub retrieved : Bytes → ByService V → Option V
  unfolding equal
  retrieved k [] = none
  retrieved k ((j, v) ∷ t) = if equal j k then some v else retrieved k t

  -- mtev_hash_store, or a change behind the pointer to the value
  unfoldable pub stored : Bytes → V → ByService V → ByService V
  unfolding equal
  stored k v [] = (k, v) ∷ []
  stored k v ((j, w) ∷ t) = if equal j k then (j, v) ∷ t else (j, w) ∷ stored k v t

  pub retrieved-stored : (k : Bytes) (v : V) (t : ByService V) → retrieved k (stored k v t) ≡ some v
  unfolding retrieved stored
  retrieved-stored k v [] = rw (equal_self k) refl
  retrieved-stored k v ((j, w) ∷ t) = ground (arith, retrieved-stored k v t)

  pub retrieved-stored_ne :
      (i k : Bytes) (v : V) (t : ByService V) → i ≢ k → retrieved i (stored k v t) ≡ retrieved i t
  unfolding retrieved stored
  retrieved-stored_ne i k v [] ne = ground (arith, equal_iff k i)
  retrieved-stored_ne i k v ((j, w) ∷ t) ne =
      ground (arith, equal_iff j i, equal_iff j k, retrieved-stored_ne i k v t)

  pub stored_same :
      (k : Bytes) (v : V) (t : ByService V) → retrieved k t ≡ some v → stored k v t ≡ t
  unfolding retrieved stored
  stored_same k v [] e = cc
  stored_same k v ((j, w) ∷ t) e = ground (arith, stored_same k v t)

-- The name of the service that the message is about, and its team; `none` where something is
-- missing. A name that is NULL has no team.
unfoldable pub service_and_team : (json : Json) → json.Object → Option (Bytes × Bytes)
unfolding tm_get_team
service_and_team json message = do
  context ← json.get message (codes "context")
  service ← json.get context (codes "service")
  name ← json.get service (codes "name")
  team ← tm_get_team (some (json.string name))
  some (json.string name, team)
