-- ===== src/Teams/Apart.antt =====
-- One team's table in the registry, and the others.
use tracemate.Base.{[], ◌∷◌, some, inl, inr, Bytes, Option-cases, ◌≡◌, ◌≢◌, refl, arith}
use tracemate.CString.Search.{equal_iff, equal_self}
use tracemate.Metric.{Numbers}
use tracemate.Metric.Update.{Metrics}
use tracemate.Teams.{Teams, retrieve, tm_add_team, get_team_data, changed}

module _ (nums : Numbers) (team : Bytes) where
  pub retrieve-changed :
      (t : Metrics nums) (teams : Teams nums) {u : Metrics nums}
      → retrieve nums team teams ≡ some u
      → retrieve nums team (changed nums team t teams) ≡ some t
  unfolding retrieve changed
  retrieve-changed t [] h = cc
  retrieve-changed t ((name, v) ∷ teams) {u} h = ground (arith, retrieve-changed t teams {u = u})

  pub retrieve-changed_ne :
      (other : Bytes) (t : Metrics nums) (teams : Teams nums)
      → other ≢ team
      → retrieve nums other (changed nums team t teams) ≡ retrieve nums other teams
  unfolding retrieve changed
  retrieve-changed_ne other t [] ne = refl
  retrieve-changed_ne other t ((name, v) ∷ teams) ne =
      ground
        (arith, equal_iff name team, equal_iff name other, retrieve-changed_ne other t teams ne)

  pub retrieve-get_team_data :
      (teams : Teams nums)
      → retrieve nums team (get_team_data nums team teams).1
        ≡ some (get_team_data nums team teams).0
  unfolding get_team_data retrieve tm_add_team
  retrieve-get_team_data teams = elim (Option-cases (retrieve nums team teams)) [
    | inl e ↦ rw (e, get_team_data) (ground (arith, equal_self team))
    | inr (t, e) ↦ rw (e, get_team_data) e
  ]

  pub retrieve-get_team_data_ne :
      (other : Bytes) (teams : Teams nums)
      → other ≢ team
      → retrieve nums other (get_team_data nums team teams).1 ≡ retrieve nums other teams
  unfolding get_team_data retrieve tm_add_team
  retrieve-get_team_data_ne other teams ne = elim (Option-cases (retrieve nums team teams)) [
    | inl e ↦ rw (e, get_team_data) (ground (arith, equal_iff team other))
    | inr (t, e) ↦ rw (e, get_team_data) refl
  ]
