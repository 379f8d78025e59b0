-- ===== src/Teams.antt =====
-- The registry of teams in src/tm_metric.c. Of a team's data, `td->hash` is modelled; a team is not
-- removed while the program runs.
pub mod Apart
use tracemate.Base.{List, [], ◌∷◌, Option, none, some, if◌then◌else◌, Bytes}
use tracemate.CString.{equal}
use tracemate.Metric.{Numbers}
use tracemate.Metric.Update.{Metrics}

module _ (nums : Numbers) where
  -- `team_metrics`, by the name of a team.
  abbrev pub Teams : Type 0
  Teams = List (Bytes × Metrics nums)

  unfoldable pub retrieve : Bytes → Teams → Option (Metrics nums)
  retrieve team [] = none
  retrieve team ((name, t) ∷ teams) = if equal name team then some t else retrieve team teams

  -- mtev_hash_store, of a team that is not there, with the empty table that it gets.
  unfoldable pub tm_add_team : Bytes → Teams → Teams
  tm_add_team team teams = (team, []) ∷ teams

  -- A team that is not configured is added; the result is its table and the registry.
  unfoldable pub get_team_data : Bytes → Teams → Metrics nums × Teams
  unfolding retrieve tm_add_team
  get_team_data team teams = elim (retrieve team teams) [
    | none ↦ ([], tm_add_team team teams)
    | some t ↦ (t, teams)
  ]

  -- The registry after the team's table, which a handler reaches by its address, was changed.
  unfoldable pub changed : Bytes → Metrics nums → Teams → Teams
  changed team t [] = []
  changed team t ((name, u) ∷ teams) =
      if equal name team then (name, t) ∷ teams else (name, u) ∷ changed team t teams
