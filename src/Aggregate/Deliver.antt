-- ===== src/Aggregate/Deliver.antt =====
-- One inbound value, in the registry of teams.
use tracemate.Base.{
  Option, none, some, [], inl, inr, Option-cases, ap, Bytes, codes, ◌≡◌, ◌≢◌, refl, ◌∙◌,
}
use tracemate.Metric.{Numbers}
use tracemate.Metric.Update.{Metrics}
use tracemate.Message.{Json}
use tracemate.Teams.{Teams, retrieve, get_team_data, changed}
use tracemate.Teams.Apart.{
  retrieve-changed, retrieve-changed_ne, retrieve-get_team_data, retrieve-get_team_data_ne,
}
use tracemate.Aggregate.Rollup.{Summaries, Surroundings}
use tracemate.Aggregate.{inbound, deliver}

module _ (nums : Numbers) (json : Json) (sums : Summaries nums json) where
  -- The table that a team has, or an empty one.
  abbrev pub table_or_empty : Option (Metrics nums) → Metrics nums
  table_or_empty none = []
  table_or_empty (some t) = t

  found-or_empty :
      (team : Bytes) (teams : Teams nums)
      → (get_team_data nums team teams).0 ≡ table_or_empty (retrieve nums team teams)
  unfolding get_team_data
  found-or_empty team teams = elim (Option-cases (retrieve nums team teams)) [
    | inl e ↦ rw (e, get_team_data) refl
    | inr (t, e) ↦ rw (e, get_team_data) refl
  ]

  -- A value with a type, that the table which the registry has for the team takes, or an empty one
  -- where the team is not registered, is delivered: afterwards the registry has for the team what
  -- that table becomes by the value, and every other team's table stays, or stays absent.
  pub deliver_lem :
      (s : Surroundings) (key : Bytes) (val type : json.Object) (team : Bytes) (teams : Teams nums)
      (t' : Metrics nums)
      → json.get val (codes "_type") ≡ some type
      → inbound nums json sums s key val
          (json.string type)
          (table_or_empty (retrieve nums team teams))
        ≡ some t'
      → (teams' : Teams nums) × (deliver nums json sums s key val team teams ≡ some teams')
        × (retrieve nums team teams' ≡ some t')
        × ((other : Bytes) → other ≢ team → retrieve nums other teams' ≡ retrieve nums other teams)
  unfolding deliver
  deliver_lem s key val type team teams t' e h =
      let found = get_team_data nums team teams in
      (
        changed nums team t' found.1,
        rw
            (
              e,
              ap (inbound nums json sums s key val (json.string type)) (found-or_empty team teams)
                  ∙ h,
            )
            refl,
        retrieve-changed nums team t' found.1 (retrieve-get_team_data nums team teams),
        λ other ne.
            retrieve-changed_ne nums team other t' found.1 ne
            ∙ retrieve-get_team_data_ne nums team other teams ne,
      )
