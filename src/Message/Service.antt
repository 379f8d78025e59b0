-- ===== src/Message/Service.antt =====
-- The team of a service, and the versions that are read.
use tracemate.Base.{
  ℕ, ◌≤◌, ◌∷◌, ◌++◌, none, some, inl, inr, Bytes, codes, All, Option-cases, ◌≡◌, ◌≢◌, ◌↔◌, subst,
  arith,
}
use tracemate.CString.{strchr}
use tracemate.CString.Search.{strchr-eq-some, strchr-append}
use tracemate.Message.{Json, major_of, tm_service_name, tm_get_team}

-- The name is a team, a dash and a rest, and the dash is its first.
abbrev pub IsTeamOf : Bytes → Bytes → Type 0
IsTeamOf team sn = (rest : Bytes) × (sn ≡ team ++ (b'-' ∷ rest)) × All (λ x. x ≢ b'-') team

-- A service has a team exactly when its name holds a dash, and the team is what stands in front of
-- the first one.
pub tm_get_team_iff : (sn team : Bytes) → (tm_get_team (some sn) ≡ some team) ↔ IsTeamOf team sn
unfolding tm_get_team
tm_get_team_iff sn team = (split, λ (rest, e, h). rw e (rw (strchr-append team b'-' rest h)))
  where
    split : tm_get_team (some sn) ≡ some team → IsTeamOf team sn
    split h = elim (Option-cases (strchr sn b'-')) [
      | inl e ↦ let z : none ≡ some team = rw e at h in cc
      | inr ((before, at), e) ↦
          let (rest, f, g, k) = strchr-eq-some sn b'-' e in
          let b : before ≡ team = ground arith in
          (rest, subst (λ t. sn ≡ t ++ (b'-' ∷ rest)) b g, subst (All (λ x. x ≢ b'-')) b k)
    ]

module _ (json : Json) (m md version : json.Object) where
  -- Only the first byte of the version counts: a message whose version begins with a digit from 1
  -- to 5, as that of a server 10.2.0 does, has no service, whatever else it holds.
  pub tm_service_name_two_digits :
      (d : ℕ) (rest : Bytes)
      → json.get m (codes "@metadata") ≡ some md
      → json.get md (codes "version") ≡ some version
      → json.string version ≡ d ∷ rest
      → b'1' ≤ d
      → d ≤ b'5'
      → tm_service_name json (some m) ≡ none
  unfolding tm_service_name major_of
  tm_service_name_two_digits d rest e f g lo hi = ground arith
