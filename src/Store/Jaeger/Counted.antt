-- ===== src/Store/Jaeger/Counted.antt =====
-- What the second pass over the children of a trace counts and sends.
use tracemate.Base.{
  ℕ, ◌+◌, Bool, true, false, Option, none, some, List, [], ◌∷◌, ◌++◌, inl, inr, Bytes, codes,
  Bool-cases, Option-cases, if◌then◌else◌, ◌≡◌, refl, arith,
}
use tracemate.CString.{equal}
use tracemate.CString.Search.{equal_self}
use tracemate.Message.{Json, tm_service_name, tm_get_team}
use tracemate.Store.Kept.{some_is_not_none}
use tracemate.Store.Jaeger.{
  SpanErrors, Event, team_data, jaegerize_transaction, jaegerize_span, other_team, different,
  to_teams, send_child, send_root, is_sent, Sending, pass_2_child, pass_2,
}

module _ (json : Json) where
  -- How many of the events go to a team.
  abbrev to_team : Bytes → Event json → ℕ
  to_team team (team_data t) = 0
  to_team team (jaegerize_transaction o t errors) = if equal t team then 1 else 0
  to_team team (jaegerize_span o t errors) = if equal t team then 1 else 0

  abbrev pub sent_to : Bytes → List (Event json) → ℕ
  sent_to team [] = 0
  sent_to team (e ∷ events) = to_team team e + sent_to team events

  sent_to-append :
      (team : Bytes) (a b : List (Event json))
      → sent_to team (a ++ b) ≡ sent_to team a + sent_to team b
  sent_to-append team [] b = omega arith
  sent_to-append team (e ∷ a) b = omega (arith, sent_to-append team a b)

  -- Another team than the root's is another name.
  abbrev Apart : Bytes → Option Bytes → Type 0
  Apart team none = Unit
  Apart team (some other) = equal other team ≡ false

  different-Apart : (team : Bytes) (other : Option Bytes) → Apart team (different json team other)
  unfolding different
  different-Apart team none = tt
  different-Apart team (some other) = elim (Bool-cases (equal other team)) [
    | inl on ↦ rw on tt
    | inr off ↦ rw off off
  ]

  send_root-sent_to :
      (trans : json.Object) (b : Bool) (team : Bytes) (other : Option Bytes)
      (errors : SpanErrors json)
      → Apart team other
      → sent_to team (send_root json trans b other errors).1 ≡ 0
  unfolding send_root
  send_root-sent_to trans true team other errors h = refl
  send_root-sent_to trans false team none errors h = refl
  send_root-sent_to trans false team (some other) errors h = ground arith

  other_team-sent_to : (team : Bytes) (t : Option Bytes) → sent_to team (other_team json t).1 ≡ 0
  unfolding other_team
  other_team-sent_to team none = refl
  other_team-sent_to team (some t) = refl

  send_child-sent_to :
      (event : Bytes) (o : json.Object) (team : Bytes) (other : Option Bytes)
      (errors : SpanErrors json)
      → Apart team other
      → sent_to team (send_child json event o team other errors)
        ≡ (if is_sent json event then 1 else 0)
  unfolding send_child to_teams
  send_child-sent_to event o team none errors h = ground (arith, equal_self team)
  send_child-sent_to event o team (some other) errors h = ground (arith, equal_self team)

  -- The count and the events to the team grow by the same.
  abbrev Balanced : Bytes → Sending json → Sending json → Type 0
  Balanced team z z' =
      sent_to team z'.events + z.jaegered_count ≡ sent_to team z.events + z'.jaegered_count

  pass_2_child-Balanced :
      (trans : json.Object) (team : Bytes) (errors : SpanErrors json) (o : json.Object)
      (processor : Option json.Object) (z z' : Sending json)
      → pass_2_child json trans team errors o processor z ≡ some z'
      → Balanced team z z'
  unfolding pass_2_child
  pass_2_child-Balanced trans team errors o none z z' e = let h : z ≡ z' = ground arith in rw h refl
  pass_2_child-Balanced trans team errors o (some processor) z z' e =
      let (t, asked) = other_team json (tm_get_team (tm_service_name json (some o))) in
      let other = different json team t in
      elim (Option-cases (json.get processor (codes "event"))) [
        | inl n ↦ absurd (some_is_not_none (rw n at e))
        | inr (x, n) ↦
            let event = json.string x in
            let (b, again) = send_root json trans z.rejaegered_root other errors in
            let sent = send_child json event o team other errors in
            let h : z'.events ≡ z.events ++ (asked ++ (again ++ sent)) =
              ground (arith, rw n at e) in
            let k : z'.jaegered_count
                ≡ (if is_sent json event then z.jaegered_count + 1 else z.jaegered_count) =
              ground (arith, rw n at e) in
            rw (h, k, sent_to-append)
              (ground (
                arith,
                other_team-sent_to team (tm_get_team (tm_service_name json (some o))),
                send_root-sent_to trans z.rejaegered_root team other errors
                    (different-Apart team t),
                send_child-sent_to event o team other errors (different-Apart team t),
              ))
      ]

  -- Over the second pass the count grows by as much as the number of the events to the root's team:
  -- a child is counted exactly where it is sent to that team.
  pub pass_2-counted :
      (trans : json.Object) (team : Bytes) (errors : SpanErrors json) (children : List json.Object)
      (z z' : Sending json)
      → pass_2 json trans team errors children z ≡ some z'
      → sent_to team z'.events + z.jaegered_count ≡ sent_to team z.events + z'.jaegered_count
  unfolding pass_2
  pass_2-counted trans team errors [] z z' e = let h : z ≡ z' = ground arith in rw h refl
  pass_2-counted trans team errors (o ∷ children) z z' e =
      elim (Option-cases
        (pass_2_child json trans team errors o (json.get o (codes "processor")) z)) [
          | inl n ↦ absurd (some_is_not_none (rw n at e))
          | inr (y, n) ↦ omega (
            arith,
            pass_2_child-Balanced trans team errors o _ z y n,
            pass_2-counted trans team errors children y z' (rw n at e),
          )
        ]
