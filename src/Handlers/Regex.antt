-- ===== src/Handlers/Regex.antt =====
-- `process_regex_message` of src/tm_process_regex.c, on the table `squash_regexes` of
-- the team of the service. pcre_compile is a parameter.
pub mod Known
pub mod Tables
use tracemate.Base.{
  Option, none, some, [], ◌>>=◌, Bytes, codes, Option-cases, inl, inr, ◌≡◌, refl, sym, ap, ap₂, ◌∙◌,
  arith,
}
use tracemate.Message.{Json}
use tracemate.Store.Kept.{some_is_not_none}
use tracemate.Transaction.Stored.{some-inj}
use tracemate.Handlers.Escape.{escape_regex}
use tracemate.Handlers.{
  ByService, retrieved, stored, retrieved-stored, stored_same, service_and_team,
}

module _ (json : Json) (Regex : Type 0) (pcre_compile : Bytes → Option Regex) where
  -- `pcre_matcher`, without what pcre_study finds
  pub record CompiledRegex : Type 0 where
    pub match : Regex
    pub replace : Bytes

  -- The expressions of a service, by their text.
  abbrev pub Regexes : Type 0
  Regexes = ByService CompiledRegex

  compiled : Bytes → Option json.Object → Regexes → Option Regex → Option Regexes
  unfolding stored
  compiled escaped_regex replace regexes none = some regexes
  compiled escaped_regex none regexes (some match) = none
  compiled escaped_regex (some replace) regexes (some match) =
      some (stored escaped_regex (record { match = match; replace = json.string replace }) regexes)

  added : Bytes → Option json.Object → Regexes → Option CompiledRegex → Option Regexes
  unfolding compiled
  added escaped_regex replace regexes (some m) = some regexes
  added escaped_regex replace regexes none =
      compiled escaped_regex replace regexes (pcre_compile escaped_regex)

  -- An expression that is there stays; `none` is a NULL as the replacement.
  unfoldable pub add_regex : Bytes → Option json.Object → Regexes → Option Regexes
  unfolding added retrieved
  add_regex escaped_regex replace regexes =
      added escaped_regex replace regexes (retrieved escaped_regex regexes)

  abbrev or_empty : Option Regexes → Regexes
  or_empty none = []
  or_empty (some regexes) = regexes

  regex_for :
      json.Object → Bytes → ByService Regexes → Option json.Object → Option (ByService Regexes)
  unfolding add_regex escape_regex
  regex_for message service_name squash_regexes none = some squash_regexes
  regex_for message service_name squash_regexes (some r) = do
    escaped_regex ← escape_regex (json.string r)
    regexes ←
        add_regex escaped_regex (json.get message (codes "replace"))
          (or_empty (retrieved service_name squash_regexes))
    some (stored service_name regexes squash_regexes)

  regex_of_team :
      json.Object
      → (Bytes → ByService Regexes)
      → Option (Bytes × Bytes)
      → Option (Option (Bytes × ByService Regexes))
  unfolding regex_for
  regex_of_team message squash_regexes_of none = some none
  regex_of_team message squash_regexes_of (some (service_name, team)) = do
    t ← regex_for message service_name (squash_regexes_of team) (json.get message (codes "regex"))
    some (some (team, t))

  -- The team that is asked for, and its table after the message; `none` inside is a message that is
  -- left, and `none` outside a program that goes wrong.
  unfoldable pub process_regex_message :
      json.Object → (Bytes → ByService Regexes) → Option (Option (Bytes × ByService Regexes))
  unfolding regex_of_team service_and_team
  process_regex_message message squash_regexes_of =
      regex_of_team message squash_regexes_of (service_and_team json message)

  add_regex_idem :
      (e : Bytes) (replace : Option json.Object) (regexes regexes' : Regexes)
      → add_regex e replace regexes ≡ some regexes'
      → add_regex e replace regexes' ≡ some regexes'
  unfolding add_regex added compiled
  add_regex_idem e replace regexes regexes' h = elim (Option-cases (retrieved e regexes)) [
    | inr (m, r) ↦
        let same : regexes ≡ regexes' = some-inj (rw r at h) in rw (rw same at r, add_regex) refl
    | inl n ↦
        let k = rw n at h in
        elim (Option-cases (pcre_compile e)) [
          | inl bad ↦
              let same : regexes ≡ regexes' = some-inj (rw bad at k) in
              rw (rw same at n, bad, add_regex) refl
          | inr (match, good) ↦ with_replace replace match (rw good at k)
        ]
  ]
    where
      with_replace :
          (replace : Option json.Object) (match : Regex)
          → compiled e replace regexes (some match) ≡ some regexes'
          → add_regex e replace regexes' ≡ some regexes'
      with_replace none match k = absurd (cc)
      with_replace (some x) match k =
          let same : stored e (record { match = match; replace = json.string x }) regexes
              ≡ regexes' =
            some-inj k in
          rw (ap (retrieved e) (sym same) ∙ retrieved-stored e _ regexes, add_regex) refl

  regex_for_idem :
      (message : json.Object) (service_name : Bytes) (t t' : ByService Regexes)
      (r : Option json.Object)
      → regex_for message service_name t r ≡ some t'
      → regex_for message service_name t' r ≡ some t'
  unfolding regex_for
  regex_for_idem message service_name t t' none e = ground arith
  regex_for_idem message service_name t t' (some r) e =
      elim (Option-cases (escape_regex (json.string r))) [
        | inl n ↦ absurd (some_is_not_none (rw n at e))
        | inr (escaped_regex, n) ↦
            let replace = json.get message (codes "replace") in
            let k = rw n at e in
            elim (Option-cases
              (add_regex escaped_regex replace (or_empty (retrieved service_name t)))) [
                | inl m ↦ absurd (some_is_not_none (rw m at k))
                | inr (regexes, m) ↦
                    let same : stored service_name regexes t ≡ t' = some-inj (rw m at k) in
                    let found : retrieved service_name t' ≡ some regexes =
                      ap (retrieved service_name) (sym same)
                      ∙ retrieved-stored service_name regexes t in
                    rw (n, found, add_regex_idem escaped_regex replace _ regexes m)
                      (ap some (stored_same service_name regexes t' found))
              ]
      ]

  some-pair :
      (x y : Bytes) (u v : ByService Regexes)
      → ◌≡◌ {A = Option (Option (Bytes × ByService Regexes))}
          (some (some (x, u)))
          (some (some (y, v)))
      → (x ≡ y) × (u ≡ v)
  some-pair x y u v e = ground arith

  regex_of_idem :
      (message : json.Object) (before after : Bytes → ByService Regexes) (team : Bytes)
      (t : ByService Regexes) (names : Option (Bytes × Bytes))
      → regex_of_team message before names ≡ some (some (team, t))
      → after team ≡ t
      → regex_of_team message after names ≡ some (some (team, t))
  unfolding regex_of_team
  regex_of_idem message before after team t none e h = absurd (cc)
  regex_of_idem message before after team t (some (service_name, team')) e h =
      let r = json.get message (codes "regex") in
      elim (Option-cases (regex_for message service_name (before team') r)) [
        | inl n ↦ absurd (some_is_not_none (rw n at e))
        | inr (t', n) ↦
            let same = some-pair team' team t' t (rw n at e) in
            let again = regex_for_idem message service_name (before team') t' r n in
            let there : after team' ≡ t' = ap after same.0 ∙ h ∙ sym same.1 in
            rw (there, again) (ap₂ (λ x u. some (some (x, u))) same.0 same.1)
      ]

  -- A message with a regular expression changes nothing when it comes a second time: after the
  -- team's table was replaced by the one it makes, it makes the same one.
  pub process_regex_message_idem :
      (message : json.Object) (before after : Bytes → ByService Regexes) (team : Bytes)
      (t : ByService Regexes)
      → process_regex_message message before ≡ some (some (team, t))
      → after team ≡ t
      → process_regex_message message after ≡ some (some (team, t))
  unfolding process_regex_message
  process_regex_message_idem message before after team t e h =
      regex_of_idem message before after team t (service_and_team json message) e h
