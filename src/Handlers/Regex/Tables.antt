-- ===== src/Handlers/Regex/Tables.antt =====
-- The tables of regular expressions, before and after a message.
use tracemate.Base.{
  Option, none, some, ◌>>=◌, Bytes, codes, Option-cases, Bool-cases, inl, inr, ◌⊎◌, ◌≡◌, ◌≢◌, refl,
  sym, ap, subst, ◌∙◌,
}
use tracemate.CString.{equal}
use tracemate.CString.Search.{equal_iff}
use tracemate.Message.{Json}
use tracemate.Store.Kept.{some_is_not_none}
use tracemate.Transaction.Stored.{some-inj}
use tracemate.Handlers.Escape.{escape_regex}
use tracemate.Handlers.{
  ByService, retrieved, stored, retrieved-stored, retrieved-stored_ne, service_and_team,
}
use tracemate.Handlers.Regex.{
  CompiledRegex, Regexes, compiled, added, add_regex, or_empty, regex_for, regex_of_team,
  process_regex_message,
}

module _ (json : Json) (Regex : Type 0) (pcre_compile : Bytes → Option Regex) where
  -- The expression of a service with that text.
  abbrev pub expression :
      ByService (Regexes json Regex pcre_compile)
      → Bytes
      → Bytes
      → Option (CompiledRegex json Regex pcre_compile)
  expression t service_name e = do regexes ← retrieved service_name t; retrieved e regexes

  -- What stands under the text of a message's expression afterwards: what was there, or else, if it
  -- compiles, the expression with its replacement.
  abbrev pub Entered :
      Bytes
      → Option json.Object
      → Option (CompiledRegex json Regex pcre_compile)
      → Option (CompiledRegex json Regex pcre_compile)
      → Type 0
  Entered e replace (some m) after = after ≡ some m
  Entered e replace none after =
      ((pcre_compile e ≡ none) × (after ≡ none))
      ⊎ ((match : Regex) × (r : json.Object) × (pcre_compile e ≡ some match)
          × (replace ≡ some r)
          × (after ≡ some (record { match = match; replace = json.string r })))

  -- Under other texts nothing changes.
  abbrev Others : Bytes → (before after : Regexes json Regex pcre_compile) → Type 0
  Others e x x' = (i : Bytes) → i ≢ e → retrieved i x' ≡ retrieved i x

  compiled-Entered :
      (e : Bytes) (replace : Option json.Object) (x x' : Regexes json Regex pcre_compile)
      → retrieved e x ≡ none
      → compiled json Regex pcre_compile e replace x (pcre_compile e) ≡ some x'
      → Entered e replace none (retrieved e x') × Others e x x'
  unfolding compiled
  compiled-Entered e replace x x' new h = elim (Option-cases (pcre_compile e)) [
    | inl bad ↦
        let same = some-inj (rw bad at h) in
        (inl (bad, ap (retrieved e) (sym same) ∙ new), λ i ne. ap (retrieved i) (sym same))
    | inr (match, good) ↦ elim (Option-cases replace) [
      | inl n ↦ absurd (some_is_not_none (rw (good, n) at h))
      | inr (r, n) ↦
          let same = some-inj (rw (good, n) at h) in
          (
            inr (match, r, good, n, ap (retrieved e) (sym same) ∙ retrieved-stored e _ x),
            λ i ne. ap (retrieved i) (sym same) ∙ retrieved-stored_ne i e _ x ne,
          )
    ]
  ]

  add_regex-Entered :
      (e : Bytes) (replace : Option json.Object) (x x' : Regexes json Regex pcre_compile)
      → add_regex json Regex pcre_compile e replace x ≡ some x'
      → Entered e replace (retrieved e x) (retrieved e x') × Others e x x'
  unfolding add_regex added
  add_regex-Entered e replace x x' h = elim (Option-cases (retrieved e x)) [
    | inl n ↦
        let (entered, others) = compiled-Entered e replace x x' n (rw n at h) in
        (subst (λ o. Entered e replace o (retrieved e x')) (sym n) entered, others)
    | inr (m, n) ↦
        let same = some-inj (rw n at h) in
        (
          subst (λ o. Entered e replace o (retrieved e x')) (sym n)
              (ap (retrieved e) (sym same) ∙ n),
          λ i ne. ap (retrieved i) (sym same),
        )
  ]

  expression-or_empty :
      (t : ByService (Regexes json Regex pcre_compile)) (service_name e : Bytes)
      → expression t service_name e
        ≡ retrieved e (or_empty json Regex pcre_compile (retrieved service_name t))
  unfolding retrieved
  expression-or_empty t service_name e = elim (Option-cases (retrieved service_name t)) [
    | inl n ↦ rw n refl
    | inr (x, n) ↦ rw n refl
  ]

  -- The expression is entered, and every other one of the team stays, or stays absent.
  abbrev pub Took :
      Bytes
      → Bytes
      → Option json.Object
      → (before after : ByService (Regexes json Regex pcre_compile)) → Type 0
  Took service_name e replace t t' =
      Entered e replace (expression t service_name e) (expression t' service_name e)
      × ((s i : Bytes) → (s ≢ service_name) ⊎ (i ≢ e) → expression t' s i ≡ expression t s i)

  expression-stored :
      (service_name e : Bytes) (t : ByService (Regexes json Regex pcre_compile))
      (x' : Regexes json Regex pcre_compile) (s i : Bytes)
      → Others e (or_empty json Regex pcre_compile (retrieved service_name t)) x'
      → (s ≢ service_name) ⊎ (i ≢ e)
      → expression (stored service_name x' t) s i ≡ expression t s i
  expression-stored service_name e t x' s i others h = elim (Bool-cases (equal s service_name)) [
    | inr off ↦
        ap (λ o. o >>= retrieved i)
          (retrieved-stored_ne s service_name x' t
            (λ q. let on = (equal_iff s service_name).1 q in absurd (cc)))
    | inl on ↦ at_service ((equal_iff s service_name).0 on) h
  ]
    where
      at_service :
          s ≡ service_name
          → (s ≢ service_name) ⊎ (i ≢ e)
          → expression (stored service_name x' t) s i ≡ expression t s i
      at_service same (inl ne) = absurd (ne same)
      at_service same (inr ne) =
          subst (λ y. expression (stored service_name x' t) y i ≡ expression t y i) (sym same)
            (ap (λ o. o >>= retrieved i) (retrieved-stored service_name x' t)
              ∙ others i ne
              ∙ sym (expression-or_empty t service_name i))

  regex_for-Took :
      (message r : json.Object) (service_name e : Bytes)
      (t t' : ByService (Regexes json Regex pcre_compile))
      → escape_regex (json.string r) ≡ some e
      → regex_for json Regex pcre_compile message service_name t (some r) ≡ some t'
      → Took service_name e (json.get message (codes "replace")) t t'
  unfolding regex_for
  regex_for-Took message r service_name e t t' escapes h =
      let replace = json.get message (codes "replace") in
      let x = or_empty json Regex pcre_compile (retrieved service_name t) in
      let k = rw escapes at h in
      elim (Option-cases (add_regex json Regex pcre_compile e replace x)) [
        | inl n ↦ absurd (some_is_not_none (rw n at k))
        | inr (x', n) ↦
            let same : stored service_name x' t ≡ t' = some-inj (rw n at k) in
            let (entered, others) = add_regex-Entered e replace x x' n in
            let found : expression (stored service_name x' t) service_name e ≡ retrieved e x' =
              ap (λ o. o >>= retrieved e) (retrieved-stored service_name x' t) in
            subst (Took service_name e replace t) same (
              subst
                  (λ o. Entered e replace o (expression (stored service_name x' t) service_name e))
                  (sym (expression-or_empty t service_name e))
                  (subst (Entered e replace (retrieved e x)) (sym found) entered),
              λ s i. expression-stored service_name e t x' s i others,
            )
      ]

  -- The expression is known, or does not compile, or has a replacement.
  abbrev pub Ready :
      Bytes → Option json.Object → Option (CompiledRegex json Regex pcre_compile) → Type 0
  Ready e replace (some m) = Unit
  Ready e replace none = (pcre_compile e ≡ none) ⊎ ((r : json.Object) × (replace ≡ some r))

  add_regex-Ready :
      (e : Bytes) (replace : Option json.Object) (x : Regexes json Regex pcre_compile)
      → Ready e replace (retrieved e x)
      → (x' : Regexes json Regex pcre_compile) × (add_regex json Regex pcre_compile e replace x
          ≡ some x')
  unfolding add_regex added compiled
  add_regex-Ready e replace x ready = elim (Option-cases (retrieved e x)) [
    | inr (m, n) ↦ (x, rw n refl)
    | inl n ↦ elim (rw n at ready) [
      | inl bad ↦ (x, rw (n, bad) refl)
      | inr (r, given) ↦ elim (Option-cases (pcre_compile e)) [
        | inl bad ↦ (x, rw (n, bad) refl)
        | inr (match, good) ↦ (
          stored e (record { match = match; replace = json.string r }) x,
          rw (n, good, given) refl,
        )
      ]
    ]
  ]

  regex_for-Ready :
      (message r : json.Object) (service_name e : Bytes)
      (t : ByService (Regexes json Regex pcre_compile))
      → escape_regex (json.string r) ≡ some e
      → Ready e (json.get message (codes "replace")) (expression t service_name e)
      → (t' : ByService (Regexes json Regex pcre_compile)) × (regex_for json Regex pcre_compile
            message service_name t
            (some r)
          ≡ some t')
        × Took service_name e (json.get message (codes "replace")) t t'
  unfolding regex_for
  regex_for-Ready message r service_name e t escapes ready =
      let replace = json.get message (codes "replace") in
      let (x', n) =
        add_regex-Ready e replace (or_empty json Regex pcre_compile (retrieved service_name t))
          (subst (Ready e replace) (expression-or_empty t service_name e) ready) in
      let taken : regex_for json Regex pcre_compile message service_name t (some r)
          ≡ some (stored service_name x' t) =
        rw (escapes, n) refl in
      (_, taken, regex_for-Took message r service_name e t _ escapes taken)

  -- A message with the name of a service and an expression that is escaped is handled to its end,
  -- if the expression is known, or does not compile, or has a replacement. What changes are the
  -- tables of the service's team. There the escaped expression keeps the matcher that it has; if it
  -- has none, then it gets one with the message's replacement where it compiles, and none where it
  -- does not. Every other expression, of this service or of others of the team, stays, or stays
  -- absent.
  pub process_regex_message_lem :
      (message r : json.Object) (before : Bytes → ByService (Regexes json Regex pcre_compile))
      (service_name team e : Bytes)
      → service_and_team json message ≡ some (service_name, team)
      → json.get message (codes "regex") ≡ some r
      → escape_regex (json.string r) ≡ some e
      → Ready e (json.get message (codes "replace")) (expression (before team) service_name e)
      → (t : ByService (Regexes json Regex pcre_compile)) × (process_regex_message json Regex
            pcre_compile message before
          ≡ some (some (team, t)))
        × Took service_name e (json.get message (codes "replace")) (before team) t
  unfolding process_regex_message regex_of_team
  process_regex_message_lem message r before service_name team e names member escapes ready =
      let (t, taken, took) = regex_for-Ready message r service_name e (before team) escapes ready in
      (t, rw (names, member, taken) refl, took)
