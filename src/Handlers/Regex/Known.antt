-- ===== src/Handlers/Regex/Known.antt =====
-- What is in the table of the service after a message with a regular expression.
use tracemate.Base.{
  Option, none, some, Bytes, codes, Option-cases, inl, inr, ◌≡◌, sym, ap, subst, ◌∙◌,
}
use tracemate.Message.{Json}
use tracemate.Store.Kept.{some_is_not_none}
use tracemate.Transaction.Stored.{some-inj}
use tracemate.Handlers.Escape.{escape_regex}
use tracemate.Handlers.{ByService, retrieved, retrieved-stored, service_and_team}
use tracemate.Handlers.Regex.{
  CompiledRegex, Regexes, compiled, added, add_regex, or_empty, regex_for, regex_of_team,
  process_regex_message, some-pair,
}

module _ (json : Json) (Regex : Type 0) (pcre_compile : Bytes → Option Regex) where
  -- The table of the service has the expression.
  abbrev pub Knows : ByService (Regexes json Regex pcre_compile) → Bytes → Bytes → Type 0
  Knows t service_name e =
      (x : Regexes json Regex pcre_compile) × (m : CompiledRegex json Regex pcre_compile)
      × (retrieved service_name t ≡ some x)
      × (retrieved e x ≡ some m)

  compiled-Knows :
      (e : Bytes) (replace : Option json.Object) (x x' : Regexes json Regex pcre_compile)
      (match : Regex)
      → compiled json Regex pcre_compile e replace x (some match) ≡ some x'
      → (m : CompiledRegex json Regex pcre_compile) × (retrieved e x' ≡ some m)
  unfolding compiled
  compiled-Knows e none x x' match h = absurd (cc)
  compiled-Knows e (some r) x x' match h =
      (_, ap (retrieved e) (sym (some-inj h)) ∙ retrieved-stored e _ x)

  add_regex-Knows :
      (e : Bytes) (replace : Option json.Object) (x x' : Regexes json Regex pcre_compile)
      (match : Regex)
      → pcre_compile e ≡ some match
      → add_regex json Regex pcre_compile e replace x ≡ some x'
      → (m : CompiledRegex json Regex pcre_compile) × (retrieved e x' ≡ some m)
  unfolding add_regex added
  add_regex-Knows e replace x x' match good h = elim (Option-cases (retrieved e x)) [
    | inl n ↦ compiled-Knows e replace x x' match (rw (n, good) at h)
    | inr (m, n) ↦ (m, ap (retrieved e) (sym (some-inj (rw n at h))) ∙ n)
  ]

  regex_for-Knows :
      (message r : json.Object) (service_name e : Bytes)
      (t t' : ByService (Regexes json Regex pcre_compile)) (match : Regex)
      → escape_regex (json.string r) ≡ some e
      → pcre_compile e ≡ some match
      → regex_for json Regex pcre_compile message service_name t (some r) ≡ some t'
      → Knows t' service_name e
  unfolding regex_for
  regex_for-Knows message r service_name e t t' match escapes good h =
      let replace = json.get message (codes "replace") in
      let x = or_empty json Regex pcre_compile (retrieved service_name t) in
      let k = rw escapes at h in
      elim (Option-cases (add_regex json Regex pcre_compile e replace x)) [
        | inl n ↦ absurd (some_is_not_none (rw n at k))
        | inr (x', n) ↦
            let (m, there) = add_regex-Knows e replace x x' match good n in
            (
              x',
              m,
              ap (retrieved service_name) (sym (some-inj (rw n at k)))
                  ∙ retrieved-stored service_name x' t,
              there,
            )
      ]

  -- After a message with an expression that compiles was taken, the table of its service has it.
  pub process_regex_message-Knows :
      (message r : json.Object) (before : Bytes → ByService (Regexes json Regex pcre_compile))
      (service_name team e : Bytes) (t : ByService (Regexes json Regex pcre_compile))
      (match : Regex)
      → service_and_team json message ≡ some (service_name, team)
      → json.get message (codes "regex") ≡ some r
      → escape_regex (json.string r) ≡ some e
      → pcre_compile e ≡ some match
      → process_regex_message json Regex pcre_compile message before ≡ some (some (team, t))
      → Knows t service_name e
  unfolding process_regex_message regex_of_team
  process_regex_message-Knows message r before service_name team e t match names member escapes good
        h =
      let k = rw (names, member) at h in
      elim (Option-cases
        (regex_for json Regex pcre_compile message service_name (before team) (some r))) [
          | inl n ↦ absurd (some_is_not_none (rw n at k))
          | inr (t', n) ↦
              let same = some-pair json Regex pcre_compile team team t' t (rw n at k) in
              subst (λ y. Knows y service_name e) same.1
                (regex_for-Knows message r service_name e (before team) t' match escapes good n)
        ]
