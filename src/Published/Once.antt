-- ===== src/Published/Once.antt =====
-- A regular expression is published until it is given back.
use tracemate.Base.{
  ◌<◌, Bool, true, false, List, [], ◌∷◌, ◌++◌, Option, none, some, ltb, if◌then◌else◌, Bytes, codes,
  length, All, All-append, Bool-cases, Option-cases, inl, inr, Holds, Holds-some, Holds->>=, ◌≡◌,
  ◌≢◌, sym, ap, ◌∙◌, arith,
}
use tracemate.CString.{equal}
use tracemate.Message.{Json}
use tracemate.Squasher.Regexes.{Generated, generated}
use tracemate.Metric.Json.Read.{read_string}
use tracemate.Handlers.Escape.{escape_regex, slashes}
use tracemate.Handlers.{ByService, retrieved, service_and_team}
use tracemate.Handlers.Regex.{CompiledRegex, Regexes, process_regex_message}
use tracemate.Handlers.Regex.Known.{process_regex_message-Knows}
use tracemate.Store.Kept.{some_is_not_none}
use tracemate.Published.{
  SentRegex, regex_key, send_regex_to_kafka, publish_unknown, publish_service,
}
use tracemate.Published.Back.{Segment, regex_read, generated_back}

abbrev pub Avoids : Bytes → SentRegex → Type 0
Avoids e s = s.generated.regex ≢ e

Holds-if {ℓ κ} :
    {A : Type ℓ} (P : A → Type κ) (b : Bool) (a : A) → P a → Holds P (if b then some a else none)
Holds-if P true a h = h
Holds-if P false a h = tt

send_regex_to_kafka-Avoids :
    (service_name e : Bytes) (g : Generated)
    → g.regex ≢ e
    → Holds (All (Avoids e)) (send_regex_to_kafka service_name g)
unfolding send_regex_to_kafka
send_regex_to_kafka-Avoids service_name e g ne = elim (Bool-cases (equal g.regex [])) [
  | inl on ↦ rw on tt
  | inr off ↦
      rw off (Holds-if (All (Avoids e)) (ltb (length (regex_key service_name g)) 1024) _ (ne, tt))
]

string_of : {a b r : Bytes} → ◌≡◌ {A = Option (Bytes × Bytes)} (some (a, r)) (some (b, r)) → a ≡ b
string_of e = ground (arith, e)

module _ (json : Json) (Regex : Type 0) (pcre_compile : Bytes → Option Regex) where
  publish_unknown-Avoids :
      (service_name e : Bytes) (x : Regexes json Regex pcre_compile)
      (m : CompiledRegex json Regex pcre_compile) (gs : List Generated)
      → retrieved e x ≡ some m
      → Holds (All (Avoids e)) (publish_unknown json Regex pcre_compile service_name x gs)
  unfolding publish_unknown
  publish_unknown-Avoids service_name e x m [] h = tt
  publish_unknown-Avoids service_name e x m (g ∷ gs) h =
      Holds->>= (All (Avoids e)) (All (Avoids e))
        (publish_unknown json Regex pcre_compile service_name x gs) _
        (publish_unknown-Avoids service_name e x m gs h)
        (λ rest ok. elim (Option-cases (retrieved g.regex x)) [
          | inr (m', n) ↦ rw n ok
          | inl n ↦ rw n (
              Holds->>= (All (Avoids e)) (All (Avoids e)) (send_regex_to_kafka service_name g) _
                (send_regex_to_kafka-Avoids service_name e g
                  (λ same. some_is_not_none (sym n ∙ ap (λ (y : Bytes). retrieved y x) same ∙ h)))
                (λ sent fine. All-append (Avoids e) sent rest fine ok))
        ])

  -- The squasher's expression of a line, whose segments have no slash, backslash, quote or control
  -- character and which has less than twenty slashes, is published for a service at most until a
  -- message with what a reader of JSON makes of it has been handled, if it compiles: with the table
  -- after that, no flush publishes it for the service.
  pub publish_service-known :
      (message r : json.Object) (before : Bytes → ByService (Regexes json Regex pcre_compile))
      (service_name team rest : Bytes) (t : ByService (Regexes json Regex pcre_compile))
      (match : Regex) (names : List Bytes) (gs : List Generated) (sent : List SentRegex)
      → All Segment names
      → slashes (regex_read names) < 20
      → pcre_compile (generated names).regex ≡ some match
      → service_and_team json message ≡ some (service_name, team)
      → json.get message (codes "regex") ≡ some r
      → read_string ((generated names).regex ++ (b'"' ∷ rest)) ≡ some (json.string r, rest)
      → process_regex_message json Regex pcre_compile message before ≡ some (some (team, t))
      → publish_service json Regex pcre_compile service_name (retrieved service_name t) gs
        ≡ some sent
      → All (Avoids (generated names).regex) sent
  unfolding publish_service
  publish_service-known message r before service_name team rest t match names gs sent plain few good
        named member read taken published =
      let back = generated_back names rest plain in
      let same : regex_read names ≡ json.string r = string_of (sym back.0 ∙ read) in
      let escapes : escape_regex (json.string r) ≡ some (generated names).regex =
        ap escape_regex (sym same) ∙ back.1 few in
      let (x, m, table, there) =
        process_regex_message-Knows json Regex pcre_compile message r before service_name team
          (generated names).regex t match named member escapes good taken in
      Holds-some (All (Avoids (generated names).regex)) _
        (publish_unknown-Avoids service_name (generated names).regex x m gs there)
        (rw table at published)
