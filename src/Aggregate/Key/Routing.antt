-- ===== src/Aggregate/Key/Routing.antt =====
-- The keys that `build_agg_tag_string` takes part in, as `parse_key` reads them.
use tracemate.Base.{
  ℕ, ◌<◌, Bool, true, false, [], ◌∷◌, ◌++◌, none, some, Bytes, codes, length, length-append, All,
  All-append, append_assoc, ◌≡◌, ◌≢◌, refl, sym, ap, ◌∙◌, arith,
}
use tracemate.CString.{starts_with, strstr, tokens}
use tracemate.CString.Search.{strstr-append, strstr_without, lacks-All, starts_with-append}
use tracemate.CString.Tokens.{tokens-run, tokens-last}
use tracemate.Message.{Json, tm_service_name, tm_get_team}
use tracemate.Message.Tags.{build_agg_tag_string}
use tracemate.Aggregate.Key.{
  Buffers, read_tag, read_tags, with_team, tags_copy, parse_at, parse_key, overwritten, team_from,
}

-- No byte of a service's name separates tags, ends them, or splits a tag from its value.
abbrev pub IsServiceByte : ℕ → Type 0
IsServiceByte x = (x ≢ b',') × (x ≢ b']') × (x ≢ b':')

abbrev pub agg_tags : Bytes → Bytes
agg_tags service_name = codes "service:" ++ (service_name ++ codes ",host:all,ip:all")

no_comma : (s : Bytes) → All IsServiceByte s → All (λ x. x ≢ b',') s
no_comma [] h = tt
no_comma (x ∷ s) h = (h.0.0, no_comma s h.1)

no_bracket : (s : Bytes) → All IsServiceByte s → All (λ x. x ≢ b']') s
no_bracket [] h = tt
no_bracket (x ∷ s) h = (h.0.1, no_bracket s h.1)

no_colon : (s : Bytes) → All IsServiceByte s → All (λ x. x ≢ b':') s
no_colon [] h = tt
no_colon (x ∷ s) h = (h.0.2, no_colon s h.1)

abbrev service_tag : Bytes → Bytes
service_tag sn = codes "service:" ++ sn

service_start :
    (sn : Bytes) → strstr (service_tag sn) (codes "service:") ≡ some ([], service_tag sn)
unfolding strstr
service_start sn = ground (arith, starts_with-append (codes "service:") sn)

no_team_start : (sn : Bytes) → All IsServiceByte sn → strstr (service_tag sn) (codes "team:") ≡ none
unfolding strstr starts_with
no_team_start sn h = ground (arith, strstr_without (codes "team") b':' [] sn (no_colon sn h))

read_service_tag :
    (sn : Bytes) (buffers : Buffers) (team_tag : Bool)
    → All IsServiceByte sn
    → length sn < 256
    → read_tag (service_tag sn) (buffers, team_tag)
      ≡ some (record buffers { service_name = some sn }, team_tag)
unfolding read_tag overwritten
read_service_tag sn buffers team_tag h k = ground (arith, service_start sn, no_team_start sn h)

read_other_tags :
    (r : Buffers × Bool) → read_tags (codes "host:all" ∷ codes "ip:all" ∷ []) r ≡ some r
unfolding read_tags read_tag overwritten strstr starts_with
read_other_tags r = refl

tokens-agg_tags :
    (sn : Bytes)
    → All IsServiceByte sn
    → tokens b',' (agg_tags sn) ≡ service_tag sn ∷ codes "host:all" ∷ codes "ip:all" ∷ []
tokens-agg_tags sn h =
    ap (tokens b',') (sym (append_assoc (codes "service:") sn (codes ",host:all,ip:all")))
    ∙ tokens-run b',' b's' (codes "ervice:" ++ sn) (codes "host:all,ip:all") (no_comma_tag h)
    ∙ ap (◌∷◌ (service_tag sn)) (others h)
  where
    no_comma_tag : All IsServiceByte sn → All (λ x. x ≢ b',') (service_tag sn)
    no_comma_tag h =
        All-append (λ x. x ≢ b',') (codes "service:") sn (lacks-All b',' (codes "service:") refl)
          (no_comma sn h)

    others :
        All IsServiceByte sn
        → tokens b',' (codes "host:all,ip:all") ≡ codes "host:all" ∷ codes "ip:all" ∷ []
    others h =
        tokens-run b',' b'h' (codes "ost:all") (codes "ip:all")
          (lacks-All b',' (codes "host:all") refl)
        ∙ ap (◌∷◌ (codes "host:all"))
            (tokens-last b',' b'i' (codes "p:all") (lacks-All b',' (codes "ip:all") refl))

no_bracket_tags : (sn : Bytes) → All IsServiceByte sn → All (λ x. x ≢ b']') (agg_tags sn)
no_bracket_tags sn h =
    All-append (λ x. x ≢ b']') (codes "service:") (sn ++ codes ",host:all,ip:all")
      (lacks-All b']' (codes "service:") refl)
      (All-append (λ x. x ≢ b']') sn (codes ",host:all,ip:all") (no_bracket sn h)
        (lacks-All b']' (codes ",host:all,ip:all") refl))

tags_copy-agg_tags :
    (sn rest : Bytes)
    → All IsServiceByte sn
    → length sn < 256
    → tags_copy (agg_tags sn ++ (b']' ∷ rest)) ≡ some (agg_tags sn)
unfolding tags_copy
tags_copy-agg_tags sn rest h k = ground (
  arith,
  strstr-append (agg_tags sn) b']' [] rest (no_bracket_tags sn h),
  length-append (codes "service:") (sn ++ codes ",host:all,ip:all"),
  length-append sn (codes ",host:all,ip:all"),
)

-- What the loop over the tags reads from the tags of an aggregate.
read_tags-agg_tags :
    (sn : Bytes) (buffers : Buffers)
    → All IsServiceByte sn
    → length sn < 256
    → read_tags (tokens b',' (agg_tags sn)) (buffers, false)
      ≡ some (record buffers { service_name = some sn }, false)
unfolding read_tags
read_tags-agg_tags sn buffers h k = rw (tokens-agg_tags sn h) (
    ground (
      arith,
      read_service_tag sn buffers false h k,
      read_other_tags (record buffers { service_name = some sn }, false),
    ))

parse_key-agg_tags :
    (name sn rest : Bytes) (buffers : Buffers)
    → All (λ x. x ≢ b'|') name
    → All IsServiceByte sn
    → length sn < 256
    → parse_key (name ++ (codes "|ST[" ++ (agg_tags sn ++ (b']' ∷ rest)))) buffers
      ≡ some (
        true,
        record { service_name = some sn; team = team_from (tm_get_team (some sn)) buffers.team },
      )
unfolding parse_key parse_at with_team
parse_key-agg_tags name sn rest buffers n h k =
    rw (strstr-append name b'|' (codes "ST[") (agg_tags sn ++ (b']' ∷ rest)) n, parse_at)
      (ground (arith, tags_copy-agg_tags sn rest h k, read_tags-agg_tags sn buffers h k))

module _ (json : Json) where
  -- A key that is made of a metric's name without '|' and of the tags that `build_agg_tag_string`
  -- writes is read back as the message's service and its team, whatever the buffers held before.
  -- The service's name is shorter than 256 bytes and has no ',', ']' or ':'.
  pub parse_key-build_agg_tag_string :
      (m : json.Object) (name sn team tags rest : Bytes) (buffers : Buffers)
      → tm_service_name json (some m) ≡ some sn
      → tm_get_team (some sn) ≡ some team
      → build_agg_tag_string json m ≡ some tags
      → All (λ x. x ≢ b'|') name
      → All IsServiceByte sn
      → length sn < 256
      → parse_key (name ++ (codes "|ST[" ++ (tags ++ (b']' ∷ rest)))) buffers
        ≡ some (true, record { service_name = some sn; team = some team })
  unfolding build_agg_tag_string
  parse_key-build_agg_tag_string m name sn team tags rest buffers s e t n h k =
      let u : agg_tags sn ≡ tags = ground arith in
      rw (← u) (parse_key-agg_tags name sn rest buffers n h k ∙ rw e)

  -- A key that is made of a metric's name without '|' and of the tags that `build_agg_tag_string`
  -- writes for a service without a dash in its name is booked to the team that the buffer held
  -- before. The service's name is shorter than 256 bytes and has no ',', ']' or ':'.
  pub parse_key_stale :
      (m : json.Object) (name sn tags rest : Bytes) (buffers : Buffers)
      → tm_service_name json (some m) ≡ some sn
      → tm_get_team (some sn) ≡ none
      → build_agg_tag_string json m ≡ some tags
      → All (λ x. x ≢ b'|') name
      → All IsServiceByte sn
      → length sn < 256
      → parse_key (name ++ (codes "|ST[" ++ (tags ++ (b']' ∷ rest)))) buffers
        ≡ some (true, record buffers { service_name = some sn })
  unfolding build_agg_tag_string
  parse_key_stale m name sn tags rest buffers s e t n h k =
      let u : agg_tags sn ≡ tags = ground arith in
      rw (← u) (parse_key-agg_tags name sn rest buffers n h k ∙ rw e)
