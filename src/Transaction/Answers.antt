-- ===== src/Transaction/Answers.antt =====
-- What the handler leaves behind in each of its ways out.
use tracemate.Base.{
  ℕ, ◌+◌, ◌≤◌, false, Option, none, some, [], Holds, Holds-some, Bytes, codes, Bool-cases,
  Option-cases, inl, inr, ◌⊎◌, ◌≡◌, refl, arith,
}
use tracemate.CString.{equal}
use tracemate.Message.{Json, tm_apm_server_major_version}
use tracemate.Utils.PathCheck.{is_path_ok}
use tracemate.Utils.Genericize.{Pcre, genericize_path}
use tracemate.Transaction.{
  request_count, error_count, client_error_count, server_error_count, transactional, More, Setup,
  Context,
}
use tracemate.Transaction.Request.{Seen, request_updates}
use tracemate.Transaction.Errors.{raised, request_updates-raised}
use tracemate.Transaction.Handler.{
  Part, nothing, text_of, seen_of, requested, checked, exchanged, both, inside, request_part,
  typed_part, capitals,
}

module _ (json : Json) (more : More json) (pcre : Pcre) (unescape : Bytes → Option Bytes)
    (setup : Setup pcre) (c : Context) where
  -- The updates of a request, or a return with none.
  abbrev pub Answers : Part json → Type 0
  Answers p =
      ((p.goes_on ≡ false) × (p.updates ≡ [])) ⊎ ((r : Seen) × (p.updates ≡ request_updates c r))

  checked-Answers :
      (p : Part json) (method : Bytes) (agent : Option Bytes) (code : ℕ) (path : Option Bytes)
      → p.updates ≡ []
      → Holds Answers (checked json more pcre unescape setup c p method agent code path)
  unfolding checked requested
  checked-Answers p method agent code path e = elim (Bool-cases (equal method (codes "OPTIONS"))) [
    | inl on ↦ rw on (inl (refl, e))
    | inr off ↦ rw off (elim (Bool-cases (is_path_ok unescape path)) [
      | inr bad ↦ rw bad (inl (refl, e))
      | inl ok ↦ rw ok (elim (Option-cases (genericize_path pcre setup.rules unescape path)) [
        | inl n ↦ rw n tt
        | inr (g, n) ↦ rw n (inr (seen_of json more pcre unescape setup method agent code g, refl))
      ])
    ])
  ]

  exchanged-Answers :
      (p : Part json) (req resp : json.Object) (path : Option json.Object)
      → p.updates ≡ []
      → Holds Answers (exchanged json more pcre unescape setup c p req resp path)
  unfolding exchanged
  exchanged-Answers p req resp path e =
      elim (Option-cases (capitals json (text_of json (json.get req (codes "method"))))) [
        | inl n ↦ rw n tt
        | inr (method, n) ↦ rw n (checked-Answers (record p { tokenized = _ }) method _ _ _ e)
      ]

  both-Answers :
      (p : Part json) (mv : ℕ) (m : json.Object) (req resp : Option json.Object)
      → p.updates ≡ []
      → Holds Answers (both json more pcre unescape setup c p mv m req resp)
  unfolding both
  both-Answers p mv m none resp e = inl (refl, e)
  both-Answers p mv m (some req) none e = inl (refl, e)
  both-Answers p mv m (some req) (some resp) e = exchanged-Answers p req resp _ e

  inside-Answers :
      (p : Part json) (mv : ℕ) (m : json.Object) (context : Option json.Object)
      → p.updates ≡ []
      → Holds Answers (inside json more pcre unescape setup c p mv m context)
  unfolding inside
  inside-Answers p mv m none e = inl (refl, e)
  inside-Answers p mv m (some context) e = both-Answers p mv m _ _ e

  pub request_part-Answers :
      (m trans : json.Object) → Holds Answers (request_part json more pcre unescape setup c m trans)
  unfolding request_part
  request_part-Answers m trans =
      elim (Bool-cases (more.boolean (json.get trans (codes "sampled")))) [
        | inr off ↦ rw off (inl (refl, refl))
        | inl on ↦ rw on (
            inside-Answers (record (nothing json) { service_type = some transactional })
              (tm_apm_server_major_version json (some m)) m _ refl)
      ]

  -- A transaction of the type "request" that is read to the end: where the handler does not return
  -- early, with no update at all, the updates raise the service's count of requests once, its count
  -- of errors at most once, and that by as much as those of client errors and of server errors
  -- together.
  pub typed_part-request :
      (m trans : json.Object) (p : Part json)
      → typed_part json more pcre unescape setup c m trans (codes "request") ≡ some p
      → ((p.goes_on ≡ false) × (p.updates ≡ []))
        ⊎ ((raised request_count p.updates ≡ 1)
            × (raised error_count p.updates ≤ 1)
            × (raised error_count p.updates
                ≡ raised client_error_count p.updates + raised server_error_count p.updates))
  unfolding typed_part equal
  typed_part-request m trans p e = counted (
      Holds-some Answers (request_part json more pcre unescape setup c m trans)
        (request_part-Answers m trans) e)
    where
      counted :
          Answers p
          → ((p.goes_on ≡ false) × (p.updates ≡ []))
            ⊎ ((raised request_count p.updates ≡ 1)
                × (raised error_count p.updates ≤ 1)
                × (raised error_count p.updates
                    ≡ raised client_error_count p.updates + raised server_error_count p.updates))
      counted (inl h) = inl h
      counted (inr (r, h)) = let k = request_updates-raised c r in inr (rw h (ground arith))
