-- ===== src/Transaction/Errors.antt =====
-- How a request is counted.
use tracemate.Base.{
  ℕ, ◌+◌, Bool, true, false, ◌&&◌, ◌||◌, Option, none, some, List, [], ◌∷◌, ◌++◌, if◌then◌else◌,
  Bytes, ◌≡◌, arith,
}
use tracemate.Transaction.{
  Kind, request_count, error_count, client_error_count, server_error_count, Subject, of, all,
  Update, histogram_update, counter_update, text_update, Context,
}
use tracemate.Transaction.Request.{
  Seen, is_client_error, is_server_error, request_updates, error_updates,
}

abbrev pub is_kind : Kind → Kind → Bool
is_kind request_count request_count = true
is_kind error_count error_count = true
is_kind client_error_count client_error_count = true
is_kind server_error_count server_error_count = true
is_kind k j = false

abbrev is_all : Subject → Bool
is_all (of name) = false
is_all all = true

abbrev is_none : Option Bytes → Bool
is_none none = true
is_none (some a) = false

-- How often a counter of the service, over all of its paths and user agents, is raised.
abbrev pub raised : Kind → List Update → ℕ
raised k [] = 0
raised k (histogram_update n d t ∷ updates) = raised k updates
raised k (text_update n s t ∷ updates) = raised k updates
raised k (counter_update n t ∷ updates) =
    (if is_kind k n.kind && is_all n.subject && is_none n.user_agent then 1 else 0)
    + raised k updates

raised-append : (k : Kind) (a b : List Update) → raised k (a ++ b) ≡ raised k a + raised k b
raised-append k [] b = omega arith
raised-append k (histogram_update n d t ∷ a) b = raised-append k a b
raised-append k (text_update n s t ∷ a) b = raised-append k a b
raised-append k (counter_update n t ∷ a) b = omega (arith, raised-append k a b)

abbrev pub once : Bool → ℕ
once b = if b then 1 else 0

-- Every request raises the service's count of requests once. The count of errors is raised once
-- where the status is from 400 to 499 or, as an `int`, 500 or more, and else not; that of client
-- errors in the first case, and that of server errors in the second.
pub request_updates-raised :
    (c : Context) (r : Seen)
    → (raised request_count (request_updates c r) ≡ 1)
      × (raised error_count (request_updates c r)
          ≡ once (is_client_error r.stat_code || is_server_error r.stat_code))
      × (raised client_error_count (request_updates c r) ≡ once (is_client_error r.stat_code))
      × (raised server_error_count (request_updates c r) ≡ once (is_server_error r.stat_code))
unfolding request_updates error_updates
request_updates-raised c r = ground arith
