-- ===== src/Transaction/Handler.antt =====
-- The branches of `process_transaction_message` for the types of a transaction. `none` as a result
-- stands for a program that goes wrong: a NULL string that is read, a method that overruns its
-- buffer, or the team's name that is read before it is set.
use tracemate.Base.{
  ℕ, ◌-◌, Bool, true, false, not, ◌&&◌, ◌||◌, Option, none, some, List, [], ◌∷◌, leb, ltb, ◌==◌,
  if◌then◌else◌, ◌>>=◌, Bytes, codes, length, map,
}
use tracemate.CString.{equal, tokens}
use tracemate.Message.{Json, tm_apm_server_major_version}
use tracemate.Utils.PathCheck.{is_path_ok}
use tracemate.Utils.Genericize.{Pcre, Generic, genericize_path}
use tracemate.Transaction.{
  More, ServiceType, transactional, message, scheduled, Update, Setup, Context, named_updates,
}
use tracemate.Transaction.Request.{Seen, request_updates}

-- toupper in the C locale
abbrev toupper : ℕ → ℕ
toupper c = if leb b'a' c && leb c b'z' then c - 32 else c

module _ (json : Json) where
  -- What the branch for the type does; `tokenized` is the object whose text strtok_r cut, and the
  -- handler returns where `goes_on` is not set. The type is set for a service that is known.
  pub record Part : Type 0 where
    pub updates : List Update
    pub service_type : Option ServiceType
    pub tokenized : Option json.Object
    pub clean_path : Option Bytes
    pub sent : List Bytes
    pub errored : ℕ
    pub filtered : ℕ
    pub goes_on : Bool

  abbrev pub nothing : Part
  nothing = record {
    updates = [];
    service_type = none;
    tokenized = none;
    clean_path = none;
    sent = [];
    errored = 0;
    filtered = 0;
    goes_on = true;
  }

  abbrev pub malformed : Part → Part
  malformed p = record p { errored = 1; goes_on = false }

  abbrev pub left_out : Part → Part
  left_out p = record p { filtered = 1; goes_on = false }

  abbrev pub or_null : Option json.Object → Bytes
  or_null none = codes "(null)"
  or_null (some o) = json.string o

  abbrev pub text_of : Option json.Object → Option Bytes
  text_of none = none
  text_of (some o) = some (json.string o)

  abbrev int_of : Option json.Object → ℕ
  int_of none = 0
  int_of (some o) = json.int o

  abbrev pub uint64_of : Option json.Object → ℕ
  uint64_of none = 0
  uint64_of (some o) = json.uint64 o

  -- A member of an object that may be NULL.
  abbrev sub : Option json.Object → Bytes → Option json.Object
  sub none name = none
  sub (some o) name = json.get o name

  unfoldable pub named_part : Context → ServiceType → json.Object → Part
  unfolding named_updates
  named_part c t trans = record nothing {
    updates = named_updates c (or_null (json.get trans (codes "name")));
    service_type = some t;
  }

  -- The method in capitals, in 16 bytes.
  unfoldable pub capitals : Option Bytes → Option Bytes
  capitals none = none
  capitals (some meth) = if ltb (length meth) 16 then some (map toupper meth) else none

  module _ (more : More json) where
    -- The object that holds the user agent.
    user_agent_object : Option json.Object → Option json.Object
    user_agent_object headers = do
      h ← headers
      a ← json.get h (codes "User-Agent")
      more.array_get_idx_0 a

    -- The first token, if there is one.
    or_other : List Bytes → Bytes
    or_other [] = codes "Other"
    or_other (word ∷ words) = word

    user_agent_of : Option json.Object → Option Bytes
    unfolding tokens or_other
    user_agent_of none = none
    user_agent_of (some o) = some (more.b64_encode (or_other (tokens b' ' (json.string o))))

    module _ (pcre : Pcre) (unescape : Bytes → Option Bytes) (setup : Setup pcre) where
      abbrev pub seen_of : Bytes → Option Bytes → ℕ → Generic → Seen
      seen_of method user_agent stat_code g = record {
        clean_path = g.path;
        method = method;
        stat_code = stat_code;
        user_agent = user_agent;
        sc = more.print_int stat_code;
      }

      unfoldable pub requested : Context → Part → Bytes → Option Bytes → ℕ → Generic → Part
      requested c p method user_agent stat_code g = record p {
        updates = request_updates c (seen_of method user_agent stat_code g);
        clean_path = some g.path;
        sent = g.sent;
      }

      unfoldable pub checked :
          Context → Part → Bytes → Option Bytes → ℕ → Option Bytes → Option Part
      unfolding requested is_path_ok genericize_path
      checked c p method user_agent stat_code path =
          if equal method (codes "OPTIONS")
          then some (left_out p)
          else if not (is_path_ok unescape path)
          then some (left_out p)
          else (do
            g ← genericize_path pcre setup.rules unescape path
            some (requested c p method user_agent stat_code g))

      -- With the objects "request" and "response".
      unfoldable pub exchanged :
          Context → Part → json.Object → json.Object → Option json.Object → Option Part
      unfolding checked capitals user_agent_of user_agent_object
      exchanged c p req resp path = do
        let agent = user_agent_object (json.get req (codes "headers"))
        method ← capitals (text_of (json.get req (codes "method")))
        checked c (record p { tokenized = agent }) method (user_agent_of agent)
            (int_of (json.get resp (codes "status_code"))) (text_of path)

      -- The object "context" or "http", which the version decides; before 6 there is none.
      abbrev pub outer : ℕ → json.Object → Option json.Object
      outer mv m =
          if mv == 6
          then json.get m (codes "context")
          else if ltb 6 mv
          then json.get m (codes "http")
          else none

      abbrev pub path_of : ℕ → json.Object → json.Object → Option json.Object
      path_of mv m req =
          if mv == 6
          then sub (json.get req (codes "url")) (codes "pathname")
          else if ltb 6 mv
          then sub (json.get m (codes "url")) (codes "path")
          else none

      unfoldable pub both :
          Context → Part → ℕ → json.Object → Option json.Object → Option json.Object → Option Part
      unfolding exchanged
      both c p mv m none resp = some (malformed p)
      both c p mv m (some req) none = some (malformed p)
      both c p mv m (some req) (some resp) = exchanged c p req resp (path_of mv m req)

      unfoldable pub inside : Context → Part → ℕ → json.Object → Option json.Object → Option Part
      unfolding both
      inside c p mv m none = some (malformed p)
      inside c p mv m (some context) =
          both c p mv m (json.get context (codes "request")) (json.get context (codes "response"))

      unfoldable pub request_part : Context → json.Object → json.Object → Option Part
      unfolding inside
      request_part c m trans =
          let p = record nothing { service_type = some transactional } in
          let mv = tm_apm_server_major_version json (some m) in
          if not (more.boolean (json.get trans (codes "sampled")))
          then some (malformed p)
          else inside c p mv m (outer mv m)

      unfoldable pub typed_part : Context → json.Object → json.Object → Bytes → Option Part
      unfolding request_part named_part equal
      typed_part c m trans type =
          if equal type (codes "message_read") || equal type (codes "messaging")
          then some (named_part c message trans)
          else if equal type (codes "scheduled")
          then some (named_part c scheduled trans)
          else if equal type (codes "request")
          then request_part c m trans
          else if equal type (codes "page-load")
          then some (record nothing { service_type = some transactional })
          else some nothing
