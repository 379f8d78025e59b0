-- ===== src/Spans/Hosts.antt =====
-- The tags of the host where a team does not collect metrics of its hosts.
use tracemate.Base.{
  ℕ, ◌+◌, false, none, some, List, [], ◌∷◌, if◌then◌else◌, not, Bytes, ◌≡◌, ◌≢◌, arith,
}
use tracemate.CString.{equal}
use tracemate.CString.Search.{equal_iff, equal_self}
use tracemate.Transaction.{Context}
use tracemate.Spans.{SpanUpdate, measured, counted}
use tracemate.Spans.Updates.{subtype_updates, db_updates, external_updates, internal_updates}

abbrev tags_of : SpanUpdate → Bytes
tags_of (measured n d t) = n.tags
tags_of (counted n t) = n.tags

-- How many updates have other tags.
abbrev pub others : Bytes → List SpanUpdate → ℕ
others agg [] = 0
others agg (u ∷ updates) = (if not (equal (tags_of u) agg) then 1 else 0) + others agg updates

-- Where the team does not collect metrics of its hosts, and the host's tags are not those over all
-- hosts, the updates of an external or internal span, and of one of a database without a subtype,
-- all have the tags over all hosts; of one of a database with a subtype, one update has the host's.
pub others_host_level_off :
    (c : Context) (name subtype : Bytes)
    → c.collect_host_level_metrics ≡ false
    → c.tag_string ≢ c.agg_tag_string
    → (others c.agg_tag_string (external_updates c name) ≡ 0)
      × (others c.agg_tag_string (internal_updates c name) ≡ 0)
      × (others c.agg_tag_string (db_updates c name none) ≡ 0)
      × (others c.agg_tag_string (db_updates c name (some subtype)) ≡ 1)
unfolding external_updates internal_updates db_updates subtype_updates
others_host_level_off c name subtype off ne =
    ground (arith, equal_self c.agg_tag_string, equal_iff c.tag_string c.agg_tag_string)
