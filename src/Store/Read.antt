-- ===== src/Store/Read.antt =====
-- `tm_transaction_store_get` and `_tm_transaction_store_get_children`. `none` as a result stands
-- for a failed assertion, or a record of another kind than the code takes it for.
use tracemate.Base.{
  ℕ, Bool, true, false, not, ◌&&◌, Option, none, some, List, [], ◌∷◌, ◌++◌, ltb, ◌==◌,
  if◌then◌else◌, ◌>>=◌, Bytes, length,
}
use tracemate.CString.{starts_with}
use tracemate.Message.{Json}
use tracemate.Store.{
  RootRecord, Stored, root, child, opened, trace, Lmdb, Bloom, Codec, Store, StoreEntry, Config,
  passes, Reads,
}

-- MAX_CHILD_COUNT
abbrev pub max_child_count : ℕ
max_child_count = 1000

module _ {json : Json} (codec : Codec json) where
  -- The text that was stored; `none` where it cannot be decompressed. The buffer for the text has
  -- the size that compressing the compressed bytes would need.
  unfoldable pub unpack : Bool → Bytes → Option Bytes
  unpack true bytes = codec.decompress (codec.bound (length bytes)) bytes
  unpack false bytes = some bytes

  -- The entry that is returned; `none` is NULL.
  entry_of : RootRecord → Option Bytes → Option (StoreEntry json)
  entry_of r none = none
  entry_of r (some text) = some (record {
    first_seen_ms = r.first_seen_ms;
    last_modified_ms = r.last_modified_ms;
    data_ = codec.parse text;
  })

  unfoldable pub returned : Stored → Option (Option (StoreEntry json))
  unfolding entry_of unpack
  returned (root r) = some (entry_of r (unpack r.compressed r.bytes))
  returned (child c) = none
  returned (opened ms) = none
  returned trace = none

  returned_if_any : Option Stored → Option (Option (StoreEntry json))
  unfolding returned
  returned_if_any none = some none
  returned_if_any (some v) = returned v

  module _ (lmdb : Lmdb) (bloom : Bloom) (config : Config) where
    -- Any failure of mdb_cursor_get counts as not found; the calls before it are asserted.
    look : Reads → lmdb.Db → Bytes → Option (Option Stored)
    look r db id =
        if r.begin_ok && r.open_ok then some (if r.get_ok then lmdb.get db id else none) else none

    get_current : Reads → Bytes → Store lmdb bloom → Option (Option (StoreEntry json))
    unfolding look returned_if_any
    get_current r id s =
        if passes bloom config s.current_bloom id
        then (do v ← look r s.current_env.ts id; returned_if_any v)
        else some none

    or_current :
        Option Stored → Option (Option (StoreEntry json)) → Option (Option (StoreEntry json))
    unfolding returned
    or_current none next = next
    or_current (some v) next = returned v

    -- The last environment comes first.
    unfoldable pub tm_transaction_store_get :
        Reads → Reads → Bytes → Store lmdb bloom → Option (Option (StoreEntry json))
    unfolding get_current or_current look
    tm_transaction_store_get r_last r_current id s =
        let next = get_current r_current id s in
        if passes bloom config s.last_bloom id
        then (do v ← look r_last s.last_env.ts id; or_current v next)
        else next

  -- A child's text, if the record can be decompressed and parsed.
  pub data Decoded : Type 0 where
    broken unparsed : Decoded
    parsed : json.Object → Decoded

  decoded_text : Option json.Object → Decoded
  decoded_text none = unparsed
  decoded_text (some o) = parsed o

  decoded : Option Bytes → Decoded
  unfolding decoded_text
  decoded none = broken
  decoded (some text) = decoded_text (codec.parse text)

  unfoldable pub decode_child : Stored → Option Decoded
  unfolding decoded unpack
  decode_child (child c) = some (decoded (unpack c.compressed c.bytes))
  decode_child (root r) = none
  decode_child (opened ms) = none
  decode_child trace = none

  -- `pass` is the rest of the loop. A record that cannot be decompressed ends it with no child at
  -- all.
  unfoldable pub take_child :
      Decoded
      → (List json.Object → Option (List json.Object))
      → List json.Object
      → Option (List json.Object)
  take_child broken pass found = some []
  take_child unparsed pass found = pass found
  take_child (parsed o) pass found =
      let more = found ++ o ∷ [] in
      let rest = pass more in if ltb (length more) max_child_count then rest else some more

  -- The loop over the cursor, with the children so far.
  unfoldable pub children_loop :
      Bytes → List (Bytes × Stored) → List json.Object → Option (List json.Object)
  unfolding decode_child starts_with take_child
  children_loop id [] found = some found
  children_loop id ((key, v) ∷ rest) found =
      let pass = children_loop id rest in
      if not (starts_with id key)
      then some found
      else if length key == length id
      then pass found
      else (do d ← decode_child v; take_child d pass found)

  unfoldable pub get_children : (lmdb : Lmdb) → lmdb.Db → Bytes → Option (List json.Object)
  unfolding children_loop
  get_children lmdb database id = children_loop id (lmdb.from database id) []
