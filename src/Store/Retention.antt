-- ===== src/Store/Retention.antt =====
-- A transaction stays available under its id until the second rotation after its put.
use tracemate.Base.{ℕ, Option, none, some, Bytes, ◌≡◌}
use tracemate.Message.{Json}
use tracemate.Store.{
  RootRecord, root, Lmdb, LmdbLaws, Bloom, BloomLaws, Codec, CodecLaws, Store, StoreEntry, Config,
}
use tracemate.Store.Write.{Which, in_current, in_last}
use tracemate.Store.RoundTrip.{Packs, Passes}
use tracemate.Store.Steps.{get_in, Kept}

abbrev bloom_of : {lmdb : Lmdb} {bloom : Bloom} → Which → Store lmdb bloom → bloom.Filter
bloom_of in_current s = s.current_bloom
bloom_of in_last s = s.last_bloom

module _ (lmdb : Lmdb) (laws : LmdbLaws lmdb) (bloom : Bloom) (bloom_laws : BloomLaws bloom)
    (json : Json) (codec : Codec json) (codec_laws : CodecLaws json codec) (config : Config) where
  abbrev stamped : json.Object → ℕ → ℕ → Option (Option (StoreEntry json))
  stamped o m ms = some (some (record { first_seen_ms = ms; last_modified_ms = m; data_ = some o }))

  -- The object stands under the id where a search finds it.
  record HeldIn (o : json.Object) (first_seen_ms : ℕ) (id : Bytes) (p : Which)
      (s : Store lmdb bloom) : Type 0 where
    pub kept : RootRecord
    pub found : get_in lmdb laws bloom p s id ≡ some (root kept)
    pub packs : Packs json codec codec_laws o kept
    pub seen : kept.first_seen_ms ≡ first_seen_ms
    pub passes : Passes json codec codec_laws lmdb bloom config (bloom_of p s) id
    pub first : p ≡ in_current → get_in lmdb laws bloom in_last s id ≡ none
