-- ===== src/Store/RoundTrip.antt =====
-- What `tm_transaction_store_get` gives back of what was put.
use tracemate.Base.{◌≤◌, true, none, some, inl, inr, Bytes, length, Option-cases, ◌≡◌, refl, arith}
use tracemate.Message.{Json}
use tracemate.Store.{
  RootRecord, Stored, root, Lmdb, Bloom, Codec, CodecLaws, Store, StoreEntry, Config, passes,
  all_read,
}
use tracemate.Store.Write.{pack}
use tracemate.Store.Read.{unpack, returned, tm_transaction_store_get}

module _ (json : Json) (codec : Codec json) (codec_laws : CodecLaws json codec) where
  -- The buffer that the text is decompressed to is large enough for it.
  abbrev pub Fits : json.Object → Type 0
  Fits o =
      (c : Bytes)
      → codec.compress (codec.to_json_string o) ≡ some c
      → length (codec.to_json_string o) ≤ codec.bound (length c)

  pub unpack-pack :
      (o : json.Object)
      → Fits o
      → unpack codec (pack codec o).0 (pack codec o).1 ≡ some (codec.to_json_string o)
  unfolding pack unpack
  unpack-pack o fits = elim (Option-cases (codec.compress (codec.to_json_string o))) [
    | inl e ↦ rw (e, pack) refl
    | inr (c, e) ↦
        rw (e, pack)
          (codec_laws.decompress-compress (codec.bound (length c)) (codec.to_json_string o) c e
            (fits c e))
  ]

  -- The record holds the object.
  abbrev pub Packs : json.Object → RootRecord → Type 0
  Packs o r = (r.compressed ≡ (pack codec o).0) × (r.bytes ≡ (pack codec o).1)

  abbrev pub entry_with : RootRecord → json.Object → StoreEntry json
  entry_with r o = record {
    first_seen_ms = r.first_seen_ms;
    last_modified_ms = r.last_modified_ms;
    data_ = some o;
  }

  pub returned-Packs :
      (o : json.Object) (r : RootRecord)
      → Fits o
      → Packs o r
      → returned codec (root r) ≡ some (some (entry_with r o))
  unfolding returned
  returned-Packs o r fits p =
      rw (p.0, p.1, unpack-pack o fits, returned, codec_laws.parse-to_json_string o) refl

  module _ (lmdb : Lmdb) (bloom : Bloom) (config : Config) where
    -- Without filters, or where the filter has the key, the environment is looked into.
    abbrev pub Passes : bloom.Filter → Bytes → Type 0
    Passes filter id = passes bloom config filter id ≡ true

    pub get-last :
        (id : Bytes) (s : Store lmdb bloom) {v : Stored}
        → Passes s.last_bloom id
        → lmdb.get s.last_env.ts id ≡ some v
        → tm_transaction_store_get codec lmdb bloom config all_read all_read id s ≡ returned codec v
    unfolding tm_transaction_store_get
    get-last id s p e = rw (p, e, tm_transaction_store_get) refl

    pub get-current :
        (id : Bytes) (s : Store lmdb bloom) {v : Stored}
        → lmdb.get s.last_env.ts id ≡ none
        → Passes s.current_bloom id
        → lmdb.get s.current_env.ts id ≡ some v
        → tm_transaction_store_get codec lmdb bloom config all_read all_read id s ≡ returned codec v
    unfolding tm_transaction_store_get
    get-current id s n p e = ground arith
