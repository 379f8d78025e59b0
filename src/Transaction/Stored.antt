-- ===== src/Transaction/Stored.antt =====
-- The calls of the transaction store that a transaction makes, performed.
use tracemate.Base.{ℕ, Option, some, List, [], ◌∷◌, ◌>>=◌, Bytes, codes, ◌≡◌, ◌≢◌}
use tracemate.Message.{Json}
use tracemate.Store.{Lmdb, Bloom, Codec, Store, Config, all_read, all_written}
use tracemate.Store.Write.{
  tm_transaction_store_put, tm_transaction_store_add_child, tm_transaction_store_mark_traceable,
}
use tracemate.Transaction.{StoreCall, add_child, mark_traceable, put}

pub some-inj {ℓ} : {A : Type ℓ} {a b : A} → some a ≡ some b → a ≡ b
some-inj e = cc

-- How json-c makes objects: mtev_json_object_new_object, _new_string and _object_add.
pub record Builder (json : Json) : Type 0 where
  pub new_object : json.Object
  pub new_string : Bytes → json.Object
  pub object_add : json.Object → Bytes → json.Object → json.Object

pub record BuilderLaws (json : Json) (build : Builder json) : Type 0 where
  pub get-object_add :
      (o : json.Object) (name : Bytes) (v : json.Object)
      → json.get (build.object_add o name v) name ≡ some v
  pub get-object_add_ne :
      (o : json.Object) (name other : Bytes) (v : json.Object)
      → other ≢ name
      → json.get (build.object_add o name v) other ≡ json.get o other
  pub string-new_string : (s : Bytes) → json.string (build.new_string s) ≡ s

-- The object that is put: the message and the generic path.
unfoldable pub wrapped : {json : Json} → Builder json → json.Object → Bytes → json.Object
wrapped build m url =
    build.object_add (build.object_add build.new_object (codes "transaction") m) (codes "url")
      (build.new_string url)

-- It has the message as its transaction, and the path as its url.
abbrev pub Wraps : (json : Json) → json.Object → json.Object → Bytes → Type 0
Wraps json d m path =
    (json.get d (codes "transaction") ≡ some m)
    × ((u : json.Object) × (json.get d (codes "url") ≡ some u) × (json.string u ≡ path))

module _ (lmdb : Lmdb) (bloom : Bloom) (json : Json) (codec : Codec json) (config : Config)
    (build : Builder json) where
  -- A call of the store for a message, with every call of LMDB succeeding.
  unfoldable pub call :
      ℕ → json.Object → ℕ → StoreCall json → Store lmdb bloom → Option (Store lmdb bloom)
  unfolding wrapped tm_transaction_store_put tm_transaction_store_add_child
      tm_transaction_store_mark_traceable
  call now m ttl (add_child trace_id) s = do
    (b, t) ←
        tm_transaction_store_add_child lmdb bloom codec config all_read all_read all_written
          all_written now trace_id (some m) ttl s
    some t
  call now m ttl (mark_traceable trace_id) s =
      some (tm_transaction_store_mark_traceable lmdb bloom all_written trace_id s)
  call now m ttl (put trace_id url) s =
      some
        (tm_transaction_store_put lmdb bloom codec config all_written now trace_id
          (wrapped build m url) now ttl s).1

  unfoldable pub run_calls :
      ℕ → json.Object → ℕ → List (StoreCall json) → Store lmdb bloom → Option (Store lmdb bloom)
  unfolding call
  run_calls now m ttl [] s = some s
  run_calls now m ttl (c ∷ calls) s = do t ← call now m ttl c s; run_calls now m ttl calls t
