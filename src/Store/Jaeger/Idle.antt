-- ===== src/Store/Jaeger/Idle.antt =====
-- When the search for settled traces finds none.
use tracemate.Base.{
  ℕ, ◌<◌, true, none, some, List, [], ◌∷◌, inl, inr, Bytes, All, ◌≡◌, ◌⊎◌, refl, arith,
}
use tracemate.Message.{Json}
use tracemate.Store.{
  RootRecord, Stored, root, child, opened, trace, Lmdb, Bloom, Codec, Env, Store, Config,
}
use tracemate.Store.Write.{Which, in_current, in_last}
use tracemate.Store.Jaeger.Process.{
  Delete, Progress, next, leads_to, process_record, marks_loop, settled_before,
  tm_transaction_store_process_jaeger,
}

module _ (lmdb : Lmdb) where
  -- A mark "trace" whose root the same environment does not have, or a root that changed too late.
  abbrev pub IsIdle : Env lmdb → ℕ → Bytes × Stored → Type 0
  IsIdle env time_ms (key, trace) =
      (lmdb.get env.ts key ≡ none)
      ⊎ ((r : RootRecord) × (lmdb.get env.ts key ≡ some (root r)) × (time_ms < r.last_modified_ms))
  IsIdle env time_ms (key, root r) = time_ms < r.last_modified_ms
  IsIdle env time_ms (key, child c) = ⊥
  IsIdle env time_ms (key, opened ms) = ⊥

  module _ (bloom : Bloom) (json : Json) (codec : Codec json) where
    process_record_idle :
        (d : Delete) (p : Which) (env : Env lmdb) (time_ms : ℕ) (key : Bytes) (v : Stored)
        (g : Progress lmdb bloom json)
        → IsIdle env time_ms (key, v)
        → process_record lmdb bloom json codec d p env time_ms key (leads_to lmdb p env key v) g
          ≡ some (next g)
    unfolding process_record leads_to
    process_record_idle d in_current env time_ms key trace g (inl n) = rw n refl
    process_record_idle d in_last env time_ms key trace g (inl n) = rw n refl
    process_record_idle d in_current env time_ms key trace g (inr (r, e, lt)) = rw e (ground arith)
    process_record_idle d in_last env time_ms key trace g (inr (r, e, lt)) = rw e (ground arith)
    process_record_idle d p env time_ms key (root r) g lt = ground arith
    process_record_idle d p env time_ms key (child c) g h = absurd h
    process_record_idle d p env time_ms key (opened ms) g h = absurd h

    marks_loop_idle :
        (answer : Bytes → Delete) (p : Which) (env : Env lmdb) (time_ms : ℕ)
        (marks : List (Bytes × Stored)) (g : Progress lmdb bloom json)
        → All (IsIdle env time_ms) marks
        → marks_loop lmdb bloom json codec answer p env time_ms marks g ≡ some (next g)
    unfolding marks_loop
    marks_loop_idle answer p env time_ms [] g h = refl
    marks_loop_idle answer p env time_ms ((key, v) ∷ marks) g h =
        rw (process_record_idle (answer key) p env time_ms key v g h.0)
          (marks_loop_idle answer p env time_ms marks g h.1)

    -- Where both environments can be opened, and every mark of either is of a trace whose root
    -- changed within the lookback, or of one whose root that environment does not have, even if the
    -- other one has it, nothing is sent, the store stays as it is and the answer is 0.
    pub process_jaeger_idle :
        (config : Config) (answer : Which → Bytes → Delete) (now : ℕ) (s : Store lmdb bloom)
        → All
            (IsIdle s.current_env (settled_before lmdb bloom json codec config now))
            (lmdb.entries s.current_env.jaeger)
        → All
            (IsIdle s.last_env (settled_before lmdb bloom json codec config now))
            (lmdb.entries s.last_env.jaeger)
        → tm_transaction_store_process_jaeger lmdb bloom json codec config (λ p. true) answer now s
          ≡ some (0, [], s)
    unfolding tm_transaction_store_process_jaeger
    process_jaeger_idle config answer now s c l =
        let time_ms = settled_before lmdb bloom json codec config now in
        let g : Progress lmdb bloom json = record { jaegered_count = 0; events = []; store = s } in
        rw (marks_loop_idle (answer in_current) in_current s.current_env time_ms _ g c)
          (rw (marks_loop_idle (answer in_last) in_last s.last_env time_ms _ g l) refl)
