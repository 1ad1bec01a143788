-- ===== src/Fetch/Download/Invariant/Run.antt =====
-- What a download run promises.
use malcom.Prelude.{
  ℕ, ◌<◌, ◌≤◌, ◌≡◌, ◌≢◌, refl, List, [], ◌∷◌, Option, none, some, Bytes, arith, count, ap, ◌∙◌,
  count-le-length, count_full,
}
use malcom.Prelude.Map.{Map}
use malcom.Fetch.Download.{PeerId, Job, Env, Scheduler}
use malcom.Fetch.Download.Handlers.{Event, connected, removed, chunk_response, other, on_event}
use malcom.Fetch.Download.Resume.{Entry, new_scheduler, initialize}
use malcom.Fetch.Download.Run.{
  Result, finished, waiting, Input, done, tick, event, Next, go, halt, stop_reason, take_input, run,
}
use malcom.Fetch.Download.Coverage.{IsCovered}
use malcom.Fetch.Download.Integrity.{HasFile}
use malcom.Fetch.Download.Invariant.{
  IsJob, Inv, on_connect-Inv, on_removed-Inv, on_timeout_tick-Inv,
}
use malcom.Fetch.Download.Invariant.Chunk.{Keeps, on_chunk-Inv}
use malcom.Fetch.Download.Invariant.Resume.{IsDistinct, initialize-Inv}

module _ (job : Job) (ok : IsJob job) where
  on_event-Inv :
      (env : Env) (e : Event) (s : Scheduler) → Inv job s → Keeps job env ok (on_event job env e s)
  unfolding on_event
  on_event-Inv env (connected pid) s v = on_connect-Inv job env pid s v
  on_event-Inv env (removed pid) s v = on_removed-Inv job env pid s v
  on_event-Inv env (chunk_response pid chunk) s v = on_chunk-Inv job env ok pid chunk s v
  on_event-Inv env other s v = v

  abbrev KeepsNext : Next → Type 0
  KeepsNext (go s) = Inv job s
  KeepsNext (halt r) = (r ≢ finished)

  take_input-Inv :
      (env : Env) (i : Input) (s : Scheduler) → Inv job s → KeepsNext (take_input job env i s)
  unfolding take_input
  take_input-Inv env done s v = λ e. cc
  take_input-Inv env tick s v = on_timeout_tick-Inv job env s v
  take_input-Inv env (event e) s v = lifted (on_event job env e s) (on_event-Inv env e s v)
    where
      lifted :
          (o : Option Scheduler)
          → Keeps job env ok o
          → KeepsNext (elim o as (λ _. Next) [ none ↦ halt Result.panicked | some t ↦ go t ])
      lifted none k = λ e. cc
      lifted (some t) k = k

  -- The stop test says `finished` only when the counter has reached the number of chunks.
  finished_counts : (s : Scheduler) → stop_reason job s ≡ some finished → job.chunks ≤ s.done_count
  unfolding stop_reason
  finished_counts s e = ground arith

  all_complete :
      (s : Scheduler)
      → Inv job s
      → job.chunks ≤ s.done_count
      → (i : ℕ) → i < job.chunks
      → HasFile job s.disk i
  all_complete s v enough i lt =
      let t = v.tracking in
      v.stored i lt (
        count_full s.completed i
          (omega (arith, t.counted, t.completed_length, count-le-length s.completed))
          (omega (arith, t.completed_length)))

  -- What holds where a run stops.
  abbrev Ends : Scheduler × Result → Type 0
  Ends e = Inv job e.0 × (e.1 ≡ finished → job.chunks ≤ e.0.done_count)

  run-Ends : (schedule : List (Env × Input)) (s : Scheduler) → Inv job s → Ends (run job schedule s)
  unfolding run
  run-Ends [] s v = stopped (stop_reason job s) refl
    where
      stopped :
          (r : Option Result)
          → stop_reason job s ≡ r
          → Ends (elim r as (λ _. Scheduler × Result) [ none ↦ (s, waiting) | some r' ↦ (s, r') ])
      stopped none e = (v, λ f. cc)
      stopped (some r') e = (v, λ f. finished_counts s (e ∙ ap some f))
  run-Ends ((env, i) ∷ rest) s v = tested (stop_reason job s) refl (λ s' v'. run-Ends rest s' v')
    where
      taken :
          (n : Next)
          → KeepsNext n
          → ((s' : Scheduler) → Inv job s' → Ends (run job rest s'))
          → Ends (elim n as (λ _. Scheduler × Result) [ halt r ↦ (s, r) | go s' ↦ run job rest s' ])
      taken (halt r) k ih = (v, λ f. absurd (k f))
      taken (go s') k ih = ih s' k

      tested :
          (r : Option Result)
          → stop_reason job s ≡ r
          → ((s' : Scheduler) → Inv job s' → Ends (run job rest s'))
          → Ends (elim r as (λ _. Scheduler × Result) [
            | some r' ↦ (s, r')
            | none ↦ elim (take_input job env i s) as (λ _. Scheduler × Result) [
              | halt r' ↦ (s, r')
              | go s' ↦ run job rest s'
            ]
          ])
      tested (some r') e ih = (v, λ f. finished_counts s (e ∙ ap some f))
      tested none e ih = taken (take_input job env i s) (take_input-Inv env i s v) ih

-- A download over any directory, peers and schedule of events.
abbrev pub download_run :
    Job → Env → List PeerId → List Entry → Map Bytes Bytes → List (Env × Input) → Scheduler × Result
download_run job env good entries disk schedule =
    run job schedule (initialize job env good entries (new_scheduler job disk))

-- A download that reports success has, for every chunk, a file whose name stands for the chunk's
-- index and whose contents have the SHA-256 that the offer's metadata gives: whatever the peers
-- sent, in whatever order events came, and whatever an earlier run left in the directory. The job
-- has one hash for each chunk, and the directory lists each name once.
pub finished-HasFile :
    (job : Job) (env : Env) (good : List PeerId) (entries : List Entry) (disk : Map Bytes Bytes)
    (schedule : List (Env × Input))
    → IsJob job
    → IsDistinct entries
    → (download_run job env good entries disk schedule).1 ≡ finished
    → (i : ℕ) → i < job.chunks
    → HasFile job (download_run job env good entries disk schedule).0.disk i
finished-HasFile job env good entries disk schedule ok distinct ended i lt =
    let (v, enough) =
      run-Ends job ok schedule _ (initialize-Inv job env good entries disk ok distinct) in
    all_complete job ok _ v (enough ended) i lt

-- At every moment of a download each chunk is pending, in flight or complete, so none is forgotten;
-- and the counter that ends the loop is the number of complete chunks. The job has one hash for each
-- chunk, and the directory lists each name once.
pub run-covers :
    (job : Job) (env : Env) (good : List PeerId) (entries : List Entry) (disk : Map Bytes Bytes)
    (schedule : List (Env × Input))
    → IsJob job
    → IsDistinct entries
    → (i : ℕ) → i < job.chunks
    → let s = (download_run job env good entries disk schedule).0 in
      (s.done_count ≡ count s.completed) × IsCovered s.pending s.completed s.inflight i
run-covers job env good entries disk schedule ok distinct i lt =
    let (v, _) =
      run-Ends job ok schedule _ (initialize-Inv job env good entries disk ok distinct) in
    (v.tracking.counted, v.tracking.covered i lt)
