-- ===== src/Fetch/Download/Invariant/Chunk.antt =====
-- `onChunk` keeps the invariant, on each of its branches.
use malcom.Prelude.{
  ℕ, zero, suc, [], ◌∷◌, sym, ap, ◌∙◌, if_cases, if_split, ◌+◌, ◌%◌, ◌^◌, ◌<◌, ◌≡◌, refl, inl, inr,
  Bool, true, false, List, Option, none, some, Bytes, arith, Option-cases, length, not, ◌||◌, ltb,
  ◌==◌, get_elem?, get_or, set, get_or-set_self, if◌then◌else◌,
}
use malcom.Prelude.Map.{string_key, bytes_equal, bytes_equal→eq}
use malcom.Fetch.Download.{PeerId, PeerStat, Job, Env, Scheduler, record_failure, failure_limit}
use malcom.Fetch.Download.FileName.{chunk_name}
use malcom.Fetch.Download.Handlers.{
  ChunkInfo, store, on_declined, on_mismatch, on_verified, judge, answered, on_chunk, responder,
  after_answer, ban_and_drop,
}
use malcom.Fetch.Download.Coverage.{
  Tracks, answered_cases, Tracks-pend, Tracks-requeue, Tracks-complete, Tracks-drop_entry,
}
use malcom.Fetch.Download.Integrity.{IsStored, IsStored-write}
use malcom.Fetch.Download.Invariant.{IsJob, Inv, dispatch-Inv}

-- Between the removal of chunk i's entry and what becomes of it: the invariant is restored if the
-- chunk is made pending, and also if it is made complete.
record Pends (job : Job) (i : ℕ) (s : Scheduler) : Type 0 where
  pended : Tracks job.chunks (set s.pending i true) s.completed s.inflight s.done_count
  completes :
      Tracks job.chunks s.pending (set s.completed i true) s.inflight ((s.done_count + 1) % 2 ^ 32)
  stored : IsStored job s.completed s.disk

lt_of_get {ℓ} : {A : Type ℓ} (xs : List A) (i : ℕ) (a : A) → get_elem? xs i ≡ some a → i < length xs
lt_of_get [] i a h = absurd (ground arith)
lt_of_get (x ∷ xs) zero a h = omega arith
lt_of_get (x ∷ xs) (suc i) a h = omega (arith, lt_of_get xs i a h)

get_or_of_get :
    (xs : List Bool) (i : ℕ) (a : Bool) → get_elem? xs i ≡ some a → get_or xs i false ≡ a
get_or_of_get [] i a h = cc
get_or_of_get (x ∷ xs) zero a h = cc
get_or_of_get (x ∷ xs) (suc i) a h = get_or_of_get xs i a h

module _ (job : Job) (env : Env) (ok : IsJob job) where
  store-Inv :
      (i : ℕ) (input : Bytes) (s : Scheduler)
      → i < job.chunks
      → get_elem? job.chunk_hashes i ≡ some (job.sha256 input)
      → Pends job i s
      → Inv job (store job env i input s)
  unfolding store
  store-Inv i input s lt good v = elim (Option-cases (env.write_error (chunk_name i) input)) [
    | inl written ↦
        rw (written, store)
          (dispatch-Inv job env _ (record {
            tracking = v.completes;
            stored = IsStored-write job s.completed s.disk i input ok.uint32 lt good v.stored;
          }))
    | inr (e, failed) ↦
        rw (failed, store)
          (dispatch-Inv job env _ (record { tracking = v.pended; stored = v.stored }))
  ]

  on_declined-Inv :
      (pid : PeerId) (i : ℕ) (st : PeerStat) (s : Scheduler)
      → Pends job i s
      → Inv job (on_declined job env pid i st s)
  unfolding on_declined
  on_declined-Inv pid i st s v =
      dispatch-Inv job env _ (record { tracking = v.pended; stored = v.stored })

  on_mismatch-Inv :
      (pid : PeerId) (i : ℕ) (st : PeerStat) (s : Scheduler)
      → Pends job i s
      → Inv job (on_mismatch job env pid i st s)
  unfolding on_mismatch ban_and_drop
  on_mismatch-Inv pid i st s v = dispatch-Inv job env _ (
      if_cases (λ t. Inv job (record t { pending = set t.pending i true }))
        (record_failure st (failure_limit st job.peer_fail_limit job.provisional_strikes)).1
        (record { tracking = v.pended; stored = v.stored })
        (record { tracking = v.pended; stored = v.stored }))

  on_verified-Inv :
      (pid : PeerId) (chunk : ChunkInfo) (st : PeerStat) (s : Scheduler)
      → chunk.index < job.chunks
      → get_elem? job.chunk_hashes chunk.index ≡ some (job.sha256 chunk.input)
      → Pends job chunk.index s
      → Inv job (on_verified job env pid chunk st s)
  unfolding on_verified
  on_verified-Inv pid chunk st s lt good v =
      store-Inv chunk.index chunk.input _ lt good
        (record { pended = v.pended; completes = v.completes; stored = v.stored })

  -- The invariant of the result, where there is one.
  abbrev pub Keeps : Option Scheduler → Type 0
  Keeps none = Unit
  Keeps (some s) = Inv job s

  judge-Inv :
      (pid : PeerId) (chunk : ChunkInfo) (st : PeerStat) (s : Scheduler)
      → chunk.index < job.chunks
      → Pends job chunk.index s
      → Keeps (judge job env pid chunk st s)
  unfolding judge
  judge-Inv pid chunk st s lt v =
      if_cases Keeps (chunk.missing || length chunk.input == 0)
        (on_declined-Inv pid chunk.index st s v)
        (compared (get_elem? job.chunk_hashes chunk.index) refl)
    where
      compared :
          (want : Option Bytes)
          → get_elem? job.chunk_hashes chunk.index ≡ want
          → Keeps (elim want as (λ _. Option Scheduler) [
            | none ↦ none
            | some h ↦
                if not (bytes_equal (job.sha256 chunk.input) h)
                then (if ltb (length h) 8
                    then none
                    else some (on_mismatch job env pid chunk.index st s))
                else some (on_verified job env pid chunk st s)
          ])
      compared none e = tt
      compared (some h) e =
          if_split Keeps (not (bytes_equal (job.sha256 chunk.input) h))
            (λ _. if_cases Keeps (ltb (length h) 8) tt (on_mismatch-Inv pid chunk.index st s v))
            (λ same.
              on_verified-Inv pid chunk st s lt
                (e ∙ ap some (sym (bytes_equal→eq (job.sha256 chunk.input) h (ground arith)))) v)

  -- What the invariant says once the entry of chunk i has been answered.
  answered-Pends :
      (pid : PeerId) (i : ℕ) (s : Scheduler) (stats : _) (seen : Bool)
      → i < job.chunks
      → get_or s.completed i false ≡ false
      → Inv job s
      → Pends job i
          (record s { had_event = seen; stats = stats; inflight = answered pid i s.inflight })
  answered-Pends pid i s stats seen lt fresh v =
      let t = v.tracking in
      let done = Tracks-complete t i lt ok.uint32 fresh in
      record {
        pended =
            answered_cases
              (λ f. Tracks job.chunks (set s.pending i true) s.completed f s.done_count) pid i
              s.inflight (Tracks-pend t i) (Tracks-requeue t i);
        completes =
            answered_cases
              (λ f.
                Tracks job.chunks s.pending (set s.completed i true) f
                  ((s.done_count + 1) % 2 ^ 32))
              pid i s.inflight done
              (Tracks-drop_entry done i
                (get_or-set_self s.completed i true false (omega (arith, t.completed_length))));
        stored = v.stored;
      }

  pub on_chunk-Inv :
      (pid : PeerId) (chunk : ChunkInfo) (s : Scheduler)
      → Inv job s
      → Keeps (on_chunk job env pid chunk s)
  unfolding on_chunk
  on_chunk-Inv pid chunk s v =
      if_cases Keeps (not (chunk.height == job.height) || not (chunk.format == job.format)) v
        (looked_up (get_elem? s.completed chunk.index) refl)
    where
      looked_up :
          (c : Option Bool)
          → get_elem? s.completed chunk.index ≡ c
          → Keeps (elim c as (λ _. Option Scheduler) [
            | none ↦ none
            | some done ↦
                if done
                then some (after_answer pid chunk.index s)
                else judge job env pid chunk (responder pid s) (after_answer pid chunk.index s)
          ])
      looked_up none e = tt
      looked_up (some true) e = record {
        tracking =
            answered_cases (λ f. Tracks job.chunks s.pending s.completed f s.done_count) pid
              chunk.index s.inflight v.tracking
              (Tracks-drop_entry v.tracking chunk.index (get_or_of_get s.completed _ _ e));
        stored = v.stored;
      }
      looked_up (some false) e =
          let lt : chunk.index < job.chunks =
            omega (arith, lt_of_get s.completed _ _ e, v.tracking.completed_length) in
          judge-Inv pid chunk _ (after_answer pid chunk.index s) lt
            (answered-Pends pid chunk.index s _ true lt (get_or_of_get s.completed _ _ e) v)
