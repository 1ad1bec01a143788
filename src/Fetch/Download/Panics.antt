-- ===== src/Fetch/Download/Panics.antt =====
-- When a chunk event crashes the scheduler.
use malcom.Prelude.{
  ℕ, zero, suc, ◌<◌, ◌≤◌, ◌≡◌, ◌≢◌, refl, ◌∙◌, false, List, [], ◌∷◌, none, some, Bytes, arith,
  length, ◌==◌, ltb, not, ◌||◌, get_elem?, if_cases,
}
use malcom.Prelude.Map.{bytes_equal}
use malcom.Fetch.Download.{PeerId, PeerStat, Job, Env, Scheduler}
use malcom.Fetch.Download.Handlers.{ChunkInfo, responder, after_answer, judge, on_chunk}
use malcom.Fetch.Download.Invariant.{Inv}

get_past {ℓ} : {A : Type ℓ} (xs : List A) (i : ℕ) → length xs ≤ i → get_elem? xs i ≡ none
get_past [] i h = refl
get_past (x ∷ xs) zero h = absurd (omega arith)
get_past (x ∷ xs) (suc i) h = get_past xs i (omega arith)

get_some {ℓ} :
    {A : Type ℓ} (xs : List A) (i : ℕ) → i < length xs → (a : A) × (get_elem? xs i ≡ some a)
get_some [] i h = absurd (omega arith)
get_some (x ∷ xs) zero h = (x, refl)
get_some (x ∷ xs) (suc i) h = get_some xs i (omega arith)

-- In a state with the invariant, a response for the wanted snapshot with an index from the number of
-- chunks on crashes the scheduler, whoever sends it and whatever was asked for.
pub on_chunk-out_of_range :
    (job : Job) (env : Env) (pid : PeerId) (chunk : ChunkInfo) (s : Scheduler)
    → Inv job s
    → chunk.height ≡ job.height
    → chunk.format ≡ job.format
    → job.chunks ≤ chunk.index
    → on_chunk job env pid chunk s ≡ none
unfolding on_chunk
on_chunk-out_of_range job env pid chunk s v h f le =
    rw (get_past s.completed chunk.index (omega (arith, v.tracking.completed_length)), on_chunk)
      (ground arith)

-- The expected hash of chunk i.
abbrev IsExpected : Job → ℕ → Bytes → Type 0
IsExpected job i want = get_elem? job.chunk_hashes i ≡ some want

on_chunk_open :
    (job : Job) (env : Env) (pid : PeerId) (chunk : ChunkInfo) (s : Scheduler)
    → chunk.height ≡ job.height
    → chunk.format ≡ job.format
    → get_elem? s.completed chunk.index ≡ some false
    → on_chunk job env pid chunk s
      ≡ judge job env pid chunk (responder pid s) (after_answer pid chunk.index s)
unfolding on_chunk
on_chunk_open job env pid chunk s h f open_ = rw (open_, on_chunk) (ground arith)

judge-short :
    (job : Job) (env : Env) (pid : PeerId) (chunk : ChunkInfo) (st : PeerStat) (s : Scheduler)
    (want : Bytes)
    → chunk.missing ≡ false
    → chunk.input ≢ []
    → IsExpected job chunk.index want
    → bytes_equal (job.sha256 chunk.input) want ≡ false
    → length want < 8
    → judge job env pid chunk st s ≡ none
unfolding judge
judge-short job env pid chunk st s want present some_bytes expected differs short =
    rw (present, nonempty chunk.input some_bytes, expected, judge) (rw differs (ground arith))
  where
    nonempty : (b : Bytes) → b ≢ [] → (length b == 0) ≡ false
    nonempty [] h = absurd (h refl)
    nonempty (x ∷ xs) h = ground arith

-- A response for the wanted snapshot and an incomplete chunk, with bytes that do not have the expected
-- hash, crashes the scheduler if the expected hash is shorter than eight bytes.
on_chunk-short_hash :
    (job : Job) (env : Env) (pid : PeerId) (chunk : ChunkInfo) (s : Scheduler) (want : Bytes)
    → chunk.height ≡ job.height
    → chunk.format ≡ job.format
    → get_elem? s.completed chunk.index ≡ some false
    → chunk.missing ≡ false
    → chunk.input ≢ []
    → IsExpected job chunk.index want
    → bytes_equal (job.sha256 chunk.input) want ≡ false
    → length want < 8
    → on_chunk job env pid chunk s ≡ none
on_chunk-short_hash job env pid chunk s want h f open_ present some_bytes expected differs short =
    on_chunk_open job env pid chunk s h f open_
    ∙ judge-short job env pid chunk (responder pid s) (after_answer pid chunk.index s) want present
        some_bytes expected differs short

judge-ne-none :
    (job : Job) (env : Env) (pid : PeerId) (chunk : ChunkInfo) (st : PeerStat) (s : Scheduler)
    (want : Bytes)
    → IsExpected job chunk.index want
    → 8 ≤ length want
    → judge job env pid chunk st s ≢ none
unfolding judge
judge-ne-none job env pid chunk st s want expected long =
    if_cases (λ o. o ≢ none) (chunk.missing || length chunk.input == 0) (λ e. cc)
      (rw (expected, judge)
        (if_cases (λ o. o ≢ none) (not (bytes_equal (job.sha256 chunk.input) want))
          (rw (long_enough long) (λ e. cc)) (λ e. cc)))
  where
    long_enough : 8 ≤ length want → ltb (length want) 8 ≡ false
    long_enough l = ground arith

-- In a state with the invariant, a response with an index in range is handled without a panic if the
-- hash expected for its chunk has eight bytes or more.
pub on_chunk-ne-none :
    (job : Job) (env : Env) (pid : PeerId) (chunk : ChunkInfo) (s : Scheduler) (want : Bytes)
    → Inv job s
    → chunk.index < job.chunks
    → IsExpected job chunk.index want
    → 8 ≤ length want
    → on_chunk job env pid chunk s ≢ none
unfolding on_chunk
on_chunk-ne-none job env pid chunk s want v lt expected long =
    if_cases (λ o. o ≢ none) (not (chunk.height == job.height) || not (chunk.format == job.format))
      (λ e. cc)
      (let (d, e) = get_some s.completed chunk.index (omega (arith, v.tracking.completed_length)) in
        rw (e, on_chunk)
          (if_cases (λ o. o ≢ none) d (λ n. cc)
            (judge-ne-none job env pid chunk (responder pid s) (after_answer pid chunk.index s) want
              expected long)))
