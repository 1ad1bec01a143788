-- ===== src/StateSync/Reactor/Serve.antt =====
-- internal/statesync/reactor.go: `Receive` on the two requests. `accepts` says of the k-th message
-- sent in the call whether the peer's queue takes it.
use malcom.Prelude.{
  ℕ, ◌+◌, Bool, true, false, not, List, [], ◌∷◌, none, some, String, Bytes, if◌then◌else◌,
}
use malcom.StateSync.Wire.{
  Snapshot, Provider, Loaded, got, unreadable, Message, snapshots_response, chunk_response,
}
use malcom.StateSync.Reactor.Limits.{Platform, Reactor, pass_global, pass_peer}

module _ {Rate Bucket : Type 0} (lib : Platform Rate Bucket) where
  -- What every successful `Send` is followed by.
  unfoldable pub note_sent : String → Message → Reactor Rate Bucket → Reactor Rate Bucket
  note_sent id m r = record r { bytes_sent = r.bytes_sent + lib.size m; sent = (id, m) ∷ r.sent }

  unfoldable pub send_snapshots :
      String → (ℕ → Bool) → ℕ → List Snapshot → Reactor Rate Bucket → Reactor Rate Bucket
  unfolding note_sent
  send_snapshots id accepts k [] r = r
  send_snapshots id accepts k (s ∷ ss) r =
      let r' = note_sent id (snapshots_response s) r in
      send_snapshots id accepts (k + 1) ss
        (if accepts k then record r' { snapshots_served = r'.snapshots_served + 1 } else r)

  unfoldable pub receive_snapshots_request :
      String → (ℕ → Bool) → Reactor Rate Bucket → Reactor Rate Bucket
  unfolding send_snapshots
  receive_snapshots_request id accepts r = elim r.provider [
    | none ↦ r
    | some p ↦ send_snapshots id accepts 0 p.list_snapshots r
  ]

  -- The answer of the drain phase.
  unfoldable pub answer_drained :
      String → ℕ → ℕ → ℕ → Bool → Reactor Rate Bucket → Reactor Rate Bucket
  unfolding note_sent
  answer_drained id h f i ok r =
      let r' = note_sent id (chunk_response h f i [] true) r in
      if ok then record r' { chunks_drained = r'.chunks_drained + 1 } else r

  -- The answer with what `LoadChunk` returned.
  unfoldable pub answer_chunk :
      String → ℕ → ℕ → ℕ → Bool → Bytes → Bool → Reactor Rate Bucket → Reactor Rate Bucket
  unfolding note_sent
  answer_chunk id h f i ok bytes found r =
      let r' = note_sent id (chunk_response h f i bytes (not found)) r in
      if not ok
      then r
      else if found
      then record r' { chunks_served = r'.chunks_served + 1 }
      else record r' { chunks_missing = r'.chunks_missing + 1 }

  unfoldable pub load_and_answer :
      String → ℕ → ℕ → ℕ → Bool → Loaded → Reactor Rate Bucket → Reactor Rate Bucket
  unfolding answer_chunk
  load_and_answer id h f i ok (got bytes found) r = answer_chunk id h f i ok bytes found r
  load_and_answer id h f i ok unreadable r = answer_chunk id h f i ok [] false r

  -- The two buckets, the global one first.
  unfoldable pub answer_limited :
      ℕ → String → ℕ → ℕ → ℕ → Bool → Provider → Reactor Rate Bucket → Reactor Rate Bucket
  unfolding pass_global pass_peer load_and_answer
  answer_limited now id h f i ok p r =
      let (admitted, r1) = pass_global lib now r in
      let (allowed, r2) = pass_peer lib now id r1 in
      if not admitted
      then record r1 { dropped_rate_global = r1.dropped_rate_global + 1 }
      else if not allowed
      then record r2 { dropped_rate_peer = r2.dropped_rate_peer + 1 }
      else load_and_answer id h f i ok (p.load_chunk h f i) r2

  unfoldable pub receive_chunk_request :
      ℕ → String → ℕ → ℕ → ℕ → Bool → Reactor Rate Bucket → Reactor Rate Bucket
  unfolding answer_drained answer_limited
  receive_chunk_request now id h f i ok r = elim r.provider [
    | none ↦ r
    | some p ↦
        if r.shutting_down then answer_drained id h f i ok r else answer_limited now id h f i ok p r
  ]
