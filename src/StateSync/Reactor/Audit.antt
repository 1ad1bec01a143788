-- ===== src/StateSync/Reactor/Audit.antt =====
-- internal/statesync/reactor.go: the counters agree with what the peers' queues took.
use malcom.Prelude.{
  ℕ, ◌+◌, ◌≤◌, ◌≡◌, refl, Bool, true, false, List, [], ◌∷◌, Option, none, some, String, Bytes,
  length, length-append, arith, if_cases,
}
use malcom.StateSync.Wire.{
  connected_event, removed_event, Event, Snapshot, Provider, Loaded, got, unreadable, Message,
  snapshots_request, snapshots_response, chunk_request, chunk_response, other,
}
use malcom.StateSync.Reactor.Limits.{
  Platform, Reactor, limits_peers, publish_out, publish_chunk, sweep_stale_limiters,
  set_chunk_rate_limit, set_removed_at, new_reactor,
}
use malcom.StateSync.Reactor.Serve.{
  note_sent, send_snapshots, receive_snapshots_request, answer_drained, answer_chunk,
  load_and_answer, receive_chunk_request,
}
use malcom.StateSync.Reactor.Rule.{receive_chunk_request_rule}
use malcom.StateSync.Reactor.{
  Call, System, take_event, on_add_peer, on_remove_peer, on_request_chunk, on_receive, dispatch,
  on_call, step, run, start, set_provider, set_probe, limit_rate, begin_shutdown, add_peer,
  remove_peer, request_chunk, receive, take_out, take_chunk,
}

abbrev pub tally : (Message → ℕ) → List (String × Message) → ℕ
tally weight [] = 0
tally weight ((id, m) ∷ ms) = weight m + tally weight ms

abbrev is_offer : Message → ℕ
is_offer (snapshots_response s) = 1
is_offer _ = 0

abbrev pub is_payload : Message → ℕ
is_payload (chunk_response h f i bytes false) = 1
is_payload _ = 0

abbrev is_refusal : Message → ℕ
is_refusal (chunk_response h f i bytes true) = 1
is_refusal _ = 0

-- The counters against what was sent, for the size of a message.
pub record Books (size : Message → ℕ) (sent : List (String × Message))
    (bytes_sent snapshots_served chunks_served chunks_missing chunks_drained : ℕ)
    (out out_chunks : List Event) : Type 0 where
  pub bytes : bytes_sent ≡ tally size sent
  pub offers : snapshots_served ≡ tally is_offer sent
  pub payloads : chunks_served ≡ tally is_payload sent
  pub refusals : chunks_missing + chunks_drained ≡ tally is_refusal sent
  pub bounded : length out ≤ 256
  pub bounded_chunks : length out_chunks ≤ 8

module _ {Rate Bucket : Type 0} (lib : Platform Rate Bucket) where
  abbrev pub IsAudited : Reactor Rate Bucket → Type 0
  IsAudited r =
      Books lib.size r.sent r.bytes_sent r.snapshots_served r.chunks_served r.chunks_missing
        r.chunks_drained r.out r.out_chunks

  drained_to :
      (r : Reactor Rate Bucket) {evs chunks : List Event}
      → IsAudited r
      → length evs ≤ 256
      → length chunks ≤ 8
      → IsAudited record r { out = evs; out_chunks = chunks }
  drained_to r a p q = record {
    bytes = a.bytes;
    offers = a.offers;
    payloads = a.payloads;
    refusals = a.refusals;
    bounded = p;
    bounded_chunks = q;
  }

  answer_drained-IsAudited :
      (id : String) (h f i : ℕ) (ok : Bool) (r : Reactor Rate Bucket)
      → IsAudited r
      → IsAudited (answer_drained lib id h f i ok r)
  unfolding answer_drained
  answer_drained-IsAudited id h f i ok r a = ground arith

  answer_chunk-IsAudited :
      (id : String) (h f i : ℕ) (ok : Bool) (bytes : Bytes) (found : Bool) (r : Reactor Rate Bucket)
      → IsAudited r
      → IsAudited (answer_chunk lib id h f i ok bytes found r)
  unfolding answer_chunk
  answer_chunk-IsAudited id h f i ok bytes true r a = ground arith
  answer_chunk-IsAudited id h f i ok bytes false r a = ground arith

  load_and_answer-IsAudited :
      (id : String) (h f i : ℕ) (ok : Bool) (l : Loaded) (r : Reactor Rate Bucket)
      → IsAudited r
      → IsAudited (load_and_answer lib id h f i ok l r)
  unfolding load_and_answer
  load_and_answer-IsAudited id h f i ok (got bytes found) r a =
      answer_chunk-IsAudited id h f i ok bytes found r a
  load_and_answer-IsAudited id h f i ok unreadable r a =
      answer_chunk-IsAudited id h f i ok [] false r a

  receive_chunk_request-IsAudited :
      (now : ℕ) (id : String) (h f i : ℕ) (ok : Bool) (r : Reactor Rate Bucket)
      → IsAudited r
      → IsAudited (receive_chunk_request lib now id h f i ok r)
  receive_chunk_request-IsAudited now id h f i ok r a =
      receive_chunk_request_rule lib IsAudited r now id h f i ok (λ _. a)
        (λ _. answer_drained-IsAudited id h f i ok r a) (λ g _. a) (λ g m _ _. a)
        (λ p g m _ _ _. load_and_answer-IsAudited id h f i ok (p.load_chunk h f i) _ a)

  send_snapshots-IsAudited :
      (id : String) (accepts : ℕ → Bool) (k : ℕ) (ss : List Snapshot) (r : Reactor Rate Bucket)
      → IsAudited r
      → IsAudited (send_snapshots lib id accepts k ss r)
  unfolding send_snapshots
  send_snapshots-IsAudited id accepts k [] r a = a
  send_snapshots-IsAudited id accepts k (s ∷ ss) r a =
      send_snapshots-IsAudited id accepts (k + 1) ss _ (ground arith)

  publish_out-IsAudited :
      (ev : Event) (r : Reactor Rate Bucket) → IsAudited r → IsAudited (publish_out ev r)
  unfolding publish_out
  publish_out-IsAudited ev r a = ground (arith, length-append r.out (ev ∷ []))

  publish_chunk-IsAudited :
      (ev : Event) (r : Reactor Rate Bucket) → IsAudited r → IsAudited (publish_chunk ev r)
  unfolding publish_chunk
  publish_chunk-IsAudited ev r a = ground (arith, length-append r.out_chunks (ev ∷ []))

  note_sent-IsAudited :
      (id : String) (m : Message) (r : Reactor Rate Bucket)
      → is_offer m ≡ 0
      → is_payload m ≡ 0
      → is_refusal m ≡ 0
      → IsAudited r
      → IsAudited (note_sent lib id m r)
  unfolding note_sent
  note_sent-IsAudited id m r p q s a = ground arith

  dispatch-IsAudited :
      (now : ℕ) (id : String) (accepts : ℕ → Bool) (m : Message) (r : Reactor Rate Bucket)
      → IsAudited r
      → IsAudited (dispatch lib now id accepts m r)
  unfolding dispatch receive_snapshots_request
  dispatch-IsAudited now id accepts snapshots_request r a = by_provider r.provider
    where
      by_provider :
          (o : Option Provider)
          → IsAudited
              (elim o [ none ↦ r | some p ↦ send_snapshots lib id accepts 0 p.list_snapshots r ])
      by_provider none = a
      by_provider (some p) = send_snapshots-IsAudited id accepts 0 p.list_snapshots r a
  dispatch-IsAudited now id accepts (snapshots_response s) r a = publish_out-IsAudited _ r a
  dispatch-IsAudited now id accepts (chunk_request h f i) r a =
      receive_chunk_request-IsAudited now id h f i (accepts 0) r a
  dispatch-IsAudited now id accepts (chunk_response h f i bytes missing) r a =
      publish_chunk-IsAudited _ r a
  dispatch-IsAudited now id accepts other r a = a

  take-le : (evs : List Event) (n : ℕ) → length evs ≤ n → length (take_event evs []).0 ≤ n
  take-le [] n h = h
  take-le (ev ∷ evs) n h = omega arith

  sweep-IsAudited :
      (now : ℕ) (r : Reactor Rate Bucket) → IsAudited r → IsAudited (sweep_stale_limiters lib now r)
  unfolding sweep_stale_limiters
  sweep-IsAudited now r a = if_cases IsAudited (limits_peers lib r) a a

  on_call-IsAudited :
      (c : Call Rate) (r : Reactor Rate Bucket) → IsAudited r → IsAudited (on_call lib c r)
  unfolding on_call on_add_peer on_remove_peer on_request_chunk on_receive set_chunk_rate_limit
      set_removed_at
  on_call-IsAudited (set_provider p) r a = a
  on_call-IsAudited (set_probe b) r a = a
  on_call-IsAudited (limit_rate c) r a = if_cases IsAudited r.set_rate_called a a
  on_call-IsAudited begin_shutdown r a = a
  on_call-IsAudited (add_peer id ok) r a =
      if_cases IsAudited r.probe
        (if_cases IsAudited ok
          (note_sent-IsAudited id snapshots_request
            (set_removed_at 0 id (publish_out (connected_event id) r)) refl refl refl
            (publish_out-IsAudited _ r a))
          (publish_out-IsAudited _ r a))
        (publish_out-IsAudited _ r a)
  on_call-IsAudited (remove_peer now id) r a =
      sweep-IsAudited now (set_removed_at now id (publish_out (removed_event id) r))
        (publish_out-IsAudited _ r a)
  on_call-IsAudited (request_chunk id h f i ok) r a =
      if_cases IsAudited ok (note_sent-IsAudited id _ r refl refl refl a) a
  on_call-IsAudited (receive now id m accepts) r a = dispatch-IsAudited now id accepts m _ a
  on_call-IsAudited take_out r a = drained_to r a (take-le r.out 256 a.bounded) a.bounded_chunks
  on_call-IsAudited take_chunk r a =
      drained_to r a a.bounded (take-le r.out_chunks 8 a.bounded_chunks)

  run-keeps :
      (cs : List (Call Rate)) (s : System Rate Bucket)
      → IsAudited s.reactor
      → IsAudited (run lib cs s).reactor
  unfolding run step
  run-keeps [] s a = a
  run-keeps (c ∷ cs) s a = run-keeps cs (step lib c s) (on_call-IsAudited c s.reactor a)

  -- Whatever the calls, in any order from the start: the bytes counted as sent are the sizes of the
  -- messages that the peers' queues took, the counts of served snapshots and chunks are the numbers
  -- of offers and of chunk answers with a payload among them, the counts of missing and of drained
  -- chunks together are the number of answers without one, and the channels hold at most 256 and 8
  -- events.
  pub run-IsAudited : (cs : List (Call Rate)) → IsAudited (run lib cs (start lib)).reactor
  unfolding start new_reactor
  run-IsAudited cs = run-keeps cs (start lib) (ground arith)
