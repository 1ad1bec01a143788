-- ===== src/StateSync/Reactor/Drain.antt =====
-- internal/statesync/reactor.go: the drain phase, from `BeginShutdown` on.
use malcom.Prelude.{
  ℕ, ◌+◌, ◌≡◌, refl, Bool, true, false, List, [], ◌∷◌, Option, none, some, String, if_cases, arith,
  sym, ◌∙◌,
}
use malcom.StateSync.Wire.{
  Snapshot, Provider, Message, snapshots_request, snapshots_response, chunk_request, chunk_response,
  other,
}
use malcom.StateSync.Reactor.Limits.{
  Platform, Reactor, publish_out, publish_chunk, sweep_stale_limiters, set_chunk_rate_limit,
  set_removed_at,
}
use malcom.StateSync.Reactor.Serve.{
  note_sent, send_snapshots, receive_snapshots_request, answer_drained, receive_chunk_request,
}
use malcom.StateSync.Reactor.Rule.{receive_chunk_request_rule}
use malcom.StateSync.Reactor.{
  Call, System, on_add_peer, on_remove_peer, on_request_chunk, on_receive, dispatch, on_call, step,
  run, set_provider, set_probe, limit_rate, begin_shutdown, add_peer, remove_peer, request_chunk,
  receive, take_out, take_chunk,
}
use mathlib.Core.Bool.{false≢true}
use malcom.StateSync.Reactor.Audit.{tally, is_payload}

-- The counts of payloads sent, of answers without a chunk and of requests dropped by either bucket.
pub record Quiet (payloads missing peer_drops global_drops : ℕ) (draining : Bool)
    (sent : List (String × Message)) (chunks_missing dropped_rate_peer dropped_rate_global : ℕ)
    : Type 0 where
  pub still_draining : draining ≡ true
  pub no_payload : tally is_payload sent ≡ payloads
  pub no_load : chunks_missing ≡ missing
  pub no_peer_drop : dropped_rate_peer ≡ peer_drops
  pub no_global_drop : dropped_rate_global ≡ global_drops

module _ {Rate Bucket : Type 0} (lib : Platform Rate Bucket) (p m d g : ℕ) where
  abbrev pub IsQuiet : Reactor Rate Bucket → Type 0
  IsQuiet r =
      Quiet p m d g r.shutting_down r.sent r.chunks_missing r.dropped_rate_peer
        r.dropped_rate_global

  answer_drained-IsQuiet :
      (id : String) (h f i : ℕ) (ok : Bool) (r : Reactor Rate Bucket)
      → IsQuiet r
      → IsQuiet (answer_drained lib id h f i ok r)
  unfolding answer_drained
  answer_drained-IsQuiet id h f i ok r q = ground arith

  receive_chunk_request-IsQuiet :
      (now : ℕ) (id : String) (h f i : ℕ) (ok : Bool) (r : Reactor Rate Bucket)
      → IsQuiet r
      → IsQuiet (receive_chunk_request lib now id h f i ok r)
  receive_chunk_request-IsQuiet now id h f i ok r q =
      receive_chunk_request_rule lib IsQuiet r now id h f i ok (λ _. q)
        (λ _. answer_drained-IsQuiet id h f i ok r q) (λ _ e. running e) (λ _ _ _ e. running e)
        (λ _ _ _ _ _ e. running e)
    where
      running : {A : Type 0} → r.shutting_down ≡ false → A
      running e = absurd (false≢true (sym e ∙ q.still_draining))

  send_snapshots-IsQuiet :
      (id : String) (accepts : ℕ → Bool) (k : ℕ) (ss : List Snapshot) (r : Reactor Rate Bucket)
      → IsQuiet r
      → IsQuiet (send_snapshots lib id accepts k ss r)
  unfolding send_snapshots
  send_snapshots-IsQuiet id accepts k [] r q = q
  send_snapshots-IsQuiet id accepts k (s ∷ ss) r q =
      send_snapshots-IsQuiet id accepts (k + 1) ss _ (ground arith)

  dispatch-IsQuiet :
      (now : ℕ) (id : String) (accepts : ℕ → Bool) (m : Message) (r : Reactor Rate Bucket)
      → IsQuiet r
      → IsQuiet (dispatch lib now id accepts m r)
  unfolding dispatch publish_out publish_chunk receive_snapshots_request
  dispatch-IsQuiet now id accepts snapshots_request r q = by_provider r.provider
    where
      by_provider :
          (o : Option Provider)
          → IsQuiet
              (elim o [ none ↦ r | some p ↦ send_snapshots lib id accepts 0 p.list_snapshots r ])
      by_provider none = q
      by_provider (some p) = send_snapshots-IsQuiet id accepts 0 p.list_snapshots r q
  dispatch-IsQuiet now id accepts (snapshots_response s) r q = if_cases IsQuiet _ q q
  dispatch-IsQuiet now id accepts (chunk_request h f i) r q =
      receive_chunk_request-IsQuiet now id h f i (accepts 0) r q
  dispatch-IsQuiet now id accepts (chunk_response h f i bytes missing) r q = if_cases IsQuiet _ q q
  dispatch-IsQuiet now id accepts other r q = q

  on_call-IsQuiet :
      (c : Call Rate) (r : Reactor Rate Bucket) → IsQuiet r → IsQuiet (on_call lib c r)
  unfolding on_call on_add_peer on_remove_peer on_request_chunk on_receive set_chunk_rate_limit
      set_removed_at publish_out sweep_stale_limiters note_sent
  on_call-IsQuiet (set_provider o) r q = q
  on_call-IsQuiet (set_probe b) r q = q
  on_call-IsQuiet (limit_rate c) r q = if_cases IsQuiet r.set_rate_called q q
  on_call-IsQuiet begin_shutdown r q = record {
    still_draining = refl;
    no_payload = q.no_payload;
    no_load = q.no_load;
    no_peer_drop = q.no_peer_drop;
    no_global_drop = q.no_global_drop;
  }
  on_call-IsQuiet (add_peer id ok) r q = ground arith
  on_call-IsQuiet (remove_peer now id) r q = ground arith
  on_call-IsQuiet (request_chunk id h f i ok) r q = ground arith
  on_call-IsQuiet (receive now id m accepts) r q =
      dispatch-IsQuiet now id accepts m (record r { bytes_recv = r.bytes_recv + lib.size m }) q
  on_call-IsQuiet take_out r q = q
  on_call-IsQuiet take_chunk r q = q

  run-keeps :
      (cs : List (Call Rate)) (s : System Rate Bucket)
      → IsQuiet s.reactor
      → IsQuiet (run lib cs s).reactor
  unfolding run step
  run-keeps [] s q = q
  run-keeps (c ∷ cs) s q = run-keeps cs (step lib c s) (on_call-IsQuiet c s.reactor q)

-- Once the drain phase has begun it lasts, and over any further run, whatever is requested: no
-- chunk answer with a payload is sent, no answer is counted as missing, and no request is dropped
-- by a rate limiter.
pub run-IsQuiet :
    {Rate Bucket : Type 0} (lib : Platform Rate Bucket) (cs : List (Call Rate))
    (s : System Rate Bucket)
    → s.reactor.shutting_down ≡ true
    → IsQuiet lib
        (tally is_payload s.reactor.sent)
        s.reactor.chunks_missing
        s.reactor.dropped_rate_peer
        s.reactor.dropped_rate_global
        (run lib cs s).reactor
run-IsQuiet lib cs s e = run-keeps lib _ _ _ _ cs s record {
  still_draining = e;
  no_payload = refl;
  no_load = refl;
  no_peer_drop = refl;
  no_global_drop = refl;
}
