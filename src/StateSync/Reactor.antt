-- ===== src/StateSync/Reactor.antt =====
-- internal/statesync/reactor.go: the reactor. A method that runs to its end is one step, and `Call`
-- lists what peers, operators and the two consumers do. Time, the rate limiters, the peers' send
-- queues and the size of a message are the parameter `Platform` and arguments of the calls.
pub mod Limits
pub mod Serve
pub mod Rule
pub mod Audit
pub mod Events
pub mod Answers
pub mod Drain
pub mod Buckets
use malcom.Prelude.{
  ℕ, ◌+◌, Bool, true, false, List, [], ◌∷◌, ◌++◌, Option, none, some, String, ltb, if◌then◌else◌,
  length,
}
use malcom.Prelude.Map
use malcom.Prelude.Map.{string_key}
use malcom.StateSync.Wire.{
  Provider, Event, Message, snapshots_request, snapshots_response, chunk_request, chunk_response,
  other, snapshot_event, chunk_event, connected_event, removed_event,
}
use malcom.StateSync.Reactor.Limits.{
  Platform, ChunkRateLimit, Reactor, new_reactor, publish_out, publish_chunk, set_removed_at,
  set_chunk_rate_limit, sweep_stale_limiters,
}
use malcom.StateSync.Reactor.Serve.{note_sent, receive_snapshots_request, receive_chunk_request}

pub data Call (Rate : Type 0) : Type 0 where
  set_provider : Option Provider → Call Rate
  set_probe : Bool → Call Rate
  limit_rate : ChunkRateLimit Rate → Call Rate
  begin_shutdown : Call Rate
  add_peer : String → Bool → Call Rate
  remove_peer : ℕ → String → Call Rate
  request_chunk : String → ℕ → ℕ → ℕ → Bool → Call Rate
  receive : ℕ → String → Message → (ℕ → Bool) → Call Rate
  take_out take_chunk : Call Rate

-- The reactor with the events that its consumers have taken, the newest first.
pub record System (Rate Bucket : Type 0) : Type 0 where
  pub reactor : Reactor Rate Bucket
  pub delivered : List Event
  pub delivered_chunks : List Event

-- A consumer receives from a channel; from an empty one it gets nothing.
abbrev pub take_event : List Event → List Event → List Event × List Event
take_event [] taken = ([], taken)
take_event (ev ∷ evs) taken = (evs, ev ∷ taken)

abbrev delivered_after : {Rate Bucket : Type 0} → Call Rate → System Rate Bucket → List Event
delivered_after take_out s = (take_event s.reactor.out s.delivered).1
delivered_after _ s = s.delivered

abbrev delivered_chunks_after : {Rate Bucket : Type 0} → Call Rate → System Rate Bucket → List Event
delivered_chunks_after take_chunk s = (take_event s.reactor.out_chunks s.delivered_chunks).1
delivered_chunks_after _ s = s.delivered_chunks

module _ {Rate Bucket : Type 0} (lib : Platform Rate Bucket) where
  unfoldable pub on_add_peer : String → Bool → Reactor Rate Bucket → Reactor Rate Bucket
  unfolding publish_out set_removed_at note_sent
  on_add_peer id ok r =
      let r' = set_removed_at 0 id (publish_out (connected_event id) r) in
      if r.probe then if ok then note_sent lib id snapshots_request r' else r' else r'

  unfoldable pub on_remove_peer : ℕ → String → Reactor Rate Bucket → Reactor Rate Bucket
  unfolding publish_out set_removed_at sweep_stale_limiters
  on_remove_peer now id r =
      sweep_stale_limiters lib now (set_removed_at now id (publish_out (removed_event id) r))

  unfoldable pub on_request_chunk :
      String → ℕ → ℕ → ℕ → Bool → Reactor Rate Bucket → Reactor Rate Bucket
  unfolding note_sent
  on_request_chunk id h f i ok r = if ok then note_sent lib id (chunk_request h f i) r else r

  -- The switch of `Receive`.
  unfoldable pub dispatch :
      ℕ → String → (ℕ → Bool) → Message → Reactor Rate Bucket → Reactor Rate Bucket
  unfolding publish_out publish_chunk receive_snapshots_request receive_chunk_request
  dispatch now id accepts snapshots_request r = receive_snapshots_request lib id accepts r
  dispatch now id accepts (snapshots_response s) r = publish_out (snapshot_event id s) r
  dispatch now id accepts (chunk_request h f i) r =
      receive_chunk_request lib now id h f i (accepts 0) r
  dispatch now id accepts (chunk_response h f i bytes missing) r =
      publish_chunk (chunk_event id h f i bytes missing) r
  dispatch now id accepts other r = r

  unfoldable pub on_receive :
      ℕ → String → Message → (ℕ → Bool) → Reactor Rate Bucket → Reactor Rate Bucket
  unfolding dispatch
  on_receive now id m accepts r =
      dispatch now id accepts m record r { bytes_recv = r.bytes_recv + lib.size m }

  unfoldable pub on_call : Call Rate → Reactor Rate Bucket → Reactor Rate Bucket
  unfolding on_add_peer on_remove_peer on_request_chunk on_receive set_chunk_rate_limit
  on_call (set_provider p) r = record r { provider = p }
  on_call (set_probe b) r = record r { probe = b }
  on_call (limit_rate c) r = set_chunk_rate_limit lib c r
  on_call begin_shutdown r = record r { shutting_down = true }
  on_call (add_peer id ok) r = on_add_peer id ok r
  on_call (remove_peer now id) r = on_remove_peer now id r
  on_call (request_chunk id h f i ok) r = on_request_chunk id h f i ok r
  on_call (receive now id m accepts) r = on_receive now id m accepts r
  on_call take_out r = record r { out = (take_event r.out []).0 }
  on_call take_chunk r = record r { out_chunks = (take_event r.out_chunks []).0 }

  unfoldable pub step : Call Rate → System Rate Bucket → System Rate Bucket
  unfolding on_call
  step c s = record {
    reactor = on_call c s.reactor;
    delivered = delivered_after c s;
    delivered_chunks = delivered_chunks_after c s;
  }

  unfoldable pub run : List (Call Rate) → System Rate Bucket → System Rate Bucket
  unfolding step
  run [] s = s
  run (c ∷ cs) s = run cs (step c s)

  unfoldable pub start : System Rate Bucket
  unfolding new_reactor
  start = record { reactor = new_reactor lib; delivered = []; delivered_chunks = [] }
