-- ===== src/StateSync/Reactor/Limits.antt =====
-- internal/statesync/reactor.go: the reactor's state, its outgoing channels and its rate limiters.
-- The rates are floating-point numbers and the buckets are those of golang.org/x/time/rate: both are
-- types of `Platform`. A burst below zero, which the code treats as zero, is zero here.
use malcom.Prelude.{
  ℕ, ◌+◌, ◌-◌, ◌*◌, Bool, true, false, ◌&&◌, List, [], ◌∷◌, ◌++◌, Option, none, some, String, ltb,
  if◌then◌else◌, length,
}
use malcom.Prelude.Map
use malcom.Prelude.Map.{Map, string_key}
use malcom.StateSync.Wire.{Event, Message, Provider}

-- `refill` is the time in nanoseconds in which a bucket of the burst fills at the rate.
pub record Platform (Rate Bucket : Type 0) : Type 0 where
  pub zero_rate : Rate
  pub is_positive : Rate → Bool
  pub refill : ℕ → Rate → ℕ
  pub new_limiter : Rate → ℕ → Bucket
  pub allow : ℕ → Bucket → Bool × Bucket
  pub size : Message → ℕ

pub record LimiterEntry (Bucket : Type 0) : Type 0 where
  pub lim : Bucket
  pub removed_at : ℕ

pub record ChunkRateLimit (Rate : Type 0) : Type 0 where
  pub per_peer_rate : Rate
  pub per_peer_burst : ℕ
  pub global_rate : Rate
  pub global_burst : ℕ

-- `sent` holds what the peers' queues took, the newest first.
pub record Reactor (Rate Bucket : Type 0) : Type 0 where
  pub out : List Event
  pub out_chunks : List Event
  pub provider : Option Provider
  pub probe : Bool
  pub shutting_down : Bool
  pub global_lim : Option Bucket
  pub peer_limiters : Map String (LimiterEntry Bucket)
  pub chunk_rate_per_peer : Rate
  pub chunk_burst_per_peer : ℕ
  pub set_rate_called : Bool
  pub bytes_recv : ℕ
  pub bytes_sent : ℕ
  pub drops_ctrl : ℕ
  pub drops_chunk : ℕ
  pub snapshots_served : ℕ
  pub chunks_served : ℕ
  pub chunks_missing : ℕ
  pub chunks_drained : ℕ
  pub dropped_rate_peer : ℕ
  pub dropped_rate_global : ℕ
  pub sent : List (String × Message)

abbrev pub out_capacity : ℕ
out_capacity = 256

abbrev pub out_chunks_capacity : ℕ
out_chunks_capacity = 8

-- The `Range` of `sweepStaleLimiters`.
unfoldable pub swept :
    {Bucket : Type 0} → ℕ → Map String (LimiterEntry Bucket) → Map String (LimiterEntry Bucket)
swept cutoff [] = []
swept cutoff ((id, e) ∷ es) =
    let rest = swept cutoff es in
    if ltb 0 e.removed_at && ltb e.removed_at cutoff then rest else (id, e) ∷ rest

module _ {Rate Bucket : Type 0} where
  unfoldable pub publish_out : Event → Reactor Rate Bucket → Reactor Rate Bucket
  publish_out ev r =
      if ltb (length r.out) out_capacity
      then record r { out = r.out ++ (ev ∷ []) }
      else record r { drops_ctrl = r.drops_ctrl + 1 }

  unfoldable pub publish_chunk : Event → Reactor Rate Bucket → Reactor Rate Bucket
  publish_chunk ev r =
      if ltb (length r.out_chunks) out_chunks_capacity
      then record r { out_chunks = r.out_chunks ++ (ev ∷ []) }
      else record r { drops_chunk = r.drops_chunk + 1 }

  -- `AddPeer` and `RemovePeer` write the tombstone of an entry that is there.
  unfoldable pub set_removed_at : ℕ → String → Reactor Rate Bucket → Reactor Rate Bucket
  set_removed_at t id r = record r {
    peer_limiters =
        Map.modify id (λ (e : LimiterEntry Bucket). record e { removed_at = t }) r.peer_limiters;
  }

module _ {Rate Bucket : Type 0} (lib : Platform Rate Bucket) where
  unfoldable pub new_reactor : Reactor Rate Bucket
  new_reactor = record {
    out = [];
    out_chunks = [];
    provider = none;
    probe = true;
    shutting_down = false;
    global_lim = none;
    peer_limiters = [];
    chunk_rate_per_peer = lib.zero_rate;
    chunk_burst_per_peer = 0;
    set_rate_called = false;
    bytes_recv = 0;
    bytes_sent = 0;
    drops_ctrl = 0;
    drops_chunk = 0;
    snapshots_served = 0;
    chunks_served = 0;
    chunks_missing = 0;
    chunks_drained = 0;
    dropped_rate_peer = 0;
    dropped_rate_global = 0;
    sent = [];
  }

  unfoldable pub set_chunk_rate_limit :
      ChunkRateLimit Rate → Reactor Rate Bucket → Reactor Rate Bucket
  set_chunk_rate_limit c r =
      if r.set_rate_called
      then r
      else let peers = lib.is_positive c.per_peer_rate && ltb 0 c.per_peer_burst in
        let all = lib.is_positive c.global_rate && ltb 0 c.global_burst in
        record r {
          set_rate_called = true;
          chunk_rate_per_peer = if peers then c.per_peer_rate else r.chunk_rate_per_peer;
          chunk_burst_per_peer = if peers then c.per_peer_burst else r.chunk_burst_per_peer;
          global_lim =
              if all then some (lib.new_limiter c.global_rate c.global_burst) else r.global_lim;
        }

  unfoldable pub limits_peers : Reactor Rate Bucket → Bool
  limits_peers r = lib.is_positive r.chunk_rate_per_peer && ltb 0 r.chunk_burst_per_peer

  -- `peerLimiter`, with the map after it.
  unfoldable pub peer_limiter :
      String → Reactor Rate Bucket → Bucket × Map String (LimiterEntry Bucket)
  peer_limiter id r = elim (Map.get id r.peer_limiters) [
    | some e ↦ (e.lim, r.peer_limiters)
    | none ↦
        let fresh = lib.new_limiter r.chunk_rate_per_peer r.chunk_burst_per_peer in
        (fresh, Map.put id record { lim = fresh; removed_at = 0 } r.peer_limiters)
  ]

  -- `globalLim != nil && !globalLim.Allow()`, negated.
  unfoldable pub pass_global : ℕ → Reactor Rate Bucket → Bool × Reactor Rate Bucket
  pass_global now r = elim r.global_lim [
    | none ↦ (true, r)
    | some b ↦ ((lib.allow now b).0, record r { global_lim = some (lib.allow now b).1 })
  ]

  -- `peerLim != nil && !peerLim.Allow()`, negated.
  unfoldable pub pass_peer : ℕ → String → Reactor Rate Bucket → Bool × Reactor Rate Bucket
  unfolding limits_peers peer_limiter
  pass_peer now id r =
      let (bucket, entries) = peer_limiter id r in
      let (ok, spent) = lib.allow now bucket in
      if limits_peers r
      then (
        ok,
        record r {
          peer_limiters =
              Map.modify id (λ (e : LimiterEntry Bucket). record e { lim = spent }) entries;
        },
      )
      else (true, r)

  unfoldable pub sweep_stale_limiters : ℕ → Reactor Rate Bucket → Reactor Rate Bucket
  unfolding limits_peers swept
  sweep_stale_limiters now r =
      if limits_peers r
      then record r {
        peer_limiters =
            swept (now - 2 * lib.refill r.chunk_burst_per_peer r.chunk_rate_per_peer)
              r.peer_limiters;
      }
      else r
