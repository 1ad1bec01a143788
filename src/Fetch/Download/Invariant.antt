-- ===== src/Fetch/Download/Invariant.antt =====
-- The scheduler's invariant, and that every handler keeps it.
pub mod Chunk
pub mod Resume
pub mod Run
use malcom.Prelude.{
  ℕ, ◌^◌, ◌<◌, ◌≡◌, inl, inr, true, false, List, [], ◌∷◌, Option, none, some, if_cases, length, not,
  ◌&&◌, leb, ◌-◌,
}
use malcom.Prelude.Map
use malcom.Prelude.Map.{string_key}
use text.Mathlib.Text.{◌==◌ as str_eq}
use malcom.Fetch.Download.{
  PeerId, PeerStat, Job, Env, Scheduler, InflightEntry, remove_inflight, bench_if_provisional,
}
use malcom.Fetch.Download.Dispatch.{assign, dispatch}
use malcom.Fetch.Download.DispatchLaws.{IsNeutral, dispatch-keeps}
use malcom.Fetch.Download.Handlers.{
  is_none, ban_and_drop, add_provisional, add_all, on_connect, requeue, release, on_removed,
  time_out_peer, expire, on_timeout_tick,
}
use malcom.Fetch.Download.Coverage.{IsTracking, Tracks-assign, Tracks-requeue}
use malcom.Fetch.Download.Integrity.{IsStored}

-- What `prepareSnapshotDir` has checked: one hash for each chunk.
pub record IsJob (job : Job) : Type 0 where
  pub one_hash_each : length job.chunk_hashes ≡ job.chunks
  pub uint32 : job.chunks < 2 ^ 32

pub record Inv (job : Job) (s : Scheduler) : Type 0 where
  pub tracking : IsTracking job s
  pub stored : IsStored job s.completed s.disk

module _ (P : Scheduler → Type 0) (neutral : IsNeutral P) (job : Job) (env : Env) where
  add_provisional-keeps : (pid : PeerId) (s : Scheduler) → P s → P (add_provisional job env pid s)
  unfolding add_provisional
  add_provisional-keeps pid s v = if_cases P (is_none (Map.get pid s.stats)) (neutral s _ _ v) v

  pub add_all-keeps : (ps : List PeerId) (s : Scheduler) → P s → P (add_all job env ps s)
  unfolding add_all
  add_all-keeps [] s v = v
  add_all-keeps (p ∷ ps) s v =
      add_all-keeps ps (add_provisional job env p s) (add_provisional-keeps p s v)

module _ (job : Job) where
  pub Inv-neutral : IsNeutral (Inv job)
  Inv-neutral s stats effects v = record { tracking = v.tracking; stored = v.stored }

  assign-Inv :
      (env : Env) (i : ℕ) (pid : PeerId) (s : Scheduler) → Inv job s → Inv job (assign env i pid s)
  unfolding assign
  assign-Inv env i pid s v = record {
    tracking = Tracks-assign v.tracking i (record { peer = pid; sent = env.now });
    stored = v.stored;
  }

  pub dispatch-Inv : (env : Env) (s : Scheduler) → Inv job s → Inv job (dispatch job env s)
  dispatch-Inv env s v = dispatch-keeps (Inv job) Inv-neutral env (assign-Inv env) job s v

  pub ban_and_drop-Inv :
      (env : Env) (pid : PeerId) (why : _) (s : Scheduler)
      → Inv job s
      → Inv job (ban_and_drop job env pid why s)
  unfolding ban_and_drop
  ban_and_drop-Inv env pid why s v = Inv-neutral s _ _ v

  pub on_connect-Inv :
      (env : Env) (pid : PeerId) (s : Scheduler) → Inv job s → Inv job (on_connect job env pid s)
  unfolding on_connect
  on_connect-Inv env pid s v = dispatch-Inv env _ (
      if_cases (Inv job) (env.connected pid)
        (add_provisional-keeps (Inv job) Inv-neutral job env pid s v) v)

  requeue-Inv : (i : ℕ) (s : Scheduler) → Inv job s → Inv job (requeue i s)
  unfolding requeue
  requeue-Inv i s v = record { tracking = Tracks-requeue v.tracking i; stored = v.stored }

  release-Inv :
      (pid : PeerId) (es : List (ℕ × InflightEntry)) (s : Scheduler)
      → Inv job s
      → Inv job (release pid es s)
  unfolding release
  release-Inv pid [] s v = v
  release-Inv pid ((i, info) ∷ es) s v =
      release-Inv pid es _ (if_cases (Inv job) (str_eq info.peer pid) (requeue-Inv i s v) v)

  pub on_removed-Inv :
      (env : Env) (pid : PeerId) (s : Scheduler) → Inv job s → Inv job (on_removed job env pid s)
  unfolding on_removed
  on_removed-Inv env pid s v =
      let w = release-Inv pid s.inflight s v in
      dispatch-Inv env _ (Inv-neutral (release pid s.inflight s) _ _ w)

  time_out_peer-Inv :
      (env : Env) (pid : PeerId) (st : Option PeerStat) (s : Scheduler)
      → Inv job s
      → Inv job (time_out_peer job env pid st s)
  unfolding time_out_peer
  time_out_peer-Inv env pid none s v = v
  time_out_peer-Inv env pid (some st) s v =
      let kept =
        Inv-neutral s (Map.put pid (bench_if_provisional (remove_inflight st)).0 s.stats) s.effects
          v in
      if_cases (Inv job) (bench_if_provisional (remove_inflight st)).1
        (ban_and_drop-Inv env pid _ _ kept) kept

  expire-Inv :
      (env : Env) (es : List (ℕ × InflightEntry)) (s : Scheduler)
      → Inv job s
      → Inv job (expire job env es s)
  unfolding expire
  expire-Inv env [] s v = v
  expire-Inv env ((i, info) ∷ es) s v = expire-Inv env es _ (
      if_cases (Inv job) (leb (env.now - info.sent) job.chunk_timeout) v
        (requeue-Inv i _ (time_out_peer-Inv env info.peer _ s v)))

  pub on_timeout_tick-Inv :
      (env : Env) (s : Scheduler) → Inv job s → Inv job (on_timeout_tick job env s)
  unfolding on_timeout_tick
  on_timeout_tick-Inv env s v =
      let w = expire-Inv env s.inflight s v in
      dispatch-Inv env _ (
        add_all-keeps (Inv job) Inv-neutral job env env.peer_list _
          (if_cases (Inv job) job.has_mgr (Inv-neutral (expire job env s.inflight s) _ _ w) w))
