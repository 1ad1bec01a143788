-- ===== src/Fetch/Download/Dispatch.antt =====
-- internal/snapfetch/download.go: `dispatch`, which pairs pending chunks with peers.
use malcom.Prelude.{ℕ, zero, suc, ◌+◌, true, false, List, [], ◌∷◌, not, if◌then◌else◌, get_or, set}
use malcom.Prelude.Map
use malcom.Prelude.Map.{Map, nat_key, string_key}
use text.Mathlib.Text.{◌==◌ as str_eq}
use malcom.Fetch.Download.{PeerId, PeerStat, Job, Env, Scheduler, request, add_inflight}
use malcom.Fetch.Download.Pick.{pick_peer}

-- What a round leaves: the loop returns, or goes on with the next chunk.
pub data Round : Type 0 where
  halt : Round
  next : List PeerId → ℕ → Scheduler → Round

unfoldable pub bench : PeerStat → PeerStat
bench st = record st { banned = true }

unfoldable pub assign : Env → ℕ → PeerId → Scheduler → Scheduler
assign env i pid s = record s {
  pending = set s.pending i false;
  inflight = Map.put i (record { peer = pid; sent = env.now }) s.inflight;
  stats = Map.modify pid add_inflight s.stats;
  effects = request pid i ∷ s.effects;
}

-- A pending chunk and the peer picked for it.
unfoldable pub offer_to : Env → ℕ → PeerId → List PeerId → ℕ → Scheduler → Round
offer_to env i pid skip dispatched s =
    if str_eq pid ""
    then halt
    else if not (env.dispatch_sees i pid)
    then next skip dispatched (record s { stats = Map.modify pid bench s.stats })
    else if not (env.accepts i pid)
    then next (pid ∷ skip) dispatched (record s { effects = request pid i ∷ s.effects })
    else next skip (dispatched + 1) (assign env i pid s)

unfoldable pub dispatch_round : Job → Env → ℕ → List PeerId → ℕ → Scheduler → Round
dispatch_round job env i skip dispatched s =
    if not (get_or s.pending i false)
    then next skip dispatched s
    else offer_to env i (pick_peer job env i skip (env.order i s.stats)) skip dispatched s

-- The rounds from chunk i on; the first argument is their number.
unfoldable pub dispatch_from : ℕ → Job → Env → ℕ → List PeerId → ℕ → Scheduler → Scheduler × ℕ
unfolding dispatch_round offer_to
dispatch_from zero job env i skip dispatched s = (s, dispatched)
dispatch_from (suc n) job env i skip dispatched s =
    elim (dispatch_round job env i skip dispatched s) [
      | halt ↦ (s, dispatched)
      | next skip' dispatched' s' ↦ dispatch_from n job env (i + 1) skip' dispatched' s'
    ]

unfoldable pub dispatch : Job → Env → Scheduler → Scheduler
unfolding dispatch_from
dispatch job env s = (dispatch_from job.chunks job env 0 [] 0 s).0
