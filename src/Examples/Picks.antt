-- ===== src/Examples/Picks.antt =====
-- Peers to pick from, and their strikes.
use malcom.Prelude.{◌≤◌, ◌≡◌, ◌≢◌, refl, subst, inl, inr, true, List, [], ◌∷◌, arith}
use malcom.Prelude.Map
use malcom.Fetch.Download.{PeerId, PeerStat, new_stat}
use malcom.Fetch.Download.Pick.{pick_peer, scan, select, start, consider, is_passed_over, mem_peer}
use malcom.Fetch.Download.PickLaws.{Among, IsChoice, pick_peer-IsChoice}
use malcom.Examples.Downloads.{one_job, one_env}

-- A proven peer with one request, and one on probation without any.
abbrev two_peers : List (PeerId × PeerStat)
two_peers =
    ("a", record new_stat { inflight = 1 }) ∷ ("b", record new_stat { provisional = true }) ∷ []

picks_a : pick_peer one_job one_env 0 [] two_peers ≡ "a"
unfolding pick_peer scan select start consider is_passed_over mem_peer Map.get
picks_a = refl

a_is_somebody : pick_peer one_job one_env 0 [] two_peers ≢ ""
unfolding pick_peer scan select start consider is_passed_over mem_peer Map.get
a_is_somebody = λ e. cc

pick_peer-IsChoice_example :
    IsChoice one_job one_env 0 [] two_peers (pick_peer one_job one_env 0 [] two_peers)
pick_peer-IsChoice_example = pick_peer-IsChoice one_job one_env 0 [] two_peers a_is_somebody

-- A proven peer at the limit.
abbrev busy_peer : List (PeerId × PeerStat)
busy_peer = ("a", record new_stat { inflight = 2 }) ∷ []

busy : (q : PeerId) (t : PeerStat) → Among q t busy_peer → 2 ≤ t.inflight
busy q t (inl (e, e')) = subst (λ (x : PeerStat). 2 ≤ x.inflight) e' (omega arith)
busy q t (inr e) = absurd e
