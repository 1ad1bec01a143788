-- ===== src/Examples/PeerRuns.antt =====
-- A manager with one pinned peer, and a watch with one useful peer.
use malcom.Prelude.{
  ℕ, Bool, List, ◌≤◌, ◌<◌, ◌≡◌, refl, true, false, [], ◌∷◌, none, some, arith, length,
}
use malcom.Prelude.Map
use malcom.Prelude.Map.{string_key}
use malcom.Peers.Manager
use malcom.Peers.Manager.{NetAddress, Backoff, Manager, compute_backoff, dial_from_pool}
use malcom.Peers.Manager.Pins.{IsDialledAgain, pin-ban-IsDialledAgain}
use malcom.Peers.Manager.Pool.{IsAllFree, dial_from_pool-IsAllFree}
use malcom.Peers.Watch
use malcom.Peers.Watch.Useful.{tick-useful}

abbrev dial_config : Manager.Config
dial_config = record {
  warm_target = 4;
  dial_batch = 4;
  backoff = 5000000000;
  max_backoff = 300000000000;
  max_redials = 2;
  stability_window = 30000000000;
  max_dial_failures = 3;
  book_disabled = false;
  has_book = true;
  has_banlist = true;
  pool = "b@1" ∷ "c@1" ∷ [];
}

abbrev dial_net : Manager.Net
dial_net = record {
  now = 100;
  connected = λ p. false;
  outbound = 0;
  dialing = 0;
  is_dialing = λ na. false;
  picks = [];
  parse = λ addr. some record { id = addr; text = addr };
}

abbrev dialler : Manager
dialler = record {
  pinned = ("a", "a@1") ∷ [];
  backoffs = ("a", record { disconnects = 1; next_dial_at = 50; connected_since = none }) ∷ [];
  banned = [];
  ban_reasons = [];
  dial_fail = [];
  cursor = 1;
  dials_fired = 0;
  dial_successes = 0;
  dial_failures = 0;
  addr_bans = 0;
  peer_bans = 0;
  manual_bans = 0;
  effects = [];
}

-- Ticks after 100, 200 and 300 ns: the peer is gone, there, and gone again.
abbrev net_at : ℕ → Bool → Manager.Net
net_at t there = record dial_net { now = t; connected = λ p. there }

abbrev flapping : List Manager.Net
flapping = net_at 100 false ∷ net_at 200 true ∷ net_at 300 false ∷ []

dial_from_pool-IsAllFree_example :
    IsAllFree dial_net dialler (dial_from_pool dial_config dial_net 1 dialler).1
    × (length (dial_from_pool dial_config dial_net 1 dialler).1 ≤ 1)
    × ((dial_from_pool dial_config dial_net 1 dialler).0.cursor < 2)
dial_from_pool-IsAllFree_example =
    dial_from_pool-IsAllFree dial_config dial_net dialler 1 (omega arith)

abbrev watch_config : Watch.Config
watch_config = record {
  min_height = 50;
  grace = 10;
  require_state_sync_channel = true;
  has_book = true;
  has_mgr = true;
}

abbrev watch_net : Watch.Net
watch_net = record {
  now = 100;
  connected = λ p. true;
  still_connected = λ p. true;
  has_default_info = λ p. true;
  has_channel = λ p. false;
}

abbrev watcher : Watch.Watch
watcher = record {
  first_seen = ("a", 1) ∷ ("b", 2) ∷ [];
  useful = ("a", true) ∷ [];
  out_of_range = [];
  banned = [];
  effects = [];
}

tick-useful_example : Map.get "a" (Watch.tick watch_config watch_net watcher).banned ≡ none
unfolding Map.get
tick-useful_example = tick-useful watch_config watch_net watcher "a" refl

pin-ban-IsDialledAgain_example :
    IsDialledAgain dial_config dial_net "a" "a@1"
      record { id = "a@1"; text = "a@1" }
      (Manager.pin "a" "a@1" (Manager.ban "a" "hash mismatch" dialler))
unfolding Map.get
pin-ban-IsDialledAgain_example =
    pin-ban-IsDialledAgain dial_config dial_net "a" "a@1" "hash mismatch"
      record { id = "a@1"; text = "a@1" } dialler refl (λ e. cc) (λ e. cc) refl refl
