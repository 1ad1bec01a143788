-- ===== src/Peers/Watch.antt =====
-- internal/snapfetch/peerwatch.go: the watch that evicts peers which offer nothing useful.
pub mod Useful
use malcom.Prelude.{
  ℕ, ◌+◌, ◌-◌, Bool, true, false, not, ◌&&◌, ◌||◌, List, [], ◌∷◌, ◌++◌, Option, none, some, String,
  ltb, leb, ◌==◌, if◌then◌else◌,
}
use malcom.Prelude.Map
use malcom.Prelude.Map.{Map, string_key}

pub record Config : Type 0 where
  pub min_height : ℕ
  pub grace : ℕ
  pub require_state_sync_channel : Bool
  pub has_book : Bool
  pub has_mgr : Bool

pub data Effect : Type 0 where
  stop mark_bad : String → Effect
  ban : String → String → Effect

pub record Watch : Type 0 where
  pub first_seen : Map String ℕ
  pub useful : Map String Bool
  pub out_of_range : Map String Bool
  pub banned : Map String Bool
  pub effects : List Effect

-- What the switch says: who is connected while the sweep looks, who still is when it evicts, whose
-- node info is of the default kind and who has the snapshot channel.
pub record Net : Type 0 where
  pub now : ℕ
  pub connected : String → Bool
  pub still_connected : String → Bool
  pub has_default_info : String → Bool
  pub has_channel : String → Bool

abbrev pub has_flag : Option Bool → Bool
has_flag none = false
has_flag (some b) = b

unfoldable mark_out_of_range : String → Watch → Watch
mark_out_of_range id w = record w { out_of_range = Map.put id true w.out_of_range }

unfoldable mark_useful : String → Watch → Watch
mark_useful id w = record w { useful = Map.put id true w.useful }

unfoldable pub is_banned : String → Watch → Bool
is_banned id w = has_flag (Map.get id w.banned)

unfoldable pub ban_peer : Config → String → String → Watch → Watch
ban_peer cfg id reason w = record w {
  first_seen = Map.delete id w.first_seen;
  banned = Map.put id true w.banned;
  effects =
      w.effects
      ++ (stop id
          ∷ ((if cfg.has_book then mark_bad id ∷ [] else [])
              ++ (if cfg.has_mgr then ban id reason ∷ [] else [])));
}

unfoldable pub on_connect : ℕ → String → Watch → Watch
on_connect now id w = elim (Map.get id w.first_seen) [
  | none ↦ record w { first_seen = Map.put id now w.first_seen }
  | some t ↦ w
]

unfoldable on_disconnect : String → Watch → Watch
on_disconnect id w = record w {
  first_seen = Map.delete id w.first_seen;
  out_of_range = Map.delete id w.out_of_range;
}

-- The verdict on one connected peer.
unfoldable pub verdict : Config → Net → Watch → String → ℕ → Option String
verdict cfg net w id first =
    if has_flag (Map.get id w.useful)
    then none
    else if cfg.require_state_sync_channel && not (net.has_default_info id)
    then some "non-default NodeInfo"
    else if cfg.require_state_sync_channel && not (net.has_channel id)
    then some "no state-sync channel"
    else if has_flag (Map.get id w.out_of_range)
    then some "offered only out-of-range snapshot"
    else if ltb (net.now - first) cfg.grace
    then none
    else some "no useful offer in window"

abbrev pub noted : String → Option String → List (String × String) → List (String × String)
noted id none ps = ps
noted id (some reason) ps = (id, reason) ∷ ps

-- The sweep over `firstSeen`: what stays in it, and the evictions it asks for.
unfoldable pub sweep :
    Config → Net → Watch → List (String × ℕ) → Map String ℕ × List (String × String)
unfolding verdict
sweep cfg net w [] = ([], [])
sweep cfg net w ((id, first) ∷ es) =
    let (seen, pending) = sweep cfg net w es in
    if net.connected id
    then ((id, first) ∷ seen, noted id (verdict cfg net w id first) pending)
    else (seen, pending)

unfoldable pub evict_all : Config → Net → List (String × String) → Watch → Watch
unfolding ban_peer
evict_all cfg net [] w = w
evict_all cfg net ((id, reason) ∷ ps) w =
    if net.still_connected id
    then evict_all cfg net ps (ban_peer cfg id reason w)
    else evict_all cfg net ps w

unfoldable pub tick : Config → Net → Watch → Watch
unfolding sweep evict_all
tick cfg net w =
    let (seen, pending) = sweep cfg net w w.first_seen in
    if cfg.min_height == 0 then w else evict_all cfg net pending record w { first_seen = seen }

pub data Event : Type 0 where
  connected removed : String → Event
  snapshot : String → ℕ → Event

-- A round of `run`.
unfoldable pub on_event : Config → ℕ → Event → Watch → Watch
unfolding on_connect on_disconnect mark_useful mark_out_of_range
on_event cfg now (connected id) w = on_connect now id w
on_event cfg now (removed id) w = on_disconnect id w
on_event cfg now (snapshot id height) w =
    if cfg.min_height == 0 || leb cfg.min_height height
    then mark_useful id w
    else mark_out_of_range id w
