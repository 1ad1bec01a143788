-- ===== src/Fetch/Download.antt =====
-- internal/snapfetch/download.go: the state of the chunk scheduler and the methods of `peerStat`.
-- Go's `int` counters are 64-bit and count events of one run, so they are plain numbers here;
-- times and durations are numbers of nanoseconds.
pub mod FileName
pub mod Pick
pub mod Dispatch
pub mod Handlers
pub mod Resume
pub mod Run
pub mod Strikes
pub mod PickLaws
pub mod DispatchLaws
pub mod Coverage
pub mod Integrity
pub mod Invariant
pub mod Panics
use malcom.Prelude.{
  ℕ, suc, ◌+◌, ◌-◌, Bool, true, false, List, [], Option, Bytes, String, leb, if◌then◌else◌,
}
use malcom.Prelude.Map.{Map}

-- `p2p.ID`.
abbrev pub PeerId : Type 0
PeerId = String

pub record PeerStat : Type 0 where
  pub inflight : ℕ
  pub failures : ℕ
  pub banned : Bool
  pub provisional : Bool
  pub chunks : ℕ
  pub was_good : Bool
  pub ban_reason : String
  pub declined : Map ℕ Bool

-- `&peerStat{}`.
abbrev pub new_stat : PeerStat
new_stat = record {
  inflight = 0;
  failures = 0;
  banned = false;
  provisional = false;
  chunks = 0;
  was_good = false;
  ban_reason = "";
  declined = [];
}

unfoldable pub add_inflight : PeerStat → PeerStat
add_inflight st = record st { inflight = st.inflight + 1 }

-- The counter stays at 0.
unfoldable pub remove_inflight : PeerStat → PeerStat
remove_inflight st = record st { inflight = st.inflight - 1 }

unfoldable pub clear_inflight : PeerStat → PeerStat
clear_inflight st = record st { inflight = 0 }

unfoldable pub failure_limit : PeerStat → ℕ → ℕ → ℕ
failure_limit st proven provisional = if st.provisional then provisional else proven

-- The Boolean says that the peer became banned in this call.
unfoldable pub record_failure : PeerStat → ℕ → PeerStat × Bool
record_failure st limit =
    if st.banned
    then (st, false)
    else if leb limit (st.failures + 1)
    then (record st { failures = st.failures + 1; banned = true }, true)
    else (record st { failures = st.failures + 1 }, false)

unfoldable pub promote : PeerStat → PeerStat × Bool
promote st = if st.provisional then (record st { provisional = false }, true) else (st, false)

unfoldable pub bench_if_provisional : PeerStat → PeerStat × Bool
bench_if_provisional st =
    if st.provisional then (record st { banned = true }, true) else (st, false)

pub record InflightEntry : Type 0 where
  pub peer : PeerId
  pub sent : ℕ

-- The job and the tuning of a `chunkScheduler`, fixed for a run. The `has_…` fields say which of the
-- optional collaborators are not nil; SHA-256 is a parameter.
pub record Job : Type 0 where
  pub sha256 : Bytes → Bytes
  pub height : ℕ
  pub format : ℕ
  pub chunks : ℕ  -- uint32
  pub chunk_hashes : List Bytes
  pub per_peer : ℕ
  pub chunk_timeout : ℕ
  pub peer_fail_limit : ℕ
  pub provisional_strikes : ℕ
  pub provisional_inflight : ℕ
  pub max_disk_fails : ℕ
  pub has_mgr : Bool
  pub has_watch : Bool
  pub has_srv : Bool
  pub has_hook : Bool

-- The calls that the scheduler makes on its collaborators, oldest last.
pub data Effect : Type 0 where
  pin : PeerId → String → Effect
  manager_ban : PeerId → String → Effect
  watch_ban : PeerId → String → Effect
  request : PeerId → ℕ → Effect
  record_served : PeerId → String → Effect
  chunk_ready : ℕ → Effect

-- `disk` is the snapshot directory: file names with contents.
pub record Scheduler : Type 0 where
  pub pending : List Bool
  pub completed : List Bool
  pub inflight : Map ℕ InflightEntry
  pub stats : Map PeerId PeerStat
  pub bytes_total : ℕ  -- uint64
  pub done_count : ℕ  -- uint32
  pub had_event : Bool
  pub disk_fails : ℕ
  pub first_disk_err : Option String
  pub disk : Map Bytes Bytes
  pub effects : List Effect

-- What the handling of one event meets outside the scheduler. The switch can lose a peer between two
-- looks, so each look of `dispatch` has an answer of its own, by the chunk's index; `order` is the
-- order in which `range` visits the peers.
pub record Env : Type 0 where
  pub now : ℕ
  pub connected : PeerId → Bool
  pub peer_list : List PeerId
  pub address : PeerId → String
  pub is_banned : PeerId → Bool
  pub order : ℕ → Map PeerId PeerStat → List (PeerId × PeerStat)
  pub pick_sees : ℕ → PeerId → Bool
  pub dispatch_sees : ℕ → PeerId → Bool
  pub accepts : ℕ → PeerId → Bool
  pub write_error : Bytes → Bytes → Option String
