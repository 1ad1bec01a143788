-- ===== src/Fetch/Download/Run.antt =====
-- internal/snapfetch/download.go: `run`, the event loop, over a schedule of what `select` takes.
use malcom.Prelude.{ℕ, ◌+◌, ◌&&◌, List, [], ◌∷◌, Option, none, some, ltb, leb, ◌==◌, if◌then◌else◌}
use malcom.Prelude.Map.{Map}
use malcom.Fetch.Download.{PeerId, PeerStat, Job, Env, Scheduler}
use malcom.Fetch.Download.Handlers.{Event, on_event, on_timeout_tick}

-- The first result of `peerCounts`: the peers that are not benched.
unfoldable pub alive : Map PeerId PeerStat → ℕ
alive [] = 0
alive ((pid, st) ∷ m) = let rest = alive m in if st.banned then rest else rest + 1

-- How a run ends. `waiting` is a run whose schedule is not over.
pub data Result : Type 0 where
  finished disk_failed all_banned cancelled panicked waiting : Result

-- The tests before `select`.
unfoldable pub stop_reason : Job → Scheduler → Option Result
stop_reason job s =
    if leb job.chunks s.done_count
    then some finished
    else if ltb 0 job.max_disk_fails && leb job.max_disk_fails s.disk_fails
    then some disk_failed
    else if alive s.stats == 0
    then some all_banned
    else none

-- What `select` takes: the context is done, the ticker fires, or an event arrives.
pub data Input : Type 0 where
  done tick : Input
  event : Event → Input

pub data Next : Type 0 where
  go : Scheduler → Next
  halt : Result → Next

abbrev or_panic : Option Scheduler → Next
or_panic none = halt panicked
or_panic (some s) = go s

unfoldable pub take_input : Job → Env → Input → Scheduler → Next
take_input job env done s = halt cancelled
take_input job env tick s = go (on_timeout_tick job env s)
take_input job env (event e) s = or_panic (on_event job env e s)

unfoldable pub run : Job → List (Env × Input) → Scheduler → Scheduler × Result
run job [] s = elim (stop_reason job s) [ none ↦ (s, waiting) | some r ↦ (s, r) ]
run job ((env, i) ∷ rest) s = elim (stop_reason job s) [
  | some r ↦ (s, r)
  | none ↦ elim (take_input job env i s) [ halt r ↦ (s, r) | go s' ↦ run job rest s' ]
]
