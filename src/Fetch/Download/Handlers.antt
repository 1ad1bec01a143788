-- ===== src/Fetch/Download/Handlers.antt =====
-- internal/snapfetch/download.go: the handlers of peer and chunk events and of the timeout tick.
-- `none` is a runtime panic: an index out of range.
use malcom.Prelude.{
  ℕ, ◌+◌, ◌-◌, ◌%◌, ◌^◌, Bool, true, false, ◌&&◌, ◌||◌, not, List, [], ◌∷◌, Option, none, some,
  Bytes, String, ltb, leb, ◌==◌, if◌then◌else◌, length, get_elem?, set,
}
use malcom.Prelude.Map
use malcom.Prelude.Map.{Map, nat_key, string_key, bytes_key, bytes_equal}
use text.Mathlib.Text.{◌==◌ as str_eq}
use malcom.Fetch.Download.{
  PeerId, PeerStat, new_stat, Job, Env, Scheduler, InflightEntry, Effect, pin, manager_ban,
  watch_ban, record_served, chunk_ready, remove_inflight, clear_inflight, failure_limit,
  record_failure, promote, bench_if_provisional,
}
use malcom.Fetch.Download.FileName.{chunk_name}
use malcom.Fetch.Download.Dispatch.{dispatch, bench}

abbrev pub when : Bool → Effect → List Effect → List Effect
when b e es = if b then e ∷ es else es

unfoldable pub set_reason : String → PeerStat → PeerStat
set_reason reason st = if str_eq st.ban_reason "" then record st { ban_reason = reason } else st

unfoldable pub ban_and_drop : Job → Env → PeerId → String → Scheduler → Scheduler
ban_and_drop job env pid reason s = record s {
  stats = Map.modify pid (set_reason reason) s.stats;
  effects =
      when (job.has_watch && env.connected pid) (watch_ban pid reason)
        (when job.has_mgr (manager_ban pid reason) s.effects);
}

abbrev pub is_none {ℓ} : {A : Type ℓ} → Option A → Bool
is_none none = true
is_none (some _) = false

unfoldable pub add_provisional : Job → Env → PeerId → Scheduler → Scheduler
add_provisional job env pid s =
    if is_none (Map.get pid s.stats)
    then record s {
      stats = Map.put pid (record new_stat { provisional = true }) s.stats;
      effects = when job.has_mgr (pin pid (env.address pid)) s.effects;
    }
    else s

unfoldable pub add_all : Job → Env → List PeerId → Scheduler → Scheduler
add_all job env [] s = s
add_all job env (p ∷ ps) s = add_all job env ps (add_provisional job env p s)

unfoldable pub on_connect : Job → Env → PeerId → Scheduler → Scheduler
on_connect job env pid s =
    dispatch job env (if env.connected pid then add_provisional job env pid s else s)

-- A chunk goes back to the pending ones.
unfoldable pub requeue : ℕ → Scheduler → Scheduler
requeue i s = record s { inflight = Map.delete i s.inflight; pending = set s.pending i true }

unfoldable pub release : PeerId → List (ℕ × InflightEntry) → Scheduler → Scheduler
release pid [] s = s
release pid ((i, info) ∷ es) s = release pid es (if str_eq info.peer pid then requeue i s else s)

unfoldable pub on_removed : Job → Env → PeerId → Scheduler → Scheduler
on_removed job env pid s =
    let s' = release pid s.inflight s in
    dispatch job env (record s' { stats = Map.modify pid clear_inflight s'.stats })

-- The peer of an entry that timed out gives back its slot, and is benched if it was on probation.
unfoldable pub time_out_peer : Job → Env → PeerId → Option PeerStat → Scheduler → Scheduler
time_out_peer job env pid none s = s
time_out_peer job env pid (some st) s =
    let (st', benched) = bench_if_provisional (remove_inflight st) in
    let s' = record s { stats = Map.put pid st' s.stats } in
    if benched then ban_and_drop job env pid "probe timeout" s' else s'

unfoldable pub expire : Job → Env → List (ℕ × InflightEntry) → Scheduler → Scheduler
expire job env [] s = s
expire job env ((i, info) ∷ es) s = expire job env es (
    if leb (env.now - info.sent) job.chunk_timeout
    then s
    else requeue i (time_out_peer job env info.peer (Map.get info.peer s.stats) s))

unfoldable pub mirror : Env → Map PeerId PeerStat → Map PeerId PeerStat
mirror env [] = []
mirror env ((pid, st) ∷ m) =
    (pid, if not st.banned && env.is_banned pid then bench st else st) ∷ mirror env m

unfoldable pub on_timeout_tick : Job → Env → Scheduler → Scheduler
on_timeout_tick job env s =
    let s₁ = expire job env s.inflight s in
    let s₂ = if job.has_mgr then record s₁ { stats = mirror env s₁.stats } else s₁ in
    dispatch job env (add_all job env env.peer_list s₂)

-- `statesync.ChunkInfo`; `input` is its `Bytes`.
pub record ChunkInfo : Type 0 where
  pub height : ℕ
  pub format : ℕ
  pub index : ℕ
  pub missing : Bool
  pub input : Bytes

abbrev or_first : Option String → String → Option String
or_first none e = some e
or_first (some first) e = some first

-- The write of a verified chunk, and what follows it.
unfoldable pub store : Job → Env → ℕ → Bytes → Scheduler → Scheduler
store job env i input s = elim (env.write_error (chunk_name i) input) [
  | some e ↦ dispatch job env (record s {
    first_disk_err = or_first s.first_disk_err e;
    disk_fails = s.disk_fails + 1;
    pending = set s.pending i true;
  })
  | none ↦ dispatch job env (record s {
    disk = Map.put (chunk_name i) input s.disk;
    completed = set s.completed i true;
    done_count = (s.done_count + 1) % 2 ^ 32;
    bytes_total = (s.bytes_total + length input) % 2 ^ 64;
    effects = when job.has_hook (chunk_ready i) s.effects;
  })
]

unfoldable pub on_declined : Job → Env → PeerId → ℕ → PeerStat → Scheduler → Scheduler
on_declined job env pid i st s = dispatch job env (record s {
  stats = Map.put pid (record st { declined = Map.put i true st.declined }) s.stats;
  pending = set s.pending i true;
})

unfoldable pub on_mismatch : Job → Env → PeerId → ℕ → PeerStat → Scheduler → Scheduler
on_mismatch job env pid i st s =
    let (st', newly) =
      record_failure st (failure_limit st job.peer_fail_limit job.provisional_strikes) in
    let s₁ = record s { stats = Map.put pid st' s.stats } in
    let s₂ = if newly then ban_and_drop job env pid "chunk hash mismatch" s₁ else s₁ in
    dispatch job env (record s₂ { pending = set s₂.pending i true })

unfoldable pub on_verified : Job → Env → PeerId → ChunkInfo → PeerStat → Scheduler → Scheduler
on_verified job env pid chunk st s =
    let st' = (promote st).0 in
    store job env chunk.index chunk.input (record s {
      stats = Map.put pid (record st' { chunks = st'.chunks + 1; failures = 0 }) s.stats;
      effects =
          when (job.has_srv && env.connected pid) (record_served pid (env.address pid)) s.effects;
    })

-- The answer for a chunk that is not complete yet. Logging a mismatch slices eight bytes off the
-- expected hash, which panics on a shorter one.
unfoldable pub judge : Job → Env → PeerId → ChunkInfo → PeerStat → Scheduler → Option Scheduler
judge job env pid chunk st s =
    if chunk.missing || length chunk.input == 0
    then some (on_declined job env pid chunk.index st s)
    else elim (get_elem? job.chunk_hashes chunk.index) [
      | none ↦ none
      | some want ↦
          if not (bytes_equal (job.sha256 chunk.input) want)
          then (if ltb (length want) 8
              then none
              else some (on_mismatch job env pid chunk.index st s))
          else some (on_verified job env pid chunk st s)
    ]

abbrev pub or_new : Option PeerStat → PeerStat
or_new none = new_stat
or_new (some st) = st

-- The entry is dropped if this peer was the one asked.
unfoldable pub answered : PeerId → ℕ → Map ℕ InflightEntry → Map ℕ InflightEntry
answered pid i inflight = elim (Map.get i inflight) [
  | none ↦ inflight
  | some info ↦ if str_eq info.peer pid then Map.delete i inflight else inflight
]

-- The record of the peer that answers, made if there is none, with its slot given back.
abbrev pub responder : PeerId → Scheduler → PeerStat
responder pid s = remove_inflight (or_new (Map.get pid s.stats))

abbrev pub after_answer : PeerId → ℕ → Scheduler → Scheduler
after_answer pid i s = record s {
  had_event = true;
  stats = Map.put pid (responder pid s) s.stats;
  inflight = answered pid i s.inflight;
}

unfoldable pub on_chunk : Job → Env → PeerId → ChunkInfo → Scheduler → Option Scheduler
on_chunk job env pid chunk s =
    if not (chunk.height == job.height) || not (chunk.format == job.format)
    then some s
    else let s' = after_answer pid chunk.index s in
      elim (get_elem? s.completed chunk.index) [
        | none ↦ none
        | some done ↦ if done then some s' else judge job env pid chunk (responder pid s) s'
      ]

-- `statesync.Event`; `other` stands for an offer.
pub data Event : Type 0 where
  connected : PeerId → Event
  removed : PeerId → Event
  chunk_response : PeerId → ChunkInfo → Event
  other : Event

unfoldable pub on_event : Job → Env → Event → Scheduler → Option Scheduler
on_event job env (connected pid) s = some (on_connect job env pid s)
on_event job env (removed pid) s = some (on_removed job env pid s)
on_event job env (chunk_response pid chunk) s = on_chunk job env pid chunk s
on_event job env other s = some s
