-- ===== src/Fetch/Download/Resume.antt =====
-- internal/snapfetch/download.go: `init` and `resumeFromDisk`, which takes over the chunk files of
-- an earlier run.
use malcom.Prelude.{
  ℕ, ◌+◌, ◌%◌, ◌^◌, Bool, true, false, ◌&&◌, ◌||◌, not, List, [], ◌∷◌, Option, none, some, Bytes,
  codes, leb, if◌then◌else◌, length, get_or, set, replicate,
}
use malcom.Prelude.Map
use malcom.Prelude.Map.{Map, string_key, bytes_key, bytes_equal}
use malcom.Fetch.Download.{PeerId, new_stat, Job, Env, Scheduler, chunk_ready, pin}
use malcom.Fetch.Download.FileName.{strip_prefix, strip_suffix, file_index}
use malcom.Fetch.Download.Dispatch.{dispatch}
use malcom.Fetch.Download.Handlers.{when, is_none, add_all}

-- A directory entry. Reading it gives its bytes in the directory, or an error (`readable` is false);
-- removing it can fail too.
pub record Entry : Type 0 where
  pub name : Bytes
  pub is_dir : Bool
  pub readable : Bool
  pub removable : Bool

-- A leftover of an interrupted write.
unfoldable pub is_stale_tmp : Bytes → Bool
unfolding strip_prefix strip_suffix
is_stale_tmp name =
    not (is_none (strip_prefix (codes ".chunk_") name))
      && not (is_none (strip_suffix (codes ".tmp") name))
    || not (is_none (strip_prefix (codes "chunk_") name))
      && not (is_none (strip_suffix (codes ".bin.tmp") name))

unfoldable pub remove_file : Entry → Scheduler → Scheduler
remove_file e s = if e.removable then record s { disk = Map.delete e.name s.disk } else s

unfoldable pub accept_file : Job → ℕ → Bytes → Scheduler → Scheduler
accept_file job i content s = record s {
  completed = set s.completed i true;
  pending = set s.pending i false;
  bytes_total = (s.bytes_total + length content) % 2 ^ 64;
  done_count = (s.done_count + 1) % 2 ^ 32;
  effects = when job.has_hook (chunk_ready i) s.effects;
}

-- A chunk file whose index is in range and not complete yet.
unfoldable pub check_file : Job → Entry → ℕ → Option Bytes → Scheduler → Scheduler
check_file job e i none s = s
check_file job e i (some content) s =
    if not e.readable
    then s
    else if bytes_equal (job.sha256 content) (get_or job.chunk_hashes i [])
    then accept_file job i content s
    else remove_file e s

unfoldable pub resume_index : Job → Entry → Option ℕ → Scheduler → Scheduler
resume_index job e none s = s
resume_index job e (some i) s =
    if leb job.chunks i
    then remove_file e s
    else if get_or s.completed i false
    then s
    else check_file job e i (Map.get e.name s.disk) s

unfoldable pub resume_entry : Job → Entry → Scheduler → Scheduler
resume_entry job e s =
    if e.is_dir
    then s
    else if is_stale_tmp e.name
    then remove_file e s
    else resume_index job e (file_index e.name) s

-- `entries` is the listing; an unreadable directory has none.
unfoldable pub resume_from_disk : Job → List Entry → Scheduler → Scheduler
resume_from_disk job [] s = s
resume_from_disk job (e ∷ es) s = resume_from_disk job es (resume_entry job e s)

-- The scheduler that `download` makes, over the directory as it is.
unfoldable pub new_scheduler : Job → Map Bytes Bytes → Scheduler
new_scheduler job disk = record {
  pending = replicate job.chunks true;
  completed = replicate job.chunks false;
  inflight = [];
  stats = [];
  bytes_total = 0;
  done_count = 0;
  had_event = false;
  disk_fails = 0;
  first_disk_err = none;
  disk = disk;
  effects = [];
}

unfoldable pub seed_good : List PeerId → Scheduler → Scheduler
seed_good [] s = s
seed_good (p ∷ ps) s =
    seed_good ps (record s { stats = Map.put p (record new_stat { was_good = true }) s.stats })

unfoldable pub pin_good : Job → Env → List PeerId → Scheduler → Scheduler
pin_good job env [] s = s
pin_good job env (p ∷ ps) s =
    pin_good job env ps (record s {
      effects = when (job.has_mgr && env.connected p) (pin p (env.address p)) s.effects;
    })

-- `init`.
unfoldable pub initialize : Job → Env → List PeerId → List Entry → Scheduler → Scheduler
initialize job env good entries s =
    let seeded = add_all job env env.peer_list (pin_good job env good (seed_good good s)) in
    dispatch job env (resume_from_disk job entries seeded)
