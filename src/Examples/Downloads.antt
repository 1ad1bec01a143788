-- ===== src/Examples/Downloads.antt =====
-- A download of one chunk of eight bytes, whose hash is the identity, from one peer.
use malcom.Prelude.{◌≡◌, ◌≢◌, refl, true, false, List, [], ◌∷◌, none, arith, count}
use malcom.Prelude.Map
use malcom.Prelude.Map.{Map, bytes_equal}
use malcom.Prelude.Decimal.{decimal}
use malcom.Fetch.Download.{
  Job, Env, Scheduler, add_inflight, remove_inflight, clear_inflight, failure_limit, record_failure,
  promote, bench_if_provisional,
}
use malcom.Fetch.Download.FileName.{
  chunk_name, padded, strip_prefix, strip_suffix, scan_uint32, parse_uint32, file_index,
}
use malcom.Fetch.Download.Handlers.{
  ChunkInfo, chunk_response, on_chunk, set_reason, ban_and_drop, add_provisional, add_all,
  on_connect, requeue, release, on_removed, time_out_peer, expire, mirror, on_timeout_tick, store,
  on_declined, on_mismatch, on_verified, judge, answered, on_event,
}
use malcom.Fetch.Download.Pick.{mem_peer, is_passed_over, consider, scan, start, select, pick_peer}
use malcom.Fetch.Download.Dispatch.{
  bench, assign, offer_to, dispatch_round, dispatch_from, dispatch,
}
use malcom.Fetch.Download.Resume.{
  new_scheduler, initialize, is_stale_tmp, remove_file, accept_file, check_file, resume_index,
  resume_entry, resume_from_disk, seed_good, pin_good,
}
use malcom.Fetch.Download.Run.{finished, Input, event, run, alive, stop_reason, take_input}
use malcom.Fetch.Download.Coverage.{IsCovered}
use malcom.Fetch.Download.Integrity.{HasFile}
use malcom.Fetch.Download.Invariant.{IsJob, Inv}
use malcom.Fetch.Download.Invariant.Resume.{initialize-Inv}
use malcom.Fetch.Download.Invariant.Run.{download_run, finished-HasFile, run-covers}
use malcom.Fetch.Download.Panics.{on_chunk-out_of_range, on_chunk-ne-none}

abbrev pub one_job : Job
one_job = record {
  sha256 = λ b. b;
  height = 100;
  format = 3;
  chunks = 1;
  chunk_hashes = (1 ∷ 2 ∷ 3 ∷ 4 ∷ 5 ∷ 6 ∷ 7 ∷ 8 ∷ []) ∷ [];
  per_peer = 2;
  chunk_timeout = 30;
  peer_fail_limit = 3;
  provisional_strikes = 2;
  provisional_inflight = 1;
  max_disk_fails = 3;
  has_mgr = true;
  has_watch = true;
  has_srv = false;
  has_hook = false;
}

abbrev pub one_env : Env
one_env = record {
  now = 5;
  connected = λ p. true;
  peer_list = "a" ∷ [];
  address = λ p. "a@1";
  is_banned = λ p. false;
  order = λ i m. m;
  pick_sees = λ i p. true;
  dispatch_sees = λ i p. true;
  accepts = λ i p. true;
  write_error = λ n b. none;
}

abbrev answer : ChunkInfo
answer = record {
  height = 100;
  format = 3;
  index = 0;
  missing = false;
  input = 1 ∷ 2 ∷ 3 ∷ 4 ∷ 5 ∷ 6 ∷ 7 ∷ 8 ∷ [];
}

abbrev schedule : List (Env × Input)
schedule = (one_env, event (chunk_response "a" answer)) ∷ []

one_job-IsJob : IsJob one_job
one_job-IsJob = record { one_hash_each = refl; uint32 = omega arith }

run_finishes : (download_run one_job one_env [] [] [] schedule).1 ≡ finished
unfolding add_inflight remove_inflight clear_inflight failure_limit record_failure promote
    bench_if_provisional decimal padded chunk_name strip_prefix strip_suffix scan_uint32
    parse_uint32 file_index mem_peer is_passed_over consider scan start select pick_peer bench
    assign offer_to dispatch_round dispatch_from dispatch set_reason ban_and_drop add_provisional
    add_all on_connect requeue release on_removed time_out_peer expire mirror on_timeout_tick store
    on_declined on_mismatch on_verified judge answered on_chunk on_event is_stale_tmp remove_file
    accept_file check_file resume_index resume_entry resume_from_disk new_scheduler seed_good
    pin_good initialize alive stop_reason take_input run Map.get Map.put Map.delete Map.modify
    bytes_equal
run_finishes = refl

finished-HasFile_example : HasFile one_job (download_run one_job one_env [] [] [] schedule).0.disk 0
finished-HasFile_example =
    finished-HasFile one_job one_env [] [] [] schedule one_job-IsJob tt run_finishes 0 (omega arith)

run-covers_example :
    ((download_run one_job one_env [] [] [] schedule).0.done_count
      ≡ count (download_run one_job one_env [] [] [] schedule).0.completed)
    × IsCovered
        (download_run one_job one_env [] [] [] schedule).0.pending
        (download_run one_job one_env [] [] [] schedule).0.completed
        (download_run one_job one_env [] [] [] schedule).0.inflight
        0
run-covers_example = run-covers one_job one_env [] [] [] schedule one_job-IsJob tt 0 (omega arith)

abbrev begun : Scheduler
begun = initialize one_job one_env [] [] (new_scheduler one_job [])

begun-Inv : Inv one_job begun
begun-Inv = initialize-Inv one_job one_env [] [] [] one_job-IsJob tt

abbrev far_answer : ChunkInfo
far_answer = record answer { index = 7 }

on_chunk-out_of_range_example : on_chunk one_job one_env "a" far_answer begun ≡ none
on_chunk-out_of_range_example =
    on_chunk-out_of_range one_job one_env "a" far_answer begun begun-Inv refl refl (omega arith)

on_chunk-ne-none_example : on_chunk one_job one_env "a" answer begun ≢ none
on_chunk-ne-none_example =
    on_chunk-ne-none one_job one_env "a" answer begun answer.input begun-Inv (omega arith) refl
      (omega arith)
