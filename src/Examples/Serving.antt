-- ===== src/Examples/Serving.antt =====
-- The theorems on the snapshot server at a concrete directory.
use malcom.Prelude.{
  ℕ, ◌≡◌, ◌≢◌, refl, true, false, List, [], ◌∷◌, ◌++◌, some, none, String, Bytes, ret,
  if◌then◌else◌, ltb, take, replicate,
}
use text.Mathlib.Text.{◌==◌ as str_eq}
use malcom.Varint.{uvarint}
use malcom.Prelude.Map.{bytes_equal}
use malcom.StateSync.Wire.{chunk_request, got}
use malcom.StateSync.Reactor.Limits.{Platform}
use malcom.StateSync.Reactor.{Call, run, start, set_provider, set_probe, add_peer, receive}
use malcom.StateSync.Reactor.Answers.{AllGenuine}
use malcom.Serve.Store.{
  LoadedSnapshot, DirContents, Disk, per_chunk_hash, load_store_from_root, load_chunk, as_provider,
}
use malcom.Serve.Store.Verified.{IsOffered}
use malcom.Serve.Answers.{run-IsOffered}
use malcom.Serve.Catalog.{Catalog, new_catalog, set_on_store, serve_current, rescan, rescan_all}
use malcom.Serve.Catalog.Moved.{rescan-moved}

-- A hash of 32 bytes that starts as its input does.
abbrev padded : Bytes → Bytes
padded bytes = take 32 (bytes ++ replicate 32 0)

abbrev one_byte : Bytes
one_byte = 7 ∷ []

abbrev full_dir : DirContents
full_dir = record {
  complete = true;
  metadata_bin = some (10 ∷ 32 ∷ padded one_byte);
  meta_json = some record {
    chain_id = "hub";
    height = 9;
    format = 3;
    chunks = 1;
    hash = some (padded one_byte);
    metadata_len = 34;
  };
  chunk_file = λ i. some one_byte;
}

abbrev the_disk : Disk
the_disk dir = full_dir

abbrev in_dir : String → LoadedSnapshot
in_dir dir = record {
  dir = dir;
  chain_id = "hub";
  height = 9;
  format = 3;
  chunks = 1;
  hash = padded one_byte;
  metadata = 10 ∷ 32 ∷ padded one_byte;
}

abbrev unlimited : Platform ℕ ℕ
unlimited = record {
  zero_rate = 0;
  is_positive = ltb 0;
  refill = λ burst rate. 1;
  new_limiter = λ rate burst. burst;
  allow = λ now b. (true, b);
  size = λ m. 1;
}

abbrev requests : List (Call ℕ)
requests =
    set_probe false ∷ add_peer "a" true ∷ receive 1 "a" (chunk_request 9 3 0) (λ k. true) ∷ []

the_scan :
    load_store_from_root padded per_chunk_hash "hub" the_disk (("a/9", true) ∷ [])
    ≡ ret (in_dir "a/9" ∷ [])
unfolding load_store_from_root uvarint bytes_equal
the_scan = refl

run-IsOffered_example :
    AllGenuine
      (IsOffered padded (in_dir "a/9" ∷ []))
      (run unlimited
        (set_provider (some (as_provider the_disk (in_dir "a/9" ∷ []))) ∷ requests)
        (start unlimited)).reactor.sent
run-IsOffered_example =
    run-IsOffered unlimited padded "hub" the_disk (("a/9", true) ∷ []) (in_dir "a/9" ∷ []) requests
      the_scan tt

-- The catalog after the first scan, with the hook set.
abbrev after_first : Catalog
after_first =
    set_on_store true (serve_current (rescan padded (ret (in_dir "a/9" ∷ [])) (new_catalog false)))

abbrev emptied : Disk
emptied dir = if str_eq dir "a/9" then record full_dir { chunk_file = λ i. none } else full_dir

rescan-moved_example :
    let after = rescan_all padded (replicate 2 (ret (in_dir "b/9" ∷ []))) after_first in
    (after.store ≡ some (in_dir "b/9" ∷ []))
    × (after.served ≡ some (in_dir "a/9" ∷ []))
    × ((h f : ℕ)
        → (load_chunk emptied (in_dir "b/9" ∷ []) h f 0
            ≡ load_chunk the_disk (in_dir "a/9" ∷ []) h f 0)
          × ((bytes : Bytes) → load_chunk emptied (in_dir "a/9" ∷ []) h f 0 ≢ got bytes true))
unfolding rescan
rescan-moved_example =
    rescan-moved padded (λ d. "b/9") the_disk emptied (in_dir "a/9" ∷ []) after_first 0 1 refl refl
      (λ d. refl) (refl, tt)
