-- ===== src/Serve/Store.antt =====
-- internal/snapserve/store.go: the store of verified snapshots, and ParseChunkHashes of
-- internal/snapshotinspect/inspect.go. What the disk holds is an argument: a directory's files, with
-- meta.json and its hex decoded. SHA-256 is a parameter, and streaming is the identity on bytes.
pub mod Verified
use malcom.Prelude.{
  ℕ, zero, suc, ◌+◌, ◌%◌, ◌^◌, Bool, true, false, not, ◌&&◌, ◌||◌, List, [], ◌∷◌, ◌++◌, Option,
  none, some, String, Bytes, ltb, leb, ◌==◌, if◌then◌else◌, length, take, drop, get_elem?, Outcome,
  ret, fail, panic, stuck, and_then, map_error,
}
use malcom.Prelude.Map.{bytes_equal}
use text.Mathlib.Text.{◌==◌ as str_eq}
use malcom.Varint.{uvarint}
use malcom.Fetch.Metadata.{extends_past}
use malcom.StateSync.Wire.{Snapshot, Loaded, got, unreadable, Provider}

pub record LoadedSnapshot : Type 0 where
  pub dir : String
  pub chain_id : String
  pub height : ℕ
  pub format : ℕ
  pub chunks : ℕ
  pub hash : Bytes
  pub metadata : Bytes

-- `metaJSON`; the hash is `none` where its text is no hex.
pub record MetaJson : Type 0 where
  pub chain_id : String
  pub height : ℕ
  pub format : ℕ
  pub chunks : ℕ
  pub hash : Option Bytes
  pub metadata_len : ℕ

-- The files of a directory; `none` where a file cannot be read or decoded.
pub record DirContents : Type 0 where
  pub complete : Bool
  pub metadata_bin : Option Bytes
  pub meta_json : Option MetaJson
  pub chunk_file : ℕ → Option Bytes

abbrev pub Disk : Type 0
Disk = String → DirContents

pub data VerifyMode : Type 0 where
  metadata_only aggregate_hash per_chunk_hash : VerifyMode

pub data StoreError : Type 0 where
  no_dirs missing_complete no_metadata bad_tag bad_varint past_end no_meta zero_chunks count_differs
        length_differs bad_hex hash_size no_chunk chunk_mismatch aggregate_mismatch wrong_chain
        duplicate :
      StoreError

-- The loop of `ParseChunkHashes`: `rest` is `metadata[i:]`. The slice of a record panics where the
-- sum wraps, since its end then lies before its start or is negative.
unfoldable slice_record :
    ℕ → ℕ → ℕ → Outcome StoreError (List Bytes) → Outcome StoreError (List Bytes)
slice_record j len total next =
    if extends_past j len total
    then fail past_end
    else if leb (2 ^ 63) ((j + len) % 2 ^ 64) || ltb ((j + len) % 2 ^ 64) j
    then panic
    else next

unfoldable hashes_from : ℕ → ℕ → ℕ → Bytes → List Bytes → Outcome StoreError (List Bytes)
unfolding slice_record
hashes_from zero total i rest out = stuck
hashes_from (suc f) total i [] out = ret out
hashes_from (suc f) total i (tag ∷ buf) out =
    if not (tag == 0x0A) then fail bad_tag else elim (uvarint buf) [
      | none ↦ fail bad_varint
      | some (len, n) ↦
          let j = i + 1 + n in
          let body = drop n buf in
          let next = hashes_from f total (j + len) (drop len body) (out ++ take len body ∷ []) in
          slice_record j len total next
    ]

unfoldable pub parse_chunk_hashes : Bytes → Outcome StoreError (List Bytes)
unfolding hashes_from
parse_chunk_hashes metadata = hashes_from (suc (length metadata)) (length metadata) 0 metadata []

module _ (sha256 : Bytes → Bytes) where
  -- The check of one chunk against its hash.
  abbrev pub chunk_matches : VerifyMode → Bytes → Option Bytes → Bool
  chunk_matches per_chunk_hash input (some want) = bytes_equal (sha256 input) want
  chunk_matches per_chunk_hash input none = false
  chunk_matches _ input want = true

  -- The loop of `verifyChunks`, with the bytes hashed so far.
  unfoldable pub verify_from :
      VerifyMode → DirContents → Bytes → List Bytes → ℕ → ℕ → Bytes → Outcome StoreError (Unit {0})
  verify_from mode d want hashes zero i agg =
      if bytes_equal (sha256 agg) want then ret tt else fail aggregate_mismatch
  verify_from mode d want hashes (suc left) i agg = elim (d.chunk_file i) [
    | none ↦ fail no_chunk
    | some input ↦
        let rest = verify_from mode d want hashes left (i + 1) (agg ++ input) in
        if chunk_matches mode input (get_elem? hashes i) then rest else fail chunk_mismatch
  ]

  unfoldable pub verify_chunks :
      VerifyMode → DirContents → ℕ → Bytes → List Bytes → Outcome StoreError (Unit {0})
  unfolding verify_from
  verify_chunks mode d total want hashes = verify_from mode d want hashes total 0 []

  abbrev pub verify_unless_trusted :
      VerifyMode → DirContents → ℕ → Bytes → List Bytes → Outcome StoreError (Unit {0})
  verify_unless_trusted metadata_only d total want hashes = ret tt
  verify_unless_trusted mode d total want hashes = verify_chunks mode d total want hashes

  -- The checks of meta.json against the metadata.
  unfoldable pub check_meta : Bytes → List Bytes → MetaJson → Outcome StoreError Bytes
  check_meta metadata hashes meta =
      if meta.chunks == 0
      then fail zero_chunks
      else if not (length hashes % 2 ^ 32 == meta.chunks)
      then fail count_differs
      else if not (meta.metadata_len == 0) && not (meta.metadata_len == length metadata)
      then fail length_differs
      else elim meta.hash [
        | none ↦ fail bad_hex
        | some want ↦ if length want == 32 then ret want else fail hash_size
      ]

  abbrev pub loaded_from : String → Bytes → MetaJson → Bytes → LoadedSnapshot
  loaded_from dir metadata meta want = record {
    dir = dir;
    chain_id = meta.chain_id;
    height = meta.height;
    format = meta.format;
    chunks = meta.chunks;
    hash = want;
    metadata = metadata;
  }

  abbrev pub or_fail : {A : Type 0} → StoreError → Option A → Outcome StoreError A
  or_fail e none = fail e
  or_fail e (some a) = ret a

  -- `loadOne`.
  unfoldable pub load_one : VerifyMode → Disk → String → Outcome StoreError LoadedSnapshot
  unfolding parse_chunk_hashes check_meta verify_chunks
  load_one mode disk dir =
      if not (disk dir).complete
      then fail missing_complete
      else and_then (or_fail no_metadata (disk dir).metadata_bin) (λ metadata.
        and_then (parse_chunk_hashes metadata) (λ hashes.
          and_then (or_fail no_meta (disk dir).meta_json) (λ meta.
            and_then (check_meta metadata hashes meta) (λ want.
              and_then (verify_unless_trusted mode (disk dir) meta.chunks want hashes)
                (λ _. ret (loaded_from dir metadata meta want))))))

  -- A snapshot of that height and format is loaded already.
  abbrev pub is_taken : ℕ → ℕ → List LoadedSnapshot → Bool
  is_taken h f [] = false
  is_taken h f (s ∷ ss) = (s.height == h && s.format == f) || is_taken h f ss

  abbrev pub is_other_chain : String → String → Bool
  is_other_chain want chain = not (str_eq want "") && not (str_eq chain want)

  -- `newStore`: the highest first and, of equal heights, the first loaded; the order that `sort.Slice`
  -- leaves equal heights in is not fixed for more than twelve snapshots.
  unfoldable pub insert_by_height : LoadedSnapshot → List LoadedSnapshot → List LoadedSnapshot
  insert_by_height s [] = s ∷ []
  insert_by_height s (t ∷ ts) =
      let rest = insert_by_height s ts in if ltb t.height s.height then s ∷ t ∷ ts else t ∷ rest

  unfoldable pub new_store : List LoadedSnapshot → List LoadedSnapshot
  unfolding insert_by_height
  new_store [] = []
  new_store (s ∷ ss) = insert_by_height s (new_store ss)

  -- The loop of `LoadStore`, with what is loaded so far, the last first.
  unfoldable pub load_dirs :
      VerifyMode
      → String
      → Disk
      → List String
      → List LoadedSnapshot
      → Outcome StoreError (List LoadedSnapshot)
  unfolding load_one
  load_dirs mode chain disk [] loaded = ret loaded
  load_dirs mode chain disk (dir ∷ dirs) loaded = and_then (load_one mode disk dir) (λ s.
      if is_other_chain chain s.chain_id
      then fail wrong_chain
      else if is_taken s.height s.format loaded
      then fail duplicate
      else load_dirs mode chain disk dirs (s ∷ loaded))

  unfoldable pub load_store :
      VerifyMode → String → Disk → List String → Outcome StoreError (List LoadedSnapshot)
  unfolding load_dirs new_store
  load_store mode chain disk [] = fail no_dirs
  load_store mode chain disk (dir ∷ dirs) =
      and_then (load_dirs mode chain disk (dir ∷ dirs) []) (λ ss. ret (new_store ss))

  -- What a scan keeps of one directory; an error skips it. A panic is kept as a panic.
  abbrev pub scanned :
      String
      → List LoadedSnapshot
      → Outcome StoreError LoadedSnapshot
      → Outcome StoreError (List LoadedSnapshot)
  scanned chain loaded (ret s) =
      if is_other_chain chain s.chain_id || is_taken s.height s.format loaded
      then ret loaded
      else ret (s ∷ loaded)
  scanned chain loaded (fail e) = ret loaded
  scanned chain loaded panic = panic
  scanned chain loaded stuck = stuck

  -- The loop of `LoadStoreFromRoot` over the directories of the root, each with whether it is one.
  unfoldable pub scan_dirs :
      VerifyMode
      → String
      → Disk
      → List (String × Bool)
      → List LoadedSnapshot
      → Outcome StoreError (List LoadedSnapshot)
  unfolding load_one
  scan_dirs mode chain disk [] loaded = ret loaded
  scan_dirs mode chain disk ((dir, is_dir) ∷ dirs) loaded =
      if not is_dir || not (disk dir).complete
      then scan_dirs mode chain disk dirs loaded
      else and_then (scanned chain loaded (load_one mode disk dir))
          (λ ss. scan_dirs mode chain disk dirs ss)

  unfoldable pub load_store_from_root :
      VerifyMode → String → Disk → List (String × Bool) → Outcome StoreError (List LoadedSnapshot)
  unfolding scan_dirs new_store
  load_store_from_root mode chain disk dirs =
      and_then (scan_dirs mode chain disk dirs []) (λ ss. ret (new_store ss))

unfoldable pub list_snapshots : List LoadedSnapshot → List Snapshot
list_snapshots [] = []
list_snapshots (s ∷ ss) =
    record {
      height = s.height;
      format = s.format;
      chunks = s.chunks;
      hash = s.hash;
      metadata = s.metadata;
    }
    ∷ list_snapshots ss

-- `LoadChunk`, with what the disk holds when it is called.
unfoldable pub load_chunk : Disk → List LoadedSnapshot → ℕ → ℕ → ℕ → Loaded
load_chunk disk [] h f i = got [] false
load_chunk disk (s ∷ ss) h f i =
    if not (s.height == h) || not (s.format == f)
    then load_chunk disk ss h f i
    else if leb s.chunks i
    then got [] false
    else elim ((disk s.dir).chunk_file i) [ none ↦ unreadable | some bytes ↦ got bytes true ]

-- The store as the reactor's provider, over a disk that stays as it is.
unfoldable pub as_provider : Disk → List LoadedSnapshot → Provider
unfolding list_snapshots load_chunk
as_provider disk ss = record { list_snapshots = list_snapshots ss; load_chunk = load_chunk disk ss }
