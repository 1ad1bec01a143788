-- ===== src/Import/Run.antt =====
-- internal/snapshotimport/importer.go and extensions.go: `runImport`, which rebuilds every store of a
-- stream and writes the commit info. The items are those that the decoder gives, and `clean` says whether
-- it then ended without an error. What pebble, its sstable writer and the file system refuse is a
-- parameter; batches, statistics but the counts of items and extensions, and log lines are left out.
pub mod Stores
use malcom.Prelude.{
  ℕ, ◌+◌, ◌%◌, ◌^◌, Bool, true, false, ◌||◌, List, [], ◌∷◌, ◌++◌, Bytes, codes, Option, none, some,
  ◌==◌, if◌then◌else◌, length, Outcome, ret, fail, panic, stuck, and_then, map_error,
}
use malcom.Prelude.Map.{Map}
use malcom.Prelude.Decimal.{decimal}
use malcom.Import.SnapItem.{SnapItem, store, iavl, ext_meta, ext_payload, or_empty}
use malcom.Import.Store.{
  ExportNode, StoreImporter, StoreError, new_store_importer, add_node, finalize,
}
use malcom.Import.CommitInfo.{
  StoreInfo, commit_info_bytes, commit_info_key, latest_version_key, latest_version_bytes,
}

pub data RunError : Type 0 where
  read_item open_store ingest_store iavl_before_store make_extension_dir write_payload_file
        write_commit_info write_latest_version :
      RunError
  finalize_store add_to_store : StoreError → RunError

-- `extensionWriter`, with the files that it has written, the latest first: an extension's name, the
-- file's name in its directory, and the payload.
pub record ExtensionWriter : Type 0 where
  pub ext_dir : Bytes
  pub cur_name : Bytes
  pub cur_format : ℕ
  pub cur_index : ℕ
  pub files : List (Bytes × Bytes × Bytes)

-- The variables of `runImport`; `db` is what was set for the stores that are closed, the latest first.
pub record Driver : Type 0 where
  pub height : ℕ
  pub current : Option StoreImporter
  pub cur_name : Bytes
  pub stores : List StoreInfo
  pub db : Map Bytes Bytes
  pub extensions : ExtensionWriter
  pub items : ℕ
  pub extension_count : ℕ
  pub payload_count : ℕ

unfoldable payload_file_name : ℕ → ℕ → Bytes
unfolding decimal
payload_file_name index format =
    codes "payload-"
    ++ (decimal 10 index [] ++ (codes "-format" ++ (decimal 10 format [] ++ codes ".bin")))

-- The outside world: what each of its calls refuses.
pub record World : Type 0 where
  pub sha256 : Bytes → Bytes
  pub refuses : Bytes → Bytes → Bool
  pub refuses_fast : Bytes → Bytes → Bool
  pub open_fails : Bytes → Bool
  pub ingest_fails : Bytes → Bool
  pub mkdir_fails : Bytes → Bool
  pub write_file_fails : Bytes → Bytes → Bool

unfoldable pub open_meta : World → Bytes → ℕ → Driver → Outcome RunError Driver
open_meta w name format d =
    let opened = record d.extensions { cur_name = name; cur_format = format; cur_index = 0 } in
    let d' : Driver = record d { extensions = opened; extension_count = d.extension_count + 1 } in
    if length d.extensions.ext_dir == 0
    then ret d'
    else if w.mkdir_fails name
    then fail make_extension_dir
    else ret d'

unfoldable pub write_payload : World → Bytes → Driver → Outcome RunError Driver
unfolding payload_file_name
write_payload w payload d =
    let e = d.extensions in
    let file = payload_file_name e.cur_index e.cur_format in
    let next : ExtensionWriter = record e { cur_index = (e.cur_index + 1) % 2 ^ 32 } in
    let count = d.payload_count + 1 in
    if length e.ext_dir == 0 || length e.cur_name == 0
    then ret record d { extensions = next; payload_count = count }
    else if w.write_file_fails e.cur_name file
    then fail write_payload_file
    else ret record d {
      extensions = record next { files = (e.cur_name, file, payload) ∷ e.files };
      payload_count = count;
    }

-- What `closeCurrent` does with a store's answer.
unfoldable pub store_closed : World → Driver → Bytes × StoreImporter → Outcome RunError Driver
store_closed w d (hash, s) =
    if w.ingest_fails s.store_name
    then fail ingest_store
    else ret record d {
      current = none;
      stores = d.stores ++ record { name = d.cur_name; hash = hash } ∷ [];
      db = s.written ++ d.db;
      items = d.items + s.item_count;
    }

abbrev close_importer : World → Driver → Option StoreImporter → Outcome RunError Driver
close_importer w d none = ret d
close_importer w d (some s) =
    and_then (map_error finalize_store (finalize w.sha256 w.refuses w.refuses_fast s))
      (store_closed w d)

unfoldable pub close_current : World → Driver → Outcome RunError Driver
close_current w d = close_importer w d d.current

unfoldable pub open_store_item : World → Bytes → Driver → Outcome RunError Driver
open_store_item w name d =
    if w.open_fails name
    then fail open_store
    else ret record d { current = some (new_store_importer name d.height); cur_name = name }

abbrev add_item : World → ExportNode → Driver → Option StoreImporter → Outcome RunError Driver
add_item w n d none = fail iavl_before_store
add_item w n d (some s) =
    and_then (map_error add_to_store (add_node w.sha256 w.refuses w.refuses_fast n s))
      (λ s'. ret record d { current = some s' })

-- The switch over the item's type.
unfoldable pub run_item : World → SnapItem → Driver → Outcome RunError Driver
run_item w (store name) d = and_then (close_current w d) (open_store_item w name)
run_item w (iavl key value version height) d =
    add_item w
      record { height = height; version = version; key = or_empty key; value = or_empty value } d
      d.current
run_item w (ext_meta name format) d = and_then (close_current w d) (open_meta w name format)
run_item w (ext_payload payload) d = write_payload w (or_empty payload) d

unfoldable pub run_items : World → List SnapItem → Driver → Outcome RunError Driver
run_items w [] d = ret d
run_items w (i ∷ is) d = and_then (run_item w i d) (run_items w is)

unfoldable pub write_commit : World → Driver → Outcome RunError Driver
write_commit w d =
    let key = commit_info_key d.height in
    let value = commit_info_bytes d.height d.stores in
    let latest = latest_version_bytes d.height in
    if w.refuses key value
    then fail write_commit_info
    else if w.refuses latest_version_key latest
    then fail write_latest_version
    else ret record d { db = (latest_version_key, latest) ∷ (key, value) ∷ d.db }

unfoldable pub start : ℕ → Bytes → Driver
start height ext_dir = record {
  height = height;
  current = none;
  cur_name = [];
  stores = [];
  db = [];
  extensions = record {
    ext_dir = ext_dir;
    cur_name = [];
    cur_format = 0;
    cur_index = 0;
    files = [];
  };
  items = 0;
  extension_count = 0;
  payload_count = 0;
}

unfoldable pub run_import : World → ℕ → Bytes → List SnapItem → Bool → Outcome RunError Driver
run_import w height ext_dir is clean =
    and_then (run_items w is (start height ext_dir))
      (λ d. if clean then and_then (close_current w d) (write_commit w) else fail read_item)
