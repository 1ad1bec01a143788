-- ===== src/Import/Store.antt =====
-- internal/snapshotimport/importer.go: `storeImporter`, which rebuilds one IAVL store from the post-order
-- stream of its nodes, in its sequential form (`runImport` never enables the other one). The callbacks
-- `set` and `setFast` are pebble's: two parameters say which writes they refuse. The head of the stack
-- is its top.
pub mod Trees
pub mod Complete
pub mod Root
pub mod Sound
use malcom.Prelude.{
  ℕ, zero, suc, ◌+◌, ◌-◌, ◌*◌, ◌/◌, ◌%◌, ◌^◌, Bool, false, ◌&&◌, not, List, [], ◌∷◌, ◌++◌, Bytes,
  codes, ltb, ◌==◌, if◌then◌else◌, Outcome, ret, fail, panic, stuck, and_then,
}
use malcom.Prelude.Map.{Map}
use malcom.Prelude.Decimal.{decimal}
use malcom.Import.Encoding.{
  store_prefix, node_key, node_db_key, fast_db_key, metadata_db_key, encode_leaf_node,
  encode_inner_node, encode_fast_node, hash_leaf, hash_inner,
}
use malcom.Import.Nonces.{Nonces, no_nonces, next_nonce}

pub record Frame : Type 0 where
  pub hash : Bytes
  pub size : ℕ
  pub version : ℕ
  pub nonce : ℕ
  pub height : ℕ

-- One node of the stream.
pub record ExportNode : Type 0 where
  pub height : ℕ
  pub version : ℕ
  pub key : Bytes
  pub value : Bytes

-- `written` and `ingested` are what `set` and `setFast` were given, the latest first.
pub record StoreImporter : Type 0 where
  pub store_name : Bytes
  pub nonces : Nonces
  pub stack : List Frame
  pub height : ℕ
  pub last_iavl_bytes : Bytes
  pub item_count : ℕ
  pub leaf_count : ℕ
  pub inner_count : ℕ
  pub written : Map Bytes Bytes
  pub ingested : Map Bytes Bytes

pub data StoreError : Type 0 where
  set_leaf_node set_fast_node not_a_pair set_inner_node set_empty_root many_roots set_canonical_root
        set_root_redirect set_storage_version :
      StoreError

-- `<` on int8.
unfoldable pub below : ℕ → ℕ → Bool
below a b = ltb ((a + 128) % 256) ((b + 128) % 256)

unfoldable pub new_store_importer : Bytes → ℕ → StoreImporter
new_store_importer name height = record {
  store_name = name;
  nonces = no_nonces;
  stack = [];
  height = height;
  last_iavl_bytes = [];
  item_count = 0;
  leaf_count = 0;
  inner_count = 0;
  written = [];
  ingested = [];
}

unfoldable pub closes_pair : ℕ → List Frame → Bool
unfolding below
closes_pair height (right ∷ left ∷ rest) = below right.height height && below left.height height
closes_pair height _ = false

-- `%d` of an int64.
unfoldable pub int64_text : ℕ → Bytes
unfolding decimal
int64_text x = if ltb x (2 ^ 63) then decimal 20 x [] else b'-' ∷ decimal 20 (2 ^ 64 - x) []

-- A root redirect: the node key of the version whose root is meant.
unfoldable pub redirect : ℕ → Bytes
unfolding node_key
redirect version = node_key version 1

module _ (sha256 : Bytes → Bytes) (refuses refuses_fast : Bytes → Bytes → Bool) where
  -- `set`.
  unfoldable pub write :
      StoreError → Bytes → Bytes → StoreImporter → Outcome StoreError StoreImporter
  write e key value s =
      if refuses key value then fail e else ret record s { written = (key, value) ∷ s.written }

  -- `setFast`.
  unfoldable pub write_fast :
      StoreError → Bytes → Bytes → StoreImporter → Outcome StoreError StoreImporter
  write_fast e key value s =
      if refuses_fast key value
      then fail e
      else ret record s { ingested = (key, value) ∷ s.ingested }

  -- The leaf's part of `addNode`.
  unfoldable pub add_leaf : ExportNode → StoreImporter → Outcome StoreError StoreImporter
  unfolding write write_fast next_nonce
  add_leaf n s =
      let (nonce, nonces) = next_nonce n.version s.nonces in
      let bytes = encode_leaf_node n.key n.value in
      let prefix = store_prefix s.store_name in
      let frame : Frame = record {
        hash = hash_leaf sha256 n.version n.key n.value;
        size = 1;
        version = n.version;
        nonce = nonce;
        height = 0;
      } in
      and_then
        (write set_leaf_node (node_db_key prefix n.version nonce) bytes
          record s { nonces = nonces })
        (λ s1.
          and_then
            (write_fast set_fast_node (fast_db_key prefix n.key)
              (encode_fast_node n.version n.value) record s1 { last_iavl_bytes = bytes })
            (λ s2.
              ret record s2 { stack = frame ∷ s.stack; leaf_count = (s.leaf_count + 1) % 2 ^ 64 }))

  -- What `addNode` does with the two topmost frames.
  unfoldable pub join_pair :
      ExportNode → Frame → Frame → List Frame → StoreImporter → Outcome StoreError StoreImporter
  unfolding write next_nonce
  join_pair n right left rest s =
      let size = (left.size + right.size) % 2 ^ 64 in
      let (nonce, nonces) = next_nonce n.version s.nonces in
      let hash = hash_inner sha256 n.version n.height size left.hash right.hash in
      let bytes =
        encode_inner_node n.height size n.key hash left.version left.nonce right.version
          right.nonce in
      let frame : Frame = record {
        hash = hash;
        size = size;
        version = n.version;
        nonce = nonce;
        height = n.height;
      } in
      and_then
        (write set_inner_node (node_db_key (store_prefix s.store_name) n.version nonce) bytes
          record s { nonces = nonces })
        (λ s1. ret record s1 {
          last_iavl_bytes = bytes;
          stack = frame ∷ rest;
          inner_count = (s.inner_count + 1) % 2 ^ 64;
        })

  -- The inner node's part of `addNode`, over the stack.
  unfoldable pub add_inner :
      ExportNode → List Frame → StoreImporter → Outcome StoreError StoreImporter
  unfolding closes_pair join_pair
  add_inner n (right ∷ left ∷ rest) s =
      if closes_pair n.height (right ∷ left ∷ rest)
      then join_pair n right left rest s
      else fail not_a_pair
  add_inner n (right ∷ []) s = fail not_a_pair
  add_inner n [] s = fail not_a_pair

  unfoldable pub add_node : ExportNode → StoreImporter → Outcome StoreError StoreImporter
  unfolding add_leaf add_inner
  add_node n s =
      let s' : StoreImporter = record s { item_count = (s.item_count + 1) % 2 ^ 64 } in
      if n.height == 0 then add_leaf n s' else add_inner n s'.stack s'

  -- The loop of `runImport` over the nodes of one store.
  unfoldable pub add_nodes : List ExportNode → StoreImporter → Outcome StoreError StoreImporter
  unfolding add_node
  add_nodes [] s = ret s
  add_nodes (n ∷ ns) s = and_then (add_node n s) (add_nodes ns)

  unfoldable pub write_storage_version_marker : StoreImporter → Outcome StoreError StoreImporter
  unfolding write int64_text
  write_storage_version_marker s =
      write set_storage_version
        (metadata_db_key (store_prefix s.store_name) (codes "storage_version"))
        (codes "1.1.0-" ++ int64_text s.height) s

  abbrev pub with_hash :
      Bytes → Outcome StoreError StoreImporter → Outcome StoreError (Bytes × StoreImporter)
  with_hash h (ret s) = ret (h, s)
  with_hash h (fail e) = fail e
  with_hash h panic = panic
  with_hash h stuck = stuck

  unfoldable pub finalize_empty : StoreImporter → Outcome StoreError (Bytes × StoreImporter)
  unfolding write write_storage_version_marker
  finalize_empty s = with_hash (sha256 []) (
      and_then (write set_empty_root (node_db_key (store_prefix s.store_name) s.height 1) [] s)
        write_storage_version_marker)

  unfoldable pub write_redirect : Frame → StoreImporter → Outcome StoreError StoreImporter
  unfolding write redirect
  write_redirect root s =
      if root.version == s.height
      then ret s
      else write set_root_redirect (node_db_key (store_prefix s.store_name) s.height 1)
          (redirect root.version) s

  unfoldable pub finalize_root : Frame → StoreImporter → Outcome StoreError (Bytes × StoreImporter)
  unfolding write write_redirect write_storage_version_marker
  finalize_root root s = with_hash root.hash (
      and_then
        (write set_canonical_root (node_db_key (store_prefix s.store_name) root.version 1)
          s.last_iavl_bytes s)
        (λ s1. and_then (write_redirect root s1) write_storage_version_marker))

  abbrev pub finalize_stack :
      List Frame → StoreImporter → Outcome StoreError (Bytes × StoreImporter)
  finalize_stack [] s = finalize_empty s
  finalize_stack (root ∷ []) s = finalize_root root s
  finalize_stack (root ∷ other ∷ rest) s = fail many_roots

  unfoldable pub finalize : StoreImporter → Outcome StoreError (Bytes × StoreImporter)
  unfolding finalize_empty finalize_root
  finalize s = finalize_stack s.stack s

  -- One store from its first item to its last.
  unfoldable pub import_store :
      Bytes → ℕ → List ExportNode → Outcome StoreError (Bytes × StoreImporter)
  unfolding new_store_importer add_nodes finalize
  import_store name height ns = and_then (add_nodes ns (new_store_importer name height)) finalize
