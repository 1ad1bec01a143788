-- ===== src/Examples/Imports.antt =====
-- The theorems on the store importer at concrete inputs. The hash is a toy.
use malcom.Prelude.{
  suc, ◌≡◌, ◌⊎◌, refl, List, [], ◌∷◌, Bytes, codes, Bool, true, false, none, some, arith, ret, ◌==◌,
  if◌then◌else◌, length,
}
use malcom.Prelude.Map.{bytes_key, nat_key, get}
use malcom.Import.Encoding.{store_prefix, node_db_key}
use malcom.Import.Nonces.{no_nonces, nonces_of}
use malcom.Import.Nonces.Counting.{numbered, nonces_of-plain_count}
use malcom.Import.Store.{
  StoreImporter, Frame, import_store, finalize, redirect, new_store_importer, below,
}
use malcom.Import.Store.Trees.{Tree, leaf, inner, post_order, IsTree, merkle}
use malcom.Import.Store.Root.{import_store-merkle, finalize-one_root}
use malcom.Import.Store.Sound.{import_store_sound}
use malcom.Import.CommitInfo.{
  commit_info_key, commit_info_bytes, latest_version_key, latest_version_bytes,
}
use malcom.Import.Run.{World, Driver, run_import}
use malcom.Import.Run.Stores.{ChainStore, items_of, infos_of, IsWilling, run_import-stores}

-- The length and the first byte.
abbrev toy_hash : Bytes → Bytes
toy_hash [] = 0 ∷ []
toy_hash (b ∷ bs) = suc (length bs) ∷ b ∷ []

abbrev refuse_none : Bytes → Bytes → Bool
refuse_none k v = false

abbrev small_tree : Tree
small_tree =
    inner 7 2 (codes "m") []
      (inner 5 1 (codes "b") [] (leaf 3 (codes "a") (codes "one"))
        (leaf 5 (codes "b") (codes "two")))
      (leaf 7 (codes "m") [])

small_tree-IsTree : IsTree small_tree
unfolding below
small_tree-IsTree = (omega arith, refl, refl, (omega arith, refl, refl, tt, tt), tt)

imported :
    (s : StoreImporter) × (import_store toy_hash refuse_none refuse_none
        (codes "bank")
        9
        (post_order small_tree)
      ≡ ret (merkle toy_hash small_tree, s))
imported =
    import_store-merkle toy_hash refuse_none refuse_none (λ k v. refl) (λ k v. refl) (codes "bank")
      9 small_tree small_tree-IsTree

import_store-merkle_example :
    (s : StoreImporter) × (import_store toy_hash refuse_none refuse_none
        (codes "bank")
        9
        (post_order small_tree)
      ≡ ret (merkle toy_hash small_tree, s))
import_store-merkle_example =
    import_store-merkle toy_hash refuse_none refuse_none (λ k v. refl) (λ k v. refl) (codes "bank")
      9 small_tree small_tree-IsTree

import_store_sound_example :
    ((post_order small_tree ≡ []) × (merkle toy_hash small_tree ≡ toy_hash []))
    ⊎ ((t : Tree) × IsTree t
        × (post_order small_tree ≡ post_order t)
        × (merkle toy_hash small_tree ≡ merkle toy_hash t))
import_store_sound_example =
    import_store_sound toy_hash refuse_none refuse_none (codes "bank") 9 (post_order small_tree)
      (merkle toy_hash small_tree) imported.0 imported.1

abbrev one_root : Frame
one_root = record { hash = 1 ∷ 2 ∷ []; size = 1; version = 7; nonce = 2; height = 0 }

abbrev at_the_end : StoreImporter
at_the_end = record (new_store_importer (codes "bank") 9) {
  stack = one_root ∷ [];
  last_iavl_bytes = 5 ∷ 6 ∷ [];
}

finalize-one_root_example :
    (s' : StoreImporter) × (finalize toy_hash refuse_none refuse_none at_the_end
      ≡ ret (1 ∷ 2 ∷ [], s'))
    × (get (node_db_key (store_prefix at_the_end.store_name) 7 1) s'.written ≡ some (5 ∷ 6 ∷ []))
    × (get (node_db_key (store_prefix at_the_end.store_name) at_the_end.height 1) s'.written
        ≡ some (if 7 == at_the_end.height then 5 ∷ 6 ∷ [] else redirect 7))
unfolding new_store_importer
finalize-one_root_example =
    finalize-one_root toy_hash refuse_none refuse_none (λ k v. refl) (λ k v. refl) one_root
      at_the_end refl (omega arith) (omega arith)

nonces_of-plain_count_example :
    nonces_of (3 ∷ 3 ∷ 5 ∷ 3 ∷ []) no_nonces ≡ numbered [] (3 ∷ 3 ∷ 5 ∷ 3 ∷ [])
nonces_of-plain_count_example =
    nonces_of-plain_count (3 ∷ 3 ∷ 5 ∷ 3 ∷ []) (omega arith) (omega arith)

abbrev willing_world : World
willing_world = record {
  sha256 = toy_hash;
  refuses = refuse_none;
  refuses_fast = refuse_none;
  open_fails = λ name. false;
  ingest_fails = λ name. false;
  mkdir_fails = λ name. true;
  write_file_fails = λ name file. true;
}

willing_world-IsWilling : IsWilling willing_world
willing_world-IsWilling = record {
  sets = λ k v. refl;
  sets_fast = λ k v. refl;
  opens = λ name. refl;
  ingests = λ name. refl;
}

abbrev two_stores : List ChainStore
two_stores = (codes "bank", some small_tree) ∷ (codes "wasm", none) ∷ []

run_import-stores_example :
    (d : Driver) × (run_import willing_world 9 [] (items_of two_stores) true ≡ ret d)
    × (d.stores ≡ infos_of toy_hash two_stores)
    × (get (commit_info_key 9) d.db ≡ some (commit_info_bytes 9 (infos_of toy_hash two_stores)))
    × (get latest_version_key d.db ≡ some (latest_version_bytes 9))
run_import-stores_example =
    run_import-stores willing_world willing_world-IsWilling 9 [] two_stores
      (small_tree-IsTree, (tt, tt))
