-- ===== src/Import/Store/Root.antt =====
-- What `finalize` writes and returns.
use malcom.Prelude.{
  ℕ, ◌^◌, ◌<◌, ◌≡◌, ◌≢◌, refl, ap, subst, ◌∙◌, List, [], ◌∷◌, ◌++◌, Bytes, codes, Bool, false,
  arith, some, Outcome, ret, and_then, ◌==◌, ==_iff, if◌then◌else◌, if_split, Bool-cases, inl, inr,
}
use malcom.Prelude.Map.{get, bytes_key, get-here, get-there}
use malcom.Import.Encoding.{store_prefix, node_db_key, metadata_db_key}
use malcom.Import.Encoding.Keys.{node_db_key_injective, node_db_key-ne-metadata}
use malcom.Import.Store.{
  Frame, StoreImporter, StoreError, set_canonical_root, set_empty_root, new_store_importer,
  import_store, add_nodes, finalize_empty, finalize, finalize_root, finalize_stack, write_redirect,
  write_storage_version_marker, redirect, int64_text, with_hash,
}
use malcom.Import.Store.Trees.{Tree, post_order, IsTree, frame_of, merkle}
use malcom.Import.Store.Complete.{write-accepted, pushed, add_nodes-post_order}

module _ (sha256 : Bytes → Bytes) (refuses refuses_fast : Bytes → Bytes → Bool)
    (accepted : (k v : Bytes) → refuses k v ≡ false)
    (accepted_fast : (k v : Bytes) → refuses_fast k v ≡ false) where
  -- The writes of `finalize` to a store with a root, the latest first.
  abbrev closing_writes : Frame → StoreImporter → List (Bytes × Bytes)
  closing_writes root s =
      let p = store_prefix s.store_name in
      let canonical = (node_db_key p root.version 1, s.last_iavl_bytes) ∷ s.written in
      (metadata_db_key p (codes "storage_version"), codes "1.1.0-" ++ int64_text s.height)
      ∷ (if root.version == s.height
          then canonical
          else (node_db_key p s.height 1, redirect root.version) ∷ canonical)

  write_redirect-accepted :
      (root : Frame) (s : StoreImporter)
      → write_redirect sha256 refuses refuses_fast root s
        ≡ ret record s {
          written =
              if root.version == s.height
              then s.written
              else (node_db_key (store_prefix s.store_name) s.height 1, redirect root.version)
                ∷ s.written;
        }
  unfolding write_redirect
  write_redirect-accepted root s = elim (Bool-cases (root.version == s.height)) [
    | inl t ↦ rw t refl
    | inr f ↦ rw (f, write-accepted sha256 refuses refuses_fast accepted accepted_fast) refl
  ]

  write_storage_version_marker-accepted :
      (s : StoreImporter)
      → write_storage_version_marker sha256 refuses refuses_fast s
        ≡ ret record s {
          written =
              (
                metadata_db_key (store_prefix s.store_name) (codes "storage_version"),
                codes "1.1.0-" ++ int64_text s.height,
              )
              ∷ s.written;
        }
  unfolding write_storage_version_marker
  write_storage_version_marker-accepted s =
      write-accepted sha256 refuses refuses_fast accepted accepted_fast _ _ _ s

  finalize_root-writes :
      (root : Frame) (s : StoreImporter)
      → finalize_root sha256 refuses refuses_fast root s
        ≡ ret (root.hash, record s { written = closing_writes root s })
  unfolding finalize_root
  finalize_root-writes root s =
      let p = store_prefix s.store_name in
      let s1 : StoreImporter = record s {
        written = (node_db_key p root.version 1, s.last_iavl_bytes) ∷ s.written;
      } in
      rw
        (write-accepted sha256 refuses refuses_fast accepted accepted_fast set_canonical_root
          (node_db_key p root.version 1) s.last_iavl_bytes s)
        (ap
          (λ (o : Outcome StoreError StoreImporter).
            with_hash sha256 refuses refuses_fast root.hash o)
          (chained root s1))
    where
      chained :
          (r : Frame) (s1 : StoreImporter)
          → and_then
              (write_redirect sha256 refuses refuses_fast r s1)
              (write_storage_version_marker sha256 refuses refuses_fast)
            ≡ ret record s1 {
              written =
                  (
                    metadata_db_key (store_prefix s1.store_name) (codes "storage_version"),
                    codes "1.1.0-" ++ int64_text s1.height,
                  )
                  ∷ (if r.version == s1.height
                      then s1.written
                      else (
                        node_db_key (store_prefix s1.store_name) s1.height 1,
                        redirect r.version,
                      )
                        ∷ s1.written);
            }
      chained r s1 =
          rw (write_redirect-accepted r s1, and_then) (write_storage_version_marker-accepted _)

  -- The lookups behind the closing writes.
  module _ (root : Frame) (s : StoreImporter) where
    abbrev canonical_key : Bytes
    canonical_key = node_db_key (store_prefix s.store_name) root.version 1

    abbrev latest_key : Bytes
    latest_key = node_db_key (store_prefix s.store_name) s.height 1

    latest-ne-canonical :
        root.version < 2 ^ 64
        → s.height < 2 ^ 64
        → (root.version == s.height) ≡ false
        → latest_key ≢ canonical_key
    latest-ne-canonical hv hh f e =
        let (vs, _) =
          node_db_key_injective (store_prefix s.store_name) s.height 1 root.version 1 hh hv
            (omega arith) (omega arith) e in
        ground (arith, vs)

    get-canonical :
        root.version < 2 ^ 64
        → s.height < 2 ^ 64
        → get canonical_key (closing_writes root s) ≡ some s.last_iavl_bytes
    get-canonical hv hh =
        let p = store_prefix s.store_name in
        let marked = node_db_key-ne-metadata p root.version 1 (codes "storage_version") in
        get-there canonical_key (metadata_db_key p (codes "storage_version")) _ _ marked
        ∙ if_split (λ m. get canonical_key m ≡ some s.last_iavl_bytes) (root.version == s.height)
            (λ t. get-here canonical_key s.last_iavl_bytes s.written)
            (λ f.
              get-there canonical_key latest_key _ _ (latest-ne-canonical hv hh f)
              ∙ get-here canonical_key s.last_iavl_bytes s.written)

    get-latest :
        get latest_key (closing_writes root s)
        ≡ some (if root.version == s.height then s.last_iavl_bytes else redirect root.version)
    get-latest =
        let p = store_prefix s.store_name in
        let marked = node_db_key-ne-metadata p s.height 1 (codes "storage_version") in
        get-there latest_key (metadata_db_key p (codes "storage_version")) _ _ marked
        ∙ (elim (Bool-cases (root.version == s.height)) [
          | inl t ↦ rw t (
              subst
                (λ (v : ℕ).
                  get (node_db_key p v 1) ((canonical_key, s.last_iavl_bytes) ∷ s.written)
                  ≡ some s.last_iavl_bytes)
                ((==_iff root.version s.height).0 t)
                (get-here canonical_key s.last_iavl_bytes s.written))
          | inr f ↦ rw f (get-here latest_key (redirect root.version) _)
        ])

  finalize-returns :
      (root : Frame) (s : StoreImporter)
      → s.stack ≡ root ∷ []
      → finalize sha256 refuses refuses_fast s
        ≡ ret (root.hash, record s { written = closing_writes root s })
  unfolding finalize
  finalize-returns root s e =
      ap (λ (st : List Frame). finalize_stack sha256 refuses refuses_fast st s) e
      ∙ finalize_root-writes root s

  -- Where no write is refused, `finalize` of an importer whose stack holds one frame, the root, returns the
  -- root's hash. Then the key with the root's version and nonce 1 holds the bytes of the node added last,
  -- and the key with the snapshot's height and nonce 1 holds those bytes too if the root has that version,
  -- and else a redirect to the root's version.
  pub finalize-one_root :
      (root : Frame) (s : StoreImporter)
      → s.stack ≡ root ∷ []
      → root.version < 2 ^ 64
      → s.height < 2 ^ 64
      → (s' : StoreImporter) × (finalize sha256 refuses refuses_fast s ≡ ret (root.hash, s'))
        × (get (node_db_key (store_prefix s.store_name) root.version 1) s'.written
            ≡ some s.last_iavl_bytes)
        × (get (node_db_key (store_prefix s.store_name) s.height 1) s'.written
            ≡ some (if root.version == s.height then s.last_iavl_bytes else redirect root.version))
  finalize-one_root root s e hv hh = (
    record s { written = closing_writes root s },
    finalize-returns root s e,
    get-canonical root s hv hh,
    get-latest root s,
  )

  -- The importer after the last node of a store, and the answer of `finalize` then.
  pub tree_answer :
      (name : Bytes) (height : ℕ) (t : Tree)
      → IsTree t
      → (s : StoreImporter) × (s' : StoreImporter) × (add_nodes sha256 refuses refuses_fast
            (post_order t)
            (new_store_importer name height)
          ≡ ret s)
        × (finalize sha256 refuses refuses_fast s ≡ ret (merkle sha256 t, s'))
  unfolding new_store_importer
  tree_answer name height t ok =
      let start = new_store_importer name height in
      let (s, nonce, e, st) =
        pushed sha256 t start.stack _
          (add_nodes-post_order sha256 refuses refuses_fast accepted accepted_fast t start ok) in
      (
        s,
        record s { written = closing_writes (frame_of sha256 t nonce) s },
        e,
        finalize-returns (frame_of sha256 t nonce) s st,
      )

  pub empty_answer :
      (name : Bytes) (height : ℕ)
      → (s' : StoreImporter) × (finalize sha256 refuses refuses_fast
            (new_store_importer name height)
          ≡ ret (sha256 [], s'))
  unfolding finalize finalize_empty new_store_importer
  empty_answer name height =
      let s = new_store_importer name height in
      let p = store_prefix name in
      let s1 : StoreImporter = record s { written = (node_db_key p height 1, []) ∷ s.written } in
      (
        record s1 {
          written =
              (metadata_db_key p (codes "storage_version"), codes "1.1.0-" ++ int64_text height)
              ∷ s1.written;
        },
        rw
            (write-accepted sha256 refuses refuses_fast accepted accepted_fast set_empty_root
              (node_db_key p height 1) [] s)
            (ap
              (λ (o : Outcome StoreError StoreImporter).
                with_hash sha256 refuses refuses_fast (sha256 []) o)
              (write_storage_version_marker-accepted s1)),
      )

  -- A well-formed tree's stream, imported as one store with no write refused, gives the tree's Merkle root.
  pub import_store-merkle :
      (name : Bytes) (height : ℕ) (t : Tree)
      → IsTree t
      → (s : StoreImporter) × (import_store sha256 refuses refuses_fast name height (post_order t)
          ≡ ret (merkle sha256 t, s))
  unfolding import_store
  import_store-merkle name height t ok =
      let (s, s', e, f) = tree_answer name height t ok in
      (
        s',
        ap
              (λ (o : Outcome StoreError StoreImporter).
                and_then o (finalize sha256 refuses refuses_fast))
              e
            ∙ f,
      )
