-- ===== src/Import/Run/Stores.antt =====
-- The driver over a stream of stores, whole.
use malcom.Prelude.{
  ℕ, ◌+◌, ◌≡◌, ◌≢◌, ◌<◌, refl, sym, ap, subst, ◌∙◌, List, [], ◌∷◌, ◌++◌, append_assoc, append-nil,
  Bytes, Option, none, some, true, false, arith, Outcome, ret, fail, panic, stuck, and_then,
  map_error, if_split, ltb, get_or, ◌^◌,
}
use malcom.Prelude.Map.{get, bytes_key, get-here, get-there}
use malcom.Prelude.Decimal.{first-decimal}
use malcom.Import.SnapItem.{SnapItem, store, iavl}
use malcom.Import.Store.{
  int64_text, ExportNode, StoreImporter, StoreError, new_store_importer, add_node, add_nodes,
  finalize,
}
use malcom.Import.Store.Trees.{Tree, post_order, IsTree, merkle}
use malcom.Import.Store.Root.{tree_answer, empty_answer}
use malcom.Import.CommitInfo.{
  StoreInfo, commit_info_bytes, commit_info_key, latest_version_key, latest_version_bytes,
}
use malcom.Import.Run.{
  World, Driver, RunError, run_items, run_item, run_import, close_current, store_closed,
  open_store_item, write_commit, start,
}

abbrev node_item : ExportNode → SnapItem
node_item n = iavl (some n.key) (some n.value) n.version n.height

abbrev node_items : List ExportNode → List SnapItem
node_items [] = []
node_items (n ∷ ns) = node_item n ∷ node_items ns

-- A store of the chain: its name and its tree, none where it is empty.
abbrev pub ChainStore : Type 0
ChainStore = Bytes × Option Tree

abbrev nodes_of : Option Tree → List ExportNode
nodes_of none = []
nodes_of (some t) = post_order t

abbrev root_of : (Bytes → Bytes) → Option Tree → Bytes
root_of sha256 none = sha256 []
root_of sha256 (some t) = merkle sha256 t

abbrev pub items_of : List ChainStore → List SnapItem
items_of [] = []
items_of ((name, t) ∷ ss) = store name ∷ node_items (nodes_of t) ++ items_of ss

abbrev pub infos_of : (Bytes → Bytes) → List ChainStore → List StoreInfo
infos_of sha256 [] = []
infos_of sha256 ((name, t) ∷ ss) =
    record { name = name; hash = root_of sha256 t } ∷ infos_of sha256 ss

abbrev HasTree : Option Tree → Type 0
HasTree none = Unit
HasTree (some t) = IsTree t

abbrev AllTrees : List ChainStore → Type 0
AllTrees [] = Unit
AllTrees ((name, t) ∷ ss) = HasTree t × AllTrees ss

-- A world that refuses nothing.
pub record IsWilling (w : World) : Type 0 where
  pub sets : (k v : Bytes) → w.refuses k v ≡ false
  pub sets_fast : (k v : Bytes) → w.refuses_fast k v ≡ false
  pub opens : (name : Bytes) → w.open_fails name ≡ false
  pub ingests : (name : Bytes) → w.ingest_fails name ≡ false

-- The driver holds a store that it can close with this answer, or none.
abbrev Ready : World → ℕ → List StoreInfo → Driver → Type 0
Ready w height infos d =
    (d' : Driver) × (close_current w d ≡ ret d') × (d'.stores ≡ infos) × (d'.height ≡ height)

module _ (w : World) where
  abbrev with_current : Driver → StoreImporter → Driver
  with_current d s = record d { current = some s }

  after_nodes :
      (is : List SnapItem) (d : Driver) (ns : List ExportNode)
      (o : Outcome StoreError StoreImporter)
      → ((s : StoreImporter)
          → run_items w (node_items ns ++ is) (with_current d s)
            ≡ and_then
                (map_error RunError.add_to_store (add_nodes w.sha256 w.refuses w.refuses_fast ns s))
                (λ s'. run_items w is (with_current d s')))
      → and_then
          (and_then (map_error RunError.add_to_store o) (λ s'. ret (with_current d s')))
          (run_items w (node_items ns ++ is))
        ≡ and_then
            (map_error RunError.add_to_store
              (and_then o (add_nodes w.sha256 w.refuses w.refuses_fast ns)))
            (λ s'. run_items w is (with_current d s'))
  after_nodes is d ns (ret s) h = h s
  after_nodes is d ns (fail e) h = refl
  after_nodes is d ns panic h = refl
  after_nodes is d ns stuck h = refl

  -- The nodes of one store, item by item, are `add_nodes`.
  run_items-node_items :
      (ns : List ExportNode) (is : List SnapItem) (d : Driver) (s : StoreImporter)
      → run_items w (node_items ns ++ is) (with_current d s)
        ≡ and_then
            (map_error RunError.add_to_store (add_nodes w.sha256 w.refuses w.refuses_fast ns s))
            (λ s'. run_items w is (with_current d s'))
  unfolding run_items run_item add_nodes
  run_items-node_items [] is d s = refl
  run_items-node_items (n ∷ ns) is d s =
      after_nodes is d ns (add_node w.sha256 w.refuses w.refuses_fast n s)
        (run_items-node_items ns is d)

-- `s/latest` is no version's key: the number is printed without letters.
latest-ne-commit_info : (v : ℕ) → latest_version_key ≢ commit_info_key v
unfolding commit_info_key int64_text
latest-ne-commit_info v e =
    let first : get_or (int64_text v) 0 0 < 58 =
      if_split (λ (bs : Bytes). get_or bs 0 0 < 58) (ltb v (2 ^ 63))
        (λ t. first-decimal 20 v [] (omega arith)) (λ _. omega arith) in
    let at_two : ◌≡◌ {A = ℕ} b'l' (get_or (int64_text v) 0 0) =
      ap (λ (bs : Bytes). get_or bs 2 0) e in
    absurd (omega (arith, first, at_two))

module _ (w : World) (willing : IsWilling w) where
  -- The store's last importer, and what it answers.
  store_answer :
      (name : Bytes) (height : ℕ) (t : Option Tree)
      → HasTree t
      → (s : StoreImporter) × (s' : StoreImporter) × (add_nodes w.sha256 w.refuses w.refuses_fast
            (nodes_of t)
            (new_store_importer name height)
          ≡ ret s)
        × (finalize w.sha256 w.refuses w.refuses_fast s ≡ ret (root_of w.sha256 t, s'))
  unfolding add_nodes
  store_answer name height none ok =
      let (s', e) =
        empty_answer w.sha256 w.refuses w.refuses_fast willing.sets willing.sets_fast name height in
      (new_store_importer name height, s', refl, e)
  store_answer name height (some t) ok =
      tree_answer w.sha256 w.refuses w.refuses_fast willing.sets willing.sets_fast name height t ok

  store_closed-Ready :
      (d : Driver) (height : ℕ) (s s' : StoreImporter) (hash : Bytes)
      → d.height ≡ height
      → finalize w.sha256 w.refuses w.refuses_fast s ≡ ret (hash, s')
      → Ready w height
          (d.stores ++ record { name = d.cur_name; hash = hash } ∷ [])
          (with_current w d s)
  unfolding close_current store_closed
  store_closed-Ready d height s s' hash eh e = (
    record d {
      current = none;
      stores = d.stores ++ record { name = d.cur_name; hash = hash } ∷ [];
      db = s'.written ++ d.db;
      items = d.items + s'.item_count;
    },
    rw e (rw (willing.ingests s'.store_name) refl),
    refl,
    eh,
  )

  open_store_item-willing :
      (name : Bytes) (d : Driver)
      → open_store_item w name d
        ≡ ret record d { current = some (new_store_importer name d.height); cur_name = name }
  unfolding open_store_item
  open_store_item-willing name d = rw (willing.opens name) refl

  -- One store more.
  run_items-store :
      (name : Bytes) (t : Option Tree) (is : List SnapItem) (height : ℕ) (infos : List StoreInfo)
      (d : Driver)
      → HasTree t
      → Ready w height infos d
      → (d2 : Driver) × (run_items w (store name ∷ node_items (nodes_of t) ++ is) d
          ≡ run_items w is d2)
        × Ready w height (infos ++ record { name = name; hash = root_of w.sha256 t } ∷ []) d2
  unfolding run_items run_item
  run_items-store name t is height infos d ok (d', e, es, eh) =
      let (s, s', added, answer) = store_answer name d'.height t ok in
      let named : Driver = record d' { cur_name = name } in
      let (d3, closed, stores, h) =
        store_closed-Ready named height s s' (root_of w.sha256 t) eh answer in
      let rest = run_items w (node_items (nodes_of t) ++ is) in
      (
        with_current w named s,
        ap (λ (o : Outcome RunError Driver). and_then (and_then o (open_store_item w name)) rest) e
            ∙ ap (λ (o : Outcome RunError Driver). and_then o rest)
                (open_store_item-willing name d')
            ∙ run_items-node_items w (nodes_of t) is named (new_store_importer name d'.height)
            ∙ ap
                (λ (o : Outcome StoreError StoreImporter).
                  and_then (map_error RunError.add_to_store o)
                    (λ s1. run_items w is (with_current w named s1)))
                added,
        (
          d3,
          closed,
          stores
              ∙ ap
                  (λ (xs : List StoreInfo).
                    xs ++ record { name = name; hash = root_of w.sha256 t } ∷ [])
                  es,
          h,
        ),
      )

  run_items-items_of :
      (ss : List ChainStore) (height : ℕ) (infos : List StoreInfo) (d : Driver)
      → AllTrees ss
      → Ready w height infos d
      → (d2 : Driver) × (run_items w (items_of ss) d ≡ ret d2)
        × Ready w height (infos ++ infos_of w.sha256 ss) d2
  unfolding run_items
  run_items-items_of [] height infos d ok (d', e, es, eh) =
      (d, refl, (d', e, es ∙ sym (append-nil infos), eh))
  run_items-items_of ((name, t) ∷ ss) height infos d (okt, ok) r =
      let (d1, e1, r1) = run_items-store name t (items_of ss) height infos d okt r in
      let info : StoreInfo = record { name = name; hash = root_of w.sha256 t } in
      let (d2, e2, (d3, closed, stores, h)) =
        run_items-items_of ss height (infos ++ info ∷ []) d1 ok r1 in
      (d2, e1 ∙ e2, (d3, closed, stores ∙ append_assoc infos (info ∷ []) (infos_of w.sha256 ss), h))

  start-Ready : (height : ℕ) (ext_dir : Bytes) → Ready w height [] (start height ext_dir)
  unfolding close_current start
  start-Ready height ext_dir = (start height ext_dir, refl, refl, refl)

  abbrev committed : Driver → Driver
  committed d = record d {
    db =
        (latest_version_key, latest_version_bytes d.height)
        ∷ (commit_info_key d.height, commit_info_bytes d.height d.stores)
        ∷ d.db;
  }

  write_commit-willing : (d : Driver) → write_commit w d ≡ ret (committed d)
  unfolding write_commit
  write_commit-willing d =
      rw (willing.sets (commit_info_key d.height) (commit_info_bytes d.height d.stores))
        (rw (willing.sets latest_version_key (latest_version_bytes d.height)) refl)

  get-commit_info :
      (height : ℕ) (d : Driver) (infos : List StoreInfo)
      → d.height ≡ height
      → d.stores ≡ infos
      → get (commit_info_key height) (committed d).db ≡ some (commit_info_bytes height infos)
  get-commit_info height d infos eh es =
      subst (λ (v : ℕ). get (commit_info_key v) (committed d).db ≡ some (commit_info_bytes v infos))
        eh
        (get-there (commit_info_key d.height) latest_version_key _ _
            (latest-ne-commit_info d.height)
          ∙ get-here (commit_info_key d.height) _ _
          ∙ ap (λ (is : List StoreInfo). some (commit_info_bytes d.height is)) es)

  get-latest_version :
      (height : ℕ) (d : Driver)
      → d.height ≡ height
      → get latest_version_key (committed d).db ≡ some (latest_version_bytes height)
  get-latest_version height d eh =
      get-here latest_version_key _ _ ∙ ap (λ (v : ℕ). some (latest_version_bytes v)) eh

  -- Where nothing is refused, a stream of stores, each empty or the post-order of a tree whose inner
  -- nodes are higher than their children, is imported. The result names the stores in the order of the
  -- stream, each with its tree's Merkle root, or with SHA-256 of nothing; and the database holds the
  -- commit info of these stores and the latest version under their keys.
  pub run_import-stores :
      (height : ℕ) (ext_dir : Bytes) (ss : List ChainStore)
      → AllTrees ss
      → (d : Driver) × (run_import w height ext_dir (items_of ss) true ≡ ret d)
        × (d.stores ≡ infos_of w.sha256 ss)
        × (get (commit_info_key height) d.db
            ≡ some (commit_info_bytes height (infos_of w.sha256 ss)))
        × (get latest_version_key d.db ≡ some (latest_version_bytes height))
  unfolding run_import
  run_import-stores height ext_dir ss ok =
      let (d2, e2, (d3, closed, stores, h)) =
        run_items-items_of ss height [] (start height ext_dir) ok (start-Ready height ext_dir) in
      (
        committed d3,
        ap
              (λ (o : Outcome RunError Driver).
                and_then o (λ d. and_then (close_current w d) (write_commit w)))
              e2
            ∙ ap (λ (o : Outcome RunError Driver). and_then o (write_commit w)) closed
            ∙ write_commit-willing d3,
        stores,
        get-commit_info height d3 (infos_of w.sha256 ss) h stores,
        get-latest_version height d3 h,
      )
