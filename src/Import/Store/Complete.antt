-- ===== src/Import/Store/Complete.antt =====
-- The stream of a tree is accepted, and leaves its frame on the stack.
use malcom.Prelude.{
  ℕ, ◌+◌, ◌%◌, ◌^◌, ◌≡◌, ◌≢◌, refl, ap, ◌∙◌, List, [], ◌∷◌, ◌++◌, Bytes, Bool, true, false, Outcome,
  ret, fail, panic, stuck, and_then, ◌==◌, ==_iff, if_split,
}
use malcom.Import.Store.{
  Frame, ExportNode, StoreImporter, StoreError, write, write_fast, add_leaf, add_inner, join_pair,
  closes_pair, below, add_node, add_nodes,
}
use malcom.Import.Store.Trees.{Tree, leaf, inner, tree_height, post_order, IsTree, frame_of}

-- A run of the importer that has pushed the tree's frame.
abbrev Pushes : (Bytes → Bytes) → Tree → List Frame → Outcome StoreError StoreImporter → Type 0
Pushes sha256 t below (ret s) = (nonce : ℕ) × (s.stack ≡ frame_of sha256 t nonce ∷ below)
Pushes sha256 t below _ = ⊥

pub pushed :
    (sha256 : Bytes → Bytes) (t : Tree) (rest : List Frame) (o : Outcome StoreError StoreImporter)
    → Pushes sha256 t rest o
    → (s : StoreImporter) × (nonce : ℕ) × (o ≡ ret s) × (s.stack ≡ frame_of sha256 t nonce ∷ rest)
pushed sha256 t rest (ret s) (nonce, e) = (s, nonce, refl, e)
pushed sha256 t rest (fail e) h = elim h [ ]
pushed sha256 t rest panic h = elim h [ ]
pushed sha256 t rest stuck h = elim h [ ]

module _ (sha256 : Bytes → Bytes) (refuses refuses_fast : Bytes → Bytes → Bool)
    (accepted : (k v : Bytes) → refuses k v ≡ false)
    (accepted_fast : (k v : Bytes) → refuses_fast k v ≡ false) where
  pub write-accepted :
      (e : StoreError) (k v : Bytes) (s : StoreImporter)
      → write sha256 refuses refuses_fast e k v s ≡ ret record s { written = (k, v) ∷ s.written }
  unfolding write
  write-accepted e k v s = rw (accepted k v)

  write_fast-accepted :
      (e : StoreError) (k v : Bytes) (s : StoreImporter)
      → write_fast sha256 refuses refuses_fast e k v s
        ≡ ret record s { ingested = (k, v) ∷ s.ingested }
  unfolding write_fast
  write_fast-accepted e k v s = rw (accepted_fast k v)

  add_node-leaf :
      (v : ℕ) (k w : Bytes) (s : StoreImporter)
      → Pushes sha256 (leaf v k w) s.stack (
          add_node sha256 refuses refuses_fast
            record { height = 0; version = v; key = k; value = w }
            s)
  unfolding add_node add_leaf
  add_node-leaf v k w s = rw (write-accepted, write_fast-accepted) (_, refl)

  join_pair-Pushes :
      (v h : ℕ) (k w : Bytes) (l r : Tree) (nl nr : ℕ) (rest : List Frame) (s : StoreImporter)
      → Pushes sha256 (inner v h k w l r) rest (
          join_pair sha256 refuses refuses_fast
            record { height = h; version = v; key = k; value = w }
            (frame_of sha256 r nr)
            (frame_of sha256 l nl)
            rest
            s)
  unfolding join_pair
  join_pair-Pushes v h k w l r nl nr rest s = rw write-accepted (_, refl)

  add_inner-Pushes :
      (v h : ℕ) (k w : Bytes) (l r : Tree) (nl nr : ℕ) (rest stack : List Frame) (s : StoreImporter)
      → stack ≡ frame_of sha256 r nr ∷ frame_of sha256 l nl ∷ rest
      → below (tree_height r) h ≡ true
      → below (tree_height l) h ≡ true
      → Pushes sha256 (inner v h k w l r) rest (
          add_inner sha256 refuses refuses_fast
            record { height = h; version = v; key = k; value = w }
            stack
            s)
  unfolding add_inner closes_pair
  add_inner-Pushes v h k w l r nl nr rest stack s e hr hl =
      rw (e, add_inner) (rw (hr, hl) (join_pair-Pushes v h k w l r nl nr rest s))

  add_node-inner :
      (v h : ℕ) (k w : Bytes) (l r : Tree) (nl nr : ℕ) (rest : List Frame) (s : StoreImporter)
      → s.stack ≡ frame_of sha256 r nr ∷ frame_of sha256 l nl ∷ rest
      → h ≢ 0
      → below (tree_height r) h ≡ true
      → below (tree_height l) h ≡ true
      → Pushes sha256 (inner v h k w l r) rest (
          add_node sha256 refuses refuses_fast
            record { height = h; version = v; key = k; value = w }
            s)
  unfolding add_node
  add_node-inner v h k w l r nl nr rest s e nz hr hl =
      if_split (Pushes sha256 (inner v h k w l r) rest) (h == 0)
        (λ t. absurd (nz ((==_iff h 0).0 t)))
        (λ f.
          add_inner-Pushes v h k w l r nl nr rest s.stack
            record s { item_count = (s.item_count + 1) % 2 ^ 64 } e hr hl)

  abbrev pub run : List ExportNode → StoreImporter → Outcome StoreError StoreImporter
  run = add_nodes sha256 refuses refuses_fast

  and_then-run :
      (xs ys zs : List ExportNode)
      → ((s : StoreImporter) → run zs s ≡ and_then (run xs s) (run ys))
      → (o : Outcome StoreError StoreImporter)
      → and_then o (run zs) ≡ and_then (and_then o (run xs)) (run ys)
  and_then-run xs ys zs h (ret s) = h s
  and_then-run xs ys zs h (fail e) = refl
  and_then-run xs ys zs h panic = refl
  and_then-run xs ys zs h stuck = refl

  add_nodes-append :
      (xs ys : List ExportNode) (s : StoreImporter)
      → run (xs ++ ys) s ≡ and_then (run xs s) (run ys)
  unfolding add_nodes
  add_nodes-append [] ys s = refl
  add_nodes-append (x ∷ xs) ys s =
      and_then-run xs ys (xs ++ ys) (add_nodes-append xs ys)
        (add_node sha256 refuses refuses_fast x s)

  Pushes-run :
      (t : Tree) (rest : List Frame) (o : Outcome StoreError StoreImporter)
      → Pushes sha256 t rest o
      → Pushes sha256 t rest (and_then o (run []))
  unfolding add_nodes
  Pushes-run t rest (ret s) p = p
  Pushes-run t rest (fail e) p = elim p [ ]
  Pushes-run t rest panic p = elim p [ ]
  Pushes-run t rest stuck p = elim p [ ]

  -- Where no write is refused, the stream of a tree is accepted on any stack, and puts on it one frame:
  -- the Merkle root, the number of leaves, the version and the height of the tree.
  pub add_nodes-post_order :
      (t : Tree) (s : StoreImporter) → IsTree t → Pushes sha256 t s.stack (run (post_order t) s)
  unfolding add_nodes
  add_nodes-post_order (leaf v k w) s ok = Pushes-run (leaf v k w) s.stack _ (add_node-leaf v k w s)
  add_nodes-post_order (inner v h k w l r) s (nz, hr, hl, okl, okr) =
      let (s1, nl, e1, st1) = pushed sha256 l s.stack _ (add_nodes-post_order l s okl) in
      let (s2, nr, e2, st2) = pushed sha256 r s1.stack _ (add_nodes-post_order r s1 okr) in
      let node : ExportNode = record { height = h; version = v; key = k; value = w } in
      let whole = add_nodes-append (post_order l ++ post_order r) (node ∷ []) s in
      let pair = add_nodes-append (post_order l) (post_order r) s in
      rw (whole, pair, e1, and_then, e2)
        (Pushes-run (inner v h k w l r) s.stack _ (
          add_node-inner v h k w l r nl nr s.stack s2 (st2 ∙ ap (◌∷◌ (frame_of sha256 r nr)) st1) nz
            hr hl))
