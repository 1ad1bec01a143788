-- ===== src/Import/Store/Sound.antt =====
-- What the importer accepts is the stream of a tree.
use malcom.Prelude.{
  ℕ, ◌≡◌, ◌≢◌, ◌⊎◌, refl, sym, ap, subst, ◌∙◌, List, [], ◌∷◌, ◌++◌, append_assoc, append-nil, Bytes,
  Bool, true, arith, Outcome, ret, fail, panic, stuck, and_then, ◌==◌, ==_iff, if_split, Bool-cases,
  inl, inr,
}
use malcom.Import.Store.{
  Frame, ExportNode, StoreImporter, StoreError, write, write_fast, add_leaf, add_inner, join_pair,
  closes_pair, below, add_node, add_nodes, new_store_importer, import_store, finalize,
  finalize_stack, finalize_empty, finalize_root, with_hash,
}
use malcom.Import.Store.Trees.{Tree, leaf, inner, tree_height, post_order, IsTree, frame_of, merkle}

-- The trees that have been completed, the latest first, and the stream that they came from.
abbrev forest_order : List Tree → List ExportNode
forest_order [] = []
forest_order (t ∷ ts) = forest_order ts ++ post_order t

abbrev Stands : (Bytes → Bytes) → List Tree → List Frame → Type 0
Stands sha256 [] [] = Unit
Stands sha256 (t ∷ ts) (f ∷ fs) =
    IsTree t × ((nonce : ℕ) × (f ≡ frame_of sha256 t nonce)) × Stands sha256 ts fs
Stands sha256 [] (f ∷ fs) = ⊥
Stands sha256 (t ∷ ts) [] = ⊥

-- If the node was accepted, the stack stands for trees whose streams end with the node.
abbrev Grows : (Bytes → Bytes) → List Tree → ExportNode → Outcome StoreError StoreImporter → Type 0
Grows sha256 ts n (ret s) =
    (us : List Tree) × Stands sha256 us s.stack × (forest_order us ≡ forest_order ts ++ n ∷ [])
Grows sha256 ts n _ = Unit

module _ (sha256 : Bytes → Bytes) (refuses refuses_fast : Bytes → Bytes → Bool) where
  -- A write fails, or goes on with the write recorded.
  write_then :
      (P : Outcome StoreError StoreImporter → Type 0) (e : StoreError) (k v : Bytes)
      (s : StoreImporter) (f : StoreImporter → Outcome StoreError StoreImporter)
      → P (fail e)
      → P (f (record s { written = (k, v) ∷ s.written }))
      → P (and_then (write sha256 refuses refuses_fast e k v s) f)
  unfolding write
  write_then P e k v s f bad good = elim (Bool-cases (refuses k v)) [
    | inl t ↦ rw t bad
    | inr g ↦ rw g good
  ]

  write_fast_then :
      (P : Outcome StoreError StoreImporter → Type 0) (e : StoreError) (k v : Bytes)
      (s : StoreImporter) (f : StoreImporter → Outcome StoreError StoreImporter)
      → P (fail e)
      → P (f (record s { ingested = (k, v) ∷ s.ingested }))
      → P (and_then (write_fast sha256 refuses refuses_fast e k v s) f)
  unfolding write_fast
  write_fast_then P e k v s f bad good = elim (Bool-cases (refuses_fast k v)) [
    | inl t ↦ rw t bad
    | inr g ↦ rw g good
  ]

  add_leaf-Grows :
      (ts : List Tree) (n : ExportNode) (s : StoreImporter)
      → n.height ≡ 0
      → Stands sha256 ts s.stack
      → Grows sha256 ts n (add_leaf sha256 refuses refuses_fast n s)
  unfolding add_leaf
  add_leaf-Grows ts n s e h = write_then (Grows sha256 ts n) _ _ _ _ _ tt (
      write_fast_then (Grows sha256 ts n) _ _ _ _ _ tt (
        leaf n.version n.key n.value ∷ ts,
        (tt, (_, refl), h),
        ap (λ (height : ℕ). forest_order ts ++ (record n { height = height }) ∷ []) (sym e),
      ))

  join_pair-Grows :
      (ts : List Tree) (n : ExportNode) (l r : Tree) (nl nr : ℕ) (rest : List Frame)
      (s : StoreImporter)
      → n.height ≢ 0
      → below (tree_height r) n.height ≡ true
      → below (tree_height l) n.height ≡ true
      → IsTree l
      → IsTree r
      → Stands sha256 ts rest
      → Grows sha256 (r ∷ l ∷ ts) n (
          join_pair sha256 refuses refuses_fast n
            (frame_of sha256 r nr)
            (frame_of sha256 l nl)
            rest
            s)
  unfolding join_pair
  join_pair-Grows ts n l r nl nr rest s nz hr hl okl okr h =
      write_then (Grows sha256 (r ∷ l ∷ ts) n) _ _ _ _ _ tt (
        inner n.version n.height n.key n.value l r ∷ ts,
        ((nz, hr, hl, okl, okr), (_, refl), h),
        simp append_assoc,
      )

  two_frames-grow :
      (ts : List Tree) (n : ExportNode) (l r : Tree) (nl nr : ℕ) (rest : List Frame)
      (s : StoreImporter)
      → n.height ≢ 0
      → IsTree l
      → IsTree r
      → Stands sha256 ts rest
      → Grows sha256 (r ∷ l ∷ ts) n (
          add_inner sha256 refuses refuses_fast n
            (frame_of sha256 r nr ∷ frame_of sha256 l nl ∷ rest)
            s)
  unfolding add_inner closes_pair
  two_frames-grow ts n l r nl nr rest s nz okl okr h =
      if_split (Grows sha256 (r ∷ l ∷ ts) n)
        (closes_pair n.height (frame_of sha256 r nr ∷ frame_of sha256 l nl ∷ rest))
        (λ t.
          join_pair-Grows ts n l r nl nr rest s nz (ground (arith, t)) (ground (arith, t)) okl okr
            h)
        (λ f. tt)

  add_inner-Grows :
      (ts : List Tree) (n : ExportNode) (stack : List Frame) (s : StoreImporter)
      → n.height ≢ 0
      → Stands sha256 ts stack
      → Grows sha256 ts n (add_inner sha256 refuses refuses_fast n stack s)
  unfolding add_inner
  add_inner-Grows ts n [] s nz h = tt
  add_inner-Grows ts n (f ∷ []) s nz h = tt
  add_inner-Grows [] n (fr ∷ fl ∷ rest) s nz h = elim h [ ]
  add_inner-Grows (r ∷ []) n (fr ∷ fl ∷ rest) s nz h = elim h.2 [ ]
  add_inner-Grows (r ∷ l ∷ ts) n (fr ∷ fl ∷ rest) s nz (okr, (nr, er), (okl, (nl, el), h)) =
      subst
        (λ (f : Frame).
          Grows sha256 (r ∷ l ∷ ts) n (add_inner sha256 refuses refuses_fast n (f ∷ fl ∷ rest) s))
        (sym er)
        (subst
          (λ (f : Frame).
            Grows sha256 (r ∷ l ∷ ts) n
              (add_inner sha256 refuses refuses_fast n (frame_of sha256 r nr ∷ f ∷ rest) s))
          (sym el) (two_frames-grow ts n l r nl nr rest s nz okl okr h))

  add_node-Grows :
      (ts : List Tree) (n : ExportNode) (s : StoreImporter)
      → Stands sha256 ts s.stack
      → Grows sha256 ts n (add_node sha256 refuses refuses_fast n s)
  unfolding add_node
  add_node-Grows ts n s h =
      if_split (Grows sha256 ts n) (n.height == 0)
        (λ t. add_leaf-Grows ts n _ ((==_iff n.height 0).0 t) h)
        (λ f. add_inner-Grows ts n s.stack _ (λ e. cc ((==_iff n.height 0).1 e)) h)

  abbrev run : List ExportNode → StoreImporter → Outcome StoreError StoreImporter
  run = add_nodes sha256 refuses refuses_fast

  -- The same for a stream.
  abbrev Covers : List ExportNode → Outcome StoreError StoreImporter → Type 0
  Covers ns (ret s) = (us : List Tree) × Stands sha256 us s.stack × (forest_order us ≡ ns)
  Covers ns _ = Unit

  Covers-run :
      (ts : List Tree) (n : ExportNode) (ns : List ExportNode)
      (o : Outcome StoreError StoreImporter)
      → ((us : List Tree) (s : StoreImporter)
          → Stands sha256 us s.stack
          → Covers (forest_order us ++ ns) (run ns s))
      → Grows sha256 ts n o
      → Covers (forest_order ts ++ n ∷ ns) (and_then o (run ns))
  Covers-run ts n ns (ret s) rest (us, h, e) =
      subst (λ (all : List ExportNode). Covers all (run ns s))
        (ap (λ (xs : List ExportNode). xs ++ ns) e ∙ append_assoc (forest_order ts) (n ∷ []) ns)
        (rest us s h)
  Covers-run ts n ns (fail e) rest g = tt
  Covers-run ts n ns panic rest g = tt
  Covers-run ts n ns stuck rest g = tt

  add_nodes-Covers :
      (ns : List ExportNode) (ts : List Tree) (s : StoreImporter)
      → Stands sha256 ts s.stack
      → Covers (forest_order ts ++ ns) (run ns s)
  unfolding add_nodes
  add_nodes-Covers [] ts s h = (ts, h, sym (append-nil (forest_order ts)))
  add_nodes-Covers (n ∷ ns) ts s h =
      Covers-run ts n ns (add_node sha256 refuses refuses_fast n s) (add_nodes-Covers ns)
        (add_node-Grows ts n s h)

  -- What the answer of an import says of its stream.
  abbrev Answers : List ExportNode → Outcome StoreError (Bytes × StoreImporter) → Type 0
  Answers ns (ret (hash, s)) =
      ((ns ≡ []) × (hash ≡ sha256 []))
      ⊎ ((t : Tree) × IsTree t × (ns ≡ post_order t) × (hash ≡ merkle sha256 t))
  Answers ns _ = Unit

  Answers-hash :
      (ns : List ExportNode) (hash : Bytes) (o : Outcome StoreError StoreImporter)
      → ((ns ≡ []) × (hash ≡ sha256 []))
        ⊎ ((t : Tree) × IsTree t × (ns ≡ post_order t) × (hash ≡ merkle sha256 t))
      → Answers ns (with_hash sha256 refuses refuses_fast hash o)
  Answers-hash ns hash (ret s) a = a
  Answers-hash ns hash (fail e) a = tt
  Answers-hash ns hash panic a = tt
  Answers-hash ns hash stuck a = tt

  finalize_stack-Answers :
      (ns : List ExportNode) (ts : List Tree) (stack : List Frame) (s : StoreImporter)
      → Stands sha256 ts stack
      → forest_order ts ≡ ns
      → Answers ns (finalize_stack sha256 refuses refuses_fast stack s)
  unfolding finalize_empty finalize_root
  finalize_stack-Answers ns [] [] s h e = Answers-hash ns (sha256 []) _ (inl (sym e, refl))
  finalize_stack-Answers ns (t ∷ []) (root ∷ []) s (ok, (nonce, f), h) e =
      Answers-hash ns root.hash _ (inr (t, ok, sym e, ap (λ (r : Frame). r.hash) f))
  finalize_stack-Answers ns (t ∷ u ∷ ts) (root ∷ []) s h e = elim h.2 [ ]
  finalize_stack-Answers ns ts (root ∷ other ∷ rest) s h e = tt
  finalize_stack-Answers ns (t ∷ ts) [] s h e = elim h [ ]
  finalize_stack-Answers ns [] (root ∷ []) s h e = elim h [ ]

  finalize-Answers :
      (ns : List ExportNode) (o : Outcome StoreError StoreImporter)
      → Covers ns o
      → Answers ns (and_then o (finalize sha256 refuses refuses_fast))
  unfolding finalize
  finalize-Answers ns (ret s) (us, h, e) = finalize_stack-Answers ns us s.stack s h e
  finalize-Answers ns (fail e) c = tt
  finalize-Answers ns panic c = tt
  finalize-Answers ns stuck c = tt

  -- Whatever the stream and whatever writes are refused: if the import of a store gives a hash, then
  -- either the stream is empty and the hash is SHA-256 of nothing, or the stream is the post-order of a
  -- tree in which every inner node is higher than its children, and the hash is that tree's Merkle root.
  pub import_store_sound :
      (name : Bytes) (height : ℕ) (ns : List ExportNode) (hash : Bytes) (s : StoreImporter)
      → import_store sha256 refuses refuses_fast name height ns ≡ ret (hash, s)
      → ((ns ≡ []) × (hash ≡ sha256 []))
        ⊎ ((t : Tree) × IsTree t × (ns ≡ post_order t) × (hash ≡ merkle sha256 t))
  unfolding import_store
  import_store_sound name height ns hash s e =
      let start = new_store_importer name height in
      subst (Answers ns) e (finalize-Answers ns (run ns start) (add_nodes-Covers ns [] start tt))
