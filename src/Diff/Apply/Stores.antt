-- ===== src/Diff/Apply/Stores.antt =====
-- The whole diff of two snapshots' stores, applied to the older one.
use malcom.Prelude.{
  ℕ, zero, suc, ◌+◌, ◌<◌, ◌≤◌, ◌≡◌, refl, sym, ap, subst, ◌∙◌, List, [], ◌∷◌, ◌++◌, Bytes, true,
  arith, if_split, length, length-append, Outcome,
}
use mathlib.Core.Bool.{false≢true}
use malcom.Prelude.Map.{bytes_key}
use Prim.Native.Nat.{Ordering}
use malcom.Diff.Compute.{
  Leaf, Change, DiffRecord, Store, as_records, merge, inserts_of, diff_store, compute_step,
  compute_stream, bytes_compare,
}
use malcom.Diff.Compute.Changes.{bytes_compare-eq, AllRead, AllDistinct}
use malcom.Diff.Apply.{
  StoreChanges, new_store_changes, add_change, read_store_changes, Item, Section, over,
  emit_store_from_base, emit_target_only_store, apply_store, take_inserts, only_inserts, with_store,
  ApplyError, peek_section, apply_step, apply_stores, apply,
}
use malcom.Diff.Apply.Lookup.{after}
use malcom.Diff.Apply.Restore.{changes_of, read_store_changes-append, apply_store-merge}
use malcom.Diff.Apply.Output.{
  done, Gives, StoresOver, AllStores, peek-StoresOver, with_store-Gives, with_store-gone,
}

bytes_compare_refl : (xs : Bytes) → bytes_compare xs xs ≡ Ordering.eq
unfolding bytes_compare
bytes_compare_refl [] = refl
bytes_compare_refl (a ∷ xs) = ground (arith, bytes_compare_refl xs)

bytes_compare_swap :
    (xs ys : Bytes) → bytes_compare xs ys ≡ Ordering.gt → bytes_compare ys xs ≡ Ordering.lt
unfolding bytes_compare
bytes_compare_swap [] [] h = cc
bytes_compare_swap [] (b ∷ ys) h = cc
bytes_compare_swap (a ∷ xs) [] h = refl
bytes_compare_swap (a ∷ xs) (b ∷ ys) h = ground (arith, bytes_compare_swap xs ys)

-- A store that only the target has is all inserts.
inserts_only :
    (ls : List Leaf) (ch : StoreChanges) → only_inserts (after (inserts_of ls) ch) ≡ only_inserts ch
unfolding inserts_of read_store_changes add_change
inserts_only [] ch = refl
inserts_only (l ∷ ls) ch = inserts_only ls (add_change (Change.insert l.key l.value) ch)

merge_inserts_only : (ls : List Leaf) → only_inserts (after (merge [] ls) new_store_changes) ≡ true
unfolding merge
merge_inserts_only ls = inserts_only ls new_store_changes

module _ (read : Bytes → Bytes × Bytes) where
  take_inserts-Gives :
      (t : Store) (rest : List DiffRecord) (ts : List Store)
      (loop : List DiffRecord → Outcome ApplyError (List (Bytes × List Item)))
      → AllRead read t.leaves
      → AllDistinct t.leaves
      → Gives ts (loop rest)
      → Gives (t ∷ ts) (take_inserts t.name (changes_of [] t.leaves rest) loop)
  unfolding take_inserts apply_store emit_store_from_base emit_target_only_store
  take_inserts-Gives t rest ts loop rt dt g =
      let cs = merge [] t.leaves in
      let split = read_store_changes-append cs new_store_changes rest in
      let fresh : only_inserts (changes_of [] t.leaves rest).0 ≡ true =
        ap (λ (r : StoreChanges × List DiffRecord). only_inserts r.0) split
        ∙ merge_inserts_only t.leaves in
      let left : (changes_of [] t.leaves rest).1 ≡ rest =
        ap (λ (r : StoreChanges × List DiffRecord). r.1) split in
      if_split (Gives (t ∷ ts)) (only_inserts (changes_of [] t.leaves rest).0)
        (λ _.
          with_store-Gives t _ ts _ (λ k. (apply_store-merge read [] t.leaves rest k tt rt tt dt).0)
            (subst (λ (rs : List DiffRecord). Gives ts (loop rs)) (sym left) g))
        (λ f. absurd (false≢true (sym f ∙ fresh)))

  -- The turn for a store of both sides.
  same_name-Gives :
      (b t : Store) (rest : List DiffRecord) (ts : List Store)
      (loop : List DiffRecord → Outcome ApplyError (List (Bytes × List Item)))
      → b.name ≡ t.name
      → AllRead read b.leaves
      → AllRead read t.leaves
      → AllDistinct b.leaves
      → AllDistinct t.leaves
      → Gives ts (loop rest)
      → let r = apply_store (changes_of b.leaves t.leaves rest) b.leaves in
        Gives (t ∷ ts) (with_store b.name r.0 (loop r.1))
  same_name-Gives b t rest ts loop e rb rt db dt g =
      let r = apply_store (changes_of b.leaves t.leaves rest) b.leaves in
      let left : r.1 ≡ rest = (apply_store-merge read b.leaves t.leaves rest [] rb rt db dt).1 in
      subst (λ (name : Bytes). Gives (t ∷ ts) (with_store name r.0 (loop r.1))) (sym e)
        (with_store-Gives t r.0 ts (loop r.1)
          (λ k. (apply_store-merge read b.leaves t.leaves rest k rb rt db dt).0)
          (subst (λ (rs : List DiffRecord). Gives ts (loop rs)) (sym left) g))

  -- The turn for a store that only the base had.
  base_only-Gives :
      (b : Store) (rest : List DiffRecord) (ts : List Store)
      (loop : List DiffRecord → Outcome ApplyError (List (Bytes × List Item)))
      → AllRead read b.leaves
      → AllDistinct b.leaves
      → Gives ts (loop rest)
      → let r = apply_store (changes_of b.leaves [] rest) b.leaves in
        Gives ts (with_store b.name r.0 (loop r.1))
  base_only-Gives b rest ts loop rb db g =
      let r = apply_store (changes_of b.leaves [] rest) b.leaves in
      let left : r.1 ≡ rest = (apply_store-merge read b.leaves [] rest [] rb tt db tt).1 in
      with_store-gone b.name r.0 ts (loop r.1)
        (λ k. (apply_store-merge read b.leaves [] rest k rb tt db tt).0)
        (subst (λ (rs : List DiffRecord). Gives ts (loop rs)) (sym left) g)

module _ (loop : List Store → List DiffRecord → Outcome ApplyError (List (Bytes × List Item))) where
  turn_both :
      (b : Store) (bs : List Store) (name : Bytes) (ls ms : List Leaf) (rest : List DiffRecord)
      → bytes_compare name b.name ≡ Ordering.eq
      → let r = apply_store (changes_of ls ms rest) b.leaves in
        apply_step (b ∷ bs) (peek_section (diff_store name ls ms ++ rest)) loop
        ≡ with_store b.name r.0 (loop bs r.1)
  unfolding apply_step peek_section diff_store
  turn_both b bs name ls ms rest e = rw (e, apply_step) refl

  turn_inserts :
      (b : Store) (bs : List Store) (name : Bytes) (ls ms : List Leaf) (rest : List DiffRecord)
      → bytes_compare name b.name ≡ Ordering.lt
      → apply_step (b ∷ bs) (peek_section (diff_store name ls ms ++ rest)) loop
        ≡ take_inserts name (changes_of ls ms rest) (loop (b ∷ bs))
  unfolding apply_step peek_section diff_store
  turn_inserts b bs name ls ms rest e = rw (e, apply_step) refl

  turn_last :
      (name : Bytes) (ls ms : List Leaf) (rest : List DiffRecord)
      → apply_step [] (peek_section (diff_store name ls ms ++ rest)) loop
        ≡ take_inserts name (changes_of ls ms rest) (loop [])
  unfolding apply_step peek_section diff_store
  turn_last name ls ms rest = refl

module _ (read : Bytes → Bytes × Bytes) (exts : List DiffRecord)
    (after_stores : StoresOver exts) where
  -- One turn, over the order of the two first names.
  turn-Gives :
      (b t : Store) (bs ts : List Store) (both base target : List DiffRecord)
      (loop : List Store → List DiffRecord → Outcome ApplyError (List (Bytes × List Item)))
      → AllRead read b.leaves
      → AllRead read t.leaves
      → AllDistinct b.leaves
      → AllDistinct t.leaves
      → Gives ts (loop bs both)
      → Gives (t ∷ ts) (loop bs base)
      → Gives ts (loop (b ∷ bs) target)
      → Gives (t ∷ ts) (apply_step (b ∷ bs) (peek_section (compute_step b t both base target)) loop)
  unfolding compute_step
  turn-Gives b t bs ts both base target loop rb rt db dt gboth gbase gtarget =
      by_order (bytes_compare b.name t.name) refl
    where
      by_order :
          (o : Ordering)
          → bytes_compare b.name t.name ≡ o
          → Gives (t ∷ ts) (
              apply_step
                (b ∷ bs)
                (peek_section (elim o [
                  | Ordering.lt ↦ diff_store b.name b.leaves [] ++ base
                  | Ordering.gt ↦ diff_store t.name [] t.leaves ++ target
                  | Ordering.eq ↦ diff_store b.name b.leaves t.leaves ++ both
                ]))
                loop)
      by_order Ordering.lt e =
          subst (Gives (t ∷ ts))
            (sym (turn_both loop b bs b.name b.leaves [] base (bytes_compare_refl b.name)))
            (base_only-Gives read b base (t ∷ ts) (loop bs) rb db gbase)
      by_order Ordering.gt e =
          subst (Gives (t ∷ ts))
            (sym (
              turn_inserts loop b bs t.name [] t.leaves target
                (bytes_compare_swap b.name t.name e)))
            (take_inserts-Gives read t target ts (loop (b ∷ bs)) rt dt gtarget)
      by_order Ordering.eq e =
          subst (Gives (t ∷ ts))
            (sym (turn_both loop b bs b.name b.leaves t.leaves both (bytes_compare_refl b.name)))
            (same_name-Gives read b t both ts (loop bs) (bytes_compare-eq b.name t.name e) rb rt db
              dt gboth)

  nothing_left : (f : ℕ) → Gives [] (apply_step [] (over exts) (apply_stores f))
  unfolding apply_step
  nothing_left f = done

  apply_stores-Gives :
      (f : ℕ) (bs ts : List Store)
      → AllStores read bs
      → AllStores read ts
      → length bs + length ts < f
      → Gives ts (apply_stores f bs (compute_stream bs ts exts))
  unfolding apply_stores compute_stream
  apply_stores-Gives zero bs ts ab at h = absurd (omega arith)
  apply_stores-Gives (suc f) [] [] ab at h =
      at_end (peek_section exts) (peek-StoresOver exts after_stores)
    where
      at_end : (s : Section) → s ≡ over exts → Gives [] (apply_step [] s (apply_stores f))
      at_end s e =
          subst (λ (x : Section). Gives [] (apply_step [] x (apply_stores f))) (sym e)
            (nothing_left f)
  apply_stores-Gives (suc f) [] (t ∷ ts) ab (rt, dt, at) h =
      subst (Gives (t ∷ ts))
        (sym (turn_last (apply_stores f) t.name [] t.leaves (compute_stream [] ts exts)))
        (take_inserts-Gives read t (compute_stream [] ts exts) ts (apply_stores f []) rt dt
          (apply_stores-Gives f [] ts tt at (omega arith)))
  apply_stores-Gives (suc f) (b ∷ bs) [] (rb, db, ab) at h =
      subst (Gives [])
        (sym (
          turn_both (apply_stores f) b bs b.name b.leaves [] (compute_stream bs [] exts)
            (bytes_compare_refl b.name)))
        (base_only-Gives read b (compute_stream bs [] exts) [] (apply_stores f bs) rb db
          (apply_stores-Gives f bs [] ab tt (omega arith)))
  apply_stores-Gives (suc f) (b ∷ bs) (t ∷ ts) (rb, db, ab) (rt, dt, at) h =
      turn-Gives b t bs ts _ _ _ (apply_stores f) rb rt db dt
        (apply_stores-Gives f bs ts ab at (omega arith))
        (apply_stores-Gives f bs (t ∷ ts) ab (rt, dt, at) (omega arith))
        (apply_stores-Gives f (b ∷ bs) ts (rb, db, ab) at (omega arith))

diff_store-length :
    (name : Bytes) (ls ms : List Leaf) (rest : List DiffRecord)
    → suc (length rest) ≤ length (diff_store name ls ms ++ rest)
unfolding diff_store
diff_store-length name ls ms rest = omega (arith, length-append (as_records (merge ls ms)) rest)

-- A diff has a record for each store of the target, so that the fuel of `apply` is enough.
compute_stream-length :
    (bs ts : List Store) (exts : List DiffRecord) → length ts ≤ length (compute_stream bs ts exts)
unfolding compute_stream compute_step
compute_stream-length [] [] exts = omega arith
compute_stream-length [] (t ∷ ts) exts = omega (
  arith,
  diff_store-length t.name [] t.leaves (compute_stream [] ts exts),
  compute_stream-length [] ts exts,
)
compute_stream-length (b ∷ bs) [] exts = omega arith
compute_stream-length (b ∷ bs) (t ∷ ts) exts =
    by_order (bytes_compare b.name t.name) (compute_stream-length bs ts exts)
      (compute_stream-length bs (t ∷ ts) exts) (compute_stream-length (b ∷ bs) ts exts)
  where
    by_order :
        (o : Ordering)
        → length ts ≤ length (compute_stream bs ts exts)
        → suc (length ts) ≤ length (compute_stream bs (t ∷ ts) exts)
        → length ts ≤ length (compute_stream (b ∷ bs) ts exts)
        → suc (length ts)
          ≤ length (elim o [
            | Ordering.lt ↦ diff_store b.name b.leaves [] ++ compute_stream bs (t ∷ ts) exts
            | Ordering.gt ↦ diff_store t.name [] t.leaves ++ compute_stream (b ∷ bs) ts exts
            | Ordering.eq ↦ diff_store b.name b.leaves t.leaves ++ compute_stream bs ts exts
          ])
    by_order Ordering.lt x y z =
        omega (arith, diff_store-length b.name b.leaves [] (compute_stream bs (t ∷ ts) exts))
    by_order Ordering.gt x y z =
        omega (arith, diff_store-length t.name [] t.leaves (compute_stream (b ∷ bs) ts exts))
    by_order Ordering.eq x y z =
        omega (arith, diff_store-length b.name b.leaves t.leaves (compute_stream bs ts exts))

-- Take two snapshots, their stores and the leaves of each in any order, where no key stands twice in a
-- store, and keys and values are what one reading of the records gives. `Apply`, given the base and the
-- records of the diff that `Compute` makes of the two, with or without extensions behind them, ends its
-- loop over the stores without an error, and the stores that it writes are the target's, in their order,
-- each with the target's value for every key, and no key twice; but that stores of the target without leaves may be left
-- out, and that stores without items may stand between.
pub apply-compute_stream :
    (read : Bytes → Bytes × Bytes) (base target : List Store) (exts : List DiffRecord)
    → StoresOver exts
    → AllStores read base
    → AllStores read target
    → Gives target (apply base (compute_stream base target exts))
unfolding apply
apply-compute_stream read base target exts over_here ab at =
    apply_stores-Gives read exts over_here
      (suc (length base + length (compute_stream base target exts))) base target ab at
      (omega (arith, compute_stream-length base target exts))
