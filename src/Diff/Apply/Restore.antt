-- ===== src/Diff/Apply/Restore.antt =====
-- A diff, applied to the store that it was made from, gives the other store.
use malcom.Prelude.{
  ◌≡◌, refl, sym, ap, subst, ◌∙◌, inl, inr, List, [], ◌∷◌, ◌++◌, Bytes, Bool, Option, none, some,
  ◌≤◌, arith,
}
use malcom.Prelude.Map.{bytes_key, get}
use malcom.Diff.Compute.{Leaf, Change, DiffRecord, as_records, merge}
use malcom.Diff.Compute.Changes.{
  lookup_leaf, or_else, updated, is_deleted, Fits, merge-Fits, AllRead, AllDistinct,
}
use malcom.Diff.Apply.{
  StoreChanges, emitted, add_change, new_store_changes, read_store_changes, Item, sorted_inserts,
  process_all, emit_items, emit_store_from_base, items_or_none, apply_store,
}
use malcom.Diff.Apply.Lookup.{after, has_key, get-inserts, get-updates, get-deletes}
use malcom.Diff.Apply.Inserts.{get-sorted_inserts}
use malcom.Diff.Apply.Once.{count, IsOnly, count-inserts, emit_items-once}
use malcom.Diff.Apply.Emit.{kept, OneOf, moved, left_of, get-process_all, get-emit_items}

-- The changes that fit a key turn the base's value into the target's.
kept-Fits :
    (b t : Option Bytes) (d : Bool) (u i : Option Bytes)
    → Fits b t d u i
    → (or_else (kept d u b) i ≡ t) × OneOf (kept d u b) i
kept-Fits none none d u i (hd, hu, hi) = rw (hd, hu, hi) (refl, inl refl)
kept-Fits none (some v) d u i (hd, hu, hi) = rw (hd, hu, hi) (refl, inl refl)
kept-Fits (some w) none d u i (hd, hu, hi) = rw (hd, hi) (refl, inl refl)
kept-Fits (some w) (some v) d u i (inl (hd, hu, hi)) = rw (hd, hi) (refl, inl refl)
kept-Fits (some w) (some v) d u i (inr (inl (hd, hu, hi))) = rw (hd, hu, hi) (refl, inr refl)
kept-Fits (some w) (some v) d u i (inr (inr (hd, hu, hi, e))) =
    rw (hd, hu, hi) (ap (λ (x : Bytes). some x) e, inr refl)

-- Emitting the store or not makes no difference to its items.
emit_store_from_base-items :
    (ch : StoreChanges) (bs : List Leaf)
    → items_or_none (emit_store_from_base ch bs) ≡ emit_items ch bs (sorted_inserts ch.inserts)
unfolding emit_store_from_base emit_items
emit_store_from_base-items ch [] = by_inserts (sorted_inserts ch.inserts)
  where
    by_inserts : (is : List Item) → items_or_none (emitted is) ≡ is
    by_inserts [] = refl
    by_inserts (i ∷ is) = refl
emit_store_from_base-items ch (b ∷ bs) = refl

-- The records of one store are read up to their end.
pub read_store_changes-append :
    (cs : List Change) (ch : StoreChanges) (rest : List DiffRecord)
    → read_store_changes (as_records cs ++ rest) ch
      ≡ ((read_store_changes (as_records cs) ch).0, rest)
unfolding read_store_changes
read_store_changes-append [] ch rest = refl
read_store_changes-append (c ∷ cs) ch rest = read_store_changes-append cs (add_change c ch) rest

-- The records of the diff of one store, behind its head.
abbrev pub changes_of : List Leaf → List Leaf → List DiffRecord → StoreChanges × List DiffRecord
changes_of base target rest =
    read_store_changes (as_records (merge base target) ++ rest) new_store_changes

-- Take two versions of a store in which no key stands twice, their leaves in any order, with keys and
-- values as one reading of the records gives them. Applying to the base the records that the diff of the
-- two has between its head and what follows gives items that hold, for every key, exactly the target's
-- value and no second one, and none where the target has no such key; and the records that follow are left.
pub apply_store-merge :
    (read : Bytes → Bytes × Bytes) (base target : List Leaf) (rest : List DiffRecord) (k : Bytes)
    → AllRead read base
    → AllRead read target
    → AllDistinct base
    → AllDistinct target
    → IsOnly k
        (items_or_none (apply_store (changes_of base target rest) base).0)
        (lookup_leaf k target)
      × ((apply_store (changes_of base target rest) base).1 ≡ rest)
unfolding apply_store
apply_store-merge read base target rest k rb rt db dt =
    let cs = merge base target in
    let ch = after cs new_store_changes in
    let fits : Fits (lookup_leaf k base) (lookup_leaf k target) (has_key (get k ch.deletes))
        (get k ch.updates) (get k ch.inserts) =
      subst
        (λ (d : Bool).
          Fits (lookup_leaf k base) (lookup_leaf k target) d (get k ch.updates) (get k ch.inserts))
        (sym (get-deletes k cs))
        (subst
          (λ (u : Option Bytes).
            Fits (lookup_leaf k base) (lookup_leaf k target) (is_deleted k cs) u (get k ch.inserts))
          (sym (get-updates k cs))
          (subst
            (λ (i : Option Bytes).
              Fits (lookup_leaf k base) (lookup_leaf k target) (is_deleted k cs) (updated k cs) i)
            (sym (get-inserts k cs)) (merge-Fits read base target k rb rt db dt))) in
    let (value, once) = kept-Fits (lookup_leaf k base) (lookup_leaf k target) _ _ _ fits in
    let left : get k (process_all ch base) ≡ left_of ch k (lookup_leaf k base) =
      get-process_all ch k base in
    let sorted : get k (sorted_inserts ch.inserts) ≡ get k ch.inserts =
      get-sorted_inserts k ch.inserts in
    let split = read_store_changes-append cs new_store_changes rest in
    let same =
      ap (λ (r : StoreChanges × List DiffRecord). items_or_none (emit_store_from_base r.0 base))
        split
      ∙ emit_store_from_base-items ch base in
    (
      (
        ap
              (λ (r : StoreChanges × List DiffRecord).
                get k (items_or_none (emit_store_from_base r.0 base)))
              split
            ∙ ap (get k) (emit_store_from_base-items ch base)
            ∙ get-emit_items ch k base (sorted_inserts ch.inserts)
                (moved (sym left) (sym sorted) once)
            ∙ ap (λ (o : Option Bytes). or_else o (get k (sorted_inserts ch.inserts))) left
            ∙ ap (or_else (left_of ch k (lookup_leaf k base))) sorted
            ∙ value,
        subst (λ (is : List Item). count k is ≤ 1) (sym same)
            (emit_items-once ch k base db (count-inserts k cs new_store_changes (omega arith))
              (moved (sym left) refl once)),
      ),
      ap (λ (r : StoreChanges × List DiffRecord). r.1) split,
    )
