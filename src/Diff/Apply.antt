-- ===== src/Diff/Apply.antt =====
-- internal/snapshotdiff/apply.go: the changes of one store, read from a diff, and the items of the store
-- that they make of the base's. An item is a key with its value, as `emit` is given it.
pub mod Lookup
pub mod Inserts
pub mod Once
pub mod Emit
pub mod Restore
pub mod Output
pub mod Stores
use malcom.Prelude.{
  Outcome, ret, fail, panic, stuck, and_then, zero, suc, ◌+◌, ◌==◌, ◌&&◌, length, ℕ, Bool, List, [],
  ◌∷◌, ◌++◌, Bytes, Option, none, some, if◌then◌else◌,
}
use malcom.Prelude.Map.{Map, bytes_key, get, put}
use Prim.Native.Nat.{Ordering}
use malcom.Diff.Compute.{
  Leaf, Change, insert, update, delete, DiffRecord, store_enter, change, store_leave, ext_enter,
  ext_leave, ext_add, ext_remove, Store, bytes_compare,
}

-- `storeChanges`.
pub record StoreChanges : Type 0 where
  pub deletes : Map Bytes (Unit {0})
  pub updates : Map Bytes Bytes
  pub inserts : Map Bytes Bytes

abbrev pub new_store_changes : StoreChanges
new_store_changes = record { deletes = []; updates = []; inserts = [] }

unfoldable pub add_change : Change → StoreChanges → StoreChanges
unfolding put
add_change (insert k v) ch = record ch { inserts = put k v ch.inserts }
add_change (update k v) ch = record ch { updates = put k v ch.updates }
add_change (delete k) ch = record ch { deletes = put k tt ch.deletes }

-- `readStoreChanges`: the changes, and the records that are left.
unfoldable pub read_store_changes : List DiffRecord → StoreChanges → StoreChanges × List DiffRecord
unfolding add_change
read_store_changes [] ch = (ch, [])
read_store_changes (store_leave ∷ rs) ch = (ch, rs)
read_store_changes (store_enter name ∷ rs) ch = (ch, store_enter name ∷ rs)
read_store_changes (ext_enter name format ∷ rs) ch = (ch, ext_enter name format ∷ rs)
read_store_changes (ext_leave ∷ rs) ch = read_store_changes rs ch
read_store_changes (ext_add p ∷ rs) ch = read_store_changes rs ch
read_store_changes (ext_remove p ∷ rs) ch = read_store_changes rs ch
read_store_changes (change c ∷ rs) ch = read_store_changes rs (add_change c ch)

abbrev pub Item : Type 0
Item = Bytes × Bytes

-- `processBaseItem`: the item that it emits, or none.
unfoldable pub process_base_item : StoreChanges → Bytes → Bytes → List Item
unfolding get
process_base_item ch k v = elim (get k ch.deletes) [
  | some _ ↦ []
  | none ↦ (elim (get k ch.updates) [ some upd ↦ (k, upd) ∷ [] | none ↦ (k, v) ∷ [] ])
]

-- `sort.Strings`, on keys that are all different.
unfoldable pub insert_sorted : Bytes → List Bytes → List Bytes
unfolding bytes_compare
insert_sorted k [] = k ∷ []
insert_sorted k (j ∷ js) =
    let rest = insert_sorted k js in
    elim (bytes_compare k j) [ Ordering.gt ↦ j ∷ rest | _ ↦ k ∷ j ∷ js ]

unfoldable pub sort_keys : List Bytes → List Bytes
unfolding insert_sorted
sort_keys [] = []
sort_keys (k ∷ ks) = insert_sorted k (sort_keys ks)

abbrev pub keys_of : Map Bytes Bytes → List Bytes
keys_of [] = []
keys_of ((k, v) ∷ m) = k ∷ keys_of m

-- A read of a Go map of byte slices: nil where the key is absent.
abbrev pub or_nil : Option Bytes → Bytes
or_nil none = []
or_nil (some b) = b

-- The inserts in the order of their keys.
abbrev pub inserts_at : Map Bytes Bytes → List Bytes → List Item
inserts_at m [] = []
inserts_at m (k ∷ ks) = (k, or_nil (get k m)) ∷ inserts_at m ks

unfoldable pub sorted_inserts : Map Bytes Bytes → List Item
unfolding sort_keys get
sorted_inserts m = inserts_at m (sort_keys (keys_of m))

unfoldable pub process_all : StoreChanges → List Leaf → List Item
unfolding process_base_item
process_all ch [] = []
process_all ch (b ∷ bs) = process_base_item ch b.key b.value ++ process_all ch bs

-- The loop of `emitStoreFromBase` over the base's leaves and the inserts. The three continuations are the
-- loop after the base's leaf, after the insert, and after both.
unfoldable pub emit_step :
    StoreChanges → Leaf → Item → List Item → List Item → List Item → List Item
unfolding process_base_item bytes_compare
emit_step ch b ins base inserted both = elim (bytes_compare b.key ins.0) [
  | Ordering.lt ↦ process_base_item ch b.key b.value ++ base
  | Ordering.gt ↦ ins ∷ inserted
  | Ordering.eq ↦ process_base_item ch b.key b.value ++ ins ∷ both
]

unfoldable pub emit_items : StoreChanges → List Leaf → List Item → List Item
unfolding process_all emit_step
emit_items ch [] is = is
emit_items ch (b ∷ bs) [] = process_all ch (b ∷ bs)
emit_items ch (b ∷ bs) (i ∷ is) =
    let base = emit_items ch bs (i ∷ is) in
    let inserted = emit_items ch (b ∷ bs) is in
    let both = emit_items ch bs is in emit_step ch b i base inserted both

abbrev pub emitted : List Item → Option (List Item)
emitted [] = none
emitted (i ∷ is) = some (i ∷ is)

-- `emitStoreFromBase` with changes: none where it emits nothing, not even the store's own item.
unfoldable pub emit_store_from_base : StoreChanges → List Leaf → Option (List Item)
unfolding emit_items sorted_inserts
emit_store_from_base ch [] = emitted (sorted_inserts ch.inserts)
emit_store_from_base ch (b ∷ bs) = some (emit_items ch (b ∷ bs) (sorted_inserts ch.inserts))

-- The items written, if the store was.
abbrev pub items_or_none : Option (List Item) → List Item
items_or_none none = []
items_or_none (some is) = is

-- `emitTargetOnlyStore`.
unfoldable pub emit_target_only_store : Map Bytes Bytes → Option (List Item)
unfolding sorted_inserts
emit_target_only_store inserts = emitted (sorted_inserts inserts)

-- `peekSection`: no store's section is left, and the records from there on; or the name in the head of
-- the next one, and the records behind it.
pub data Section : Type 0 where
  over : List DiffRecord → Section
  store_section : Bytes → List DiffRecord → Section

unfoldable pub peek_section : List DiffRecord → Section
peek_section [] = over []
peek_section (store_enter name ∷ rs) = store_section name rs
peek_section (ext_enter name format ∷ rs) = over (ext_enter name format ∷ rs)
peek_section (store_leave ∷ rs) = peek_section rs
peek_section (change c ∷ rs) = peek_section rs
peek_section (ext_leave ∷ rs) = peek_section rs
peek_section (ext_add p ∷ rs) = peek_section rs
peek_section (ext_remove p ∷ rs) = peek_section rs

pub data ApplyError : Type 0 where
  changes_without_base : Bytes → ApplyError

-- A store of the output: its name and items; nothing where it was not emitted.
abbrev pub written :
    Bytes → Option (List Item) → List (Bytes × List Item) → List (Bytes × List Item)
written name none out = out
written name (some is) out = (name, is) ∷ out

abbrev pub with_store :
    Bytes
    → Option (List Item)
    → Outcome ApplyError (List (Bytes × List Item))
    → Outcome ApplyError (List (Bytes × List Item))
with_store name is o = and_then o (λ out. ret (written name is out))

-- The check on a store that only the diff has.
abbrev pub only_inserts : StoreChanges → Bool
only_inserts ch = length ch.deletes == 0 && length ch.updates == 0

-- The turn of `Apply` for such a store, with the loop over the records that are left.
unfoldable pub take_inserts :
    Bytes
    → StoreChanges × List DiffRecord
    → (List DiffRecord → Outcome ApplyError (List (Bytes × List Item)))
    → Outcome ApplyError (List (Bytes × List Item))
unfolding emit_target_only_store
take_inserts name (ch, left) loop =
    if only_inserts ch
    then with_store name (emit_target_only_store ch.inserts) (loop left)
    else fail (changes_without_base name)

-- Its turn for a store of both sides: the store's items, and the records that are left of the diff.
unfoldable pub apply_store :
    StoreChanges × List DiffRecord → List Leaf → Option (List Item) × List DiffRecord
unfolding emit_store_from_base
apply_store (ch, left) bs = (emit_store_from_base ch bs, left)

-- The switch of `Apply`, over the first store that is left of the base and the head of the section. The
-- last argument is the loop, over the stores and the records that are left. No changes (nil) do
-- what empty changes do.
unfoldable pub apply_step :
    List Store
    → Section
    → (List Store → List DiffRecord → Outcome ApplyError (List (Bytes × List Item)))
    → Outcome ApplyError (List (Bytes × List Item))
unfolding read_store_changes take_inserts apply_store emit_store_from_base bytes_compare
apply_step [] (over rs) loop = ret []
apply_step [] (store_section name rs) loop =
    take_inserts name (read_store_changes rs new_store_changes) (loop [])
apply_step (b ∷ bs) (over rs) loop =
    with_store b.name (emit_store_from_base new_store_changes b.leaves) (loop bs rs)
apply_step (b ∷ bs) (store_section name rs) loop = elim (bytes_compare name b.name) [
  | Ordering.lt ↦ take_inserts name (read_store_changes rs new_store_changes) (loop (b ∷ bs))
  | Ordering.gt ↦
      with_store b.name (emit_store_from_base new_store_changes b.leaves)
        (loop bs (store_enter name ∷ rs))
  | Ordering.eq ↦
      let (is, left) = apply_store (read_store_changes rs new_store_changes) b.leaves in
      with_store b.name is (loop bs left)
]

-- The loop of `Apply` over the stores. Each turn takes a store of the base or a section of the diff.
unfoldable pub apply_stores :
    ℕ → List Store → List DiffRecord → Outcome ApplyError (List (Bytes × List Item))
unfolding apply_step peek_section
apply_stores zero bs rs = stuck
apply_stores (suc f) bs rs = apply_step bs (peek_section rs) (apply_stores f)

unfoldable pub apply : List Store → List DiffRecord → Outcome ApplyError (List (Bytes × List Item))
unfolding apply_stores
apply bs rs = apply_stores (suc (length bs + length rs)) bs rs
