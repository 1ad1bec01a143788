-- ===== src/Diff/Compute.antt =====
-- internal/snapshotdiff/diff.go: `diffStore`, the merge of one store's leaves in two snapshots. A leaf has
-- its record's bytes and what `parseIAVLKeyValue` reads from them; the records that `isLeafIAVL` drops are
-- not in the lists. Counters are left out.
pub mod Changes
use malcom.Prelude.{ℕ, Bool, List, [], ◌∷◌, ◌++◌, Bytes, if◌then◌else◌}
use malcom.Prelude.Map.{bytes_equal}
use Prim.Native.Nat.{compare, Ordering}

pub record Leaf : Type 0 where
  pub raw : Bytes
  pub key : Bytes
  pub value : Bytes

-- The records of a diff between two sections' heads.
pub data Change : Type 0 where
  insert : Bytes → Bytes → Change
  update : Bytes → Bytes → Change
  delete : Bytes → Change

pub data DiffRecord : Type 0 where
  store_enter : Bytes → DiffRecord
  change : Change → DiffRecord
  store_leave : DiffRecord
  ext_enter : Bytes → ℕ → DiffRecord
  ext_leave : DiffRecord
  ext_add : Bytes → DiffRecord
  ext_remove : Bytes → DiffRecord

-- A snapshot's stores, as `storeReader` finds them one after the other.
pub record Store : Type 0 where
  pub name : Bytes
  pub leaves : List Leaf

unfoldable pub bytes_compare : Bytes → Bytes → Ordering
bytes_compare [] [] = Ordering.eq
bytes_compare [] (b ∷ ys) = Ordering.lt
bytes_compare (a ∷ xs) [] = Ordering.gt
bytes_compare (a ∷ xs) (b ∷ ys) = elim (compare a b) [
  | Ordering.lt ↦ Ordering.lt
  | Ordering.gt ↦ Ordering.gt
  | Ordering.eq ↦ bytes_compare xs ys
]

-- Only the target has leaves left, or only the base.
unfoldable pub inserts_of : List Leaf → List Change
inserts_of [] = []
inserts_of (t ∷ ts) = insert t.key t.value ∷ inserts_of ts

unfoldable pub deletes_of : List Leaf → List Change
deletes_of [] = []
deletes_of (b ∷ bs) = delete b.key ∷ deletes_of bs

-- The loop over both. The three continuations are the loop after an advance of both, of the base, and of
-- the target.
unfoldable pub compare_leaves : Leaf → Leaf → List Change → List Change → List Change → List Change
compare_leaves b t both base target = elim (bytes_compare b.raw t.raw) [
  | Ordering.eq ↦ both
  | Ordering.lt ↦
      if bytes_equal b.key t.key then update b.key t.value ∷ both else delete b.key ∷ base
  | Ordering.gt ↦
      if bytes_equal b.key t.key then update b.key t.value ∷ both else insert t.key t.value ∷ target
]

unfoldable pub merge : List Leaf → List Leaf → List Change
merge [] ts = inserts_of ts
merge (b ∷ bs) [] = deletes_of (b ∷ bs)
merge (b ∷ bs) (t ∷ ts) =
    let both = merge bs ts in
    let base = merge bs (t ∷ ts) in
    let target = merge (b ∷ bs) ts in compare_leaves b t both base target

abbrev pub as_records : List Change → List DiffRecord
as_records [] = store_leave ∷ []
as_records (c ∷ cs) = change c ∷ as_records cs

unfoldable pub diff_store : Bytes → List Leaf → List Leaf → List DiffRecord
unfolding merge
diff_store name base target = store_enter name ∷ as_records (merge base target)

-- One turn of `computeStream`. The three continuations are the loop behind both stores, behind the base's
-- and behind the target's.
unfoldable pub compute_step :
    Store → Store → List DiffRecord → List DiffRecord → List DiffRecord → List DiffRecord
unfolding diff_store bytes_compare
compute_step b t both base target = elim (bytes_compare b.name t.name) [
  | Ordering.lt ↦ diff_store b.name b.leaves [] ++ base
  | Ordering.gt ↦ diff_store t.name [] t.leaves ++ target
  | Ordering.eq ↦ diff_store b.name b.leaves t.leaves ++ both
]

-- `computeStream` over the stores, before what its second phase writes on the extensions.
unfoldable pub compute_stream : List Store → List Store → List DiffRecord → List DiffRecord
unfolding compute_step
compute_stream [] [] exts = exts
compute_stream [] (t ∷ ts) exts = diff_store t.name [] t.leaves ++ compute_stream [] ts exts
compute_stream (b ∷ bs) [] exts = diff_store b.name b.leaves [] ++ compute_stream bs [] exts
compute_stream (b ∷ bs) (t ∷ ts) exts =
    let both = compute_stream bs ts exts in
    let base = compute_stream bs (t ∷ ts) exts in
    let target = compute_stream (b ∷ bs) ts exts in compute_step b t both base target
