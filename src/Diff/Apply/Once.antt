-- ===== src/Diff/Apply/Once.antt =====
-- No key stands twice in the items of an applied store.
use malcom.Prelude.{
  ℕ, ◌+◌, ◌≤◌, ◌≡◌, refl, sym, ap, subst, ◌∙◌, ◌⊎◌, inl, inr, List, [], ◌∷◌, ◌++◌, Bytes, Bool,
  true, false, Option, none, some, Bool-cases, arith,
}
use malcom.Prelude.Map.{Map, bytes_key, bytes_equal, bytes_equal_refl, bytes_equal→eq, get, put}
use Prim.Native.Nat.{Ordering}
use malcom.Diff.Compute.{Leaf, Change, insert, update, delete, bytes_compare}
use malcom.Diff.Compute.Changes.{lookup_leaf, AllDistinct}
use malcom.Diff.Apply.{
  StoreChanges, add_change, read_store_changes, Item, insert_sorted, sort_keys, keys_of, inserts_at,
  sorted_inserts, process_base_item, process_all, emit_step, emit_items,
}
use malcom.Diff.Apply.Lookup.{after}

-- How often a key stands in items, and in a list of keys.
abbrev pub one_if : Bool → ℕ
one_if true = 1
one_if false = 0

abbrev pub count : {V : Type 0} → Bytes → List (Bytes × V) → ℕ
count k [] = 0
count k ((j, v) ∷ is) = one_if (bytes_equal j k) + count k is

abbrev pub count_keys : Bytes → List Bytes → ℕ
count_keys k [] = 0
count_keys k (j ∷ js) = one_if (bytes_equal j k) + count_keys k js

-- The items hold the key once, with that value, or hold it not at all.
abbrev pub IsOnly : Bytes → List Item → Option Bytes → Type 0
IsOnly k is o = (get k is ≡ o) × (count k is ≤ 1)

count-append : (k : Bytes) (xs ys : List Item) → count k (xs ++ ys) ≡ count k xs + count k ys
count-append k [] ys = omega arith
count-append k ((j, v) ∷ xs) ys = omega (arith, count-append k xs ys)

-- Where the key is not found it does not stand.
count-get : {V : Type 0} (k : Bytes) (m : Map Bytes V) → get k m ≡ none → count k m ≡ 0
unfolding get
count-get k [] e = refl
count-get k ((j, v) ∷ m) e = elim (Bool-cases (bytes_equal j k)) [
  | inl t ↦ let bad : some v ≡ none = rw t at e in cc
  | inr f ↦ rw f (omega (arith, count-get k m (rw f at e)))
]

module _ {V : Type 0} (k j : Bytes) (v : V) where
  -- A put of another key changes no count, and a put of the key itself makes it no more than one.
  count-put_ne : bytes_equal j k ≡ false → (m : Map Bytes V) → count k (put j v m) ≡ count k m
  unfolding put
  count-put_ne ne [] = rw ne refl
  count-put_ne ne ((i, w) ∷ m) = elim (Bool-cases (bytes_equal i j)) [
    | inl t ↦ rw (t, bytes_equal→eq i j t) refl
    | inr f ↦ rw f (ap (λ (n : ℕ). one_if (bytes_equal i k) + n) (count-put_ne ne m))
  ]

count-put_self :
    {V : Type 0} (k : Bytes) (v : V) (m : Map Bytes V) → count k m ≤ 1 → count k (put k v m) ≤ 1
unfolding put
count-put_self k v [] le = rw (bytes_equal_refl k) (omega arith)
count-put_self k v ((i, w) ∷ m) le = elim (Bool-cases (bytes_equal i k)) [
  | inl t ↦
      let tail : 1 + count k m ≤ 1 = rw t at le in
      rw t (rw (bytes_equal_refl k) (omega (arith, tail)))
  | inr f ↦
      let tail : 0 + count k m ≤ 1 = rw f at le in
      rw (f, f) (omega (arith, count-put_self k v m (omega (arith, tail))))
]

pub count-put :
    {V : Type 0} (k j : Bytes) (v : V) (m : Map Bytes V) → count k m ≤ 1 → count k (put j v m) ≤ 1
count-put k j v m le = elim (Bool-cases (bytes_equal j k)) [
  | inl t ↦
      subst (λ (i : Bytes). count k (put i v m) ≤ 1) (sym (bytes_equal→eq j k t))
        (count-put_self k v m le)
  | inr f ↦ rw (count-put_ne k j v f m) le
]

-- The map of inserts has no key twice.
pub count-inserts :
    (k : Bytes) (cs : List Change) (ch : StoreChanges)
    → count k ch.inserts ≤ 1
    → count k (after cs ch).inserts ≤ 1
unfolding read_store_changes add_change
count-inserts k [] ch le = le
count-inserts k (insert j v ∷ cs) ch le =
    count-inserts k cs (add_change (insert j v) ch) (count-put k j v ch.inserts le)
count-inserts k (update j v ∷ cs) ch le = count-inserts k cs (add_change (update j v) ch) le
count-inserts k (delete j ∷ cs) ch le = count-inserts k cs (add_change (delete j) ch) le

count-insert_sorted :
    (k j : Bytes) (js : List Bytes)
    → count_keys k (insert_sorted j js) ≡ one_if (bytes_equal j k) + count_keys k js
unfolding insert_sorted
count-insert_sorted k j [] = refl
count-insert_sorted k j (i ∷ is) = by_order (bytes_compare j i) (count-insert_sorted k j is)
  where
    by_order :
        (o : Ordering)
        → count_keys k (insert_sorted j is) ≡ one_if (bytes_equal j k) + count_keys k is
        → count_keys k (elim o [ Ordering.gt ↦ i ∷ insert_sorted j is | _ ↦ j ∷ i ∷ is ])
          ≡ one_if (bytes_equal j k) + count_keys k (i ∷ is)
    by_order Ordering.lt ih = refl
    by_order Ordering.eq ih = refl
    by_order Ordering.gt ih = omega (arith, ih)

count-sort_keys : (k : Bytes) (js : List Bytes) → count_keys k (sort_keys js) ≡ count_keys k js
unfolding sort_keys
count-sort_keys k [] = refl
count-sort_keys k (j ∷ js) =
    count-insert_sorted k j (sort_keys js)
    ∙ ap (λ (n : ℕ). one_if (bytes_equal j k) + n) (count-sort_keys k js)

count-inserts_at :
    (k : Bytes) (m : Map Bytes Bytes) (js : List Bytes)
    → count k (inserts_at m js) ≡ count_keys k js
count-inserts_at k m [] = refl
count-inserts_at k m (j ∷ js) =
    ap (λ (n : ℕ). one_if (bytes_equal j k) + n) (count-inserts_at k m js)

count-keys_of : (k : Bytes) (m : Map Bytes Bytes) → count_keys k (keys_of m) ≡ count k m
count-keys_of k [] = refl
count-keys_of k ((j, v) ∷ m) = ap (λ (n : ℕ). one_if (bytes_equal j k) + n) (count-keys_of k m)

count-sorted_inserts : (k : Bytes) (m : Map Bytes Bytes) → count k (sorted_inserts m) ≡ count k m
unfolding sorted_inserts
count-sorted_inserts k m =
    count-inserts_at k m (sort_keys (keys_of m)) ∙ count-sort_keys k (keys_of m) ∙ count-keys_of k m

abbrev count_leaves : Bytes → List Leaf → ℕ
count_leaves k [] = 0
count_leaves k (b ∷ bs) = one_if (bytes_equal b.key k) + count_leaves k bs

leaves-absent : (k : Bytes) (bs : List Leaf) → lookup_leaf k bs ≡ none → count_leaves k bs ≡ 0
leaves-absent k [] e = refl
leaves-absent k (b ∷ bs) e = elim (Bool-cases (bytes_equal b.key k)) [
  | inl t ↦ let bad : some b.value ≡ none = rw t at e in cc
  | inr f ↦ rw f (omega (arith, leaves-absent k bs (rw f at e)))
]

leaves-distinct : (k : Bytes) (bs : List Leaf) → AllDistinct bs → count_leaves k bs ≤ 1
leaves-distinct k [] d = omega arith
leaves-distinct k (b ∷ bs) (d, ds) = elim (Bool-cases (bytes_equal b.key k)) [
  | inl t ↦
      let gone : lookup_leaf k bs ≡ none =
        subst (λ (j : Bytes). lookup_leaf j bs ≡ none) (bytes_equal→eq b.key k t) d in
      rw t (omega (arith, leaves-absent k bs gone))
  | inr f ↦ rw f (omega (arith, leaves-distinct k bs ds))
]

module _ (ch : StoreChanges) (k : Bytes) where
  count-process_base_item :
      (j v : Bytes) → count k (process_base_item ch j v) ≤ one_if (bytes_equal j k)
  unfolding process_base_item
  count-process_base_item j v = by_change (get j ch.deletes) (get j ch.updates)
    where
      by_change :
          (o : Option (Unit {0})) (u : Option Bytes)
          → count {V = Bytes} k (elim o [
            | some _ ↦ []
            | none ↦ (elim u [ some upd ↦ (j, upd) ∷ [] | none ↦ (j, v) ∷ [] ])
          ])
            ≤ one_if (bytes_equal j k)
      by_change (some t) u = omega arith
      by_change none (some upd) = omega arith
      by_change none none = omega arith

  count-process_all : (bs : List Leaf) → count k (process_all ch bs) ≤ count_leaves k bs
  unfolding process_all
  count-process_all [] = omega arith
  count-process_all (b ∷ bs) = omega (
    arith,
    count-append k (process_base_item ch b.key b.value) (process_all ch bs),
    count-process_base_item b.key b.value,
    count-process_all bs,
  )

  count-emit_items :
      (bs : List Leaf) (is : List Item)
      → count k (emit_items ch bs is) ≡ count k (process_all ch bs) + count k is
  unfolding emit_items emit_step process_all
  count-emit_items [] is = omega arith
  count-emit_items (b ∷ bs) [] = omega arith
  count-emit_items (b ∷ bs) ((j, v) ∷ is) =
      by_order (bytes_compare b.key j) (count-emit_items bs ((j, v) ∷ is))
        (count-emit_items (b ∷ bs) is) (count-emit_items bs is)
    where
      mine : List Item
      mine = process_base_item ch b.key b.value

      both : count k (mine ++ process_all ch bs) ≡ count k mine + count k (process_all ch bs)
      both = count-append k mine (process_all ch bs)

      by_order :
          (o : Ordering)
          → count k (emit_items ch bs ((j, v) ∷ is))
            ≡ count k (process_all ch bs) + count {V = Bytes} k ((j, v) ∷ is)
          → count k (emit_items ch (b ∷ bs) is) ≡ count k (mine ++ process_all ch bs) + count k is
          → count k (emit_items ch bs is) ≡ count k (process_all ch bs) + count k is
          → count k (elim o as (λ _. List Item) [
            | Ordering.lt ↦ mine ++ emit_items ch bs ((j, v) ∷ is)
            | Ordering.gt ↦ (j, v) ∷ emit_items ch (b ∷ bs) is
            | Ordering.eq ↦ mine ++ (j, v) ∷ emit_items ch bs is
          ])
            ≡ count k (mine ++ process_all ch bs) + count {V = Bytes} k ((j, v) ∷ is)
      by_order Ordering.lt x y z =
          omega (arith, x, both, count-append k mine (emit_items ch bs ((j, v) ∷ is)))
      by_order Ordering.gt x y z = omega (arith, y, both)
      by_order Ordering.eq x y z =
          omega (arith, z, both, count-append k mine ((j, v) ∷ emit_items ch bs is))

  -- Where a key is not both left of the base and inserted, it stands at most once.
  pub emit_items-once :
      (bs : List Leaf)
      → AllDistinct bs
      → count k ch.inserts ≤ 1
      → (get k (process_all ch bs) ≡ none) ⊎ (get k ch.inserts ≡ none)
      → count k (emit_items ch bs (sorted_inserts ch.inserts)) ≤ 1
  emit_items-once bs d le (inl e) = omega (
    arith,
    count-emit_items bs (sorted_inserts ch.inserts),
    count-get k (process_all ch bs) e,
    count-sorted_inserts k ch.inserts,
    le,
  )
  emit_items-once bs d le (inr e) = omega (
    arith,
    count-emit_items bs (sorted_inserts ch.inserts),
    count-process_all bs,
    leaves-distinct k bs d,
    count-sorted_inserts k ch.inserts,
    count-get k ch.inserts e,
  )
