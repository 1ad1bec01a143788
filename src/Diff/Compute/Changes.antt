-- ===== src/Diff/Compute/Changes.antt =====
-- What the merge says of one key.
use malcom.Prelude.{
  ◌≡◌, ◌⊎◌, refl, sym, ap, subst, ◌∙◌, inl, inr, List, [], ◌∷◌, Bytes, Bool, true, false, Option,
  none, some, arith, if◌then◌else◌, if_split,
}
use malcom.Prelude.Map.{bytes_key, bytes_equal, bytes_equal→eq}
use Prim.Native.Nat.{Ordering}
use mathlib.Core.Option.{some-ne-none}
use malcom.Diff.Compute.{
  Leaf, Change, insert, update, delete, bytes_compare, inserts_of, deletes_of, compare_leaves,
  merge,
}

-- The value of a key among a store's leaves.
abbrev pub lookup_leaf : Bytes → List Leaf → Option Bytes
lookup_leaf k [] = none
lookup_leaf k (l ∷ ls) = if bytes_equal l.key k then some l.value else lookup_leaf k ls

-- No key twice.
abbrev pub AllDistinct : List Leaf → Type 0
AllDistinct [] = Unit
AllDistinct (l ∷ ls) = (lookup_leaf l.key ls ≡ none) × AllDistinct ls

-- The keys and values are what one reading of the records gives.
abbrev pub AllRead : (Bytes → Bytes × Bytes) → List Leaf → Type 0
AllRead read [] = Unit
AllRead read (l ∷ ls) = (read l.raw ≡ (l.key, l.value)) × AllRead read ls

-- The last change of each kind to a key.
abbrev pub or_else : Option Bytes → Option Bytes → Option Bytes
or_else none d = d
or_else (some v) d = some v

abbrev pub inserted : Bytes → List Change → Option Bytes
inserted k [] = none
inserted k (insert j v ∷ cs) = or_else (inserted k cs) (if bytes_equal j k then some v else none)
inserted k (update j v ∷ cs) = inserted k cs
inserted k (delete j ∷ cs) = inserted k cs

abbrev pub updated : Bytes → List Change → Option Bytes
updated k [] = none
updated k (insert j v ∷ cs) = updated k cs
updated k (update j v ∷ cs) = or_else (updated k cs) (if bytes_equal j k then some v else none)
updated k (delete j ∷ cs) = updated k cs

abbrev pub is_deleted : Bytes → List Change → Bool
is_deleted k [] = false
is_deleted k (insert j v ∷ cs) = is_deleted k cs
is_deleted k (update j v ∷ cs) = is_deleted k cs
is_deleted k (delete j ∷ cs) = if is_deleted k cs then true else bytes_equal j k

-- What the changes hold for a key, by what the base and the target hold.
abbrev pub Fits : Option Bytes → Option Bytes → Bool → Option Bytes → Option Bytes → Type 0
Fits none none d u i = (d ≡ false) × (u ≡ none) × (i ≡ none)
Fits none (some v) d u i = (d ≡ false) × (u ≡ none) × (i ≡ some v)
Fits (some w) none d u i = (d ≡ true) × (u ≡ none) × (i ≡ none)
Fits (some w) (some v) d u i =
    ((d ≡ true) × (u ≡ none) × (i ≡ some v))
    ⊎ ((d ≡ false) × (u ≡ some v) × (i ≡ none))
    ⊎ ((d ≡ false) × (u ≡ none) × (i ≡ none) × (w ≡ v))

abbrev FitsAt : Bytes → List Leaf → List Leaf → List Change → Type 0
FitsAt k bs ts cs =
    Fits (lookup_leaf k bs) (lookup_leaf k ts) (is_deleted k cs) (updated k cs) (inserted k cs)

pub bytes_compare-eq : (xs ys : Bytes) → bytes_compare xs ys ≡ Ordering.eq → xs ≡ ys
unfolding bytes_compare
bytes_compare-eq [] [] h = refl
bytes_compare-eq [] (b ∷ ys) h = cc
bytes_compare-eq (a ∷ xs) [] h = cc
bytes_compare-eq (a ∷ xs) (b ∷ ys) h = ground (arith, bytes_compare-eq xs ys)

-- One change in front, whose key is the one asked for or not.
Fits-delete :
    (e : Bool) (w : Bytes) (b t : Option Bytes) (d : Bool) (u i : Option Bytes)
    → (e ≡ true → b ≡ none)
    → Fits b t d u i
    → Fits (if e then some w else b) t (if d then true else e) u i
Fits-delete true w none none d u i h f = ground arith
Fits-delete true w none (some v) d u i h f = inl (ground arith)
Fits-delete true w (some x) t d u i h f = absurd (some-ne-none x (h refl))
Fits-delete false w none none d u i h f = ground arith
Fits-delete false w none (some v) d u i h f = ground arith
Fits-delete false w (some x) none d u i h f = ground arith
Fits-delete false w (some x) (some v) true u i h f = f
Fits-delete false w (some x) (some v) false u i h f = f

Fits-insert :
    (e : Bool) (v : Bytes) (b t : Option Bytes) (d : Bool) (u i : Option Bytes)
    → (e ≡ true → t ≡ none)
    → Fits b t d u i
    → Fits b (if e then some v else t) d u (or_else i (if e then some v else none))
Fits-insert true v none none d u i h (hd, hu, hi) =
    (hd, hu, ap (λ (o : Option Bytes). or_else o (some v)) hi)
Fits-insert true v (some w) none d u i h (hd, hu, hi) =
    inl (hd, hu, ap (λ (o : Option Bytes). or_else o (some v)) hi)
Fits-insert true v b (some x) d u i h f = absurd (some-ne-none x (h refl))
Fits-insert false v b t d u none h f = f
Fits-insert false v b t d u (some x) h f = f

Fits-update :
    (e : Bool) (w v : Bytes) (b t : Option Bytes) (d : Bool) (u i : Option Bytes)
    → (e ≡ true → b ≡ none)
    → (e ≡ true → t ≡ none)
    → Fits b t d u i
    → Fits
        (if e then some w else b)
        (if e then some v else t)
        d
        (or_else u (if e then some v else none))
        i
Fits-update true w v none none d u i hb ht (hd, hu, hi) =
    inr (inl (hd, ap (λ (o : Option Bytes). or_else o (some v)) hu, hi))
Fits-update true w v (some x) t d u i hb ht f = absurd (some-ne-none x (hb refl))
Fits-update true w v none (some x) d u i hb ht f = absurd (some-ne-none x (ht refl))
Fits-update false w v b t d none i hb ht f = f
Fits-update false w v b t d (some x) i hb ht f = f

Fits-same :
    (e : Bool) (w v : Bytes) (b t : Option Bytes) (d : Bool) (u i : Option Bytes)
    → w ≡ v
    → (e ≡ true → b ≡ none)
    → (e ≡ true → t ≡ none)
    → Fits b t d u i
    → Fits (if e then some w else b) (if e then some v else t) d u i
Fits-same true w v none none d u i s hb ht (hd, hu, hi) = inr (inr (hd, hu, hi, s))
Fits-same true w v (some x) t d u i s hb ht f = absurd (some-ne-none x (hb refl))
Fits-same true w v none (some x) d u i s hb ht f = absurd (some-ne-none x (ht refl))
Fits-same false w v b t d u i s hb ht f = f

-- The rest of the leaves has the key no more.
key_gone :
    (l : Leaf) (ls : List Leaf) (k : Bytes)
    → lookup_leaf l.key ls ≡ none
    → bytes_equal l.key k ≡ true
    → lookup_leaf k ls ≡ none
key_gone l ls k h e = subst (λ (j : Bytes). lookup_leaf j ls ≡ none) (bytes_equal→eq l.key k e) h

deletes_of-Fits : (k : Bytes) (bs : List Leaf) → AllDistinct bs → FitsAt k bs [] (deletes_of bs)
unfolding deletes_of
deletes_of-Fits k [] d = (refl, refl, refl)
deletes_of-Fits k (b ∷ bs) (d, ds) =
    Fits-delete (bytes_equal b.key k) b.value _ none _ _ _ (key_gone b bs k d)
      (deletes_of-Fits k bs ds)

inserts_of-Fits : (k : Bytes) (ts : List Leaf) → AllDistinct ts → FitsAt k [] ts (inserts_of ts)
unfolding inserts_of
inserts_of-Fits k [] d = (refl, refl, refl)
inserts_of-Fits k (t ∷ ts) (d, ds) =
    Fits-insert (bytes_equal t.key k) t.value none _ _ _ _ (key_gone t ts k d)
      (inserts_of-Fits k ts ds)

-- One round of the merge.
compare_leaves-Fits :
    (k : Bytes) (b t : Leaf) (bs ts : List Leaf) (both base target : List Change)
    → (b.raw ≡ t.raw → (b.key ≡ t.key) × (b.value ≡ t.value))
    → lookup_leaf b.key bs ≡ none
    → lookup_leaf t.key ts ≡ none
    → FitsAt k bs ts both
    → FitsAt k bs (t ∷ ts) base
    → FitsAt k (b ∷ bs) ts target
    → FitsAt k (b ∷ bs) (t ∷ ts) (compare_leaves b t both base target)
unfolding compare_leaves
compare_leaves-Fits k b t bs ts both base target same db dt fboth fbase ftarget =
    by_order (bytes_compare b.raw t.raw) refl
  where
    replaced : b.key ≡ t.key → FitsAt k (b ∷ bs) (t ∷ ts) (update b.key t.value ∷ both)
    replaced e =
        subst
          (λ (j : Bytes).
            Fits (lookup_leaf k (b ∷ bs))
              (if bytes_equal j k then some t.value else lookup_leaf k ts) (is_deleted k both)
              (updated k (update b.key t.value ∷ both)) (inserted k both))
          e
          (Fits-update (bytes_equal b.key k) b.value t.value _ _ _ _ _ (key_gone b bs k db)
            (λ h. key_gone t ts k dt (subst (λ (j : Bytes). bytes_equal j k ≡ true) e h)) fboth)

    by_order :
        (o : Ordering)
        → bytes_compare b.raw t.raw ≡ o
        → FitsAt k (b ∷ bs) (t ∷ ts) (elim o [
          | Ordering.eq ↦ both
          | Ordering.lt ↦
              if bytes_equal b.key t.key then update b.key t.value ∷ both else delete b.key ∷ base
          | Ordering.gt ↦
              if bytes_equal b.key t.key
              then update b.key t.value ∷ both
              else insert t.key t.value ∷ target
        ])
    by_order Ordering.eq e =
        let (keys, values) = same (bytes_compare-eq b.raw t.raw e) in
        subst
          (λ (j : Bytes).
            Fits (lookup_leaf k (b ∷ bs))
              (if bytes_equal j k then some t.value else lookup_leaf k ts) (is_deleted k both)
              (updated k both) (inserted k both))
          keys
          (Fits-same (bytes_equal b.key k) b.value t.value _ _ _ _ _ values (key_gone b bs k db)
            (λ h. key_gone t ts k dt (subst (λ (j : Bytes). bytes_equal j k ≡ true) keys h)) fboth)
    by_order Ordering.lt e =
        if_split (FitsAt k (b ∷ bs) (t ∷ ts)) (bytes_equal b.key t.key)
          (λ h. replaced (bytes_equal→eq b.key t.key h))
          (λ _. Fits-delete (bytes_equal b.key k) b.value _ _ _ _ _ (key_gone b bs k db) fbase)
    by_order Ordering.gt e =
        if_split (FitsAt k (b ∷ bs) (t ∷ ts)) (bytes_equal b.key t.key)
          (λ h. replaced (bytes_equal→eq b.key t.key h))
          (λ _. Fits-insert (bytes_equal t.key k) t.value _ _ _ _ _ (key_gone t ts k dt) ftarget)

-- The merge of two stores in which no key stands twice, whatever the order of their leaves, says for
-- every key what there is to do: nothing if neither has it; an insert of the target's value if the base
-- has it not; a delete if the target has it not; and if both have it, a delete and an insert, or an
-- update, to the target's value, or nothing where the values are equal.
pub merge-Fits :
    (read : Bytes → Bytes × Bytes) (bs ts : List Leaf) (k : Bytes)
    → AllRead read bs
    → AllRead read ts
    → AllDistinct bs
    → AllDistinct ts
    → FitsAt k bs ts (merge bs ts)
unfolding merge
merge-Fits read [] ts k rb rt db dt = inserts_of-Fits k ts dt
merge-Fits read (b ∷ bs) [] k rb rt db dt = deletes_of-Fits k (b ∷ bs) db
merge-Fits read (b ∷ bs) (t ∷ ts) k (rb, rbs) (rt, rts) (db, dbs) (dt, dts) =
    compare_leaves-Fits k b t bs ts (merge bs ts) (merge bs (t ∷ ts)) (merge (b ∷ bs) ts)
      (λ e.
        let pairs : (b.key, b.value) ≡ (t.key, t.value) = sym rb ∙ ap read e ∙ rt in
        (ap (λ (p : Bytes × Bytes). p.0) pairs, ap (λ (p : Bytes × Bytes). p.1) pairs))
      db dt (merge-Fits read bs ts k rbs rts dbs dts)
      (merge-Fits read bs (t ∷ ts) k rbs (rt, rts) dbs (dt, dts))
      (merge-Fits read (b ∷ bs) ts k (rb, rbs) rts (db, dbs) dts)
