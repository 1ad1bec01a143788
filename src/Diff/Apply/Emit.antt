-- ===== src/Diff/Apply/Emit.antt =====
-- What the items of a store hold, by what is left of the base and by the inserts.
use malcom.Prelude.{
  ◌≡◌, ◌⊎◌, refl, sym, ap, ◌∙◌, inl, inr, List, [], ◌∷◌, ◌++◌, Bytes, Bool, true, false, Option,
  none, some, if◌then◌else◌, Bool-cases,
}
use malcom.Prelude.Map.{bytes_key, bytes_equal, bytes_equal→eq, get}
use Prim.Native.Nat.{Ordering}
use mathlib.Core.Option.{some-ne-none}
use malcom.Diff.Compute.{Leaf, bytes_compare}
use malcom.Diff.Compute.Changes.{lookup_leaf, or_else}
use malcom.Diff.Apply.{StoreChanges, Item, process_base_item, process_all, emit_step, emit_items}
use malcom.Diff.Apply.Lookup.{or_else-none, has_key}

-- What is left of a base's value.
abbrev pub kept : Bool → Option Bytes → Option Bytes → Option Bytes
kept true u b = none
kept false none b = b
kept false (some v) none = none
kept false (some v) (some w) = some v

kept-none : (d : Bool) (u : Option Bytes) → kept d u none ≡ none
kept-none true u = refl
kept-none false none = refl
kept-none false (some v) = refl

or_else_assoc : (a b c : Option Bytes) → or_else (or_else a b) c ≡ or_else a (or_else b c)
or_else_assoc none b c = refl
or_else_assoc (some v) b c = refl

-- Of two sources at most one has the key.
abbrev pub OneOf : Option Bytes → Option Bytes → Type 0
OneOf a b = (a ≡ none) ⊎ (b ≡ none)

pub moved : {a b c d : Option Bytes} → a ≡ c → b ≡ d → OneOf a b → OneOf c d
moved e f (inl h) = inl (sym e ∙ h)
moved e f (inr h) = inr (sym f ∙ h)

tail_none : (a b : Option Bytes) → or_else a b ≡ none → (a ≡ none) × (b ≡ none)
tail_none none b h = (refl, h)
tail_none (some v) b h = absurd (some-ne-none v h)

fewer_left : (f p o : Option Bytes) → OneOf (or_else f p) o → OneOf p o
fewer_left f p o (inl h) = inl (tail_none f p h).1
fewer_left f p o (inr h) = inr h

fewer_right : (o g i : Option Bytes) → OneOf o (or_else g i) → OneOf o i
fewer_right o g i (inl h) = inl h
fewer_right o g i (inr h) = inr (tail_none g i h).1

swap_shares :
    (f g i : Option Bytes)
    → OneOf f (or_else g i)
    → or_else g (or_else f i) ≡ or_else f (or_else g i)
swap_shares none g i x = refl
swap_shares (some w) none i x = refl
swap_shares (some w) (some v) i (inl h) = absurd (some-ne-none w h)
swap_shares (some w) (some v) i (inr h) = absurd (some-ne-none v h)

swap_inner :
    (f p g i : Option Bytes)
    → OneOf (or_else f p) (or_else g i)
    → or_else f (or_else g (or_else p i)) ≡ or_else (or_else f p) (or_else g i)
swap_inner none p g i x = swap_shares p g i x
swap_inner (some w) p g i x = refl

get-cons :
    (k j v : Bytes) (m : List Item)
    → get k ((j, v) ∷ m) ≡ or_else (if bytes_equal j k then some v else none) (get k m)
unfolding get
get-cons k j v m = by_test (bytes_equal j k)
  where
    by_test :
        (e : Bool)
        → (if e then some v else get k m) ≡ or_else (if e then some v else none) (get k m)
    by_test true = refl
    by_test false = refl

same_branches : (e : Bool) (r : Option Bytes) → or_else (if e then none else none) r ≡ r
same_branches true r = refl
same_branches false r = refl

module _ (ch : StoreChanges) (k : Bytes) where
  -- What is left of a base's value under a key.
  abbrev pub left_at : Bytes → Option Bytes → Option Bytes
  left_at j b = kept (has_key (get j ch.deletes)) (get j ch.updates) b

  abbrev pub left_of : Option Bytes → Option Bytes
  left_of b = left_at k b

  -- What one leaf of the base comes to, for this key.
  abbrev share : Leaf → Option Bytes
  share b = if bytes_equal b.key k then left_of (some b.value) else none

  item_at_own_key :
      (j v : Bytes) (rest : List Item)
      → get k (process_base_item ch j v ++ rest)
        ≡ or_else (if bytes_equal j k then left_at j (some v) else none) (get k rest)
  unfolding process_base_item
  item_at_own_key j v rest = by_change (get j ch.deletes) (get j ch.updates)
    where
      by_change :
          (o : Option (Unit {0})) (u : Option Bytes)
          → get k (
              (elim o [
                | some _ ↦ []
                | none ↦ (elim u [ some upd ↦ (j, upd) ∷ [] | none ↦ (j, v) ∷ [] ])
              ])
              ++ rest)
            ≡ or_else (if bytes_equal j k then kept (has_key o) u (some v) else none) (get k rest)
      by_change (some t) none = sym (same_branches (bytes_equal j k) (get k rest))
      by_change (some t) (some upd) = sym (same_branches (bytes_equal j k) (get k rest))
      by_change none (some upd) = get-cons k j upd rest
      by_change none none = get-cons k j v rest

  get-process_base_item :
      (b : Leaf) (rest : List Item)
      → get k (process_base_item ch b.key b.value ++ rest) ≡ or_else (share b) (get k rest)
  get-process_base_item b rest =
      item_at_own_key b.key b.value rest ∙ (elim (Bool-cases (bytes_equal b.key k)) [
        | inl t ↦ rw t (
            ap (λ (j : Bytes). or_else (left_at j (some b.value)) (get k rest))
              (bytes_equal→eq b.key k t))
        | inr f ↦ rw f refl
      ])

  pub get-process_all : (bs : List Leaf) → get k (process_all ch bs) ≡ left_of (lookup_leaf k bs)
  unfolding process_all get
  get-process_all [] = sym (kept-none (has_key (get k ch.deletes)) (get k ch.updates))
  get-process_all (b ∷ bs) =
      get-process_base_item b (process_all ch bs)
      ∙ ap (or_else (share b)) (get-process_all bs)
      ∙ by_test (bytes_equal b.key k) (has_key (get k ch.deletes)) (get k ch.updates)
          (lookup_leaf k bs)
    where
      by_test :
          (e d : Bool) (u o : Option Bytes)
          → or_else (if e then kept d u (some b.value) else none) (kept d u o)
            ≡ kept d u (if e then some b.value else o)
      by_test true true u o = refl
      by_test true false none o = refl
      by_test true false (some v) o = refl
      by_test false d u o = refl

  -- One round of the loop, from what its continuations hold.
  emit_step-lookup :
      (b : Leaf) (j v : Bytes) (base inserts both : List Item) (p i : Option Bytes)
      → let g = if bytes_equal j k then some v else none in
        (or_else (share b) p ≡ none) ⊎ (or_else g i ≡ none)
        → get k base ≡ or_else p (or_else g i)
        → get k inserts ≡ or_else (or_else (share b) p) i
        → get k both ≡ or_else p i
        → get k (emit_step ch b (j, v) base inserts both)
          ≡ or_else (or_else (share b) p) (or_else g i)
  unfolding emit_step
  emit_step-lookup b j v base inserts both p i x hbase hins hboth = by_order (bytes_compare b.key j)
    where
      by_order :
          (o : Ordering)
          → get k (elim o [
            | Ordering.lt ↦ process_base_item ch b.key b.value ++ base
            | Ordering.gt ↦ (j, v) ∷ inserts
            | Ordering.eq ↦ process_base_item ch b.key b.value ++ (j, v) ∷ both
          ])
            ≡ or_else (or_else (share b) p) (or_else (if bytes_equal j k then some v else none) i)
      by_order Ordering.lt =
          get-process_base_item b base
          ∙ ap (or_else (share b)) hbase
          ∙ sym (or_else_assoc (share b) p _)
      by_order Ordering.gt =
          get-cons k j v inserts
          ∙ ap (or_else _) hins
          ∙ swap_shares (or_else (share b) p) (if bytes_equal j k then some v else none) i x
      by_order Ordering.eq =
          get-process_base_item b ((j, v) ∷ both)
          ∙ ap (or_else (share b)) (get-cons k j v both ∙ ap (or_else _) hboth)
          ∙ swap_inner (share b) p (if bytes_equal j k then some v else none) i x

  -- Where a key is not both left of the base and inserted, the items hold the one or the other.
  pub get-emit_items :
      (bs : List Leaf) (is : List Item)
      → (get k (process_all ch bs) ≡ none) ⊎ (get k is ≡ none)
      → get k (emit_items ch bs is) ≡ or_else (get k (process_all ch bs)) (get k is)
  unfolding emit_items process_all get
  get-emit_items [] is x = refl
  get-emit_items (b ∷ bs) [] x = sym (or_else-none (get k (process_all ch (b ∷ bs))))
  get-emit_items (b ∷ bs) ((j, v) ∷ is) x =
      let p = get k (process_all ch bs) in
      let i = get k is in
      let g = if bytes_equal j k then some v else none in
      let mine : get k (process_all ch (b ∷ bs)) ≡ or_else (share b) p =
        get-process_base_item b (process_all ch bs) in
      let theirs : get k ((j, v) ∷ is) ≡ or_else g i = get-cons k j v is in
      let y : (or_else (share b) p ≡ none) ⊎ (or_else g i ≡ none) = moved mine theirs x in
      emit_step-lookup b j v (emit_items ch bs ((j, v) ∷ is)) (emit_items ch (b ∷ bs) is)
        (emit_items ch bs is) p i y
        (get-emit_items bs ((j, v) ∷ is)
            (moved refl (sym theirs) (fewer_left (share b) p (or_else g i) y))
          ∙ ap (or_else p) theirs)
        (get-emit_items (b ∷ bs) is
            (moved (sym mine) refl (fewer_right (or_else (share b) p) g i y))
          ∙ ap (λ (o : Option Bytes). or_else o i) mine)
        (get-emit_items bs is (fewer_left (share b) p i (fewer_right (or_else (share b) p) g i y)))
      ∙ ap (λ (o : Option Bytes). or_else o (or_else g i)) (sym mine)
      ∙ ap (or_else (get k (process_all ch (b ∷ bs)))) (sym theirs)
