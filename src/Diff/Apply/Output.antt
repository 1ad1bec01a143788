-- ===== src/Diff/Apply/Output.antt =====
-- What the output of `Apply` is to hold.
use malcom.Prelude.{
  ◌≡◌, refl, sym, List, [], ◌∷◌, Bytes, Option, none, some, Outcome, ret, fail, panic, stuck,
}
use malcom.Prelude.Map.{bytes_key, get}
use malcom.Diff.Compute.{
  DiffRecord, store_enter, store_leave, change, ext_enter, ext_leave, ext_add, ext_remove, Store,
}
use malcom.Diff.Compute.Changes.{lookup_leaf, AllRead, AllDistinct}
use malcom.Diff.Apply.Once.{IsOnly}
use malcom.Diff.Apply.{Item, over, items_or_none, with_store, ApplyError, peek_section}

-- When an output is the target: it has its stores in their order, each with its value for every key, once; a
-- store without leaves may be left out, and stores without items may stand between.
pub data Restores : List (Bytes × List Item) → List Store → Type 0 where
  done : Restores [] []
  same_store :
      (t : Store) (is : List Item) (out : List (Bytes × List Item)) (ts : List Store)
      → ((k : Bytes) → IsOnly k is (lookup_leaf k t.leaves))
      → Restores out ts
      → Restores ((t.name, is) ∷ out) (t ∷ ts)
  no_items :
      (t : Store) (out : List (Bytes × List Item)) (ts : List Store)
      → ((k : Bytes) → lookup_leaf k t.leaves ≡ none)
      → Restores out ts
      → Restores out (t ∷ ts)
  left_empty :
      (name : Bytes) (is : List Item) (out : List (Bytes × List Item)) (ts : List Store)
      → ((k : Bytes) → IsOnly k is none)
      → Restores out ts
      → Restores ((name, is) ∷ out) ts

abbrev pub Gives : List Store → Outcome ApplyError (List (Bytes × List Item)) → Type 0
Gives ts (ret out) = Restores out ts
Gives ts _ = ⊥

-- What follows the stores in a diff.
abbrev pub StoresOver : List DiffRecord → Type 0
StoresOver [] = Unit
StoresOver (ext_enter name format ∷ rs) = Unit
StoresOver _ = ⊥

-- Every store's leaves are read alike, and no key stands twice in a store.
abbrev pub AllStores : (Bytes → Bytes × Bytes) → List Store → Type 0
AllStores read [] = Unit
AllStores read (s ∷ ss) = AllRead read s.leaves × AllDistinct s.leaves × AllStores read ss

pub peek-StoresOver : (rs : List DiffRecord) → StoresOver rs → peek_section rs ≡ over rs
unfolding peek_section
peek-StoresOver [] h = refl
peek-StoresOver (ext_enter name format ∷ rs) h = refl
peek-StoresOver (store_enter name ∷ rs) h = elim h [ ]
peek-StoresOver (change c ∷ rs) h = elim h [ ]
peek-StoresOver (store_leave ∷ rs) h = elim h [ ]
peek-StoresOver (ext_leave ∷ rs) h = elim h [ ]
peek-StoresOver (ext_add p ∷ rs) h = elim h [ ]
peek-StoresOver (ext_remove p ∷ rs) h = elim h [ ]

pub with_store-Gives :
    (t : Store) (is : Option (List Item)) (ts : List Store)
    (o : Outcome ApplyError (List (Bytes × List Item)))
    → ((k : Bytes) → IsOnly k (items_or_none is) (lookup_leaf k t.leaves))
    → Gives ts o
    → Gives (t ∷ ts) (with_store t.name is o)
unfolding get
with_store-Gives t none ts (ret out) h g = no_items t out ts (λ k. sym (h k).0) g
with_store-Gives t (some is) ts (ret out) h g = same_store t is out ts h g
with_store-Gives t is ts (fail e) h g = elim g [ ]
with_store-Gives t is ts panic h g = elim g [ ]
with_store-Gives t is ts stuck h g = elim g [ ]

pub with_store-gone :
    (name : Bytes) (is : Option (List Item)) (ts : List Store)
    (o : Outcome ApplyError (List (Bytes × List Item)))
    → ((k : Bytes) → IsOnly k (items_or_none is) none)
    → Gives ts o
    → Gives ts (with_store name is o)
with_store-gone name none ts (ret out) h g = g
with_store-gone name (some is) ts (ret out) h g = left_empty name is out ts h g
with_store-gone name is ts (fail e) h g = elim g [ ]
with_store-gone name is ts panic h g = elim g [ ]
with_store-gone name is ts stuck h g = elim g [ ]
