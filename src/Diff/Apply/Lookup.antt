-- ===== src/Diff/Apply/Lookup.antt =====
-- What the items of an applied store hold for one key.
use malcom.Prelude.{
  ◌≡◌, refl, ap, subst, ◌∙◌, inl, inr, List, [], ◌∷◌, Bytes, Bool, true, false, Option, none, some,
  if◌then◌else◌, Bool-cases,
}
use malcom.Prelude.Map.{
  Map, bytes_key, bytes_equal, bytes_equal_refl, bytes_equal→eq, get, put, get-put_self, get-put_ne,
}
use malcom.Diff.Compute.{Change, insert, update, delete, as_records}
use malcom.Diff.Compute.Changes.{or_else, inserted, updated, is_deleted}
use malcom.Diff.Apply.{StoreChanges, new_store_changes, add_change, read_store_changes}

-- A put, as a lookup sees it.
get-put_if :
    {V : Type 0} (k j : Bytes) (v : V) (m : Map Bytes V)
    → get k (put j v m) ≡ (if bytes_equal j k then some v else get k m)
get-put_if k j v m = elim (Bool-cases (bytes_equal j k)) [
  | inl t ↦ rw t (
      subst (λ (i : Bytes). get i (put j v m) ≡ some v) (bytes_equal→eq j k t) (get-put_self j v m))
  | inr f ↦ rw f (
      get-put_ne k j v m
        (λ e. cc (subst (λ (i : Bytes). bytes_equal j i ≡ true) e (bytes_equal_refl j), f)))
]

abbrev pub has_key : Option (Unit {0}) → Bool
has_key none = false
has_key (some v) = true

or_else_if :
    (i : Option Bytes) (e : Bool) (v : Bytes) (d : Option Bytes)
    → or_else i (if e then some v else d) ≡ or_else (or_else i (if e then some v else none)) d
or_else_if none true v d = refl
or_else_if none false v d = refl
or_else_if (some w) e v d = refl

or_if :
    (d e : Bool) (o : Option (Unit {0}))
    → (if d then true else has_key (if e then some tt else o))
      ≡ (if (if d then true else e) then true else has_key o)
or_if true e o = refl
or_if false true o = refl
or_if false false o = refl

-- The maps that the changes of a store end up in.
abbrev pub after : List Change → StoreChanges → StoreChanges
after cs ch = (read_store_changes (as_records cs) ch).0

read_store_changes-inserts :
    (k : Bytes) (cs : List Change) (ch : StoreChanges)
    → get k (after cs ch).inserts ≡ or_else (inserted k cs) (get k ch.inserts)
unfolding read_store_changes add_change
read_store_changes-inserts k [] ch = refl
read_store_changes-inserts k (insert j v ∷ cs) ch =
    read_store_changes-inserts k cs (add_change (insert j v) ch)
    ∙ ap (or_else (inserted k cs)) (get-put_if k j v ch.inserts)
    ∙ or_else_if (inserted k cs) (bytes_equal j k) v (get k ch.inserts)
read_store_changes-inserts k (update j v ∷ cs) ch =
    read_store_changes-inserts k cs (add_change (update j v) ch)
read_store_changes-inserts k (delete j ∷ cs) ch =
    read_store_changes-inserts k cs (add_change (delete j) ch)

read_store_changes-updates :
    (k : Bytes) (cs : List Change) (ch : StoreChanges)
    → get k (after cs ch).updates ≡ or_else (updated k cs) (get k ch.updates)
unfolding read_store_changes add_change
read_store_changes-updates k [] ch = refl
read_store_changes-updates k (update j v ∷ cs) ch =
    read_store_changes-updates k cs (add_change (update j v) ch)
    ∙ ap (or_else (updated k cs)) (get-put_if k j v ch.updates)
    ∙ or_else_if (updated k cs) (bytes_equal j k) v (get k ch.updates)
read_store_changes-updates k (insert j v ∷ cs) ch =
    read_store_changes-updates k cs (add_change (insert j v) ch)
read_store_changes-updates k (delete j ∷ cs) ch =
    read_store_changes-updates k cs (add_change (delete j) ch)

read_store_changes-deletes :
    (k : Bytes) (cs : List Change) (ch : StoreChanges)
    → has_key (get k (after cs ch).deletes)
      ≡ (if is_deleted k cs then true else has_key (get k ch.deletes))
unfolding read_store_changes add_change
read_store_changes-deletes k [] ch = refl
read_store_changes-deletes k (delete j ∷ cs) ch =
    read_store_changes-deletes k cs (add_change (delete j) ch)
    ∙ ap (λ (o : Option (Unit {0})). if is_deleted k cs then true else has_key o)
        (get-put_if k j tt ch.deletes)
    ∙ or_if (is_deleted k cs) (bytes_equal j k) (get k ch.deletes)
read_store_changes-deletes k (insert j v ∷ cs) ch =
    read_store_changes-deletes k cs (add_change (insert j v) ch)
read_store_changes-deletes k (update j v ∷ cs) ch =
    read_store_changes-deletes k cs (add_change (update j v) ch)

pub or_else-none : (o : Option Bytes) → or_else o none ≡ o
or_else-none none = refl
or_else-none (some v) = refl

or_false : (d : Bool) → (if d then true else false) ≡ d
or_false true = refl
or_false false = refl

-- From no changes on: what was inserted, updated and deleted last.
module _ (k : Bytes) (cs : List Change) where
  pub get-inserts : get k (after cs new_store_changes).inserts ≡ inserted k cs
  unfolding get
  get-inserts = read_store_changes-inserts k cs new_store_changes ∙ or_else-none (inserted k cs)

  pub get-updates : get k (after cs new_store_changes).updates ≡ updated k cs
  unfolding get
  get-updates = read_store_changes-updates k cs new_store_changes ∙ or_else-none (updated k cs)

  pub get-deletes : has_key (get k (after cs new_store_changes).deletes) ≡ is_deleted k cs
  unfolding get
  get-deletes = read_store_changes-deletes k cs new_store_changes ∙ or_false (is_deleted k cs)
