-- ===== src/Diff/Apply/Inserts.antt =====
-- The inserts in the order of their keys hold what the map of inserts holds.
use malcom.Prelude.{
  ◌≡◌, refl, ap, ◌∙◌, inl, inr, List, [], ◌∷◌, Bytes, Bool, true, false, none, some, if◌then◌else◌,
  Bool-cases,
}
use malcom.Prelude.Map.{Map, bytes_key, bytes_equal, bytes_equal→eq, get}
use Prim.Native.Nat.{Ordering}
use malcom.Diff.Compute.{bytes_compare}
use malcom.Diff.Apply.{insert_sorted, sort_keys, keys_of, or_nil, inserts_at, sorted_inserts}

abbrev has : Bytes → List Bytes → Bool
has k [] = false
has k (j ∷ js) = if bytes_equal j k then true else has k js

has-insert_sorted : (k j : Bytes) (js : List Bytes) → has k (insert_sorted j js) ≡ has k (j ∷ js)
unfolding insert_sorted
has-insert_sorted k j [] = refl
has-insert_sorted k j (i ∷ is) = by_order (bytes_compare j i) (has-insert_sorted k j is)
  where
    swap_tests :
        (d e f : Bool)
        → (if d then true else if e then true else f) ≡ (if e then true else if d then true else f)
    swap_tests true true f = refl
    swap_tests true false f = refl
    swap_tests false e f = refl

    by_order :
        (o : Ordering)
        → has k (insert_sorted j is) ≡ has k (j ∷ is)
        → has k (elim o [ Ordering.gt ↦ i ∷ insert_sorted j is | _ ↦ j ∷ i ∷ is ])
          ≡ has k (j ∷ i ∷ is)
    by_order Ordering.lt ih = refl
    by_order Ordering.eq ih = refl
    by_order Ordering.gt ih =
        ap (λ (b : Bool). if bytes_equal i k then true else b) ih
        ∙ swap_tests (bytes_equal i k) (bytes_equal j k) (has k is)

has-sort_keys : (k : Bytes) (js : List Bytes) → has k (sort_keys js) ≡ has k js
unfolding sort_keys
has-sort_keys k [] = refl
has-sort_keys k (j ∷ js) =
    has-insert_sorted k j (sort_keys js)
    ∙ ap (λ (b : Bool). if bytes_equal j k then true else b) (has-sort_keys k js)

has-keys_of :
    (k : Bytes) (m : Map Bytes Bytes)
    → (if has k (keys_of m) then some (or_nil (get k m)) else none) ≡ get k m
unfolding get
has-keys_of k [] = refl
has-keys_of k ((j, v) ∷ m) = by_test (bytes_equal j k) (has-keys_of k m)
  where
    by_test :
        (e : Bool)
        → (if has k (keys_of m) then some (or_nil (get k m)) else none) ≡ get k m
        → (if (if e then true else has k (keys_of m))
            then some (or_nil (if e then some v else get k m))
            else none)
          ≡ (if e then some v else get k m)
    by_test true ih = refl
    by_test false ih = ih

get-inserts_at :
    (k : Bytes) (m : Map Bytes Bytes) (ks : List Bytes)
    → get k (inserts_at m ks) ≡ (if has k ks then some (or_nil (get k m)) else none)
unfolding get
get-inserts_at k m [] = refl
get-inserts_at k m (j ∷ js) = elim (Bool-cases (bytes_equal j k)) [
  | inl t ↦ rw t (ap (λ (i : Bytes). some (or_nil (get i m))) (bytes_equal→eq j k t))
  | inr f ↦ rw f (get-inserts_at k m js)
]

pub get-sorted_inserts : (k : Bytes) (m : Map Bytes Bytes) → get k (sorted_inserts m) ≡ get k m
unfolding sorted_inserts
get-sorted_inserts k m =
    get-inserts_at k m (sort_keys (keys_of m))
    ∙ ap (λ (b : Bool). if b then some (or_nil (get k m)) else none) (has-sort_keys k (keys_of m))
    ∙ has-keys_of k m
