-- ===== src/Prelude/Map.antt =====
-- A Go map as an association list. The order of the list is the order in which `range` visits it.
use Prim.Native.Nat.{ℕ}
use Prim.Native.String.{String}
use mathlib.Core.Path.{◌≡◌, refl, subst}
use mathlib.Core.Logic.{◌↔◌, ◌≢◌, inl, inr}
use mathlib.Core.Bool.{Bool, true, false, ◌&&◌, false≢true}
use mathlib.Core.List.{List, [], ◌∷◌}
use mathlib.Core.Option.{Option, none, some}
use native.Mathlib.Omega.{arith}
use text.Mathlib.Text.{◌==◌ as str_eq}
use text.Mathlib.TextEquality.{eq_iff}
use malcom.Prelude.Tests.{◌==◌, ==_iff, if◌then◌else◌, Bool-cases}

-- Keys are compared by a Boolean test that decides equality.
pub record Key (K : Type 0) : Type 0 where
  pub beq : K → K → Bool
  pub beq_iff : (a b : K) → (beq a b ≡ true) ↔ (a ≡ b)

instance abbrev pub nat_key : Key ℕ
nat_key = record { beq = ◌==◌; beq_iff = ==_iff }

instance abbrev pub string_key : Key String
string_key = record { beq = str_eq; beq_iff = eq_iff }

-- `bytes.Equal`.
unfoldable pub bytes_equal : List ℕ → List ℕ → Bool
bytes_equal [] [] = true
bytes_equal (a ∷ xs) (b ∷ ys) = a == b && bytes_equal xs ys
bytes_equal _ _ = false

pub bytes_equal→eq : (xs ys : List ℕ) → bytes_equal xs ys ≡ true → xs ≡ ys
unfolding bytes_equal
bytes_equal→eq [] [] h = refl
bytes_equal→eq [] (b ∷ ys) h = absurd (false≢true h)
bytes_equal→eq (a ∷ xs) [] h = absurd (false≢true h)
bytes_equal→eq (a ∷ xs) (b ∷ ys) h = ground (arith, bytes_equal→eq xs ys)

pub bytes_equal_refl : (xs : List ℕ) → bytes_equal xs xs ≡ true
unfolding bytes_equal
bytes_equal_refl [] = refl
bytes_equal_refl (a ∷ xs) = ground (arith, bytes_equal_refl xs)

pub bytes_equal_iff : (xs ys : List ℕ) → (bytes_equal xs ys ≡ true) ↔ (xs ≡ ys)
bytes_equal_iff xs ys =
    (bytes_equal→eq xs ys, λ e. subst (λ t. bytes_equal xs t ≡ true) e (bytes_equal_refl xs))

instance abbrev pub bytes_key : Key (List ℕ)
bytes_key = record { beq = bytes_equal; beq_iff = bytes_equal_iff }

abbrev pub Map : Type 0 → Type 0 → Type 0
Map K V = List (K × V)

module _ {K : Type 0} ⦃e : Key K⦄ where
  pub beq_refl : (k : K) → e.beq k k ≡ true
  beq_refl k = (e.beq_iff k k).1 refl

  pub beq_ne : (j k : K) → j ≢ k → e.beq j k ≡ false
  beq_ne j k h = elim (Bool-cases (e.beq j k)) [
    | inl t ↦ absurd (h ((e.beq_iff j k).0 t))
    | inr f ↦ f
  ]

module _ {K : Type 0} ⦃e : Key K⦄ {V : Type 0} where
  unfoldable pub get : K → Map K V → Option V
  get k [] = none
  get k ((j, v) ∷ m) = if e.beq j k then some v else get k m

  unfoldable pub put : K → V → Map K V → Map K V
  put k v [] = (k, v) ∷ []
  put k v ((j, w) ∷ m) = if e.beq j k then (k, v) ∷ m else (j, w) ∷ put k v m

  unfoldable pub delete : K → Map K V → Map K V
  delete k [] = []
  delete k ((j, w) ∷ m) = let rest = delete k m in if e.beq j k then rest else (j, w) ∷ rest

  -- A write through the pointer that the map holds at a key; nothing where the key is absent.
  unfoldable pub modify : K → (V → V) → Map K V → Map K V
  modify k f [] = []
  modify k f ((j, w) ∷ m) = if e.beq j k then (j, f w) ∷ m else (j, w) ∷ modify k f m

  pub get-here : (k : K) (v : V) (m : Map K V) → get k ((k, v) ∷ m) ≡ some v
  unfolding get
  get-here k v m = rw (beq_refl k)

  pub get-there : (k j : K) (v : V) (m : Map K V) → j ≢ k → get k ((j, v) ∷ m) ≡ get k m
  unfolding get
  get-there k j v m h = rw (beq_ne j k h)

  pub get-put_self : (k : K) (v : V) (m : Map K V) → get k (put k v m) ≡ some v
  unfolding get put
  get-put_self k v [] = rw (beq_refl k)
  get-put_self k v ((j, w) ∷ m) = ground (arith, beq_refl k, get-put_self k v m)

  pub get-put_ne : (k j : K) (v : V) (m : Map K V) → j ≢ k → get k (put j v m) ≡ get k m
  unfolding get put
  get-put_ne k j v [] h = rw (beq_ne j k h)
  get-put_ne k j v ((i, w) ∷ m) h =
      ground
        (arith, beq_ne j k h, get-put_ne k j v m h, e.beq_iff i j, e.beq_iff i k, e.beq_iff j k)

  pub get-delete_self : (k : K) (m : Map K V) → get k (delete k m) ≡ none
  unfolding get delete
  get-delete_self k [] = refl
  get-delete_self k ((j, w) ∷ m) = ground (arith, get-delete_self k m)

  pub get-delete_ne : (k j : K) (m : Map K V) → j ≢ k → get k (delete j m) ≡ get k m
  unfolding get delete
  get-delete_ne k j [] h = refl
  get-delete_ne k j ((i, w) ∷ m) h =
      ground (arith, get-delete_ne k j m h, e.beq_iff i j, e.beq_iff i k, beq_ne j k h)

  pub get-modify_ne : (k j : K) (f : V → V) (m : Map K V) → j ≢ k → get k (modify j f m) ≡ get k m
  unfolding get modify
  get-modify_ne k j f [] h = refl
  get-modify_ne k j f ((i, w) ∷ m) h =
      ground (arith, get-modify_ne k j f m h, e.beq_iff i j, e.beq_iff i k, beq_ne j k h)
