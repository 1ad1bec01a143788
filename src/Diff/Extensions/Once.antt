-- ===== src/Diff/Extensions/Once.antt =====
-- No payload stands twice in an extension after the differ's records have been applied to the base's.
use malcom.Prelude.{
  ℕ, ◌+◌, ◌≤◌, ◌≡◌, refl, sym, ap, subst, ◌∙◌, ◌⊎◌, inl, inr, List, [], ◌∷◌, ◌++◌, Bytes, Bool,
  Option, none, some, Bool-cases, arith,
}
use malcom.Prelude.Map.{Map, bytes_key, bytes_equal, bytes_equal_refl, bytes_equal→eq, get, put}
use malcom.Diff.Extensions.{ExtChangeSet, keys, by_hash, unless_there, adds_of, kept}
use malcom.Diff.Extensions.Hashes.{In}
use malcom.Diff.Apply.Once.{one_if, count, count_keys, count-put}

pub count_keys-append :
    (x : Bytes) (xs ys : List Bytes) → count_keys x (xs ++ ys) ≡ count_keys x xs + count_keys x ys
count_keys-append x [] ys = omega arith
count_keys-append x (y ∷ xs) ys = omega (arith, count_keys-append x xs ys)

-- What stands in a list, and what does not.
pub count_keys-cases : (x : Bytes) (xs : List Bytes) → In x xs ⊎ (count_keys x xs ≡ 0)
count_keys-cases x [] = inr refl
count_keys-cases x (y ∷ xs) = elim (Bool-cases (bytes_equal y x)) [
  | inl t ↦ inl (inl (sym (bytes_equal→eq y x t)))
  | inr f ↦ elim (count_keys-cases x xs) [
    | inl i ↦ inl (inr i)
    | inr e ↦ inr (rw f (omega (arith, e)))
  ]
]

count-keys : {V : Type 0} (x : Bytes) (m : Map Bytes V) → count_keys x (keys m) ≡ count x m
count-keys x [] = refl
count-keys x ((k, v) ∷ m) = ap (λ (n : ℕ). one_if (bytes_equal k x) + n) (count-keys x m)

one_if-eq : (h j : Bytes) → h ≡ j → one_if (bytes_equal h j) ≡ 1
one_if-eq h j e =
    subst (λ (i : Bytes). one_if (bytes_equal h i) ≡ 1) e (rw (bytes_equal_refl h) refl)

module _ (sha256 : Bytes → Bytes) where
  by_hash-count :
      {V : Type 0} (f : Bytes → V) (h : Bytes) (ps : List Bytes) (m : Map Bytes V)
      → count h m ≤ 1
      → count h (by_hash sha256 f ps m) ≤ 1
  unfolding by_hash
  by_hash-count f h [] m le = le
  by_hash-count f h (p ∷ ps) m le =
      by_hash-count f h ps (put (sha256 p) (f p) m) (count-put h (sha256 p) (f p) m le)

  -- Each hash stands once among the keys.
  pub keys-by_hash :
      {V : Type 0} (f : Bytes → V) (h : Bytes) (ps : List Bytes)
      → count_keys h (keys (by_hash sha256 f ps [])) ≤ 1
  keys-by_hash f h ps =
      rw (count-keys h (by_hash sha256 f ps [])) (by_hash-count f h ps [] (omega arith))

  pub count_keys-kept :
      (x : Bytes) (ch : ExtChangeSet) (ps : List Bytes)
      → count_keys x (kept sha256 (some ch) ps) ≤ count_keys x ps
  unfolding kept
  count_keys-kept x ch [] = omega arith
  count_keys-kept x ch (p ∷ ps) = by_mark (get (sha256 p) ch.removes) (count_keys-kept x ch ps)
    where
      by_mark :
          (o : Option (Unit {0}))
          → count_keys x (kept sha256 (some ch) ps) ≤ count_keys x ps
          → count_keys x (unless_there o (some p) (kept sha256 (some ch) ps))
            ≤ one_if (bytes_equal p x) + count_keys x ps
      by_mark none le = omega (arith, le)
      by_mark (some v) le = omega (arith, le)

  module _ (bases : Map Bytes Bool) (targets : Map Bytes Bytes)
      (hashed : (h p : Bytes) → get h targets ≡ some p → sha256 p ≡ h) (x : Bytes) where
    -- A payload is added at most as often as its hash is visited, and not where the base has its hash.
    pub adds_of-once :
        (hs : List Bytes)
        → count_keys x (adds_of sha256 bases targets hs) ≤ count_keys (sha256 x) hs
    unfolding adds_of
    adds_of-once [] = omega arith
    adds_of-once (h ∷ hs) = by_hashes (get h bases) (get h targets) refl (adds_of-once hs)
      where
        by_hashes :
            (o : Option Bool) (found : Option Bytes)
            → get h targets ≡ found
            → count_keys x (adds_of sha256 bases targets hs) ≤ count_keys (sha256 x) hs
            → count_keys x (unless_there o found (adds_of sha256 bases targets hs))
              ≤ one_if (bytes_equal h (sha256 x)) + count_keys (sha256 x) hs
        by_hashes (some v) found e le = omega (arith, le)
        by_hashes none none e le = omega (arith, le)
        by_hashes none (some p) e le = elim (Bool-cases (bytes_equal p x)) [
          | inl t ↦ rw t (
              omega (
                arith,
                le,
                one_if-eq h (sha256 x) (sym (hashed h p e) ∙ ap sha256 (bytes_equal→eq p x t)),
              ))
          | inr f ↦ rw f (omega (arith, le))
        ]

    pub adds_of-shared :
        (v : Bool) (hs : List Bytes)
        → get (sha256 x) bases ≡ some v
        → count_keys x (adds_of sha256 bases targets hs) ≡ 0
    unfolding adds_of
    adds_of-shared v [] there = refl
    adds_of-shared v (h ∷ hs) there =
        by_hashes (get h bases) (get h targets) refl refl (adds_of-shared v hs there)
      where
        by_hashes :
            (o : Option Bool) (found : Option Bytes)
            → get h bases ≡ o
            → get h targets ≡ found
            → count_keys x (adds_of sha256 bases targets hs) ≡ 0
            → count_keys x (unless_there o found (adds_of sha256 bases targets hs)) ≡ 0
        by_hashes (some w) found e g z = z
        by_hashes none none e g z = z
        by_hashes none (some p) e g z = elim (Bool-cases (bytes_equal p x)) [
          | inl t ↦
              let same : h ≡ sha256 x = sym (hashed h p g) ∙ ap sha256 (bytes_equal→eq p x t) in
              let gone : none ≡ some v =
                sym e ∙ subst (λ (j : Bytes). get j bases ≡ some v) (sym same) there in
              cc
          | inr f ↦ rw f (omega (arith, z))
        ]
