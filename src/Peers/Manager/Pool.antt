-- ===== src/Peers/Manager/Pool.antt =====
-- Whom the warm-fill dials.
use malcom.Prelude.{
  ℕ, zero, suc, ◌+◌, ◌%◌, ◌≤◌, ◌<◌, ◌≡◌, refl, ◌⊎◌, inl, inr, Bool, true, false, not, ◌&&◌, List,
  [], ◌∷◌, ◌++◌, Option, none, some, String, arith, leb, ◌==◌, if◌then◌else◌, if_cases, if_split,
  length, get_elem?, length-append,
}
use native.Mathlib.Nat.{mod-lt}
use mathlib.Core.Bool.{false≢true}
use malcom.Prelude.Map
use malcom.Prelude.Map.{Map, string_key}
use malcom.Peers.Manager.{
  NetAddress, Config, Manager, Net, has_flag, is_some, is_free, candidate, pool_from,
  dial_from_pool,
}

-- Every address belongs to a peer that is not banned, not pinned and not connected.
abbrev pub IsAllFree : Net → Manager → List NetAddress → Type 0
IsAllFree net m [] = Unit
IsAllFree net m (na ∷ nas) =
    ((Map.get na.id m.banned ≡ none) ⊎ (Map.get na.id m.banned ≡ some false))
    × (Map.get na.id m.pinned ≡ none)
    × (net.connected na.id ≡ false)
    × IsAllFree net m nas

unset : (o : Option Bool) → not (has_flag o) ≡ true → (o ≡ none) ⊎ (o ≡ some false)
unset none h = inl refl
unset (some true) h = absurd (false≢true h)
unset (some false) h = inr refl

absent : {A : Type 0} (o : Option A) → not (is_some o) ≡ true → o ≡ none
absent none h = refl
absent (some a) h = absurd (false≢true h)

free-IsAllFree :
    (net : Net) (m : Manager) (na : NetAddress)
    → (is_free m na.id && not (net.connected na.id)) ≡ true
    → IsAllFree net m (na ∷ [])
free-IsAllFree net m na t = (
  unset (Map.get na.id m.banned) (ground arith),
  absent (Map.get na.id m.pinned) (ground arith),
  ground arith,
  tt,
)

IsAllFree-append :
    (net : Net) (m : Manager) (xs ys : List NetAddress)
    → IsAllFree net m xs
    → IsAllFree net m ys
    → IsAllFree net m (xs ++ ys)
IsAllFree-append net m [] ys a b = b
IsAllFree-append net m (x ∷ xs) ys (q, p, c, a) b = (q, p, c, IsAllFree-append net m xs ys a b)

-- A try adds at most one address, and only a free one.
candidate-IsAllFree :
    (net : Net) (m : Manager) (o : Option String)
    → IsAllFree net m (candidate net m o) × (length (candidate net m o) ≤ 1)
candidate-IsAllFree net m none = (tt, omega arith)
candidate-IsAllFree net m (some addr) = go (net.parse addr)
  where
    P : List NetAddress → Type 0
    P xs = IsAllFree net m xs × (length xs ≤ 1)

    go :
        (o : Option NetAddress)
        → P (elim o as (λ _. List NetAddress) [
          | none ↦ []
          | some na ↦ if is_free m na.id && not (net.connected na.id) then na ∷ [] else []
        ])
    go none = (tt, omega arith)
    go (some na) =
        if_split P (is_free m na.id && not (net.connected na.id))
          (λ t. (free-IsAllFree net m na t, omega arith)) (λ f. (tt, omega arith))

module _ (cfg : Config) (net : Net) (m : Manager) (need : ℕ) where
  abbrev IsDraw : ℕ × List NetAddress → Type 0
  IsDraw (cursor, found) =
      (cursor < length cfg.pool) × IsAllFree net m found × (length found ≤ need)

  pool_from-IsDraw :
      (tries cursor : ℕ) (found : List NetAddress)
      → IsDraw (cursor, found)
      → IsDraw (pool_from cfg net m tries need cursor found)
  unfolding pool_from
  pool_from-IsDraw zero cursor found d = d
  pool_from-IsDraw (suc tries) cursor found (c, a, le) =
      let (b, one) = candidate-IsAllFree net m (get_elem? cfg.pool cursor) in
      if_split IsDraw (leb need (length found)) (λ t. (c, a, le))
        (λ f.
          pool_from-IsDraw tries ((cursor + 1) % length cfg.pool)
            (found ++ candidate net m (get_elem? cfg.pool cursor))
            (
              around c,
              IsAllFree-append net m found (candidate net m (get_elem? cfg.pool cursor)) a b,
              room f one,
            ))
    where
      around : cursor < length cfg.pool → (cursor + 1) % length cfg.pool < length cfg.pool
      around c = mod-lt (cursor + 1) (omega (arith, c))

      room :
          leb need (length found) ≡ false
          → length (candidate net m (get_elem? cfg.pool cursor)) ≤ 1
          → length (found ++ candidate net m (get_elem? cfg.pool cursor)) ≤ need
      room f one = ground (arith, length-append found (candidate net m (get_elem? cfg.pool cursor)))

  -- From a cursor inside the pool, `dialFromPool` dials at most as many peers as are needed, none of
  -- them banned, pinned or connected, and leaves the cursor inside the pool.
  pub dial_from_pool-IsAllFree :
      m.cursor < length cfg.pool
      → IsAllFree net m (dial_from_pool cfg net need m).1
        × (length (dial_from_pool cfg net need m).1 ≤ need)
        × ((dial_from_pool cfg net need m).0.cursor < length cfg.pool)
  unfolding dial_from_pool
  dial_from_pool-IsAllFree c =
      if_cases
        (λ (x : Manager × List NetAddress).
          IsAllFree net m x.1 × (length x.1 ≤ need) × (x.0.cursor < length cfg.pool))
        (length cfg.pool == 0) (tt, omega arith, c)
        (swap (pool_from cfg net m (length cfg.pool) need m.cursor [])
          (pool_from-IsDraw (length cfg.pool) m.cursor [] (c, tt, omega arith)))
    where
      swap :
          (x : ℕ × List NetAddress)
          → IsDraw x
          → IsAllFree net m x.1 × (length x.1 ≤ need) × (x.0 < length cfg.pool)
      swap (cursor, found) (c, a, le) = (a, le, c)
