-- ===== src/Import/Nonces.antt =====
-- internal/snapshotimport/importer.go: the counters from which `storeImporter.nextNonce` numbers the
-- nodes of one version.
pub mod Counting
use malcom.Prelude.{
  ℕ, zero, suc, ◌+◌, ◌%◌, ◌^◌, Bool, not, List, [], ◌∷◌, Option, none, some, ◌==◌, if◌then◌else◌,
}
use malcom.Prelude.Map.{Map, nat_key, get, put}

-- The fields `nonces`, `nonceCacheVersion` and `nonceCacheCounter`.
pub record Nonces : Type 0 where
  pub table : Map ℕ ℕ
  pub cache_version : ℕ
  pub cache_counter : ℕ

abbrev pub no_nonces : Nonces
no_nonces = record { table = []; cache_version = 0; cache_counter = 0 }

-- A read of a Go map: 0 where the key is absent.
abbrev or_zero : Option ℕ → ℕ
or_zero none = 0
or_zero (some n) = n

-- The cache goes back to the map, but for version 0, which stands for an empty cache.
unfoldable pub flush : Nonces → Map ℕ ℕ
unfolding get put
flush n = if n.cache_version == 0 then n.table else put n.cache_version n.cache_counter n.table

-- The counter from which a version goes on; a version that was never met starts at 1.
unfoldable pub resume : Map ℕ ℕ → ℕ → ℕ
unfolding get
resume table version = let cur = or_zero (get version table) in if cur == 0 then 1 else cur

unfoldable pub switch_to : ℕ → Nonces → Nonces
unfolding flush resume
switch_to version n = if n.cache_version == version then n else record {
  table = flush n;
  cache_version = version;
  cache_counter = resume (flush n) version;
}

-- `nextNonce`: the nonce, and the counters after it.
unfoldable pub next_nonce : ℕ → Nonces → ℕ × Nonces
unfolding switch_to
next_nonce version n =
    let n' = switch_to version n in
    let counter = (n'.cache_counter + 1) % 2 ^ 32 in
    (counter, record n' { cache_counter = counter })

-- The nonces of the nodes of these versions, in order.
unfoldable pub nonces_of : List ℕ → Nonces → List ℕ
nonces_of [] n = []
nonces_of (v ∷ vs) n = let (nonce, n') = next_nonce v n in nonce ∷ nonces_of vs n'
