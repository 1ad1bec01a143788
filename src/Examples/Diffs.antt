-- ===== src/Examples/Diffs.antt =====
-- The theorems on the snapshot diff at concrete stores.
use malcom.Prelude.{◌≡◌, refl, List, [], ◌∷◌, ◌++◌, Bytes, codes, some, arith}
use malcom.Prelude.Map.{bytes_key, bytes_equal}
use malcom.Diff.Compute.{Leaf, Store, ext_enter, compute_stream}
use malcom.Diff.Apply.{apply}
use malcom.Diff.ChunkWriter.{ChunkWriter, write}
use malcom.Diff.ChunkWriter.Cut.{IsCut, content, write-IsCut}
use malcom.Diff.Apply.Output.{Gives}
use malcom.Diff.Apply.Stores.{apply-compute_stream}

-- A record of a key of one byte and the value behind it.
abbrev toy_read : Bytes → Bytes × Bytes
toy_read [] = ([], [])
toy_read (k ∷ v) = (k ∷ [], v)

abbrev toy_leaf : Bytes → Leaf
toy_leaf raw = record { raw = raw; key = (toy_read raw).0; value = (toy_read raw).1 }

-- Key 9 stays, key 4 changes, key 5 goes and key 6 comes; the orders differ.
abbrev base_leaves : List Leaf
base_leaves = toy_leaf (9 ∷ 1 ∷ []) ∷ toy_leaf (4 ∷ 2 ∷ []) ∷ toy_leaf (5 ∷ []) ∷ []

abbrev target_leaves : List Leaf
target_leaves = toy_leaf (4 ∷ 3 ∷ []) ∷ toy_leaf (6 ∷ 8 ∷ []) ∷ toy_leaf (9 ∷ 1 ∷ []) ∷ []

-- The store `bank` changes, `mint` goes and `wasm` comes; an extension follows.
abbrev base_stores : List Store
base_stores =
    record { name = codes "bank"; leaves = base_leaves }
    ∷ record { name = codes "mint"; leaves = toy_leaf (1 ∷ []) ∷ [] }
    ∷ []

abbrev target_stores : List Store
target_stores =
    record { name = codes "bank"; leaves = target_leaves }
    ∷ record { name = codes "wasm"; leaves = toy_leaf (2 ∷ 5 ∷ []) ∷ [] }
    ∷ []

apply-compute_stream_example :
    Gives target_stores (
      apply base_stores
        (compute_stream base_stores target_stores (ext_enter (codes "wasm") 1 ∷ [])))
unfolding bytes_equal
apply-compute_stream_example =
    apply-compute_stream toy_read base_stores target_stores (ext_enter (codes "wasm") 1 ∷ []) tt
      ((refl, (refl, (refl, tt))), (refl, (refl, (refl, tt))), ((refl, tt), (refl, tt), tt))
      ((refl, (refl, (refl, tt))), (refl, (refl, (refl, tt))), ((refl, tt), (refl, tt), tt))

-- Chunks of three bytes; one is open with two bytes in it.
abbrev small_writer : ChunkWriter
small_writer = record {
  chunk_size = 3;
  cur = some (4 ∷ 5 ∷ []);
  chunks = (1 ∷ 2 ∷ 3 ∷ []) ∷ [];
  total_written = 5;
}

small_writer-IsCut : IsCut small_writer
small_writer-IsCut = record { full = (refl, tt); room = omega arith; counted = refl }

write-IsCut_example :
    (c' : ChunkWriter) × (write (6 ∷ 7 ∷ 8 ∷ 9 ∷ 10 ∷ []) small_writer ≡ some c')
    × IsCut c'
    × (content c' ≡ content small_writer ++ (6 ∷ 7 ∷ 8 ∷ 9 ∷ 10 ∷ []))
    × (c'.chunk_size ≡ 3)
write-IsCut_example = write-IsCut (6 ∷ 7 ∷ 8 ∷ 9 ∷ 10 ∷ []) small_writer small_writer-IsCut
