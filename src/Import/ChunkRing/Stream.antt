-- ===== src/Import/ChunkRing/Stream.antt =====
-- The ring against the stream that the producer wrote: where the bytes of its chunks lie.
use malcom.Prelude.{ℕ, ◌≡◌, List, [], ◌∷◌, ◌++◌, Bytes, length}
use malcom.Prelude.Map.{nat_key}
use malcom.Import.ChunkRing.{Chunk, Ring, chunk_end}

-- The chunks lie one after the other from an offset on and hold these bytes.
abbrev pub Laid : ℕ → List Chunk → Bytes → Type 0
Laid from [] s = s ≡ []
Laid from (c ∷ cs) s =
    (c.first ≡ from) × ((rest : Bytes) × (s ≡ c.bytes ++ rest) × Laid (chunk_end c) cs rest)

-- The ring holds the stream from its head on, and its tail is the stream's length.
abbrev pub IsView : Ring → Bytes → Type 0
IsView r s =
    (gone : Bytes) × (kept : Bytes) × (s ≡ gone ++ kept)
    × (length gone ≡ r.head)
    × Laid r.head r.chunks kept
    × (length s ≡ r.tail)
