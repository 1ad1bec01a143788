-- ===== src/Diff/ChunkWriter.antt =====
-- internal/snapshotdiff/apply.go: `chunkWriter`, which cuts the compressed stream into chunk files. A chunk
-- is its bytes; the creation and the writing of the files are taken to succeed, and a chunk's hash is a
-- function of its bytes.
pub mod Cut
use malcom.Prelude.{
  ℕ, zero, suc, ◌+◌, ◌-◌, List, [], ◌∷◌, ◌++◌, Bytes, Option, none, some, ltb, leb, if◌then◌else◌,
  length, take, drop,
}

-- The chunk size, the open chunk, the closed ones in their order, and the bytes written.
pub record ChunkWriter : Type 0 where
  pub chunk_size : ℕ
  pub cur : Option Bytes
  pub chunks : List Bytes
  pub total_written : ℕ

unfoldable new_chunk_writer : ℕ → ChunkWriter
new_chunk_writer size = record { chunk_size = size; cur = none; chunks = []; total_written = 0 }

-- `openNext`, where no chunk is open.
abbrev pub opened : Option Bytes → Bytes
opened none = []
opened (some bs) = bs

abbrev close_chunk : Option Bytes → List Bytes → List Bytes
close_chunk none chunks = chunks
close_chunk (some bs) chunks = chunks ++ bs ∷ []

unfoldable pub close_current : ChunkWriter → ChunkWriter
close_current c = record c { cur = none; chunks = close_chunk c.cur c.chunks }

-- The number of bytes that go into the open chunk, with `room` left of it.
abbrev clipped : ℕ → ℕ → ℕ
clipped room n = if ltb room n then room else n

-- One round of `Write`, without the test of its loop.
unfoldable pub write_round : Bytes → ChunkWriter → ChunkWriter
unfolding close_current
write_round p c =
    let bs = opened c.cur in
    let n = clipped (c.chunk_size - length bs) (length p) in
    let c' : ChunkWriter = record c {
      cur = some (bs ++ take n p);
      total_written = c.total_written + n;
    } in
    if leb c.chunk_size (length bs + n) then close_current c' else c'

abbrev pub taken : Bytes → ChunkWriter → ℕ
taken p c = clipped (c.chunk_size - length (opened c.cur)) (length p)

-- The loop of `Write`; fuel as long as the bytes is enough where a chunk has room for one.
unfoldable pub write_from : ℕ → Bytes → ChunkWriter → Option ChunkWriter
unfolding write_round
write_from f [] c = some c
write_from zero (b ∷ p) c = none
write_from (suc f) (b ∷ p) c = write_from f (drop (taken (b ∷ p) c) (b ∷ p)) (write_round (b ∷ p) c)

unfoldable pub write : Bytes → ChunkWriter → Option ChunkWriter
unfolding write_from
write p c = write_from (length p) p c
