-- ===== src/Import/ChunkRing/Progress.antt =====
-- A reader whose bytes are in the ring gets some of them.
use malcom.Prelude.{
  ℕ, ◌+◌, ◌-◌, ◌≤◌, ◌<◌, ◌≡◌, sym, ◌∙◌, ap, true, false, ◌&&◌, List, [], ◌∷◌, Option, none, some,
  Bytes, arith, ltb, leb, if◌then◌else◌, if_split, length, take, drop, length-append, length-take,
  length-drop,
}
use mathlib.Core.Bool.{false≢true}
use malcom.Prelude.Map
use malcom.Prelude.Map.{nat_key}
use malcom.Import.ChunkRing.{
  Chunk, Reader, Ring, chunk_end, lower, clip, find_chunk, Reading, got, eof, waits, evicted,
  failed, is_past, read_size, missing_chunk, read, evict_locked,
}
use malcom.Import.ChunkRing.Stream.{Laid, IsView}

-- The chunk of an offset: there is one, and it holds the offset.
abbrev IsHeld : ℕ → Option Chunk → Type 0
IsHeld pos none = ⊥
IsHeld pos (some c) = (c.first ≤ pos) × (pos < chunk_end c)

find_chunk-IsHeld :
    (pos : ℕ) (cs : List Chunk) (from : ℕ) (kept : Bytes)
    → Laid from cs kept
    → from ≤ pos
    → pos < from + length kept
    → IsHeld pos (find_chunk pos cs)
unfolding find_chunk
find_chunk-IsHeld pos [] from kept l low high = absurd (omega (arith, ap length l, low, high))
find_chunk-IsHeld pos (c ∷ cs) from kept (at, (rest, e, l)) low high =
    if_split (IsHeld pos) (leb c.first pos && ltb pos (chunk_end c)) (λ t. (ground arith, within t))
      (λ f.
        find_chunk-IsHeld pos cs (chunk_end c) rest l (beyond f)
          (omega (arith, high, ap length e, length-append c.bytes rest, at)))
  where
    within : (leb c.first pos && ltb pos (chunk_end c)) ≡ true → pos < chunk_end c
    within t = ground arith

    beyond : (leb c.first pos && ltb pos (chunk_end c)) ≡ false → chunk_end c ≤ pos
    beyond f = ground (arith, at, low)

-- Some bytes are handed out.
abbrev pub IsProgress : Reading → Type 0
IsProgress (got b) = 0 < length b
IsProgress eof = ⊥
IsProgress waits = ⊥
IsProgress evicted = ⊥
IsProgress (failed e) = ⊥

read_size-gt :
    (rd : Reader) (c : Chunk) (room : ℕ)
    → is_past rd.end_limit rd.pos ≡ false
    → c.first ≤ rd.pos
    → rd.pos < chunk_end c
    → 0 < room
    → (0 < read_size rd c room) × (read_size rd c room ≤ length c.bytes - (rd.pos - c.first))
unfolding read_size
read_size-gt rd c room live low high pos = go rd.end_limit live
  where
    go :
        (o : Option ℕ)
        → is_past o rd.pos ≡ false
        → (0 < clip o rd.pos (lower (length c.bytes - (rd.pos - c.first)) room))
          × (clip o rd.pos (lower (length c.bytes - (rd.pos - c.first)) room)
              ≤ length c.bytes - (rd.pos - c.first))
    go none f = ground arith
    go (some e) f = ground arith

-- In a ring that holds the stream, a reader that is before its end, not behind the ring's head and
-- before its tail gets at least one byte into a buffer that has room: it neither waits, nor ends, nor
-- fails.
pub read-IsProgress :
    (r : Ring) (s : Bytes) (id : ℕ) (rd : Reader) (room : ℕ)
    → IsView r s
    → is_past rd.end_limit rd.pos ≡ false
    → r.head ≤ rd.pos
    → rd.pos < r.tail
    → 0 < room
    → IsProgress (read r id rd room).0
unfolding read
read-IsProgress r s id rd room (gone, kept, e, n, l, t) live low high pos =
    if_split P (is_past rd.end_limit rd.pos) (λ y. absurd (false≢true (sym live ∙ y)))
      (λ _. go (find_chunk rd.pos r.chunks) (
        find_chunk-IsHeld rd.pos r.chunks r.head kept l low
          (omega (arith, high, t, n, ap length e, length-append gone kept))))
  where
    P : Reading × Ring → Type 0
    P x = IsProgress x.0

    go :
        (o : Option Chunk)
        → IsHeld rd.pos o
        → P (elim o as (λ _. Reading × Ring) [
          | none ↦ (missing_chunk r rd, r)
          | some c ↦
              let n = read_size rd c room in
              let off = rd.pos - c.first in
              if leb (length c.bytes) off then (waits, r) else (
                got (take n (drop off c.bytes)),
                evict_locked
                    record r { readers = Map.put id record rd { pos = rd.pos + n } r.readers },
              )
        ])
    go none h = absurd h
    go (some c) (from, to) =
        let (some_size, fits) = read_size-gt rd c room live from to pos in
        if_split P (leb (length c.bytes) (rd.pos - c.first)) (λ y. absurd (inside from to y))
          (λ _. omega (
            arith,
            some_size,
            length-take (read_size rd c room) (drop (rd.pos - c.first) c.bytes)
                (omega (arith, fits, length-drop (rd.pos - c.first) c.bytes)),
          ))
      where
        inside :
            c.first ≤ rd.pos
            → rd.pos < chunk_end c
            → leb (length c.bytes) (rd.pos - c.first) ≡ true
            → ⊥
        inside from to y = ground arith
