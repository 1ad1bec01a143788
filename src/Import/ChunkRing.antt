-- ===== src/Import/ChunkRing.antt =====
-- internal/snapshotimport/chunkring.go: the ring of decompressed chunks between the decompressor and
-- the readers of the stores. Every method runs under the ring's mutex, so it is one step; where the
-- code waits on the condition variable the step says so and changes nothing more. The 64-bit offsets
-- are plain numbers. Of the pool of buffers the model keeps how many it holds.
pub mod Stream
pub mod Writes
pub mod Pins
pub mod Reads
pub mod Progress
use malcom.Prelude.{
  ℕ, zero, suc, ◌+◌, ◌-◌, ◌/◌, Bool, true, false, ◌&&◌, ◌||◌, List, [], ◌∷◌, ◌++◌, Option, none,
  some, Bytes, String, ltb, leb, ◌==◌, if◌then◌else◌, length, take, drop,
}
use malcom.Prelude.Map
use malcom.Prelude.Map.{Map, nat_key}

-- `chunkEnt`.
pub record Chunk : Type 0 where
  pub first : ℕ
  pub bytes : Bytes

-- `chunkRingReader`. An `end_limit` of -1 is `none`; `is_open` says that the ring's `readers` hold it.
pub record Reader : Type 0 where
  pub pos : ℕ
  pub pin : ℕ
  pub manual : Bool
  pub end_limit : Option ℕ
  pub is_open : Bool

pub record Ring : Type 0 where
  pub chunk_size : ℕ
  pub max_bytes : ℕ
  pub chunks : List Chunk
  pub tail : ℕ
  pub head : ℕ
  pub closed : Bool
  pub err : Option String
  pub readers : Map ℕ Reader
  pub free_bufs : ℕ

-- `none` is the panic on a bad size.
unfoldable new_chunk_ring : ℕ → ℕ → Option Ring
new_chunk_ring chunk_size max_bytes =
    if leb chunk_size 0 || ltb max_bytes chunk_size
    then none
    else some record {
      chunk_size = chunk_size;
      max_bytes = max_bytes;
      chunks = [];
      tail = 0;
      head = 0;
      closed = false;
      err = none;
      readers = [];
      free_bufs = 0;
    }

abbrev pub chunk_end : Chunk → ℕ
chunk_end c = c.first + length c.bytes

-- `freeBufLocked`: the pool holds at most `maxBytes / chunkSize` buffers.
unfoldable pub free_buf : ℕ → ℕ → ℕ
free_buf max_chunks pooled = if leb max_chunks pooled then pooled else pooled + 1

abbrev pub lower : ℕ → ℕ → ℕ
lower a b = if ltb b a then b else a

abbrev effective_pin : Reader → ℕ
effective_pin rd = if rd.manual then rd.pin else rd.pos

-- The least pin of the readers that the ring holds.
unfoldable pub min_pin : Map ℕ Reader → Option ℕ
min_pin [] = none
min_pin ((i, rd) ∷ rds) =
    let rest = min_pin rds in
    if rd.is_open
    then elim rest [ none ↦ some (effective_pin rd) | some m ↦ some (lower m (effective_pin rd)) ]
    else rest

-- The loop of `evictLocked` with its `head`, `chunks` and pool.
unfoldable pub evict_chunks : ℕ → ℕ → ℕ → List Chunk → ℕ → ℕ × List Chunk × ℕ
unfolding free_buf
evict_chunks max_chunks pin head [] pooled = (head, [], pooled)
evict_chunks max_chunks pin head (c ∷ cs) pooled =
    let rest = evict_chunks max_chunks pin (chunk_end c) cs (free_buf max_chunks pooled) in
    if ltb pin (chunk_end c) then (head, c ∷ cs, pooled) else rest

abbrev pub evict_below : Ring → Option ℕ → Ring
evict_below r none = r
evict_below r (some pin) =
    let (head, chunks, pooled) =
      evict_chunks (r.max_bytes / r.chunk_size) pin r.head r.chunks r.free_bufs in
    record r { head = head; chunks = chunks; free_bufs = pooled }

unfoldable pub evict_locked : Ring → Ring
unfolding min_pin evict_chunks
evict_locked r = evict_below r (min_pin r.readers)

-- What is free in the most recent chunk.
unfoldable pub last_room : ℕ → List Chunk → ℕ
last_room size [] = 0
last_room size (c ∷ []) = size - length c.bytes
last_room size (c ∷ d ∷ cs) = last_room size (d ∷ cs)

unfoldable pub grow_last : Bytes → List Chunk → List Chunk
grow_last b [] = []
grow_last b (c ∷ []) = record c { bytes = c.bytes ++ b } ∷ []
grow_last b (c ∷ d ∷ cs) = c ∷ grow_last b (d ∷ cs)

pub data WriteStatus : Type 0 where
  finished waiting closed_ring spinning : WriteStatus

pub record Written : Type 0 where
  pub ring : Ring
  pub count : ℕ
  pub status : WriteStatus

-- How much one round takes: no more than is left, than fits, and than the cap allows.
unfoldable pub take_size : Ring → ℕ → ℕ → ℕ
take_size r left room = lower (lower left room) (r.max_bytes - (r.tail - r.head))

-- The bytes go to the most recent chunk where it has room, else to a new one.
unfoldable pub append_bytes : Ring → Bytes → Ring
append_bytes r b =
    if ltb 0 (last_room r.chunk_size r.chunks)
    then record r { chunks = grow_last b r.chunks; tail = r.tail + length b }
    else record r {
      chunks = r.chunks ++ record { first = r.tail; bytes = b } ∷ [];
      tail = r.tail + length b;
      free_bufs = r.free_bufs - 1;
    }

unfoldable pub round_size : Ring → Bytes → ℕ
round_size r p =
    let room = last_room r.chunk_size r.chunks in
    if ltb 0 room then take_size r (length p) room else take_size r (length p) r.chunk_size

abbrev pub written : Ring → ℕ → WriteStatus → Written
written r n s = record { ring = r; count = n; status = s }

-- The loop of `Write`, up to its end or the first wait that nobody has ended; `spinning` is the
-- end of the fuel.
unfoldable pub write_from : ℕ → Ring → Bytes → ℕ → Written
write_from f r [] n = written r n finished
write_from zero r (b ∷ p) n = written r n spinning
write_from (suc f) r (b ∷ p) n =
    let k = round_size r (b ∷ p) in
    let next = write_from f (append_bytes r (take k (b ∷ p))) (drop k (b ∷ p)) (n + k) in
    let stay = write_from f r (b ∷ p) n in
    if r.closed
    then written r n closed_ring
    else if leb r.max_bytes (r.tail - r.head)
    then written r n waiting
    else if k == 0
    then stay
    else next

-- Every round takes a byte, so a round for each byte is enough.
unfoldable pub write : Ring → Bytes → Written
unfolding write_from round_size append_bytes
write r p = write_from (length p) r p 0

unfoldable pub close : Ring → Option String → Ring
close r e = record r { closed = true; err = elim r.err [ none ↦ e | some x ↦ some x ] }

-- `NewReader`; `none` is `ErrStartEvicted`. `id` is a name for the new object.
unfoldable new_reader : Ring → ℕ → ℕ → Option ℕ → Option Ring
new_reader r id from end_limit =
    if ltb from r.head
    then none
    else some record r {
      readers =
          Map.put id
            record { pos = from; pin = 0; manual = false; end_limit = end_limit; is_open = true }
            r.readers;
    }

abbrev to_manual : Reader → Reader
to_manual rd = if rd.manual then rd else record rd { pin = rd.pos; manual = true }

unfoldable enable_manual_pin : Ring → ℕ → Ring
enable_manual_pin r id = record r { readers = Map.modify id to_manual r.readers }

abbrev advanced : ℕ → Reader → Reader
advanced n rd =
    let target = lower (rd.pin + n) rd.pos in
    if leb target rd.pin then rd else record rd { pin = target }

-- `AdvancePin`: the pin goes no further than the cursor, and a call that moves it evicts.
unfoldable advance_pin : Ring → ℕ → ℕ → Ring
unfolding evict_locked
advance_pin r id n = if n == 0 then r else elim (Map.get id r.readers) [
  | none ↦ r
  | some rd ↦
      let m = to_manual rd in
      let r' = record r { readers = Map.put id (advanced n m) r.readers } in
      if leb (lower (m.pin + n) m.pos) m.pin then r' else evict_locked r'
]

unfoldable pub find_chunk : ℕ → List Chunk → Option Chunk
find_chunk pos [] = none
find_chunk pos (c ∷ cs) =
    if leb c.first pos && ltb pos (chunk_end c) then some c else find_chunk pos cs

pub data Reading : Type 0 where
  got : Bytes → Reading
  eof waits : Reading
  evicted : Reading
  failed : String → Reading

abbrev pub is_past : Option ℕ → ℕ → Bool
is_past none pos = false
is_past (some e) pos = leb e pos

abbrev pub clip : Option ℕ → ℕ → ℕ → ℕ
clip none pos n = n
clip (some e) pos n = if ltb e (pos + n) then e - pos else n

-- How many bytes a read into a buffer of `room` bytes takes from the chunk.
unfoldable pub read_size : Reader → Chunk → ℕ → ℕ
read_size rd c room = clip rd.end_limit rd.pos (lower (length c.bytes - (rd.pos - c.first)) room)

unfoldable pub missing_chunk : Ring → Reader → Reading
missing_chunk r rd =
    if ltb rd.pos r.head
    then evicted
    else if r.closed && leb r.tail rd.pos
    then (elim r.err [ none ↦ eof | some e ↦ failed e ])
    else waits

-- One pass of the loop of `Read` for the reader `id`, into a buffer of `room` bytes.
unfoldable pub read : Ring → ℕ → Reader → ℕ → Reading × Ring
unfolding find_chunk read_size missing_chunk evict_locked
read r id rd room =
    if is_past rd.end_limit rd.pos then (eof, r) else elim (find_chunk rd.pos r.chunks) [
      | none ↦ (missing_chunk r rd, r)
      | some c ↦
          let n = read_size rd c room in
          let off = rd.pos - c.first in
          if leb (length c.bytes) off then (waits, r) else (
            got (take n (drop off c.bytes)),
            evict_locked record r { readers = Map.put id record rd { pos = rd.pos + n } r.readers },
          )
    ]

unfoldable set_end : Ring → ℕ → ℕ → Ring
set_end r id e = record r {
  readers = Map.modify id (λ (rd : Reader). record rd { end_limit = some e }) r.readers;
}

unfoldable close_reader : Ring → ℕ → Ring
unfolding evict_locked
close_reader r id =
    evict_locked record r {
      readers = Map.modify id (λ (rd : Reader). record rd { is_open = false }) r.readers;
    }
