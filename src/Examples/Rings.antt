-- ===== src/Examples/Rings.antt =====
-- A ring of chunks of two bytes that holds at most four.
use malcom.Prelude.{◌-◌, ◌≤◌, refl, true, false, [], ◌∷◌, ◌++◌, none, arith, take}
use malcom.Import.ChunkRing.{Reader, Ring, write, read}
use malcom.Import.ChunkRing.Progress.{IsProgress, read-IsProgress}
use malcom.Import.ChunkRing.Stream.{IsView}
use malcom.Import.ChunkRing.Writes.{IsEnded, write-IsWritten}
use malcom.Import.ChunkRing.Pins.{AllAhead, by_pin}
use malcom.Import.ChunkRing.Reads.{IsFrom, IsMoved, read-IsFrom}

-- The stream 1 2 3 with its first chunk evicted.
abbrev small_ring : Ring
small_ring = record {
  chunk_size = 2;
  max_bytes = 4;
  chunks = record { first = 2; bytes = 3 ∷ [] } ∷ [];
  tail = 3;
  head = 2;
  closed = false;
  err = none;
  readers = [];
  free_bufs = 1;
}

abbrev small_reader : Reader
small_reader = record { pos = 2; pin = 2; manual = true; end_limit = none; is_open = true }

small_ring-IsView : IsView small_ring (1 ∷ 2 ∷ 3 ∷ [])
small_ring-IsView = (1 ∷ 2 ∷ [], 3 ∷ [], refl, refl, (refl, ([], refl, refl)), refl)

write-IsWritten_example :
    IsEnded false
      (write small_ring (4 ∷ 5 ∷ 6 ∷ 7 ∷ [])).count
      (4 - (write small_ring (4 ∷ 5 ∷ 6 ∷ 7 ∷ [])).count)
      (write small_ring (4 ∷ 5 ∷ 6 ∷ 7 ∷ []))
    × ((write small_ring (4 ∷ 5 ∷ 6 ∷ 7 ∷ [])).count ≤ 4)
    × IsView (write small_ring (4 ∷ 5 ∷ 6 ∷ 7 ∷ [])).ring (
        (1 ∷ 2 ∷ 3 ∷ []) ++ take (write small_ring (4 ∷ 5 ∷ 6 ∷ 7 ∷ [])).count (4 ∷ 5 ∷ 6 ∷ 7 ∷ []))
write-IsWritten_example =
    write-IsWritten small_ring (1 ∷ 2 ∷ 3 ∷ []) (4 ∷ 5 ∷ 6 ∷ 7 ∷ []) (omega arith) small_ring-IsView

abbrev read_ring : Ring
read_ring = record small_ring { readers = (0, small_reader) ∷ [] }

read-IsFrom_example :
    IsFrom (1 ∷ 2 ∷ 3 ∷ []) 2 (read read_ring 0 small_reader 10).0
    × IsView (read read_ring 0 small_reader 10).1 (1 ∷ 2 ∷ 3 ∷ [])
    × IsMoved 0 small_reader read_ring
        (read read_ring 0 small_reader 10).0
        (read read_ring 0 small_reader 10).1
    × AllAhead
        (read read_ring 0 small_reader 10).1.head
        (read read_ring 0 small_reader 10).1.readers
read-IsFrom_example =
    read-IsFrom read_ring (1 ∷ 2 ∷ 3 ∷ []) 0 small_reader 10 small_ring-IsView
      (by_pin refl (omega arith)) (by_pin refl (omega arith), tt)

read-IsProgress_example : IsProgress (read small_ring 0 small_reader 10).0
read-IsProgress_example =
    read-IsProgress small_ring (1 ∷ 2 ∷ 3 ∷ []) 0 small_reader 10 small_ring-IsView refl
      (omega arith) (omega arith) (omega arith)
