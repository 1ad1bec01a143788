-- ===== src/Import/ChunkRing/Reads.antt =====
-- What `Read` and the eviction do to the stream.
use malcom.Prelude.{
  ℕ, zero, suc, ◌+◌, ◌-◌, ◌/◌, ◌≤◌, ◌<◌, ◌≡◌, refl, sym, ap, ◌∙◌, true, ◌&&◌, List, [], ◌∷◌, ◌++◌,
  append_assoc, Option, none, some, Bytes, String, arith, ltb, leb, if◌then◌else◌, if_cases,
  if_split, length, take, drop, length-append, length-take, length-drop,
}
use malcom.Prelude.Map
use malcom.Prelude.Map.{Map, nat_key}
use malcom.Import.ChunkRing.{
  Chunk, Reader, Ring, chunk_end, lower, clip, min_pin, evict_chunks, evict_below, evict_locked,
  find_chunk, free_buf, Reading, got, eof, waits, evicted, failed, is_past, read_size,
  missing_chunk, read,
}
use malcom.Import.ChunkRing.Pins.{
  IsAhead, AllAhead, AllAhead-put, read_on-IsAhead, evict_locked-AllAhead, evict_locked-readers,
}
use malcom.Import.ChunkRing.Stream.{Laid, IsView}

-- What an eviction leaves: a later head, the rest of the chunks, and the bytes in front of them gone.
abbrev IsEvicted : Bytes → (ℕ × List Chunk × ℕ) → Type 0
IsEvicted s (head, cs, pooled) =
    (gone : Bytes) × (kept : Bytes) × (s ≡ gone ++ kept) × (length gone ≡ head) × Laid head cs kept

evict_chunks-IsEvicted :
    (m pin : ℕ) (cs : List Chunk) (pooled : ℕ) (s gone kept : Bytes) (head : ℕ)
    → s ≡ gone ++ kept
    → length gone ≡ head
    → Laid head cs kept
    → IsEvicted s (evict_chunks m pin head cs pooled)
unfolding evict_chunks
evict_chunks-IsEvicted m pin [] pooled s gone kept head e n l = (gone, kept, e, n, l)
evict_chunks-IsEvicted m pin (c ∷ cs) pooled s gone kept head e n (at, (rest, e', l)) =
    if_cases (IsEvicted s) (ltb pin (chunk_end c)) (gone, kept, e, n, (at, (rest, e', l)))
      (evict_chunks-IsEvicted m pin cs (free_buf m pooled) s (gone ++ c.bytes) rest (chunk_end c)
        (e ∙ ap (λ x. gone ++ x) e' ∙ sym (append_assoc gone c.bytes rest))
        (omega (arith, length-append gone c.bytes, n, at)) l)

evict_locked-IsView : (r : Ring) (s : Bytes) → IsView r s → IsView (evict_locked r) s
unfolding evict_locked
evict_locked-IsView r s (gone, kept, e, n, l, t) = go (min_pin r.readers)
  where
    with_tail :
        (x : ℕ × List Chunk × ℕ)
        → IsEvicted s x
        → IsView (record r { head = x.0; chunks = x.1; free_bufs = x.2 }) s
    with_tail (head, cs, pooled) (gone', kept', e', n', l') = (gone', kept', e', n', l', t)

    go : (o : Option ℕ) → IsView (evict_below r o) s
    go none = (gone, kept, e, n, l, t)
    go (some pin) =
        with_tail (evict_chunks (r.max_bytes / r.chunk_size) pin r.head r.chunks r.free_bufs) (
          evict_chunks-IsEvicted (r.max_bytes / r.chunk_size) pin r.chunks r.free_bufs s gone kept
            r.head e n l)

-- Where the chunk that holds an offset lies in the stream.
abbrev IsFound : ℕ → Bytes → Option Chunk → Type 0
IsFound pos s none = Unit
IsFound pos s (some c) =
    (c.first ≤ pos)
    × (pos < chunk_end c)
    × ((front : Bytes) × (rear : Bytes) × (s ≡ front ++ (c.bytes ++ rear))
        × (length front ≡ c.first))

find_chunk-IsFound :
    (pos : ℕ) (cs : List Chunk) (from : ℕ) (s gone kept : Bytes)
    → s ≡ gone ++ kept
    → length gone ≡ from
    → Laid from cs kept
    → IsFound pos s (find_chunk pos cs)
unfolding find_chunk
find_chunk-IsFound pos [] from s gone kept e n l = tt
find_chunk-IsFound pos (c ∷ cs) from s gone kept e n (at, (rest, e', l)) =
    if_split (IsFound pos s) (leb c.first pos && ltb pos (chunk_end c))
      (λ t. (low t, high t, (gone, rest, e ∙ ap (λ x. gone ++ x) e', omega (arith, n, at))))
      (λ f.
        find_chunk-IsFound pos cs (chunk_end c) s (gone ++ c.bytes) rest
          (e ∙ ap (λ x. gone ++ x) e' ∙ sym (append_assoc gone c.bytes rest))
          (omega (arith, length-append gone c.bytes, n, at)) l)
  where
    low : (leb c.first pos && ltb pos (chunk_end c)) ≡ true → c.first ≤ pos
    low t = ground arith

    high : (leb c.first pos && ltb pos (chunk_end c)) ≡ true → pos < chunk_end c
    high t = ground arith

drop-front :
    (front xs : Bytes) (pos : ℕ)
    → length front ≤ pos
    → drop pos (front ++ xs) ≡ drop (pos - length front) xs
drop-front [] xs pos h = ap (λ (n : ℕ). drop n xs) (omega arith)
drop-front (x ∷ front) xs zero h = absurd (omega (arith, h))
drop-front (x ∷ front) xs (suc pos) h =
    drop-front front xs pos (omega (arith, h)) ∙ ap (λ (n : ℕ). drop n xs) (omega arith)

take-drop_within :
    (n k : ℕ) (xs ys : Bytes) → n + k ≤ length xs → take n (drop k (xs ++ ys)) ≡ take n (drop k xs)
take-drop_within zero k xs ys h = refl
take-drop_within (suc n) zero [] ys h = absurd (omega (arith, h))
take-drop_within (suc n) zero (x ∷ xs) ys h =
    ap (◌∷◌ x) (take-drop_within n zero xs ys (omega (arith, h)))
take-drop_within (suc n) (suc k) [] ys h = absurd (omega (arith, h))
take-drop_within (suc n) (suc k) (x ∷ xs) ys h = take-drop_within (suc n) k xs ys (omega (arith, h))

read_size-le :
    (rd : Reader) (c : Chunk) (room : ℕ) → read_size rd c room ≤ length c.bytes - (rd.pos - c.first)
unfolding read_size
read_size-le rd c room = go rd.end_limit
  where
    go :
        (o : Option ℕ)
        → clip o rd.pos (lower (length c.bytes - (rd.pos - c.first)) room)
          ≤ length c.bytes - (rd.pos - c.first)
    go none = ground arith
    go (some e) = ground arith

-- The bytes that a read hands out are those of the stream at the reader's place.
abbrev pub IsFrom : Bytes → ℕ → Reading → Type 0
IsFrom s pos (got b) = b ≡ take (length b) (drop pos s)
IsFrom s pos eof = Unit
IsFrom s pos waits = Unit
IsFrom s pos evicted = Unit
IsFrom s pos (failed e) = Unit

missing_chunk-IsFrom :
    (r : Ring) (s : Bytes) (rd : Reader) (pos : ℕ) → IsFrom s pos (missing_chunk r rd)
unfolding missing_chunk
missing_chunk-IsFrom r s rd pos =
    if_cases (IsFrom s pos) (ltb rd.pos r.head) tt
      (if_cases (IsFrom s pos) (r.closed && leb r.tail rd.pos) (go r.err) tt)
  where
    go :
        (o : Option String)
        → IsFrom s pos (elim o as (λ _. Reading) [ none ↦ eof | some e ↦ failed e ])
    go none = tt
    go (some e) = tt

taken-IsFrom :
    (s front rear bytes : Bytes) (pos first n : ℕ)
    → s ≡ front ++ (bytes ++ rear)
    → length front ≡ first
    → first ≤ pos
    → pos < first + length bytes
    → n ≤ length bytes - (pos - first)
    → IsFrom s pos (got (take n (drop (pos - first) bytes)))
taken-IsFrom s front rear bytes pos first n e f low high le = sym (
    ap (λ (m : ℕ). take m (drop pos s))
      (length-take n (drop (pos - first) bytes)
        (omega (arith, le, length-drop (pos - first) bytes)))
    ∙ (ap (λ x. take n (drop pos x)) e
        ∙ (ap (take n) (drop-front front (bytes ++ rear) pos (omega (arith, f, low)))
            ∙ (ap (λ (m : ℕ). take n (drop (pos - m) (bytes ++ rear))) f
                ∙ take-drop_within n (pos - first) bytes rear (omega (arith, le, low, high))))))

-- What a read does to its reader: it moves on behind the bytes that it hands out; with none, nothing has
-- changed.
abbrev pub IsMoved : ℕ → Reader → Ring → Reading → Ring → Type 0
IsMoved id rd r (got b) r' = Map.get id r'.readers ≡ some record rd { pos = rd.pos + length b }
IsMoved id rd r eof r' = r' ≡ r
IsMoved id rd r waits r' = r' ≡ r
IsMoved id rd r evicted r' = r' ≡ r
IsMoved id rd r (failed e) r' = r' ≡ r

missing_chunk-IsMoved : (id : ℕ) (rd : Reader) (r : Ring) → IsMoved id rd r (missing_chunk r rd) r
unfolding missing_chunk
missing_chunk-IsMoved id rd r =
    if_cases (λ (x : Reading). IsMoved id rd r x r) (ltb rd.pos r.head) refl
      (if_cases (λ (x : Reading). IsMoved id rd r x r) (r.closed && leb r.tail rd.pos) (go r.err)
        refl)
  where
    go :
        (o : Option String)
        → IsMoved id rd r (elim o as (λ _. Reading) [ none ↦ eof | some e ↦ failed e ]) r
    go none = refl
    go (some e) = refl

-- A read of a ring that holds the stream `s`, whose head is no further than any open reader's pin (its
-- place, where it moves no pin by hand): what it hands out, if anything, are bytes of `s` from the
-- reader's place on, and the reader then stands behind them; the ring that it leaves, evicted chunks and
-- all, still holds `s`, and its head has passed no open reader's pin.
pub read-IsFrom :
    (r : Ring) (s : Bytes) (id : ℕ) (rd : Reader) (room : ℕ)
    → IsView r s
    → IsAhead r.head rd
    → AllAhead r.head r.readers
    → IsFrom s rd.pos (read r id rd room).0
      × IsView (read r id rd room).1 s
      × IsMoved id rd r (read r id rd room).0 (read r id rd room).1
      × AllAhead (read r id rd room).1.head (read r id rd room).1.readers
unfolding read
read-IsFrom r s id rd room v ahead all =
    if_cases P (is_past rd.end_limit rd.pos) (tt, v, refl, all)
      (go (find_chunk rd.pos r.chunks) found)
  where
    P : Reading × Ring → Type 0
    P x =
        IsFrom s rd.pos x.0 × IsView x.1 s × IsMoved id rd r x.0 x.1 × AllAhead x.1.head x.1.readers

    turned : ℕ → Ring
    turned n = record r { readers = Map.put id record rd { pos = rd.pos + n } r.readers }

    taken-IsMoved :
        (n : ℕ) (bytes : Bytes)
        → n ≤ length bytes
        → IsMoved id rd r (got (take n bytes)) (evict_locked (turned n))
    taken-IsMoved n bytes le =
        rw (length-take n bytes le, evict_locked-readers (turned n))
          (Map.get-put_self id record rd { pos = rd.pos + n } r.readers)

    found : IsFound rd.pos s (find_chunk rd.pos r.chunks)
    found =
        let (gone, kept, e, n, l, t) = v in
        find_chunk-IsFound rd.pos r.chunks r.head s gone kept e n l

    none_found : IsFrom s rd.pos (missing_chunk r rd)
    none_found = missing_chunk-IsFrom r s rd rd.pos

    go :
        (o : Option Chunk)
        → IsFound rd.pos s o
        → P (elim o as (λ _. Reading × Ring) [
          | none ↦ (missing_chunk r rd, r)
          | some c ↦
              let n = read_size rd c room in
              let off = rd.pos - c.first in
              if leb (length c.bytes) off then (waits, r) else (
                got (take n (drop off c.bytes)),
                evict_locked
                    record r { readers = Map.put id record rd { pos = rd.pos + n } r.readers },
              )
        ])
    go none w = (none_found, v, missing_chunk-IsMoved id rd r, all)
    go (some c) (low, high, (front, rear, e, n)) =
        if_cases P (leb (length c.bytes) (rd.pos - c.first)) (tt, v, refl, all)
          (
            taken-IsFrom s front rear c.bytes rd.pos c.first (read_size rd c room) e n low high
                (read_size-le rd c room),
            evict_locked-IsView (turned (read_size rd c room)) s v,
            taken-IsMoved (read_size rd c room) (drop (rd.pos - c.first) c.bytes)
                (omega (arith, read_size-le rd c room, length-drop (rd.pos - c.first) c.bytes)),
            evict_locked-AllAhead (turned (read_size rd c room)) (
                AllAhead-put r.head id record rd { pos = rd.pos + read_size rd c room } r.readers
                  (read_on-IsAhead r.head (read_size rd c room) rd ahead) all),
          )
