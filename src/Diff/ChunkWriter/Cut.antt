-- ===== src/Diff/ChunkWriter/Cut.antt =====
-- The chunks are the stream, cut at multiples of the chunk size.
use malcom.Prelude.{
  take-drop, ℕ, zero, suc, ◌+◌, ◌-◌, ◌≤◌, ◌<◌, ◌≡◌, refl, sym, ap, ◌∙◌, List, [], ◌∷◌, ◌++◌,
  append_assoc, append-nil, Bytes, some, false, ltb, leb, if_split, leb→le, length, take, drop,
  length-append, length-take, length-drop, arith,
}
use malcom.Diff.ChunkWriter.{
  ChunkWriter, opened, close_current, taken, write_round, write_from, write,
}

abbrev pub joined : List Bytes → Bytes
joined [] = []
joined (c ∷ cs) = c ++ joined cs

abbrev AllOfSize : ℕ → List Bytes → Type 0
AllOfSize size [] = Unit
AllOfSize size (c ∷ cs) = (length c ≡ size) × AllOfSize size cs

-- What has been written.
abbrev pub content : ChunkWriter → Bytes
content c = joined c.chunks ++ opened c.cur

-- Every closed chunk is full and the open one is not; the count is that of the bytes.
pub record IsCut (c : ChunkWriter) : Type 0 where
  pub full : AllOfSize c.chunk_size c.chunks
  pub room : length (opened c.cur) < c.chunk_size
  pub counted : c.total_written ≡ length (content c)

joined-append : (cs : List Bytes) (b : Bytes) → joined (cs ++ b ∷ []) ≡ joined cs ++ b
joined-append [] b = append-nil b
joined-append (c ∷ cs) b =
    ap (λ (r : Bytes). c ++ r) (joined-append cs b) ∙ sym (append_assoc c (joined cs) b)

AllOfSize-append :
    (size : ℕ) (cs : List Bytes) (b : Bytes)
    → AllOfSize size cs
    → length b ≡ size
    → AllOfSize size (cs ++ b ∷ [])
AllOfSize-append size [] b a e = (e, tt)
AllOfSize-append size (c ∷ cs) b (h, a) e = (h, AllOfSize-append size cs b a e)

taken-le :
    (p : Bytes) (c : ChunkWriter)
    → (taken p c ≤ length p) × (taken p c ≤ c.chunk_size - length (opened c.cur))
taken-le p c = ground arith

write_round-content :
    (p : Bytes) (c : ChunkWriter) → content (write_round p c) ≡ content c ++ take (taken p c) p
unfolding write_round close_current
write_round-content p c =
    if_split (λ (d : ChunkWriter). content d ≡ content c ++ take (taken p c) p)
      (leb c.chunk_size (length (opened c.cur) + taken p c))
      (λ _.
        append-nil _
        ∙ joined-append c.chunks _
        ∙ sym (append_assoc (joined c.chunks) (opened c.cur) (take (taken p c) p)))
      (λ _. sym (append_assoc (joined c.chunks) (opened c.cur) (take (taken p c) p)))

write_round-size : (p : Bytes) (c : ChunkWriter) → (write_round p c).chunk_size ≡ c.chunk_size
unfolding write_round close_current
write_round-size p c =
    if_split (λ (d : ChunkWriter). d.chunk_size ≡ c.chunk_size)
      (leb c.chunk_size (length (opened c.cur) + taken p c)) (λ _. refl) (λ _. refl)

write_round-total :
    (p : Bytes) (c : ChunkWriter) → (write_round p c).total_written ≡ c.total_written + taken p c
unfolding write_round close_current
write_round-total p c =
    if_split (λ (d : ChunkWriter). d.total_written ≡ c.total_written + taken p c)
      (leb c.chunk_size (length (opened c.cur) + taken p c)) (λ _. refl) (λ _. refl)

not_leb : (a b : ℕ) → leb a b ≡ false → b < a
not_leb a b h = ground arith

write_round-IsCut : (p : Bytes) (c : ChunkWriter) → IsCut c → IsCut (write_round p c)
unfolding write_round close_current
write_round-IsCut p c v =
    let (short, fits) = taken-le p c in
    let got : length (take (taken p c) p) ≡ taken p c = length-take (taken p c) p short in
    let whole : length (opened c.cur ++ take (taken p c) p) ≡ length (opened c.cur) + taken p c =
      omega (arith, length-append (opened c.cur) (take (taken p c) p), got) in
    let count : c.total_written + taken p c ≡ length (content (write_round p c)) = omega (
      arith,
      v.counted,
      ap (λ (bs : Bytes). length bs) (write_round-content p c),
      length-append (content c) (take (taken p c) p),
      got,
    ) in
    let test = leb c.chunk_size (length (opened c.cur) + taken p c) in
    record {
      full =
          if_split (λ (d : ChunkWriter). AllOfSize d.chunk_size d.chunks) test
            (λ t.
              AllOfSize-append c.chunk_size c.chunks _ v.full
                (omega (arith, whole, fits, v.room, leb→le _ _ t)))
            (λ _. v.full);
      room =
          if_split (λ (d : ChunkWriter). length (opened d.cur) < d.chunk_size) test
            (λ _. omega (arith, v.room)) (λ f. omega (arith, whole, below_size f));
      counted = write_round-total p c ∙ count;
    }
  where
    below_size :
        leb c.chunk_size (length (opened c.cur) + taken p c) ≡ false
        → length (opened c.cur) + taken p c < c.chunk_size
    below_size f = not_leb c.chunk_size (length (opened c.cur) + taken p c) f

taken_pos : (b : ℕ) (p : Bytes) (c : ChunkWriter) → IsCut c → 0 < taken (b ∷ p) c
taken_pos b p c v =
    if_split (λ (n : ℕ). 0 < n) (ltb (c.chunk_size - length (opened c.cur)) (suc (length p)))
      (λ _. omega (arith, v.room)) (λ _. omega arith)

write_from-IsCut :
    (f : ℕ) (p : Bytes) (c : ChunkWriter)
    → IsCut c
    → length p ≤ f
    → (c' : ChunkWriter) × (write_from f p c ≡ some c')
      × IsCut c'
      × (content c' ≡ content c ++ p)
      × (c'.chunk_size ≡ c.chunk_size)
unfolding write_from
write_from-IsCut zero [] c v h = (c, refl, v, sym (append-nil (content c)), refl)
write_from-IsCut (suc f) [] c v h = (c, refl, v, sym (append-nil (content c)), refl)
write_from-IsCut zero (b ∷ p) c v h = absurd (omega arith)
write_from-IsCut (suc f) (b ∷ p) c v h =
    let n = taken (b ∷ p) c in
    let shorter : length (drop n (b ∷ p)) ≤ f =
      omega (arith, length-drop n (b ∷ p), taken_pos b p c v) in
    let (c', e, v', whole, size) =
      write_from-IsCut f (drop n (b ∷ p)) (write_round (b ∷ p) c) (write_round-IsCut (b ∷ p) c v)
        shorter in
    (
      c',
      e,
      v',
      whole
          ∙ ap (λ (bs : Bytes). bs ++ drop n (b ∷ p)) (write_round-content (b ∷ p) c)
          ∙ append_assoc (content c) (take n (b ∷ p)) (drop n (b ∷ p))
          ∙ ap (λ (bs : Bytes). content c ++ bs) (take-drop n (b ∷ p)),
      size ∙ write_round-size (b ∷ p) c,
    )

-- A write of any bytes to a writer whose closed chunks are full and whose open one is not, and whose count
-- is that of its bytes, ends; it keeps all of this and the chunk size, and appends exactly the bytes to
-- what the chunks hold together.
pub write-IsCut :
    (p : Bytes) (c : ChunkWriter)
    → IsCut c
    → (c' : ChunkWriter) × (write p c ≡ some c')
      × IsCut c'
      × (content c' ≡ content c ++ p)
      × (c'.chunk_size ≡ c.chunk_size)
unfolding write
write-IsCut p c v = write_from-IsCut (length p) p c v (omega arith)
