-- ===== src/Import/ChunkRing/Writes.antt =====
-- What `Write` does to the stream.
use malcom.Prelude.{
  ℕ, zero, suc, ◌+◌, ◌-◌, ◌≤◌, ◌<◌, ◌≡◌, ◌⊎◌, inl, inr, Bool, leb→le, refl, sym, ap, subst, ◌∙◌,
  true, false, List, [], ◌∷◌, ◌++◌, append_assoc, append-nil, Bytes, arith, ltb, leb, ◌==◌,
  if_cases, if_split, ltb→lt, length, take, drop, length-append, length-drop,
}
use malcom.Prelude.Map.{nat_key}
use mathlib.Core.Bool.{false≢true}
use native.Mathlib.Numerals.{unary_clauses}
use malcom.Import.ChunkRing.{
  Chunk, Ring, chunk_end, last_room, grow_last, WriteStatus, finished, waiting, closed_ring,
  Written, written, take_size, append_bytes, round_size, write_from, write,
}
use malcom.Import.ChunkRing.Stream.{Laid, IsView}

Laid-grow :
    (from : ℕ) (cs : List Chunk) (size : ℕ) (s b : Bytes)
    → 0 < last_room size cs
    → Laid from cs s
    → Laid from (grow_last b cs) (s ++ b)
unfolding last_room grow_last
Laid-grow from [] size s b h l = absurd (omega (arith, h))
Laid-grow from (c ∷ []) size s b h (e, (rest, e', l)) = (
  e,
  (
    [],
    ap (λ x. x ++ b) (e' ∙ ap (λ x. c.bytes ++ x) l ∙ append-nil c.bytes)
        ∙ sym (append-nil (c.bytes ++ b)),
    refl,
  ),
)
Laid-grow from (c ∷ d ∷ cs) size s b h (e, (rest, e', l)) = (
  e,
  (
    rest ++ b,
    ap (λ x. x ++ b) e' ∙ append_assoc c.bytes rest b,
    Laid-grow (chunk_end c) (d ∷ cs) size rest b h l,
  ),
)

Laid-add :
    (from : ℕ) (cs : List Chunk) (s b : Bytes)
    → Laid from cs s
    → Laid from (cs ++ record { first = from + length s; bytes = b } ∷ []) (s ++ b)
Laid-add from [] s b l =
    (omega (arith, ap length l), ([], ap (λ x. x ++ b) l ∙ sym (append-nil b), refl))
Laid-add from (c ∷ cs) s b (e, (rest, e', l)) = (
  e,
  (
    rest ++ b,
    ap (λ x. x ++ b) e' ∙ append_assoc c.bytes rest b,
    subst (λ n. Laid (chunk_end c) (cs ++ record { first = n; bytes = b } ∷ []) (rest ++ b)) same
        (Laid-add (chunk_end c) cs rest b l),
  ),
)
  where
    same : chunk_end c + length rest ≡ from + length s
    same = omega (arith, ap length e', length-append c.bytes rest, e)

append_bytes-IsView : (r : Ring) (s b : Bytes) → IsView r s → IsView (append_bytes r b) (s ++ b)
unfolding append_bytes
append_bytes-IsView r s b (gone, kept, e, e', l, n) =
    if_split (λ x. IsView x (s ++ b)) (ltb 0 (last_room r.chunk_size r.chunks))
      (λ t. (
        gone,
        kept ++ b,
        split,
        e',
        Laid-grow r.head r.chunks r.chunk_size kept b (ltb→lt 0 (last_room r.chunk_size r.chunks) t)
            l,
        total,
      ))
      (λ f. (
        gone,
        kept ++ b,
        split,
        e',
        subst (λ m. Laid r.head (r.chunks ++ record { first = m; bytes = b } ∷ []) (kept ++ b)) ends
            (Laid-add r.head r.chunks kept b l),
        total,
      ))
  where
    split : s ++ b ≡ gone ++ (kept ++ b)
    split = ap (λ x. x ++ b) e ∙ append_assoc gone kept b

    total : length (s ++ b) ≡ r.tail + length b
    total = omega (arith, length-append s b, n)

    ends : r.head + length kept ≡ r.tail
    ends = omega (arith, ap length e, length-append gone kept, e', n)

round_size-le : (r : Ring) (p : Bytes) → round_size r p ≤ length p
unfolding round_size take_size
round_size-le r p = ground arith

-- A round that is reached takes something, since the cap and the chunk have room.
round_size-gt :
    (r : Ring) (b : ℕ) (p : Bytes)
    → 0 < r.chunk_size
    → leb r.max_bytes (r.tail - r.head) ≡ false
    → 0 < round_size r (b ∷ p)
unfolding round_size take_size
round_size-gt r b p h f = ground arith

append_bytes-chunk_size : (r : Ring) (b : Bytes) → (append_bytes r b).chunk_size ≡ r.chunk_size
unfolding append_bytes
append_bytes-chunk_size r b =
    if_cases (λ (x : Ring). x.chunk_size ≡ r.chunk_size) (ltb 0 (last_room r.chunk_size r.chunks))
      refl refl

append_bytes-closed : (r : Ring) (b : Bytes) → (append_bytes r b).closed ≡ r.closed
unfolding append_bytes
append_bytes-closed r b =
    if_cases (λ (x : Ring). x.closed ≡ r.closed) (ltb 0 (last_room r.chunk_size r.chunks)) refl refl

-- Why a call ends, with `left` bytes of the buffer not written: it is done, and has found the ring open if
-- there was anything to write; or the ring is closed, and nothing was written; or the ring is full.
pub data IsEnded (closed : Bool) (took left : ℕ) (w : Written) : Type 0 where
  done : w.status ≡ finished → left ≡ 0 → (took ≡ 0) ⊎ (closed ≡ false) → IsEnded closed took left w
  refused :
      w.status ≡ closed_ring → closed ≡ true → took ≡ 0 → 0 < left → IsEnded closed took left w
  blocked :
      w.status ≡ waiting
      → closed ≡ false
      → 0 < left
      → w.ring.max_bytes ≤ w.ring.tail - w.ring.head
      → IsEnded closed took left w

-- What a call of `Write` leaves: `n` bytes of `p` were written before, `w.count` at the end.
abbrev IsWritten : Bool → Bytes → Bytes → ℕ → Written → Type 0
IsWritten closed s p n w =
    (took : ℕ) × (w.count ≡ n + took)
    × (took ≤ length p)
    × IsView w.ring (s ++ take took p)
    × (w.ring.closed ≡ closed)
    × IsEnded closed took (length p - took) w

-- No round has been done.
written-IsWritten :
    (r : Ring) (s p : Bytes) (n : ℕ) (x : WriteStatus)
    → IsEnded r.closed 0 (length p) (written r n x)
    → IsView r s
    → IsWritten r.closed s p n (written r n x)
written-IsWritten r s p n x h v = (
  0,
  omega arith,
  omega arith,
  subst (IsView r) (sym (append-nil s)) v,
  refl,
  simp unary_clauses h,
)

-- The end of a call after a first round of `k` bytes on an open ring.
IsEnded-after :
    (k took left : ℕ) (w : Written) → IsEnded false took left w → IsEnded false (k + took) left w
IsEnded-after k took left w (done s e h) = done s e (inr refl)
IsEnded-after k took left w (refused s c h l) = absurd (false≢true c)
IsEnded-after k took left w (blocked s c h f) = blocked s c h f

IsWritten-append :
    (s p : Bytes) (k n : ℕ) (w : Written)
    → k ≤ length p
    → IsWritten false (s ++ take k p) (drop k p) (n + k) w
    → IsWritten false s p n w
IsWritten-append s p k n w h (took, e, le, v, o, x) = (
  k + took,
  omega (arith, e),
  omega (arith, le, h, length-drop k p),
  subst (IsView w.ring)
      (append_assoc s (take k p) (take took (drop k p)) ∙ ap (λ y. s ++ y) (take-more k took p)) v,
  o,
  subst (λ (m : ℕ). IsEnded false (k + took) m w) (omega (arith, length-drop k p, h))
      (IsEnded-after k took (length (drop k p) - took) w x),
)
  where
    suc-left : (a b : ℕ) → suc (a + b) ≡ suc a + b
    suc-left a b = omega arith

    take-more : (k t : ℕ) (p : Bytes) → take k p ++ take t (drop k p) ≡ take (k + t) p
    take-more zero t p = ap (λ (n : ℕ). take n p) (omega arith)
    take-more (suc k) zero [] = simp unary_clauses refl
    take-more (suc k) (suc t) [] = simp unary_clauses refl
    take-more (suc k) t (x ∷ p) =
        ap (◌∷◌ x) (take-more k t p) ∙ ap (λ (n : ℕ). take n (x ∷ p)) (suc-left k t)

write_from-IsWritten :
    (f : ℕ) (r : Ring) (s p : Bytes) (n : ℕ)
    → length p ≤ f
    → 0 < r.chunk_size
    → IsView r s
    → IsWritten r.closed s p n (write_from f r p n)
unfolding write_from
write_from-IsWritten f r s [] n h c v =
    written-IsWritten r s [] n finished (done refl refl (inl refl)) v
write_from-IsWritten zero r s (b ∷ p) n h c v = absurd (omega (arith, h))
write_from-IsWritten (suc f) r s (b ∷ p) n h c v =
    if_split (IsWritten r.closed s (b ∷ p) n) r.closed
      (λ t. written-IsWritten r s (b ∷ p) n closed_ring (refused refl t refl (omega arith)) v)
      (λ o.
        if_split (IsWritten r.closed s (b ∷ p) n) (leb r.max_bytes (r.tail - r.head))
          (λ t.
            written-IsWritten r s (b ∷ p) n waiting
              (blocked refl o (omega arith) (leb→le r.max_bytes (r.tail - r.head) t)) v)
          (λ room.
            if_split (IsWritten r.closed s (b ∷ p) n) (round_size r (b ∷ p) == 0)
              (λ z. absurd (nonzero room z))
              (λ z.
                let k = round_size r (b ∷ p) in
                subst
                  (λ (c : Bool).
                    IsWritten c s (b ∷ p) n
                      (write_from f (append_bytes r (take k (b ∷ p))) (drop k (b ∷ p)) (n + k)))
                  (sym o)
                  (IsWritten-append s (b ∷ p) k n
                    (write_from f (append_bytes r (take k (b ∷ p))) (drop k (b ∷ p)) (n + k))
                    (round_size-le r (b ∷ p))
                    (subst
                      (λ (c : Bool).
                        IsWritten c (s ++ take k (b ∷ p)) (drop k (b ∷ p)) (n + k)
                          (write_from f (append_bytes r (take k (b ∷ p))) (drop k (b ∷ p)) (n + k)))
                      (append_bytes-closed r (take k (b ∷ p)) ∙ o)
                      (write_from-IsWritten f (append_bytes r (take k (b ∷ p)))
                        (s ++ take k (b ∷ p)) (drop k (b ∷ p)) (n + k) (less room)
                        (subst (λ m. 0 < m) (sym (append_bytes-chunk_size r (take k (b ∷ p)))) c)
                        (append_bytes-IsView r s (take k (b ∷ p)) v)))))))
  where
    nonzero : leb r.max_bytes (r.tail - r.head) ≡ false → (round_size r (b ∷ p) == 0) ≡ true → ⊥
    nonzero room z = ground (arith, round_size-gt r b p c room)

    less :
        leb r.max_bytes (r.tail - r.head) ≡ false → length (drop (round_size r (b ∷ p)) (b ∷ p)) ≤ f
    less room =
        omega (arith, round_size-gt r b p c room, length-drop (round_size r (b ∷ p)) (b ∷ p), h)

-- A call of `Write` on a ring of a positive chunk size that holds the stream `s` ends in one of three ways:
-- done, with the whole buffer written, and on an open ring unless the buffer was empty; refused by a
-- closed ring, with nothing written; or waiting on an open ring that holds its most, with a part
-- of the buffer left. In each case the ring then holds `s` and, behind it, the first `count` bytes of the
-- buffer, in order.
pub write-IsWritten :
    (r : Ring) (s p : Bytes)
    → 0 < r.chunk_size
    → IsView r s
    → IsEnded r.closed (write r p).count (length p - (write r p).count) (write r p)
      × ((write r p).count ≤ length p)
      × IsView (write r p).ring (s ++ take (write r p).count p)
unfolding write
write-IsWritten r s p c v =
    let (took, e, le, v', o, x) = write_from-IsWritten (length p) r s p 0 (omega arith) c v in
    let w = write_from (length p) r p 0 in
    let same : took ≡ w.count = omega (arith, e) in
    (
      subst (λ (k : ℕ). IsEnded r.closed k (length p - k) w) same x,
      omega (arith, e, le),
      subst (λ (k : ℕ). IsView w.ring (s ++ take k p)) same v',
    )
