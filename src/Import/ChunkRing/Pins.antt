-- ===== src/Import/ChunkRing/Pins.antt =====
-- The head never passes what a reader may still ask for.
use malcom.Prelude.{
  ℕ, ◌+◌, ◌/◌, ◌≤◌, ◌≡◌, refl, sym, ◌∙◌, true, false, List, [], ◌∷◌, Option, none, some, arith, ltb,
  ◌==◌, if_cases, if_split,
}
use mathlib.Core.Bool.{false≢true}
use malcom.Prelude.Map
use malcom.Prelude.Map.{Map, nat_key}
use malcom.Import.ChunkRing.{
  Chunk, Reader, Ring, chunk_end, lower, effective_pin, min_pin, evict_chunks, evict_below,
  evict_locked, free_buf,
}

-- What a reader may still ask for begins no earlier than the head: from its pin on, where it moves the pin
-- by hand, and else from its place on. A closed reader asks for nothing.
pub data IsAhead (head : ℕ) (rd : Reader) : Type 0 where
  shut : rd.is_open ≡ false → IsAhead head rd
  by_pin : rd.manual ≡ true → head ≤ rd.pin → IsAhead head rd
  by_place : rd.manual ≡ false → head ≤ rd.pos → IsAhead head rd

abbrev pub AllAhead : ℕ → Map ℕ Reader → Type 0
AllAhead head [] = Unit
AllAhead head ((i, rd) ∷ rds) = IsAhead head rd × AllAhead head rds

pub AllAhead-put :
    (head id : ℕ) (rd : Reader) (rds : Map ℕ Reader)
    → IsAhead head rd
    → AllAhead head rds
    → AllAhead head (Map.put id rd rds)
unfolding Map.put
AllAhead-put head id rd [] a all = (a, tt)
AllAhead-put head id rd ((j, x) ∷ rds) a (b, all) =
    if_cases (AllAhead head) (j == id) (a, all) (b, AllAhead-put head id rd rds a all)

IsAhead-le : (head low : ℕ) (rd : Reader) → low ≤ head → IsAhead head rd → IsAhead low rd
IsAhead-le head low rd le (shut c) = shut c
IsAhead-le head low rd le (by_pin m h) = by_pin m (omega (arith, le, h))
IsAhead-le head low rd le (by_place m h) = by_place m (omega (arith, le, h))

AllAhead-le :
    (head low : ℕ) (rds : Map ℕ Reader) → low ≤ head → AllAhead head rds → AllAhead low rds
AllAhead-le head low [] le a = tt
AllAhead-le head low ((i, rd) ∷ rds) le (x, a) =
    (IsAhead-le head low rd le x, AllAhead-le head low rds le a)

-- The reader after it has read on.
pub read_on-IsAhead :
    (head n : ℕ) (rd : Reader) → IsAhead head rd → IsAhead head record rd { pos = rd.pos + n }
read_on-IsAhead head n rd (shut c) = shut c
read_on-IsAhead head n rd (by_pin m h) = by_pin m h
read_on-IsAhead head n rd (by_place m h) = by_place m (omega (arith, h))

effective_pin-IsAhead : (rd : Reader) → IsAhead (effective_pin rd) rd
effective_pin-IsAhead rd =
    if_split (λ (n : ℕ). IsAhead n rd) rd.manual (λ t. by_pin t (omega arith))
      (λ f. by_place f (omega arith))

-- The least pin is one that every reader allows.
abbrev IsLeastPin : Map ℕ Reader → Option ℕ → Type 0
IsLeastPin rds none = (head : ℕ) → AllAhead head rds
IsLeastPin rds (some pin) = AllAhead pin rds

lower-le : (a b : ℕ) → (lower a b ≤ a) × (lower a b ≤ b)
lower-le a b = ground arith

min_pin-IsLeastPin : (rds : Map ℕ Reader) → IsLeastPin rds (min_pin rds)
unfolding min_pin
min_pin-IsLeastPin [] = λ head. tt
min_pin-IsLeastPin ((i, rd) ∷ rds) =
    if_split (IsLeastPin ((i, rd) ∷ rds)) rd.is_open
      (λ t. opened (min_pin rds) (min_pin-IsLeastPin rds))
      (λ f. closed f (min_pin rds) (min_pin-IsLeastPin rds))
  where
    opened :
        (o : Option ℕ)
        → IsLeastPin rds o
        → IsLeastPin ((i, rd) ∷ rds) (elim o as (λ _. Option ℕ) [
          | none ↦ some (effective_pin rd)
          | some m ↦ some (lower m (effective_pin rd))
        ])
    opened none a = (effective_pin-IsAhead rd, a (effective_pin rd))
    opened (some m) a =
        let (left, right) = lower-le m (effective_pin rd) in
        (
          IsAhead-le (effective_pin rd) (lower m (effective_pin rd)) rd right
              (effective_pin-IsAhead rd),
          AllAhead-le m (lower m (effective_pin rd)) rds left a,
        )

    closed : rd.is_open ≡ false → (o : Option ℕ) → IsLeastPin rds o → IsLeastPin ((i, rd) ∷ rds) o
    closed f none a = λ head. (shut f, a head)
    closed f (some m) a = (shut f, a)

-- An eviction goes no further than the pin that it is given.
evict_chunks-le :
    (m pin q head : ℕ) (cs : List Chunk) (pooled : ℕ)
    → head ≤ q
    → pin ≤ q
    → (evict_chunks m pin head cs pooled).0 ≤ q
unfolding evict_chunks
evict_chunks-le m pin q head [] pooled h p = h
evict_chunks-le m pin q head (c ∷ cs) pooled h p =
    if_split (λ (x : ℕ × List Chunk × ℕ). x.0 ≤ q) (ltb pin (chunk_end c)) (λ t. h)
      (λ f. evict_chunks-le m pin q (chunk_end c) cs (free_buf m pooled) (below f) p)
  where
    below : ltb pin (chunk_end c) ≡ false → chunk_end c ≤ q
    below f = ground arith

module _ (head pin later : ℕ) (bound : (q : ℕ) → head ≤ q → pin ≤ q → later ≤ q) where
  IsAhead-both : (rd : Reader) → IsAhead head rd → IsAhead pin rd → IsAhead later rd
  IsAhead-both rd (shut c) b = shut c
  IsAhead-both rd a (shut c) = shut c
  IsAhead-both rd (by_pin m h) (by_pin n p) = by_pin m (bound rd.pin h p)
  IsAhead-both rd (by_place m h) (by_place n p) = by_place m (bound rd.pos h p)
  IsAhead-both rd (by_pin m h) (by_place n p) = absurd (false≢true (sym n ∙ m))
  IsAhead-both rd (by_place m h) (by_pin n p) = absurd (false≢true (sym m ∙ n))

  AllAhead-both : (rds : Map ℕ Reader) → AllAhead head rds → AllAhead pin rds → AllAhead later rds
  AllAhead-both [] a b = tt
  AllAhead-both ((i, rd) ∷ rds) (x, a) (y, b) = (IsAhead-both rd x y, AllAhead-both rds a b)

pub evict_locked-AllAhead :
    (r : Ring) → AllAhead r.head r.readers → AllAhead (evict_locked r).head (evict_locked r).readers
unfolding evict_locked
evict_locked-AllAhead r a = go (min_pin r.readers) (min_pin-IsLeastPin r.readers)
  where
    go :
        (o : Option ℕ)
        → IsLeastPin r.readers o
        → AllAhead (evict_below r o).head (evict_below r o).readers
    go none l = a
    go (some pin) l =
        AllAhead-both r.head pin
          (evict_chunks (r.max_bytes / r.chunk_size) pin r.head r.chunks r.free_bufs).0
          (λ q h p.
            evict_chunks-le (r.max_bytes / r.chunk_size) pin q r.head r.chunks r.free_bufs h p)
          r.readers a l

pub evict_locked-readers : (r : Ring) → (evict_locked r).readers ≡ r.readers
unfolding evict_locked
evict_locked-readers r = go (min_pin r.readers)
  where
    go : (o : Option ℕ) → (evict_below r o).readers ≡ r.readers
    go none = refl
    go (some pin) = refl
