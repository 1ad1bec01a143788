-- ===== src/Varint/RoundTrip.antt =====
-- What the varint writer and reader promise one another.
use malcom.Prelude.{
  ℕ, zero, suc, ◌+◌, ◌*◌, ◌/◌, ◌^◌, ◌≤◌, ◌<◌, ◌≡◌, refl, inl, inr, [], ◌++◌, some, Bytes, arith,
  ltb, length, Bool-cases,
}
use malcom.Varint.{
  uvarint_from, uvarint, put_uvarint_fuel, put_uvarint, zigzag, unzigzag, uvarint_len_fuel,
  uvarint_len,
}

-- The values that fit when `f` bytes are left: the tenth byte holds one bit.
abbrev room : ℕ → ℕ
room zero = 0
room (suc zero) = 2
room (suc (suc f)) = 128 * room (suc f)

uvarint-put_fuel :
    (f i x : ℕ) (rest : Bytes)
    → i + f ≡ 10
    → x < room f
    → uvarint_from i (put_uvarint_fuel f x ++ rest) ≡ some (x, length (put_uvarint_fuel f x))
unfolding uvarint_from put_uvarint_fuel
uvarint-put_fuel zero i x rest e h = absurd (omega arith)
uvarint-put_fuel (suc zero) i x rest e h = ground arith
uvarint-put_fuel (suc (suc f)) i x rest e h = elim (Bool-cases (ltb x 128)) [
  | inl small ↦ ground arith
  | inr large ↦
      ground (arith, uvarint-put_fuel (suc f) (i + 1) (x / 128) rest (omega arith) (ground arith))
]

-- Reading back a written uint64 gives the value and the number of bytes written, whatever follows.
pub uvarint-put :
    (x : ℕ) (rest : Bytes)
    → x < 2 ^ 64
    → uvarint (put_uvarint [] x ++ rest) ≡ some (x, length (put_uvarint [] x))
unfolding uvarint put_uvarint
uvarint-put x rest h = uvarint-put_fuel 10 0 x rest refl (omega arith)

length-put_fuel :
    (f x : ℕ) → x < room (suc f) → length (put_uvarint_fuel (suc f) x) ≡ uvarint_len_fuel f x
unfolding put_uvarint_fuel uvarint_len_fuel
length-put_fuel zero x h = ground arith
length-put_fuel (suc f) x h = ground (arith, length-put_fuel f (x / 128))

-- For a uint64, `uvarintLen` is the number of bytes that the writer emits.
length-put_uvarint : (x : ℕ) → x < 2 ^ 64 → length (put_uvarint [] x) ≡ uvarint_len x
unfolding put_uvarint uvarint_len
length-put_uvarint x h = length-put_fuel 9 x (omega arith)

length-put_fuel_bounds :
    (f x : ℕ)
    → (0 < length (put_uvarint_fuel (suc f) x)) × (length (put_uvarint_fuel (suc f) x) ≤ suc f)
unfolding put_uvarint_fuel
length-put_fuel_bounds zero x = ground arith
length-put_fuel_bounds (suc f) x = ground (arith, length-put_fuel_bounds f (x / 128))

pub length-put_bounds : (x : ℕ) → (0 < length (put_uvarint [] x)) × (length (put_uvarint [] x) ≤ 10)
unfolding put_uvarint
length-put_bounds x = length-put_fuel_bounds 9 x

-- The signed encoding of 64 bits is undone by its inverse and stays within 64 bits.
unzigzag-zigzag : (x : ℕ) → x < 2 ^ 64 → (unzigzag (zigzag x) ≡ x) × (zigzag x < 2 ^ 64)
unfolding zigzag unzigzag
unzigzag-zigzag x h = ground arith
