-- ===== src/Varint.antt =====
-- The unsigned varints of encoding/binary, as internal/snapfetch/helpers.go,
-- internal/snapshotimport/snapproto.go and internal/snapshotimport/iavlenc.go use them.
pub mod RoundTrip
use malcom.Prelude.{
  ℕ, zero, suc, ◌+◌, ◌-◌, ◌*◌, ◌/◌, ◌%◌, ◌^◌, Bool, true, false, ◌&&◌, [], ◌∷◌, ◌++◌, Option, none,
  some, Bytes, ltb, ◌==◌, if◌then◌else◌, length,
}

-- What a decoder adds to the value and the length that the bytes behind the first one give.
abbrev prepend : ℕ → Option (ℕ × ℕ) → Option (ℕ × ℕ)
prepend b none = none
prepend b (some (v, n)) = some ((b - 128) + 128 * v, n + 1)

-- `binary.Uvarint` from its i-th byte on. The result is the value and the number of bytes read;
-- `none` stands for the results n ≤ 0 (the buffer ends early, or the value passes 64 bits), which
-- every caller rejects alike.
unfoldable pub uvarint_from : ℕ → Bytes → Option (ℕ × ℕ)
uvarint_from i [] = none
uvarint_from i (b ∷ bs) =
    if i == 10
    then none
    else if ltb b 128
    then (if i == 9 && ltb 1 b then none else some (b, 1))
    else prepend b (uvarint_from (i + 1) bs)

unfoldable pub uvarint : Bytes → Option (ℕ × ℕ)
unfolding uvarint_from
uvarint buf = uvarint_from 0 buf

-- `binary.PutUvarint`: the fuel is the number of bytes that may still be written, at most
-- `MaxVarintLen64 = 10`.
unfoldable pub put_uvarint_fuel : ℕ → ℕ → Bytes
put_uvarint_fuel zero x = []
put_uvarint_fuel (suc f) x =
    let rest = put_uvarint_fuel f (x / 128) in if ltb x 128 then x ∷ [] else (x % 128 + 128) ∷ rest

-- iavlenc.go's `putUvarint`: appends the encoding of x to dst.
unfoldable pub put_uvarint : Bytes → ℕ → Bytes
unfolding put_uvarint_fuel
put_uvarint dst x = dst ++ put_uvarint_fuel 10 x

-- `putVarint`: x is the bit pattern of an int64. `uint64(x) << 1`, complemented if x < 0.
unfoldable pub zigzag : ℕ → ℕ
zigzag x = let ux = (x * 2) % 2 ^ 64 in if ltb x (2 ^ 63) then ux else 2 ^ 64 - 1 - ux

unfoldable pub put_varint : Bytes → ℕ → Bytes
unfolding zigzag put_uvarint
put_varint dst x = put_uvarint dst (zigzag x)

-- `binary.Varint`'s way back.
unfoldable pub unzigzag : ℕ → ℕ
unzigzag ux = if ux % 2 == 0 then ux / 2 else 2 ^ 64 - 1 - ux / 2

-- `putBytes`: the length as a varint, then the bytes.
unfoldable pub put_bytes : Bytes → Bytes → Bytes
put_bytes dst b = put_uvarint dst (length b) ++ b

-- snapproto.go's `uvarintLen`; the loop shifts by 7 until one byte is left.
unfoldable pub uvarint_len_fuel : ℕ → ℕ → ℕ
uvarint_len_fuel zero v = 1
uvarint_len_fuel (suc f) v =
    let rest = uvarint_len_fuel f (v / 128) in if ltb v 128 then 1 else rest + 1

unfoldable pub uvarint_len : ℕ → ℕ
unfolding uvarint_len_fuel
uvarint_len v = uvarint_len_fuel 9 v
