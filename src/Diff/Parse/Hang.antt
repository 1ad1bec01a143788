-- ===== src/Diff/Parse/Hang.antt =====
-- A length field that moves an offset back.
use malcom.Prelude.{
  ℕ, zero, suc, ◌-◌, ◌%◌, ◌^◌, ◌≡◌, ◌≢◌, refl, [], ◌∷◌, ◌++◌, some, Bytes, arith, length, stuck,
}
use malcom.Varint.{put_uvarint}
use malcom.Varint.RoundTrip.{uvarint-put}
use malcom.Import.SnapItem.{find_field, skip_field}

-- The length that, as an int, is minus the eleven bytes of the tag and of itself.
abbrev pub back_to_start : ℕ
back_to_start = 2 ^ 64 - 11

ten_bytes : length (put_uvarint [] back_to_start) ≡ 10
unfolding put_uvarint
ten_bytes = refl

skip_back :
    (tag : ℕ) (rest : Bytes)
    → tag % 8 ≡ 2
    → skip_field (tag ∷ (put_uvarint [] back_to_start ++ rest)) tag 1 ≡ some 0
unfolding skip_field
skip_back tag rest wire =
    rw (wire, uvarint-put back_to_start rest (omega arith), ten_bytes) (ground arith)

-- A body that starts with a length-delimited field other than the wanted one, of that length, makes the
-- search for the wanted field run forever, whatever follows: after any number of rounds it stands at
-- the start again.
pub find_field-hangs :
    (tag want f : ℕ) (rest : Bytes)
    → tag % 8 ≡ 2
    → tag ≢ want
    → find_field f want (tag ∷ (put_uvarint [] back_to_start ++ rest)) 0 ≡ stuck
unfolding find_field
find_field-hangs tag want zero rest wire ne = refl
find_field-hangs tag want (suc f) rest wire ne =
    rw (skip_back tag rest wire) (ground (arith, find_field-hangs tag want f rest wire ne))
