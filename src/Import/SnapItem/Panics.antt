-- ===== src/Import/SnapItem/Panics.antt =====
-- An inner length that passes the envelope.
use malcom.Prelude.{
  ℕ, ◌+◌, refl, [], ◌++◌, length-append, false, ltb, ◌==◌, ◌≤◌, take-append, drop-append, ◌%◌, ◌^◌,
  ◌<◌, ◌≡◌, ◌∷◌, Bytes, arith, length, panic,
}
use native.Mathlib.Nat.{mod-eq_of_lt}
use malcom.Varint.{put_uvarint}
use malcom.Varint.RoundTrip.{uvarint-put, length-put_bounds}
use malcom.Import.SnapItem.{slice, decode_envelope, commit, next, next_from, max_envelope_bytes}

slice-panic :
    (buf : Bytes) (lo ln : ℕ) → length buf < lo + ln → lo + ln < 2 ^ 63 → slice buf lo ln ≡ panic
unfolding slice
slice-panic buf lo ln h small = ground (arith, mod-eq_of_lt (within h))
  where
    within : length buf < lo + ln → lo + ln < 2 ^ 64
    within h = omega (arith, small)

decode_envelope-short :
    (tag len : ℕ) (body : Bytes)
    → tag % 8 ≡ 2
    → length body < len
    → len < 2 ^ 62
    → decode_envelope (tag ∷ (put_uvarint [] len ++ body)) ≡ panic
unfolding decode_envelope
decode_envelope-short tag len body wire short small =
    let n = length (put_uvarint [] len) in
    rw (wire, uvarint-put len body (omega arith))
      (rw
        (slice-panic (tag ∷ (put_uvarint [] len ++ body)) (1 + n) len
          (omega (arith, length-append (put_uvarint [] len) body))
          (omega (arith, length-put_bounds len)))
        refl)

-- `Next` comes to an item whose decoding panics.
next-decode :
    (item rest : Bytes) (last moved : ℕ)
    → 0 < length item
    → length item ≤ max_envelope_bytes
    → decode_envelope item ≡ panic
    → next record {
      rest = put_uvarint [] (length item) ++ (item ++ rest);
      last_item_bytes = last;
      pinned = moved;
    }
      ≡ panic
unfolding next next_from commit
next-decode item rest last moved some_item small e =
    let size = put_uvarint [] (length item) in
    let more : (length (size ++ (item ++ rest)) == 0) ≡ false =
      ground (arith, length-append size (item ++ rest), (length-put_bounds (length item)).0) in
    let kept : (length item == 0) ≡ false = ground arith in
    let allowed : ltb max_envelope_bytes (length item) ≡ false = ground arith in
    let whole : ltb (length (item ++ rest)) (length item) ≡ false =
      ground (arith, length-append item rest) in
    rw (more, uvarint-put (length item) (item ++ rest) (omega (arith, small)))
      (rw (kept, drop-append size (item ++ rest), allowed, whole)
        (rw (take-append item rest, e) refl))

-- A stream that goes on with an item of at most 64 MB, a tag of wire type 2 and an inner length, of fewer
-- than 62 bits, that says more than the bytes that the item has left: `Next` panics, whatever field the
-- tag names and whatever stands before and behind.
pub next-panic :
    (tag len : ℕ) (body rest : Bytes) (last moved : ℕ)
    → tag % 8 ≡ 2
    → length body < len
    → len < 2 ^ 62
    → length (tag ∷ (put_uvarint [] len ++ body)) ≤ max_envelope_bytes
    → let item = tag ∷ (put_uvarint [] len ++ body) in
      next record {
        rest = put_uvarint [] (length item) ++ (item ++ rest);
        last_item_bytes = last;
        pinned = moved;
      }
      ≡ panic
next-panic tag len body rest last moved wire short small fits =
    next-decode (tag ∷ (put_uvarint [] len ++ body)) rest last moved (omega arith) fits
      (decode_envelope-short tag len body wire short small)
