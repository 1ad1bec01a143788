-- ===== src/Fetch/Metadata/Overflow.antt =====
-- The overflow in `parseChunkHashes`: a length from 2^63 on is negative as an `int`, so it passes the
-- bounds check, and `make` panics.
use malcom.Prelude.{
  ℕ, suc, zero, ◌+◌, ◌^◌, ◌≤◌, ◌<◌, ◌≡◌, ◌∙◌, List, [], ◌∷◌, ◌++◌, Bytes, arith, length, panic,
  Outcome, length-append,
}
use malcom.Varint.{put_uvarint}
use malcom.Varint.RoundTrip.{uvarint-put}
use malcom.Fetch.Metadata.{
  parse_from, parse_chunk_hashes, check_length, encode_hashes, max_alloc, MetadataError,
}
use malcom.Fetch.Metadata.Sound.{parse_from-encode}

check_length-panic :
    (j len total : ℕ) (next : Outcome MetadataError (List Bytes))
    → j ≤ total
    → total ≤ max_alloc
    → 2 ^ 63 ≤ len
    → len < 2 ^ 64
    → check_length j len total next ≡ panic
unfolding check_length
check_length-panic j len total next le fits low high = ground arith

parse_from-panic :
    (f total i len : ℕ) (rest : Bytes) (out : List Bytes)
    → i + suc (length (put_uvarint [] len ++ rest)) ≡ total
    → total ≤ max_alloc
    → 2 ^ 63 ≤ len
    → len < 2 ^ 64
    → 0 < f
    → parse_from f total i (0x0A ∷ (put_uvarint [] len ++ rest)) out ≡ panic
unfolding parse_from
parse_from-panic zero total i len rest out e fits low high pos = absurd (omega arith)
parse_from-panic (suc f) total i len rest out e fits low high pos =
    rw (uvarint-put len rest high, parse_from)
      (check_length-panic _ len total _ (omega (arith, length-append (put_uvarint [] len) rest))
        fits low high)

-- Metadata of any number of good records and then a record whose length is 2^63 or more makes
-- `parseChunkHashes` panic, whatever follows, as long as the whole has at most 2^48 bytes.
pub parse_chunk_hashes-panic :
    (hashes : List Bytes) (len : ℕ) (rest : Bytes)
    → 2 ^ 63 ≤ len
    → len < 2 ^ 64
    → length (encode_hashes hashes ++ 0x0A ∷ (put_uvarint [] len ++ rest)) ≤ max_alloc
    → parse_chunk_hashes (encode_hashes hashes ++ 0x0A ∷ (put_uvarint [] len ++ rest)) ≡ panic
unfolding parse_chunk_hashes
parse_chunk_hashes-panic hashes len rest low high fits =
    let bad = 0x0A ∷ (put_uvarint [] len ++ rest) in
    let n = length (encode_hashes hashes ++ bad) in
    let l = length-append (encode_hashes hashes) bad in
    let (g, enough, eq) =
      parse_from-encode (suc n) n 0 hashes bad [] (omega arith) (omega arith) fits in
    eq
    ∙ parse_from-panic g n (0 + length (encode_hashes hashes)) len rest hashes (omega arith) fits
        low high (omega arith)
