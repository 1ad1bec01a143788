-- ===== src/Fetch/Metadata.antt =====
-- internal/snapfetch/helpers.go: the chunk hashes in a snapshot's metadata, and the check of
-- chunk 0 against them.
pub mod Sound
pub mod Overflow
use malcom.Prelude.{
  ℕ, zero, suc, ◌+◌, ◌-◌, ◌%◌, ◌^◌, Bool, true, false, ◌&&◌, not, List, [], ◌∷◌, ◌++◌, none, some,
  Bytes, ltb, ◌==◌, if◌then◌else◌, length, take, drop, Outcome, ret, fail, panic, stuck,
}
use malcom.Prelude.Map.{bytes_equal}
use malcom.Varint.{uvarint, put_bytes}

pub data MetadataError : Type 0 where
  unexpected_tag bad_varint past_end count_differs no_chunks hash_mismatch : MetadataError

-- The largest size that `make([]byte, n)` accepts on a 64-bit platform.
abbrev pub max_alloc : ℕ
max_alloc = 2 ^ 48

-- `i+int(length) > len(metadata)`: the conversion keeps the 64 bits and the sum wraps, so a sum
-- from 2^63 on is a negative number.
abbrev pub extends_past : ℕ → ℕ → ℕ → Bool
extends_past i len total = let w = (i + len) % 2 ^ 64 in ltb w (2 ^ 63) && ltb total w

-- The two checks on a record's length, before `next`, the rounds behind it.
unfoldable pub check_length :
    ℕ → ℕ → ℕ → Outcome MetadataError (List Bytes) → Outcome MetadataError (List Bytes)
check_length j len total next =
    if extends_past j len total then fail past_end else if ltb max_alloc len then panic else next

-- The loop of `parseChunkHashes`: `rest` is `metadata[i:]`. A length that would move the offset back, one
-- from 2^63 on as a uint64, makes `make` panic before the offset moves, so the bytes from the next offset
-- are always a rest of these.
unfoldable pub parse_from : ℕ → ℕ → ℕ → Bytes → List Bytes → Outcome MetadataError (List Bytes)
parse_from zero total i rest out = stuck
parse_from (suc f) total i [] out = ret out
parse_from (suc f) total i (tag ∷ buf) out =
    if not (tag == 0x0A) then fail unexpected_tag else elim (uvarint buf) [
      | none ↦ fail bad_varint
      | some (len, n) ↦
          let j = i + 1 + n in
          let body = drop n buf in
          let next = parse_from f total (j + len) (drop len body) (out ++ take len body ∷ []) in
          check_length j len total next
    ]

-- Every round reads a tag, so one round for each byte and a last test are enough.
unfoldable pub parse_chunk_hashes : Bytes → Outcome MetadataError (List Bytes)
unfolding parse_from check_length
parse_chunk_hashes metadata = parse_from (suc (length metadata)) (length metadata) 0 metadata []

-- The fields of `snapshotOffer` that the checks read.
pub record Offer : Type 0 where
  pub height : ℕ
  pub format : ℕ
  pub chunks : ℕ
  pub hash : Bytes
  pub metadata : Bytes

-- SHA-256 is a parameter.
module _ (sha256 : Bytes → Bytes) where
  unfoldable pub compare_zero : ℕ → Bytes → List Bytes → Outcome MetadataError (Unit {0})
  unfolding bytes_equal
  compare_zero chunks input hashes =
      if not (length hashes % 2 ^ 32 == chunks) then fail count_differs else elim hashes [
        | [] ↦ fail no_chunks
        | h ∷ hs ↦ if not (bytes_equal (sha256 input) h) then fail hash_mismatch else ret tt
      ]

  abbrev pub then_compare :
      ℕ → Bytes → Outcome MetadataError (List Bytes) → Outcome MetadataError (Unit {0})
  then_compare chunks input (ret hashes) = compare_zero chunks input hashes
  then_compare chunks input (fail e) = fail e
  then_compare chunks input panic = panic
  then_compare chunks input stuck = stuck

  -- `verifyChunkZero`.
  unfoldable pub verify_chunk_zero : Offer → Bytes → Outcome MetadataError (Unit {0})
  unfolding parse_chunk_hashes compare_zero
  verify_chunk_zero offer input =
      then_compare offer.chunks input (parse_chunk_hashes offer.metadata)

-- The metadata that an honest peer sends: one record for each hash.
unfoldable pub encode_hashes : List Bytes → Bytes
encode_hashes [] = []
encode_hashes (h ∷ hs) = 0x0A ∷ (put_bytes [] h ++ encode_hashes hs)
