-- ===== src/Diff/Stream.antt =====
-- internal/snapshotdiff/apply.go: the records of a diff's body, as `peekRecord` reads them from the
-- decompressed bytes, and what the readers of a section make of a record.
pub mod Bodies
pub mod RoundTrip
use malcom.Prelude.{
  ℕ, zero, suc, ◌+◌, ◌-◌, ◌/◌, ◌%◌, ◌^◌, Bool, true, false, ◌&&◌, ◌||◌, List, [], ◌∷◌, Option, none,
  some, Bytes, ltb, ◌==◌, if◌then◌else◌, length, take, drop, Outcome, ret, fail, panic, stuck,
  and_then, map_error,
}
use malcom.Varint.{uvarint}
use malcom.Fetch.Metadata.{max_alloc}
use malcom.Import.SnapItem.{ItemError, slice, or_empty}
use malcom.Diff.Compute.{
  insert, update, delete, DiffRecord, store_enter, change, store_leave, ext_enter, ext_leave,
  ext_add, ext_remove,
}
use malcom.Diff.Parse.{parse_proto_bytes, parse_proto_varint}

pub data StreamError : Type 0 where
  bad_length malformed : StreamError

-- `binary.ReadUvarint` meets the end of the stream in its i-th byte or later: each byte up to there
-- says that another follows.
unfoldable ends_short : ℕ → Bytes → Bool
ends_short i [] = ltb i 10
ends_short i (b ∷ bs) = if i == 10 || ltb b 128 then false else ends_short (i + 1) bs

-- A record's tag, its body and the stream behind it; `none` is the end of the file.
abbrev pub Peeked : Type 0
Peeked = Outcome StreamError (Option (ℕ × Bytes × Bytes))

-- The tag and the inner length. A record has at least one byte.
unfoldable pub open_record : Bytes → Bytes → Peeked
open_record [] rest = stuck
open_record (t ∷ rec) rest = elim (uvarint rec) [
  | none ↦ fail malformed
  | some (inner, n) ↦
      if ltb inner (2 ^ 63) && ltb (length rec - n) inner
      then fail malformed
      else and_then (map_error (λ (e : ItemError). malformed) (slice (t ∷ rec) (1 + n) inner))
          (λ body. ret (some (t / 8, or_empty body, rest)))
]

-- `peekRecord`, which calls itself behind a record of length 0; each such record is a byte of the
-- stream, so a round for each byte and one more are enough.
unfoldable pub peek_from : ℕ → Bytes → Peeked
unfolding ends_short open_record
peek_from zero bs = stuck
peek_from (suc f) bs = if length bs == 0 then ret none else elim (uvarint bs) [
  | none ↦ if ends_short 0 bs then ret none else fail bad_length
  | some (len, n) ↦
      let rest = drop n bs in
      if len == 0
      then peek_from f rest
      else if ltb max_alloc len
      then panic
      else if ltb (length rest) len
      then ret none
      else open_record (take len rest) (drop len rest)
]

unfoldable pub peek_record : Bytes → Peeked
unfolding peek_from
peek_record bs = peek_from (suc (length bs)) bs

-- What `peekSection`, `readStoreChanges` and `readExtChanges` read from a record that they do not
-- skip; `none` is a tag that none of them knows.
unfoldable pub decode_record : ℕ → Bytes → Outcome ItemError (Option DiffRecord)
unfolding parse_proto_bytes parse_proto_varint
decode_record tag body =
    if tag == 1
    then and_then (parse_proto_bytes body 1) (λ name. ret (some (store_enter name)))
    else if tag == 2
    then ret (some store_leave)
    else if tag == 3
    then (and_then (parse_proto_bytes body 1)
        (λ k. and_then (parse_proto_bytes body 2) (λ v. ret (some (change (insert k v))))))
    else if tag == 4
    then (and_then (parse_proto_bytes body 1)
        (λ k. and_then (parse_proto_bytes body 2) (λ v. ret (some (change (update k v))))))
    else if tag == 5
    then and_then (parse_proto_bytes body 1) (λ k. ret (some (change (delete k))))
    else if tag == 6
    then (and_then (parse_proto_bytes body 1) (λ name.
        and_then (parse_proto_varint body 2)
          (λ format. ret (some (ext_enter name (format % 2 ^ 32))))))
    else if tag == 7
    then ret (some ext_leave)
    else if tag == 8
    then and_then (parse_proto_bytes body 1) (λ p. ret (some (ext_add p)))
    else if tag == 9
    then and_then (parse_proto_bytes body 1) (λ p. ret (some (ext_remove p)))
    else ret none
