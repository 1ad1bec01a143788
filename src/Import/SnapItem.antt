-- ===== src/Import/SnapItem.antt =====
-- internal/snapshotimport/snapproto.go: the decoder of the items in a snapshot's stream. The stream is
-- the bytes that are left; an `int` offset keeps 64 bits, and from 2^63 on it is negative.
pub mod Panics
use malcom.Prelude.{
  ℕ, zero, suc, ◌+◌, ◌-◌, ◌*◌, ◌/◌, ◌%◌, ◌^◌, Bool, true, false, ◌&&◌, ◌||◌, not, List, [], ◌∷◌,
  ◌++◌, Option, none, some, Bytes, ltb, leb, ◌==◌, if◌then◌else◌, length, get_elem?, take, drop,
  Outcome, ret, fail, panic, stuck, and_then,
}
use malcom.Varint.{uvarint, uvarint_len}
use malcom.Fetch.Metadata.{extends_past}

abbrev max_envelope_bytes : ℕ
max_envelope_bytes = 64000000

pub data ItemError : Type 0 where
  end_of_stream bad_length too_long truncated wrong_wire_type bad_inner_length unknown_field :
      ItemError

-- `snapItem`; a value is `none` where the field is absent.
pub data SnapItem : Type 0 where
  store : Bytes → SnapItem
  iavl : Option Bytes → Option Bytes → ℕ → ℕ → SnapItem  -- key, value, version, height as an int8
  ext_meta : Bytes → ℕ → SnapItem
  ext_payload : Option Bytes → SnapItem

-- `buf[lo : lo+int(ln)]`.
unfoldable pub slice : Bytes → ℕ → ℕ → Outcome ItemError (Option Bytes)
slice buf lo ln =
    let high = (lo + ln) % 2 ^ 64 in
    if leb (2 ^ 63) high || ltb high lo || ltb (length buf) high
    then panic
    else ret (some (take (high - lo) (drop lo buf)))

-- The offset behind a field that is not the wanted one, by its wire type; `none` ends the search.
unfoldable pub skip_field : Bytes → ℕ → ℕ → Option ℕ
skip_field buf tag j =
    if tag % 8 == 0
    then (elim (uvarint (drop j buf)) [ none ↦ none | some (v, m) ↦ some (j + m) ])
    else if tag % 8 == 2
    then (elim (uvarint (drop j buf)) [
      | none ↦ none
      | some (ln, m) ↦
          if extends_past (j + m) ln (length buf) then none else some ((j + m + ln) % 2 ^ 64)
    ])
    else none

-- The loop of `getBytesField` and `getVarintField`: the offset behind the wanted tag. The offset is the
-- loop's only state, so a loop with a round for each offset and one more either ends or never does.
unfoldable pub find_field : ℕ → ℕ → Bytes → ℕ → Outcome ItemError (Option ℕ)
unfolding skip_field
find_field zero want buf i = stuck
find_field (suc f) want buf i = if leb (2 ^ 63) i then panic else elim (get_elem? buf i) [
  | none ↦ ret none
  | some tag ↦
      if tag == want
      then ret (some (i + 1))
      else elim (skip_field buf tag (i + 1)) [ none ↦ ret none | some j ↦ find_field f want buf j ]
]

abbrev pub field_at : Bytes → Option ℕ → Outcome ItemError (Option Bytes)
field_at buf none = ret none
field_at buf (some j) = elim (uvarint (drop j buf)) [
  | none ↦ ret none
  | some (ln, m) ↦ if extends_past (j + m) ln (length buf) then ret none else slice buf (j + m) ln
]

unfoldable pub get_bytes_field : Bytes → ℕ → Outcome ItemError (Option Bytes)
unfolding find_field slice
get_bytes_field buf field =
    and_then (find_field (suc (length buf)) (field * 8 + 2) buf 0) (field_at buf)

abbrev pub varint_at : Bytes → Option ℕ → Outcome ItemError ℕ
varint_at buf none = ret 0
varint_at buf (some j) = elim (uvarint (drop j buf)) [ none ↦ ret 0 | some (v, m) ↦ ret v ]

unfoldable pub get_varint_field : Bytes → ℕ → Outcome ItemError ℕ
unfolding find_field
get_varint_field buf field =
    and_then (find_field (suc (length buf)) (field * 8) buf 0) (varint_at buf)

abbrev pub or_empty : Option Bytes → Bytes
or_empty none = []
or_empty (some b) = b

-- A leaf whose empty value was left out gets it back.
abbrev pub restored : ℕ → Option Bytes → Option Bytes
restored height none = if height == 0 then some [] else none
restored height (some v) = some v

unfoldable pub decode_one_of : ℕ → Bytes → Outcome ItemError SnapItem
unfolding get_bytes_field get_varint_field
decode_one_of field buf =
    if field == 1
    then and_then (get_bytes_field buf 1) (λ name. ret (store (or_empty name)))
    else if field == 2
    then (and_then (get_bytes_field buf 1) (λ key. and_then (get_bytes_field buf 2) (λ value.
        and_then (get_varint_field buf 3) (λ version.
          and_then (get_varint_field buf 4) (λ height.
            ret (iavl key (restored (height % 2 ^ 8) value) version (height % 2 ^ 8)))))))
    else if field == 3
    then (and_then (get_bytes_field buf 1) (λ name.
        and_then (get_varint_field buf 2)
          (λ format. ret (ext_meta (or_empty name) (format % 2 ^ 32)))))
    else if field == 4
    then and_then (get_bytes_field buf 1) (λ payload. ret (ext_payload payload))
    else fail unknown_field

-- The tag, the inner length and the body of one envelope.
unfoldable pub decode_envelope : Bytes → Outcome ItemError SnapItem
decode_envelope [] = fail truncated
decode_envelope (tag ∷ buf) =
    if not (tag % 8 == 2) then fail wrong_wire_type else elim (uvarint buf) [
      | none ↦ fail bad_inner_length
      | some (len, n) ↦
          and_then (slice (tag ∷ buf) (1 + n) len) (λ body. decode_one_of (tag / 8) (or_empty body))
    ]

-- The reader: what is left of the stream, the size of the item last returned, and how far it has moved
-- the ring's pin.
pub record SnapReader : Type 0 where
  pub rest : Bytes
  pub last_item_bytes : ℕ
  pub pinned : ℕ

-- `Next` starts with the commit of the item before.
unfoldable pub commit : SnapReader → SnapReader
commit s = record s { last_item_bytes = 0; pinned = s.pinned + s.last_item_bytes }

abbrev with_reader :
    SnapReader → Outcome ItemError SnapItem → Outcome ItemError (SnapItem × SnapReader)
with_reader s (ret item) = ret (item, s)
with_reader s (fail e) = fail e
with_reader s panic = panic
with_reader s stuck = stuck

-- The loop of `Next`: it goes on over envelopes of length 0, each of which takes a byte of the stream.
unfoldable next_from : ℕ → SnapReader → Outcome ItemError (SnapItem × SnapReader)
unfolding decode_envelope
next_from zero s = stuck
next_from (suc f) s = if length s.rest == 0 then fail end_of_stream else elim (uvarint s.rest) [
  | none ↦ fail bad_length
  | some (len, n) ↦
      let body = drop n s.rest in
      if len == 0
      then next_from f record s { rest = body; pinned = s.pinned + 1 }
      else if ltb max_envelope_bytes len
      then fail too_long
      else if ltb (length body) len
      then fail truncated
      else with_reader record s { rest = drop len body; last_item_bytes = uvarint_len len + len }
          (decode_envelope (take len body))
]

unfoldable pub next : SnapReader → Outcome ItemError (SnapItem × SnapReader)
unfolding commit next_from
next s = next_from (suc (length s.rest)) (commit s)
