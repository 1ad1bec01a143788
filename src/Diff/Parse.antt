-- ===== src/Diff/Parse.antt =====
-- internal/snapshotdiff: the parsers of records' and items' bodies, diff.go's and apply.go's. An `int`
-- offset keeps 64 bits, and from 2^63 on it is negative. The search for a field is the loop of
-- internal/snapshotimport/snapproto.go, which these files repeat.
pub mod Fields
pub mod Hang
use malcom.Prelude.{
  ℕ, zero, suc, ◌+◌, ◌*◌, ◌%◌, ◌^◌, Bool, true, false, not, List, [], ◌∷◌, Option, none, some,
  Bytes, leb, ◌==◌, if◌then◌else◌, length, get_elem?, drop, Outcome, ret, fail, panic, stuck,
  and_then,
}
use malcom.Varint.{uvarint}
use malcom.Fetch.Metadata.{extends_past}
use malcom.Import.SnapItem.{
  ItemError, slice, skip_field, find_field, or_empty, get_bytes_field, get_varint_field,
}

-- A missing field and an empty one are both the empty string.
unfoldable pub parse_proto_bytes : Bytes → ℕ → Outcome ItemError Bytes
parse_proto_bytes buf field = and_then (get_bytes_field buf field) (λ b. ret (or_empty b))

unfoldable pub parse_proto_varint : Bytes → ℕ → Outcome ItemError ℕ
parse_proto_varint buf field = get_varint_field buf field

abbrev pub height_is_zero : Bytes → Option ℕ → Outcome ItemError Bool
height_is_zero body none = ret true
height_is_zero body (some i) = elim (uvarint (drop i body)) [
  | none ↦ ret true
  | some (v, m) ↦ ret (v == 0)
]

unfoldable pub is_leaf_iavl : Bytes → Outcome ItemError Bool
unfolding find_field
is_leaf_iavl body = and_then (find_field (suc (length body)) 0x20 body 0) (height_is_zero body)

-- A length-delimited field behind its tag: where its bytes start, and their number; `none` makes the
-- caller return what it has.
unfoldable pub span_at : Bytes → ℕ → Option (ℕ × ℕ)
span_at buf i = elim (uvarint (drop i buf)) [
  | none ↦ none
  | some (ln, m) ↦ if extends_past (i + m) ln (length buf) then none else some (i + m, ln)
]

-- The rest of a loop behind the bytes of a span, which are sliced first.
abbrev pub with_span :
    {A : Type 0}
    → Bytes
    → Option (ℕ × ℕ)
    → A
    → (Bytes → ℕ → Outcome ItemError A)
    → Outcome ItemError A
with_span buf none out k = ret out
with_span buf (some (lo, ln)) out k =
    and_then (slice buf lo ln) (λ b. k (or_empty b) ((lo + ln) % 2 ^ 64))

abbrev or_return : {A : Type 0} → A → Option ℕ → (ℕ → Outcome ItemError A) → Outcome ItemError A
or_return out none k = ret out
or_return out (some j) k = k j

-- The loop of `parseIAVLKeyValue`; the last key and the last value win.
unfoldable pub key_value_from : ℕ → Bytes → ℕ → Bytes → Bytes → Outcome ItemError (Bytes × Bytes)
unfolding skip_field span_at slice
key_value_from zero buf i key value = stuck
key_value_from (suc f) buf i key value = if leb (2 ^ 63) i then panic else elim (get_elem? buf i) [
  | none ↦ ret (key, value)
  | some tag ↦
      if tag == 0x0A
      then with_span buf (span_at buf (i + 1)) (key, value) (λ b j. key_value_from f buf j b value)
      else if tag == 0x12
      then with_span buf (span_at buf (i + 1)) (key, value) (λ b j. key_value_from f buf j key b)
      else or_return (key, value) (skip_field buf tag (i + 1))
          (λ j. key_value_from f buf j key value)
]

unfoldable pub parse_iavl_key_value : Bytes → Outcome ItemError (Bytes × Bytes)
unfolding key_value_from
parse_iavl_key_value buf = key_value_from (suc (length buf)) buf 0 [] []

-- The loop of `parseExtMeta`.
unfoldable ext_meta_from : ℕ → Bytes → ℕ → Bytes → ℕ → Outcome ItemError (Bytes × ℕ)
unfolding skip_field span_at slice
ext_meta_from zero buf i name format = stuck
ext_meta_from (suc f) buf i name format = if leb (2 ^ 63) i then panic else elim (get_elem? buf i) [
  | none ↦ ret (name, format)
  | some tag ↦
      if tag == 0x0A
      then with_span buf (span_at buf (i + 1)) (name, format)
          (λ b j. ext_meta_from f buf j b format)
      else if tag == 0x10
      then elim (uvarint (drop (i + 1) buf)) [
        | none ↦ ret (name, format)
        | some (v, m) ↦ ext_meta_from f buf (i + 1 + m) name (v % 2 ^ 32)
      ]
      else or_return (name, format) (skip_field buf tag (i + 1))
          (λ j. ext_meta_from f buf j name format)
]

unfoldable parse_ext_meta : Bytes → Outcome ItemError (Bytes × ℕ)
unfolding ext_meta_from
parse_ext_meta buf = ext_meta_from (suc (length buf)) buf 0 [] 0

-- `parseStoreName` and `parseExtPayload` read the one field of a body.
unfoldable parse_only_field : Bytes → Outcome ItemError Bytes
unfolding span_at slice
parse_only_field [] = ret []
parse_only_field (tag ∷ buf) =
    if not (tag == 0x0A)
    then ret []
    else with_span (tag ∷ buf) (span_at (tag ∷ buf) 1) [] (λ b j. ret b)

unfoldable parse_store_name : Bytes → Outcome ItemError Bytes
unfolding parse_only_field
parse_store_name buf = parse_only_field buf

unfoldable parse_ext_payload : Bytes → Outcome ItemError Bytes
unfolding parse_only_field
parse_ext_payload buf = parse_only_field buf
