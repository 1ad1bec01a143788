-- ===== src/Diff/Wire.antt =====
-- internal/snapshotdiff/diff.go: the encoders of a diff's records and of a snapshot's items, and
-- internal/snapshotdiff/format.go: the tags.
use malcom.Prelude.{ℕ, ◌+◌, ◌*◌, ◌%◌, List, [], ◌∷◌, ◌++◌, Bytes, length}
use malcom.Varint.{put_uvarint}
use malcom.Diff.Compute.{
  insert, update, delete, DiffRecord, store_enter, change, store_leave, ext_enter, ext_leave,
  ext_add, ext_remove,
}

unfoldable pub enc_bytes_field : ℕ → Bytes → Bytes
enc_bytes_field field b = ((field * 8 + 2) % 256) ∷ (put_uvarint [] (length b) ++ b)

unfoldable pub enc_varint_field : ℕ → ℕ → Bytes
enc_varint_field field v = (field * 8 % 256) ∷ put_uvarint [] v

-- The inner fields one after the other.
abbrev pub joined : List Bytes → Bytes
joined [] = []
joined (f ∷ fs) = f ++ joined fs

unfoldable build_one_of_message : ℕ → List Bytes → Bytes
build_one_of_message tag fields =
    ((tag * 8 + 2) % 256) ∷ (put_uvarint [] (length (joined fields)) ++ joined fields)

-- The tag and the fields of each record.
abbrev pub tag_of : DiffRecord → ℕ
tag_of (store_enter name) = 1
tag_of store_leave = 2
tag_of (change (insert k v)) = 3
tag_of (change (update k v)) = 4
tag_of (change (delete k)) = 5
tag_of (ext_enter name format) = 6
tag_of ext_leave = 7
tag_of (ext_add p) = 8
tag_of (ext_remove p) = 9

unfoldable pub fields_of : DiffRecord → List Bytes
unfolding enc_bytes_field enc_varint_field
fields_of (store_enter name) = enc_bytes_field 1 name ∷ []
fields_of store_leave = []
fields_of (change (insert k v)) = enc_bytes_field 1 k ∷ enc_bytes_field 2 v ∷ []
fields_of (change (update k v)) = enc_bytes_field 1 k ∷ enc_bytes_field 2 v ∷ []
fields_of (change (delete k)) = enc_bytes_field 1 k ∷ []
fields_of (ext_enter name format) = enc_bytes_field 1 name ∷ enc_varint_field 2 format ∷ []
fields_of ext_leave = []
fields_of (ext_add p) = enc_bytes_field 1 p ∷ []
fields_of (ext_remove p) = enc_bytes_field 1 p ∷ []

unfoldable pub encode_record : DiffRecord → Bytes
unfolding build_one_of_message
encode_record r = build_one_of_message (tag_of r) (fields_of r)

-- `emit`: the length, then the record.
unfoldable pub emit : Bytes → Bytes
emit rec = put_uvarint [] (length rec) ++ rec

unfoldable pub write_records : List DiffRecord → Bytes
unfolding emit encode_record
write_records [] = []
write_records (r ∷ rs) = emit (encode_record r) ++ write_records rs

-- The items of an applied snapshot.
unfoldable pub encode_leaf : Bytes → Bytes → Bytes
unfolding enc_bytes_field
encode_leaf k v = joined (enc_bytes_field 1 k ∷ enc_bytes_field 2 v ∷ [])
