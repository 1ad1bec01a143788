-- ===== src/Examples/Records.antt =====
-- The theorems on a diff's records and extensions at concrete inputs.
use malcom.Prelude.{
  ℕ, suc, ◌≤◌, Bool-cases, inl, inr, subst, false, ◌≡◌, ◌↔◌, refl, List, [], ◌∷◌, ◌++◌, Bytes,
  codes, some, arith, take, length, true, stuck, ret, Option,
}
use malcom.Varint.{put_uvarint}
use malcom.Import.SnapItem.{find_field}
use malcom.Diff.Compute.{
  DiffRecord, insert, delete, store_enter, change, store_leave, ext_enter, ext_leave, ext_add,
}
use malcom.Diff.Header.{FileHeader, read_header, write_header}
use malcom.Diff.Header.RoundTrip.{read-write_header}
use malcom.Diff.Wire.{encode_record, write_records, encode_leaf, fields_of}
use malcom.Diff.Parse.{parse_iavl_key_value, is_leaf_iavl}
use malcom.Diff.Parse.Hang.{back_to_start, find_field-hangs}
use malcom.Diff.Parse.Fields.{parse-encode_leaf}
use malcom.Diff.Stream.RoundTrip.{Reads, AllFit, read-write_records, read-cut}
use malcom.Diff.Extensions.{
  ExtData, ExtChangeSet, payloads_of, diff_extension, read_ext_sections, apply_extension,
}
use malcom.Diff.Apply.Once.{count_keys}
use malcom.Prelude.Map.{Map, bytes_key, put, bytes_equal, bytes_equal→eq}
use malcom.Diff.Extensions.Hashes.{In}
use malcom.Diff.Extensions.Payloads.{payloads_in, apply-diff_extension}

abbrev small_diff : List DiffRecord
small_diff =
    store_enter (codes "bank")
    ∷ change (insert (1 ∷ []) (2 ∷ 3 ∷ []))
    ∷ change (delete (7 ∷ []))
    ∷ store_leave
    ∷ ext_enter (codes "wasm") 300
    ∷ ext_leave
    ∷ []

small_diff-AllFit : AllFit small_diff
unfolding encode_record put_uvarint fields_of
small_diff-AllFit = (
  omega arith,
  (omega arith, (omega arith, (omega arith, ((omega arith, omega arith), (omega arith, tt))))),
)

read-write_records_example : Reads (write_records small_diff) small_diff
read-write_records_example = read-write_records small_diff small_diff-AllFit

read-cut_example :
    Reads
      (write_records small_diff
        ++ (put_uvarint [] (length (encode_record (ext_add (9 ∷ 9 ∷ []))))
            ++ take 3 (encode_record (ext_add (9 ∷ 9 ∷ [])))))
      small_diff
unfolding encode_record put_uvarint fields_of
read-cut_example =
    read-cut small_diff (ext_add (9 ∷ 9 ∷ [])) 3 small_diff-AllFit (omega arith) (omega arith)

parse-encode_leaf_example :
    (parse_iavl_key_value (encode_leaf (1 ∷ []) (2 ∷ 3 ∷ [])) ≡ ret (1 ∷ [], 2 ∷ 3 ∷ []))
    × (is_leaf_iavl (encode_leaf (1 ∷ []) (2 ∷ 3 ∷ [])) ≡ ret true)
unfolding encode_leaf put_uvarint
parse-encode_leaf_example = parse-encode_leaf (1 ∷ []) (2 ∷ 3 ∷ []) (omega arith)

find_field-hangs_example :
    find_field 1000 10 (0x12 ∷ (put_uvarint [] back_to_start ++ (7 ∷ []))) 0 ≡ stuck
find_field-hangs_example = find_field-hangs 0x12 10 1000 (7 ∷ []) refl (omega arith)

-- A hash that keeps its input, and two versions of an extension.
abbrev same_bytes : Bytes → Bytes
same_bytes p = p

abbrev as_is : List Bytes → List Bytes
as_is hs = hs

abbrev old_code : Option ExtData
old_code = some record { format = 1; payloads = (1 ∷ []) ∷ (2 ∷ []) ∷ [] }

abbrev new_code : Option ExtData
new_code = some record { format = 1; payloads = (2 ∷ []) ∷ (3 ∷ []) ∷ (2 ∷ []) ∷ [] }

old_code-once : (x : Bytes) → count_keys x (payloads_of old_code) ≤ 1
unfolding bytes_equal
old_code-once x = elim (Bool-cases (bytes_equal (1 ∷ []) x)) [
  | inl t ↦
      let other : bytes_equal (2 ∷ []) x ≡ false =
        subst (λ (y : Bytes). bytes_equal (2 ∷ []) y ≡ false) (bytes_equal→eq (1 ∷ []) x t) refl in
      rw (t, other) (omega arith)
  | inr f ↦ elim (Bool-cases (bytes_equal (2 ∷ []) x)) [
    | inl t ↦ rw (f, t) (omega arith)
    | inr g ↦ rw (f, g) (omega arith)
  ]
]

apply-diff_extension_example :
    (ch : ExtChangeSet) × ((f : ℕ) (per_ext : Map Bytes ExtChangeSet)
      → read_ext_sections same_bytes
          (suc f)
          (diff_extension same_bytes as_is (codes "wasm") old_code new_code [])
          per_ext
        ≡ read_ext_sections same_bytes f [] (put (codes "wasm") ch per_ext))
    × ((x : Bytes)
        → (In x (payloads_in (apply_extension same_bytes (codes "wasm") old_code (some ch)))
            ↔ In x (payloads_of new_code))
          × (count_keys x
                (payloads_in (apply_extension same_bytes (codes "wasm") old_code (some ch)))
              ≤ 1))
apply-diff_extension_example =
    apply-diff_extension same_bytes as_is (λ x xs. (λ h. h, λ h. h)) old_code new_code
      (λ p q a b e. e) (codes "wasm") [] old_code-once (λ h hs. refl)

abbrev small_header : FileHeader
small_header = record {
  base_height = 100;
  target_height = 70000;
  base_hash_hex = codes "0a1b";
  target_hash_hex = codes "ffee";
}

read-write_header_example :
    read_header (write_header small_header ++ 5 ∷ []) ≡ ret (small_header, 5 ∷ [])
read-write_header_example =
    read-write_header small_header (5 ∷ []) (omega arith) (omega arith) (omega arith) (omega arith)
