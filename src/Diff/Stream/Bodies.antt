-- ===== src/Diff/Stream/Bodies.antt =====
-- The bodies of a diff's records, read back by the readers of its sections.
use malcom.Prelude.{
  ℕ, suc, ◌+◌, ◌^◌, ◌≤◌, ◌<◌, ◌≡◌, refl, ap, subst, ◌∙◌, [], ◌∷◌, ◌++◌, append_assoc, append-nil,
  Bytes, Option, some, arith, length, length-append, Outcome, ret, and_then,
}
use malcom.Fetch.Metadata.{max_alloc}
use malcom.Import.SnapItem.{ItemError, get_varint_field, find_field, varint_at}
use malcom.Import.CommitInfo.Fields.{
  number, counted, get_elem?-append, find_hit, find_on, varint_at-number, bytes_before,
  bytes_behind_bytes,
}
use malcom.Diff.Compute.{
  insert, update, delete, DiffRecord, store_enter, change, store_leave, ext_enter, ext_leave,
  ext_add, ext_remove,
}
use malcom.Diff.Wire.{enc_bytes_field, enc_varint_field, joined, tag_of, fields_of, encode_record}
use malcom.Diff.Parse.{parse_proto_bytes, parse_proto_varint}
use malcom.Diff.Parse.Fields.{skip-counted}
use malcom.Diff.Stream.{decode_record}

-- What `emit` needs of a record: its format fits a uint32 and its bytes can be allocated.
abbrev pub Fits : DiffRecord → Type 0
Fits (ext_enter name format) =
    (format < 2 ^ 32) × (length (encode_record (ext_enter name format)) ≤ max_alloc)
Fits r = length (encode_record r) ≤ max_alloc

abbrev pub body_of : DiffRecord → Bytes
body_of r = joined (fields_of r)

-- The body of a change or of a section's head.
get-second_number :
    (b : Bytes) (v : ℕ)
    → length (10 ∷ (counted b ++ 16 ∷ number v)) < 2 ^ 63
    → v < 2 ^ 64
    → get_varint_field (10 ∷ (counted b ++ 16 ∷ number v)) 2 ≡ ret v
unfolding get_varint_field
get-second_number b v small hv =
    let buf = 10 ∷ (counted b ++ 16 ∷ number v) in
    let pre = 10 ∷ (counted b ++ 16 ∷ []) in
    let whole : pre ++ (number v ++ []) ≡ buf =
      ap (λ (bs : Bytes). 10 ∷ bs) (append_assoc (counted b) (16 ∷ []) (number v ++ []))
      ∙ ap (λ (bs : Bytes). 10 ∷ (counted b ++ 16 ∷ bs)) (append-nil (number v)) in
    let place : length pre ≡ length (10 ∷ counted b) + 1 =
      omega (arith, length-append (counted b) (16 ∷ [])) in
    let found : find_field (suc (length buf)) 16 buf 0 ≡ ret (some (length (10 ∷ counted b) + 1)) =
      find_on (length buf) 16 10 buf 0 (length (10 ∷ counted b)) (omega arith) refl (omega arith)
        (skip-counted [] 10 b (16 ∷ number v) small refl)
      ∙ find_hit (length (counted b ++ 16 ∷ number v)) 16 buf (length (10 ∷ counted b))
          (omega (arith, length-append (counted b) (16 ∷ number v)))
          (get_elem?-append (10 ∷ counted b) 16 (number v)) in
    ap (λ (o : Outcome ItemError (Option ℕ)). and_then o (varint_at buf)) found
    ∙ subst (λ (i : ℕ). varint_at buf (some i) ≡ ret v) place
        (subst (λ (bs : Bytes). varint_at bs (some (length pre)) ≡ ret v) whole
          (varint_at-number pre v [] hv))

-- One field, and two.
parse-one :
    (b : Bytes)
    → length (enc_bytes_field 1 b ++ []) < 2 ^ 63
    → parse_proto_bytes (enc_bytes_field 1 b ++ []) 1 ≡ ret b
unfolding parse_proto_bytes enc_bytes_field
parse-one b small = rw (bytes_before b [] small) refl

parse-two :
    (a b : Bytes)
    → length (enc_bytes_field 1 a ++ (enc_bytes_field 2 b ++ [])) < 2 ^ 63
    → (parse_proto_bytes (enc_bytes_field 1 a ++ (enc_bytes_field 2 b ++ [])) 1 ≡ ret a)
      × (parse_proto_bytes (enc_bytes_field 1 a ++ (enc_bytes_field 2 b ++ [])) 2 ≡ ret b)
unfolding parse_proto_bytes enc_bytes_field
parse-two a b small = (
  rw (bytes_before a (18 ∷ (counted b ++ [])) small) refl,
  rw (append-nil (counted b)) (
      rw
        (bytes_behind_bytes a b (
          subst (λ (bs : Bytes). length (10 ∷ (counted a ++ 18 ∷ bs)) < 2 ^ 63)
            (append-nil (counted b)) small))
        refl),
)

parse-name_and_format :
    (name : Bytes) (format : ℕ)
    → length (enc_bytes_field 1 name ++ (enc_varint_field 2 format ++ [])) < 2 ^ 63
    → format < 2 ^ 64
    → (parse_proto_bytes (enc_bytes_field 1 name ++ (enc_varint_field 2 format ++ [])) 1 ≡ ret name)
      × (parse_proto_varint (enc_bytes_field 1 name ++ (enc_varint_field 2 format ++ [])) 2
          ≡ ret format)
unfolding parse_proto_bytes parse_proto_varint enc_bytes_field enc_varint_field
parse-name_and_format name format small hv = (
  rw (bytes_before name (16 ∷ (number format ++ [])) small) refl,
  rw (append-nil (number format)) (
      get-second_number name format
        (subst (λ (bs : Bytes). length (10 ∷ (counted name ++ 16 ∷ bs)) < 2 ^ 63)
          (append-nil (number format)) small)
        hv),
)

-- What a record's body says is the record.
pub decode-body :
    (r : DiffRecord)
    → Fits r
    → length (body_of r) < 2 ^ 63
    → decode_record (tag_of r) (body_of r) ≡ ret (some r)
unfolding decode_record fields_of
decode-body (store_enter name) fits small = rw (parse-one name small) refl
decode-body store_leave fits small = refl
decode-body (change (insert k v)) fits small =
    rw (parse-two k v small).0 (rw (parse-two k v small).1 refl)
decode-body (change (update k v)) fits small =
    rw (parse-two k v small).0 (rw (parse-two k v small).1 refl)
decode-body (change (delete k)) fits small = rw (parse-one k small) refl
decode-body (ext_enter name format) fits small =
    rw (parse-name_and_format name format small (omega (arith, fits.0))).0 (
      rw (parse-name_and_format name format small (omega (arith, fits.0))).1
        (ap (λ (n : ℕ). ret (some (ext_enter name n))) (omega (arith, fits.0))))
decode-body ext_leave fits small = refl
decode-body (ext_add p) fits small = rw (parse-one p small) refl
decode-body (ext_remove p) fits small = rw (parse-one p small) refl
