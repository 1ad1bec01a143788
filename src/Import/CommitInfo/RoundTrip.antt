-- ===== src/Import/CommitInfo/RoundTrip.antt =====
-- The records read back by the package's own protobuf reader.
use malcom.Prelude.{ℕ, ◌^◌, ◌<◌, ◌≡◌, sym, ap, subst, ◌∙◌, [], ◌∷◌, ◌++◌, Bytes, some, length, ret}
use malcom.Import.SnapItem.{get_bytes_field, get_varint_field}
use malcom.Import.CommitInfo.{
  StoreInfo, append_uvarint_field, append_bytes_field, encode_commit_id, encode_store_info,
}
use malcom.Import.CommitInfo.Fields.{
  number, counted, append_uvarint_field_lem, append_bytes_field_lem, first_number,
  bytes_behind_number, bytes_before, bytes_behind_bytes,
}

commit_id_lem : (v : ℕ) (h : Bytes) → encode_commit_id v h ≡ 8 ∷ (number v ++ 18 ∷ counted h)
unfolding encode_commit_id
commit_id_lem v h =
    append_bytes_field_lem (append_uvarint_field [] 1 v) 2 h
    ∙ ap (λ (bs : Bytes). bs ++ 18 ∷ counted h) (append_uvarint_field_lem [] 1 v)

store_info_lem :
    (si : StoreInfo) (v : ℕ)
    → encode_store_info si v ≡ 10 ∷ (counted si.name ++ 18 ∷ counted (encode_commit_id v si.hash))
unfolding encode_store_info
store_info_lem si v =
    append_bytes_field_lem (append_bytes_field [] 1 si.name) 2 (encode_commit_id v si.hash)
    ∙ ap (λ (bs : Bytes). bs ++ 18 ∷ counted (encode_commit_id v si.hash))
        (append_bytes_field_lem [] 1 si.name)

-- The commit id that `encodeCommitID` writes, below 2^63 bytes, is read back: its version and its hash.
get-encode_commit_id :
    (version : ℕ) (hash : Bytes)
    → version < 2 ^ 64
    → length (encode_commit_id version hash) < 2 ^ 63
    → (get_varint_field (encode_commit_id version hash) 1 ≡ ret version)
      × (get_bytes_field (encode_commit_id version hash) 2 ≡ ret (some hash))
get-encode_commit_id version hash hv small =
    let buf = 8 ∷ (number version ++ 18 ∷ counted hash) in
    let whole : encode_commit_id version hash ≡ buf = commit_id_lem version hash in
    let fits : length buf < 2 ^ 63 = subst (λ (bs : Bytes). length bs < 2 ^ 63) whole small in
    subst
      (λ (bs : Bytes).
        (get_varint_field bs 1 ≡ ret version) × (get_bytes_field bs 2 ≡ ret (some hash)))
      (sym whole)
      (first_number version (18 ∷ counted hash) hv, bytes_behind_number version hash hv fits)

-- The store info that `encodeStoreInfo` writes, below 2^63 bytes, is read back: its name, and the commit
-- id that stands in it.
get-encode_store_info :
    (si : StoreInfo) (version : ℕ)
    → length (encode_store_info si version) < 2 ^ 63
    → (get_bytes_field (encode_store_info si version) 1 ≡ ret (some si.name))
      × (get_bytes_field (encode_store_info si version) 2
          ≡ ret (some (encode_commit_id version si.hash)))
get-encode_store_info si version small =
    let id = encode_commit_id version si.hash in
    let buf = 10 ∷ ((number (length si.name) ++ si.name) ++ 18 ∷ counted id) in
    let whole : encode_store_info si version ≡ buf = store_info_lem si version in
    let fits : length buf < 2 ^ 63 = subst (λ (bs : Bytes). length bs < 2 ^ 63) whole small in
    subst
      (λ (bs : Bytes).
        (get_bytes_field bs 1 ≡ ret (some si.name)) × (get_bytes_field bs 2 ≡ ret (some id)))
      (sym whole) (bytes_before si.name (18 ∷ counted id) fits, bytes_behind_bytes si.name id fits)
