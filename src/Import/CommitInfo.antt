-- ===== src/Import/CommitInfo.antt =====
-- internal/snapshotimport/commitinfo.go: the two records that a daemon reads at its start.
pub mod Fields
pub mod RoundTrip
use malcom.Prelude.{ℕ, ◌+◌, ◌*◌, ◌%◌, List, [], ◌∷◌, ◌++◌, Bytes, codes}
use malcom.Varint.{put_uvarint, put_bytes}
use malcom.Import.Store.{int64_text}

pub record StoreInfo : Type 0 where
  pub name : Bytes
  pub hash : Bytes

-- `byte(field<<3)` is a varint field's tag, and with its bit 1 set a byte field's.
unfoldable pub append_uvarint_field : Bytes → ℕ → ℕ → Bytes
append_uvarint_field dst field v = put_uvarint (dst ++ (field * 8 % 256) ∷ []) v

unfoldable pub append_bytes_field : Bytes → ℕ → Bytes → Bytes
append_bytes_field dst field b = put_bytes (dst ++ (field * 8 % 256 + 2) ∷ []) b

unfoldable pub encode_commit_id : ℕ → Bytes → Bytes
encode_commit_id version hash = append_bytes_field (append_uvarint_field [] 1 version) 2 hash

unfoldable pub encode_store_info : StoreInfo → ℕ → Bytes
encode_store_info si version =
    append_bytes_field (append_bytes_field [] 1 si.name) 2 (encode_commit_id version si.hash)

-- The loop over the stores.
unfoldable pub append_store_infos : Bytes → ℕ → List StoreInfo → Bytes
append_store_infos out version [] = out
append_store_infos out version (si ∷ infos) =
    append_store_infos (append_bytes_field out 2 (encode_store_info si version)) version infos

unfoldable pub commit_info_bytes : ℕ → List StoreInfo → Bytes
commit_info_bytes version infos =
    append_store_infos (append_uvarint_field [] 1 version) version infos

unfoldable pub commit_info_key : ℕ → Bytes
unfolding int64_text
commit_info_key version = codes "s/" ++ int64_text version

abbrev pub latest_version_key : Bytes
latest_version_key = codes "s/latest"

unfoldable pub latest_version_bytes : ℕ → Bytes
latest_version_bytes version = append_uvarint_field [] 1 version
