-- ===== src/Import/Encoding.antt =====
-- internal/snapshotimport/iavlenc.go: the keys, the values and the hash pre-images of IAVL nodes. An
-- int64 is its 64-bit pattern, an int8 its 8-bit pattern, and SHA-256 is a parameter.
pub mod Keys
use malcom.Prelude.{
  ℕ, zero, suc, ◌+◌, ◌-◌, ◌*◌, ◌/◌, ◌%◌, ◌^◌, [], ◌∷◌, ◌++◌, Bytes, codes, ltb, if◌then◌else◌,
}
use malcom.Varint.{put_varint, put_bytes}

-- The last n bytes of a number, the highest first: `binary.BigEndian.PutUint64` and `PutUint32`.
unfoldable pub big_endian : ℕ → ℕ → Bytes
big_endian zero x = []
big_endian (suc n) x = big_endian n (x / 256) ++ (x % 256) ∷ []

unfoldable pub store_prefix : Bytes → Bytes
store_prefix name = codes "s/k:" ++ (name ++ codes "/")

unfoldable pub node_key : ℕ → ℕ → Bytes
unfolding big_endian
node_key version nonce = b's' ∷ (big_endian 8 version ++ big_endian 4 nonce)

unfoldable pub node_db_key : Bytes → ℕ → ℕ → Bytes
unfolding node_key
node_db_key prefix version nonce = prefix ++ node_key version nonce

unfoldable pub fast_db_key : Bytes → Bytes → Bytes
fast_db_key prefix user_key = prefix ++ b'f' ∷ user_key

unfoldable pub metadata_db_key : Bytes → Bytes → Bytes
metadata_db_key prefix meta_key = prefix ++ b'm' ∷ meta_key

unfoldable put_hash32 : Bytes → Bytes → Bytes
put_hash32 dst h = dst ++ 0x20 ∷ h

-- `int64(height)` of an int8.
unfoldable sign_extend : ℕ → ℕ
sign_extend height = if ltb height 128 then height else height + (2 ^ 64 - 256)

unfoldable pub encode_leaf_node : Bytes → Bytes → Bytes
unfolding put_varint put_bytes
encode_leaf_node key value = put_bytes (put_bytes (put_varint (put_varint [] 0) 1) key) value

unfoldable pub encode_inner_node : ℕ → ℕ → Bytes → Bytes → ℕ → ℕ → ℕ → ℕ → Bytes
unfolding put_varint put_bytes put_hash32 sign_extend
encode_inner_node height size key hash left_version left_nonce right_version right_nonce =
    let head = put_bytes (put_varint (put_varint [] (sign_extend height)) size) key in
    let mode = put_varint (put_hash32 head hash) 0 in
    let left = put_varint (put_varint mode left_version) left_nonce in
    put_varint (put_varint left right_version) right_nonce

unfoldable pub encode_fast_node : ℕ → Bytes → Bytes
unfolding put_varint put_bytes
encode_fast_node version value = put_bytes (put_varint [] version) value

module _ (sha256 : Bytes → Bytes) where
  unfoldable pub hash_leaf : ℕ → Bytes → Bytes → Bytes
  unfolding put_varint put_bytes put_hash32
  hash_leaf version key value =
      let sizes = put_varint (put_varint [] 0) 1 in
      sha256 (put_hash32 (put_bytes (put_varint sizes version) key) (sha256 value))

  unfoldable pub hash_inner : ℕ → ℕ → ℕ → Bytes → Bytes → Bytes
  unfolding put_varint put_hash32 sign_extend
  hash_inner version height size left right =
      let sizes = put_varint (put_varint (put_varint [] (sign_extend height)) size) version in
      sha256 (put_hash32 (put_hash32 sizes left) right)
