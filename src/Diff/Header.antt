-- ===== src/Diff/Header.antt =====
-- internal/snapshotdiff/format.go: the header of a diff file. The writer takes every byte, and the reader
-- has the bytes that are left.
pub mod RoundTrip
use malcom.Prelude.{
  ℕ, zero, suc, ◌+◌, ◌*◌, ◌/◌, ◌%◌, ◌^◌, Bool, not, [], ◌∷◌, ◌++◌, Bytes, codes, ltb, ◌==◌,
  if◌then◌else◌, length, take, drop, Outcome, ret, fail, panic, stuck, and_then,
}
use malcom.Prelude.Map.{bytes_equal}

pub record FileHeader : Type 0 where
  pub base_height : ℕ
  pub target_height : ℕ
  pub base_hash_hex : Bytes
  pub target_hash_hex : Bytes

pub data HeaderError : Type 0 where
  too_short bad_magic unknown_version too_large : HeaderError

abbrev pub magic : Bytes
magic = codes "CSDF"

abbrev pub format_version : ℕ
format_version = 1

-- `binary.LittleEndian` over a number of bytes.
unfoldable pub put_little : ℕ → ℕ → Bytes
put_little zero v = []
put_little (suc n) v = (v % 256) ∷ put_little n (v / 256)

unfoldable pub little : Bytes → ℕ
little [] = 0
little (b ∷ bs) = b + 256 * little bs

unfoldable pub write_len_prefixed : Bytes → Bytes
write_len_prefixed b = put_little 4 (length b % 2 ^ 32) ++ b

unfoldable pub write_header : FileHeader → Bytes
write_header h =
    magic
    ++ (format_version
        ∷ (put_little 8 h.base_height
            ++ (put_little 8 h.target_height
                ++ (write_len_prefixed h.base_hash_hex ++ write_len_prefixed h.target_hash_hex))))

-- `io.ReadFull`: the bytes, and those behind them.
unfoldable pub read_full : ℕ → Bytes → Outcome HeaderError (Bytes × Bytes)
read_full n bs = if ltb (length bs) n then fail too_short else ret (take n bs, drop n bs)

unfoldable pub read_len_prefixed : Bytes → Outcome HeaderError (Bytes × Bytes)
read_len_prefixed bs = and_then (read_full 4 bs) (λ size.
    if ltb (2 ^ 20) (little size.0) then fail too_large else read_full (little size.0) size.1)

unfoldable pub read_header : Bytes → Outcome HeaderError (FileHeader × Bytes)
read_header bs = and_then (read_full 4 bs) (λ m.
    if not (bytes_equal m.0 magic)
    then fail bad_magic
    else and_then (read_full 1 m.1) (λ v.
      if not (little v.0 == format_version)
      then fail unknown_version
      else and_then (read_full 8 v.1) (λ base. and_then (read_full 8 base.1) (λ target.
        and_then (read_len_prefixed target.1) (λ bh. and_then (read_len_prefixed bh.1) (λ th. ret (
          record {
            base_height = little base.0;
            target_height = little target.0;
            base_hash_hex = bh.0;
            target_hash_hex = th.0;
          },
          th.1,
        )))))))
