-- ===== src/Examples/Codecs.antt =====
-- Metadata, file names and varints.
use malcom.Prelude.{◌^◌, ◌≡◌, refl, [], ◌∷◌, ◌++◌, Bytes, arith, ret, panic}
use malcom.Varint.{uvarint, uvarint_from, put_uvarint, put_uvarint_fuel}
use malcom.Fetch.Metadata.{parse_chunk_hashes, parse_from, check_length, encode_hashes}
use malcom.Fetch.Metadata.Sound.{Records, parse_chunk_hashes_sound}
use malcom.Fetch.Metadata.Overflow.{parse_chunk_hashes-panic}
use malcom.Import.SnapItem.{next}
use malcom.Import.SnapItem.Panics.{next-panic}

abbrev two_records : Bytes
two_records = 0x0A ∷ 2 ∷ 7 ∷ 8 ∷ 0x0A ∷ 1 ∷ 9 ∷ []

two_records_parse : parse_chunk_hashes two_records ≡ ret ((7 ∷ 8 ∷ []) ∷ (9 ∷ []) ∷ [])
unfolding parse_chunk_hashes parse_from check_length uvarint uvarint_from
two_records_parse = refl

parse_chunk_hashes_sound_example : Records two_records ((7 ∷ 8 ∷ []) ∷ (9 ∷ []) ∷ [])
parse_chunk_hashes_sound_example =
    parse_chunk_hashes_sound two_records ((7 ∷ 8 ∷ []) ∷ (9 ∷ []) ∷ []) (omega arith)
      two_records_parse

parse_chunk_hashes-panic_example :
    parse_chunk_hashes (encode_hashes [] ++ 0x0A ∷ (put_uvarint [] (2 ^ 63) ++ [])) ≡ panic
unfolding encode_hashes put_uvarint put_uvarint_fuel
parse_chunk_hashes-panic_example =
    parse_chunk_hashes-panic [] (2 ^ 63) [] (omega arith) (omega arith) (omega arith)

-- A store item whose inner length is 100 in an envelope of three bytes.
next-panic_example :
    next record { rest = 3 ∷ 0x0A ∷ 100 ∷ 1 ∷ 7 ∷ []; last_item_bytes = 0; pinned = 0 } ≡ panic
unfolding put_uvarint put_uvarint_fuel
next-panic_example =
    next-panic 0x0A 100 (1 ∷ []) (7 ∷ []) 0 0 refl (omega arith) (omega arith) (omega arith)
