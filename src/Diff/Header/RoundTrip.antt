-- ===== src/Diff/Header/RoundTrip.antt =====
-- The header of a diff file, read back.
use malcom.Prelude.{
  ℕ, zero, suc, ◌*◌, ◌/◌, ◌%◌, ◌^◌, ◌≤◌, ◌<◌, ◌≡◌, refl, sym, ap, subst, ◌∙◌, false, [], ◌∷◌, ◌++◌,
  append_assoc, Bytes, arith, ltb, length, length-append, take-append, drop-append, ret,
}
use malcom.Prelude.Map.{bytes_equal}
use malcom.Diff.Header.{
  FileHeader, magic, format_version, put_little, little, write_len_prefixed, write_header,
  read_full, read_len_prefixed, read_header,
}

length-put_little : (n v : ℕ) → length (put_little n v) ≡ n
unfolding put_little
length-put_little zero v = refl
length-put_little (suc n) v = ap suc (length-put_little n (v / 256))

-- The numbers of so many bytes.
abbrev room : ℕ → ℕ
room zero = 1
room (suc n) = 256 * room n

little-put_little : (n v : ℕ) → v < room n → little (put_little n v) ≡ v
unfolding little put_little
little-put_little zero v h = omega arith
little-put_little (suc n) v h = omega (arith, little-put_little n (v / 256) (omega arith))

read_full_here : (bs rest : Bytes) → read_full (length bs) (bs ++ rest) ≡ ret (bs, rest)
unfolding read_full
read_full_here bs rest =
    let long : ltb (length (bs ++ rest)) (length bs) ≡ false =
      ground (arith, length-append bs rest) in
    rw (long, take-append bs rest, drop-append bs rest) refl

read_full-append :
    (n : ℕ) (bs rest : Bytes) → length bs ≡ n → read_full n (bs ++ rest) ≡ ret (bs, rest)
unfolding read_full
read_full-append n bs rest e =
    subst (λ (k : ℕ). read_full k (bs ++ rest) ≡ ret (bs, rest)) e (read_full_here bs rest)

read-write_len_prefixed :
    (b rest : Bytes)
    → length b ≤ 2 ^ 20
    → read_len_prefixed (write_len_prefixed b ++ rest) ≡ ret (b, rest)
unfolding read_len_prefixed write_len_prefixed
read-write_len_prefixed b rest h =
    let size = put_little 4 (length b % 2 ^ 32) in
    let value : little size ≡ length b =
      little-put_little 4 (length b % 2 ^ 32) (omega arith) ∙ (omega arith) in
    let small : ltb (2 ^ 20) (little size) ≡ false = ground (arith, value) in
    rw (append_assoc size b rest) (
      rw (read_full-append 4 size (b ++ rest) (length-put_little 4 (length b % 2 ^ 32)))
        (rw small (read_full-append (little size) b rest (sym value))))

-- A header of two uint64 heights and two hashes of at most 2^20 bytes is read back from what
-- `WriteHeader` writes, and what follows it is left.
pub read-write_header :
    (h : FileHeader) (rest : Bytes)
    → h.base_height < 2 ^ 64
    → h.target_height < 2 ^ 64
    → length h.base_hash_hex ≤ 2 ^ 20
    → length h.target_hash_hex ≤ 2 ^ 20
    → read_header (write_header h ++ rest) ≡ ret (h, rest)
unfolding read_header write_header bytes_equal little
read-write_header h rest hb ht lb lt =
    let base = put_little 8 h.base_height in
    let target = put_little 8 h.target_height in
    let bh = write_len_prefixed h.base_hash_hex in
    let th = write_len_prefixed h.target_hash_hex in
    let two = target ++ (bh ++ th) in
    rw (read_full-append 4 magic (format_version ∷ (base ++ two ++ rest)) refl) (
      rw (read_full-append 1 (format_version ∷ []) (base ++ two ++ rest) refl) (
        rw
          (append_assoc base two rest, append_assoc target (bh ++ th) rest, append_assoc bh th rest)
          (rw
            (read_full-append 8 base (target ++ (bh ++ (th ++ rest)))
              (length-put_little 8 h.base_height))
            (rw
              (read_full-append 8 target (bh ++ (th ++ rest)) (length-put_little 8 h.target_height))
              (rw (read-write_len_prefixed h.base_hash_hex (th ++ rest) lb) (
                rw (read-write_len_prefixed h.target_hash_hex rest lt) (
                  rw (little-put_little 8 h.base_height hb, little-put_little 8 h.target_height ht)
                    refl)))))))
