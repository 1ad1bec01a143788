-- ===== src/Fetch/Download/FileName.antt =====
-- The names `chunk_%05d.bin` of chunk files, and the index that `resumeFromDisk` reads from a name.
use malcom.Prelude.Decimal.{decimal}
use malcom.Prelude.{
  ℕ, zero, suc, ◌+◌, ◌-◌, ◌*◌, ◌/◌, ◌%◌, ◌^◌, ◌<◌, ◌≡◌, refl, ap, ◌∙◌, ◌||◌, ◌&&◌, [], ◌∷◌, ◌++◌,
  Option, none, some, Bytes, codes, arith, ltb, leb, ◌==◌, if◌then◌else◌, length, take, drop,
  replicate, length-append, take-append, drop-append, Bool-cases, inl, inr,
}
use malcom.Prelude.Map.{bytes_equal, bytes_equal_refl}

unfoldable pub padded : ℕ → Bytes
padded n = let d = decimal 10 n [] in replicate (5 - length d) b'0' ++ d

unfoldable pub chunk_name : ℕ → Bytes
chunk_name i = codes "chunk_" ++ (padded i ++ codes ".bin")

-- `strings.HasPrefix` with `strings.TrimPrefix`, and the same for suffixes.
unfoldable pub strip_prefix : Bytes → Bytes → Option Bytes
strip_prefix [] s = some s
strip_prefix (p ∷ ps) [] = none
strip_prefix (p ∷ ps) (c ∷ s) = if p == c then strip_prefix ps s else none

unfoldable pub strip_suffix : Bytes → Bytes → Option Bytes
strip_suffix suffix s =
    let n = length s - length suffix in
    if leb (length suffix) (length s) && bytes_equal (drop n s) suffix
    then some (take n s)
    else none

-- `strconv.ParseUint(s, 10, 32)`; `none` is an error.
unfoldable pub scan_uint32 : Bytes → ℕ → Option ℕ
scan_uint32 [] n = some n
scan_uint32 (c ∷ s) n =
    let v = n * 10 + (c - b'0') in
    if ltb c b'0' || ltb b'9' c then none else if leb (2 ^ 32) v then none else scan_uint32 s v

unfoldable pub parse_uint32 : Bytes → Option ℕ
unfolding scan_uint32
parse_uint32 [] = none
parse_uint32 (c ∷ s) = scan_uint32 (c ∷ s) 0

unfoldable pub file_index : Bytes → Option ℕ
unfolding strip_prefix
file_index name = elim (strip_prefix (codes "chunk_") name) [
  | none ↦ none
  | some rest ↦ elim (strip_suffix (codes ".bin") rest) [
    | none ↦ none
    | some digits ↦ parse_uint32 digits
  ]
]

abbrev pow10 : ℕ → ℕ
pow10 zero = 1
pow10 (suc f) = 10 * pow10 f

scan-decimal :
    (f n : ℕ) (acc : Bytes)
    → n < pow10 f
    → n < 2 ^ 32
    → scan_uint32 (decimal f n acc) 0 ≡ scan_uint32 acc n
unfolding scan_uint32 decimal
scan-decimal zero n acc h lt = ap (scan_uint32 acc) (omega arith)
scan-decimal (suc f) n acc h lt = elim (Bool-cases (ltb n 10)) [
  | inl small ↦ ground arith
  | inr large ↦
      ground (arith, scan-decimal f (n / 10) ((b'0' + n % 10) ∷ acc) (omega arith) (omega arith))
]

scan-zeros : (k : ℕ) (s : Bytes) → scan_uint32 (replicate k b'0' ++ s) 0 ≡ scan_uint32 s 0
unfolding scan_uint32
scan-zeros zero s = refl
scan-zeros (suc k) s = scan-zeros k s

parse-pad_cons :
    (k c : ℕ) (s : Bytes)
    → parse_uint32 (replicate k b'0' ++ c ∷ s) ≡ scan_uint32 (replicate k b'0' ++ c ∷ s) 0
unfolding parse_uint32
parse-pad_cons zero c s = refl
parse-pad_cons (suc k) c s = refl

parse-pad :
    (d : Bytes)
    → parse_uint32 (replicate (5 - length d) b'0' ++ d)
      ≡ scan_uint32 (replicate (5 - length d) b'0' ++ d) 0
parse-pad [] = unfold parse_uint32 in refl
parse-pad (c ∷ s) = parse-pad_cons (5 - length (c ∷ s)) c s

parse-padded : (n : ℕ) → n < 2 ^ 32 → parse_uint32 (padded n) ≡ some n
unfolding padded
parse-padded n h =
    let d = decimal 10 n [] in
    parse-pad d
    ∙ scan-zeros (5 - length d) d
    ∙ scan-decimal 10 n [] (omega arith) h
    ∙ unfold scan_uint32 in refl

strip_suffix-append : (s suffix : Bytes) → strip_suffix suffix (s ++ suffix) ≡ some s
strip_suffix-append s suffix =
    let e : length (s ++ suffix) - length suffix ≡ length s =
      omega (arith, length-append s suffix) in
    unfold strip_suffix in
    rw (e, drop-append s suffix, take-append s suffix, bytes_equal_refl suffix)
      (ground (arith, length-append s suffix))

-- A 32-bit index is read back from the name of its chunk file.
pub file_index-chunk_name : (i : ℕ) → i < 2 ^ 32 → file_index (chunk_name i) ≡ some i
file_index-chunk_name i h =
    unfold file_index chunk_name in
    rw (strip_suffix-append (padded i) (codes ".bin"), file_index) (parse-padded i h)
