-- ===== src/Fetch/Metadata/Sound.antt =====
-- What `parseChunkHashes` accepts, and that it accepts what an honest peer sends.
use malcom.Prelude.{
  ℕ, zero, suc, ◌+◌, ◌≤◌, ◌<◌, ◌≡◌, ◌≢◌, refl, ap, subst, sym, ◌∙◌, List, [], ◌∷◌, ◌++◌, some,
  Bytes, arith, length, take, drop, Outcome, ret, stuck, Option-cases, inl, inr, append_assoc,
  length-append, take-append, drop-append, length-drop, append-nil,
}
use mathlib.Core.Path.{ap₂}
use native.Mathlib.Nat.{add-zero}
use malcom.Varint.{uvarint, uvarint_from, put_uvarint, put_bytes}
use malcom.Varint.RoundTrip.{uvarint-put}
use malcom.Fetch.Metadata.{
  parse_from, parse_chunk_hashes, check_length, encode_hashes, max_alloc, MetadataError,
}

-- One length-delimited record after another, with nothing left over.
pub data Records : Bytes → List Bytes → Type 0 where
  none_left : Records [] []
  one_more :
      (buf : Bytes) (len n : ℕ) (hs : List Bytes)
      → uvarint buf ≡ some (len, n)
      → n + len ≤ length buf
      → Records (drop len (drop n buf)) hs
      → Records (0x0A ∷ buf) (take len (drop n buf) ∷ hs)

uvarint_from-le :
    (i : ℕ) (buf : Bytes) (v n : ℕ) → uvarint_from i buf ≡ some (v, n) → n ≤ length buf
unfolding uvarint_from
uvarint_from-le i [] v n h = absurd (ground arith)
uvarint_from-le i (b ∷ bs) v n h = elim (Option-cases (uvarint_from (i + 1) bs)) [
  | inl e ↦ ground arith
  | inr ((w, m), e) ↦ ground (arith, uvarint_from-le (i + 1) bs w m e)
]

check_length-ret :
    (j len total : ℕ) (next : Outcome MetadataError (List Bytes)) (res : List Bytes)
    → j ≤ total
    → total ≤ max_alloc
    → check_length j len total next ≡ ret res
    → (j + len ≤ total) × (next ≡ ret res)
unfolding check_length
check_length-ret j len total next res le lt h = ground arith

check_length-short :
    (j len total : ℕ) (next : Outcome MetadataError (List Bytes))
    → j + len ≤ total
    → total ≤ max_alloc
    → len ≤ max_alloc
    → check_length j len total next ≡ next
unfolding check_length
check_length-short j len total next le lt short = ground arith

check_length-ne-stuck :
    (j len total : ℕ) (next : Outcome MetadataError (List Bytes))
    → next ≢ stuck
    → check_length j len total next ≢ stuck
unfolding check_length
check_length-ne-stuck j len total next h = ground arith

parse_from-ne-stuck :
    (f total i : ℕ) (rest : Bytes) (out : List Bytes)
    → length rest < f
    → parse_from f total i rest out ≢ stuck
unfolding parse_from
parse_from-ne-stuck zero total i rest out h = absurd (omega arith)
parse_from-ne-stuck (suc f) total i [] out h = λ e. cc
parse_from-ne-stuck (suc f) total i (tag ∷ buf) out h = elim (Option-cases (uvarint buf)) [
  | inl e ↦ ground arith
  | inr ((len, n), e) ↦ ground (
    arith,
    check_length-ne-stuck (i + 1 + n) len total (
        parse_from f total (i + 1 + n + len) (drop len (drop n buf))
          (out ++ take len (drop n buf) ∷ [])),
    parse_from-ne-stuck f total (i + 1 + n + len) (drop len (drop n buf))
        (out ++ take len (drop n buf) ∷ []),
    length-drop len (drop n buf),
    length-drop n buf,
  )
]

-- The loop always ends: no metadata makes `parseChunkHashes` run forever.
parse_chunk_hashes-ne-stuck : (metadata : Bytes) → parse_chunk_hashes metadata ≢ stuck
unfolding parse_chunk_hashes
parse_chunk_hashes-ne-stuck metadata =
    parse_from-ne-stuck (suc (length metadata)) (length metadata) 0 metadata [] (omega arith)

-- What a round that does not stop has checked.
parse_from_round :
    (f total i tag : ℕ) (buf : Bytes) (out res : List Bytes) (len n : ℕ)
    → i + suc (length buf) ≡ total
    → total ≤ max_alloc
    → uvarint buf ≡ some (len, n)
    → parse_from (suc f) total i (tag ∷ buf) out ≡ ret res
    → (tag ≡ 0x0A)
      × (n + len ≤ length buf)
      × (parse_from f total
            (i + 1 + n + len)
            (drop len (drop n buf))
            (out ++ take len (drop n buf) ∷ [])
          ≡ ret res)
unfolding parse_from uvarint
parse_from_round f total i tag buf out res len n e lt read h = ground (
  arith,
  uvarint_from-le 0 buf len n read,
  check_length-ret (i + 1 + n) len total
      (parse_from f total (i + 1 + n + len) (drop len (drop n buf))
        (out ++ take len (drop n buf) ∷ []))
      res,
)

parse_from_sound :
    (f total i : ℕ) (rest : Bytes) (out res : List Bytes)
    → i + length rest ≡ total
    → total ≤ max_alloc
    → parse_from f total i rest out ≡ ret res
    → (hs : List Bytes) × (res ≡ out ++ hs) × Records rest hs
parse_from_sound zero total i rest out res e lt h = absurd (unfold parse_from in cc)
parse_from_sound (suc f) total i [] out res e lt h =
    ([], unfold parse_from in ground (arith, append-nil out), none_left)
parse_from_sound (suc f) total i (tag ∷ buf) out res e lt h = elim (Option-cases (uvarint buf)) [
  | inl no_varint ↦ absurd (unfold parse_from in ground arith)
  | inr ((len, n), read) ↦
      let (is_tag, fits, next) = parse_from_round f total i tag buf out res len n e lt read h in
      let body = drop len (drop n buf) in
      let (hs, split, records) =
        parse_from_sound f total (i + 1 + n + len) body (out ++ take len (drop n buf) ∷ []) res
          (omega (arith, length-drop len (drop n buf), length-drop n buf)) lt next in
      (
        take len (drop n buf) ∷ hs,
        split ∙ append_assoc out (take len (drop n buf) ∷ []) hs,
        subst (λ t. Records (t ∷ buf) (take len (drop n buf) ∷ hs)) (sym is_tag)
            (one_more buf len n hs read fits records),
      )
]

-- What is returned for metadata of at most 2^48 bytes are the records that it consists of: nothing
-- is skipped, cut short or left over.
pub parse_chunk_hashes_sound :
    (metadata : Bytes) (hashes : List Bytes)
    → length metadata ≤ max_alloc
    → parse_chunk_hashes metadata ≡ ret hashes
    → Records metadata hashes
unfolding parse_chunk_hashes
parse_chunk_hashes_sound metadata hashes fits h =
    let (hs, split, records) =
      parse_from_sound (suc (length metadata)) (length metadata) 0 metadata [] hashes (omega arith)
        fits h in
    subst (Records metadata) (sym split) records

parse_from_framed :
    (f total i : ℕ) (w h rest : Bytes) (out : List Bytes)
    → uvarint (w ++ (h ++ rest)) ≡ some (length h, length w)
    → i + suc (length w + (length h + length rest)) ≡ total
    → total ≤ max_alloc
    → parse_from (suc f) total i (0x0A ∷ (w ++ (h ++ rest))) out
      ≡ parse_from f total (i + 1 + length w + length h) rest (out ++ h ∷ [])
unfolding parse_from
parse_from_framed f total i w h rest out read e le =
    rw (read, parse_from)
      (rw (drop-append w (h ++ rest), drop-append h rest, take-append h rest)
        (check_length-short (i + 1 + length w) (length h) total
          (parse_from f total (i + 1 + length w + length h) rest (out ++ h ∷ [])) (omega arith) le
          (omega arith)))

length-encode_hashes :
    (h : Bytes) (hs : List Bytes)
    → length (encode_hashes (h ∷ hs))
      ≡ suc (length (put_uvarint [] (length h)) + (length h + length (encode_hashes hs)))
unfolding encode_hashes put_bytes
length-encode_hashes h hs = omega (
  arith,
  ap length (append_assoc (put_uvarint [] (length h)) h (encode_hashes hs)),
  length-append (put_uvarint [] (length h)) (h ++ encode_hashes hs),
  length-append h (encode_hashes hs),
)

encode_hashes-append :
    (h : Bytes) (hs : List Bytes) (rest : Bytes)
    → encode_hashes (h ∷ hs) ++ rest
      ≡ 0x0A ∷ (put_uvarint [] (length h) ++ (h ++ (encode_hashes hs ++ rest)))
unfolding encode_hashes put_bytes
encode_hashes-append h hs rest = simp append_assoc

-- The rounds over written records, whatever follows them.
pub parse_from-encode :
    (f total i : ℕ) (hs : List Bytes) (rest : Bytes) (out : List Bytes)
    → length (encode_hashes hs) ≤ f
    → i + length (encode_hashes hs ++ rest) ≡ total
    → total ≤ max_alloc
    → (g : ℕ) × (f ≤ g + length (encode_hashes hs))
      × (parse_from f total i (encode_hashes hs ++ rest) out
          ≡ parse_from g total (i + length (encode_hashes hs)) rest (out ++ hs))
parse_from-encode f total i [] rest out le e fits =
    (f, unfold encode_hashes in omega arith, unfold encode_hashes in rw (add-zero, append-nil))
parse_from-encode zero total i (h ∷ hs) rest out le e fits =
    absurd (omega (arith, length-encode_hashes h hs))
parse_from-encode (suc f) total i (h ∷ hs) rest out le e fits =
    let w = put_uvarint [] (length h) in
    let tail = encode_hashes hs ++ rest in
    let len = length-encode_hashes h hs in
    let len' = length-append (encode_hashes (h ∷ hs)) rest in
    let len'' = length-append (encode_hashes hs) rest in
    let (g, enough, eq) =
      parse_from-encode f total (i + 1 + length w + length h) hs rest (out ++ h ∷ []) (omega arith)
        (omega arith) fits in
    (
      g,
      omega arith,
      ap (λ t. parse_from (suc f) total i t out) (encode_hashes-append h hs rest)
          ∙ parse_from_framed f total i w h tail out
              (uvarint-put (length h) (h ++ tail) (omega arith)) (omega arith) fits
          ∙ eq
          ∙ ap₂ (λ n o. parse_from g total n rest o) (omega arith) (append_assoc out (h ∷ []) hs),
    )

parse_from_end : (f total i : ℕ) (out : List Bytes) → 0 < f → parse_from f total i [] out ≡ ret out
unfolding parse_from
parse_from_end zero total i out h = absurd (omega arith)
parse_from_end (suc f) total i out h = refl

-- The metadata written for a list of hashes, if it has at most 2^48 bytes, is read back as that list.
parse-encode_hashes :
    (hashes : List Bytes)
    → length (encode_hashes hashes) ≤ max_alloc
    → parse_chunk_hashes (encode_hashes hashes) ≡ ret hashes
unfolding parse_chunk_hashes
parse-encode_hashes hashes fits =
    let n = length (encode_hashes hashes) in
    let (g, enough, eq) =
      parse_from-encode (suc n) n 0 hashes [] [] (omega arith)
        (omega (arith, ap length (append-nil (encode_hashes hashes)))) fits in
    ap (λ t. parse_from (suc n) n 0 t []) (sym (append-nil (encode_hashes hashes)))
    ∙ eq
    ∙ parse_from_end g n (0 + n) hashes (omega arith)
