-- ===== src/Diff/Stream/RoundTrip.antt =====
-- The records of a diff that `emit` writes, read back from its body.
use malcom.Prelude.{
  ℕ, suc, ◌+◌, ◌-◌, ◌*◌, ◌%◌, ◌^◌, ◌≤◌, ◌<◌, ◌≡◌, refl, sym, ap, subst, ◌∙◌, true, false, List, [],
  ◌∷◌, ◌++◌, append_assoc, append-nil, Bytes, some, none, arith, length, take, length-append,
  length-take, take-append, drop-append, ret, if_split, ltb, ◌==◌, ◌&&◌,
}
use malcom.Varint.{put_uvarint}
use malcom.Varint.RoundTrip.{uvarint-put}
use malcom.Fetch.Metadata.{max_alloc}
use malcom.Import.SnapItem.{slice}
use malcom.Import.CommitInfo.Fields.{number, counted}
use malcom.Diff.Compute.{
  insert, update, delete, DiffRecord, store_enter, change, store_leave, ext_enter, ext_leave,
  ext_add, ext_remove,
}
use malcom.Diff.Wire.{tag_of, encode_record, emit, write_records}
use malcom.Diff.Parse.Fields.{slice-counted}
use malcom.Diff.Stream.{Peeked, open_record, peek_from, peek_record, decode_record}
use malcom.Diff.Stream.Bodies.{Fits, body_of, decode-body}

-- A record with its length before it.
peek-counted :
    (f : ℕ) (rec rest : Bytes)
    → length rec ≤ max_alloc
    → 0 < length rec
    → peek_from (suc f) (number (length rec) ++ (rec ++ rest)) ≡ open_record rec rest
unfolding peek_from
peek-counted f rec rest small some_byte =
    let whole : length (number (length rec) ++ (rec ++ rest))
        ≡ length (number (length rec)) + (length rec + length rest) =
      omega (arith, length-append (number (length rec)) (rec ++ rest), length-append rec rest) in
    let e : (length (number (length rec) ++ (rec ++ rest)) == 0) ≡ false = ground (arith, whole) in
    let e0 : (length rec == 0) ≡ false = ground arith in
    let e1 : ltb max_alloc (length rec) ≡ false = ground arith in
    let e2 : ltb (length (rec ++ rest)) (length rec) ≡ false =
      ground (arith, length-append rec rest) in
    rw e (
      rw (uvarint-put (length rec) (rec ++ rest) (omega arith)) (
        rw
          (
            e0,
            e1,
            drop-append (number (length rec)) (rec ++ rest),
            e2,
            take-append rec rest,
            drop-append rec rest,
          )
          refl))

module _ (tag : ℕ) (body : Bytes) where
  abbrev message : Bytes
  message = ((tag * 8 + 2) % 256) ∷ counted body

  length-message : length message ≡ suc (length (number (length body)) + length body)
  length-message = omega (arith, length-append (number (length body)) body)

  slice-message :
      length message ≤ max_alloc
      → slice message (1 + length (number (length body))) (length body) ≡ ret (some body)
  slice-message small =
      subst
        (λ (bs : Bytes).
          slice (((tag * 8 + 2) % 256) ∷ bs) (1 + length (number (length body))) (length body)
          ≡ ret (some body))
        (append-nil (counted body))
        (slice-counted [] ((tag * 8 + 2) % 256) body []
          (omega (arith, ap length (append-nil (counted body)))))

  open_message :
      (rest : Bytes)
      → tag < 32
      → length message ≤ max_alloc
      → open_record message rest ≡ ret (some (tag, body, rest))
  unfolding open_record
  open_message rest lt small =
      rw (uvarint-put (length body) body (omega (arith, length-message)), open_record)
        (if_split (λ (o : Peeked). o ≡ ret (some (tag, body, rest)))
          (ltb (length body) (2 ^ 63)
            && ltb (length (counted body) - length (number (length body))) (length body))
          (λ t. absurd (ground (arith, length-message)))
          (λ _.
            rw (slice-message small) (ap (λ (t : ℕ). ret (some (t, body, rest))) (omega arith))))

  -- The next record of a body is the one that `emit` wrote first.
  peek-emit :
      (f : ℕ) (rest : Bytes)
      → tag < 32
      → length message ≤ max_alloc
      → peek_from (suc f) (emit message ++ rest) ≡ ret (some (tag, body, rest))
  unfolding emit
  peek-emit f rest lt small =
      subst (λ (bs : Bytes). peek_from (suc f) bs ≡ ret (some (tag, body, rest)))
        (sym (append_assoc (number (length message)) message rest))
        (peek-counted f message rest small (omega arith) ∙ open_message rest lt small)

-- The stream holds these records and then ends: peeking gives each one's tag and body, and the readers
-- of a section read the record from them.
abbrev pub Reads : Bytes → List DiffRecord → Type 0
Reads bs [] = peek_record bs ≡ ret none
Reads bs (r ∷ rs) =
    (rest : Bytes) × (peek_record bs ≡ ret (some (tag_of r, body_of r, rest)))
    × (decode_record (tag_of r) (body_of r) ≡ ret (some r))
    × Reads rest rs

abbrev pub AllFit : List DiffRecord → Type 0
AllFit [] = Unit
AllFit (r ∷ rs) = Fits r × AllFit rs

Fits-size : (r : DiffRecord) → Fits r → length (encode_record r) ≤ max_alloc
Fits-size (store_enter name) fits = fits
Fits-size store_leave fits = fits
Fits-size (change c) fits = fits
Fits-size (ext_enter name format) fits = fits.1
Fits-size ext_leave fits = fits
Fits-size (ext_add p) fits = fits
Fits-size (ext_remove p) fits = fits

tag_of-lt : (r : DiffRecord) → tag_of r < 32
tag_of-lt (store_enter name) = omega arith
tag_of-lt store_leave = omega arith
tag_of-lt (change (insert k v)) = omega arith
tag_of-lt (change (update k v)) = omega arith
tag_of-lt (change (delete k)) = omega arith
tag_of-lt (ext_enter name format) = omega arith
tag_of-lt ext_leave = omega arith
tag_of-lt (ext_add p) = omega arith
tag_of-lt (ext_remove p) = omega arith

encode_record_lem : (r : DiffRecord) → encode_record r ≡ message (tag_of r) (body_of r)
unfolding encode_record
encode_record_lem r = refl

Reads-write :
    (rs : List DiffRecord) (tail : Bytes)
    → AllFit rs
    → peek_record tail ≡ ret none
    → Reads (write_records rs ++ tail) rs
unfolding write_records peek_record
Reads-write [] tail fits ends = ends
Reads-write (r ∷ rs) tail fits ends =
    let small : length (message (tag_of r) (body_of r)) ≤ max_alloc =
      subst (λ (bs : Bytes). length bs ≤ max_alloc) (encode_record_lem r) (Fits-size r fits.0) in
    (
      write_records rs ++ tail,
      subst
          (λ (bs : Bytes).
            peek_from (suc (length bs)) bs
            ≡ ret (some (tag_of r, body_of r, write_records rs ++ tail)))
          (sym (append_assoc (emit (encode_record r)) (write_records rs) tail))
          (peek-emit (tag_of r) (body_of r)
            (length (emit (encode_record r) ++ (write_records rs ++ tail)))
            (write_records rs ++ tail) (tag_of-lt r) small),
      decode-body r fits.0 (omega (arith, length-message (tag_of r) (body_of r))),
      Reads-write rs tail fits.1 ends,
    )

nothing_left : peek_record [] ≡ ret none
unfolding peek_record peek_from
nothing_left = refl

-- A record without its last bytes.
peek-cut :
    (rec : Bytes) (n : ℕ)
    → length rec ≤ max_alloc
    → n < length rec
    → peek_record (put_uvarint [] (length rec) ++ take n rec) ≡ ret none
unfolding peek_record peek_from
peek-cut rec n small cut =
    let short : length (take n rec) ≡ n = length-take n rec (omega arith) in
    let whole : length (number (length rec) ++ take n rec) ≡ length (number (length rec)) + n =
      omega (arith, length-append (number (length rec)) (take n rec), short) in
    let e0 : (length rec == 0) ≡ false = ground arith in
    let e1 : ltb max_alloc (length rec) ≡ false = ground arith in
    let e2 : ltb (length (take n rec)) (length rec) ≡ true = ground (arith, short) in
    if_split (λ (o : Peeked). o ≡ ret none) (length (number (length rec) ++ take n rec) == 0)
      (λ _. refl)
      (λ _.
        rw (uvarint-put (length rec) (take n rec) (omega arith))
          (rw (e0, e1, drop-append (number (length rec)) (take n rec), e2) refl))

-- The records of a diff, each of which can be allocated, are read back from the body that `emit` writes
-- them to, in their order, and then the file ends.
pub read-write_records : (rs : List DiffRecord) → AllFit rs → Reads (write_records rs) rs
read-write_records rs fits =
    subst (λ (bs : Bytes). Reads bs rs) (append-nil (write_records rs))
      (Reads-write rs [] fits nothing_left)

-- A body that is cut within the bytes of a record reads as if it ended before that record: no reader
-- returns an error, and the changes behind the cut are not there.
pub read-cut :
    (rs : List DiffRecord) (r : DiffRecord) (n : ℕ)
    → AllFit rs
    → Fits r
    → n < length (encode_record r)
    → Reads
        (write_records rs
          ++ (put_uvarint [] (length (encode_record r)) ++ take n (encode_record r)))
        rs
read-cut rs r n fits fit cut =
    Reads-write rs (put_uvarint [] (length (encode_record r)) ++ take n (encode_record r)) fits
      (peek-cut (encode_record r) n (Fits-size r fit) cut)
