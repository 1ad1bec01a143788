-- ===== src/Import/CommitInfo/Fields.antt =====
-- Protobuf fields, written by the encoders and found by the package's own reader.
use malcom.Prelude.{
  ℕ, suc, ◌+◌, ◌*◌, ◌%◌, ◌^◌, ◌<◌, ◌≡◌, refl, sym, ap, subst, ◌≢◌, ◌-◌, ◌∙◌, [], ◌∷◌, ◌++◌,
  append_assoc, append-nil, Bytes, Option, some, arith, length, get_elem?, drop, length-append,
  take-append, drop-append, Outcome, ret, and_then, if_split,
}
use malcom.Fetch.Metadata.{extends_past}
use malcom.Varint.{uvarint, put_uvarint, put_bytes}
use malcom.Varint.RoundTrip.{uvarint-put}
use malcom.Import.SnapItem.{
  ItemError, find_field, field_at, varint_at, slice, skip_field, get_bytes_field, get_varint_field,
}
use malcom.Import.CommitInfo.{append_uvarint_field, append_bytes_field}

-- A number's and a byte string's encoding.
abbrev pub number : ℕ → Bytes
number v = put_uvarint [] v

abbrev pub counted : Bytes → Bytes
counted b = number (length b) ++ b

pub append_uvarint_field_lem :
    (dst : Bytes) (field v : ℕ)
    → append_uvarint_field dst field v ≡ dst ++ (field * 8 % 256) ∷ number v
unfolding append_uvarint_field put_uvarint
append_uvarint_field_lem dst field v = append_assoc dst (field * 8 % 256 ∷ []) (put_uvarint [] v)

pub append_bytes_field_lem :
    (dst : Bytes) (field : ℕ) (b : Bytes)
    → append_bytes_field dst field b ≡ dst ++ (field * 8 % 256 + 2) ∷ counted b
unfolding append_bytes_field put_bytes put_uvarint
append_bytes_field_lem dst field b = simp append_assoc

pub uvarint_at-number :
    (pre : Bytes) (v : ℕ) (rest : Bytes)
    → v < 2 ^ 64
    → uvarint (drop (length pre) (pre ++ (number v ++ rest))) ≡ some (v, length (number v))
uvarint_at-number pre v rest h =
    ap uvarint (drop-append pre (number v ++ rest)) ∙ uvarint-put v rest h

pub varint_at-number :
    (pre : Bytes) (v : ℕ) (rest : Bytes)
    → v < 2 ^ 64
    → varint_at (pre ++ (number v ++ rest)) (some (length pre)) ≡ ret v
varint_at-number pre v rest h = rw (varint_at, uvarint_at-number pre v rest h) refl

pub slice-middle :
    (pre b rest : Bytes)
    → length pre + length b + length rest < 2 ^ 63
    → slice (pre ++ (b ++ rest)) (length pre) (length b) ≡ ret (some b)
unfolding slice
slice-middle pre b rest h =
    let high : (length pre + length b) % 2 ^ 64 ≡ length pre + length b = omega arith in
    let total : length (pre ++ (b ++ rest)) ≡ length pre + (length b + length rest) =
      omega (arith, length-append pre (b ++ rest), length-append b rest) in
    let span : (length pre + length b) - length pre ≡ length b = omega arith in
    rw (high, total, drop-append pre (b ++ rest), span, take-append b rest) (ground arith)

field_at-counted :
    (pre b rest : Bytes)
    → length pre + length (number (length b)) + length b + length rest < 2 ^ 63
    → field_at (pre ++ (number (length b) ++ (b ++ rest))) (some (length pre)) ≡ ret (some b)
field_at-counted pre b rest h =
    let n = number (length b) in
    let whole : pre ++ (n ++ (b ++ rest)) ≡ (pre ++ n) ++ (b ++ rest) =
      sym (append_assoc pre n (b ++ rest)) in
    let front : length (pre ++ n) ≡ length pre + length n = length-append pre n in
    let total : length (pre ++ (n ++ (b ++ rest)))
        ≡ length pre + (length n + (length b + length rest)) =
      omega (
        arith,
        length-append pre (n ++ (b ++ rest)),
        length-append n (b ++ rest),
        length-append b rest,
      ) in
    let sliced = slice-middle (pre ++ n) b rest (omega (arith, front)) in
    rw (field_at, uvarint_at-number pre (length b) (b ++ rest) (omega arith))
      (if_split (λ (o : Outcome ItemError (Option Bytes)). o ≡ ret (some b))
        (extends_past (length pre + length n) (length b) (length (pre ++ (n ++ (b ++ rest)))))
        (λ t. absurd (ground (arith, total)))
        (λ f.
          subst (λ (m : ℕ). slice (pre ++ (n ++ (b ++ rest))) m (length b) ≡ ret (some b)) front
            (subst (λ (buf : Bytes). slice buf (length (pre ++ n)) (length b) ≡ ret (some b))
              (sym whole) sliced)))

-- The search stops at the wanted tag, and goes on behind another field.
pub find_hit :
    (f want : ℕ) (buf : Bytes) (i : ℕ)
    → i < 2 ^ 63
    → get_elem? buf i ≡ some want
    → find_field (suc f) want buf i ≡ ret (some (i + 1))
unfolding find_field
find_hit f want buf i h e = rw e (ground arith)

pub find_on :
    (f want tag : ℕ) (buf : Bytes) (i j : ℕ)
    → i < 2 ^ 63
    → get_elem? buf i ≡ some tag
    → tag ≢ want
    → skip_field buf tag (i + 1) ≡ some j
    → find_field (suc f) want buf i ≡ find_field f want buf j
unfolding find_field
find_on f want tag buf i j h e ne sk = rw (e, sk) (ground arith)

skip_number :
    (pre : Bytes) (tag v : ℕ) (rest : Bytes)
    → v < 2 ^ 64
    → tag % 8 ≡ 0
    → skip_field (pre ++ (number v ++ rest)) tag (length pre)
      ≡ some (length pre + length (number v))
unfolding skip_field
skip_number pre tag v rest h wire = rw (wire, uvarint_at-number pre v rest h) refl

pub skip_counted :
    (pre : Bytes) (tag : ℕ) (b rest : Bytes)
    → tag % 8 ≡ 2
    → length pre + length (number (length b)) + length b + length rest < 2 ^ 63
    → skip_field (pre ++ (number (length b) ++ (b ++ rest))) tag (length pre)
      ≡ some (length pre + length (number (length b)) + length b)
unfolding skip_field
skip_counted pre tag b rest wire h =
    let n = number (length b) in
    let total : length (pre ++ (n ++ (b ++ rest)))
        ≡ length pre + (length n + (length b + length rest)) =
      omega (
        arith,
        length-append pre (n ++ (b ++ rest)),
        length-append n (b ++ rest),
        length-append b rest,
      ) in
    rw (wire, uvarint_at-number pre (length b) (b ++ rest) (omega arith), total) (ground arith)

pub get_elem?-append :
    (pre : Bytes) (x : ℕ) (rest : Bytes) → get_elem? (pre ++ x ∷ rest) (length pre) ≡ some x
get_elem?-append [] x rest = refl
get_elem?-append (y ∷ pre) x rest = get_elem?-append pre x rest

-- A byte field behind one other field.
second_bytes :
    (tag want : ℕ) (body b : Bytes)
    → let buf = tag ∷ (body ++ want ∷ counted b) in
      length buf < 2 ^ 63
      → tag ≢ want
      → skip_field buf tag 1 ≡ some (suc (length body))
      → and_then (find_field (suc (length buf)) want buf 0) (field_at buf) ≡ ret (some b)
second_bytes tag want body b h ne sk =
    let buf = tag ∷ (body ++ want ∷ counted b) in
    let pre = tag ∷ (body ++ want ∷ []) in
    let whole : pre ++ (counted b ++ []) ≡ buf =
      ap (λ (bs : Bytes). tag ∷ bs) (append_assoc body (want ∷ []) (counted b ++ []))
      ∙ ap (λ (bs : Bytes). tag ∷ (body ++ want ∷ bs)) (append-nil (counted b)) in
    let total : length buf ≡ suc (length body + suc (length (number (length b)) + length b)) =
      omega (arith, length-append body (want ∷ counted b), length-append (number (length b)) b) in
    let longer : length (body ++ want ∷ counted b)
        ≡ suc (length body + (length (number (length b)) + length b)) =
      omega (arith, total) in
    let found : find_field (suc (length buf)) want buf 0 ≡ ret (some (suc (length body) + 1)) =
      find_on (length buf) want tag buf 0 (suc (length body)) (omega arith) refl ne sk
      ∙ find_hit (length (body ++ want ∷ counted b)) want buf (suc (length body))
          (omega (arith, total)) (get_elem?-append body want (counted b)) in
    let place : length pre ≡ suc (length body) + 1 =
      omega (arith, length-append body (want ∷ [])) in
    let got : field_at (pre ++ (counted b ++ [])) (some (length pre)) ≡ ret (some b) =
      ap (λ (bs : Bytes). field_at (pre ++ bs) (some (length pre)))
        (append_assoc (number (length b)) b [])
      ∙ field_at-counted pre b [] (omega (arith, total, place)) in
    rw found (
      subst (λ (i : ℕ). field_at buf (some i) ≡ ret (some b)) place
        (subst (λ (bs : Bytes). field_at bs (some (length pre)) ≡ ret (some b)) whole got))

first_bytes :
    (want : ℕ) (b rest : Bytes)
    → let buf = want ∷ (number (length b) ++ (b ++ rest)) in
      length buf < 2 ^ 63
      → and_then (find_field (suc (length buf)) want buf 0) (field_at buf) ≡ ret (some b)
first_bytes want b rest h =
    let n = number (length b) in
    let buf = want ∷ (n ++ (b ++ rest)) in
    let total : length buf ≡ suc (length n + (length b + length rest)) =
      omega (arith, length-append n (b ++ rest), length-append b rest) in
    rw (find_hit (length buf) want buf 0 (omega arith) refl)
      (field_at-counted (want ∷ []) b rest (omega (arith, total)))

pub first_number :
    (v : ℕ) (rest : Bytes) → v < 2 ^ 64 → get_varint_field (8 ∷ (number v ++ rest)) 1 ≡ ret v
unfolding get_varint_field
first_number v rest h =
    let buf = 8 ∷ (number v ++ rest) in
    ap (λ (o : Outcome ItemError (Option ℕ)). and_then o (varint_at buf))
      (find_hit (length buf) 8 buf 0 (omega arith) refl)
    ∙ varint_at-number (8 ∷ []) v rest h

pub bytes_behind_number :
    (v : ℕ) (b : Bytes)
    → v < 2 ^ 64
    → length (8 ∷ (number v ++ 18 ∷ counted b)) < 2 ^ 63
    → get_bytes_field (8 ∷ (number v ++ 18 ∷ counted b)) 2 ≡ ret (some b)
unfolding get_bytes_field
bytes_behind_number v b h fits =
    second_bytes 8 18 (number v) b fits (omega arith)
      (skip_number (8 ∷ []) 8 v (18 ∷ counted b) h refl ∙ ap some (omega arith))

pub bytes_before :
    (b rest : Bytes)
    → length (10 ∷ (counted b ++ rest)) < 2 ^ 63
    → get_bytes_field (10 ∷ (counted b ++ rest)) 1 ≡ ret (some b)
unfolding get_bytes_field
bytes_before b rest fits =
    let split = append_assoc (number (length b)) b rest in
    subst
      (λ (bs : Bytes).
        and_then (find_field (suc (length (10 ∷ bs))) 10 (10 ∷ bs) 0) (field_at (10 ∷ bs))
        ≡ ret (some b))
      (sym split)
      (first_bytes 10 b rest (subst (λ (bs : Bytes). length (10 ∷ bs) < 2 ^ 63) split fits))

pub bytes_behind_bytes :
    (a b : Bytes)
    → length (10 ∷ (counted a ++ 18 ∷ counted b)) < 2 ^ 63
    → get_bytes_field (10 ∷ (counted a ++ 18 ∷ counted b)) 2 ≡ ret (some b)
unfolding get_bytes_field
bytes_behind_bytes a b fits =
    let n = number (length a) in
    let rest = 18 ∷ counted b in
    let split = append_assoc n a rest in
    let total : suc (length n + (length a + length rest)) < 2 ^ 63 =
      omega (arith, length-append (n ++ a) rest, length-append n a) in
    second_bytes 10 18 (counted a) b fits (omega arith) (
      ap (λ (bs : Bytes). skip_field (10 ∷ bs) 10 1) split
      ∙ skip_counted (10 ∷ []) 10 a rest refl (omega (arith, total))
      ∙ ap some (omega (arith, length-append n a)))
