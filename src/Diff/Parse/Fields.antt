-- ===== src/Diff/Parse/Fields.antt =====
-- Bodies that the encoders write, read back by the parsers.
use malcom.Prelude.{
  ℕ, suc, ◌+◌, ◌-◌, ◌%◌, ◌^◌, ◌<◌, ◌≡◌, refl, sym, ap, subst, ◌∙◌, true, [], ◌∷◌, ◌++◌,
  append_assoc, append-nil, Bytes, Option, some, none, arith, length, get_elem?, length-append, leb,
  Outcome, ret, and_then, if_split,
}
use malcom.Fetch.Metadata.{extends_past}
use malcom.Import.SnapItem.{ItemError, find_field, slice, skip_field}
use malcom.Import.CommitInfo.Fields.{
  number, counted, uvarint_at-number, slice-middle, find_on, skip_counted, get_elem?-append,
}
use malcom.Diff.Wire.{enc_bytes_field, encode_leaf}
use malcom.Diff.Parse.{
  span_at, with_span, key_value_from, parse_iavl_key_value, is_leaf_iavl, height_is_zero,
}

module _ (pre : Bytes) (tag : ℕ) (b rest : Bytes) where
  -- A length-delimited field in the middle of a body, and the body split behind its tag.
  abbrev body : Bytes
  body = pre ++ tag ∷ (counted b ++ rest)

  split : (pre ++ tag ∷ []) ++ (number (length b) ++ (b ++ rest)) ≡ body
  split =
      append_assoc pre (tag ∷ []) (number (length b) ++ (b ++ rest))
      ∙ ap (λ (bs : Bytes). pre ++ tag ∷ bs) (sym (append_assoc (number (length b)) b rest))

  length-body : length body ≡ length pre + suc (length (number (length b)) + length b + length rest)
  length-body = omega (
    arith,
    length-append pre (tag ∷ (counted b ++ rest)),
    length-append (counted b) rest,
    length-append (number (length b)) b,
  )

  front : length (pre ++ tag ∷ []) ≡ length pre + 1
  front = length-append pre (tag ∷ [])

  span_at-counted :
      length body < 2 ^ 63
      → span_at body (length pre + 1) ≡ some (length pre + 1 + length (number (length b)), length b)
  unfolding span_at
  span_at-counted small =
      subst (λ (i : ℕ). span_at body i ≡ some (i + length (number (length b)), length b)) front
        (subst
          (λ (bs : Bytes).
            span_at bs (length (pre ++ tag ∷ []))
            ≡ some (length (pre ++ tag ∷ []) + length (number (length b)), length b))
          split
          (rw
            (
              uvarint_at-number (pre ++ tag ∷ []) (length b) (b ++ rest)
                  (omega (arith, length-body)),
              span_at,
            )
            (if_split
              (λ (o : Option (ℕ × ℕ)).
                o ≡ some (length (pre ++ tag ∷ []) + length (number (length b)), length b))
              (extends_past (length (pre ++ tag ∷ []) + length (number (length b))) (length b)
                (length ((pre ++ tag ∷ []) ++ (number (length b) ++ (b ++ rest)))))
              (λ t. absurd (ground (arith, ap length split, length-body, front))) (λ f. refl))))

  pub slice-counted :
      length body < 2 ^ 63
      → slice body (length pre + 1 + length (number (length b))) (length b) ≡ ret (some b)
  slice-counted small =
      let before = (pre ++ tag ∷ []) ++ number (length b) in
      let place : length before ≡ length pre + 1 + length (number (length b)) =
        omega (arith, length-append (pre ++ tag ∷ []) (number (length b)), front) in
      let whole : before ++ (b ++ rest) ≡ body =
        append_assoc (pre ++ tag ∷ []) (number (length b)) (b ++ rest) ∙ split in
      subst (λ (i : ℕ). slice body i (length b) ≡ ret (some b)) place
        (subst (λ (bs : Bytes). slice bs (length before) (length b) ≡ ret (some b)) whole
          (slice-middle before b rest (omega (arith, place, length-body))))

  pub with_span-counted :
      {A : Type 0} (out : A) (k : Bytes → ℕ → Outcome ItemError A)
      → length body < 2 ^ 63
      → with_span body (span_at body (length pre + 1)) out k ≡ k b (length (pre ++ tag ∷ counted b))
  with_span-counted out k small =
      let total : length (pre ++ tag ∷ counted b)
          ≡ length pre + 1 + length (number (length b)) + length b =
        omega (arith, length-append pre (tag ∷ counted b), length-append (number (length b)) b) in
      let wrapped : (length pre + 1 + length (number (length b)) + length b) % 2 ^ 64
          ≡ length (pre ++ tag ∷ counted b) =
        omega (arith, total, length-body) in
      rw (span_at-counted small) (rw (slice-counted small) (ap (k b) wrapped))

  pub get_elem?-body : get_elem? body (length pre) ≡ some tag
  get_elem?-body = get_elem?-append pre tag (counted b ++ rest)

  pub skip-counted :
      length body < 2 ^ 63
      → tag % 8 ≡ 2
      → skip_field body tag (length pre + 1) ≡ some (length (pre ++ tag ∷ counted b))
  skip-counted small wire =
      let total : length (pre ++ tag ∷ []) + length (number (length b)) + length b
          ≡ length (pre ++ tag ∷ counted b) =
        omega (
          arith,
          length-append pre (tag ∷ counted b),
          length-append (number (length b)) b,
          front,
        ) in
      subst (λ (i : ℕ). skip_field body tag i ≡ some (length (pre ++ tag ∷ counted b))) front
        (subst
          (λ (bs : Bytes).
            skip_field bs tag (length (pre ++ tag ∷ [])) ≡ some (length (pre ++ tag ∷ counted b)))
          split
          (skip_counted (pre ++ tag ∷ []) tag b rest wire (omega (arith, length-body, front))
            ∙ ap some total))

get_elem?-end : (bs : Bytes) → get_elem? bs (length bs) ≡ none
get_elem?-end [] = refl
get_elem?-end (b ∷ bs) = get_elem?-end bs

module _ (pre : Bytes) (tag : ℕ) (b : Bytes) where
  get_elem?-behind :
      get_elem? (pre ++ tag ∷ (counted b ++ [])) (length (pre ++ tag ∷ counted b)) ≡ none
  get_elem?-behind =
      subst (λ (bs : Bytes). get_elem? (pre ++ tag ∷ bs) (length (pre ++ tag ∷ counted b)) ≡ none)
        (sym (append-nil (counted b))) (get_elem?-end (pre ++ tag ∷ counted b))

module _ (pre b rest key value : Bytes) (f : ℕ) where
  key_step :
      length (pre ++ 10 ∷ (counted b ++ rest)) < 2 ^ 63
      → key_value_from (suc f) (pre ++ 10 ∷ (counted b ++ rest)) (length pre) key value
        ≡ key_value_from f
            (pre ++ 10 ∷ (counted b ++ rest))
            (length (pre ++ 10 ∷ counted b))
            b
            value
  unfolding key_value_from
  key_step small = rw (get_elem?-body pre 10 b rest) (
      if_split
        (λ (o : Outcome ItemError (Bytes × Bytes)).
          o
          ≡ key_value_from f (pre ++ 10 ∷ (counted b ++ rest)) (length (pre ++ 10 ∷ counted b)) b
              value)
        (leb (2 ^ 63) (length pre)) (λ t. absurd (ground (arith, length-body pre 10 b rest)))
        (λ _.
          with_span-counted pre 10 b rest (key, value)
            (λ (x : Bytes) (j : ℕ). key_value_from f (pre ++ 10 ∷ (counted b ++ rest)) j x value)
            small))

  value_step :
      length (pre ++ 18 ∷ (counted b ++ rest)) < 2 ^ 63
      → key_value_from (suc f) (pre ++ 18 ∷ (counted b ++ rest)) (length pre) key value
        ≡ key_value_from f (pre ++ 18 ∷ (counted b ++ rest)) (length (pre ++ 18 ∷ counted b)) key b
  unfolding key_value_from
  value_step small = rw (get_elem?-body pre 18 b rest) (
      if_split
        (λ (o : Outcome ItemError (Bytes × Bytes)).
          o
          ≡ key_value_from f (pre ++ 18 ∷ (counted b ++ rest)) (length (pre ++ 18 ∷ counted b)) key
              b)
        (leb (2 ^ 63) (length pre)) (λ t. absurd (ground (arith, length-body pre 18 b rest)))
        (λ _.
          with_span-counted pre 18 b rest (key, value)
            (λ (x : Bytes) (j : ℕ). key_value_from f (pre ++ 18 ∷ (counted b ++ rest)) j key x)
            small))

module _ (buf : Bytes) (i : ℕ) (e : get_elem? buf i ≡ none) (small : i < 2 ^ 63) where
  key_value-end :
      (f : ℕ) (key value : Bytes) → key_value_from (suc f) buf i key value ≡ ret (key, value)
  unfolding key_value_from
  key_value-end f key value = rw e (ground arith)

  find_miss : (f want : ℕ) → find_field (suc f) want buf i ≡ ret none
  unfolding find_field
  find_miss f want = rw e (ground arith)

module _ (k v : Bytes) where
  abbrev leaf : Bytes
  leaf = 10 ∷ (counted k ++ 18 ∷ (counted v ++ []))

  abbrev leaf_end : ℕ
  leaf_end = length ((10 ∷ counted k) ++ 18 ∷ counted v)

  leaf_end-lt : length leaf < 2 ^ 63 → leaf_end < 2 ^ 63
  leaf_end-lt small =
      subst (λ (bs : Bytes). length ((10 ∷ counted k) ++ 18 ∷ bs) < 2 ^ 63) (append-nil (counted v))
        small

  key_value-leaf :
      (f : ℕ) → length leaf < 2 ^ 63 → key_value_from (suc (suc (suc f))) leaf 0 [] [] ≡ ret (k, v)
  key_value-leaf f small =
      key_step [] k (18 ∷ (counted v ++ [])) [] [] (suc (suc f)) small
      ∙ value_step (10 ∷ counted k) v [] k [] (suc f) small
      ∙ key_value-end leaf leaf_end (get_elem?-behind (10 ∷ counted k) 18 v) (leaf_end-lt small) f k
          v

  find_height-leaf :
      (f : ℕ) → length leaf < 2 ^ 63 → find_field (suc (suc (suc f))) 32 leaf 0 ≡ ret none
  find_height-leaf f small =
      find_on (suc (suc f)) 32 10 leaf 0 (length (10 ∷ counted k)) (omega arith) refl (omega arith)
        (skip-counted [] 10 k (18 ∷ (counted v ++ [])) small refl)
      ∙ find_on (suc f) 32 18 leaf (length (10 ∷ counted k)) leaf_end
          (omega (arith, length-body (10 ∷ counted k) 18 v []))
          (get_elem?-body (10 ∷ counted k) 18 v []) (omega arith)
          (subst (λ (i : ℕ). skip_field leaf 18 i ≡ some leaf_end) refl
            (skip-counted (10 ∷ counted k) 18 v [] small refl))
      ∙ find_miss leaf leaf_end (get_elem?-behind (10 ∷ counted k) 18 v) (leaf_end-lt small) f 32

  rounds : length leaf ≡ suc (suc (length leaf - 2))
  rounds = omega (arith, length-body (10 ∷ counted k) 18 v [])

-- The leaf that `emit` is given for a key and a value.
leaf_lem : (k v : Bytes) → encode_leaf k v ≡ leaf k v
unfolding encode_leaf enc_bytes_field
leaf_lem k v = refl

-- A leaf that apply writes, below 2^63 bytes, is a leaf to the differ, which reads its key and its value
-- back from it.
pub parse-encode_leaf :
    (k v : Bytes)
    → length (encode_leaf k v) < 2 ^ 63
    → (parse_iavl_key_value (encode_leaf k v) ≡ ret (k, v))
      × (is_leaf_iavl (encode_leaf k v) ≡ ret true)
unfolding parse_iavl_key_value is_leaf_iavl
parse-encode_leaf k v small =
    let fits : length (leaf k v) < 2 ^ 63 =
      subst (λ (bs : Bytes). length bs < 2 ^ 63) (leaf_lem k v) small in
    subst
      (λ (bs : Bytes).
        (key_value_from (suc (length bs)) bs 0 [] [] ≡ ret (k, v))
        × (and_then (find_field (suc (length bs)) 32 bs 0) (height_is_zero bs) ≡ ret true))
      (sym (leaf_lem k v))
      (subst
        (λ (n : ℕ).
          (key_value_from (suc n) (leaf k v) 0 [] [] ≡ ret (k, v))
          × (and_then (find_field (suc n) 32 (leaf k v) 0) (height_is_zero (leaf k v)) ≡ ret true))
        (sym (rounds k v))
        (
          key_value-leaf k v (length (leaf k v) - 2) fits,
          ap (λ (o : Outcome ItemError (Option ℕ)). and_then o (height_is_zero (leaf k v)))
              (find_height-leaf k v (length (leaf k v) - 2) fits),
        ))
