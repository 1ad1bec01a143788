-- ===== src/Import/Encoding/Keys.antt =====
-- The database keys of a store: which of them can meet.
use malcom.Prelude.{
  ℕ, zero, suc, ◌+◌, ◌*◌, ◌/◌, ◌%◌, ◌^◌, ◌<◌, ◌≡◌, ◌≢◌, refl, sym, ap, ◌∙◌, List, [], ◌∷◌, ◌++◌,
  Bytes, arith, length, length-append, take, drop, get_or,
}
use malcom.Import.Encoding.{big_endian, node_key, node_db_key, metadata_db_key}

-- The number that the bytes stand for.
big_endian_value : ℕ → Bytes → ℕ
big_endian_value acc [] = acc
big_endian_value acc (b ∷ bs) = big_endian_value (acc * 256 + b) bs

value-snoc :
    (acc : ℕ) (bs : Bytes) (b : ℕ)
    → big_endian_value acc (bs ++ b ∷ []) ≡ big_endian_value acc bs * 256 + b
unfolding big_endian_value
value-snoc acc [] b = refl
value-snoc acc (c ∷ bs) b = value-snoc (acc * 256 + c) bs b

abbrev width : ℕ → ℕ
width zero = 1
width (suc n) = 256 * width n

value-big_endian : (n x : ℕ) → x < width n → big_endian_value 0 (big_endian n x) ≡ x
unfolding big_endian big_endian_value
value-big_endian zero x h = omega arith
value-big_endian (suc n) x h =
    value-snoc 0 (big_endian n (x / 256)) (x % 256)
    ∙ omega (arith, value-big_endian n (x / 256) (omega arith))

big_endian_injective :
    (n x y : ℕ) → x < width n → y < width n → big_endian n x ≡ big_endian n y → x ≡ y
big_endian_injective n x y hx hy e =
    sym (value-big_endian n x hx) ∙ ap (big_endian_value 0) e ∙ value-big_endian n y hy

length-big_endian : (n x : ℕ) → length (big_endian n x) ≡ n
unfolding big_endian
length-big_endian zero x = refl
length-big_endian (suc n) x =
    length-append (big_endian n (x / 256)) (x % 256 ∷ [])
    ∙ omega (arith, length-big_endian n (x / 256))

module _ {A : Type 0} where
  append_cancel : (p xs ys : List A) → p ++ xs ≡ p ++ ys → xs ≡ ys
  append_cancel [] xs ys e = e
  append_cancel (a ∷ p) xs ys e = append_cancel p xs ys (ap (drop 1) e)

split :
    (n : ℕ) (xs ys us vs : Bytes)
    → length xs ≡ n
    → length us ≡ n
    → xs ++ ys ≡ us ++ vs
    → (xs ≡ us) × (ys ≡ vs)
split zero [] ys [] vs hx hu e = (refl, e)
split zero [] ys (u ∷ us) vs hx hu e = absurd (omega arith)
split zero (x ∷ xs) ys us vs hx hu e = absurd (omega arith)
split (suc n) [] ys us vs hx hu e = absurd (omega arith)
split (suc n) (x ∷ xs) ys [] vs hx hu e = absurd (omega arith)
split (suc n) (x ∷ xs) ys (u ∷ us) vs hx hu e =
    let (heads, tails) = split n xs ys us vs (omega arith) (omega arith) (ap (drop 1) e) in
    (ground (arith, heads, ap (take 1) e), tails)

-- Two nodes of one store have the same key only if they have the same version and the same nonce.
pub node_db_key_injective :
    (prefix : Bytes) (version nonce version' nonce' : ℕ)
    → version < 2 ^ 64
    → version' < 2 ^ 64
    → nonce < 2 ^ 32
    → nonce' < 2 ^ 32
    → node_db_key prefix version nonce ≡ node_db_key prefix version' nonce'
    → (version ≡ version') × (nonce ≡ nonce')
unfolding node_db_key node_key
node_db_key_injective prefix version nonce version' nonce' hv hv' hn hn' e =
    let tails =
      ap (drop 1) (append_cancel prefix (node_key version nonce) (node_key version' nonce') e) in
    let (vs, ns) =
      split 8 (big_endian 8 version) (big_endian 4 nonce) (big_endian 8 version')
        (big_endian 4 nonce') (length-big_endian 8 version) (length-big_endian 8 version') tails in
    (
      big_endian_injective 8 version version' (omega arith) (omega arith) vs,
      big_endian_injective 4 nonce nonce' (omega arith) (omega arith) ns,
    )

-- The key of a node is never the key of a metadata entry.
pub node_db_key-ne-metadata :
    (prefix : Bytes) (version nonce : ℕ) (meta_key : Bytes)
    → metadata_db_key prefix meta_key ≢ node_db_key prefix version nonce
unfolding node_db_key node_key metadata_db_key
node_db_key-ne-metadata prefix version nonce meta_key e =
    let tails = append_cancel prefix (b'm' ∷ meta_key) (node_key version nonce) e in
    let heads : ◌≡◌ {A = ℕ} b'm' b's' = ap (λ bs. get_or bs 0 0) tails in
    absurd (omega (arith, heads))
