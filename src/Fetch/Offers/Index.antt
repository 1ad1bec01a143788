-- ===== src/Fetch/Offers/Index.antt =====
-- The index of the offers by height agrees with the offers themselves.
use malcom.Prelude.{
  ℕ, ◌≡◌, ◌≢◌, refl, sym, ap, subst, ◌∙◌, ◌⊎◌, inl, inr, Bool, true, false, List, [], ◌∷◌, ◌++◌,
  Option, none, some, Bytes, String, arith, Bool-cases,
}
use mathlib.Core.Bool.{false≢true}
use mathlib.Core.Option.{none-ne-some}
use malcom.Prelude.Map
use malcom.Prelude.Map.{
  Map, nat_key, string_key, bytes_key, bytes_equal, bytes_equal_iff, get-put_self, get-put_ne,
}
use malcom.Fetch.Metadata.{Offer}
use malcom.Fetch.Offers.{SnapshotOffer, OfferSet, snap_key, keys_at, add, entries_of, at}

abbrev IsIn : Bytes → List Bytes → Type 0
IsIn k [] = ⊥
IsIn k (j ∷ js) = (j ≡ k) ⊎ IsIn k js

-- The offer under this key has this height.
abbrev IsAt : Map Bytes SnapshotOffer → ℕ → Bytes → Type 0
IsAt m h k = (rec : SnapshotOffer) × (Map.get k m ≡ some rec) × (rec.snapshot.height ≡ h)

abbrev pub IsIndexed : OfferSet → Type 0
IsIndexed o = (h : ℕ) (k : Bytes) → IsIn k (keys_at (Map.get h o.by_height)) → IsAt o.by_key h k

IsIn-append : (k j : Bytes) (ks : List Bytes) → IsIn k (ks ++ j ∷ []) → IsIn k ks ⊎ (j ≡ k)
IsIn-append k j [] (inl e) = inr e
IsIn-append k j [] (inr e) = absurd e
IsIn-append k j (i ∷ ks) (inl e) = inl (inl e)
IsIn-append k j (i ∷ ks) (inr m) = elim (IsIn-append k j ks m) [
  | inl m' ↦ inl (inr m')
  | inr e ↦ inr e
]

bytes_dec : (j k : Bytes) → (j ≡ k) ⊎ (j ≢ k)
bytes_dec j k = elim (Bool-cases (bytes_equal j k)) [
  | inl t ↦ inl ((bytes_equal_iff j k).0 t)
  | inr f ↦ inr (λ e. false≢true (sym f ∙ (bytes_equal_iff j k).1 e))
]

nat_dec : (a b : ℕ) → (a ≡ b) ⊎ (a ≢ b)
nat_dec a b = ground arith

some_inj : {A : Type 0} {a b : A} → some a ≡ some b → a ≡ b
some_inj {a = a} e = ap (λ o. elim o [ none ↦ a | some x ↦ x ]) e

-- A write of an offer of the same height keeps what is indexed.
IsAt-put_same :
    (m : Map Bytes SnapshotOffer) (key : Bytes) (rec new : SnapshotOffer) (h : ℕ) (k : Bytes)
    → Map.get key m ≡ some rec
    → new.snapshot.height ≡ rec.snapshot.height
    → IsAt m h k
    → IsAt (Map.put key new m) h k
IsAt-put_same m key rec new h k e s (old, g, q) = elim (bytes_dec key k) [
  | inl same ↦ (
    new,
    subst (λ x. Map.get x (Map.put key new m) ≡ some new) same (get-put_self key new m),
    s
        ∙ ap (λ (x : SnapshotOffer). x.snapshot.height)
            (some_inj (sym e ∙ (ap (λ x. Map.get x m) same ∙ g)))
        ∙ q,
  )
  | inr other ↦ (old, get-put_ne k key new m other ∙ g, q)
]

-- A write at a fresh key keeps what is indexed.
IsAt-put_new :
    (m : Map Bytes SnapshotOffer) (key : Bytes) (new : SnapshotOffer) (h : ℕ) (k : Bytes)
    → Map.get key m ≡ none
    → IsAt m h k
    → IsAt (Map.put key new m) h k
IsAt-put_new m key new h k e (old, g, q) = elim (bytes_dec key k) [
  | inl same ↦ absurd (none-ne-some old (sym e ∙ (ap (λ x. Map.get x m) same ∙ g)))
  | inr other ↦ (old, get-put_ne k key new m other ∙ g, q)
]

-- `add` keeps the index right: each key listed at a height has an offer of that height.
pub add-IsIndexed :
    (s : Offer) (peer : String) (o : OfferSet) → IsIndexed o → IsIndexed (add s peer o).0
unfolding add
add-IsIndexed s peer o inv = go (Map.get (snap_key s) o.by_key) refl
  where
    added : OfferSet → Option SnapshotOffer → OfferSet × Bool
    added o (some rec) = (
      record o {
        by_key = Map.put (snap_key s) record rec { peers = Map.put peer true rec.peers } o.by_key;
      },
      false,
    )
    added o none = (
      record {
        by_key = Map.put (snap_key s) record { snapshot = s; peers = (peer, true) ∷ [] } o.by_key;
        by_height =
            Map.put s.height (keys_at (Map.get s.height o.by_height) ++ snap_key s ∷ [])
              o.by_height;
      },
      true,
    )

    fresh :
        (h : ℕ) (k : Bytes)
        → Map.get (snap_key s) o.by_key ≡ none
        → IsIn k (keys_at (Map.get h (added o none).0.by_height))
        → IsAt (added o none).0.by_key h k
    fresh h k e m = elim (nat_dec s.height h) [
      | inr other ↦
          IsAt-put_new o.by_key (snap_key s) record { snapshot = s; peers = (peer, true) ∷ [] } h k
            e
            (inv h k (
              subst (λ x. IsIn k (keys_at x))
                (get-put_ne h s.height (keys_at (Map.get s.height o.by_height) ++ snap_key s ∷ [])
                  o.by_height other)
                m))
      | inl same ↦
          elim (IsIn-append k (snap_key s) (keys_at (Map.get h o.by_height)) (
            subst (λ x. IsIn k (keys_at x))
              (ap
                  (λ x.
                    Map.get h
                      (Map.put x (keys_at (Map.get x o.by_height) ++ snap_key s ∷ []) o.by_height))
                  same
                ∙ get-put_self h (keys_at (Map.get h o.by_height) ++ snap_key s ∷ []) o.by_height)
              m)) [
                | inl old ↦
                    IsAt-put_new o.by_key (snap_key s)
                      record { snapshot = s; peers = (peer, true) ∷ [] } h k e (inv h k old)
                | inr new ↦ (
                  record { snapshot = s; peers = (peer, true) ∷ [] },
                  subst
                      (λ x.
                        Map.get x (added o none).0.by_key
                        ≡ some record { snapshot = s; peers = (peer, true) ∷ [] })
                      new
                      (get-put_self (snap_key s) record { snapshot = s; peers = (peer, true) ∷ [] }
                        o.by_key),
                  same,
                )
              ]
    ]

    go :
        (x : Option SnapshotOffer)
        → Map.get (snap_key s) o.by_key ≡ x
        → IsIndexed
            (elim x as (λ _. OfferSet × Bool) [
              | some rec ↦ added o (some rec)
              | none ↦ added o none
            ]).0
    go (some rec) e = λ h k m.
        IsAt-put_same o.by_key (snap_key s) rec record rec { peers = Map.put peer true rec.peers } h
          k e refl (inv h k m)
    go none e = λ h k m. fresh h k e m

-- Every entry has this height.
abbrev pub IsAllAt : ℕ → List (Bytes × SnapshotOffer) → Type 0
IsAllAt h [] = Unit
IsAllAt h ((k, e) ∷ es) = (e.snapshot.height ≡ h) × IsAllAt h es

entries_of-IsAllAt :
    (o : OfferSet) (h : ℕ) (ks : List Bytes)
    → ((k : Bytes) → IsIn k ks → IsAt o.by_key h k)
    → IsAllAt h (entries_of o ks)
unfolding entries_of
entries_of-IsAllAt o h [] f = tt
entries_of-IsAllAt o h (k ∷ ks) f =
    let (rec, e, q) = f k (inl refl) in
    subst
      (λ x. IsAllAt h (elim x as (λ _. List (Bytes × SnapshotOffer)) [
        | none ↦ entries_of o ks
        | some rec ↦ (k, rec) ∷ entries_of o ks
      ]))
      (sym e) (q, entries_of-IsAllAt o h ks (λ j m. f j (inr m)))

pub at-IsAllAt : (h : ℕ) (o : OfferSet) → IsIndexed o → IsAllAt h (at h o)
unfolding at
at-IsAllAt h o inv = entries_of-IsAllAt o h (keys_at (Map.get h o.by_height)) (inv h)
