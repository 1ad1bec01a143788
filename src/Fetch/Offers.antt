-- ===== src/Fetch/Offers.antt =====
-- internal/snapfetch/offerset.go, and `snapKey` of config.go: the snapshot offers seen in a walk.
pub mod Index
use malcom.Prelude.{
  ℕ, ◌+◌, ◌/◌, ◌%◌, Bool, true, false, ◌&&◌, ◌||◌, not, List, [], ◌∷◌, ◌++◌, Option, none, some,
  Bytes, String, ltb, leb, ◌==◌, if◌then◌else◌, length,
}
use malcom.Prelude.Map
use malcom.Prelude.Map.{Map, nat_key, string_key, bytes_key}
use malcom.Fetch.Metadata.{Offer}
use malcom.Prelude.Decimal.{decimal}

-- `snapshotOffer`; its own fields but for the peers are those of the snapshot.
pub record SnapshotOffer : Type 0 where
  pub snapshot : Offer
  pub peers : Map String Bool

pub record OfferSet : Type 0 where
  pub by_key : Map Bytes SnapshotOffer
  pub by_height : Map ℕ (List Bytes)

abbrev pub new_offer_set : OfferSet
new_offer_set = record { by_key = []; by_height = [] }

abbrev hex_digit : ℕ → ℕ
hex_digit d = if ltb d 10 then 48 + d else 87 + d

abbrev pub hex : Bytes → Bytes
hex [] = []
hex (b ∷ bs) = hex_digit (b / 16) ∷ hex_digit (b % 16) ∷ hex bs

-- "height_format_hash".
unfoldable pub snap_key : Offer → Bytes
unfolding decimal
snap_key s = decimal 20 s.height [] ++ (95 ∷ (decimal 10 s.format [] ++ (95 ∷ hex s.hash)))

abbrev pub keys_at : Option (List Bytes) → List Bytes
keys_at none = []
keys_at (some ks) = ks

-- The Boolean says that the offer is new.
unfoldable pub add : Offer → String → OfferSet → OfferSet × Bool
unfolding snap_key
add s peer o = elim (Map.get (snap_key s) o.by_key) [
  | some rec ↦ (
    record o {
      by_key = Map.put (snap_key s) record rec { peers = Map.put peer true rec.peers } o.by_key;
    },
    false,
  )
  | none ↦ (
    record {
      by_key = Map.put (snap_key s) record { snapshot = s; peers = (peer, true) ∷ [] } o.by_key;
      by_height =
          Map.put s.height (keys_at (Map.get s.height o.by_height) ++ snap_key s ∷ []) o.by_height;
    },
    true,
  )
]

-- The entries of these keys, in their order.
unfoldable pub entries_of : OfferSet → List Bytes → List (Bytes × SnapshotOffer)
entries_of o [] = []
entries_of o (k ∷ ks) =
    let rest = entries_of o ks in
    elim (Map.get k o.by_key) [ none ↦ rest | some rec ↦ (k, rec) ∷ rest ]

unfoldable pub at : ℕ → OfferSet → List (Bytes × SnapshotOffer)
unfolding entries_of
at height o = entries_of o (keys_at (Map.get height o.by_height))

unfoldable pub count : OfferSet → ℕ
count o = length o.by_key

-- The heights within the bounds, and the sort that puts the highest first.
abbrev pub is_within : ℕ → ℕ → ℕ → Bool
is_within low high h = leb low h && (high == 0 || leb h high)

unfoldable insert_height : ℕ → List ℕ → List ℕ
insert_height h [] = h ∷ []
insert_height h (g ∷ gs) = if ltb h g then g ∷ insert_height h gs else h ∷ g ∷ gs

unfoldable pub heights_within : ℕ → ℕ → Map ℕ (List Bytes) → List ℕ
unfolding insert_height
heights_within low high [] = []
heights_within low high ((h, ks) ∷ m) =
    let rest = heights_within low high m in
    if is_within low high h then insert_height h rest else rest

unfoldable pub entries_at : OfferSet → List ℕ → List (Bytes × SnapshotOffer)
unfolding at
entries_at o [] = []
entries_at o (h ∷ hs) = at h o ++ entries_at o hs

unfoldable pub at_or_above : ℕ → ℕ → OfferSet → List (Bytes × SnapshotOffer)
unfolding heights_within entries_at
at_or_above low high o = entries_at o (heights_within low high o.by_height)
