-- ===== src/Examples/Walks.antt =====
-- A walk that accepts the offer of one peer.
use malcom.Prelude.{
  ℕ, ◌≡◌, refl, inl, inr, Bool, true, false, List, [], ◌∷◌, Option, none, some, Bytes, String,
  arith, arith,
}
use malcom.Fetch.Metadata.{Offer}
use malcom.Fetch.Walk.Jumps.{IsJumpTo, on_offer-above}
use malcom.Fetch.Offers.{new_offer_set, at_or_above}
use malcom.Fetch.Offers.Index.{IsIndexed}
use malcom.Fetch.Walk.{
  Walk, stay, on_offer, on_chunk, Config, Net, Chunk, offer, chunk, walk_backward,
}
use malcom.Fetch.Walk.Accepted.{IsServed, walk_backward-IsServed}

abbrev walk_config : Config
walk_config = record {
  target_height = 0;
  min_height = 50;
  max_height = 120;
  snapshot_interval = 50;
}

abbrev walk_net : Net
walk_net = record { connected = λ p. true; accepts = λ p h f. true; order = λ m. "a" ∷ [] }

abbrev good_offer : Offer
good_offer = record {
  height = 110;
  format = 3;
  chunks = 1;
  hash = 9 ∷ [];
  metadata = 0x0A ∷ 2 ∷ 7 ∷ 8 ∷ [];
}

abbrev good_chunk : Chunk
good_chunk = record { height = 110; format = 3; index = 0; bytes = 7 ∷ 8 ∷ []; missing = false }

new_offer_set-IsIndexed : IsIndexed new_offer_set
unfolding malcom.Prelude.Map.get
new_offer_set-IsIndexed h k m = absurd m

walk_backward-IsServed_example :
    IsServed
      (λ b. b)
      walk_config
      (walk_backward
        (λ b. b)
        walk_config
        walk_net
        new_offer_set
        (offer good_offer "a" ∷ chunk good_chunk "a" ∷ []))
walk_backward-IsServed_example =
    walk_backward-IsServed (λ b. b) walk_config walk_net new_offer_set
      (offer good_offer "a" ∷ chunk good_chunk "a" ∷ []) new_offer_set-IsIndexed

-- A walk at 100, and an offer above the window.
abbrev walk_at_100 : Walk
walk_at_100 = record {
  offers = new_offer_set;
  queue = 50 ∷ [];
  failed = [];
  asked = [];
  jumps = 0;
  target = 100;
  evicted = [];
}

abbrev walk_at_500 : Walk
walk_at_500 = record walk_at_100 { target = 500; queue = 100 ∷ 50 ∷ []; jumps = 1 }

abbrev high_offer : Offer
high_offer = record good_offer { height = 500 }

on_offer-above_example :
    IsJumpTo 500 (on_offer walk_config walk_net 4 high_offer "a" walk_at_100)
    × (at_or_above 500 120 walk_at_500.offers ≡ [])
    × (on_chunk (λ b. b) walk_config walk_net good_chunk "a" walk_at_500 ≡ stay walk_at_500)
unfolding malcom.Prelude.Map.get
on_offer-above_example =
    on_offer-above (λ b. b) walk_config walk_net 4 high_offer "a" walk_at_100 walk_at_500 good_chunk
      "a" refl (omega arith) (omega arith) (omega arith) (omega arith) refl (omega arith) refl
