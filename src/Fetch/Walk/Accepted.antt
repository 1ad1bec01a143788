-- ===== src/Fetch/Walk/Accepted.antt =====
-- What the walk accepts.
use malcom.Prelude.{
  ℕ, zero, suc, ◌*◌, ◌/◌, ◌≤◌, ◌≡◌, sym, ◌∙◌, ◌⊎◌, inl, inr, Bool, true, false, ◌&&◌, ◌||◌, List,
  [], ◌∷◌, Option, none, some, Bytes, arith, ltb, leb, ◌==◌, if◌then◌else◌, if_cases, if_split,
  leb→le, length, Outcome, ret, fail, panic, stuck, refl, ◌%◌, ◌^◌, ==_iff, Bool-cases,
}
use mathlib.Core.Bool.{false≢true}
use malcom.Prelude.Map
use malcom.Prelude.Map.{Map, nat_key, bytes_equal, bytes_equal→eq}
use malcom.Fetch.Metadata.{
  MetadataError, no_chunks, count_differs, hash_mismatch, Offer, parse_chunk_hashes, compare_zero,
  then_compare, verify_chunk_zero,
}
use malcom.Fetch.Offers.{OfferSet}
use malcom.Fetch.Offers.Index.{IsIndexed}
use malcom.Fetch.Walk.{
  Config, Net, Walk, Event, Step, stay, jump, time_out, accept, cancelled, channel_closed, crash,
  Result, accepted, exhausted, unserved, stopped, panicked, searching, effective_height_window,
  offer_in_window, targets_from, walk_targets, targets_of, max_jumps, first_walk, height_step,
  next_target, others, begin, walk_from, walk_backward,
}
use malcom.Fetch.Walk.Steps.{
  IsFloored, IsReadyOr, IsGood, IsStep, height_step-IsStep, begin-IsReady,
}

module _ (sha256 : Bytes → Bytes) where
  -- What a walk may end with.
  abbrev IsSound : Config → Result → Type 0
  IsSound cfg (accepted e good b) = IsGood sha256 cfg e b
  IsSound cfg exhausted = Unit
  IsSound cfg unserved = Unit
  IsSound cfg stopped = Unit
  IsSound cfg panicked = Unit
  IsSound cfg (searching w) = Unit

module _ (sha256 : Bytes → Bytes) (cfg : Config) (net : Net) (limit : ℕ) where
  walk_from-IsSound :
      (es : List Event) (o : Option Walk)
      → IsReadyOr cfg.min_height o
      → IsSound sha256 cfg (walk_from sha256 cfg net limit es o)
  unfolding walk_from
  walk_from-IsSound es none r = tt
  walk_from-IsSound [] (some w) r = tt
  walk_from-IsSound (e ∷ es) (some w) r =
      go (walk_from-IsSound es) (height_step sha256 cfg net limit e w)
        (height_step-IsStep sha256 cfg net limit e w r)
    where
      P : Result → Type 0
      P = IsSound sha256 cfg

      go :
          ((o : Option Walk) → IsReadyOr cfg.min_height o → P (walk_from sha256 cfg net limit es o))
          → (st : Step) → IsStep sha256 cfg st
          → P (elim st as (λ _. Result) [
            | stay w' ↦ walk_from sha256 cfg net limit es (some w')
            | jump w' ↦
                walk_from sha256 cfg net limit es
                  (begin cfg net w' (next_target w'.failed w'.queue))
            | time_out w' ↦
                if cfg.target_height == 0
                then (let w2 = record w' { failed = Map.put w'.target true w'.failed } in
                    walk_from sha256 cfg net limit es
                      (begin cfg net w2 (next_target w2.failed w2.queue)))
                else unserved
            | accept o b peer ↦ accepted o (peer ∷ others peer (net.order o.peers)) b
            | cancelled ↦ stopped
            | channel_closed ↦ stopped
            | crash ↦ panicked
          ])
      go rec (stay w') y = rec (some w') y
      go rec (jump w') (x, t, q) =
          rec (begin cfg net w' (next_target w'.failed w'.queue))
            (begin-IsReady sha256 cfg net w' w'.failed w'.queue x q)
      go rec (time_out w') (x, t, q) =
          if_cases P (cfg.target_height == 0)
            (rec
              (begin cfg net record w' { failed = Map.put w'.target true w'.failed }
                (next_target (Map.put w'.target true w'.failed) w'.queue))
              (begin-IsReady sha256 cfg net record w' { failed = Map.put w'.target true w'.failed }
                (Map.put w'.target true w'.failed) w'.queue x q))
            tt
      go rec (accept o b peer) y = y
      go rec cancelled y = tt
      go rec channel_closed y = tt
      go rec crash y = tt

targets_from-IsFloored : (low interval k : ℕ) → IsFloored low (targets_from low interval k)
unfolding targets_from
targets_from-IsFloored low interval zero = tt
targets_from-IsFloored low interval (suc k) =
    if_split (IsFloored low) (leb low (suc k * interval) && ltb 0 (suc k * interval))
      (λ t. (
        at_least (suc k * interval)
            (first (leb low (suc k * interval)) (ltb 0 (suc k * interval)) t),
        targets_from-IsFloored low interval k,
      ))
      (λ f. tt)
  where
    at_least : (h : ℕ) → leb low h ≡ true → low ≤ h
    at_least h e = leb→le low h e

    first : (a b : Bool) → (a && b) ≡ true → a ≡ true
    first a b e = ground arith

targets_of-IsFloored :
    (w : Config)
    → ((w.target_height == 0) ≡ true) ⊎ (w.min_height ≤ w.target_height)
    → IsFloored w.min_height (targets_of w)
unfolding walk_targets
targets_of-IsFloored w c =
    if_split (IsFloored w.min_height) (w.target_height == 0)
      (λ t.
        if_cases (IsFloored w.min_height)
          (w.snapshot_interval == 0 || ltb w.max_height w.min_height) tt
          (targets_from-IsFloored w.min_height w.snapshot_interval
            (w.max_height / w.snapshot_interval)))
      (λ f. (below f c, tt))
  where
    below :
        (w.target_height == 0) ≡ false
        → ((w.target_height == 0) ≡ true) ⊎ (w.min_height ≤ w.target_height)
        → w.min_height ≤ w.target_height
    below f (inl t) = absurd (false≢true (sym f ∙ t))
    below f (inr le) = le

window-cases :
    (cfg : Config)
    → (((effective_height_window cfg).target_height == 0) ≡ true)
      ⊎ ((effective_height_window cfg).min_height ≤ (effective_height_window cfg).target_height)
unfolding effective_height_window
window-cases cfg =
    if_split (λ (w : Config). ((w.target_height == 0) ≡ true) ⊎ (w.min_height ≤ w.target_height))
      (cfg.target_height == 0) (λ t. inl t) (λ f. inr (omega arith))

-- What an accepted chunk 0 is, by the offer that it answers: the metadata lists one hash for each chunk,
-- and the chunk's own hash stands first.
pub record IsChunkZero (sha256 : Bytes → Bytes) (e : Offer) (input : Bytes) : Type 0 where
  pub rest : List Bytes
  pub listed : parse_chunk_hashes e.metadata ≡ ret (sha256 input ∷ rest)
  pub counted : length (sha256 input ∷ rest) % 2 ^ 32 ≡ e.chunks

compare_zero-inv :
    (sha256 : Bytes → Bytes) (e : Offer) (input : Bytes) (hashes : List Bytes)
    → compare_zero sha256 e.chunks input hashes ≡ ret tt
    → parse_chunk_hashes e.metadata ≡ ret hashes
    → IsChunkZero sha256 e input
unfolding compare_zero
compare_zero-inv sha256 e input [] v listed =
    elim (Bool-cases (length {A = Bytes} [] % 2 ^ 32 == e.chunks)) [
      | inl t ↦ let bad : fail no_chunks ≡ ret tt = rw t at v in cc
      | inr f ↦ let bad : fail count_differs ≡ ret tt = rw f at v in cc
    ]
compare_zero-inv sha256 e input (h ∷ hs) v listed =
    elim (Bool-cases (length (h ∷ hs) % 2 ^ 32 == e.chunks)) [
      | inr f ↦ let bad : fail count_differs ≡ ret tt = rw f at v in cc
      | inl t ↦ elim (Bool-cases (bytes_equal (sha256 input) h)) [
        | inr f ↦ let bad : fail hash_mismatch ≡ ret tt = rw (t, f) at v in cc
        | inl same ↦
            let first : sha256 input ≡ h = bytes_equal→eq (sha256 input) h same in
            record {
              rest = hs;
              listed = rw first listed;
              counted = (==_iff (length (h ∷ hs) % 2 ^ 32) e.chunks).0 t;
            }
      ]
    ]

verify_chunk_zero-inv :
    (sha256 : Bytes → Bytes) (e : Offer) (input : Bytes)
    → verify_chunk_zero sha256 e input ≡ ret tt
    → IsChunkZero sha256 e input
unfolding verify_chunk_zero
verify_chunk_zero-inv sha256 e input v = by_parse (parse_chunk_hashes e.metadata) refl v
  where
    by_parse :
        (o : Outcome MetadataError (List Bytes))
        → parse_chunk_hashes e.metadata ≡ o
        → then_compare sha256 e.chunks input o ≡ ret tt
        → IsChunkZero sha256 e input
    by_parse (ret hashes) p v = compare_zero-inv sha256 e input hashes v p
    by_parse (fail x) p v = cc
    by_parse panic p v = cc
    by_parse stuck p v = cc

-- The result of a walk by the height window of the caller's configuration.
abbrev pub IsServed : (Bytes → Bytes) → Config → Result → Type 0
IsServed sha256 cfg (accepted e good b) =
    IsChunkZero sha256 e.snapshot b × (offer_in_window e.snapshot.height cfg ≡ true)
IsServed sha256 cfg exhausted = Unit
IsServed sha256 cfg unserved = Unit
IsServed sha256 cfg stopped = Unit
IsServed sha256 cfg panicked = Unit
IsServed sha256 cfg (searching w) = Unit

good-window :
    (cfg : Config) (h : ℕ)
    → (effective_height_window cfg).min_height ≤ h
    → ((effective_height_window cfg).max_height == 0
        || leb h (effective_height_window cfg).max_height)
      ≡ true
    → offer_in_window h cfg ≡ true
unfolding effective_height_window offer_in_window
good-window cfg h low high = ground arith

IsSound→IsServed :
    (sha256 : Bytes → Bytes) (cfg : Config) (r : Result)
    → IsSound sha256 (effective_height_window cfg) r
    → IsServed sha256 cfg r
IsSound→IsServed sha256 cfg (accepted e good b) (v, low, high) =
    (verify_chunk_zero-inv sha256 e.snapshot b v, good-window cfg e.snapshot.height low high)
IsSound→IsServed sha256 cfg exhausted s = tt
IsSound→IsServed sha256 cfg unserved s = tt
IsSound→IsServed sha256 cfg stopped s = tt
IsSound→IsServed sha256 cfg panicked s = tt
IsSound→IsServed sha256 cfg (searching w) s = tt

-- Whatever events arrive, from a right index of offers: a walk that accepts an offer accepts one
-- whose own metadata lists as many hashes as it has chunks, the first of them being the hash of the
-- chunk 0 that came with it, and whose height the configuration allows; with a pinned target that
-- is the target itself.
pub walk_backward-IsServed :
    (sha256 : Bytes → Bytes) (cfg : Config) (net : Net) (offers : OfferSet) (events : List Event)
    → IsIndexed offers
    → IsServed sha256 cfg (walk_backward sha256 cfg net offers events)
unfolding walk_backward
walk_backward-IsServed sha256 cfg net offers events x =
    IsSound→IsServed sha256 cfg (walk_backward sha256 cfg net offers events) (
      if_cases (IsSound sha256 window) (window.target_height == 0 && window.max_height == 0) tt (
        if_cases (IsSound sha256 window) (length (targets_of window) == 0) tt (
          walk_from-IsSound sha256 window net (max_jumps (targets_of window)) events
            (begin window net (first_walk offers (targets_of window))
              (next_target [] (targets_of window)))
            (begin-IsReady sha256 window net (first_walk offers (targets_of window)) []
              (targets_of window) x (targets_of-IsFloored window (window-cases cfg))))))
  where
    window : Config
    window = effective_height_window cfg
