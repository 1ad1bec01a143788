-- ===== src/Fetch/Walk/Jumps.antt =====
-- The jump to a height above the window.
use malcom.Prelude.{
  ℕ, ◌≤◌, ◌<◌, ◌≡◌, refl, sym, ◌∙◌, ap, Bool, true, false, ◌&&◌, List, [], ◌∷◌, Bytes, String,
  arith, ltb, ◌==◌, if_split,
}
use mathlib.Core.Bool.{false≢true}
use malcom.Prelude.Map
use malcom.Prelude.Map.{Map, nat_key}
use malcom.Fetch.Metadata.{Offer}
use malcom.Fetch.Offers.{OfferSet, is_within, heights_within, entries_at, at_or_above}
use malcom.Fetch.Walk.{
  Config, Net, Walk, Chunk, Step, stay, jump, time_out, accept, cancelled, channel_closed, crash,
  has_flag, is_jump_candidate, is_wanted, on_offer, on_chunk,
}

-- A step that jumps, with this height at the front of its queue.
abbrev pub IsJumpTo : ℕ → Step → Type 0
IsJumpTo h (jump w) = (rest : List ℕ) × (w.queue ≡ h ∷ rest)
IsJumpTo h (stay w) = ⊥
IsJumpTo h (time_out w) = ⊥
IsJumpTo h (accept e b peer) = ⊥
IsJumpTo h cancelled = ⊥
IsJumpTo h channel_closed = ⊥
IsJumpTo h crash = ⊥

heights_within-above :
    (low high : ℕ) (m : Map ℕ (List Bytes)) → 0 < high → high < low → heights_within low high m ≡ []
unfolding heights_within
heights_within-above low high [] pos lt = refl
heights_within-above low high ((h, ks) ∷ m) pos lt =
    if_split (λ x. x ≡ []) (is_within low high h) (λ t. absurd (outside t))
      (λ f. heights_within-above low high m pos lt)
  where
    outside : is_within low high h ≡ true → ⊥
    outside t = ground arith

at_or_above-above :
    (low high : ℕ) (o : OfferSet) → 0 < high → high < low → at_or_above low high o ≡ []
unfolding at_or_above entries_at
at_or_above-above low high o pos lt =
    ap (entries_at o) (heights_within-above low high o.by_height pos lt)

not_wanted :
    (cfg : Config) (target : ℕ) (c : Chunk)
    → 0 < cfg.max_height
    → cfg.max_height < target
    → is_wanted cfg target c ≡ false
unfolding is_wanted
not_wanted cfg target c pos lt = ground arith

candidate :
    (h t m : ℕ) (failed : Map ℕ Bool)
    → m ≤ h
    → t < h
    → has_flag (Map.get h failed) ≡ false
    → is_jump_candidate h t m failed ≡ true
unfolding is_jump_candidate
candidate h t m failed low up fresh = rw fresh (ground arith)

-- Without a pinned target and with a top of the window, an offer above the top, of a height that is
-- no failed target and above the one searched, makes the walk jump to its height while jumps are left.
-- In any later
-- state at that target no offer is in range to ask for, and any chunk leaves the walk as it is.
pub on_offer-above :
    (sha256 : Bytes → Bytes) (cfg : Config) (net : Net) (limit : ℕ) (s : Offer) (peer : String)
    (w : Walk) (later : Walk) (c : Chunk) (sender : String)
    → cfg.target_height ≡ 0
    → 0 < cfg.max_height
    → cfg.max_height < s.height
    → cfg.min_height ≤ s.height
    → w.target < s.height
    → has_flag (Map.get s.height w.failed) ≡ false
    → w.jumps < limit
    → later.target ≡ s.height
    → IsJumpTo s.height (on_offer cfg net limit s peer w)
      × (at_or_above s.height cfg.max_height later.offers ≡ [])
      × (on_chunk sha256 cfg net c sender later ≡ stay later)
unfolding on_offer on_chunk
on_offer-above sha256 cfg net limit s peer w later c sender free pos above low up fresh left there =
    (
      if_split (IsJumpTo s.height)
          (cfg.target_height == 0
            && is_jump_candidate s.height w.target cfg.min_height w.failed
            && ltb w.jumps limit)
          (λ t. (w.target ∷ w.queue, refl))
          (λ f.
            absurd (jumps (candidate s.height w.target cfg.min_height w.failed low up fresh) f)),
      at_or_above-above s.height cfg.max_height later.offers pos above,
      ignored,
    )
  where
    jumps :
        is_jump_candidate s.height w.target cfg.min_height w.failed ≡ true
        → (cfg.target_height == 0
            && is_jump_candidate s.height w.target cfg.min_height w.failed
            && ltb w.jumps limit)
          ≡ false
        → ⊥
    jumps y f = ground (arith, free, left)

    never : is_wanted cfg later.target c ≡ true → ⊥
    never t = false≢true (sym (not_wanted cfg later.target c pos (omega (arith, above, there))) ∙ t)

    ignored : on_chunk sha256 cfg net c sender later ≡ stay later
    ignored =
        if_split (λ (x : Step). x ≡ stay later) (is_wanted cfg later.target c)
          (λ t. absurd (never t)) (λ f. refl)
