-- ===== src/Fetch/Walk/Steps.antt =====
-- What a round of the walk keeps, and what it accepts.
use malcom.Prelude.{
  ℕ, ◌≤◌, ◌≡◌, refl, sym, subst, Bool, true, ◌&&◌, ◌||◌, not, List, [], ◌∷◌, Option, none, some,
  Bytes, String, arith, ltb, leb, ◌==◌, if_cases, if_split, Outcome, ret, fail, panic, stuck,
}
use malcom.Prelude.Map
use malcom.Prelude.Map.{Map, nat_key}
use malcom.Fetch.Metadata.{Offer, verify_chunk_zero}
use malcom.Fetch.Offers.{SnapshotOffer, add, at}
use malcom.Fetch.Offers.Index.{IsIndexed, IsAllAt, at-IsAllAt, add-IsIndexed}
use malcom.Fetch.Walk.{
  Config, Net, Walk, Chunk, Event, cancel, deadline, close, offer, chunk, Step, stay, jump,
  time_out, accept, cancelled, channel_closed, crash, has_flag, is_jump_candidate, dispatch,
  match_offer, is_wanted, judge_chunk, on_offer, on_chunk, height_step, next_target, begin,
}

module _ (sha256 : Bytes → Bytes) where
  -- What the matching of a chunk 0 answers, among offers of one height.
  abbrev pub IsMatch : ℕ → Bytes → Outcome (Unit {0}) SnapshotOffer → Type 0
  IsMatch h b (ret e) = (e.snapshot.height ≡ h) × (verify_chunk_zero sha256 e.snapshot b ≡ ret tt)
  IsMatch h b (fail u) = Unit
  IsMatch h b panic = Unit
  IsMatch h b stuck = Unit

  match_offer-IsMatch :
      (h : ℕ) (c : Chunk) (es : List (Bytes × SnapshotOffer))
      → IsAllAt h es
      → IsMatch h c.bytes (match_offer sha256 c es)
  unfolding match_offer
  match_offer-IsMatch h c [] a = tt
  match_offer-IsMatch h c ((k, e) ∷ es) (q, a) =
      if_cases (IsMatch h c.bytes) (not (e.snapshot.format == c.format))
        (match_offer-IsMatch h c es a)
        (go (match_offer-IsMatch h c es a) (verify_chunk_zero sha256 e.snapshot c.bytes) refl)
    where
      go :
          IsMatch h c.bytes (match_offer sha256 c es)
          → (x : Outcome _ (Unit {0})) → verify_chunk_zero sha256 e.snapshot c.bytes ≡ x
          → IsMatch h c.bytes (elim x as (λ _. Outcome (Unit {0}) SnapshotOffer) [
            | ret u ↦ ret e
            | fail x ↦ match_offer sha256 c es
            | panic ↦ panic
            | stuck ↦ stuck
          ])
      go rest (ret tt) v = (q, v)
      go rest (fail x) v = rest
      go rest panic v = tt
      go rest stuck v = tt

-- The walk's state between two rounds: the index is right, and no target is below the window.
abbrev pub IsFloored : ℕ → List ℕ → Type 0
IsFloored low [] = Unit
IsFloored low (t ∷ ts) = (low ≤ t) × IsFloored low ts

abbrev IsReady : ℕ → Walk → Type 0
IsReady low w = IsIndexed w.offers × (low ≤ w.target) × IsFloored low w.queue

abbrev pub IsReadyOr : ℕ → Option Walk → Type 0
IsReadyOr low none = Unit
IsReadyOr low (some w) = IsReady low w

module _ (sha256 : Bytes → Bytes) where
  -- What an accepted offer satisfies: its metadata covers chunk 0, and it lies in the window.
  abbrev pub IsGood : Config → SnapshotOffer → Bytes → Type 0
  IsGood cfg e b =
      (verify_chunk_zero sha256 e.snapshot b ≡ ret tt)
      × (cfg.min_height ≤ e.snapshot.height)
      × ((cfg.max_height == 0 || leb e.snapshot.height cfg.max_height) ≡ true)

  abbrev pub IsStep : Config → Step → Type 0
  IsStep cfg (stay w) = IsReady cfg.min_height w
  IsStep cfg (jump w) = IsReady cfg.min_height w
  IsStep cfg (time_out w) = IsReady cfg.min_height w
  IsStep cfg (accept e b peer) = IsGood cfg e b
  IsStep cfg cancelled = Unit
  IsStep cfg channel_closed = Unit
  IsStep cfg crash = Unit

  dispatch-IsReady :
      (low : ℕ) (cfg : Config) (net : Net) (t : ℕ) (w : Walk)
      → IsReady low w
      → IsReady low (dispatch cfg net t w)
  unfolding dispatch
  dispatch-IsReady low cfg net t w r = r

  jump-floor :
      (low t h : ℕ) (failed : Map ℕ Bool)
      → low ≤ t
      → is_jump_candidate h t low failed ≡ true
      → low ≤ h
  unfolding is_jump_candidate
  jump-floor low t h failed le j = ground arith

  on_offer-IsStep :
      (cfg : Config) (net : Net) (limit : ℕ) (s : Offer) (peer : String) (w : Walk)
      → IsReady cfg.min_height w
      → IsStep cfg (on_offer cfg net limit s peer w)
  unfolding on_offer
  on_offer-IsStep cfg net limit s peer w (x, t, q) =
      if_split (IsStep cfg)
        (cfg.target_height == 0
          && is_jump_candidate s.height w.target cfg.min_height w.failed
          && ltb w.jumps limit)
        (λ j. (
          indexed,
          t,
          (
            jump-floor cfg.min_height w.target s.height w.failed t (
                second (cfg.target_height == 0)
                  (is_jump_candidate s.height w.target cfg.min_height w.failed) (ltb w.jumps limit)
                  j),
            (t, q),
          ),
        ))
        (λ _.
          if_cases (IsStep cfg)
            (leb w.target s.height && (cfg.max_height == 0 || leb s.height cfg.max_height))
            (dispatch-IsReady cfg.min_height cfg net w.target
              record w { offers = (add s peer w.offers).0 } (indexed, t, q))
            (indexed, t, q))
    where
      indexed : IsIndexed (add s peer w.offers).0
      indexed = add-IsIndexed s peer w.offers x

      second : (a b c : Bool) → (a && b && c) ≡ true → b ≡ true
      second a b c h = ground arith

  wanted-window :
      (cfg : Config) (target : ℕ) (c : Chunk)
      → is_wanted cfg target c ≡ true
      → (target ≤ c.height) × ((cfg.max_height == 0 || leb c.height cfg.max_height) ≡ true)
  unfolding is_wanted
  wanted-window cfg target c h = (ground arith, ground arith)

  on_chunk-IsStep :
      (cfg : Config) (net : Net) (c : Chunk) (peer : String) (w : Walk)
      → IsReady cfg.min_height w
      → IsStep cfg (on_chunk sha256 cfg net c peer w)
  unfolding on_chunk
  on_chunk-IsStep cfg net c peer w (x, t, q) =
      if_split (IsStep cfg) (is_wanted cfg w.target c)
        (λ y. go (wanted-window cfg w.target c y) (match_offer sha256 c (at c.height w.offers)) (
          match_offer-IsMatch sha256 c.height c (at c.height w.offers)
            (at-IsAllAt c.height w.offers x)))
        (λ _. (x, t, q))
    where
      go :
          (w.target ≤ c.height) × ((cfg.max_height == 0 || leb c.height cfg.max_height) ≡ true)
          → (o : Outcome (Unit {0}) SnapshotOffer) → IsMatch sha256 c.height c.bytes o
          → IsStep cfg (judge_chunk net c peer w o)
      go (low, high) (ret e) (h, v) = (
        v,
        omega (arith, t, low, h),
        subst (λ n. (cfg.max_height == 0 || leb n cfg.max_height) ≡ true) (sym h) high,
      )
      go y (fail u) m = if_cases (IsStep cfg) (net.connected peer) (x, t, q) (x, t, q)
      go y panic m = tt
      go y stuck m = tt

  pub height_step-IsStep :
      (cfg : Config) (net : Net) (limit : ℕ) (e : Event) (w : Walk)
      → IsReady cfg.min_height w
      → IsStep cfg (height_step sha256 cfg net limit e w)
  unfolding height_step
  height_step-IsStep cfg net limit cancel w r = tt
  height_step-IsStep cfg net limit deadline w r = r
  height_step-IsStep cfg net limit close w r = tt
  height_step-IsStep cfg net limit (offer s peer) w r = on_offer-IsStep cfg net limit s peer w r
  height_step-IsStep cfg net limit (chunk c peer) w r = on_chunk-IsStep cfg net c peer w r

  pub begin-IsReady :
      (cfg : Config) (net : Net) (w : Walk) (failed : Map ℕ Bool) (queue : List ℕ)
      → IsIndexed w.offers
      → IsFloored cfg.min_height queue
      → IsReadyOr cfg.min_height (begin cfg net w (next_target failed queue))
  unfolding next_target
  begin-IsReady cfg net w failed [] x q = tt
  begin-IsReady cfg net w failed (t ∷ ts) x (le, q) =
      if_cases (λ o. IsReadyOr cfg.min_height (begin cfg net w o)) (has_flag (Map.get t failed))
        (begin-IsReady cfg net w failed ts x q)
        (dispatch-IsReady cfg.min_height cfg net t record w { target = t; queue = ts } (x, le, q))
