-- ===== src/Fetch/Walk.antt =====
-- internal/snapfetch/walk.go: the walk down the heights for a snapshot whose chunk 0 verifies. The
-- dials before the loop, the warm-up's clock and the logs are not modelled; what arrives in the warm-up
-- is an event before the first target. `select` takes one event at a time, so a run is a list of events.
pub mod Steps
pub mod Accepted
pub mod Jumps
use malcom.Prelude.{
  ℕ, zero, suc, ◌+◌, ◌-◌, ◌*◌, ◌/◌, Bool, true, false, ◌&&◌, ◌||◌, not, List, [], ◌∷◌, ◌++◌, Option,
  none, some, Bytes, String, codes, ltb, leb, ◌==◌, if◌then◌else◌, length, Outcome, ret, fail,
  panic, stuck,
}
use malcom.Prelude.Map
use malcom.Prelude.Map.{Map, nat_key, string_key, bytes_key}
use text.Mathlib.Text.{◌==◌ as str_eq}
use malcom.Fetch.Metadata.{Offer, verify_chunk_zero}
use malcom.Fetch.Offers.{SnapshotOffer, OfferSet, add, at, at_or_above}

pub record Config : Type 0 where
  pub target_height : ℕ
  pub min_height : ℕ
  pub max_height : ℕ
  pub snapshot_interval : ℕ

unfoldable pub effective_height_window : Config → Config
effective_height_window cfg =
    if cfg.target_height == 0
    then cfg
    else record cfg { min_height = cfg.target_height; max_height = cfg.target_height }

abbrev pub has_flag : Option Bool → Bool
has_flag none = false
has_flag (some b) = b

unfoldable pub is_jump_candidate : ℕ → ℕ → ℕ → Map ℕ Bool → Bool
is_jump_candidate new_height current min_height failed =
    if leb new_height current
    then false
    else if not (min_height == 0) && ltb new_height min_height
    then false
    else if has_flag (Map.get new_height failed)
    then false
    else true

unfoldable pub offer_in_window : ℕ → Config → Bool
offer_in_window height cfg =
    if not (cfg.target_height == 0)
    then height == cfg.target_height
    else if not (cfg.min_height == 0) && ltb height cfg.min_height
    then false
    else if not (cfg.max_height == 0) && ltb cfg.max_height height
    then false
    else true

-- The loop of `walkTargets` from a height that is a multiple of the interval: the multiples down to
-- `minHeight`, 0 left out.
unfoldable pub targets_from : ℕ → ℕ → ℕ → List ℕ
targets_from min_height interval zero = []
targets_from min_height interval (suc k) =
    let rest = targets_from min_height interval k in
    let h = suc k * interval in if leb min_height h && ltb 0 h then h ∷ rest else []

unfoldable pub walk_targets : ℕ → ℕ → ℕ → List ℕ
unfolding targets_from
walk_targets top min_height interval =
    if interval == 0 || ltb top min_height
    then []
    else targets_from min_height interval (top / interval)

pub record Chunk : Type 0 where
  pub height : ℕ
  pub format : ℕ
  pub index : ℕ
  pub bytes : Bytes
  pub missing : Bool

-- What one look at the switch answers, and the order in which `range` visits an offer's peers.
pub record Net : Type 0 where
  pub connected : String → Bool
  pub accepts : String → ℕ → ℕ → Bool
  pub order : Map String Bool → List String

pub record Walk : Type 0 where
  pub offers : OfferSet
  pub queue : List ℕ
  pub failed : Map ℕ Bool
  pub asked : Map Bytes Bool
  pub jumps : ℕ
  pub target : ℕ
  pub evicted : List String

abbrev ask_key : String → Bytes → Bytes
ask_key pid k = codes pid ++ (58 ∷ k)

-- The loops of `dispatch` over the entries and over each entry's peers.
unfoldable ask_peers : Net → Bytes → Offer → List String → Map Bytes Bool → Map Bytes Bool
ask_peers net k s [] asked = asked
ask_peers net k s (pid ∷ pids) asked =
    if not (has_flag (Map.get (ask_key pid k) asked))
      && net.connected pid
      && net.accepts pid s.height s.format
    then ask_peers net k s pids (Map.put (ask_key pid k) true asked)
    else ask_peers net k s pids asked

unfoldable ask_all : Net → List (Bytes × SnapshotOffer) → Map Bytes Bool → Map Bytes Bool
unfolding ask_peers
ask_all net [] asked = asked
ask_all net ((k, e) ∷ es) asked =
    ask_all net es (ask_peers net k e.snapshot (net.order e.peers) asked)

unfoldable pub dispatch : Config → Net → ℕ → Walk → Walk
unfolding ask_all at_or_above
dispatch cfg net target w = record w {
  asked = ask_all net (at_or_above target cfg.max_height w.offers) w.asked;
}

-- `none`: no offer of the chunk's format has this chunk 0.
module _ (sha256 : Bytes → Bytes) where
  unfoldable pub match_offer :
      Chunk → List (Bytes × SnapshotOffer) → Outcome (Unit {0}) SnapshotOffer
  unfolding verify_chunk_zero
  match_offer c [] = fail tt
  match_offer c ((k, e) ∷ es) =
      let rest = match_offer c es in
      if not (e.snapshot.format == c.format)
      then rest
      else elim (verify_chunk_zero sha256 e.snapshot c.bytes) [
        | ret u ↦ ret e
        | fail x ↦ rest
        | panic ↦ panic
        | stuck ↦ stuck
      ]

pub data Event : Type 0 where
  cancel deadline close : Event
  offer : Offer → String → Event
  chunk : Chunk → String → Event

-- How a round of the height's loop goes on.
pub data Step : Type 0 where
  stay jump time_out : Walk → Step
  accept : SnapshotOffer → Bytes → String → Step
  cancelled channel_closed crash : Step

abbrev pub max_jumps : List ℕ → ℕ
max_jumps targets = 2 * length targets

unfoldable pub on_offer : Config → Net → ℕ → Offer → String → Walk → Step
unfolding add dispatch is_jump_candidate
on_offer cfg net limit s peer w =
    let w1 = (record w { offers = (add s peer w.offers).0 }) in
    if cfg.target_height == 0
      && is_jump_candidate s.height w.target cfg.min_height w.failed
      && ltb w.jumps limit
    then jump record w1 { queue = s.height ∷ w.target ∷ w.queue; jumps = w.jumps + 1 }
    else if leb w.target s.height && (cfg.max_height == 0 || leb s.height cfg.max_height)
    then stay (dispatch cfg net w.target w1)
    else stay w1

-- A chunk that the height's loop looks at.
unfoldable pub is_wanted : Config → ℕ → Chunk → Bool
is_wanted cfg target c =
    c.index == 0
    && leb target c.height
    && (cfg.max_height == 0 || leb c.height cfg.max_height)
    && not c.missing
    && not (length c.bytes == 0)

abbrev pub judge_chunk : Net → Chunk → String → Walk → Outcome (Unit {0}) SnapshotOffer → Step
judge_chunk net c peer w (ret e) = accept e c.bytes peer
judge_chunk net c peer w (fail u) =
    if net.connected peer then stay record w { evicted = peer ∷ w.evicted } else stay w
judge_chunk net c peer w panic = crash
judge_chunk net c peer w stuck = crash

module _ (sha256 : Bytes → Bytes) where
  unfoldable pub on_chunk : Config → Net → Chunk → String → Walk → Step
  unfolding is_wanted match_offer at
  on_chunk cfg net c peer w =
      if is_wanted cfg w.target c
      then judge_chunk net c peer w (match_offer sha256 c (at c.height w.offers))
      else stay w

  unfoldable pub height_step : Config → Net → ℕ → Event → Walk → Step
  unfolding on_offer on_chunk
  height_step cfg net limit cancel w = cancelled
  height_step cfg net limit deadline w = time_out w
  height_step cfg net limit close w = channel_closed
  height_step cfg net limit (offer s peer) w = on_offer cfg net limit s peer w
  height_step cfg net limit (chunk c peer) w = on_chunk cfg net c peer w

-- The next height of the queue that has not failed.
unfoldable pub next_target : Map ℕ Bool → List ℕ → Option (ℕ × List ℕ)
next_target failed [] = none
next_target failed (t ∷ ts) =
    if has_flag (Map.get t failed) then next_target failed ts else some (t, ts)

pub data Result : Type 0 where
  accepted : SnapshotOffer → List String → Bytes → Result
  exhausted unserved stopped panicked : Result
  searching : Walk → Result

-- The responder, then the offer's other peers.
unfoldable pub others : String → List String → List String
others responder [] = []
others responder (p ∷ ps) =
    let rest = others responder ps in if str_eq p responder then rest else p ∷ rest

abbrev pub begin : Config → Net → Walk → Option (ℕ × List ℕ) → Option Walk
begin cfg net w none = none
begin cfg net w (some (t, ts)) = some (dispatch cfg net t record w { target = t; queue = ts })

module _ (sha256 : Bytes → Bytes) (cfg : Config) (net : Net) (limit : ℕ) where
  -- The walk over the events that arrive; without a further event it goes on searching. `none` is the
  -- end of the queue.
  unfoldable pub walk_from : List Event → Option Walk → Result
  unfolding height_step next_target others
  walk_from es none = exhausted
  walk_from [] (some w) = searching w
  walk_from (e ∷ es) (some w) = elim (height_step sha256 cfg net limit e w) [
    | stay w' ↦ walk_from es (some w')
    | jump w' ↦ walk_from es (begin cfg net w' (next_target w'.failed w'.queue))
    | time_out w' ↦
        if cfg.target_height == 0
        then (let w2 = record w' { failed = Map.put w'.target true w'.failed } in
            walk_from es (begin cfg net w2 (next_target w2.failed w2.queue)))
        else unserved
    | accept o b peer ↦ accepted o (peer ∷ others peer (net.order o.peers)) b
    | cancelled ↦ stopped
    | channel_closed ↦ stopped
    | crash ↦ panicked
  ]

abbrev pub targets_of : Config → List ℕ
targets_of cfg =
    if cfg.target_height == 0
    then walk_targets cfg.max_height cfg.min_height cfg.snapshot_interval
    else cfg.target_height ∷ []

abbrev pub first_walk : OfferSet → List ℕ → Walk
first_walk offers targets = record {
  offers = offers;
  queue = targets;
  failed = [];
  asked = [];
  jumps = 0;
  target = 0;
  evicted = [];
}

-- `walkBackward`, from the offers of the warm-up.
unfoldable pub walk_backward : (Bytes → Bytes) → Config → Net → OfferSet → List Event → Result
unfolding walk_from next_target effective_height_window walk_targets
walk_backward sha256 cfg net offers events =
    let window = effective_height_window cfg in
    let targets = targets_of window in
    if window.target_height == 0 && window.max_height == 0
    then exhausted
    else if length targets == 0
    then exhausted
    else walk_from sha256 window net (max_jumps targets) events
        (begin window net (first_walk offers targets) (next_target [] targets))
