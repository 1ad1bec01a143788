-- ===== src/StateSync/Mux.antt =====
-- internal/snapfetch/eventmux.go: the fan-out of the reactor's events to subscribers. The loop's
-- goroutine, the subscribers and `stop` interleave: a `Tick` is one step of any of them. The mutex
-- makes registering one step, and a fan-out goes to those registered when it starts.
use malcom.Prelude.{
  ℕ, zero, suc, ◌≡◌, refl, subst, Bool, true, List, [], ◌∷◌, ◌++◌, Option, none, some, ltb, ◌==◌,
  if◌then◌else◌, length, get_elem?, arith,
}
use malcom.StateSync.Wire.{Event}

abbrev sub_ctrl_buffer : ℕ
sub_ctrl_buffer = 256

abbrev sub_chunk_buffer : ℕ
sub_chunk_buffer = 8

-- A subscriber's inboxes, the oldest event first; the second is nil for `subscribeCtrl`.
pub record SubEntry : Type 0 where
  pub ctrl : List Event
  pub chunk : Option (List Event)

pub record EventMux : Type 0 where
  pub subs : List SubEntry
  pub cancelled : Bool

pub data Tick : Type 0 where
  from_ctrl from_chunk : Event → Tick
  take_ctrl take_chunk : ℕ → Tick
  subscribe subscribe_ctrl stop : Tick

-- A send with a default.
abbrev pub offer : ℕ → Event → List Event → List Event
offer room ev q = if ltb (length q) room then q ++ (ev ∷ []) else q

abbrev pub tail : List Event → List Event
tail [] = []
tail (ev ∷ q) = q

unfoldable pub send_ctrl : Event → SubEntry → SubEntry
send_ctrl ev s = record s { ctrl = offer sub_ctrl_buffer ev s.ctrl }

unfoldable pub send_chunk : Event → SubEntry → SubEntry
send_chunk ev s = record s {
  chunk = elim s.chunk [ none ↦ none | some q ↦ some (offer sub_chunk_buffer ev q) ];
}

unfoldable fanout_ctrl : Event → List SubEntry → List SubEntry
unfolding send_ctrl
fanout_ctrl ev [] = []
fanout_ctrl ev (s ∷ ss) = send_ctrl ev s ∷ fanout_ctrl ev ss

unfoldable fanout_chunk : Event → List SubEntry → List SubEntry
unfolding send_chunk
fanout_chunk ev [] = []
fanout_chunk ev (s ∷ ss) = send_chunk ev s ∷ fanout_chunk ev ss

-- A subscriber's own receive.
abbrev drop_ctrl : SubEntry → SubEntry
drop_ctrl s = record s { ctrl = tail s.ctrl }

abbrev drop_chunk : SubEntry → SubEntry
drop_chunk s = record s { chunk = elim s.chunk [ none ↦ none | some q ↦ some (tail q) ] }

unfoldable at_index : (SubEntry → SubEntry) → ℕ → List SubEntry → List SubEntry
at_index f k [] = []
at_index f zero (s ∷ ss) = f s ∷ ss
at_index f (suc k) (s ∷ ss) = s ∷ at_index f k ss

unfoldable pub tick : Tick → EventMux → EventMux
unfolding fanout_ctrl fanout_chunk at_index
tick (from_ctrl ev) m = if m.cancelled then m else record m { subs = fanout_ctrl ev m.subs }
tick (from_chunk ev) m = if m.cancelled then m else record m { subs = fanout_chunk ev m.subs }
tick (take_ctrl k) m = record m { subs = at_index drop_ctrl k m.subs }
tick (take_chunk k) m = record m { subs = at_index drop_chunk k m.subs }
tick subscribe m = record m { subs = m.subs ++ (record { ctrl = []; chunk = some [] } ∷ []) }
tick subscribe_ctrl m = record m { subs = m.subs ++ (record { ctrl = []; chunk = none } ∷ []) }
tick stop m = record m { cancelled = true }

unfoldable pub run : List Tick → EventMux → EventMux
unfolding tick
run [] m = m
run (t ∷ ts) m = run ts (tick t m)

-- What one subscriber sees of the ticks if it is the k-th.
abbrev alone_step : ℕ → Tick → Bool → SubEntry → SubEntry
alone_step k (from_ctrl ev) cancelled s = if cancelled then s else send_ctrl ev s
alone_step k (from_chunk ev) cancelled s = if cancelled then s else send_chunk ev s
alone_step k (take_ctrl j) cancelled s = if j == k then drop_ctrl s else s
alone_step k (take_chunk j) cancelled s = if j == k then drop_chunk s else s
alone_step k _ cancelled s = s

abbrev pub stops : Tick → Bool → Bool
stops stop cancelled = true
stops _ cancelled = cancelled

abbrev pub alone : ℕ → List Tick → Bool → SubEntry → SubEntry
alone k [] cancelled s = s
alone k (t ∷ ts) cancelled s = alone k ts (stops t cancelled) (alone_step k t cancelled s)

get-fanout_ctrl :
    (ev : Event) (ss : List SubEntry) (k : ℕ) {s : SubEntry}
    → get_elem? ss k ≡ some s
    → get_elem? (fanout_ctrl ev ss) k ≡ some (send_ctrl ev s)
unfolding fanout_ctrl
get-fanout_ctrl ev [] k e = cc
get-fanout_ctrl ev (x ∷ ss) zero e = cc
get-fanout_ctrl ev (x ∷ ss) (suc k) e = get-fanout_ctrl ev ss k e

get-fanout_chunk :
    (ev : Event) (ss : List SubEntry) (k : ℕ) {s : SubEntry}
    → get_elem? ss k ≡ some s
    → get_elem? (fanout_chunk ev ss) k ≡ some (send_chunk ev s)
unfolding fanout_chunk
get-fanout_chunk ev [] k e = cc
get-fanout_chunk ev (x ∷ ss) zero e = cc
get-fanout_chunk ev (x ∷ ss) (suc k) e = get-fanout_chunk ev ss k e

get-at_index :
    (f : SubEntry → SubEntry) (j : ℕ) (ss : List SubEntry) (k : ℕ) {s : SubEntry}
    → get_elem? ss k ≡ some s
    → get_elem? (at_index f j ss) k ≡ some (if j == k then f s else s)
unfolding at_index
get-at_index f j [] k e = cc
get-at_index f zero (x ∷ ss) zero e = cc
get-at_index f zero (x ∷ ss) (suc k) e = ground arith
get-at_index f (suc j) (x ∷ ss) zero e = ground arith
get-at_index f (suc j) (x ∷ ss) (suc k) {s} e =
    subst (λ (b : Bool). get_elem? (at_index f j ss) k ≡ some (if b then f s else s))
      (let q : (j == k) ≡ (suc j == suc k) = ground arith in q) (get-at_index f j ss k e)

get-append :
    (ss ts : List SubEntry) (k : ℕ) {s : SubEntry}
    → get_elem? ss k ≡ some s
    → get_elem? (ss ++ ts) k ≡ some s
get-append [] ts k e = cc
get-append (x ∷ ss) ts zero e = e
get-append (x ∷ ss) ts (suc k) e = get-append ss ts k e

tick-alone :
    (t : Tick) (m : EventMux) (k : ℕ) {s : SubEntry}
    → get_elem? m.subs k ≡ some s
    → (get_elem? (tick t m).subs k ≡ some (alone_step k t m.cancelled s))
      × ((tick t m).cancelled ≡ stops t m.cancelled)
unfolding tick
tick-alone (from_ctrl ev) m k e = ground (arith, get-fanout_ctrl ev m.subs k e)
tick-alone (from_chunk ev) m k e = ground (arith, get-fanout_chunk ev m.subs k e)
tick-alone (take_ctrl j) m k e = (get-at_index drop_ctrl j m.subs k e, refl)
tick-alone (take_chunk j) m k e = (get-at_index drop_chunk j m.subs k e, refl)
tick-alone subscribe m k e = (get-append m.subs _ k e, refl)
tick-alone subscribe_ctrl m k e = (get-append m.subs _ k e, refl)
tick-alone stop m k e = (e, refl)

-- A subscriber sees of any run what it would see if there were no other: its inboxes hold what the
-- reactor's events and its own receives make of them, whoever else registers, and however slowly
-- the others read.
pub run-alone :
    (ts : List Tick) (m : EventMux) (k : ℕ) {s : SubEntry}
    → get_elem? m.subs k ≡ some s
    → get_elem? (run ts m).subs k ≡ some (alone k ts m.cancelled s)
unfolding run
run-alone [] m k e = e
run-alone (t ∷ ts) m k {s} e =
    subst
      (λ (c : Bool).
        get_elem? (run ts (tick t m)).subs k ≡ some (alone k ts c (alone_step k t m.cancelled s)))
      (tick-alone t m k e).1 (run-alone ts (tick t m) k (tick-alone t m k e).0)
