-- ===== src/StateSync/Reactor/Buckets.antt =====
-- internal/statesync/reactor.go: a peer's rate limiter outlives its disconnects.
use malcom.Prelude.{
  ℕ, ◌+◌, ◌-◌, ◌*◌, ◌++◌, ◌≤◌, ◌≡◌, ◌≢◌, ◌⊎◌, inl, inr, refl, Bool, true, false, ◌&&◌, List, [],
  ◌∷◌, Option, none, some, String, if_cases, if_split, ltb, not, if◌then◌else◌, subst, sym, ◌∙◌,
  arith, Bool-cases,
}
use malcom.StateSync.Wire.{
  Event, Snapshot, Provider, Loaded, got, unreadable, Message, snapshots_request,
  snapshots_response, chunk_request, chunk_response, other, connected_event, removed_event,
}
use malcom.StateSync.Reactor.Limits.{
  Platform, LimiterEntry, Reactor, swept, peer_limiter, pass_peer, limits_peers, publish_out,
  publish_chunk, sweep_stale_limiters, set_chunk_rate_limit, set_removed_at,
}
use malcom.StateSync.Reactor.Serve.{
  note_sent, send_snapshots, receive_snapshots_request, answer_drained, answer_chunk,
  load_and_answer, receive_chunk_request,
}
use malcom.StateSync.Reactor.Rule.{receive_chunk_request_rule}
use malcom.StateSync.Reactor.{
  Call, System, on_add_peer, on_remove_peer, on_request_chunk, on_receive, dispatch, on_call, step,
  run, set_provider, set_probe, limit_rate, begin_shutdown, add_peer, remove_peer, request_chunk,
  receive, take_out, take_chunk,
}
use text.Mathlib.Text.{◌==◌ as str_eq}
use mathlib.Core.Bool.{false≢true}
use malcom.Prelude.Map
use malcom.Prelude.Map.{Map, string_key}

-- A tombstone that is allowed: one from `t` on, or none at all.
abbrev pub Late : Option ℕ → ℕ → Type 0
Late none n = ⊥
Late (some t) n = t ≤ n

-- A sweep that evicts no allowed tombstone.
abbrev IsEarly : Option ℕ → ℕ → Type 0
IsEarly none cutoff = Unit
IsEarly (some t) cutoff = cutoff ≤ t

-- What the map holds at a key: an entry with the bucket `b`, of a connected peer or with an allowed
-- tombstone.
module _ {Bucket : Type 0} (b : Bucket) (t : Option ℕ) where
  abbrev pub Holds : Option (LimiterEntry Bucket) → Type 0
  Holds none = ⊥
  Holds (some e) = (e.lim ≡ b) × ((e.removed_at ≡ 0) ⊎ Late t e.removed_at)

  never_stale :
      (cutoff : ℕ) (e : LimiterEntry Bucket)
      → IsEarly t cutoff
      → (e.removed_at ≡ 0) ⊎ Late t e.removed_at
      → (ltb 0 e.removed_at && ltb e.removed_at cutoff) ≡ true
      → ⊥
  never_stale cutoff e le (inl z) stale = ground arith
  never_stale cutoff e le (inr l) stale = by_tomb t le l
    where
      by_tomb : (o : Option ℕ) → IsEarly o cutoff → Late o e.removed_at → ⊥
      by_tomb none u l = elim l [ ]
      by_tomb (some t) u l = ground arith

  either :
      (id : String) (x : Bool) (xs ys : Map String (LimiterEntry Bucket))
      → ((x ≡ true) → Holds (Map.get id xs))
      → ((x ≡ false) → Holds (Map.get id ys))
      → Holds (Map.get id (if x then xs else ys))
  either id true xs ys f g = f refl
  either id false xs ys f g = g refl

  swept-Holds :
      (cutoff : ℕ) (id : String) (m : Map String (LimiterEntry Bucket))
      → IsEarly t cutoff
      → Holds (Map.get id m)
      → Holds (Map.get id (swept cutoff m))
  unfolding swept Map.get
  swept-Holds cutoff id [] le h = h
  swept-Holds cutoff id ((j, e) ∷ m) le h = elim (Bool-cases (str_eq j id)) [
    | inl same ↦
        let held : Holds (some e) = rw same at h in
        either id (ltb 0 e.removed_at && ltb e.removed_at cutoff) (swept cutoff m)
          ((j, e) ∷ swept cutoff m) (λ stale. absurd (never_stale cutoff e le held.1 stale))
          (λ _. rw same held)
    | inr apart ↦
        let below : Holds (Map.get id m) = rw apart at h in
        let kept = swept-Holds cutoff id m le below in
        either id (ltb 0 e.removed_at && ltb e.removed_at cutoff) (swept cutoff m)
          ((j, e) ∷ swept cutoff m) (λ _. kept) (λ _. rw apart kept)
  ]

  modify-Holds :
      (now : ℕ) (id j : String) (m : Map String (LimiterEntry Bucket))
      → ((now ≡ 0) ⊎ Late t now)
      → Holds (Map.get id m)
      → Holds
          (Map.get id (Map.modify j (λ (e : LimiterEntry Bucket). record e { removed_at = now }) m))
  unfolding Map.get Map.modify
  modify-Holds now id j [] late h = h
  modify-Holds now id j ((i, e) ∷ m) late h = elim (Bool-cases (str_eq i id)) [
    | inl same ↦
        let held : Holds (some e) = rw same at h in
        let late_held : Holds (Map.get id ((i, buried e) ∷ m)) = rw same (held.0, late) in
        either id (str_eq i j) ((i, buried e) ∷ m) ((i, e) ∷ Map.modify j buried m) (λ _. late_held)
          (λ _. rw same held)
    | inr apart ↦
        let below : Holds (Map.get id m) = rw apart at h in
        let skip : Holds (Map.get id ((i, buried e) ∷ m)) = rw apart below in
        let kept : Holds (Map.get id ((i, e) ∷ Map.modify j buried m)) =
          rw apart (modify-Holds now id j m late below) in
        either id (str_eq i j) ((i, buried e) ∷ m) ((i, e) ∷ Map.modify j buried m) (λ _. skip)
          (λ _. kept)
  ]
    where
      buried : LimiterEntry Bucket → LimiterEntry Bucket
      buried x = record x { removed_at = now }

-- A disconnect that leaves the bucket of `id` alone: with a time `t`, one no earlier than `t` and no
-- later than `window` after it; without one, that of another peer, at any time.
abbrev Timely : String → Option ℕ → ℕ → ℕ → String → Type 0
Timely id (some t) window now j = (t ≤ now) × (now ≤ t + window)
Timely id none window now j = j ≢ id

-- A call that leaves it alone: such a disconnect, and a chunk request only from another peer.
abbrev Spares : {Rate : Type 0} → String → Option ℕ → ℕ → Call Rate → Type 0
Spares id t window (remove_peer now j) = Timely id t window now j
Spares id t window (receive now j (chunk_request h f i) accepts) = j ≢ id
Spares id t window _ = Unit

abbrev AllSpare : {Rate : Type 0} → String → Option ℕ → ℕ → List (Call Rate) → Type 0
AllSpare id t window [] = Unit
AllSpare id t window (c ∷ cs) = Spares id t window c × AllSpare id t window cs

module _ {Rate Bucket : Type 0} (lib : Platform Rate Bucket) (id : String) (b : Bucket)
    (t : Option ℕ) (burst : ℕ) (rate : Rate) where
  record Pinned (called : Bool) (now_burst : ℕ) (now_rate : Rate)
      (m : Map String (LimiterEntry Bucket)) : Type 0 where
    pub once : called ≡ true
    pub same_burst : now_burst ≡ burst
    pub same_rate : now_rate ≡ rate
    pub holds : Holds b t (Map.get id m)

  abbrev KeepsBucket : Reactor Rate Bucket → Type 0
  KeepsBucket r =
      Pinned r.set_rate_called r.chunk_burst_per_peer r.chunk_rate_per_peer r.peer_limiters

  -- Another peer's request.
  peer_limiter-Holds :
      (j : String) (r : Reactor Rate Bucket)
      → j ≢ id
      → Holds b t (Map.get id r.peer_limiters)
      → Holds b t (Map.get id (peer_limiter lib j r).1)
  unfolding peer_limiter
  peer_limiter-Holds j r ne h = by_entry (Map.get j r.peer_limiters)
    where
      by_entry :
          (o : Option (LimiterEntry Bucket))
          → Holds b t (
              Map.get id
                (elim o as (λ _. Bucket × Map String (LimiterEntry Bucket)) [
                  | some e ↦ (e.lim, r.peer_limiters)
                  | none ↦
                      let fresh = lib.new_limiter r.chunk_rate_per_peer r.chunk_burst_per_peer in
                      (fresh, Map.put j record { lim = fresh; removed_at = 0 } r.peer_limiters)
                ]).1)
      by_entry none = rw (Map.get-put_ne id j _ r.peer_limiters ne) h
      by_entry (some e) = h

  pass_peer-Holds :
      (now : ℕ) (j : String) (r : Reactor Rate Bucket)
      → j ≢ id
      → Holds b t (Map.get id r.peer_limiters)
      → Holds b t (Map.get id (pass_peer lib now j r).1.peer_limiters)
  unfolding pass_peer
  pass_peer-Holds now j r ne h =
      if_cases (λ (x : Bool × Reactor Rate Bucket). Holds b t (Map.get id x.1.peer_limiters))
        (limits_peers lib r)
        (rw (Map.get-modify_ne id j _ (peer_limiter lib j r).1 ne) (peer_limiter-Holds j r ne h)) h

  moved :
      {called : Bool} {now_burst : ℕ} {now_rate : Rate} {m m' : Map String (LimiterEntry Bucket)}
      → Pinned called now_burst now_rate m
      → Holds b t (Map.get id m')
      → Pinned called now_burst now_rate m'
  moved k h = record {
    once = k.once;
    same_burst = k.same_burst;
    same_rate = k.same_rate;
    holds = h;
  }

  load_and_answer-KeepsBucket :
      (j : String) (h f i : ℕ) (ok : Bool) (l : Loaded) (r : Reactor Rate Bucket)
      → KeepsBucket r
      → KeepsBucket (load_and_answer lib j h f i ok l r)
  unfolding load_and_answer answer_chunk note_sent
  load_and_answer-KeepsBucket j h f i ok (got bytes found) r k =
      if_cases KeepsBucket (not ok) k (if_cases KeepsBucket found k k)
  load_and_answer-KeepsBucket j h f i ok unreadable r k = if_cases KeepsBucket (not ok) k k

  receive_chunk_request-KeepsBucket :
      (now : ℕ) (j : String) (h f i : ℕ) (ok : Bool) (r : Reactor Rate Bucket)
      → j ≢ id
      → KeepsBucket r
      → KeepsBucket (receive_chunk_request lib now j h f i ok r)
  unfolding answer_drained note_sent
  receive_chunk_request-KeepsBucket now j h f i ok r ne k =
      receive_chunk_request_rule lib KeepsBucket r now j h f i ok (λ _. k)
        (λ _. if_cases KeepsBucket ok k k) (λ g _. k) (λ g m e _. moved k (after e))
        (λ p g m e _ _.
          load_and_answer-KeepsBucket j h f i ok (p.load_chunk h f i) _ (moved k (after e)))
    where
      after :
          {m : Map String (LimiterEntry Bucket)}
          → m ≡ (pass_peer lib now j r).1.peer_limiters
          → Holds b t (Map.get id m)
      after e =
          subst (λ (m : Map String (LimiterEntry Bucket)). Holds b t (Map.get id m)) (sym e)
            (pass_peer-Holds now j r ne k.holds)

  send_snapshots-KeepsBucket :
      (j : String) (accepts : ℕ → Bool) (n : ℕ) (ss : List Snapshot) (r : Reactor Rate Bucket)
      → KeepsBucket r
      → KeepsBucket (send_snapshots lib j accepts n ss r)
  unfolding send_snapshots note_sent
  send_snapshots-KeepsBucket j accepts n [] r k = k
  send_snapshots-KeepsBucket j accepts n (s ∷ ss) r k =
      send_snapshots-KeepsBucket j accepts (n + 1) ss _ (if_cases KeepsBucket (accepts n) k k)

  dispatch-KeepsBucket :
      (now : ℕ) (j : String) (accepts : ℕ → Bool) (m : Message) (window : ℕ)
      (r : Reactor Rate Bucket)
      → Spares {Rate = Rate} id t window (receive now j m accepts)
      → KeepsBucket r
      → KeepsBucket (dispatch lib now j accepts m r)
  unfolding dispatch publish_out publish_chunk receive_snapshots_request
  dispatch-KeepsBucket now j accepts snapshots_request window r s k = by_provider r.provider
    where
      by_provider :
          (o : Option Provider)
          → KeepsBucket
              (elim o [ none ↦ r | some p ↦ send_snapshots lib j accepts 0 p.list_snapshots r ])
      by_provider none = k
      by_provider (some p) = send_snapshots-KeepsBucket j accepts 0 p.list_snapshots r k
  dispatch-KeepsBucket now j accepts (snapshots_response o) window r s k =
      if_cases KeepsBucket _ k k
  dispatch-KeepsBucket now j accepts (chunk_request h f i) window r s k =
      receive_chunk_request-KeepsBucket now j h f i (accepts 0) r s k
  dispatch-KeepsBucket now j accepts (chunk_response h f i bytes missing) window r s k =
      if_cases KeepsBucket _ k k
  dispatch-KeepsBucket now j accepts other window r s k = k

  sweep-KeepsBucket :
      (now : ℕ) (r : Reactor Rate Bucket)
      → IsEarly t (now - 2 * lib.refill burst rate)
      → KeepsBucket r
      → KeepsBucket (sweep_stale_limiters lib now r)
  unfolding sweep_stale_limiters
  sweep-KeepsBucket now r le k =
      if_cases KeepsBucket (limits_peers lib r)
        (moved k (swept-Holds b t _ id r.peer_limiters (rw (k.same_burst, k.same_rate) le) k.holds))
        k

  bury-KeepsBucket :
      (now : ℕ) (j : String) (r : Reactor Rate Bucket)
      → (j ≢ id) ⊎ ((now ≡ 0) ⊎ Late t now)
      → KeepsBucket r
      → KeepsBucket (set_removed_at now j r)
  unfolding set_removed_at
  bury-KeepsBucket now j r (inl ne) k =
      moved k (rw (Map.get-modify_ne id j _ r.peer_limiters ne) k.holds)
  bury-KeepsBucket now j r (inr late) k =
      moved k (modify-Holds b t now id j r.peer_limiters late k.holds)

  -- A disconnect that spares the peer leaves no tombstone that a sweep then takes.
  timely :
      (o : Option ℕ) (now window : ℕ) (j : String)
      → Timely id o window now j
      → ((j ≢ id) ⊎ ((now ≡ 0) ⊎ Late o now)) × IsEarly o (now - window)
  timely none now window j s = (inl s, tt)
  timely (some u) now window j s = (inr (inr s.0), omega (arith, s.1))

  publish_out-KeepsBucket :
      (ev : Event) (r : Reactor Rate Bucket) → KeepsBucket r → KeepsBucket (publish_out ev r)
  unfolding publish_out
  publish_out-KeepsBucket ev r k = if_cases KeepsBucket _ k k

  on_call-KeepsBucket :
      (c : Call Rate) (r : Reactor Rate Bucket)
      → Spares id t (2 * lib.refill burst rate) c
      → KeepsBucket r
      → KeepsBucket (on_call lib c r)
  unfolding on_call on_add_peer on_remove_peer on_request_chunk on_receive set_chunk_rate_limit
      note_sent
  on_call-KeepsBucket (set_provider o) r s k = k
  on_call-KeepsBucket (set_probe x) r s k = k
  on_call-KeepsBucket (limit_rate c) r s k =
      if_split KeepsBucket r.set_rate_called (λ _. k) (λ e. absurd (false≢true (sym e ∙ k.once)))
  on_call-KeepsBucket begin_shutdown r s k = k
  on_call-KeepsBucket (add_peer j ok) r s k =
      if_cases KeepsBucket r.probe (if_cases KeepsBucket ok back back) back
    where
      back : KeepsBucket (set_removed_at 0 j (publish_out (connected_event j) r))
      back =
          bury-KeepsBucket 0 j (publish_out (connected_event j) r) (inr (inl refl))
            (publish_out-KeepsBucket (connected_event j) r k)
  on_call-KeepsBucket (remove_peer now j) r s k =
      let (late, early) = timely t now (2 * lib.refill burst rate) j s in
      sweep-KeepsBucket now (set_removed_at now j (publish_out (removed_event j) r)) early (
        bury-KeepsBucket now j (publish_out (removed_event j) r) late
          (publish_out-KeepsBucket (removed_event j) r k))
  on_call-KeepsBucket (request_chunk j h f i ok) r s k = if_cases KeepsBucket ok k k
  on_call-KeepsBucket (receive now j m accepts) r s k =
      dispatch-KeepsBucket now j accepts m (2 * lib.refill burst rate)
        (record r { bytes_recv = r.bytes_recv + lib.size m }) s k
  on_call-KeepsBucket take_out r s k = k
  on_call-KeepsBucket take_chunk r s k = k

  run-KeepsBucket :
      (cs : List (Call Rate)) (s : System Rate Bucket)
      → AllSpare id t (2 * lib.refill burst rate) cs
      → KeepsBucket s.reactor
      → KeepsBucket (run lib cs s).reactor
  unfolding run step
  run-KeepsBucket [] s h k = k
  run-KeepsBucket (c ∷ cs) s h k =
      run-KeepsBucket cs (step lib c s) h.1 (on_call-KeepsBucket c s.reactor h.0 k)

-- A peer that comes back loses its tombstone.
reset :
    {Bucket : Type 0} (b : Bucket) (t : Option ℕ) (id : String)
    (m : Map String (LimiterEntry Bucket))
    → Holds b t (Map.get id m)
    → Holds b none
        (Map.get id (Map.modify id (λ (e : LimiterEntry Bucket). record e { removed_at = 0 }) m))
unfolding Map.get Map.modify
reset b t id [] h = h
reset b t id ((j, e) ∷ m) h = elim (Bool-cases (str_eq j id)) [
  | inl same ↦ let held : Holds b t (some e) = rw same at h in rw (same, same) (held.0, inl refl)
  | inr apart ↦
      let below : Holds b t (Map.get id m) = rw apart at h in
      rw (apart, apart) (reset b t id m below)
]

module _ {Rate Bucket : Type 0} (lib : Platform Rate Bucket) (id : String) (b : Bucket)
    (t : Option ℕ) (burst : ℕ) (rate : Rate) where
  add_peer-KeepsBucket :
      (ok : Bool) (r : Reactor Rate Bucket)
      → KeepsBucket lib id b t burst rate r
      → KeepsBucket lib id b none burst rate (on_call lib (add_peer id ok) r)
  unfolding on_call on_add_peer set_removed_at publish_out note_sent
  add_peer-KeepsBucket ok r k =
      if_cases (KeepsBucket lib id b none burst rate) r.probe
        (if_cases (KeepsBucket lib id b none burst rate) ok back back) back
    where
      back :
          KeepsBucket lib id b none burst rate
            (set_removed_at 0 id (publish_out (connected_event id) r))
      back =
          let after = publish_out-KeepsBucket lib id b t burst rate (connected_event id) r k in
          record {
            once = after.once;
            same_burst = after.same_burst;
            same_rate = after.same_rate;
            holds = reset b t id (publish_out (connected_event id) r).peer_limiters after.holds;
          }

run-append :
    {Rate Bucket : Type 0} (lib : Platform Rate Bucket) (cs ds : List (Call Rate))
    (s : System Rate Bucket)
    → run lib (cs ++ ds) s ≡ run lib ds (run lib cs s)
unfolding run
run-append lib [] ds s = refl
run-append lib (c ∷ cs) ds s = run-append lib cs ds (step lib c s)

-- The map holds the entry of a connected peer, with the bucket `b`.
abbrev pub IsPresent : {Bucket : Type 0} → Bucket → Option (LimiterEntry Bucket) → Type 0
IsPresent b none = ⊥
IsPresent b (some e) = (e.lim ≡ b) × (e.removed_at ≡ 0)

Holds→IsPresent :
    {Bucket : Type 0} (b : Bucket) (o : Option (LimiterEntry Bucket))
    → Holds b none o
    → IsPresent b o
Holds→IsPresent b none h = h
Holds→IsPresent b (some e) (same, inl z) = (same, z)
Holds→IsPresent b (some e) (same, inr l) = elim l [ ]

-- The rates being set, take a peer with a limiter that is connected or was disconnected at `t` or
-- later. First a run in which it asks for no chunk and every disconnect, of whatever peer, falls between
-- `t` and `t` plus the refill time twice; then the peer connects; then a run, of any length, in which it
-- asks for no chunk and does not disconnect. At the end the map holds its limiter, as that of a connected
-- peer and in the same state: to disconnect and to come back refills nothing, and once it is back no
-- sweep evicts it, at whatever time.
pub run-IsPresent :
    {Rate Bucket : Type 0} (lib : Platform Rate Bucket) (id : String) (b : Bucket) (t : ℕ)
    (ok : Bool) (cs ds : List (Call Rate)) (s : System Rate Bucket)
    → s.reactor.set_rate_called ≡ true
    → Holds b (some t) (Map.get id s.reactor.peer_limiters)
    → let window = 2 * lib.refill s.reactor.chunk_burst_per_peer s.reactor.chunk_rate_per_peer in
      AllSpare id (some t) window cs
      → AllSpare id none window ds
      → IsPresent b (Map.get id (run lib (cs ++ add_peer id ok ∷ ds) s).reactor.peer_limiters)
unfolding run step
run-IsPresent lib id b t ok cs ds s e h spare later =
    let burst = s.reactor.chunk_burst_per_peer in
    let rate = s.reactor.chunk_rate_per_peer in
    let before =
      run-KeepsBucket lib id b (some t) burst rate cs s spare
        record { once = e; same_burst = refl; same_rate = refl; holds = h } in
    let mid = run lib cs s in
    let back = add_peer-KeepsBucket lib id b (some t) burst rate ok mid.reactor before in
    let last =
      run-KeepsBucket lib id b none burst rate ds (step lib (add_peer id ok) mid) later back in
    rw (run-append lib cs (add_peer id ok ∷ ds) s) (
      Holds→IsPresent b
        (Map.get id (run lib ds (step lib (add_peer id ok) mid)).reactor.peer_limiters) last.holds)
