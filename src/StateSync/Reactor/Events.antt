-- ===== src/StateSync/Reactor/Events.antt =====
-- internal/statesync/reactor.go: what becomes of the events that the reactor publishes.
use malcom.Prelude.{
  ℕ, zero, suc, ◌+◌, ◌≡◌, refl, sym, subst, Bool, false, List, [], ◌∷◌, ◌++◌, Option, none, some,
  String, Bytes, if_cases, arith, not, ltb, length, if◌then◌else◌,
}
use malcom.StateSync.Wire.{
  Event, Snapshot, Provider, Loaded, got, unreadable, Message, snapshots_request,
  snapshots_response, chunk_request, chunk_response, other, snapshot_event, chunk_event,
  connected_event, removed_event,
}
use malcom.StateSync.Reactor.Limits.{
  Platform, Reactor, limits_peers, publish_out, publish_chunk, sweep_stale_limiters,
  set_chunk_rate_limit, set_removed_at, new_reactor, out_capacity, out_chunks_capacity,
}
use malcom.StateSync.Reactor.Serve.{
  note_sent, send_snapshots, receive_snapshots_request, answer_drained, answer_chunk,
  load_and_answer, receive_chunk_request,
}
use malcom.StateSync.Reactor.Rule.{receive_chunk_request_rule}
use malcom.StateSync.Reactor.{
  Call, System, take_event, on_add_peer, on_remove_peer, on_request_chunk, on_receive, dispatch,
  on_call, step, run, start, set_provider, set_probe, limit_rate, begin_shutdown, add_peer,
  remove_peer, request_chunk, receive, take_out, take_chunk,
}

-- The events that a call publishes on `Out` and on `OutChunks`, whether or not there is room.
abbrev pub control_of : {Rate : Type 0} → Call Rate → List Event
control_of (add_peer id ok) = connected_event id ∷ []
control_of (remove_peer now id) = removed_event id ∷ []
control_of (receive now id (snapshots_response s) accepts) = snapshot_event id s ∷ []
control_of _ = []

abbrev pub chunks_of : {Rate : Type 0} → Call Rate → List Event
chunks_of (receive now id (chunk_response h f i bytes missing) accepts) =
    chunk_event id h f i bytes missing ∷ []
chunks_of _ = []

-- The same over a run, the newest first.
abbrev pub published :
    {Rate : Type 0} → (Call Rate → List Event) → List (Call Rate) → List Event → List Event
published of [] evs = evs
published of (c ∷ cs) evs = published of cs (of c ++ evs)

-- `Lossy all kept n`: what is left of `all` without `n` of its events, in the same order.
pub data Lossy : List Event → List Event → ℕ → Type 0 where
  done : Lossy [] [] zero
  keep : {ps xs : List Event} {n : ℕ} (e : Event) → Lossy ps xs n → Lossy (e ∷ ps) (e ∷ xs) n
  lose : {ps xs : List Event} {n : ℕ} (e : Event) → Lossy ps xs n → Lossy (e ∷ ps) xs (suc n)

-- A channel's events, the newest first, before those taken from it earlier.
abbrev onto : List Event → List Event → List Event
onto [] taken = taken
onto (ev ∷ evs) taken = onto evs (ev ∷ taken)

onto-append :
    (evs : List Event) (ev : Event) (taken : List Event)
    → onto (evs ++ (ev ∷ [])) taken ≡ ev ∷ onto evs taken
onto-append [] ev taken = refl
onto-append (e ∷ evs) ev taken = onto-append evs ev (e ∷ taken)

lose_one : {ps xs : List Event} {n : ℕ} → Lossy ps xs (suc n) → Lossy ps xs (n + 1)
lose_one {ps} {xs} {n} l =
    subst (λ (t : ℕ). Lossy ps xs t) (let e : suc n ≡ n + 1 = omega arith in e) l

module _ {Rate Bucket : Type 0} (lib : Platform Rate Bucket) where
  abbrev pub AccountsFor : List Event → List Event → System Rate Bucket → Type 0
  AccountsFor control chunks s =
      Lossy control (onto s.reactor.out s.delivered) s.reactor.drops_ctrl
      × Lossy chunks (onto s.reactor.out_chunks s.delivered_chunks) s.reactor.drops_chunk

  -- Serving touches no channel.
  module _ (control chunks taken taken_chunks : List Event) where
    abbrev Rest : Reactor Rate Bucket → Type 0
    Rest r =
        Lossy control (onto r.out taken) r.drops_ctrl
        × Lossy chunks (onto r.out_chunks taken_chunks) r.drops_chunk

    answer_chunk-Rest :
        (id : String) (h f i : ℕ) (ok : Bool) (bytes : Bytes) (found : Bool)
        (r : Reactor Rate Bucket)
        → Rest r
        → Rest (answer_chunk lib id h f i ok bytes found r)
    unfolding answer_chunk
    answer_chunk-Rest id h f i ok bytes found r a =
        if_cases Rest (not ok) a (if_cases Rest found a a)

    load_and_answer-Rest :
        (id : String) (h f i : ℕ) (ok : Bool) (l : Loaded) (r : Reactor Rate Bucket)
        → Rest r
        → Rest (load_and_answer lib id h f i ok l r)
    unfolding load_and_answer
    load_and_answer-Rest id h f i ok (got bytes found) r a =
        answer_chunk-Rest id h f i ok bytes found r a
    load_and_answer-Rest id h f i ok unreadable r a = answer_chunk-Rest id h f i ok [] false r a

    receive_chunk_request-Rest :
        (now : ℕ) (id : String) (h f i : ℕ) (ok : Bool) (r : Reactor Rate Bucket)
        → Rest r
        → Rest (receive_chunk_request lib now id h f i ok r)
    unfolding answer_drained
    receive_chunk_request-Rest now id h f i ok r a =
        receive_chunk_request_rule lib Rest r now id h f i ok (λ _. a) (λ _. if_cases Rest ok a a)
          (λ g _. a) (λ g m _ _. a)
          (λ p g m _ _ _. load_and_answer-Rest id h f i ok (p.load_chunk h f i) _ a)

    send_snapshots-Rest :
        (id : String) (accepts : ℕ → Bool) (k : ℕ) (ss : List Snapshot) (r : Reactor Rate Bucket)
        → Rest r
        → Rest (send_snapshots lib id accepts k ss r)
    unfolding send_snapshots
    send_snapshots-Rest id accepts k [] r a = a
    send_snapshots-Rest id accepts k (s ∷ ss) r a =
        send_snapshots-Rest id accepts (k + 1) ss _ (if_cases Rest (accepts k) a a)

    receive_snapshots_request-Rest :
        (id : String) (accepts : ℕ → Bool) (r : Reactor Rate Bucket)
        → Rest r
        → Rest (receive_snapshots_request lib id accepts r)
    unfolding receive_snapshots_request
    receive_snapshots_request-Rest id accepts r a = by_provider r.provider
      where
        by_provider :
            (o : Option Provider)
            → Rest
                (elim o [ none ↦ r | some p ↦ send_snapshots lib id accepts 0 p.list_snapshots r ])
        by_provider none = a
        by_provider (some p) = send_snapshots-Rest id accepts 0 p.list_snapshots r a

    sweep-Rest :
        (now : ℕ) (r : Reactor Rate Bucket) → Rest r → Rest (sweep_stale_limiters lib now r)
    unfolding sweep_stale_limiters
    sweep-Rest now r a = if_cases Rest (limits_peers lib r) a a

    on_probe-Rest :
        (id : String) (b ok : Bool) (r : Reactor Rate Bucket)
        → Rest r
        → Rest (if b then if ok then note_sent lib id snapshots_request r else r else r)
    unfolding note_sent
    on_probe-Rest id b ok r a = if_cases Rest b (if_cases Rest ok a a) a

  module _ (control chunks taken taken_chunks : List Event) (ev : Event) (r : Reactor Rate Bucket)
      (a : Rest control chunks taken taken_chunks r) where
    publish_out-Rest : Rest (ev ∷ control) chunks taken taken_chunks (publish_out ev r)
    unfolding publish_out
    publish_out-Rest =
        if_cases (Rest (ev ∷ control) chunks taken taken_chunks) (ltb (length r.out) out_capacity)
          (
            subst (λ (t : List Event). Lossy (ev ∷ control) t r.drops_ctrl)
                (sym (onto-append r.out ev taken)) (keep ev a.0),
            a.1,
          )
          (lose_one (lose ev a.0), a.1)

    publish_chunk-Rest : Rest control (ev ∷ chunks) taken taken_chunks (publish_chunk ev r)
    unfolding publish_chunk
    publish_chunk-Rest =
        if_cases (Rest control (ev ∷ chunks) taken taken_chunks)
          (ltb (length r.out_chunks) out_chunks_capacity)
          (
            a.0,
            subst (λ (t : List Event). Lossy (ev ∷ chunks) t r.drops_chunk)
                (sym (onto-append r.out_chunks ev taken_chunks)) (keep ev a.1),
          )
          (a.0, lose_one (lose ev a.1))

  dispatch-accounts :
      (now : ℕ) (id : String) (accepts : ℕ → Bool) (m : Message)
      (control chunks taken taken_chunks : List Event) (r : Reactor Rate Bucket)
      → Rest control chunks taken taken_chunks r
      → Rest
          (control_of {Rate = Rate} (receive now id m accepts) ++ control)
          (chunks_of {Rate = Rate} (receive now id m accepts) ++ chunks)
          taken
          taken_chunks
          (dispatch lib now id accepts m r)
  unfolding dispatch
  dispatch-accounts now id accepts snapshots_request control chunks t tc r a =
      receive_snapshots_request-Rest control chunks t tc id accepts r a
  dispatch-accounts now id accepts (snapshots_response s) control chunks t tc r a =
      publish_out-Rest control chunks t tc _ r a
  dispatch-accounts now id accepts (chunk_request h f i) control chunks t tc r a =
      receive_chunk_request-Rest control chunks t tc now id h f i (accepts 0) r a
  dispatch-accounts now id accepts (chunk_response h f i bytes missing) control chunks t tc r a =
      publish_chunk-Rest control chunks t tc _ r a
  dispatch-accounts now id accepts other control chunks t tc r a = a

  take-onto :
      (evs taken : List Event)
      → onto (take_event evs []).0 (take_event evs taken).1 ≡ onto evs taken
  take-onto [] taken = refl
  take-onto (ev ∷ evs) taken = refl

  step-AccountsFor :
      (c : Call Rate) (control chunks : List Event) (s : System Rate Bucket)
      → AccountsFor control chunks s
      → AccountsFor (control_of c ++ control) (chunks_of c ++ chunks) (step lib c s)
  unfolding step on_call on_add_peer on_remove_peer on_request_chunk on_receive set_chunk_rate_limit
      set_removed_at note_sent
  step-AccountsFor (set_provider p) control chunks s a = a
  step-AccountsFor (set_probe b) control chunks s a = a
  step-AccountsFor (limit_rate c) control chunks s a =
      if_cases (Rest control chunks s.delivered s.delivered_chunks) s.reactor.set_rate_called a a
  step-AccountsFor begin_shutdown control chunks s a = a
  step-AccountsFor (add_peer id ok) control chunks s a =
      on_probe-Rest _ chunks _ _ id s.reactor.probe ok _
        (publish_out-Rest control chunks _ _ (connected_event id) s.reactor a)
  step-AccountsFor (remove_peer now id) control chunks s a =
      sweep-Rest _ chunks _ _ now (set_removed_at now id (publish_out (removed_event id) s.reactor))
        (publish_out-Rest control chunks _ _ (removed_event id) s.reactor a)
  step-AccountsFor (request_chunk id h f i ok) control chunks s a =
      if_cases (Rest control chunks s.delivered s.delivered_chunks) ok a a
  step-AccountsFor (receive now id m accepts) control chunks s a =
      dispatch-accounts now id accepts m control chunks s.delivered s.delivered_chunks _ a
  step-AccountsFor take_out control chunks s a = (
    subst (λ (t : List Event). Lossy control t s.reactor.drops_ctrl)
        (sym (take-onto s.reactor.out s.delivered)) a.0,
    a.1,
  )
  step-AccountsFor take_chunk control chunks s a = (
    a.0,
    subst (λ (t : List Event). Lossy chunks t s.reactor.drops_chunk)
        (sym (take-onto s.reactor.out_chunks s.delivered_chunks)) a.1,
  )

  run-keeps :
      (cs : List (Call Rate)) (control chunks : List Event) (s : System Rate Bucket)
      → AccountsFor control chunks s
      → AccountsFor (published control_of cs control) (published chunks_of cs chunks) (run lib cs s)
  unfolding run
  run-keeps [] control chunks s a = a
  run-keeps (c ∷ cs) control chunks s a =
      run-keeps cs _ _ (step lib c s) (step-AccountsFor c control chunks s a)

  -- Whatever the calls, from the start: the events taken from `Out` and then those still in it are
  -- the connects, the disconnects and the offers in the order in which they happened, less as many
  -- as the drop counter says; those of `OutChunks` are the chunk responses in the same way.
  pub run-AccountsFor :
      (cs : List (Call Rate))
      → AccountsFor
          (published control_of cs [])
          (published chunks_of cs [])
          (run lib cs (start lib))
  unfolding start new_reactor
  run-AccountsFor cs = run-keeps cs [] [] (start lib) (done, done)
