-- ===== src/StateSync/Reactor/Answers.antt =====
-- internal/statesync/reactor.go: what the reactor answers to chunk requests, over any run.
use malcom.Prelude.{
  ℕ, ◌+◌, ◌≤◌, ◌≡◌, refl, Bool, true, false, List, [], ◌∷◌, Option, none, some, String, Bytes,
  if_cases, arith, not, subst,
}
use malcom.StateSync.Wire.{
  Event, Snapshot, Provider, Loaded, got, unreadable, Message, snapshots_request,
  snapshots_response, chunk_request, chunk_response, other, connected_event, removed_event,
}
use malcom.StateSync.Reactor.Limits.{
  Platform, Reactor, publish_out, publish_chunk, sweep_stale_limiters, set_chunk_rate_limit,
  set_removed_at, new_reactor,
}
use malcom.StateSync.Reactor.Serve.{
  note_sent, send_snapshots, receive_snapshots_request, answer_drained, answer_chunk,
  load_and_answer, receive_chunk_request,
}
use malcom.StateSync.Reactor.Rule.{receive_chunk_request_rule}
use malcom.StateSync.Reactor.{
  Call, System, on_add_peer, on_remove_peer, on_request_chunk, on_receive, dispatch, on_call, step,
  run, start, set_provider, set_probe, limit_rate, begin_shutdown, add_peer, remove_peer,
  request_chunk, receive, take_out, take_chunk,
}

-- An answer with a payload carries bytes of which `Good` holds.
abbrev IsGenuine : (ℕ → ℕ → ℕ → Bytes → Type 0) → Message → Type 0
IsGenuine Good (chunk_response h f i bytes false) = Good h f i bytes
IsGenuine Good _ = Unit

abbrev pub AllGenuine : (ℕ → ℕ → ℕ → Bytes → Type 0) → List (String × Message) → Type 0
AllGenuine Good [] = Unit
AllGenuine Good ((id, m) ∷ ms) = IsGenuine Good m × AllGenuine Good ms

-- A provider finds only such bytes.
abbrev pub IsSound : (ℕ → ℕ → ℕ → Bytes → Type 0) → Option Provider → Type 0
IsSound Good none = Unit
IsSound Good (some p) =
    (h f i : ℕ) (bytes : Bytes) → p.load_chunk h f i ≡ got bytes true → Good h f i bytes

abbrev pub InstallsSound :
    {Rate : Type 0} → (ℕ → ℕ → ℕ → Bytes → Type 0) → List (Call Rate) → Type 0
InstallsSound Good [] = Unit
InstallsSound Good (set_provider o ∷ cs) = IsSound Good o × InstallsSound Good cs
InstallsSound Good (_ ∷ cs) = InstallsSound Good cs

-- The answers sent and the requests received, each counted by its peer and its key.
abbrev pub answered : (String → ℕ → ℕ → ℕ → ℕ) → List (String × Message) → ℕ
answered weight [] = 0
answered weight ((id, chunk_response h f i bytes missing) ∷ ms) =
    weight id h f i + answered weight ms
answered weight ((id, _) ∷ ms) = answered weight ms

abbrev pub asked : {Rate : Type 0} → (String → ℕ → ℕ → ℕ → ℕ) → Call Rate → ℕ → ℕ
asked weight (receive now id (chunk_request h f i) accepts) n = weight id h f i + n
asked weight _ n = n

abbrev pub all_asked : {Rate : Type 0} → (String → ℕ → ℕ → ℕ → ℕ) → List (Call Rate) → ℕ → ℕ
all_asked weight [] n = n
all_asked weight (c ∷ cs) n = all_asked weight cs (asked weight c n)

module _ {Rate Bucket : Type 0} (lib : Platform Rate Bucket) (Good : ℕ → ℕ → ℕ → Bytes → Type 0)
    (weight : String → ℕ → ℕ → ℕ → ℕ) where
  abbrev pub IsHonest : ℕ → Reactor Rate Bucket → Type 0
  IsHonest n r = IsSound Good r.provider × AllGenuine Good r.sent × (answered weight r.sent ≤ n)

  answer_drained-IsHonest :
      (id : String) (h f i : ℕ) (ok : Bool) (n : ℕ) (r : Reactor Rate Bucket)
      → IsHonest n r
      → IsHonest (weight id h f i + n) (answer_drained lib id h f i ok r)
  unfolding answer_drained note_sent
  answer_drained-IsHonest id h f i ok n r a =
      if_cases (IsHonest (weight id h f i + n)) ok (a.0, (tt, a.1), omega arith)
        (a.0, a.1, omega arith)

  load_and_answer-IsHonest :
      (id : String) (h f i : ℕ) (ok : Bool) (l : Loaded) (n : ℕ) (r : Reactor Rate Bucket)
      → ((bytes : Bytes) → l ≡ got bytes true → Good h f i bytes)
      → IsHonest n r
      → IsHonest (weight id h f i + n) (load_and_answer lib id h f i ok l r)
  unfolding load_and_answer answer_chunk note_sent
  load_and_answer-IsHonest id h f i ok (got bytes true) n r good a =
      if_cases (IsHonest (weight id h f i + n)) (not ok) (a.0, a.1, omega arith)
        (a.0, (good bytes refl, a.1), omega arith)
  load_and_answer-IsHonest id h f i ok (got bytes false) n r good a =
      if_cases (IsHonest (weight id h f i + n)) (not ok) (a.0, a.1, omega arith)
        (a.0, (tt, a.1), omega arith)
  load_and_answer-IsHonest id h f i ok unreadable n r good a =
      if_cases (IsHonest (weight id h f i + n)) (not ok) (a.0, a.1, omega arith)
        (a.0, (tt, a.1), omega arith)

  receive_chunk_request-IsHonest :
      (now : ℕ) (id : String) (h f i : ℕ) (ok : Bool) (n : ℕ) (r : Reactor Rate Bucket)
      → IsHonest n r
      → IsHonest (weight id h f i + n) (receive_chunk_request lib now id h f i ok r)
  receive_chunk_request-IsHonest now id h f i ok n r a =
      receive_chunk_request_rule lib (IsHonest (weight id h f i + n)) r now id h f i ok (λ _. more)
        (λ _. answer_drained-IsHonest id h f i ok n r a) (λ g _. more) (λ g m _ _. more)
        (λ p g m _ e _.
          load_and_answer-IsHonest id h f i ok (p.load_chunk h f i) n _
            (subst (λ (o : Option Provider). IsSound Good o) e a.0 h f i) a)
    where
      more : IsHonest (weight id h f i + n) r
      more = (a.0, a.1, omega arith)

  send_snapshots-IsHonest :
      (id : String) (accepts : ℕ → Bool) (k : ℕ) (ss : List Snapshot) (n : ℕ)
      (r : Reactor Rate Bucket)
      → IsHonest n r
      → IsHonest n (send_snapshots lib id accepts k ss r)
  unfolding send_snapshots note_sent
  send_snapshots-IsHonest id accepts k [] n r a = a
  send_snapshots-IsHonest id accepts k (s ∷ ss) n r a =
      send_snapshots-IsHonest id accepts (k + 1) ss n _
        (if_cases (IsHonest n) (accepts k) (a.0, (tt, a.1), a.2) a)

  receive_snapshots_request-IsHonest :
      (id : String) (accepts : ℕ → Bool) (n : ℕ) (r : Reactor Rate Bucket)
      → IsHonest n r
      → IsHonest n (receive_snapshots_request lib id accepts r)
  unfolding receive_snapshots_request
  receive_snapshots_request-IsHonest id accepts n r a = by_provider r.provider
    where
      by_provider :
          (o : Option Provider)
          → IsHonest n
              (elim o [ none ↦ r | some p ↦ send_snapshots lib id accepts 0 p.list_snapshots r ])
      by_provider none = a
      by_provider (some p) = send_snapshots-IsHonest id accepts 0 p.list_snapshots n r a

  dispatch-IsHonest :
      (now : ℕ) (id : String) (accepts : ℕ → Bool) (m : Message) (n : ℕ) (r : Reactor Rate Bucket)
      → IsHonest n r
      → IsHonest
          (asked {Rate = Rate} weight (receive now id m accepts) n)
          (dispatch lib now id accepts m r)
  unfolding dispatch publish_out publish_chunk
  dispatch-IsHonest now id accepts snapshots_request n r a =
      receive_snapshots_request-IsHonest id accepts n r a
  dispatch-IsHonest now id accepts (snapshots_response s) n r a = if_cases (IsHonest n) _ a a
  dispatch-IsHonest now id accepts (chunk_request h f i) n r a =
      receive_chunk_request-IsHonest now id h f i (accepts 0) n r a
  dispatch-IsHonest now id accepts (chunk_response h f i bytes missing) n r a =
      if_cases (IsHonest n) _ a a
  dispatch-IsHonest now id accepts other n r a = a

  publish_out-IsHonest :
      (ev : Event) (n : ℕ) (r : Reactor Rate Bucket) → IsHonest n r → IsHonest n (publish_out ev r)
  unfolding publish_out
  publish_out-IsHonest ev n r a = if_cases (IsHonest n) _ a a

  remove_peer-IsHonest :
      (now : ℕ) (id : String) (n : ℕ) (r : Reactor Rate Bucket)
      → IsHonest n r
      → IsHonest n (on_remove_peer lib now id r)
  unfolding on_remove_peer set_removed_at sweep_stale_limiters
  remove_peer-IsHonest now id n r a =
      if_cases (IsHonest n) _ (publish_out-IsHonest (removed_event id) n r a)
        (publish_out-IsHonest (removed_event id) n r a)

  add_peer-IsHonest :
      (id : String) (ok : Bool) (n : ℕ) (r : Reactor Rate Bucket)
      → IsHonest n r
      → IsHonest n (on_add_peer lib id ok r)
  unfolding on_add_peer set_removed_at note_sent
  add_peer-IsHonest id ok n r a =
      if_cases (IsHonest n) r.probe
        (if_cases (IsHonest n) ok (published.0, (tt, published.1), published.2) published) published
    where
      published : IsHonest n (publish_out (connected_event id) r)
      published = publish_out-IsHonest (connected_event id) n r a

  step-IsHonest :
      (c : Call Rate) (cs : List (Call Rate)) (n : ℕ) (r : Reactor Rate Bucket)
      → InstallsSound Good (c ∷ cs)
      → IsHonest n r
      → IsHonest (asked weight c n) (on_call lib c r) × InstallsSound Good cs
  unfolding on_call on_request_chunk on_receive set_chunk_rate_limit note_sent
  step-IsHonest (set_provider p) cs n r h a = ((h.0, a.1, a.2), h.1)
  step-IsHonest (set_probe b) cs n r h a = (a, h)
  step-IsHonest (limit_rate c) cs n r h a = (if_cases (IsHonest n) r.set_rate_called a a, h)
  step-IsHonest begin_shutdown cs n r h a = (a, h)
  step-IsHonest (add_peer id ok) cs n r h a = (add_peer-IsHonest id ok n r a, h)
  step-IsHonest (remove_peer now id) cs n r h a = (remove_peer-IsHonest now id n r a, h)
  step-IsHonest (request_chunk id f g i ok) cs n r h a =
      (if_cases (IsHonest n) ok (a.0, (tt, a.1), a.2) a, h)
  step-IsHonest (receive now id m accepts) cs n r h a = (
    dispatch-IsHonest now id accepts m n (record r { bytes_recv = r.bytes_recv + lib.size m }) a,
    h,
  )
  step-IsHonest take_out cs n r h a = (a, h)
  step-IsHonest take_chunk cs n r h a = (a, h)

  run-keeps :
      (cs : List (Call Rate)) (n : ℕ) (s : System Rate Bucket)
      → InstallsSound Good cs
      → IsHonest n s.reactor
      → IsHonest (all_asked weight cs n) (run lib cs s).reactor
  unfolding run step
  run-keeps [] n s h a = a
  run-keeps (c ∷ cs) n s h a =
      run-keeps cs (asked weight c n) (step lib c s) (step-IsHonest c cs n s.reactor h a).1
        (step-IsHonest c cs n s.reactor h a).0

  -- If every provider that is ever installed finds only bytes of which `Good` holds for the height,
  -- the format and the index, then over any run from the start every chunk answer that is sent with
  -- a payload echoes a height, a format and an index for which `Good` holds of its bytes; and for
  -- any way to weigh a peer with a height, a format and an index, the answers sent weigh at most
  -- what the requests received weigh: no request is answered twice or to another peer.
  pub run-answers :
      (cs : List (Call Rate))
      → InstallsSound Good cs
      → AllGenuine Good (run lib cs (start lib)).reactor.sent
        × (answered weight (run lib cs (start lib)).reactor.sent ≤ all_asked weight cs 0)
  unfolding start new_reactor
  run-answers cs h = (kept.1, kept.2)
    where
      kept : IsHonest (all_asked weight cs 0) (run lib cs (start lib)).reactor
      kept = run-keeps cs 0 (start lib) h (tt, tt, omega arith)
