-- ===== src/Examples/Reactors.antt =====
-- The theorems on the reactor and the event mux at concrete runs.
use malcom.Prelude.{
  ℕ, ◌-◌, ◌≡◌, ◌≤◌, inr, refl, List, [], ◌∷◌, Bytes, some, none, arith, Bool, true, false, ltb,
  get_elem?, ◌++◌,
}
use mathlib.Core.Bool.{false≢true}
use text.Mathlib.TextEquality.{eq_iff}
use malcom.Prelude.Map
use malcom.Prelude.Map.{Map, string_key}
use malcom.StateSync.Wire.{
  Provider, got, snapshots_request, chunk_request, chunk_response, connected_event, chunk_event,
}
use malcom.StateSync.Reactor.Limits.{Platform, ChunkRateLimit}
use malcom.StateSync.Reactor.{
  Call, System, run, start, set_provider, limit_rate, begin_shutdown, add_peer, remove_peer,
  receive, take_out,
}
use malcom.StateSync.Reactor.Audit.{tally, is_payload, IsAudited, run-IsAudited}
use malcom.StateSync.Reactor.Events.{AccountsFor, published, control_of, chunks_of, run-AccountsFor}
use malcom.StateSync.Reactor.Answers.{AllGenuine, answered, all_asked, run-answers}
use malcom.StateSync.Reactor.Drain.{IsQuiet, run-IsQuiet}
use malcom.StateSync.Reactor.Buckets.{IsPresent, run-IsPresent}
use malcom.StateSync.Mux as Mux

-- Buckets that count what is left and never fill.
abbrev counting : Platform ℕ ℕ
counting = record {
  zero_rate = 0;
  is_positive = ltb 0;
  refill = λ burst rate. 10;
  new_limiter = λ rate burst. burst;
  allow = λ now b. (ltb 0 b, b - 1);
  size = λ m. 3;
}

abbrev one_chunk : Provider
one_chunk = record {
  list_snapshots = record { height = 9; format = 3; chunks = 1; hash = []; metadata = [] } ∷ [];
  load_chunk = λ h f i. got (h ∷ f ∷ i ∷ []) true;
}

abbrev limits : ChunkRateLimit ℕ
limits = record { per_peer_rate = 1; per_peer_burst = 1; global_rate = 0; global_burst = 0 }

abbrev yes_to_all : ℕ → Bool
yes_to_all k = true

-- A peer asks twice with a burst of one, goes, comes back and asks again.
abbrev calls : List (Call ℕ)
calls =
    set_provider (some one_chunk)
    ∷ limit_rate limits
    ∷ add_peer "a" true
    ∷ receive 1 "a" snapshots_request yes_to_all
    ∷ receive 1 "a" (chunk_request 9 3 0) yes_to_all
    ∷ receive 2 "a" (chunk_request 9 3 0) yes_to_all
    ∷ receive 2 "b" (chunk_response 8 3 0 (5 ∷ []) false) yes_to_all
    ∷ take_out
    ∷ remove_peer 3 "a"
    ∷ []

abbrev later_calls : List (Call ℕ)
later_calls =
    add_peer "a" true ∷ remove_peer 9 "a" ∷ receive 10 "b" (chunk_request 9 3 0) yes_to_all ∷ []

abbrev reached : System ℕ ℕ
reached = run counting calls (start counting)

run-IsAudited_example : IsAudited counting reached.reactor
run-IsAudited_example = run-IsAudited counting calls

run-AccountsFor_example :
    AccountsFor counting (published control_of calls []) (published chunks_of calls []) reached
run-AccountsFor_example = run-AccountsFor counting calls

abbrev IsItsKey : ℕ → ℕ → ℕ → Bytes → Type 0
IsItsKey h f i bytes = h ∷ f ∷ i ∷ [] ≡ bytes

loaded_key :
    (h f i : ℕ) (bytes : Bytes) → got (h ∷ f ∷ i ∷ []) true ≡ got bytes true → IsItsKey h f i bytes
loaded_key h f i bytes e = cc

run-answers_example :
    AllGenuine IsItsKey reached.reactor.sent
    × (answered (λ id h f i. 1) reached.reactor.sent ≤ all_asked (λ id h f i. 1) calls 0)
run-answers_example = run-answers counting IsItsKey (λ id h f i. 1) calls (loaded_key, tt)

abbrev draining : System ℕ ℕ
draining = run counting (begin_shutdown ∷ []) reached

run-IsQuiet_example :
    IsQuiet counting
      (tally is_payload draining.reactor.sent)
      draining.reactor.chunks_missing
      draining.reactor.dropped_rate_peer
      draining.reactor.dropped_rate_global
      (run counting later_calls draining).reactor
unfolding run start
run-IsQuiet_example = run-IsQuiet counting later_calls draining refl

-- The peer comes back, and much later another one leaves.
abbrev back_calls : List (Call ℕ)
back_calls = later_calls ++ add_peer "a" true ∷ remove_peer 1000 "b" ∷ []

run-IsPresent_example :
    IsPresent 0 (Map.get "a" (run counting back_calls reached).reactor.peer_limiters)
unfolding run start Map.get Map.modify Map.put
run-IsPresent_example =
    run-IsPresent counting "a" 0 3 true later_calls (remove_peer 1000 "b" ∷ []) reached refl
      (refl, inr (omega arith))
      (tt, ((omega arith, omega arith), (λ e. false≢true ((eq_iff "b" "a").1 e), tt)))
      ((λ e. false≢true ((eq_iff "b" "a").1 e)), tt)

abbrev two_subs : Mux.EventMux
two_subs = record {
  subs = record { ctrl = []; chunk = none } ∷ record { ctrl = []; chunk = some [] } ∷ [];
  cancelled = false;
}

abbrev ticks : List Mux.Tick
ticks =
    Mux.from_ctrl (connected_event "a")
    ∷ Mux.from_chunk (chunk_event "a" 9 3 0 [] true)
    ∷ Mux.take_ctrl 0
    ∷ Mux.stop
    ∷ Mux.from_ctrl (connected_event "b")
    ∷ []

run-alone_example :
    get_elem? (Mux.run ticks two_subs).subs 1
    ≡ some (Mux.alone 1 ticks false record { ctrl = []; chunk = some [] })
run-alone_example = Mux.run-alone ticks two_subs 1 refl
