-- ===== src/StateSync/Reactor/Rule.antt =====
-- internal/statesync/reactor.go: how a chunk request ends, as one rule for every property of the
-- reactor after it.
use malcom.Prelude.{
  ℕ, ◌+◌, ◌≡◌, refl, sym, Bool, true, false, not, none, some, String, arith, subst, if_split,
  if◌then◌else◌, Option,
}
use malcom.Prelude.Map.{Map}
use malcom.StateSync.Wire.{Provider}
use malcom.StateSync.Reactor.Limits.{
  Platform, Reactor, LimiterEntry, limits_peers, pass_global, pass_peer,
}
use malcom.StateSync.Reactor.Serve.{
  answer_drained, load_and_answer, answer_limited, receive_chunk_request,
}

module _ {Rate Bucket : Type 0} where
  -- `spend g m r` is the reactor with its buckets replaced.
  abbrev pub spend :
      Option Bucket → Map String (LimiterEntry Bucket) → Reactor Rate Bucket → Reactor Rate Bucket
  spend g m r = record r { global_lim = g; peer_limiters = m }

module _ {Rate Bucket : Type 0} (lib : Platform Rate Bucket) where
  pass_global-eq-spend :
      (now : ℕ) (r : Reactor Rate Bucket)
      → (pass_global lib now r).1 ≡ spend (pass_global lib now r).1.global_lim r.peer_limiters r
  unfolding pass_global
  pass_global-eq-spend now r = ground arith

  pass_peer-eq-spend :
      (now : ℕ) (id : String) (r : Reactor Rate Bucket)
      → (pass_peer lib now id r).1 ≡ spend r.global_lim (pass_peer lib now id r).1.peer_limiters r
  unfolding pass_peer
  pass_peer-eq-spend now id r = ground arith

  pass_peer-spend :
      (now : ℕ) (id : String) (g : Option Bucket) (r : Reactor Rate Bucket)
      → (pass_peer lib now id (spend g r.peer_limiters r)).1.peer_limiters
        ≡ (pass_peer lib now id r).1.peer_limiters
  unfolding pass_peer limits_peers
  pass_peer-spend now id g r =
      if_split
        (λ (x : Bool × Reactor Rate Bucket).
          (pass_peer lib now id (spend g r.peer_limiters r)).1.peer_limiters ≡ x.1.peer_limiters)
        (limits_peers lib r) (λ e. rw e) (λ e. rw e)

-- The fates of a request for (h, f, i) from `id`, with what each must establish.
module _ {Rate Bucket : Type 0} (lib : Platform Rate Bucket) (P : Reactor Rate Bucket → Type 0)
    (r : Reactor Rate Bucket) (now : ℕ) (id : String) (h f i : ℕ) (ok : Bool)
    (silent : r.provider ≡ none → P r)
    (drained : r.shutting_down ≡ true → P (answer_drained lib id h f i ok r))
    (global_drop : (g : Option Bucket)
      → r.shutting_down ≡ false
      → P record (spend g r.peer_limiters r) { dropped_rate_global = r.dropped_rate_global + 1 })
    (peer_drop : (g : Option Bucket) (m : Map String (LimiterEntry Bucket))
      → m ≡ (pass_peer lib now id r).1.peer_limiters
      → r.shutting_down ≡ false
      → P record (spend g m r) { dropped_rate_peer = r.dropped_rate_peer + 1 })
    (answered : (p : Provider) (g : Option Bucket) (m : Map String (LimiterEntry Bucket))
      → m ≡ (pass_peer lib now id r).1.peer_limiters
      → r.provider ≡ some p
      → r.shutting_down ≡ false
      → P (load_and_answer lib id h f i ok (p.load_chunk h f i) (spend g m r))) where
  answer_limited_rule :
      (p : Provider)
      → r.provider ≡ some p
      → r.shutting_down ≡ false
      → P (answer_limited lib now id h f i ok p r)
  unfolding answer_limited
  answer_limited_rule p e d =
      if_split P (not (pass_global lib now r).0)
        (λ _.
          subst
            (λ (t : Reactor Rate Bucket).
              P record t { dropped_rate_global = t.dropped_rate_global + 1 })
            (sym (pass_global-eq-spend lib now r)) (global_drop _ d))
        (λ _.
          if_split P (not (pass_peer lib now id (pass_global lib now r).1).0)
            (λ _.
              subst
                (λ (t : Reactor Rate Bucket).
                  P record t { dropped_rate_peer = t.dropped_rate_peer + 1 })
                (sym both) (peer_drop _ _ same d))
            (λ _.
              subst
                (λ (t : Reactor Rate Bucket).
                  P (load_and_answer lib id h f i ok (p.load_chunk h f i) t))
                (sym both) (answered p _ _ same e d)))
    where
      same :
          (pass_peer lib now id (pass_global lib now r).1).1.peer_limiters
          ≡ (pass_peer lib now id r).1.peer_limiters
      same = rw (pass_global-eq-spend lib now r) (pass_peer-spend lib now id _ r)

      both :
          (pass_peer lib now id (pass_global lib now r).1).1
          ≡ spend
              (pass_global lib now r).1.global_lim
              (pass_peer lib now id (pass_global lib now r).1).1.peer_limiters
              r
      both = ground (
        arith,
        pass_global-eq-spend lib now r,
        pass_peer-eq-spend lib now id (pass_global lib now r).1,
      )

  pub receive_chunk_request_rule : P (receive_chunk_request lib now id h f i ok r)
  unfolding receive_chunk_request
  receive_chunk_request_rule = by_provider r.provider refl
    where
      by_provider :
          (o : Option Provider)
          → r.provider ≡ o
          → P (elim o [
            | none ↦ r
            | some p ↦
                if r.shutting_down
                then answer_drained lib id h f i ok r
                else answer_limited lib now id h f i ok p r
          ])
      by_provider none e = silent e
      by_provider (some p) e = if_split P r.shutting_down drained (λ d. answer_limited_rule p e d)
