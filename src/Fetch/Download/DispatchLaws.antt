-- ===== src/Fetch/Download/DispatchLaws.antt =====
-- What `dispatch` keeps: whatever does not depend on the peers' records and the calls made, and
-- survives the assignment of a chunk.
use malcom.Prelude.{ℕ, zero, suc, ◌+◌, inl, inr, false, List, [], Bool-cases, get_or}
use malcom.Prelude.Map.{Map}
use text.Mathlib.Text.{◌==◌ as str_eq}
use malcom.Fetch.Download.{PeerId, PeerStat, Job, Env, Scheduler, Effect}
use malcom.Fetch.Download.Dispatch.{
  Round, halt, next, dispatch_round, offer_to, assign, dispatch_from, dispatch,
}

abbrev AfterRound {ℓ} : (Scheduler → Type ℓ) → Round → Type ℓ
AfterRound P halt = Unit
AfterRound P (next skip d s) = P s

-- P says nothing of `stats` and `effects`.
abbrev pub IsNeutral {ℓ} : (Scheduler → Type ℓ) → Type ℓ
IsNeutral P =
    (s : Scheduler) (stats : Map PeerId PeerStat) (effects : List Effect)
    → P s
    → P (record s { stats = stats; effects = effects })

module _ {ℓ} (P : Scheduler → Type ℓ) (neutral : IsNeutral P) (env : Env)
    (assigned : (i : ℕ) (pid : PeerId) (s : Scheduler) → P s → P (assign env i pid s)) where
  offer_to-keeps :
      (i : ℕ) (pid : PeerId) (skip : List PeerId) (d : ℕ) (s : Scheduler)
      → P s
      → AfterRound P (offer_to env i pid skip d s)
  unfolding offer_to
  offer_to-keeps i pid skip d s t = elim (Bool-cases (str_eq pid "")) [
    | inl nobody ↦ rw nobody tt
    | inr found ↦ rw found (elim (Bool-cases (env.dispatch_sees i pid)) [
      | inr gone ↦ rw gone (neutral s _ s.effects t)
      | inl there ↦ rw there (elim (Bool-cases (env.accepts i pid)) [
        | inr full ↦ rw full (neutral s s.stats _ t)
        | inl sent ↦ rw sent (assigned i pid s t)
      ])
    ])
  ]

  dispatch_round-keeps :
      (job : Job) (i : ℕ) (skip : List PeerId) (d : ℕ) (s : Scheduler)
      → P s
      → AfterRound P (dispatch_round job env i skip d s)
  unfolding dispatch_round
  dispatch_round-keeps job i skip d s t = elim (Bool-cases (get_or s.pending i false)) [
    | inl p ↦ rw p (offer_to-keeps i _ skip d s t)
    | inr p ↦ rw p t
  ]

  dispatch_from-keeps :
      (n : ℕ) (job : Job) (i : ℕ) (skip : List PeerId) (d : ℕ) (s : Scheduler)
      → P s
      → P (dispatch_from n job env i skip d s).0
  unfolding dispatch_from
  dispatch_from-keeps zero job i skip d s t = t
  dispatch_from-keeps (suc n) job i skip d s t =
      go (dispatch_round job env i skip d s) (dispatch_round-keeps job i skip d s t)
        (λ skip' d' s'. dispatch_from-keeps n job (i + 1) skip' d' s')
    where
      go :
          (r : Round)
          → AfterRound P r
          → ((skip' : List PeerId) (d' : ℕ) (s' : Scheduler)
              → P s'
              → P (dispatch_from n job env (i + 1) skip' d' s').0)
          → P
              (elim r as (λ _. Scheduler × ℕ) [
                | halt ↦ (s, d)
                | next skip' d' s' ↦ dispatch_from n job env (i + 1) skip' d' s'
              ]).0
      go halt a k = t
      go (next skip' d' s') a k = k skip' d' s' a

  pub dispatch-keeps : (job : Job) (s : Scheduler) → P s → P (dispatch job env s)
  unfolding dispatch
  dispatch-keeps job s t = dispatch_from-keeps job.chunks job 0 [] 0 s t
