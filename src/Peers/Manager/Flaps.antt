-- ===== src/Peers/Manager/Flaps.antt =====
-- How often a peer is redialled that comes and goes.
use malcom.Prelude.{
  ℕ, ◌+◌, ◌≤◌, ◌<◌, ◌≡◌, Bool, List, [], ◌∷◌, ◌++◌, Option, none, some, String, length,
}
use malcom.Prelude.Map
use malcom.Prelude.Map.{Map, string_key}
use text.Mathlib.Text.{◌==◌ as str_eq}
use malcom.Peers.Manager.{NetAddress, Backoff, Config, Manager, Net, fire, redial_all}

-- The addresses that the turns of one pinned peer dial, over ticks that meet `nets`, until it is no
-- longer pinned.
unfoldable pub turns : Config → String → String → List Net → Manager → List NetAddress
unfolding redial_all
turns cfg pid addr [] m = []
turns cfg pid addr (net ∷ nets) m = elim (Map.get pid m.pinned) [
  | none ↦ []
  | some _ ↦
      let x = redial_all cfg net ((pid, addr) ∷ []) m [] in x.1 ++ turns cfg pid addr nets x.0
]

-- What a schedule has counted, and that it saw no connection before `t`.
abbrev pub spent : Option Backoff → ℕ
spent none = 0
spent (some bo) = bo.disconnects

abbrev IsSince : ℕ → Option ℕ → Type 0
IsSince t none = Unit
IsSince t (some s) = t ≤ s

abbrev pub IsFresh : ℕ → Option Backoff → Type 0
IsFresh t none = Unit
IsFresh t (some bo) = IsSince t bo.connected_since

-- Every tick falls within the window that starts at `t`.
abbrev pub AllWithin : ℕ → ℕ → List Net → Type 0
AllWithin t window [] = Unit
AllWithin t window (net ∷ nets) = (t ≤ net.now) × (net.now < t + window) × AllWithin t window nets

module _ (cfg : Config) (pid addr : String) (t : ℕ) (limited : 0 < cfg.max_redials) where
  -- What a turn that starts with `n` disconnects leaves.
  data IsTurn (n : ℕ) (m : Manager) (dials : List NetAddress) : Type 0 where
    gone : Map.get pid m.pinned ≡ none → dials ≡ [] → IsTurn n m dials
    stayed :
        (o : Option Backoff)
        → Map.get pid m.backoffs ≡ o
        → length dials + n ≤ spent o
        → spent o ≤ cfg.max_redials
        → IsFresh t o
        → IsTurn n m dials

  abbrev Redialled : Net → ℕ → Manager × Bool → Type 0
  Redialled net n x = IsTurn n x.0 (fire net addr x.1 [])
