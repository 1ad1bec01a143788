-- ===== src/Peers/Manager/Redials.antt =====
-- How often a pinned peer is redialled, and after which waits.
use malcom.Prelude.{
  ℕ, ◌+◌, ◌-◌, ◌≤◌, ◌<◌, ◌≡◌, refl, sym, subst, ◌∙◌, not, ◌/◌, Bool, true, false, ◌&&◌, List, [],
  ◌∷◌, Option, none, some, String, arith, ltb, leb, ◌==◌, if◌then◌else◌, if_cases, if_split, length,
}
use malcom.Prelude.Map
use malcom.Prelude.Map.{Map, string_key}
use text.Mathlib.Text.{◌==◌ as str_eq}
use malcom.Peers.Manager.{
  NetAddress, Backoff, Config, Manager, Net, compute_backoff, mark_bad_by_addr, settle, since_or,
  auto_ban, bump, redial, fire, redial_all, dial_from_pool, dial_from_book, wanted, warm_fill, tick,
}

-- For a positive base that is at most the cap, the wait before a redial is positive and at most the
-- cap, whatever the number of disconnects, also where the shift overflows.
compute_backoff-bounds :
    (cfg : Config) (n : ℕ)
    → 0 < cfg.backoff
    → cfg.backoff ≤ cfg.max_backoff
    → (0 < compute_backoff cfg n) × (compute_backoff cfg n ≤ cfg.max_backoff)
unfolding compute_backoff
compute_backoff-bounds cfg n h le = ground arith

-- No schedule counts more disconnects than the limit.
abbrev IsCapped : ℕ → Map String Backoff → Type 0
IsCapped n [] = Unit
IsCapped n ((pid, bo) ∷ m) = (bo.disconnects ≤ n) × IsCapped n m

IsCapped-put :
    (n : ℕ) (pid : String) (bo : Backoff) (m : Map String Backoff)
    → bo.disconnects ≤ n
    → IsCapped n m
    → IsCapped n (Map.put pid bo m)
unfolding Map.put
IsCapped-put n pid bo [] le c = (le, tt)
IsCapped-put n pid bo ((j, b) ∷ m) le (l, c) =
    if_cases (IsCapped n) (str_eq j pid) (le, c) (l, IsCapped-put n pid bo m le c)

IsCapped-delete :
    (n : ℕ) (pid : String) (m : Map String Backoff) → IsCapped n m → IsCapped n (Map.delete pid m)
unfolding Map.delete
IsCapped-delete n pid [] c = tt
IsCapped-delete n pid ((j, b) ∷ m) (l, c) =
    if_cases (IsCapped n) (str_eq j pid) (IsCapped-delete n pid m c) (l, IsCapped-delete n pid m c)

-- The limit holds of a schedule that the map has.
abbrev IsCappedAt : ℕ → Option Backoff → Type 0
IsCappedAt n none = Unit
IsCappedAt n (some bo) = bo.disconnects ≤ n

IsCapped-get :
    (n : ℕ) (pid : String) (m : Map String Backoff) → IsCapped n m → IsCappedAt n (Map.get pid m)
unfolding Map.get
IsCapped-get n pid [] c = tt
IsCapped-get n pid ((j, b) ∷ m) (l, c) =
    if_cases (IsCappedAt n) (str_eq j pid) l (IsCapped-get n pid m c)

settle-IsCapped :
    (cfg : Config) (n now : ℕ) (pid addr : String) (m : Manager)
    → IsCapped n m.backoffs
    → IsCapped n (settle cfg now pid addr m).backoffs
unfolding settle
settle-IsCapped cfg n now pid addr m c =
    go (Map.get pid m.backoffs) (IsCapped-get n pid m.backoffs c)
  where
    P : Manager → Type 0
    P x = IsCapped n x.backoffs

    go :
        (o : Option Backoff)
        → IsCappedAt n o
        → P (elim o as (λ _. Manager) [
          | none ↦ record m { dial_fail = Map.delete addr m.dial_fail }
          | some bo ↦
              let since = since_or now bo.connected_since in
              if leb cfg.stability_window (now - since)
              then record m {
                backoffs = Map.delete pid m.backoffs;
                dial_fail = Map.delete addr m.dial_fail;
              }
              else record m {
                backoffs = Map.put pid record bo { connected_since = some since } m.backoffs;
              }
        ])
    go none l = c
    go (some bo) l =
        if_cases P (leb cfg.stability_window (now - since_or now bo.connected_since))
          (IsCapped-delete n pid m.backoffs c)
          (IsCapped-put n pid record bo { connected_since = some (since_or now bo.connected_since) }
            m.backoffs l c)

auto_ban-IsCapped :
    (cfg : Config) (net : Net) (n : ℕ) (pid addr : String) (m : Manager)
    → IsCapped n m.backoffs
    → IsCapped n (auto_ban cfg net pid addr m).backoffs
unfolding auto_ban mark_bad_by_addr
auto_ban-IsCapped cfg net n pid addr m c =
    if_cases (λ (x : Manager). IsCapped n x.backoffs) (str_eq addr "")
      (IsCapped-delete n pid m.backoffs c) (IsCapped-delete n pid m.backoffs c)

bump-IsCapped :
    (cfg : Config) (n now : ℕ) (pid : String) (d : ℕ) (m : Manager)
    → d < n
    → IsCapped n m.backoffs
    → IsCapped n (bump cfg now pid d m).backoffs
unfolding bump
bump-IsCapped cfg n now pid d m le c =
    IsCapped-put n pid
      record {
        disconnects = d + 1;
        next_dial_at = now + compute_backoff cfg (d + 1);
        connected_since = none;
      }
      m.backoffs (omega (arith, le)) c

redial-IsCapped :
    (cfg : Config) (net : Net) (pid addr : String) (m : Manager)
    → 0 < cfg.max_redials
    → IsCapped cfg.max_redials m.backoffs
    → IsCapped cfg.max_redials (redial cfg net pid addr m).0.backoffs
unfolding redial
redial-IsCapped cfg net pid addr m pos c =
    go (Map.get pid m.backoffs) (IsCapped-get cfg.max_redials pid m.backoffs c)
  where
    P : Manager × Bool → Type 0
    P x = IsCapped cfg.max_redials x.0.backoffs

    below : (d : ℕ) → (ltb 0 cfg.max_redials && leb cfg.max_redials d) ≡ false → d < cfg.max_redials
    below d f = ground arith

    go :
        (o : Option Backoff)
        → IsCappedAt cfg.max_redials o
        → P (elim o as (λ _. Manager × Bool) [
          | none ↦ (bump cfg net.now pid 0 m, true)
          | some bo ↦
              if ltb net.now bo.next_dial_at
              then (
                record m { backoffs = Map.put pid record bo { connected_since = none } m.backoffs },
                false,
              )
              else if ltb 0 cfg.max_redials && leb cfg.max_redials bo.disconnects
              then (auto_ban cfg net pid addr m, false)
              else (bump cfg net.now pid bo.disconnects m, true)
        ])
    go none l = bump-IsCapped cfg cfg.max_redials net.now pid 0 m pos c
    go (some bo) l =
        if_cases P (ltb net.now bo.next_dial_at)
          (IsCapped-put cfg.max_redials pid record bo { connected_since = none } m.backoffs l c)
          (if_split P (ltb 0 cfg.max_redials && leb cfg.max_redials bo.disconnects)
            (λ t. auto_ban-IsCapped cfg net cfg.max_redials pid addr m c)
            (λ f.
              bump-IsCapped cfg cfg.max_redials net.now pid bo.disconnects m
                (below bo.disconnects f) c))

redial_all-IsCapped :
    (cfg : Config) (net : Net) (ps : List (String × String)) (m : Manager) (dials : List NetAddress)
    → 0 < cfg.max_redials
    → IsCapped cfg.max_redials m.backoffs
    → IsCapped cfg.max_redials (redial_all cfg net ps m dials).0.backoffs
unfolding redial_all
redial_all-IsCapped cfg net [] m dials pos c = c
redial_all-IsCapped cfg net ((pid, addr) ∷ ps) m dials pos c =
    if_cases (λ (x : Manager × List NetAddress). IsCapped cfg.max_redials x.0.backoffs)
      (net.connected pid)
      (redial_all-IsCapped cfg net ps (settle cfg net.now pid addr m) dials pos
        (settle-IsCapped cfg cfg.max_redials net.now pid addr m c))
      (redial_all-IsCapped cfg net ps (redial cfg net pid addr m).0
        (fire net addr (redial cfg net pid addr m).1 dials) pos
        (redial-IsCapped cfg net pid addr m pos c))

dial_from_pool-backoffs :
    (cfg : Config) (net : Net) (need : ℕ) (m : Manager)
    → (dial_from_pool cfg net need m).0.backoffs ≡ m.backoffs
unfolding dial_from_pool
dial_from_pool-backoffs cfg net need m =
    if_cases (λ (x : Manager × List NetAddress). x.0.backoffs ≡ m.backoffs) (length cfg.pool == 0)
      refl refl

dial_from_book-backoffs :
    (net : Net) (need : ℕ) (m : Manager) → (dial_from_book net need m).0.backoffs ≡ m.backoffs
unfolding dial_from_book
dial_from_book-backoffs net need m = refl

warm_fill-backoffs :
    (cfg : Config) (net : Net) (m : Manager) → (warm_fill cfg net m).0.backoffs ≡ m.backoffs
unfolding warm_fill
warm_fill-backoffs cfg net m = if_cases P (wanted cfg net == 0) refl (
    if_cases P (cfg.has_book && not cfg.book_disabled)
      (dial_from_book-backoffs net (wanted cfg net - length (dial_from_pool cfg net share m).1)
          (dial_from_pool cfg net share m).0
        ∙ dial_from_pool-backoffs cfg net share m)
      (dial_from_pool-backoffs cfg net share m))
  where
    share : ℕ
    share = if cfg.book_disabled then wanted cfg net else wanted cfg net - wanted cfg net / 2

    P : Manager × List NetAddress → Type 0
    P x = x.0.backoffs ≡ m.backoffs

-- With a positive limit of redials, a tick that starts with no schedule above the limit leaves none,
-- whatever the clock and the switch say.
tick-IsCapped :
    (cfg : Config) (net : Net) (m : Manager)
    → 0 < cfg.max_redials
    → IsCapped cfg.max_redials m.backoffs
    → IsCapped cfg.max_redials (tick cfg net m).0.backoffs
unfolding tick
tick-IsCapped cfg net m pos c =
    subst (IsCapped cfg.max_redials)
      (sym (warm_fill-backoffs cfg net (redial_all cfg net m.pinned m []).0))
      (redial_all-IsCapped cfg net m.pinned m [] pos c)
