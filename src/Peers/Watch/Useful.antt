-- ===== src/Peers/Watch/Useful.antt =====
-- The watch and the peers that it has marked useful.
use malcom.Prelude.{
  ℕ, ◌≡◌, ◌≢◌, refl, sym, subst, ◌∙◌, ◌⊎◌, inl, inr, true, List, [], ◌∷◌, Option, none, some,
  String, ◌==◌, if_cases, Bool-cases,
}
use malcom.Prelude.Map
use malcom.Prelude.Map.{Map, string_key, get-put_ne}
use mathlib.Core.Bool.{false≢true}
use mathlib.Core.Option.{none-ne-some}
use text.Mathlib.Text.{◌==◌ as str_eq}
use text.Mathlib.TextEquality.{eq_iff}
use malcom.Peers.Watch.{
  Config, Watch, Net, has_flag, ban_peer, verdict, noted, sweep, evict_all, tick,
}

-- None of the evictions is of this peer.
abbrev IsSpared : String → List (String × String) → Type 0
IsSpared id [] = Unit
IsSpared id ((j, reason) ∷ ps) = (j ≢ id) × IsSpared id ps

string_dec : (j k : String) → (j ≡ k) ⊎ (j ≢ k)
string_dec j k = elim (Bool-cases (str_eq j k)) [
  | inl t ↦ inl ((eq_iff j k).0 t)
  | inr f ↦ inr (λ e. false≢true (sym f ∙ (eq_iff j k).1 e))
]

verdict-useful :
    (cfg : Config) (net : Net) (w : Watch) (id : String) (first : ℕ)
    → has_flag (Map.get id w.useful) ≡ true
    → verdict cfg net w id first ≡ none
unfolding verdict
verdict-useful cfg net w id first u = rw u refl

noted-IsSpared :
    (id j : String) (v : Option String) (ps : List (String × String))
    → (j ≡ id → v ≡ none)
    → IsSpared id ps
    → IsSpared id (noted j v ps)
noted-IsSpared id j none ps h s = s
noted-IsSpared id j (some reason) ps h s = (λ e. absurd (none-ne-some reason (sym (h e))), s)

sweep-IsSpared :
    (cfg : Config) (net : Net) (w : Watch) (id : String) (es : List (String × ℕ))
    → has_flag (Map.get id w.useful) ≡ true
    → IsSpared id (sweep cfg net w es).1
unfolding sweep
sweep-IsSpared cfg net w id [] u = tt
sweep-IsSpared cfg net w id ((j, first) ∷ es) u =
    if_cases (λ (x : Map String ℕ × List (String × String)). IsSpared id x.1) (net.connected j)
      (noted-IsSpared id j (verdict cfg net w j first) (sweep cfg net w es).1
        (λ e.
          verdict-useful cfg net w j first
            (subst (λ k. has_flag (Map.get k w.useful) ≡ true) (sym e) u))
        (sweep-IsSpared cfg net w id es u))
      (sweep-IsSpared cfg net w id es u)

evict_all-banned :
    (cfg : Config) (net : Net) (id : String) (ps : List (String × String)) (w : Watch)
    → IsSpared id ps
    → Map.get id (evict_all cfg net ps w).banned ≡ Map.get id w.banned
unfolding evict_all
evict_all-banned cfg net id [] w s = refl
evict_all-banned cfg net id ((j, reason) ∷ ps) w (ne, s) =
    if_cases (λ (x : Watch). Map.get id x.banned ≡ Map.get id w.banned) (net.still_connected j)
      (evict_all-banned cfg net id ps (ban_peer cfg j reason w) s ∙ banned)
      (evict_all-banned cfg net id ps w s)
  where
    banned : Map.get id (Map.put j true w.banned) ≡ Map.get id w.banned
    banned = get-put_ne id j true w.banned ne

-- A tick never bans a peer that is marked useful, however long it has been connected, whatever its
-- node info says and whatever else it has offered: its entry among the banned stays as it was.
pub tick-useful :
    (cfg : Config) (net : Net) (w : Watch) (id : String)
    → has_flag (Map.get id w.useful) ≡ true
    → Map.get id (tick cfg net w).banned ≡ Map.get id w.banned
unfolding tick
tick-useful cfg net w id u =
    if_cases (λ (x : Watch). Map.get id x.banned ≡ Map.get id w.banned) (cfg.min_height == 0) refl
      (evict_all-banned cfg net id (sweep cfg net w w.first_seen).1
        record w { first_seen = (sweep cfg net w w.first_seen).0 }
        (sweep-IsSpared cfg net w id w.first_seen u))
