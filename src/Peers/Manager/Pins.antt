-- ===== src/Peers/Manager/Pins.antt =====
-- A pin of a banned peer.
use malcom.Prelude.{
  ◌+◌, ◌≡◌, ◌≢◌, refl, sym, subst, ap, ◌∙◌, Bool, true, false, ◌||◌, List, [], ◌∷◌, ◌++◌, none,
  some, String, arith, if_split,
}
use mathlib.Core.Bool.{false≢true}
use malcom.Prelude.Map
use malcom.Prelude.Map.{Map, string_key, beq_ne, get-put_self, get-delete_self}
use text.Mathlib.Text.{◌==◌ as str_eq}
use malcom.Peers.Manager.{
  NetAddress, Config, Manager, Net, redial_all, fire, is_some, has_flag, pin, ban, is_banned,
  redial,
}

-- The manager after the ban of a peer that was not banned.
abbrev after_ban : String → String → Manager → Manager
after_ban pid reason m = record m {
  banned = Map.put pid true m.banned;
  ban_reasons = Map.put pid reason m.ban_reasons;
  manual_bans = m.manual_bans + 1;
  pinned = Map.delete pid m.pinned;
  backoffs = Map.delete pid m.backoffs;
}

ban-first :
    (pid reason : String) (m : Manager)
    → Map.get pid m.banned ≡ none
    → ban pid reason m ≡ after_ban pid reason m
unfolding ban
ban-first pid reason m e =
    if_split (λ (x : Manager). x ≡ after_ban pid reason m) (is_some (Map.get pid m.banned))
      (λ t. absurd (false≢true (sym (ap is_some e) ∙ t))) (λ f. refl)

pin-known :
    (pid addr : String) (m : Manager)
    → pid ≢ ""
    → addr ≢ ""
    → pin pid addr m ≡ record m { pinned = Map.put pid addr m.pinned }
unfolding pin
pin-known pid addr m p a =
    if_split (λ (x : Manager). x ≡ record m { pinned = Map.put pid addr m.pinned })
      (str_eq pid "" || str_eq addr "")
      (λ t. absurd (neither (beq_ne pid "" p) (beq_ne addr "" a) t)) (λ f. refl)
  where
    neither :
        str_eq pid "" ≡ false
        → str_eq addr "" ≡ false
        → (str_eq pid "" || str_eq addr "") ≡ true
        → ⊥
    neither p a t = ground arith

-- The peer is banned and pinned, and its turn in the next tick's loop dials its address.
abbrev pub IsDialledAgain : Config → Net → String → String → NetAddress → Manager → Type 0
IsDialledAgain cfg net pid addr na m =
    (is_banned pid m ≡ true)
    × (Map.get pid m.pinned ≡ some addr)
    × ((dials : List NetAddress)
        → (redial_all cfg net ((pid, addr) ∷ []) m dials).1 ≡ dials ++ na ∷ [])

-- Without a schedule the peer is dialled.
redial-unscheduled :
    (cfg : Config) (net : Net) (pid addr : String) (m : Manager)
    → Map.get pid m.backoffs ≡ none
    → (redial cfg net pid addr m).1 ≡ true
unfolding redial
redial-unscheduled cfg net pid addr m e = rw (e, redial) refl

redial_all-fires :
    (cfg : Config) (net : Net) (pid addr : String) (na : NetAddress) (m : Manager)
    → net.connected pid ≡ false
    → net.parse addr ≡ some na
    → Map.get pid m.backoffs ≡ none
    → (dials : List NetAddress)
    → (redial_all cfg net ((pid, addr) ∷ []) m dials).1 ≡ dials ++ na ∷ []
unfolding redial_all
redial_all-fires cfg net pid addr na m away known e dials = rw away (
    subst (λ (b : Bool). fire net addr b dials ≡ dials ++ na ∷ [])
      (sym (redial-unscheduled cfg net pid addr m e)) (rw (known, fire) refl))

after_ban-IsDialledAgain :
    (cfg : Config) (net : Net) (pid addr reason : String) (na : NetAddress) (m : Manager)
    → net.connected pid ≡ false
    → net.parse addr ≡ some na
    → IsDialledAgain cfg net pid addr na
        record (after_ban pid reason m) { pinned = Map.put pid addr (Map.delete pid m.pinned) }
unfolding is_banned
after_ban-IsDialledAgain cfg net pid addr reason na m away known = (
  ap has_flag (get-put_self pid true m.banned),
  get-put_self pid addr (Map.delete pid m.pinned),
  redial_all-fires cfg net pid addr na pinned_again away known (get-delete_self pid m.backoffs),
)
  where
    pinned_again : Manager
    pinned_again = record (after_ban pid reason m) {
      pinned = Map.put pid addr (Map.delete pid m.pinned);
    }

-- A peer with an ID and an address that was not banned, then is banned and then pinned, is banned;
-- and yet its turn in a tick that finds it disconnected dials it, whatever its earlier schedule, if its
-- address parses.
pub pin-ban-IsDialledAgain :
    (cfg : Config) (net : Net) (pid addr reason : String) (na : NetAddress) (m : Manager)
    → Map.get pid m.banned ≡ none
    → pid ≢ ""
    → addr ≢ ""
    → net.connected pid ≡ false
    → net.parse addr ≡ some na
    → IsDialledAgain cfg net pid addr na (pin pid addr (ban pid reason m))
pin-ban-IsDialledAgain cfg net pid addr reason na m e p a away known =
    subst (IsDialledAgain cfg net pid addr na)
      (sym (
        ap (pin pid addr) (ban-first pid reason m e)
        ∙ pin-known pid addr (after_ban pid reason m) p a))
      (after_ban-IsDialledAgain cfg net pid addr reason na m away known)
