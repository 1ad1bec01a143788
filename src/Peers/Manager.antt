-- ===== src/Peers/Manager.antt =====
-- internal/connect/manager.go: the manager of outbound dials. Its methods run under one mutex; the
-- goroutines that `tick` starts for its dials are calls of `dial` later on, so a tick returns the
-- addresses it dials. The switch and the address book are third-party: what they answer is in `Net`.

pub mod Redials
pub mod Flaps
pub mod Pins
pub mod Pool
use malcom.Prelude.{
  ℕ, zero, suc, ◌+◌, ◌-◌, ◌*◌, ◌/◌, ◌%◌, ◌^◌, Bool, true, false, not, ◌&&◌, ◌||◌, List, [], ◌∷◌,
  ◌++◌, Option, none, some, String, ltb, leb, ◌==◌, if◌then◌else◌, length, get_elem?,
}
use malcom.Prelude.Map
use malcom.Prelude.Map.{Map, string_key}
use text.Mathlib.Text.{◌==◌ as str_eq}

-- `p2p.NetAddress`: the peer's ID and the text that `String()` gives.
pub record NetAddress : Type 0 where
  pub id : String
  pub text : String

pub record Backoff : Type 0 where
  pub disconnects : ℕ
  pub next_dial_at : ℕ
  pub connected_since : Option ℕ  -- `none` is the zero time

pub record Config : Type 0 where
  pub warm_target : ℕ
  pub dial_batch : ℕ
  pub backoff : ℕ  -- nanoseconds
  pub max_backoff : ℕ
  pub max_redials : ℕ
  pub stability_window : ℕ
  pub max_dial_failures : ℕ
  pub book_disabled : Bool
  pub has_book : Bool
  pub has_banlist : Bool
  pub pool : List String

pub data Effect : Type 0 where
  mark_bad : NetAddress → Effect
  mark_attempt : NetAddress → Effect
  remove_address : NetAddress → Effect
  banlist_add : String → String → Effect

pub record Manager : Type 0 where
  pub pinned : Map String String
  pub backoffs : Map String Backoff
  pub banned : Map String Bool
  pub ban_reasons : Map String String
  pub dial_fail : Map String ℕ
  pub cursor : ℕ
  pub dials_fired : ℕ
  pub dial_successes : ℕ
  pub dial_failures : ℕ
  pub addr_bans : ℕ
  pub peer_bans : ℕ
  pub manual_bans : ℕ
  pub effects : List Effect

-- What a tick meets outside: `picks` are the answers of `PickAddress`, in order, and `parse` is
-- `NewNetAddressString`.
pub record Net : Type 0 where
  pub now : ℕ
  pub connected : String → Bool
  pub outbound : ℕ
  pub dialing : ℕ
  pub is_dialing : NetAddress → Bool
  pub picks : List NetAddress
  pub parse : String → Option NetAddress

-- `Config.defaults`: a duration or a batch of 0 takes its default.
abbrev or_default : ℕ → ℕ → ℕ
or_default n d = if n == 0 then d else n

unfoldable defaults : Config → Config
defaults c = record c {
  dial_batch = or_default c.dial_batch 4;
  backoff = or_default c.backoff 5000000000;
  max_backoff = or_default c.max_backoff 300000000000;
  stability_window = or_default c.stability_window 30000000000;
}

abbrev pub is_some : {A : Type 0} → Option A → Bool
is_some none = false
is_some (some a) = true

abbrev pub has_flag : Option Bool → Bool
has_flag none = false
has_flag (some b) = b

unfoldable pub pin : String → String → Manager → Manager
pin pid addr m =
    if str_eq pid "" || str_eq addr "" then m else record m { pinned = Map.put pid addr m.pinned }

unfoldable unpin : String → Manager → Manager
unpin pid m = record m { pinned = Map.delete pid m.pinned; backoffs = Map.delete pid m.backoffs }

unfoldable pub ban : String → String → Manager → Manager
ban pid reason m = if is_some (Map.get pid m.banned) then m else record m {
  banned = Map.put pid true m.banned;
  ban_reasons = Map.put pid reason m.ban_reasons;
  manual_bans = m.manual_bans + 1;
  pinned = Map.delete pid m.pinned;
  backoffs = Map.delete pid m.backoffs;
}

unfoldable pub is_banned : String → Manager → Bool
is_banned pid m = has_flag (Map.get pid m.banned)

-- The shift keeps the 64 bits of a `time.Duration`, and from 2^63 on it is negative.
unfoldable pub compute_backoff : Config → ℕ → ℕ
compute_backoff cfg disconnects =
    if leb disconnects 1
    then cfg.backoff
    else let shift = (if ltb 10 (disconnects - 1) then 10 else disconnects - 1) in
      let d = (cfg.backoff * 2 ^ shift) % 2 ^ 64 in
      if d == 0 || leb (2 ^ 63) d || ltb cfg.max_backoff d then cfg.max_backoff else d

abbrev bad_mark : Config → Option NetAddress → List Effect → List Effect
bad_mark cfg none es = es
bad_mark cfg (some na) es = if cfg.has_book then es ++ mark_bad na ∷ [] else es

unfoldable pub mark_bad_by_addr : Config → Net → String → Manager → Manager
mark_bad_by_addr cfg net addr m =
    if str_eq addr "" then m else record m { effects = bad_mark cfg (net.parse addr) m.effects }

abbrev pub since_or : ℕ → Option ℕ → ℕ
since_or now none = now
since_or now (some t) = t

-- A pinned peer that is connected.
unfoldable pub settle : Config → ℕ → String → String → Manager → Manager
settle cfg now pid addr m = elim (Map.get pid m.backoffs) [
  | none ↦ record m { dial_fail = Map.delete addr m.dial_fail }
  | some bo ↦
      let since = since_or now bo.connected_since in
      if leb cfg.stability_window (now - since)
      then record m {
        backoffs = Map.delete pid m.backoffs;
        dial_fail = Map.delete addr m.dial_fail;
      }
      else record m { backoffs = Map.put pid record bo { connected_since = some since } m.backoffs }
]

unfoldable pub auto_ban : Config → Net → String → String → Manager → Manager
unfolding mark_bad_by_addr
auto_ban cfg net pid addr m = mark_bad_by_addr cfg net addr record m {
  pinned = Map.delete pid m.pinned;
  backoffs = Map.delete pid m.backoffs;
  banned = Map.put pid true m.banned;
  ban_reasons = Map.put pid "max-redials" m.ban_reasons;
  peer_bans = m.peer_bans + 1;
}

-- The schedule moves on before the dial goes out.
unfoldable pub bump : Config → ℕ → String → ℕ → Manager → Manager
unfolding compute_backoff
bump cfg now pid disconnects m = record m {
  backoffs =
      Map.put pid
        record {
          disconnects = disconnects + 1;
          next_dial_at = now + compute_backoff cfg (disconnects + 1);
          connected_since = none;
        }
        m.backoffs;
}

-- A pinned peer that is not connected, by its schedule; the Boolean says that it is dialled.
unfoldable pub redial : Config → Net → String → String → Manager → Manager × Bool
unfolding auto_ban bump
redial cfg net pid addr m = elim (Map.get pid m.backoffs) [
  | none ↦ (bump cfg net.now pid 0 m, true)
  | some bo ↦
      if ltb net.now bo.next_dial_at
      then (
        record m { backoffs = Map.put pid record bo { connected_since = none } m.backoffs },
        false,
      )
      else if ltb 0 cfg.max_redials && leb cfg.max_redials bo.disconnects
      then (auto_ban cfg net pid addr m, false)
      else (bump cfg net.now pid bo.disconnects m, true)
]

abbrev pub fire : Net → String → Bool → List NetAddress → List NetAddress
fire net addr false dials = dials
fire net addr true dials = elim (net.parse addr) [ none ↦ dials | some na ↦ dials ++ na ∷ [] ]

-- The loop over the copy of `pinned`.
unfoldable pub redial_all :
    Config → Net → List (String × String) → Manager → List NetAddress → Manager × List NetAddress
unfolding settle redial
redial_all cfg net [] m dials = (m, dials)
redial_all cfg net ((pid, addr) ∷ ps) m dials =
    if net.connected pid
    then redial_all cfg net ps (settle cfg net.now pid addr m) dials
    else let (m', goes) = redial cfg net pid addr m in
      redial_all cfg net ps m' (fire net addr goes dials)

-- A candidate of the warm-fill is neither banned nor pinned.
abbrev pub is_free : Manager → String → Bool
is_free m id = not (has_flag (Map.get id m.banned)) && not (is_some (Map.get id m.pinned))

abbrev pub candidate : Net → Manager → Option String → List NetAddress
candidate net m none = []
candidate net m (some addr) = elim (net.parse addr) [
  | none ↦ []
  | some na ↦ if is_free m na.id && not (net.connected na.id) then na ∷ [] else []
]

-- The loop of `dialFromPool`, with the tries left as its fuel: a new cursor and the candidates.
unfoldable pub pool_from :
    Config → Net → Manager → ℕ → ℕ → ℕ → List NetAddress → ℕ × List NetAddress
pool_from cfg net m zero need cursor found = (cursor, found)
pool_from cfg net m (suc tries) need cursor found =
    let next =
      pool_from cfg net m tries need ((cursor + 1) % length cfg.pool)
        (found ++ candidate net m (get_elem? cfg.pool cursor)) in
    if leb need (length found) then (cursor, found) else next

unfoldable pub dial_from_pool : Config → Net → ℕ → Manager → Manager × List NetAddress
unfolding pool_from
dial_from_pool cfg net need m =
    if length cfg.pool == 0
    then (m, [])
    else let (cursor, found) = pool_from cfg net m (length cfg.pool) need m.cursor [] in
      (record m { cursor = cursor }, found)

-- The loop of `dialFromBook`: an end of `picks` is an answer of nil.
unfoldable book_from : Net → Manager → ℕ → ℕ → List NetAddress → List NetAddress → List NetAddress
book_from net m zero need picks found = found
book_from net m (suc tries) need [] found = found
book_from net m (suc tries) need (na ∷ picks) found =
    let skip = book_from net m tries need picks found in
    let take_it = book_from net m tries need picks (found ++ na ∷ []) in
    if leb need (length found)
    then found
    else if net.is_dialing na || not (is_free m na.id)
    then skip
    else take_it

abbrev attempts : List NetAddress → List Effect
attempts [] = []
attempts (na ∷ nas) = mark_attempt na ∷ attempts nas

unfoldable pub dial_from_book : Net → ℕ → Manager → Manager × List NetAddress
unfolding book_from
dial_from_book net need m =
    let found = book_from net m (need * 4) need net.picks [] in
    (record m { effects = m.effects ++ attempts found }, found)

-- `NumPeers` is read after the redials.
unfoldable pub wanted : Config → Net → ℕ
wanted cfg net =
    let need = cfg.warm_target - (net.outbound + net.dialing) in
    if ltb cfg.dial_batch need then cfg.dial_batch else need

unfoldable pub warm_fill : Config → Net → Manager → Manager × List NetAddress
warm_fill cfg net m =
    let need = wanted cfg net in
    let share = (if cfg.book_disabled then need else need - need / 2) in
    let (m1, found) = dial_from_pool cfg net share m in
    let (m2, more) = dial_from_book net (need - length found) m1 in
    if need == 0
    then (m, [])
    else if cfg.has_book && not cfg.book_disabled
    then (m2, found ++ more)
    else (m1, found)

-- One tick with the addresses it dials.
unfoldable pub tick : Config → Net → Manager → Manager × List NetAddress
unfolding redial_all warm_fill
tick cfg net m =
    let (m1, dials) = redial_all cfg net m.pinned m [] in
    let (m2, more) = warm_fill cfg net m1 in (m2, dials ++ more)

pub data DialResult : Type 0 where
  connected already_dialing refused : DialResult

abbrev pub fails : Option ℕ → ℕ
fails none = 0
fails (some n) = n

unfoldable pub record_dial_fail : Config → NetAddress → Manager → Manager
record_dial_fail cfg na m =
    let n = fails (Map.get na.text m.dial_fail) + 1 in
    if ltb 0 cfg.max_dial_failures && leb cfg.max_dial_failures n
    then record m {
      dial_fail = Map.delete na.text (Map.put na.text n m.dial_fail);
      dial_failures = m.dial_failures + 1;
      addr_bans = m.addr_bans + 1;
      effects =
          m.effects
          ++ ((if cfg.has_book then remove_address na ∷ [] else [])
              ++ (if cfg.has_banlist then banlist_add na.text "max-dial-failures" ∷ [] else []));
    }
    else record m { dial_fail = Map.put na.text n m.dial_fail; dial_failures = m.dial_failures + 1 }

-- The two critical sections of `dial` around the switch's answer.
unfoldable pub dial : Config → NetAddress → DialResult → Manager → Manager
unfolding record_dial_fail
dial cfg na connected m = record m {
  dials_fired = m.dials_fired + 1;
  dial_successes = m.dial_successes + 1;
  dial_fail = Map.delete na.text m.dial_fail;
}
dial cfg na already_dialing m = record m { dials_fired = m.dials_fired + 1 }
dial cfg na refused m = record_dial_fail cfg na record m { dials_fired = m.dials_fired + 1 }
