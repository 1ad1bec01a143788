-- ===== src/Fetch/Download/Pick.antt =====
-- internal/snapfetch/download.go: `pickPeer`, with the loop's variables as a record.
use malcom.Prelude.{
  ℕ, ◌+◌, Bool, false, List, [], ◌∷◌, Option, none, some, not, ◌||◌, ltb, leb, if◌then◌else◌,
}
use malcom.Prelude.Map
use malcom.Prelude.Map.{Map, nat_key, string_key}
use text.Mathlib.Text.{◌==◌ as str_eq}
use malcom.Fetch.Download.{PeerId, PeerStat, Job, Env}

pub record Best : Type 0 where
  pub proven : PeerId
  pub provis : PeerId
  pub proven_inflight : ℕ
  pub provis_inflight : ℕ

-- A missing key of a `map[…]bool` reads as false.
abbrev is_set : Option Bool → Bool
is_set none = false
is_set (some b) = b

unfoldable pub mem_peer : PeerId → List PeerId → Bool
mem_peer p [] = false
mem_peer p (q ∷ qs) = str_eq q p || mem_peer p qs

-- The peers that the loop passes over: benched, skipped in this dispatch, known not to have the
-- chunk, or not connected.
unfoldable pub is_passed_over : Env → ℕ → List PeerId → PeerId → PeerStat → Bool
is_passed_over env i skip pid st =
    st.banned || mem_peer pid skip || is_set (Map.get i st.declined) || not (env.pick_sees i pid)

-- One round of the loop.
unfoldable pub consider : Env → ℕ → List PeerId → PeerId → PeerStat → Best → Best
consider env i skip pid st b =
    if is_passed_over env i skip pid st
    then b
    else if st.provisional
    then (if ltb st.inflight b.provis_inflight
        then record b { provis_inflight = st.inflight; provis = pid }
        else b)
    else if ltb st.inflight b.proven_inflight
    then record b { proven_inflight = st.inflight; proven = pid }
    else b

unfoldable pub scan : Env → ℕ → List PeerId → List (PeerId × PeerStat) → Best → Best
scan env i skip [] b = b
scan env i skip ((pid, st) ∷ es) b = scan env i skip es (consider env i skip pid st b)

unfoldable pub start : Job → Best
start job = record {
  proven = "";
  provis = "";
  proven_inflight = job.per_peer + 1;
  provis_inflight = job.provisional_inflight + 1;
}

unfoldable pub select : Job → Best → PeerId
select job b =
    if ltb b.proven_inflight job.per_peer
    then b.proven
    else if leb b.provis_inflight job.provisional_inflight
    then b.provis
    else ""

-- `entries` are the peers in the order in which `range` visits them.
unfoldable pub pick_peer : Job → Env → ℕ → List PeerId → List (PeerId × PeerStat) → PeerId
unfolding scan start select
pick_peer job env i skip entries = select job (scan env i skip entries (start job))
