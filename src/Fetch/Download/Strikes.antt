-- ===== src/Fetch/Download/Strikes.antt =====
-- The strike budget of a peer.
use malcom.Prelude.{
  ℕ, zero, suc, ◌+◌, ◌≤◌, ◌<◌, ◌≡◌, refl, true, false, arith, leb, leb→le, Bool-cases, inl, inr,
  if◌then◌else◌,
}
use malcom.Fetch.Download.{PeerStat, record_failure}

-- n hash mismatches in a row, with no verified chunk between them.
pub strikes : ℕ → ℕ → PeerStat → PeerStat
strikes zero limit st = st
strikes (suc n) limit st = strikes n limit (record_failure st limit).0

-- How many of n mismatches made the peer newly banned.
ban_calls : ℕ → ℕ → PeerStat → ℕ
ban_calls zero limit st = 0
ban_calls (suc n) limit st =
    let (st', newly) = record_failure st limit in
    let rest = ban_calls n limit st' in if newly then rest + 1 else rest

failure_banned :
    (limit : ℕ) (st : PeerStat) → st.banned ≡ true → record_failure st limit ≡ (st, false)
unfolding record_failure
failure_banned limit st h = ground arith

failure_below :
    (limit : ℕ) (st : PeerStat)
    → st.banned ≡ false
    → st.failures + 1 < limit
    → record_failure st limit ≡ (record st { failures = st.failures + 1 }, false)
unfolding record_failure
failure_below limit st h lt = ground arith

failure_last :
    (limit : ℕ) (st : PeerStat)
    → st.banned ≡ false
    → limit ≤ st.failures + 1
    → record_failure st limit ≡ (record st { failures = st.failures + 1; banned = true }, true)
unfolding record_failure
failure_last limit st h le = ground arith

banned_stays :
    (n limit : ℕ) (st : PeerStat)
    → st.banned ≡ true
    → (strikes n limit st ≡ st) × (ban_calls n limit st ≡ 0)
unfolding strikes ban_calls
banned_stays zero limit st h = (refl, refl)
banned_stays (suc n) limit st h = simp (failure_banned limit st h) (banned_stays n limit st h)

-- A peer that is not banned and has fewer failures than the limit is banned by n mismatches in a row
-- exactly when they reach the limit, and then the ban is reported exactly once.
strikes_ban_once :
    (n limit : ℕ) (st : PeerStat)
    → st.banned ≡ false
    → st.failures < limit
    → ((strikes n limit st).banned ≡ leb limit (st.failures + n))
      × (ban_calls n limit st ≡ (if leb limit (st.failures + n) then 1 else 0))
unfolding strikes ban_calls
strikes_ban_once zero limit st h lt = ground arith
strikes_ban_once (suc n) limit st h lt = elim (Bool-cases (leb limit (st.failures + 1))) [
  | inl last ↦
      let st' = record st { failures = st.failures + 1; banned = true } in
      simp (failure_last limit st h (omega (arith, leb→le)))
        (ground (arith, banned_stays n limit st' refl))
  | inr below ↦
      let st' = record st { failures = st.failures + 1 } in
      simp (failure_below limit st h (ground arith))
        (ground (arith, strikes_ban_once n limit st' h (ground arith)))
]
