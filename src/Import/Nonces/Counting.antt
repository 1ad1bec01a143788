-- ===== src/Import/Nonces/Counting.antt =====
-- The counters with their one-version cache number the nodes as a plain count of each version does.
use malcom.Prelude.{
  ℕ, suc, ◌+◌, ◌-◌, ◌%◌, ◌^◌, ◌≤◌, ◌<◌, ◌≡◌, ◌≢◌, refl, ◌∙◌, List, [], ◌∷◌, none, ◌==◌,
  if◌then◌else◌, arith, length,
}
use malcom.Prelude.Map.{nat_key, Map, get, put, get-put_self, get-put_ne}
use malcom.Import.Nonces.{Nonces, no_nonces, flush, resume, switch_to, next_nonce, nonces_of}

-- How often a version stands in a list.
abbrev occurrences : ℕ → List ℕ → ℕ
occurrences v [] = 0
occurrences v (w ∷ ws) = if v == w then suc (occurrences v ws) else occurrences v ws

-- Each node gets 2 and the number of the nodes of its version before it; `seen` has those, the latest
-- first.
abbrev pub numbered : List ℕ → List ℕ → List ℕ
numbered seen [] = []
numbered seen (v ∷ vs) = (2 + occurrences v seen) ∷ numbered (v ∷ seen) vs

abbrev AllPositive : List ℕ → Type 0
AllPositive [] = Unit
AllPositive (v ∷ vs) = (v ≢ 0) × AllPositive vs

occurrences-le-length : (v : ℕ) (ws : List ℕ) → occurrences v ws ≤ length ws
occurrences-le-length v [] = omega arith
occurrences-le-length v (w ∷ ws) = ground (arith, occurrences-le-length v ws)

-- The counter that a version would go on from.
abbrev counter_of : ℕ → Nonces → ℕ
counter_of v n = if n.cache_version == v then n.cache_counter else resume n.table v

-- Every version but 0 goes on from one more than its nodes so far.
abbrev Counts : Nonces → List ℕ → Type 0
Counts n seen = (v : ℕ) → v ≢ 0 → counter_of v n ≡ suc (occurrences v seen)

resume-put_self : (v c : ℕ) (t : Map ℕ ℕ) → c ≢ 0 → resume (put v c t) v ≡ c
unfolding resume
resume-put_self v c t h = ground (arith, get-put_self v c t)

resume-put_ne : (v w c : ℕ) (t : Map ℕ ℕ) → w ≢ v → resume (put w c t) v ≡ resume t v
unfolding resume
resume-put_ne v w c t h = ground (arith, get-put_ne v w c t h)

-- A flush changes no counter.
resume-flush :
    (v : ℕ) (n : Nonces) → v ≢ 0 → counter_of v n ≢ 0 → resume (flush n) v ≡ counter_of v n
unfolding flush
resume-flush v n h pos = ground (
  arith,
  resume-put_self v n.cache_counter n.table,
  resume-put_ne v n.cache_version n.cache_counter n.table,
)

-- After a switch the cache holds the version's counter, and no counter has changed.
switch_to-cache : (v : ℕ) (n : Nonces) → (switch_to v n).cache_version ≡ v
unfolding switch_to
switch_to-cache v n = ground arith

switch_to-counter :
    (v : ℕ) (n : Nonces)
    → v ≢ 0
    → counter_of v n ≢ 0
    → (switch_to v n).cache_counter ≡ counter_of v n
unfolding switch_to
switch_to-counter v n h pos = ground (arith, resume-flush v n h pos)

switch_to-others :
    (v w : ℕ) (n : Nonces)
    → w ≢ 0
    → v ≢ w
    → counter_of w n ≢ 0
    → resume (switch_to v n).table w ≡ counter_of w n
unfolding switch_to
switch_to-others v w n h ne pos = ground (arith, resume-flush w n h pos)

next_nonce-Counts :
    (v : ℕ) (n : Nonces) (seen : List ℕ)
    → v ≢ 0
    → length seen < 2 ^ 32 - 2
    → Counts n seen
    → ((next_nonce v n).0 ≡ 2 + occurrences v seen) × Counts (next_nonce v n).1 (v ∷ seen)
unfolding next_nonce
next_nonce-Counts v n seen h small counts = (first, λ w hw. after w hw)
  where
    pos : (w : ℕ) → w ≢ 0 → counter_of w n ≢ 0
    pos w hw = ground (arith, counts w hw)

    raised : ((switch_to v n).cache_counter + 1) % 2 ^ 32 ≡ 2 + occurrences v seen
    raised =
        omega (arith, switch_to-counter v n h (pos v h) ∙ counts v h, occurrences-le-length v seen)

    first : (next_nonce v n).0 ≡ 2 + occurrences v seen
    first = raised

    after : (w : ℕ) → w ≢ 0 → counter_of w (next_nonce v n).1 ≡ suc (occurrences w (v ∷ seen))
    after w hw =
        ground
          (arith, raised, switch_to-cache v n, switch_to-others v w n hw, pos w hw, counts w hw)

nonces_of-numbered :
    (vs seen : List ℕ) (n : Nonces)
    → AllPositive vs
    → length seen + length vs < 2 ^ 32 - 1
    → Counts n seen
    → nonces_of vs n ≡ numbered seen vs
unfolding nonces_of
nonces_of-numbered [] seen n pos small counts = refl
nonces_of-numbered (v ∷ vs) seen n (h, pos) small counts =
    let (first, after) = next_nonce-Counts v n seen h (omega arith) counts in
    cc (first, nonces_of-numbered vs (v ∷ seen) (next_nonce v n).1 pos (omega arith) after)

no_nonces-Counts : Counts no_nonces []
unfolding resume get
no_nonces-Counts v h = ground arith

-- From the empty counters, the nodes of any stream of fewer than 2^32 - 1 nodes with non-zero versions
-- get the nonces that a plain count of the nodes of each version gives, starting at 2: the cache of one
-- version, its flushes and the map behind it are never seen.
pub nonces_of-plain_count :
    (vs : List ℕ)
    → AllPositive vs
    → length vs < 2 ^ 32 - 1
    → nonces_of vs no_nonces ≡ numbered [] vs
nonces_of-plain_count vs pos small =
    nonces_of-numbered vs [] no_nonces pos (omega arith) no_nonces-Counts

-- What the next node of version 0 meets after one of another version.
zero_first : (n : Nonces) → n.cache_version ≢ 0 → get 0 n.table ≡ none → (next_nonce 0 n).0 ≡ 2
unfolding next_nonce switch_to flush resume
zero_first n h e = ground (arith, get-put_ne 0 n.cache_version n.cache_counter n.table)

zero_forgotten :
    (n : Nonces) (v : ℕ)
    → n.cache_version ≢ 0
    → get 0 n.table ≡ none
    → v ≢ 0
    → let n' = (next_nonce v (next_nonce 0 n).1).1 in
      (n'.cache_version ≢ 0) × (get 0 n'.table ≡ none)
unfolding next_nonce switch_to flush
zero_forgotten n v h e hv = ground (arith, get-put_ne 0 n.cache_version n.cache_counter n.table)

-- Version 0 stands for an empty cache, so its counter is lost: whenever another version's counter is
-- cached and the map holds none for version 0, a node of version 0 gets nonce 2, and after a node of
-- any other version the next node of version 0 gets nonce 2 again.
next_nonce-version_zero :
    (n : Nonces) (v : ℕ)
    → n.cache_version ≢ 0
    → get 0 n.table ≡ none
    → v ≢ 0
    → ((next_nonce 0 n).0 ≡ 2) × ((next_nonce 0 (next_nonce v (next_nonce 0 n).1).1).0 ≡ 2)
next_nonce-version_zero n v h e hv =
    let (cached, absent) = zero_forgotten n v h e hv in
    (zero_first n h e, zero_first (next_nonce v (next_nonce 0 n).1).1 cached absent)
