-- ===== src/Fetch/Download/PickLaws.antt =====
-- What `pickPeer` chooses.
use malcom.Prelude.{
  ℕ, ◌+◌, ◌≤◌, ◌<◌, ◌≡◌, ◌≢◌, refl, sym, subst, ◌∙◌, ap, ◌⊎◌, inl, inr, true, false, List, [], ◌∷◌,
  arith, ltb, leb, if_split, ltb→lt, leb→le,
}
use malcom.Fetch.Download.{PeerId, PeerStat, Job, Env}
use malcom.Fetch.Download.Pick.{Best, is_passed_over, consider, scan, start, select, pick_peer}

-- The peer is one of the entries, with this record.
abbrev pub Among : PeerId → PeerStat → List (PeerId × PeerStat) → Type 0
Among pid st [] = ⊥
Among pid st ((p, t) ∷ es) = ((p ≡ pid) × (t ≡ st)) ⊎ Among pid st es

module _ (env : Env) (i : ℕ) (skip : List PeerId) where
  -- A proven peer that may be asked, and one on probation.
  abbrev IsProven : PeerId → PeerStat → Type 0
  IsProven pid st = (is_passed_over env i skip pid st ≡ false) × (st.provisional ≡ false)

  abbrev IsProbing : PeerId → PeerStat → Type 0
  IsProbing pid st = (is_passed_over env i skip pid st ≡ false) × (st.provisional ≡ true)

  considered :
      (pid : PeerId) (st : PeerStat) (b : Best)
      → (IsProven pid st → (consider env i skip pid st b).proven_inflight ≤ st.inflight)
        × (IsProbing pid st → (consider env i skip pid st b).provis_inflight ≤ st.inflight)
  unfolding consider
  considered pid st b = (λ q. ground arith, λ q. ground arith)

  -- The scan never raises the two minima.
  scan-le :
      (es : List (PeerId × PeerStat)) (b : Best)
      → ((scan env i skip es b).proven_inflight ≤ b.proven_inflight)
        × ((scan env i skip es b).provis_inflight ≤ b.provis_inflight)
  unfolding scan consider
  scan-le [] b = (omega arith, omega arith)
  scan-le ((pid, st) ∷ es) b = ground (arith, scan-le es (consider env i skip pid st b))

  -- After the scan no peer of its kind has fewer requests in flight.
  scan-least :
      (es : List (PeerId × PeerStat)) (b : Best) (pid : PeerId) (st : PeerStat)
      → Among pid st es
      → (IsProven pid st → (scan env i skip es b).proven_inflight ≤ st.inflight)
        × (IsProbing pid st → (scan env i skip es b).provis_inflight ≤ st.inflight)
  unfolding scan
  scan-least [] b pid st m = absurd m
  scan-least ((p, t) ∷ es) b pid st (inr m) = scan-least es (consider env i skip p t b) pid st m
  scan-least ((p, t) ∷ es) b pid st (inl (same, same')) =
      let (l, l') = scan-le es (consider env i skip p t b) in
      let (c, c') = considered p t b in
      (
        λ q. omega (arith, l, c (rw (same, same') q), ap (λ (x : PeerStat). x.inflight) same'),
        λ q. omega (arith, l', c' (rw (same, same') q), ap (λ (x : PeerStat). x.inflight) same'),
      )

  -- A peer of the list, of the kind, with this many requests in flight.
  abbrev IsFound : (PeerId → PeerStat → Type 0) → List (PeerId × PeerStat) → PeerId → ℕ → Type 0
  IsFound kind es pid n = (st : PeerStat) × Among pid st es × kind pid st × (st.inflight ≡ n)

  considered-from :
      (p : PeerId) (t : PeerStat) (b : Best)
      → let c = consider env i skip p t b in
        (((c.proven_inflight ≡ b.proven_inflight) × (c.proven ≡ b.proven))
          ⊎ (IsProven p t × (p ≡ c.proven) × (t.inflight ≡ c.proven_inflight)))
        × (((c.provis_inflight ≡ b.provis_inflight) × (c.provis ≡ b.provis))
            ⊎ (IsProbing p t × (p ≡ c.provis) × (t.inflight ≡ c.provis_inflight)))
  unfolding consider
  considered-from p t b = ground arith

  IsFound-step :
      (kind : PeerId → PeerStat → Type 0) (p : PeerId) (t : PeerStat)
      (es : List (PeerId × PeerStat)) {a b c : PeerId} {l m n : ℕ}
      → ((m ≡ l) × (b ≡ a)) ⊎ (kind p t × (p ≡ b) × (t.inflight ≡ m))
      → ((n ≡ m) × (c ≡ b)) ⊎ IsFound kind es c n
      → ((n ≡ l) × (c ≡ a)) ⊎ IsFound kind ((p, t) ∷ es) c n
  IsFound-step kind p t es one (inr (st, m, k, e)) = inr (st, inr m, k, e)
  IsFound-step kind p t es (inl (e, f)) (inl (e', f')) = inl (e' ∙ e, f' ∙ f)
  IsFound-step kind p t es (inr (k, e, f)) (inl (e', f')) =
      inr (t, inl (e ∙ sym f', refl), subst (λ x. kind x t) (e ∙ sym f') k, f ∙ sym e')

  -- What the scan ends with is where it began, or a peer of the list of the right kind.
  scan-from :
      (es : List (PeerId × PeerStat)) (b : Best)
      → let b' = scan env i skip es b in
        (((b'.proven_inflight ≡ b.proven_inflight) × (b'.proven ≡ b.proven))
          ⊎ IsFound IsProven es b'.proven b'.proven_inflight)
        × (((b'.provis_inflight ≡ b.provis_inflight) × (b'.provis ≡ b.provis))
            ⊎ IsFound IsProbing es b'.provis b'.provis_inflight)
  unfolding scan
  scan-from [] b = (inl (refl, refl), inl (refl, refl))
  scan-from ((p, t) ∷ es) b =
      let (c, c') = considered-from p t b in
      let (r, r') = scan-from es (consider env i skip p t b) in
      (IsFound-step IsProven p t es c r, IsFound-step IsProbing p t es c' r')

  -- The entry has the fewest requests in flight of its kind.
  abbrev pub IsLeast : (PeerId → PeerStat → Type 0) → List (PeerId × PeerStat) → PeerStat → Type 0
  IsLeast kind es st =
      (q : PeerId) (t : PeerStat) → Among q t es → kind q t → st.inflight ≤ t.inflight

  -- No peer of the kind is below the limit.
  abbrev pub IsFull : (PeerId → PeerStat → Type 0) → List (PeerId × PeerStat) → ℕ → Type 0
  IsFull kind es limit = (q : PeerId) (t : PeerStat) → Among q t es → kind q t → limit ≤ t.inflight

module _ (job : Job) (env : Env) (i : ℕ) (skip : List PeerId) (es : List (PeerId × PeerStat)) where
  -- What a chosen peer satisfies.
  abbrev pub IsChoice : PeerId → Type 0
  IsChoice pid =
      (st : PeerStat) × Among pid st es
      × ((IsProven env i skip pid st
            × (st.inflight < job.per_peer)
            × IsLeast env i skip (IsProven env i skip) es st)
          ⊎ (IsProbing env i skip pid st
              × (st.inflight ≤ job.provisional_inflight)
              × IsLeast env i skip (IsProbing env i skip) es st
              × IsFull env i skip (IsProven env i skip) es job.per_peer))

  choice :
      (b : Best)
      → ((b.proven_inflight ≡ job.per_peer + 1) × (b.proven ≡ ""))
        ⊎ IsFound env i skip (IsProven env i skip) es b.proven b.proven_inflight
      → ((b.provis_inflight ≡ job.provisional_inflight + 1) × (b.provis ≡ ""))
        ⊎ IsFound env i skip (IsProbing env i skip) es b.provis b.provis_inflight
      → IsFull env i skip (IsProven env i skip) es b.proven_inflight
      → IsFull env i skip (IsProbing env i skip) es b.provis_inflight
      → (select job b ≢ "")
      → IsChoice (select job b)
  unfolding select
  choice b from from' low low' =
      if_split (λ p. p ≢ "" → IsChoice p) (ltb b.proven_inflight job.per_peer)
        (λ t h. proven t from)
        (λ f.
          if_split (λ p. p ≢ "" → IsChoice p) (leb b.provis_inflight job.provisional_inflight)
            (λ t h. probing f t from') (λ g h. absurd (h refl)))
    where
      proven :
          ltb b.proven_inflight job.per_peer ≡ true
          → ((b.proven_inflight ≡ job.per_peer + 1) × (b.proven ≡ ""))
            ⊎ IsFound env i skip (IsProven env i skip) es b.proven b.proven_inflight
          → IsChoice b.proven
      proven t (inl (e, e')) = absurd (omega (arith, ltb→lt b.proven_inflight job.per_peer t, e))
      proven t (inr (st, m, k, e)) = (
        st,
        m,
        inl (
          k,
          omega (arith, ltb→lt b.proven_inflight job.per_peer t, e),
          λ q u n l. omega (arith, low q u n l, e),
        ),
      )

      probing :
          ltb b.proven_inflight job.per_peer ≡ false
          → leb b.provis_inflight job.provisional_inflight ≡ true
          → ((b.provis_inflight ≡ job.provisional_inflight + 1) × (b.provis ≡ ""))
            ⊎ IsFound env i skip (IsProbing env i skip) es b.provis b.provis_inflight
          → IsChoice b.provis
      probing f t (inl (e, e')) =
          absurd (omega (arith, leb→le b.provis_inflight job.provisional_inflight t, e))
      probing f t (inr (st, m, k, e)) = (
        st,
        m,
        inr (
          k,
          omega (arith, leb→le b.provis_inflight job.provisional_inflight t, e),
          (λ q u n l. omega (arith, low' q u n l, e)),
          λ q u n l. omega (arith, low q u n l, ge f),
        ),
      )
        where
          ge : ltb b.proven_inflight job.per_peer ≡ false → job.per_peer ≤ b.proven_inflight
          ge f = ground arith

  -- Whatever the order in which the peers are visited, a peer that is chosen is one of them that is not
  -- passed over. It is a proven peer below the limit of requests for each peer, with no proven
  -- candidate having fewer in flight; or a peer on probation within the provisional limit, least
  -- loaded of its kind, and then every proven candidate is at its limit.
  pub pick_peer-IsChoice : pick_peer job env i skip es ≢ "" → IsChoice (pick_peer job env i skip es)
  unfolding pick_peer start
  pick_peer-IsChoice =
      let (f, f') = scan-from env i skip es (start job) in
      choice (scan env i skip es (start job)) f f'
        (λ q t m k. (scan-least env i skip es (start job) q t m).0 k)
        (λ q t m k. (scan-least env i skip es (start job) q t m).1 k)

  -- If every proven candidate is at its limit and every candidate on probation above the provisional
  -- limit, nobody is picked.
  pub pick_peer-full :
      IsFull env i skip (IsProven env i skip) es job.per_peer
      → IsFull env i skip (IsProbing env i skip) es (job.provisional_inflight + 1)
      → pick_peer job env i skip es ≡ ""
  unfolding pick_peer start select
  pick_peer-full full full' =
      let (f, f') = scan-from env i skip es (start job) in go (scan env i skip es (start job)) f f'
    where
      go :
          (b : Best)
          → ((b.proven_inflight ≡ job.per_peer + 1) × (b.proven ≡ ""))
            ⊎ IsFound env i skip (IsProven env i skip) es b.proven b.proven_inflight
          → ((b.provis_inflight ≡ job.provisional_inflight + 1) × (b.provis ≡ ""))
            ⊎ IsFound env i skip (IsProbing env i skip) es b.provis b.provis_inflight
          → select job b ≡ ""
      go b f f' = rw (no f, no' f') refl
        where
          no :
              ((b.proven_inflight ≡ job.per_peer + 1) × (b.proven ≡ ""))
                ⊎ IsFound env i skip (IsProven env i skip) es b.proven b.proven_inflight
              → ltb b.proven_inflight job.per_peer ≡ false
          no (inl (e, e')) = ground arith
          no (inr (st, m, k, e)) = ground (arith, full b.proven st m k)

          no' :
              ((b.provis_inflight ≡ job.provisional_inflight + 1) × (b.provis ≡ ""))
                ⊎ IsFound env i skip (IsProbing env i skip) es b.provis b.provis_inflight
              → leb b.provis_inflight job.provisional_inflight ≡ false
          no' (inl (e, e')) = ground arith
          no' (inr (st, m, k, e)) = ground (arith, full' b.provis st m k)
