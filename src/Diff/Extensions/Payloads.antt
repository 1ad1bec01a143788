-- ===== src/Diff/Extensions/Payloads.antt =====
-- The payloads of an extension after the differ's records have been applied to the base's.
use mathlib.Core.Option.{none-ne-some}
use malcom.Prelude.{
  ℕ, suc, ◌≤◌, arith, ◌≡◌, ◌↔◌, inl, inr, refl, sym, ap, subst, ◌∙◌, Bool, true, List, [], ◌∷◌,
  ◌++◌, append_assoc, append-nil, Option, none, some, Bytes, Option-cases,
}
use malcom.Prelude.Map.{Map, bytes_key, get, put}
use malcom.Diff.Compute.{DiffRecord, ext_leave}
use malcom.Diff.Extensions.{
  ExtData, ExtChangeSet, payloads_of, keys, by_hash, diff_format, remove_records, add_records,
  removed, added, diff_extension, read_ext_changes, read_ext_sections, new_ext_changes, kept,
  apply_extension, with_meta, payload_items, ExtItem, ext_meta, ext_payload, other_item,
}
use malcom.Diff.Apply.Once.{count_keys}
use malcom.Diff.Extensions.Once.{
  count_keys-append, count_keys-cases, count_keys-kept, adds_of-once, adds_of-shared, keys-by_hash,
}
use malcom.Diff.Extensions.Hashes.{
  In, In-append, In-append_left, In-append_right, some_inj, nothing_there, get-keys, by_hash-In,
  by_hash-origin, removes_of-absent, removes_of-has, adds_of-target, adds_of-has, unless_there-In,
  unless_there-later, unless_there-first,
}

module _ (sha256 : Bytes → Bytes) where
  -- The reader gives back the set of the removes' hashes and the adds in their order.
  read-adds :
      (ps : List Bytes) (ch : ExtChangeSet) (rs : List DiffRecord)
      → read_ext_changes sha256 (add_records sha256 ps (ext_leave ∷ rs)) ch
        ≡ (record ch { adds = ch.adds ++ ps }, rs)
  unfolding read_ext_changes
  read-adds [] ch rs =
      ap (λ (xs : List Bytes). (record ch { adds = xs }, rs)) (sym (append-nil ch.adds))
  read-adds (p ∷ ps) ch rs =
      read-adds ps (record ch { adds = ch.adds ++ (p ∷ []) }) rs
      ∙ ap (λ (xs : List Bytes). (record ch { adds = xs }, rs)) (append_assoc ch.adds (p ∷ []) ps)

  read-removes :
      (qs ps : List Bytes) (ch : ExtChangeSet) (rs : List DiffRecord)
      → read_ext_changes sha256
          (remove_records sha256 qs (add_records sha256 ps (ext_leave ∷ rs)))
          ch
        ≡ (
          record ch {
            removes = by_hash sha256 (λ (q : Bytes). tt) qs ch.removes;
            adds = ch.adds ++ ps;
          },
          rs,
        )
  unfolding read_ext_changes by_hash
  read-removes [] ps ch rs = read-adds ps ch rs
  read-removes (q ∷ qs) ps ch rs =
      read-removes qs ps (record ch { removes = put (sha256 q) tt ch.removes }) rs

  kept-In :
      (ch : ExtChangeSet) (ps : List Bytes) (p : Bytes)
      → In p (kept sha256 (some ch) ps)
      → In p ps × (get (sha256 p) ch.removes ≡ none)
  unfolding kept
  kept-In ch [] p i = elim i [ ]
  kept-In ch (q ∷ ps) p i =
      elim (unless_there-In sha256 p (get (sha256 q) ch.removes) (some q) (kept sha256 (some ch) ps)
        i) [
          | inl (e, f) ↦ (
            inl (sym (some_inj f)),
            subst (λ (x : Bytes). get (sha256 x) ch.removes ≡ none) (some_inj f) e,
          )
          | inr later ↦ let (j, e) = kept-In ch ps p later in (inr j, e)
        ]

  kept-has :
      (ch : ExtChangeSet) (ps : List Bytes) (p : Bytes)
      → In p ps
      → get (sha256 p) ch.removes ≡ none
      → In p (kept sha256 (some ch) ps)
  unfolding kept
  kept-has ch [] p i e = elim i [ ]
  kept-has ch (q ∷ ps) p (inl same) e =
      unless_there-first sha256 p (get (sha256 q) ch.removes) (some q) (kept sha256 (some ch) ps)
        (subst (λ (x : Bytes). get (sha256 x) ch.removes ≡ none) same e) (ap some (sym same))
  kept-has ch (q ∷ ps) p (inr i) e =
      unless_there-later sha256 p (get (sha256 q) ch.removes) (some q) (kept sha256 (some ch) ps)
        (kept-has ch ps p i e)

-- The payloads among a snapshot's items.
abbrev pub payloads_in : List ExtItem → List Bytes
payloads_in [] = []
payloads_in (ext_payload p ∷ is) = p ∷ payloads_in is
payloads_in (ext_meta name format ∷ is) = payloads_in is
payloads_in (other_item ∷ is) = payloads_in is

payloads_in-items :
    (sha256 : Bytes → Bytes) (ps : List Bytes) → payloads_in (payload_items sha256 ps) ≡ ps
payloads_in-items sha256 [] = refl
payloads_in-items sha256 (p ∷ ps) = ap (◌∷◌ p) (payloads_in-items sha256 ps)

payloads_in-with_meta :
    (sha256 : Bytes → Bytes) (name : Bytes) (format : ℕ) (ps : List Bytes)
    → payloads_in (with_meta sha256 name format ps) ≡ ps
payloads_in-with_meta sha256 name format [] = refl
payloads_in-with_meta sha256 name format (p ∷ ps) = payloads_in-items sha256 (p ∷ ps)

module _ (sha256 : Bytes → Bytes) (order : List Bytes → List Bytes)
    (visits : (x : Bytes) (xs : List Bytes) → In x (order xs) ↔ In x xs) (b t : Option ExtData)
    (no_collision : (p q : Bytes)
      → In p (payloads_of b ++ payloads_of t)
      → In q (payloads_of b ++ payloads_of t)
      → sha256 p ≡ sha256 q
      → p ≡ q) where
  abbrev bases : Map Bytes Bool
  bases = by_hash sha256 (λ (p : Bytes). true) (payloads_of b) []

  abbrev targets : Map Bytes Bytes
  targets = by_hash sha256 (λ (p : Bytes). p) (payloads_of t) []

  abbrev result : ExtChangeSet
  result = record {
    format = diff_format sha256 b t;
    removes = by_hash sha256 (λ (q : Bytes). tt) (removed sha256 order b t) [];
    adds = added sha256 order b t;
  }

  targets-In : (h x : Bytes) → get h targets ≡ some x → In x (payloads_of t) × (sha256 x ≡ h)
  targets-In h x e = elim (by_hash-origin sha256 (λ (p : Bytes). p) (payloads_of t) [] h x e) [
    | inl (p, i, s, same) ↦ subst (λ (y : Bytes). In y (payloads_of t) × (sha256 y ≡ h)) same (i, s)
    | inr empty ↦ absurd (nothing_there h x empty)
  ]

  -- A payload of the base whose hash the target has is the target's.
  shared : (x : Bytes) {u : Bytes} → In x (payloads_of b) → get (sha256 x) targets ≡ some u → x ≡ u
  shared x {u} i e =
      let (j, s) = targets-In (sha256 x) u e in
      no_collision x u (In-append_left x (payloads_of b) (payloads_of t) i)
        (In-append_right u (payloads_of b) (payloads_of t) j) (sym s)

  not_removed-shared :
      (x : Bytes)
      → In x (payloads_of b)
      → get (sha256 x) result.removes ≡ none
      → In x (payloads_of t)
  not_removed-shared x i e = elim (Option-cases (get (sha256 x) targets)) [
    | inl absent ↦
        let (v, there) = by_hash-In sha256 (λ (p : Bytes). true) (payloads_of b) [] x i in
        let visited : In (sha256 x) (order (keys bases)) =
          (visits (sha256 x) (keys bases)).1 (get-keys (sha256 x) bases v there) in
        let (p, listed, s) =
          removes_of-has sha256 (payloads_of b) targets (order (keys bases)) (sha256 x) x visited
            absent i refl in
        let (u, found) =
          by_hash-In sha256 (λ (q : Bytes). tt) (removed sha256 order b t) [] p listed in
        absurd
          (none-ne-some u (sym e ∙ subst (λ (h : Bytes). get h result.removes ≡ some u) s found))
    | inr (u, e') ↦
        subst (λ (y : Bytes). In y (payloads_of t)) (sym (shared x i e'))
          (targets-In (sha256 x) u e').0
  ]

  shared-not_removed :
      (x : Bytes) {u : Bytes}
      → get (sha256 x) targets ≡ some u
      → get (sha256 x) result.removes ≡ none
  shared-not_removed x {u} e = elim (Option-cases (get (sha256 x) result.removes)) [
    | inl absent ↦ absent
    | inr (v, there) ↦
        elim (by_hash-origin sha256 (λ (q : Bytes). tt) (removed sha256 order b t) [] (sha256 x) v
          there) [
            | inl (p, i, s, same) ↦
                let gone : get (sha256 p) targets ≡ none =
                  removes_of-absent sha256 (payloads_of b) targets (order (keys bases)) p i in
                absurd (
                  none-ne-some u
                    (sym gone ∙ subst (λ (h : Bytes). get h targets ≡ some u) (sym s) e))
            | inr empty ↦ absurd (nothing_there (sha256 x) v empty)
          ]
  ]

  result_sound :
      (x : Bytes)
      → In x (kept sha256 (some result) (payloads_of b) ++ result.adds)
      → In x (payloads_of t)
  result_sound x i = elim (In-append x (kept sha256 (some result) (payloads_of b)) result.adds i) [
    | inl old ↦ let (j, e) = kept-In sha256 result (payloads_of b) x old in not_removed-shared x j e
    | inr new ↦
        let (h, e) = adds_of-target sha256 bases targets (order (keys targets)) x new in
        (targets-In h x e).0
  ]

  result_complete :
      (x : Bytes)
      → In x (payloads_of t)
      → In x (kept sha256 (some result) (payloads_of b) ++ result.adds)
  result_complete x i =
      let (u, e) = by_hash-In sha256 (λ (p : Bytes). p) (payloads_of t) [] x i in
      let (j, s) = targets-In (sha256 x) u e in
      let same : u ≡ x =
        no_collision u x (In-append_right u (payloads_of b) (payloads_of t) j)
          (In-append_right x (payloads_of b) (payloads_of t) i) s in
      elim (Option-cases (get (sha256 x) bases)) [
        | inl absent ↦ In-append_right x (kept sha256 (some result) (payloads_of b)) result.adds (
            adds_of-has sha256 bases targets (order (keys targets)) (sha256 x) x
              ((visits (sha256 x) (keys targets)).1 (get-keys (sha256 x) targets u e)) absent
              (subst (λ (y : Bytes). get (sha256 x) targets ≡ some y) same e))
        | inr (v, there) ↦
            elim (by_hash-origin sha256 (λ (p : Bytes). true) (payloads_of b) [] (sha256 x) v
              there) [
                | inl (p, k, q, _) ↦
                    let old : p ≡ x =
                      no_collision p x (In-append_left p (payloads_of b) (payloads_of t) k)
                        (In-append_right x (payloads_of b) (payloads_of t) i) q in
                    In-append_left x (kept sha256 (some result) (payloads_of b)) result.adds (
                      kept-has sha256 result (payloads_of b) x
                        (subst (λ (y : Bytes). In y (payloads_of b)) old k)
                        (shared-not_removed x e))
                | inr empty ↦ absurd (nothing_there (sha256 x) v empty)
              ]
      ]

  result_once :
      (x : Bytes)
      → count_keys x (payloads_of b) ≤ 1
      → ((h : Bytes) (hs : List Bytes) → count_keys h (order hs) ≡ count_keys h hs)
      → count_keys x (kept sha256 (some result) (payloads_of b) ++ result.adds) ≤ 1
  result_once x le once =
      let hashes = order (keys targets) in
      let total = count_keys-append x (kept sha256 (some result) (payloads_of b)) result.adds in
      let hashed = λ (h p : Bytes) (e : get h targets ≡ some p). (targets-In h p e).1 in
      let old = count_keys-kept sha256 x result (payloads_of b) in
      elim (count_keys-cases x (payloads_of b)) [
        | inl i ↦
            let (v, there) = by_hash-In sha256 (λ (p : Bytes). true) (payloads_of b) [] x i in
            omega
              (arith, total, old, le, adds_of-shared sha256 bases targets hashed x v hashes there)
        | inr z ↦ omega (
          arith,
          total,
          old,
          z,
          adds_of-once sha256 bases targets hashed x hashes,
          once (sha256 x) (keys targets),
          keys-by_hash sha256 (λ (p : Bytes). p) (sha256 x) (payloads_of t),
        )
      ]

  read-sections :
      (name : Bytes) (rs : List DiffRecord) (f : ℕ) (per_ext : Map Bytes ExtChangeSet)
      → read_ext_sections sha256 (suc f) (diff_extension sha256 order name b t rs) per_ext
        ≡ read_ext_sections sha256 f rs (put name result per_ext)
  unfolding read_ext_sections diff_extension
  read-sections name rs f per_ext =
      ap
        (λ (c : ExtChangeSet × List DiffRecord).
          read_ext_sections sha256 f c.1 (put name c.0 per_ext))
        (read-removes sha256 (removed sha256 order b t) (added sha256 order b t)
          (new_ext_changes sha256 (diff_format sha256 b t)) rs)

  -- Where Go visits a map of hashes in any order, each once, no two payloads of either side share a hash,
  -- and no payload stands twice in the base's extension: the records that the differ writes for an
  -- extension are read by apply as one change set, with what follows them left, and this, applied to the
  -- base's extension, gives exactly the payloads of the target's, each once.
  pub apply-diff_extension :
      (name : Bytes) (rs : List DiffRecord)
      → ((x : Bytes) → count_keys x (payloads_of b) ≤ 1)
      → ((h : Bytes) (hs : List Bytes) → count_keys h (order hs) ≡ count_keys h hs)
      → (ch : ExtChangeSet) × ((f : ℕ) (per_ext : Map Bytes ExtChangeSet)
          → read_ext_sections sha256 (suc f) (diff_extension sha256 order name b t rs) per_ext
            ≡ read_ext_sections sha256 f rs (put name ch per_ext))
        × ((x : Bytes)
            → (In x (payloads_in (apply_extension sha256 name b (some ch))) ↔ In x (payloads_of t))
              × (count_keys x (payloads_in (apply_extension sha256 name b (some ch))) ≤ 1))
  unfolding apply_extension
  apply-diff_extension name rs le once = (
    result,
    read-sections name rs,
    λ x.
        subst (λ (ps : List Bytes). (In x ps ↔ In x (payloads_of t)) × (count_keys x ps ≤ 1))
          (sym (
            payloads_in-with_meta sha256 name (diff_format sha256 b t)
              (kept sha256 (some result) (payloads_of b) ++ result.adds)))
          ((result_sound x, result_complete x), result_once x (le x) once),
  )
