-- ===== src/Serve/Store/Verified.antt =====
-- What a store that was loaded with the hash of every chunk serves.
use malcom.Prelude.{
  ℕ, zero, suc, ◌+◌, ◌≤◌, ◌<◌, ◌≡◌, ◌⊎◌, inl, inr, refl, sym, ap, subst, ◌∙◌, Bool, true, false,
  not, ◌||◌, List, [], ◌∷◌, ◌++◌, Option, none, some, String, Bytes, if◌then◌else◌, if_cases, ltb,
  Bool-cases, arith, leb, ◌==◌, get_elem?, Outcome, ret, fail, panic, stuck, and_then,
}
use mathlib.Core.Bool.{false≢true}
use native.Mathlib.Decide.{ℕ_discrete}
use malcom.Prelude.Map.{bytes_equal→eq}
use malcom.StateSync.Wire.{got, unreadable}
use malcom.Serve.Store.{
  LoadedSnapshot, DirContents, Disk, per_chunk_hash, StoreError, parse_chunk_hashes, chunk_matches,
  verify_from, verify_chunks, verify_unless_trusted, check_meta, or_fail, load_one, is_taken,
  is_other_chain, insert_by_height, new_store, scanned, scan_dirs, load_store_from_root, load_chunk,
}

-- What a successful chain of calls says of its parts.
and_then-ret :
    {E A B : Type 0} (m : Outcome E A) (k : A → Outcome E B) {b : B}
    → and_then m k ≡ ret b
    → (a : A) × (m ≡ ret a) × (k a ≡ ret b)
and_then-ret (ret a) k e = (a, refl, e)
and_then-ret (fail x) k e = cc
and_then-ret panic k e = cc
and_then-ret stuck k e = cc

module _ (sha256 : Bytes → Bytes) where
  -- The file of each chunk from `i` on has the hash of its index.
  abbrev pub Covered : DirContents → List Bytes → ℕ → ℕ → Type 0
  Covered d hashes i n =
      (j : ℕ)
      → i ≤ j
      → j < i + n
      → (input : Bytes) × (d.chunk_file j ≡ some input) × (get_elem? hashes j ≡ some (sha256 input))

  matches-eq :
      (input : Bytes) (want : Option Bytes)
      → chunk_matches sha256 per_chunk_hash input want ≡ true
      → want ≡ some (sha256 input)
  matches-eq input none e = absurd (false≢true e)
  matches-eq input (some want) e = ap some (sym (bytes_equal→eq (sha256 input) want e))

  verify_from-Covered :
      (d : DirContents) (want : Bytes) (hashes : List Bytes) (n i : ℕ) (agg : Bytes)
      → verify_from sha256 per_chunk_hash d want hashes n i agg ≡ ret tt
      → Covered d hashes i n
  unfolding verify_from
  verify_from-Covered d want hashes zero i agg e j low high = absurd (omega arith)
  verify_from-Covered d want hashes (suc n) i agg e j low high =
      by_file (d.chunk_file i) refl e
        (λ input e'. verify_from-Covered d want hashes n (i + 1) (agg ++ input) e' j)
    where
      failed : {A : Type 0} → fail StoreError.chunk_mismatch ≡ ret tt → A
      failed q = cc

      by_file :
          (o : Option Bytes)
          → d.chunk_file i ≡ o
          → (elim o [
            | none ↦ fail StoreError.no_chunk
            | some input ↦
                let rest =
                  verify_from sha256 per_chunk_hash d want hashes n (i + 1) (agg ++ input) in
                if chunk_matches sha256 per_chunk_hash input (get_elem? hashes i)
                then rest
                else fail StoreError.chunk_mismatch
          ])
            ≡ ret tt
          → ((input : Bytes)
              → verify_from sha256 per_chunk_hash d want hashes n (i + 1) (agg ++ input) ≡ ret tt
              → i + 1 ≤ j
              → j < (i + 1) + n
              → (x : Bytes) × (d.chunk_file j ≡ some x) × (get_elem? hashes j ≡ some (sha256 x)))
          → (x : Bytes) × (d.chunk_file j ≡ some x) × (get_elem? hashes j ≡ some (sha256 x))
      by_file none f q rec = cc
      by_file (some input) f q rec =
          elim (Bool-cases (chunk_matches sha256 per_chunk_hash input (get_elem? hashes i))) [
            | inl t ↦ elim (ℕ_discrete i j) [
              | yes same ↦
                  subst
                    (λ (k : ℕ).
                      (x : Bytes) × (d.chunk_file k ≡ some x)
                      × (get_elem? hashes k ≡ some (sha256 x)))
                    same (input, f, matches-eq input (get_elem? hashes i) t)
              | no apart ↦ rec input (rw t at q) (omega (arith, apart)) (omega arith)
            ]
            | inr wrong ↦ absurd (failed (rw wrong at q))
          ]

  -- A snapshot whose files have the hashes of its metadata.
  abbrev pub IsVerified : Disk → LoadedSnapshot → Type 0
  IsVerified disk s =
      (hashes : List Bytes) × (parse_chunk_hashes s.metadata ≡ ret hashes)
      × Covered (disk s.dir) hashes 0 s.chunks

  load_one-IsVerified :
      (disk : Disk) (dir : String) (s : LoadedSnapshot)
      → load_one sha256 per_chunk_hash disk dir ≡ ret s
      → IsVerified disk s
  unfolding load_one verify_chunks
  load_one-IsVerified disk dir s e = elim (Bool-cases (not (disk dir).complete)) [
    | inl absent ↦ absurd (incomplete (rw absent at e))
    | inr present ↦
        let (metadata, _, e1) =
          and_then-ret (or_fail sha256 StoreError.no_metadata (disk dir).metadata_bin) _
            (rw present at e) in
        let (hashes, parsed, e2) = and_then-ret (parse_chunk_hashes metadata) _ e1 in
        let (meta, _, e3) =
          and_then-ret (or_fail sha256 StoreError.no_meta (disk dir).meta_json) _ e2 in
        let (want, _, e4) = and_then-ret (check_meta sha256 metadata hashes meta) _ e3 in
        let (_, checked, e5) =
          and_then-ret
            (verify_unless_trusted sha256 per_chunk_hash (disk dir) meta.chunks want hashes) _ e4 in
        subst (IsVerified disk) (loaded_eq e5) (
          hashes,
          parsed,
          verify_from-Covered (disk dir) want hashes meta.chunks 0 [] (unit_ret checked),
        )
  ]
    where
      incomplete : {A : Type 0} {s : LoadedSnapshot} → fail StoreError.missing_complete ≡ ret s → A
      incomplete q = cc

      loaded_eq :
          {a b : LoadedSnapshot}
          → ◌≡◌ {A = Outcome StoreError LoadedSnapshot} (ret a) (ret b)
          → a ≡ b
      loaded_eq q = cc

      unit_ret : {o : Outcome StoreError (Unit {0})} {u : Unit {0}} → o ≡ ret u → o ≡ ret tt
      unit_ret q = q

  abbrev pub AllVerified : Disk → List LoadedSnapshot → Type 0
  AllVerified disk [] = Unit
  AllVerified disk (s ∷ ss) = IsVerified disk s × AllVerified disk ss

  insert_by_height-AllVerified :
      (disk : Disk) (s : LoadedSnapshot) (ss : List LoadedSnapshot)
      → IsVerified disk s
      → AllVerified disk ss
      → AllVerified disk (insert_by_height sha256 s ss)
  unfolding insert_by_height
  insert_by_height-AllVerified disk s [] v vs = (v, tt)
  insert_by_height-AllVerified disk s (t ∷ ts) v vs =
      if_cases (AllVerified disk) (ltb t.height s.height) (v, vs)
        (vs.0, insert_by_height-AllVerified disk s ts v vs.1)

  new_store-AllVerified :
      (disk : Disk) (ss : List LoadedSnapshot)
      → AllVerified disk ss
      → AllVerified disk (new_store sha256 ss)
  unfolding new_store
  new_store-AllVerified disk [] vs = tt
  new_store-AllVerified disk (s ∷ ss) vs =
      insert_by_height-AllVerified disk s (new_store sha256 ss) vs.0
        (new_store-AllVerified disk ss vs.1)

  scanned-AllVerified :
      (chain : String) (disk : Disk) (loaded : List LoadedSnapshot)
      (o : Outcome StoreError LoadedSnapshot) (res : List LoadedSnapshot)
      → ((s : LoadedSnapshot) → o ≡ ret s → IsVerified disk s)
      → AllVerified disk loaded
      → scanned sha256 chain loaded o ≡ ret res
      → AllVerified disk res
  scanned-AllVerified chain disk loaded (ret s) res v vs e =
      elim (Bool-cases
        (is_other_chain sha256 chain s.chain_id || is_taken sha256 s.height s.format loaded)) [
          | inl skip ↦ subst (AllVerified disk) (list_eq (rw skip at e)) vs
          | inr take ↦ subst (AllVerified disk) (list_eq (rw take at e)) (v s refl, vs)
        ]
    where
      list_eq :
          {a b : List LoadedSnapshot}
          → ◌≡◌ {A = Outcome StoreError (List LoadedSnapshot)} (ret a) (ret b)
          → a ≡ b
      list_eq q = cc
  scanned-AllVerified chain disk loaded (fail x) res v vs e = subst (AllVerified disk) (cc) vs
  scanned-AllVerified chain disk loaded panic res v vs e = cc
  scanned-AllVerified chain disk loaded stuck res v vs e = cc

  scan_dirs-AllVerified :
      (chain : String) (disk : Disk) (dirs : List (String × Bool))
      (loaded res : List LoadedSnapshot)
      → AllVerified disk loaded
      → scan_dirs sha256 per_chunk_hash chain disk dirs loaded ≡ ret res
      → AllVerified disk res
  unfolding scan_dirs
  scan_dirs-AllVerified chain disk [] loaded res vs e = subst (AllVerified disk) (cc) vs
  scan_dirs-AllVerified chain disk ((dir, is_dir) ∷ dirs) loaded res vs e =
      elim (Bool-cases (not is_dir || not (disk dir).complete)) [
        | inl skip ↦ scan_dirs-AllVerified chain disk dirs loaded res vs (rw skip at e)
        | inr look ↦
            let (ss, kept, e') =
              and_then-ret (scanned sha256 chain loaded (load_one sha256 per_chunk_hash disk dir)) _
                (rw look at e) in
            scan_dirs-AllVerified chain disk dirs ss res
              (scanned-AllVerified chain disk loaded (load_one sha256 per_chunk_hash disk dir) ss
                (λ s q. load_one-IsVerified disk dir s q) vs kept)
              e'
      ]

  pub load_store_from_root-AllVerified :
      (chain : String) (disk : Disk) (dirs : List (String × Bool)) (ss : List LoadedSnapshot)
      → load_store_from_root sha256 per_chunk_hash chain disk dirs ≡ ret ss
      → AllVerified disk ss
  unfolding load_store_from_root
  load_store_from_root-AllVerified chain disk dirs ss e =
      let (raw, scan, e') = and_then-ret (scan_dirs sha256 per_chunk_hash chain disk dirs []) _ e in
      subst (AllVerified disk) (store_eq e')
        (new_store-AllVerified disk raw (scan_dirs-AllVerified chain disk dirs [] raw tt scan))
    where
      store_eq :
          {a b : List LoadedSnapshot}
          → ◌≡◌ {A = Outcome StoreError (List LoadedSnapshot)} (ret a) (ret b)
          → a ≡ b
      store_eq q = cc

  abbrev pub In : LoadedSnapshot → List LoadedSnapshot → Type 0
  In s [] = ⊥
  In s (t ∷ ts) = (s ≡ t) ⊎ In s ts

  -- The bytes are those of a snapshot of the store with that height and format: their hash stands at
  -- the index in the metadata that the store offers with it.
  abbrev pub IsOffered : List LoadedSnapshot → ℕ → ℕ → ℕ → Bytes → Type 0
  IsOffered ss h f i bytes =
      (s : LoadedSnapshot) × In s ss
      × (s.height ≡ h)
      × (s.format ≡ f)
      × (i < s.chunks)
      × ((hashes : List Bytes) × (parse_chunk_hashes s.metadata ≡ ret hashes)
          × (get_elem? hashes i ≡ some (sha256 bytes)))

  pub load_chunk-IsOffered :
      (disk : Disk) (ss : List LoadedSnapshot) (h f i : ℕ) (bytes : Bytes)
      → AllVerified disk ss
      → load_chunk disk ss h f i ≡ got bytes true
      → IsOffered ss h f i bytes
  unfolding load_chunk
  load_chunk-IsOffered disk [] h f i bytes vs e = absurd (false_found e)
    where
      false_found : got [] false ≡ got bytes true → ⊥
      false_found q = cc
  load_chunk-IsOffered disk (s ∷ ss) h f i bytes vs e =
      elim (Bool-cases (not (s.height == h) || not (s.format == f))) [
        | inl other ↦
            let (t, there, a, b, c, hashed) =
              load_chunk-IsOffered disk ss h f i bytes vs.1 (rw other at e) in
            (t, inr there, a, b, c, hashed)
        | inr this ↦ elim (Bool-cases (leb s.chunks i)) [
          | inl beyond ↦ absurd (false_found (rw beyond at (rw this at e)))
          | inr within ↦
              let found = loaded_file ((disk s.dir).chunk_file i) (rw within at (rw this at e)) in
              let (hashes, parsed, cover) = vs.0 in
              let (input, file, hashed) = cover i (omega arith) (ground arith) in
              (
                s,
                inl refl,
                ground arith,
                ground arith,
                ground arith,
                (
                  hashes,
                  parsed,
                  subst (λ (b : Bytes). get_elem? hashes i ≡ some (sha256 b))
                      (some_eq (sym file ∙ found)) hashed,
                ),
              )
        ]
      ]
    where
      false_found : got [] false ≡ got bytes true → ⊥
      false_found q = cc

      some_eq : {a b : Bytes} → some a ≡ some b → a ≡ b
      some_eq q = cc

      loaded_file :
          (o : Option Bytes)
          → (elim o [ none ↦ unreadable | some b ↦ got b true ]) ≡ got bytes true
          → o ≡ some bytes
      loaded_file none q = cc
      loaded_file (some b) q = cc
