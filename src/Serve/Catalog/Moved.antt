-- ===== src/Serve/Catalog/Moved.antt =====
-- What a rescan hands to the reactor.
use malcom.Prelude.{
  ℕ, zero, suc, replicate, String, ap, ◌≡◌, refl, true, List, [], ◌∷◌, none, some, Bytes, if_split,
  ret, ◌≢◌, ◌==◌, leb, ◌||◌, not,
}
use malcom.Prelude.Map.{bytes_equal_refl}
use malcom.StateSync.Wire.{Loaded, got}
use malcom.Serve.Store.{LoadedSnapshot, Disk, load_chunk}
use malcom.Serve.Catalog.{key_of, store_fingerprint, keys_of, Catalog, rescan, rescan_all}

-- No directory of the store holds the chunk's file any more.
abbrev AllGone : Disk → List LoadedSnapshot → ℕ → Type 0
AllGone disk [] i = Unit
AllGone disk (s ∷ ss) i = ((disk s.dir).chunk_file i ≡ none) × AllGone disk ss i

load_chunk-gone :
    (disk : Disk) (ss : List LoadedSnapshot) (h f i : ℕ) (bytes : Bytes)
    → AllGone disk ss i
    → load_chunk disk ss h f i ≢ got bytes true
unfolding load_chunk
load_chunk-gone disk [] h f i bytes gone = λ e. cc
load_chunk-gone disk (s ∷ ss) h f i bytes gone =
    if_split (λ (l : Loaded). l ≢ got bytes true) (not (s.height == h) || not (s.format == f))
      (λ _. load_chunk-gone disk ss h f i bytes gone.1)
      (λ _.
        if_split (λ (l : Loaded). l ≢ got bytes true) (leb s.chunks i) (λ _ e. cc)
          (λ _. rw gone.0 (λ e. cc)))

-- The snapshots in other directories.
abbrev pub moved : (String → String) → List LoadedSnapshot → List LoadedSnapshot
moved move [] = []
moved move (s ∷ ss) = record s { dir = move s.dir } ∷ moved move ss

keys_of-moved :
    (move : String → String) (ss : List LoadedSnapshot) → keys_of (moved move ss) ≡ keys_of ss
unfolding key_of
keys_of-moved move [] = refl
keys_of-moved move (s ∷ ss) = ap (◌∷◌ (key_of s)) (keys_of-moved move ss)

-- The store of the new directories answers as the old one did before the move.
load_chunk-moved :
    (move : String → String) (was disk : Disk) (ss : List LoadedSnapshot) (h f i : ℕ)
    → ((d : String) → (disk (move d)).chunk_file i ≡ (was d).chunk_file i)
    → load_chunk disk (moved move ss) h f i ≡ load_chunk was ss h f i
unfolding load_chunk
load_chunk-moved move was disk [] h f i same = refl
load_chunk-moved move was disk (s ∷ ss) h f i same =
    rw (same s.dir, load_chunk-moved move was disk ss h f i same) refl

-- The first scan after the move, and every one after it.
abbrev IsStale : List LoadedSnapshot → List LoadedSnapshot → Bytes → Catalog → Type 0
IsStale old new fp c = (c.fingerp ≡ some fp) × (c.served ≡ some old)

rescan-IsStale :
    (sha256 : Bytes → Bytes) (old new : List LoadedSnapshot) (c : Catalog)
    → keys_of new ≡ keys_of old
    → IsStale old new (store_fingerprint sha256 old) c
    → ((rescan sha256 (ret new) c).store ≡ some new)
      × IsStale old new (store_fingerprint sha256 old) (rescan sha256 (ret new) c)
unfolding rescan
rescan-IsStale sha256 old new c same (fp, served) =
    (refl, (rw same refl, rw (same, fp, bytes_equal_refl (store_fingerprint sha256 old)) served))

rescan_all-IsStale :
    (sha256 : Bytes → Bytes) (old new : List LoadedSnapshot) (n : ℕ) (c : Catalog)
    → keys_of new ≡ keys_of old
    → IsStale old new (store_fingerprint sha256 old) c
    → ((rescan_all sha256 (replicate (suc n) (ret new)) c).store ≡ some new)
      × ((rescan_all sha256 (replicate (suc n) (ret new)) c).served ≡ some old)
unfolding rescan_all
rescan_all-IsStale sha256 old new zero c same stale =
    let (now, (fp, served)) = rescan-IsStale sha256 old new c same stale in (now, served)
rescan_all-IsStale sha256 old new (suc n) c same stale =
    rescan_all-IsStale sha256 old new n (rescan sha256 (ret new) c) same
      (rescan-IsStale sha256 old new c same stale).1

-- The reactor serves the store of the catalog's fingerprint, and then every snapshot is moved to another
-- directory with its chunks, and the old directories hold chunk `i` no more. However many scans find the
-- snapshots in the new directories: that becomes the current store, which would answer for chunk `i` as
-- before; but the reactor keeps the old store, and answers no request for chunk `i` with a payload.
pub rescan-moved :
    (sha256 : Bytes → Bytes) (move : String → String) (was disk : Disk) (old : List LoadedSnapshot)
    (c : Catalog) (i n : ℕ)
    → c.fingerp ≡ some (store_fingerprint sha256 old)
    → c.served ≡ some old
    → ((d : String) → (disk (move d)).chunk_file i ≡ (was d).chunk_file i)
    → AllGone disk old i
    → let after = rescan_all sha256 (replicate (suc n) (ret (moved move old))) c in
      (after.store ≡ some (moved move old))
      × (after.served ≡ some old)
      × ((h f : ℕ)
          → (load_chunk disk (moved move old) h f i ≡ load_chunk was old h f i)
            × ((bytes : Bytes) → load_chunk disk old h f i ≢ got bytes true))
rescan-moved sha256 move was disk old c i n fp served carried gone =
    let (now, kept) =
      rescan_all-IsStale sha256 old (moved move old) n c (keys_of-moved move old) (fp, served) in
    (
      now,
      kept,
      λ h f. (
        load_chunk-moved move was disk old h f i carried,
        λ bytes. load_chunk-gone disk old h f i bytes gone,
      ),
    )
