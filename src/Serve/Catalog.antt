-- ===== src/Serve/Catalog.antt =====
-- internal/snapserve/catalog.go: a rescan of the root, and the hand-over to the reactor. SHA-256 is a
-- parameter. Scans are taken one after the other.
pub mod Moved
use malcom.Prelude.{
  ℕ, Bool, true, false, List, [], ◌∷◌, ◌++◌, ◌&&◌, Option, none, some, String, Bytes, codes, take,
  if◌then◌else◌, Outcome, ret, fail, panic, stuck,
}
use malcom.Prelude.Decimal.{decimal}
use malcom.Prelude.Map.{bytes_equal}
use malcom.Fetch.Offers.{hex}
use malcom.Diff.Apply.{sort_keys}
use malcom.Serve.Store.{LoadedSnapshot, StoreError}

-- What a fingerprint knows of a snapshot: not its directory.
unfoldable pub key_of : LoadedSnapshot → Bytes
key_of s =
    codes s.chain_id
    ++ (b'/'
        ∷ (decimal 20 s.height []
            ++ (b'/'
                ∷ (decimal 10 s.format []
                    ++ (b'/' ∷ (decimal 10 s.chunks [] ++ (b'/' ∷ hex s.hash)))))))

abbrev pub keys_of : List LoadedSnapshot → List Bytes
keys_of [] = []
keys_of (s ∷ ss) = key_of s ∷ keys_of ss

-- `strings.Join(keys, "|")`.
unfoldable pub joined : List Bytes → Bytes
joined [] = []
joined (k ∷ []) = k
joined (k ∷ l ∷ ks) = k ++ (b'|' ∷ joined (l ∷ ks))

module _ (sha256 : Bytes → Bytes) where
  abbrev pub fingerprint_of : List Bytes → Bytes
  fingerprint_of [] = codes "empty"
  fingerprint_of (k ∷ ks) = hex (take 8 (sha256 (joined (sort_keys (k ∷ ks)))))

  abbrev pub store_fingerprint : List LoadedSnapshot → Bytes
  store_fingerprint ss = fingerprint_of (keys_of ss)

-- `store` is what `Current` returns, `hooked` says that `onStore` is set, and `served` is what the reactor
-- was given last.
pub record Catalog : Type 0 where
  pub store : Option (List LoadedSnapshot)
  pub fingerp : Option Bytes
  pub hooked : Bool
  pub served : Option (List LoadedSnapshot)

-- `NewCatalog` with or without an `OnStore`.
abbrev pub new_catalog : Bool → Catalog
new_catalog on_store = record { store = none; fingerp = none; hooked = on_store; served = none }

-- `SetOnStore` with a function, or with nil.
abbrev pub set_on_store : Bool → Catalog → Catalog
set_on_store given c = record c { hooked = given }

-- `RunServe` hands the store of the first scan to the reactor, before it sets the hook.
abbrev pub serve_current : Catalog → Catalog
serve_current c = record c { served = c.store }

-- A fingerprint is compared with the last one; before the first scan there is none.
abbrev pub differs : Option Bytes → Bytes → Bool
differs none fp = true
differs (some old) fp = if bytes_equal fp old then false else true

module _ (sha256 : Bytes → Bytes) where
  -- `Rescan` with what `LoadStoreFromRoot` returned.
  unfoldable pub rescan : Outcome StoreError (List LoadedSnapshot) → Catalog → Catalog
  rescan (ret ss) c =
      let fp = store_fingerprint sha256 ss in
      record c {
        store = some ss;
        fingerp = some fp;
        served = if differs c.fingerp fp && c.hooked then some ss else c.served;
      }
  rescan (fail e) c = c
  rescan panic c = c
  rescan stuck c = c

  unfoldable pub rescan_all : List (Outcome StoreError (List LoadedSnapshot)) → Catalog → Catalog
  unfolding rescan
  rescan_all [] c = c
  rescan_all (o ∷ os) c = rescan_all os (rescan o c)
