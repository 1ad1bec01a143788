-- ===== src/Diff/Extensions.antt =====
-- internal/snapshotdiff: the extensions of two snapshots. diff.go reads them and writes the records of
-- their difference, apply.go applies those to the base's. SHA-256 is a parameter, and so is the order in
-- which Go visits the keys of a map of hashes; the maps by name are visited in the order of their names.

pub mod Hashes
pub mod Once
pub mod Payloads
use malcom.Prelude.{
  ℕ, zero, suc, ◌+◌, ◌%◌, ◌^◌, Bool, true, false, List, [], ◌∷◌, ◌++◌, Option, none, some, Bytes,
  if◌then◌else◌, length,
}
use malcom.Prelude.Map.{Map, bytes_key, bytes_equal, get, put, modify}
use malcom.Diff.Compute.{
  DiffRecord, store_enter, change, store_leave, ext_enter, ext_leave, ext_add, ext_remove,
}
use malcom.Diff.Apply.{sort_keys}

pub record ExtData : Type 0 where
  pub format : ℕ
  pub payloads : List Bytes

pub record ExtChangeSet : Type 0 where
  pub format : ℕ
  pub removes : Map Bytes (Unit {0})
  pub adds : List Bytes

-- The items behind the stores of a snapshot.
pub data ExtItem : Type 0 where
  ext_meta : Bytes → ℕ → ExtItem
  ext_payload : Bytes → ExtItem
  other_item : ExtItem

-- The map entry that a meta item leaves: the first one's.
abbrev pub or_new : Bytes → ℕ → Option ExtData → Map Bytes ExtData → Map Bytes ExtData
or_new name format none out = put name record { format = format; payloads = [] } out
or_new name format (some d) out = out

abbrev with_payload : Bytes → ExtData → ExtData
with_payload p d = record d { payloads = d.payloads ++ (p ∷ []) }

-- The loop of `readAllExtensions`, with the current name.
unfoldable read_extensions : List ExtItem → Bytes → Map Bytes ExtData → Map Bytes ExtData
unfolding put modify
read_extensions [] current out = out
read_extensions (ext_meta name format ∷ is) current out =
    read_extensions is name (or_new name format (get name out) out)
read_extensions (ext_payload p ∷ is) current out =
    read_extensions is current
      (if bytes_equal current [] then out else modify current (with_payload p) out)
read_extensions (other_item ∷ is) current out = read_extensions is current out

unfoldable read_all_extensions : List ExtItem → Map Bytes ExtData
unfolding read_extensions
read_all_extensions is = read_extensions is [] []

abbrev pub payloads_of : Option ExtData → List Bytes
payloads_of none = []
payloads_of (some d) = d.payloads

abbrev pub keys : {V : Type 0} → Map Bytes V → List Bytes
keys [] = []
keys ((k, v) ∷ m) = k ∷ keys m

-- The names of two maps, each once, sorted.
abbrev put_names : {V : Type 0} → Map Bytes V → Map Bytes Bool → Map Bytes Bool
put_names [] m = m
put_names ((k, v) ∷ rest) m = put_names rest (put k true m)

unfoldable sorted_names : {V W : Type 0} → Map Bytes V → Map Bytes W → List Bytes
unfolding sort_keys put
sorted_names a b = sort_keys (keys (put_names b (put_names a [])))

-- A payload in front of others, unless its hash is on the other side.
abbrev pub unless_there : {V : Type 0} → Option V → Option Bytes → List Bytes → List Bytes
unless_there (some v) found rest = rest
unless_there none none rest = rest
unless_there none (some p) rest = p ∷ rest

module _ (sha256 : Bytes → Bytes) where
  -- A map from the hashes of payloads, the last one winning.
  unfoldable pub by_hash : {V : Type 0} → (Bytes → V) → List Bytes → Map Bytes V → Map Bytes V
  by_hash f [] m = m
  by_hash f (p ∷ ps) m = by_hash f ps (put (sha256 p) (f p) m)

  -- The first payload of a hash.
  unfoldable pub find_payload : Bytes → List Bytes → Option Bytes
  find_payload h [] = none
  find_payload h (p ∷ ps) = if bytes_equal (sha256 p) h then some p else find_payload h ps

  -- The payloads to remove, over the hashes of the base.
  unfoldable pub removes_of : List Bytes → Map Bytes Bytes → List Bytes → List Bytes
  unfolding find_payload
  removes_of base targets [] = []
  removes_of base targets (h ∷ hs) =
      unless_there (get h targets) (find_payload h base) (removes_of base targets hs)

  -- The payloads to add, over the hashes of the target.
  unfoldable pub adds_of : Map Bytes Bool → Map Bytes Bytes → List Bytes → List Bytes
  adds_of bases targets [] = []
  adds_of bases targets (h ∷ hs) =
      unless_there (get h bases) (get h targets) (adds_of bases targets hs)

  abbrev pub diff_format : Option ExtData → Option ExtData → ℕ
  diff_format (some b) t = b.format
  diff_format none (some t) = t.format
  diff_format none none = 1

  abbrev pub remove_records : List Bytes → List DiffRecord → List DiffRecord
  remove_records [] rs = rs
  remove_records (p ∷ ps) rs = ext_remove p ∷ remove_records ps rs

  abbrev pub add_records : List Bytes → List DiffRecord → List DiffRecord
  add_records [] rs = rs
  add_records (p ∷ ps) rs = ext_add p ∷ add_records ps rs

  module _ (order : List Bytes → List Bytes) where
    abbrev pub removed : Option ExtData → Option ExtData → List Bytes
    removed b t =
        removes_of (payloads_of b) (by_hash (λ (p : Bytes). p) (payloads_of t) [])
          (order (keys (by_hash (λ (p : Bytes). true) (payloads_of b) [])))

    abbrev pub added : Option ExtData → Option ExtData → List Bytes
    added b t =
        adds_of (by_hash (λ (p : Bytes). true) (payloads_of b) [])
          (by_hash (λ (p : Bytes). p) (payloads_of t) [])
          (order (keys (by_hash (λ (p : Bytes). p) (payloads_of t) [])))

    -- One turn of `diffExtensions`, before the records of the names that follow.
    unfoldable pub diff_extension :
        Bytes → Option ExtData → Option ExtData → List DiffRecord → List DiffRecord
    unfolding by_hash removes_of adds_of
    diff_extension name b t rs =
        ext_enter name (diff_format b t)
        ∷ remove_records (removed b t) (add_records (added b t) (ext_leave ∷ rs))

    unfoldable pub diff_names : Map Bytes ExtData → Map Bytes ExtData → List Bytes → List DiffRecord
    unfolding diff_extension
    diff_names base target [] = []
    diff_names base target (name ∷ names) =
        diff_extension name (get name base) (get name target) (diff_names base target names)

    unfoldable pub diff_extensions : Map Bytes ExtData → Map Bytes ExtData → List DiffRecord
    unfolding diff_names sorted_names
    diff_extensions base target = diff_names base target (sorted_names base target)

  -- `readExtChanges`: the changes, and the records that are left.
  unfoldable pub read_ext_changes : List DiffRecord → ExtChangeSet → ExtChangeSet × List DiffRecord
  unfolding put
  read_ext_changes [] ch = (ch, [])
  read_ext_changes (ext_leave ∷ rs) ch = (ch, rs)
  read_ext_changes (ext_add p ∷ rs) ch =
      read_ext_changes rs record ch { adds = ch.adds ++ (p ∷ []) }
  read_ext_changes (ext_remove p ∷ rs) ch =
      read_ext_changes rs record ch { removes = put (sha256 p) tt ch.removes }
  read_ext_changes (store_enter name ∷ rs) ch = (ch, store_enter name ∷ rs)
  read_ext_changes (ext_enter name format ∷ rs) ch = (ch, ext_enter name format ∷ rs)
  read_ext_changes (store_leave ∷ rs) ch = read_ext_changes rs ch
  read_ext_changes (change c ∷ rs) ch = read_ext_changes rs ch

  abbrev pub new_ext_changes : ℕ → ExtChangeSet
  new_ext_changes format = record { format = format; removes = []; adds = [] }

  -- The loop of `Apply` over the sections that are left; it ends at the end or at a store's.
  unfoldable pub read_ext_sections :
      ℕ → List DiffRecord → Map Bytes ExtChangeSet → Map Bytes ExtChangeSet
  unfolding read_ext_changes
  read_ext_sections zero rs per_ext = per_ext
  read_ext_sections (suc f) [] per_ext = per_ext
  read_ext_sections (suc f) (ext_enter name format ∷ rs) per_ext =
      let (ch, left) = read_ext_changes rs (new_ext_changes format) in
      read_ext_sections f left (put name ch per_ext)
  read_ext_sections (suc f) (store_enter name ∷ rs) per_ext = per_ext
  read_ext_sections (suc f) (r ∷ rs) per_ext = read_ext_sections f rs per_ext

  -- The base's payloads that are not dropped.
  unfoldable pub kept : Option ExtChangeSet → List Bytes → List Bytes
  kept none ps = ps
  kept (some ch) [] = []
  kept (some ch) (p ∷ ps) = unless_there (get (sha256 p) ch.removes) (some p) (kept (some ch) ps)

  abbrev pub adds_in : Option ExtChangeSet → List Bytes
  adds_in none = []
  adds_in (some ch) = ch.adds

  abbrev pub apply_format : Option ExtData → Option ExtChangeSet → ℕ
  apply_format b (some ch) = ch.format
  apply_format (some b) none = b.format
  apply_format none none = 0

  abbrev pub payload_items : List Bytes → List ExtItem
  payload_items [] = []
  payload_items (p ∷ ps) = ext_payload p ∷ payload_items ps

  -- The meta item goes out once, before the first payload.
  abbrev pub with_meta : Bytes → ℕ → List Bytes → List ExtItem
  with_meta name format [] = []
  with_meta name format (p ∷ ps) = ext_meta name format ∷ payload_items (p ∷ ps)

  unfoldable pub apply_extension : Bytes → Option ExtData → Option ExtChangeSet → List ExtItem
  unfolding kept
  apply_extension name b ch =
      with_meta name (apply_format b ch) (kept ch (payloads_of b) ++ adds_in ch)

  unfoldable pub apply_names :
      Map Bytes ExtData → Map Bytes ExtChangeSet → List Bytes → List ExtItem
  unfolding apply_extension
  apply_names base per_ext [] = []
  apply_names base per_ext (name ∷ names) =
      apply_extension name (get name base) (get name per_ext) ++ apply_names base per_ext names

  -- The phase of `Apply` behind the stores, over the records that are left. A round of the section
  -- loop takes at least one record.
  unfoldable pub apply_extensions : Map Bytes ExtData → List DiffRecord → List ExtItem
  unfolding read_ext_sections apply_names sorted_names
  apply_extensions base rs =
      let per_ext = read_ext_sections (suc (length rs)) rs [] in
      apply_names base per_ext (sorted_names base per_ext)
