-- ===== src/Peers/Banlist.antt =====
-- internal/helpers/banlist/banlist.go: the set of addresses not to be dialled again. Reading and
-- writing the file, and its JSON, are not modelled: `load` starts at the decoded entries.
use malcom.Prelude.{
  ℕ, zero, suc, ◌+◌, ◌-◌, Bool, true, false, ◌||◌, List, [], ◌∷◌, Option, none, some, String, ltb,
  leb, ◌==◌, if◌then◌else◌, length,
}
use malcom.Prelude.Map
use malcom.Prelude.Map.{Map, string_key}
use text.Mathlib.Text.{◌==◌ as str_eq}

pub record Entry : Type 0 where
  pub addr : String
  pub first_seen_at : ℕ
  pub last_seen_at : ℕ
  pub reason : String
  pub fail_count : ℕ

pub record Banned : Type 0 where
  pub cap : ℕ
  pub max_age : ℕ
  pub entries : Map String Entry

-- The sort by `LastSeenAt`, oldest first.
unfoldable insert_by_age : String → ℕ → List (String × ℕ) → List (String × ℕ)
insert_by_age k t [] = (k, t) ∷ []
insert_by_age k t ((j, u) ∷ xs) =
    if ltb u t then (j, u) ∷ insert_by_age k t xs else (k, t) ∷ (j, u) ∷ xs

unfoldable by_age : Map String Entry → List (String × ℕ)
unfolding insert_by_age
by_age [] = []
by_age ((k, e) ∷ es) = insert_by_age k e.last_seen_at (by_age es)

unfoldable drop_oldest : ℕ → List (String × ℕ) → Map String Entry → Map String Entry
drop_oldest zero arr es = es
drop_oldest (suc n) [] es = es
drop_oldest (suc n) ((k, t) ∷ arr) es = drop_oldest n arr (Map.delete k es)

unfoldable enforce_cap : Banned → Banned
unfolding by_age drop_oldest
enforce_cap s =
    if s.cap == 0 || leb (length s.entries) s.cap
    then s
    else record s { entries = drop_oldest (length s.entries - s.cap) (by_age s.entries) s.entries }

unfoldable pub has : String → Banned → Bool
has addr s =
    if str_eq addr "" then false else elim (Map.get addr s.entries) [ none ↦ false | some e ↦ true ]

abbrev seen_before : String → ℕ → Option Entry → Entry
seen_before addr now (some e) = e
seen_before addr now none = record {
  addr = addr;
  first_seen_at = now;
  last_seen_at = now;
  reason = "";
  fail_count = 0;
}

abbrev bumped : ℕ → String → Entry → Entry
bumped now reason e = record e {
  last_seen_at = now;
  fail_count = e.fail_count + 1;
  reason = if str_eq reason "" then e.reason else reason;
}

unfoldable pub add : ℕ → String → String → Banned → Banned
unfolding enforce_cap
add now addr reason s =
    if str_eq addr ""
    then s
    else enforce_cap record s {
      entries =
          Map.put addr (bumped now reason (seen_before addr now (Map.get addr s.entries)))
            s.entries;
    }

unfoldable pub remove : String → Banned → Banned
remove addr s = if str_eq addr "" then s else record s { entries = Map.delete addr s.entries }

-- The loop of `load`: entries without an address or older than the cutoff are left out.
unfoldable load_entries : ℕ → List Entry → Map String Entry → Map String Entry
load_entries cutoff [] es = es
load_entries cutoff (e ∷ rest) es =
    if str_eq e.addr "" || ltb e.last_seen_at cutoff
    then load_entries cutoff rest es
    else load_entries cutoff rest (Map.put e.addr e es)

unfoldable load : ℕ → List Entry → Banned → Banned
unfolding load_entries enforce_cap
load now file s = enforce_cap record s { entries = load_entries (now - s.max_age) file [] }
