-- ===== src/Fetch/Download/Invariant/Resume.antt =====
-- `init` establishes the invariant, over whatever an earlier run left in the directory.
use malcom.Prelude.{
  ℕ, zero, suc, ◌<◌, ◌≡◌, ◌≢◌, refl, sym, ap, ◌∙◌, inl, true, false, List, [], ◌∷◌, Option, none,
  some, Bytes, arith, length, leb, not, get_or, get_elem?, set, if_cases, if_split,
  length-replicate, get_or-replicate, count-replicate-false, get_or-set_self, get_or-set_ne,
}
use malcom.Prelude.Map
use malcom.Prelude.Map.{Map, bytes_key, bytes_equal, bytes_equal→eq}
use native.Mathlib.Decide.{ℕ_discrete}
use malcom.Fetch.Download.{PeerId, Job, Env, Scheduler}
use malcom.Fetch.Download.FileName.{file_index}
use malcom.Fetch.Download.Resume.{
  Entry, is_stale_tmp, remove_file, accept_file, check_file, resume_index, resume_entry,
  resume_from_disk, new_scheduler, seed_good, pin_good, initialize,
}
use malcom.Fetch.Download.Coverage.{Tracks-complete, Tracks-unpend}
use malcom.Fetch.Download.Integrity.{HasFile}
use malcom.Fetch.Download.Invariant.{IsJob, Inv, Inv-neutral, add_all-keeps, dispatch-Inv}
use malcom.Fetch.Download.DispatchLaws.{IsNeutral}

-- A directory lists each name once.
abbrev IsAbsent : Bytes → List Entry → Type 0
IsAbsent name [] = Unit
IsAbsent name (e ∷ es) = (e.name ≢ name) × IsAbsent name es

abbrev pub IsDistinct : List Entry → Type 0
IsDistinct [] = Unit
IsDistinct (e ∷ es) = IsAbsent e.name es × IsDistinct es

-- In the middle of the sweep: the files relied on are not among the entries still to come.
record Sweeping (job : Job) (es : List Entry) (s : Scheduler) : Type 0 where
  inv : Inv job s
  behind :
      (i : ℕ)
      → i < job.chunks
      → get_or s.completed i false ≡ true
      → (f : HasFile job s.disk i) × IsAbsent f.name es

get_elem-get_or : (xs : List Bytes) (i : ℕ) → i < length xs → get_elem? xs i ≡ some (get_or xs i [])
get_elem-get_or [] i h = absurd (omega arith)
get_elem-get_or (x ∷ xs) zero h = refl
get_elem-get_or (x ∷ xs) (suc i) h = get_elem-get_or xs i (omega arith)

module _ (job : Job) (ok : IsJob job) (e : Entry) (es : List Entry)
    (once : IsAbsent e.name es) where
  kept : (s : Scheduler) → Sweeping job (e ∷ es) s → Sweeping job es s
  kept s w = record {
    inv = w.inv;
    behind = λ i lt full. let (f, absent) = w.behind i lt full in (f, absent.1);
  }

  still_there :
      (s : Scheduler) (i : ℕ) (f : HasFile job s.disk i)
      → e.name ≢ f.name
      → HasFile job (Map.delete e.name s.disk) i
  still_there s i f other = record {
    name = f.name;
    content = f.content;
    names_chunk = f.names_chunk;
    on_disk = Map.get-delete_ne f.name e.name s.disk other ∙ f.on_disk;
    verified = f.verified;
  }

  removed : (s : Scheduler) → Sweeping job (e ∷ es) s → Sweeping job es (remove_file e s)
  unfolding remove_file still_there
  removed s w =
      if_cases (Sweeping job es) e.removable
        (record {
          inv = record {
            tracking = w.inv.tracking;
            stored =
                λ i lt full. let (f, absent) = w.behind i lt full in still_there s i f absent.0;
          };
          behind = λ i lt full.
              let (f, absent) = w.behind i lt full in (still_there s i f absent.0, absent.1);
        })
        (kept s w)

  accepted :
      (i : ℕ) (content : Bytes) (s : Scheduler)
      → i < job.chunks
      → get_or s.completed i false ≡ false
      → file_index e.name ≡ some i
      → Map.get e.name s.disk ≡ some content
      → job.sha256 content ≡ get_or job.chunk_hashes i []
      → Sweeping job (e ∷ es) s
      → Sweeping job es (accept_file job i content s)
  unfolding accept_file
  accepted i content s lt fresh named read good w =
      let t = w.inv.tracking in
      let full = get_or-set_self s.completed i true false (omega (arith, t.completed_length)) in
      let found : (j : ℕ)
          → j < job.chunks
          → get_or (set s.completed i true) j false ≡ true
          → (f : HasFile job s.disk j) × IsAbsent f.name es =
        λ j lt' full'. elim (ℕ_discrete i j) [
          | yes same ↦ (
            record {
              name = e.name;
              content = content;
              names_chunk = named ∙ ap some same;
              on_disk = read;
              verified = rw (← same) (
                  get_elem-get_or job.chunk_hashes i (omega (arith, ok.one_hash_each))
                  ∙ ap some (sym good));
            },
            once,
          )
          | no other ↦
              let (f, absent) =
                w.behind j lt' (sym (get_or-set_ne s.completed i j true false other) ∙ full') in
              (f, absent.1)
        ] in
      record {
        inv = record {
          tracking = Tracks-unpend i (Tracks-complete t i lt ok.uint32 fresh) full;
          stored = λ j lt' full'. (found j lt' full').0;
        };
        behind = found;
      }

  checked :
      (i : ℕ) (content : Option Bytes) (s : Scheduler)
      → i < job.chunks
      → get_or s.completed i false ≡ false
      → file_index e.name ≡ some i
      → Map.get e.name s.disk ≡ content
      → Sweeping job (e ∷ es) s
      → Sweeping job es (check_file job e i content s)
  unfolding check_file
  checked i none s lt fresh named read w = kept s w
  checked i (some content) s lt fresh named read w =
      if_cases (Sweeping job es) (not e.readable) (kept s w) (
        if_split (Sweeping job es) (bytes_equal (job.sha256 content) (get_or job.chunk_hashes i []))
          (λ same. accepted i content s lt fresh named read (bytes_equal→eq _ _ same) w)
          (λ _. removed s w))

  indexed :
      (index : Option ℕ) (s : Scheduler)
      → file_index e.name ≡ index
      → Sweeping job (e ∷ es) s
      → Sweeping job es (resume_index job e index s)
  unfolding resume_index
  indexed none s named w = kept s w
  indexed (some i) s named w =
      if_split (Sweeping job es) (leb job.chunks i) (λ _. removed s w)
        (λ inside.
          if_split (Sweeping job es) (get_or s.completed i false) (λ _. kept s w)
            (λ fresh. checked i _ s (ground arith) fresh named refl w))

  swept : (s : Scheduler) → Sweeping job (e ∷ es) s → Sweeping job es (resume_entry job e s)
  unfolding resume_entry
  swept s w = if_cases (Sweeping job es) e.is_dir (kept s w) (
      if_cases (Sweeping job es) (is_stale_tmp e.name) (removed s w)
        (indexed (file_index e.name) s refl w))

resume-Inv :
    (job : Job)
    → IsJob job
    → (es : List Entry) → IsDistinct es
    → (s : Scheduler) → Sweeping job es s
    → Inv job (resume_from_disk job es s)
unfolding resume_from_disk
resume-Inv job ok [] d s w = w.inv
resume-Inv job ok (e ∷ es) d s w =
    resume-Inv job ok es d.1 (resume_entry job e s) (swept job ok e es d.0 s w)

new_scheduler-Inv : (job : Job) (disk : Map Bytes Bytes) → Inv job (new_scheduler job disk)
unfolding new_scheduler
new_scheduler-Inv job disk = record {
  tracking = record {
    pending_length = length-replicate job.chunks true;
    completed_length = length-replicate job.chunks false;
    counted = sym (count-replicate-false job.chunks);
    covered = λ i lt. inl (get_or-replicate job.chunks i true false lt);
  };
  stored = λ i lt full. absurd (ground (arith, get_or-replicate job.chunks i false false lt));
}

-- Neither the peers' records nor the calls made matter.
Sweeping-neutral : (job : Job) (es : List Entry) → IsNeutral (Sweeping job es)
Sweeping-neutral job es s stats effects w = record {
  inv = Inv-neutral job s stats effects w.inv;
  behind = w.behind;
}

new_scheduler-Sweeping :
    (job : Job) (es : List Entry) (disk : Map Bytes Bytes)
    → Sweeping job es (new_scheduler job disk)
new_scheduler-Sweeping job es disk = record {
  inv = new_scheduler-Inv job disk;
  behind = λ i lt full.
      absurd (unfold new_scheduler in ground (arith, get_or-replicate job.chunks i false false lt));
}

module _ (P : Scheduler → Type 0) (neutral : IsNeutral P) where
  seed_good-keeps : (ps : List PeerId) (s : Scheduler) → P s → P (seed_good ps s)
  unfolding seed_good
  seed_good-keeps [] s v = v
  seed_good-keeps (p ∷ ps) s v = seed_good-keeps ps _ (neutral s _ s.effects v)

  pin_good-keeps :
      (job : Job) (env : Env) (ps : List PeerId) (s : Scheduler) → P s → P (pin_good job env ps s)
  unfolding pin_good
  pin_good-keeps job env [] s v = v
  pin_good-keeps job env (p ∷ ps) s v = pin_good-keeps job env ps _ (neutral s s.stats _ v)

-- For a job with one hash for each chunk and a directory that lists each name once, whatever files an
-- earlier run left: after `init` no chunk is lost, the counter is right, and each chunk taken over has
-- a file with verified contents.
pub initialize-Inv :
    (job : Job) (env : Env) (good : List PeerId) (entries : List Entry) (disk : Map Bytes Bytes)
    → IsJob job
    → IsDistinct entries
    → Inv job (initialize job env good entries (new_scheduler job disk))
unfolding initialize
initialize-Inv job env good entries disk ok distinct =
    let P = Sweeping job entries in
    let neutral = Sweeping-neutral job entries in
    dispatch-Inv job env _ (
      resume-Inv job ok entries distinct _ (
        add_all-keeps P neutral job env env.peer_list _ (
          pin_good-keeps P neutral job env good _
            (seed_good-keeps P neutral good _ (new_scheduler-Sweeping job entries disk)))))
