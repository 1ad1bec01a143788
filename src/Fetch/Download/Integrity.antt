-- ===== src/Fetch/Download/Integrity.antt =====
-- Every complete chunk has a file in the snapshot directory with the contents that its hash names.
use malcom.Prelude.{
  ℕ, ◌^◌, ◌<◌, ◌≡◌, ◌≢◌, sym, ap, ◌∙◌, Bool, true, false, List, some, Bytes, arith, get_or, set,
  get_elem?, get_or-set_ne,
}
use malcom.Prelude.Map
use malcom.Prelude.Map.{Map, bytes_key}
use native.Mathlib.Decide.{ℕ_discrete}
use malcom.Fetch.Download.{Job}
use malcom.Fetch.Download.FileName.{chunk_name, file_index, file_index-chunk_name}

-- A file whose name stands for chunk i, with contents that have the expected hash.
pub record HasFile (job : Job) (disk : Map Bytes Bytes) (i : ℕ) : Type 0 where
  pub name : Bytes
  pub content : Bytes
  pub names_chunk : file_index name ≡ some i
  pub on_disk : Map.get name disk ≡ some content
  pub verified : get_elem? job.chunk_hashes i ≡ some (job.sha256 content)

abbrev pub IsStored : Job → List Bool → Map Bytes Bytes → Type 0
IsStored job completed disk =
    (i : ℕ) → i < job.chunks → get_or completed i false ≡ true → HasFile job disk i

-- Writing chunk i keeps the files of the others and adds one for i.
pub IsStored-write :
    (job : Job) (completed : List Bool) (disk : Map Bytes Bytes) (i : ℕ) (input : Bytes)
    → job.chunks < 2 ^ 32
    → i < job.chunks
    → get_elem? job.chunk_hashes i ≡ some (job.sha256 input)
    → IsStored job completed disk
    → IsStored job (set completed i true) (Map.put (chunk_name i) input disk)
IsStored-write job completed disk i input small lt good stored j lt' full = elim (ℕ_discrete i j) [
  | yes same ↦ record {
    name = chunk_name i;
    content = input;
    names_chunk = file_index-chunk_name i (omega arith) ∙ ap some same;
    on_disk = Map.get-put_self (chunk_name i) input disk;
    verified = rw (← same) good;
  }
  | no other ↦
      let old = stored j lt' (sym (get_or-set_ne completed i j true false other) ∙ full) in
      let differs : chunk_name i ≢ old.name = λ e. other (
        some_eq
          (sym (file_index-chunk_name i (omega arith)) ∙ ap file_index e ∙ old.names_chunk)) in
      record {
        name = old.name;
        content = old.content;
        names_chunk = old.names_chunk;
        on_disk = Map.get-put_ne old.name (chunk_name i) input disk differs ∙ old.on_disk;
        verified = old.verified;
      }
]
  where
    some_eq : {a b : ℕ} → some a ≡ some b → a ≡ b
    some_eq e = cc
