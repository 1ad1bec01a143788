-- ===== src/Serve/Answers.antt =====
-- The store behind the reactor: what peers are sent.
use malcom.Prelude.{ℕ, ◌≡◌, Bool, List, [], ◌∷◌, some, String, Bytes, ret}
use malcom.StateSync.Reactor.Limits.{Platform}
use malcom.StateSync.Reactor.{
  Call, run, start, set_provider, set_probe, limit_rate, begin_shutdown, add_peer, remove_peer,
  request_chunk, receive, take_out, take_chunk,
}
use malcom.StateSync.Reactor.Answers.{AllGenuine, InstallsSound, run-answers}
use malcom.Serve.Store.{LoadedSnapshot, Disk, per_chunk_hash, load_store_from_root, as_provider}
use malcom.Serve.Store.Verified.{IsOffered, load_store_from_root-AllVerified, load_chunk-IsOffered}

-- Calls that leave the provider alone.
abbrev KeepsProvider : {Rate : Type 0} → List (Call Rate) → Type 0
KeepsProvider [] = Unit
KeepsProvider (set_provider o ∷ cs) = ⊥
KeepsProvider (_ ∷ cs) = KeepsProvider cs

InstallsSound-KeepsProvider :
    {Rate : Type 0} (Good : ℕ → ℕ → ℕ → Bytes → Type 0) (cs : List (Call Rate))
    → KeepsProvider cs
    → InstallsSound Good cs
InstallsSound-KeepsProvider Good [] k = tt
InstallsSound-KeepsProvider Good (set_provider o ∷ cs) k = elim k [ ]
InstallsSound-KeepsProvider Good (set_probe b ∷ cs) k = InstallsSound-KeepsProvider Good cs k
InstallsSound-KeepsProvider Good (limit_rate c ∷ cs) k = InstallsSound-KeepsProvider Good cs k
InstallsSound-KeepsProvider Good (begin_shutdown ∷ cs) k = InstallsSound-KeepsProvider Good cs k
InstallsSound-KeepsProvider Good (add_peer id ok ∷ cs) k = InstallsSound-KeepsProvider Good cs k
InstallsSound-KeepsProvider Good (remove_peer now id ∷ cs) k = InstallsSound-KeepsProvider Good cs k
InstallsSound-KeepsProvider Good (request_chunk id h f i ok ∷ cs) k =
    InstallsSound-KeepsProvider Good cs k
InstallsSound-KeepsProvider Good (receive now id m accepts ∷ cs) k =
    InstallsSound-KeepsProvider Good cs k
InstallsSound-KeepsProvider Good (take_out ∷ cs) k = InstallsSound-KeepsProvider Good cs k
InstallsSound-KeepsProvider Good (take_chunk ∷ cs) k = InstallsSound-KeepsProvider Good cs k

-- A store that a scan loaded with the hash of every chunk, installed in a fresh reactor over a disk that
-- stays as it was: over any run of messages and other calls, every chunk answer that is sent with a
-- payload holds, for the height, the format and the index it names, bytes whose SHA-256 stands at that
-- index in the metadata that the store offers for that height and format.
pub run-IsOffered :
    {Rate Bucket : Type 0} (lib : Platform Rate Bucket) (sha256 : Bytes → Bytes) (chain : String)
    (disk : Disk) (dirs : List (String × Bool)) (ss : List LoadedSnapshot) (cs : List (Call Rate))
    → load_store_from_root sha256 per_chunk_hash chain disk dirs ≡ ret ss
    → KeepsProvider cs
    → AllGenuine
        (IsOffered sha256 ss)
        (run lib (set_provider (some (as_provider disk ss)) ∷ cs) (start lib)).reactor.sent
unfolding as_provider
run-IsOffered lib sha256 chain disk dirs ss cs loaded k =
    (run-answers lib (IsOffered sha256 ss) (λ id h f i. 1)
      (set_provider (some (as_provider disk ss)) ∷ cs)
      (
        (λ h f i bytes e.
            load_chunk-IsOffered sha256 disk ss h f i bytes
              (load_store_from_root-AllVerified sha256 chain disk dirs ss loaded) e),
        InstallsSound-KeepsProvider (IsOffered sha256 ss) cs k,
      )).0
