-- ===== src/StateSync/Wire.antt =====
-- internal/statesync/reactor.go: the messages of the two channels, the events that the reactor
-- publishes, and the provider that answers requests in serve mode.
use malcom.Prelude.{ℕ, Bool, true, false, List, Option, none, some, String, Bytes, length}

pub record Snapshot : Type 0 where
  pub height : ℕ
  pub format : ℕ
  pub chunks : ℕ
  pub hash : Bytes
  pub metadata : Bytes

pub record ChunkInfo : Type 0 where
  pub height : ℕ
  pub format : ℕ
  pub index : ℕ
  pub size : ℕ
  pub bytes : Bytes
  pub missing : Bool

pub record Event : Type 0 where
  pub peer_id : String
  pub snapshot : Option Snapshot
  pub chunk : Option ChunkInfo
  pub connected : Bool
  pub removed : Bool

-- A chunk request and a chunk response start with the height, the format and the index.
pub data Message : Type 0 where
  snapshots_request : Message
  snapshots_response : Snapshot → Message
  chunk_request : ℕ → ℕ → ℕ → Message
  chunk_response : ℕ → ℕ → ℕ → Bytes → Bool → Message
  other : Message

-- What `LoadChunk` returns: bytes with the flag `found`, or an error.
pub data Loaded : Type 0 where
  got : Bytes → Bool → Loaded
  unreadable : Loaded

pub record Provider : Type 0 where
  pub list_snapshots : List Snapshot
  pub load_chunk : ℕ → ℕ → ℕ → Loaded

abbrev pub snapshot_event : String → Snapshot → Event
snapshot_event id s = record {
  peer_id = id;
  snapshot = some s;
  chunk = none;
  connected = false;
  removed = false;
}

abbrev pub chunk_event : String → ℕ → ℕ → ℕ → Bytes → Bool → Event
chunk_event id h f i bytes missing = record {
  peer_id = id;
  snapshot = none;
  chunk = some record {
    height = h;
    format = f;
    index = i;
    size = length bytes;
    bytes = bytes;
    missing = missing;
  };
  connected = false;
  removed = false;
}

abbrev pub connected_event : String → Event
connected_event id = record {
  peer_id = id;
  snapshot = none;
  chunk = none;
  connected = true;
  removed = false;
}

abbrev pub removed_event : String → Event
removed_event id = record {
  peer_id = id;
  snapshot = none;
  chunk = none;
  connected = false;
  removed = true;
}
