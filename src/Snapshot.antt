-- ===== src/Snapshot.antt =====
-- The chunk of a snapshot and its acknowledgement, of include/turboraft/raft_wire_codec.h.
pub mod Receiver
pub mod Sender
pub mod Agree
use turboraft.Prelude.{ℕ, Bool, List, ◌*◌}
use turboraft.Conf.{Conf}

-- `tr_raft_snapshot_chunk_t`; `bytes` is `data`, of which `data_length` is the length.
pub record Chunk : Type 0 where
  pub from : ℕ
  pub to : ℕ
  pub term : ℕ
  pub snapshot_index : ℕ
  pub snapshot_term : ℕ
  pub snapshot_offset : ℕ
  pub snapshot_size : ℕ
  pub snapshot_digest : List ℕ
  pub has_configuration : Bool
  pub configuration : Conf
  pub bytes : List ℕ
  pub is_done : Bool

-- `tr_raft_snapshot_ack_t`
pub record Ack : Type 0 where
  pub from : ℕ
  pub to : ℕ
  pub term : ℕ
  pub snapshot_index : ℕ
  pub snapshot_size : ℕ
  pub next_offset : ℕ
  pub snapshot_digest : List ℕ
  pub accepted : Bool

abbrev pub max_chunk_bytes : ℕ
max_chunk_bytes = 65536
