-- ===== src/Snapshot/Receiver/Create.antt =====
-- src/snapshot/raft_snapshot_receiver.c: `tr_raft_snapshot_receiver_create`.
use turboraft.Prelude.{
  ℕ, refl, Bool, false, ◌||◌, ◌&&◌, not, List, [], ltb, ◌==◌, if◌then◌else◌, arith,
}
use turboraft.Status.{Result, ok, err, einval, enomem}
use turboraft.Conf.{zero_conf}
use turboraft.Snapshot.Receiver.{Receiver, History, zero_bytes}
use turboraft.Snapshot.Receiver.Sound.{IsSound}

-- `tr_raft_snapshot_receiver_config_t`: which callbacks are set.
pub record ReceiverConfig : Type 0 where
  pub self_id : ℕ
  pub max_snapshot_bytes : ℕ
  pub max_buffered_snapshot_bytes : ℕ
  pub has_install : Bool
  pub has_begin : Bool
  pub has_write : Bool
  pub has_commit : Bool
  pub has_abort : Bool

unfoldable pub receiver_config_valid : ReceiverConfig → Bool
receiver_config_valid c = not (
    c.self_id == 0
    || c.max_snapshot_bytes == 0
    || (if c.has_install then c.has_begin else not c.has_begin)
    || (c.has_install
        && (c.max_buffered_snapshot_bytes == 0
            || ltb c.max_snapshot_bytes c.max_buffered_snapshot_bytes))
    || (c.has_begin
        && (not (c.max_buffered_snapshot_bytes == 0)
            || not c.has_write
            || not c.has_commit
            || not c.has_abort)))

module _ {S : Type 0} where
  -- `sha256` is what `cmeta_sha256_stream_create` gives.
  unfoldable pub created : ReceiverConfig → S → Receiver S
  created c sha = record {
    self_id = c.self_id;
    max_snapshot_bytes = c.max_snapshot_bytes;
    max_buffered_snapshot_bytes = c.max_buffered_snapshot_bytes;
    leader_id = 0;
    leader_term = 0;
    snapshot_index = 0;
    snapshot_term = 0;
    configuration = zero_conf;
    snapshot_size = 0;
    next_offset = 0;
    digest = zero_bytes 32;
    buffer = [];
    sha256 = sha;
    stream_started = false;
    active = false;
    completed = false;
  }

  unfoldable pub create : ReceiverConfig → Bool → Result S → Result (Receiver S)
  unfolding receiver_config_valid created
  create c calloc_ok sha256 =
      if not (receiver_config_valid c)
      then err einval
      else if not calloc_ok
      then err enomem
      else elim sha256 [ err e ↦ err e | ok sha ↦ ok (created c sha) ]

  pub created-IsSound :
      (Absorbed : S → List ℕ → Type 0) (c : ReceiverConfig) (sha : S) (history : History)
      → IsSound Absorbed [] (created c sha) history
  unfolding created
  created-IsSound Absorbed c sha history = record {
    tracks = λ a q. absurd (ground (arith, a));
    complete = λ q. absurd (ground (arith, q));
    idle = λ a. (refl, refl);
  }
