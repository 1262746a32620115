-- ===== src/Snapshot/Sender/Reach.antt =====
-- The states that a sender comes to, and what holds in all of them.
use turboraft.Prelude.{ℕ, ◌≡◌, true}
use turboraft.Status.{Result, ok}
use turboraft.Conf.{Conf}
use turboraft.Snapshot.{Chunk, Ack}
use turboraft.Snapshot.Sender.{
  Source, Sender, create, clear_transfer, begin_source, next_chunk, cancel_chunk, prepare_resume,
  acknowledge,
}
use turboraft.Snapshot.Sender.Moves.{
  clear_transfer-IsValid, create-IsValid, begin_source-IsValid, next_chunk-IsValid,
  cancel_chunk-IsValid, prepare_resume-IsValid, acknowledge-IsValid, IsValid,
}

-- The operations that change a sender.
pub data Sending : Sender → Type 0 where
  first :
      {s : Sender} (size_max self_id peer_id max_snapshot_bytes chunk_size inflight : ℕ)
      → create size_max true self_id peer_id max_snapshot_bytes chunk_size inflight ≡ ok s
      → Sending s
  cleared : {s : Sender} → Sending s → Sending (clear_transfer s)
  begun :
      {s s' : Sender} (leader_term snapshot_index snapshot_term : ℕ) (configuration : Conf)
      (source : Source) (r : Result (Unit {0}))
      → Sending s
      → begin_source leader_term snapshot_index snapshot_term configuration source s ≡ (r, s')
      → Sending s'
  claimed : {s s' : Sender} (r : Result Chunk) → Sending s → next_chunk s ≡ (r, s') → Sending s'
  cancelled :
      {s s' : Sender} (offset : ℕ) (r : Result (Unit {0}))
      → Sending s
      → cancel_chunk offset s ≡ (r, s')
      → Sending s'
  resumed :
      {s s' : Sender} (r : Result (Unit {0})) → Sending s → prepare_resume s ≡ (r, s') → Sending s'
  acknowledged :
      {s s' : Sender} (a : Ack) (r : Result (Unit {0}))
      → Sending s
      → acknowledge a s ≡ (r, s')
      → Sending s'

-- In every state that a sender comes to from its creation, by any sequence of its operations with any
-- arguments, results of the source and acknowledgements, its claims follow each other from the acknowledged
-- offset to the next one, which is within the snapshot, are at most as many as its slots, each hold as many
-- bytes as they say in a slot of their own, and its transfer has a valid configuration and set terms.
pub Sending-IsValid : (s : Sender) → Sending s → IsValid s
Sending-IsValid s (first size_max self_id peer_id max_snapshot_bytes chunk_size inflight e) =
    create-IsValid s size_max self_id peer_id max_snapshot_bytes chunk_size inflight e
Sending-IsValid _ (cleared {s = p} h) = clear_transfer-IsValid p (Sending-IsValid p h)
Sending-IsValid s
      (begun {s = p} leader_term snapshot_index snapshot_term configuration source r h e) =
    begin_source-IsValid p s leader_term snapshot_index snapshot_term configuration source r
      (Sending-IsValid p h) e
Sending-IsValid s (claimed {s = p} r h e) = next_chunk-IsValid p s r (Sending-IsValid p h) e
Sending-IsValid s (cancelled {s = p} offset r h e) =
    cancel_chunk-IsValid p s offset r (Sending-IsValid p h) e
Sending-IsValid s (resumed {s = p} r h e) = prepare_resume-IsValid p s r (Sending-IsValid p h) e
Sending-IsValid s (acknowledged {s = p} a r h e) =
    acknowledge-IsValid p s a r (Sending-IsValid p h) e
