-- ===== src/Tests/Senders.antt =====
-- A sender of three bytes in chunks of two.
use turboraft.Prelude.{ℕ, ◌≡◌, refl, true, false, some, none, [], ◌∷◌, List, arith, test_bit}
use turboraft.Status.{ok}
use turboraft.Conf.{validate, validate_members, roles_valid, zero_conf}
use turboraft.Snapshot.{Chunk}
use turboraft.Snapshot.Receiver.{chunk_valid, zero_bytes}
use turboraft.Snapshot.Receiver.Create.{created}
use turboraft.Snapshot.Sender.{Sender, Source, create, begin_source, next_chunk}
use turboraft.Snapshot.Sender.Reach.{Sending, first, begun, claimed, Sending-IsValid}
use turboraft.Snapshot.Sender.Moves.{IsValid}
use turboraft.Snapshot.Agree.{next_chunk-chunk_valid}
use turboraft.Tests.Nodes.{three}
use turboraft.Tests.Snapshots.{receiver_config}

abbrev idle_sender : Sender
idle_sender = record {
  self_id = 1;
  peer_id = 2;
  max_snapshot_bytes = 100;
  chunk_size = 2;
  max_inflight_chunks = 2;
  source = none;
  size = 0;
  digest = zero_bytes 32;
  leader_term = 0;
  snapshot_index = 0;
  snapshot_term = 0;
  configuration = zero_conf;
  acknowledged_offset = 0;
  next_offset = 0;
  claims = [];
  active = false;
  complete = false;
}

abbrev memory : Source
memory = record { size = 3; digest = 5 ∷ []; read_at = λ offset capacity. ok (7 ∷ 8 ∷ []) }

abbrev sending : Sender
sending = record idle_sender {
  source = some memory;
  size = 3;
  digest = 5 ∷ [];
  leader_term = 4;
  snapshot_index = 9;
  snapshot_term = 3;
  configuration = three;
  active = true;
}

abbrev one_claimed : Sender
one_claimed = record sending {
  next_offset = 2;
  claims = record { offset = 0; length = 2; slot = 0; bytes = 7 ∷ 8 ∷ [] } ∷ [];
}

abbrev first_chunk : Chunk
first_chunk = record {
  from = 1;
  to = 2;
  term = 4;
  snapshot_index = 9;
  snapshot_term = 3;
  snapshot_offset = 0;
  snapshot_size = 3;
  snapshot_digest = 5 ∷ [];
  has_configuration = true;
  configuration = three;
  bytes = 7 ∷ 8 ∷ [];
  is_done = false;
}

creates : create 1000 true 1 2 100 2 2 ≡ ok idle_sender
unfolding create
creates = refl

begins : begin_source 4 9 3 three memory idle_sender ≡ (ok tt, sending)
unfolding begin_source validate validate_members roles_valid test_bit
begins = refl

claims_first : next_chunk sending ≡ (ok first_chunk, one_claimed)
unfolding next_chunk
claims_first = refl

reached : Sending sending
reached = begun 4 9 3 three memory (ok tt) (first 1000 1 2 100 2 2 creates) begins

Sending-IsValid_example : IsValid one_claimed
Sending-IsValid_example =
    Sending-IsValid one_claimed (claimed (ok first_chunk) reached claims_first)

sending-IsValid : IsValid sending
sending-IsValid = Sending-IsValid sending reached

next_chunk-chunk_valid_example :
    chunk_valid {S = List ℕ} (created receiver_config []) first_chunk ≡ true
unfolding created
next_chunk-chunk_valid_example =
    next_chunk-chunk_valid (created receiver_config []) sending one_claimed first_chunk
      sending-IsValid refl (omega arith) (omega arith) claims_first
