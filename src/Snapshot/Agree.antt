-- ===== src/Snapshot/Agree.antt =====
-- A sender's chunks at a receiver.
use turboraft.Prelude.{
  ◌+◌, ◌-◌, ◌≤◌, ◌<◌, ◌≡◌, ◌≢◌, subst, true, ◌==◌, length, min, arith, Bool-cases, Option-cases,
  inl, inr,
}
use turboraft.Status.{ok, Result-cases}
use turboraft.Snapshot.{Chunk, max_chunk_bytes}
use turboraft.Snapshot.Receiver.{Receiver, chunk_valid}
use turboraft.Snapshot.Sender.{
  Claim, Sender, next_chunk, claim_next, read_chunk, fill_chunk, find_free_slot,
}
use turboraft.Snapshot.Sender.Moves.{IsOffer, IsValid, read_chunk_lem}

module _ {S : Type 0} (r : Receiver S) where
  fill_chunk_valid :
      (s : Sender) (claim : Claim)
      → s.self_id ≢ 0
      → IsOffer s
      → r.self_id ≡ s.peer_id
      → s.size ≤ r.max_snapshot_bytes
      → length claim.bytes ≡ claim.length
      → claim.length ≤ max_chunk_bytes
      → claim.offset + claim.length ≤ s.size
      → (claim.length ≡ 0 → claim.offset ≡ s.size)
      → chunk_valid r (fill_chunk s claim) ≡ true
  unfolding chunk_valid fill_chunk
  fill_chunk_valid s claim self offer to max l le fits empty =
      let term = offer.term_set in
      let index = offer.index_set in
      let snapshot_term = offer.snapshot_term_set in
      let older = offer.snapshot_term_le in
      elim (Bool-cases (claim.offset == 0)) [
        | inl z ↦ rw (z, offer.configuration_valid) (ground (arith, z))
        | inr z ↦ rw z (ground (arith, z))
      ]

  -- Every chunk that a valid sender reads passes the checks of a receiver that is its peer and takes
  -- snapshots of that size.
  pub next_chunk-chunk_valid :
      (s s' : Sender) (c : Chunk)
      → IsValid s
      → r.self_id ≡ s.peer_id
      → s.size ≤ r.max_snapshot_bytes
      → length s.claims < s.max_inflight_chunks
      → next_chunk s ≡ (ok c, s')
      → chunk_valid r c ≡ true
  unfolding next_chunk claim_next
  next_chunk-chunk_valid s s' c v to max room e =
      let offer = v.offer (ground (arith, e, room)) in
      let size = min (s.size - s.next_offset) s.chunk_size in
      elim (Option-cases (find_free_slot s)) [
        | inl miss ↦ absurd (ground (arith, e, room, miss))
        | inr found ↦
            let (slot, at) = found in
            elim (Result-cases (read_chunk s size)) [
              | inl bad ↦ absurd (ground (arith, e, room, at, bad.1))
              | inr fine ↦
                  let (bytes, p) = fine in
                  let claim : Claim = record {
                    offset = s.next_offset;
                    length = size;
                    slot = slot;
                    bytes = bytes;
                  } in
                  let filled : fill_chunk s claim ≡ c = ground (arith, e, room, at, p) in
                  subst (λ t. chunk_valid r t ≡ true) filled
                    (fill_chunk_valid s claim v.self_set offer to max
                      (read_chunk_lem s size bytes p) (omega (arith, v.chunk_le))
                      (omega (arith, v.next_le)) (λ z. omega (arith, v.next_le, v.chunk_pos, z)))
            ]
      ]
