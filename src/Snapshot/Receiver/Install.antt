-- ===== src/Snapshot/Receiver/Install.antt =====
-- What a receiver installs: all of a snapshot, with the digest that its chunks carry.
use turboraft.Prelude.{
  ℕ, ◌+◌, ◌≤◌, ◌≡◌, refl, sym, ap, ◌∙◌, true, false, ◌||◌, not, List, ◌∷◌, ltb, ◌==◌, if◌then◌else◌,
  length, arith, inl, inr, Bool-cases,
}
use turboraft.Calls.{done, Ends, Ends-then, Ends-if, Ends-mono}
use turboraft.Status.{Error, err, eproto}
use turboraft.Snapshot.{Chunk}
use turboraft.Snapshot.Receiver.{
  History, Sink, Receiver, Work, acked, absorb, finish_transfer, open_transfer, receive, handle,
  chunk_valid, prepare_ack,
}
use turboraft.Snapshot.Receiver.Sound.{IsSound-more, Hashes, Tracks, IsSound, Quits}
use turboraft.Snapshot.Receiver.Open.{Opened, open_transfer-Opened}
use turboraft.Snapshot.Receiver.Absorb.{Going, absorb-Going}
use turboraft.Snapshot.Receiver.HandOver.{Handed, Installs, finish_transfer-Handed}

-- A chunk lies within the snapshot, and the last one ends it.
abbrev Fits : Chunk → Type 0
Fits c =
    (c.snapshot_offset + length c.bytes ≤ c.snapshot_size)
    × (c.is_done ≡ true → c.snapshot_offset + length c.bytes ≡ c.snapshot_size)

chunk_valid-Fits : {S : Type 0} (r : Receiver S) (c : Chunk) → chunk_valid r c ≡ true → Fits c
unfolding chunk_valid
chunk_valid-Fits r c e = (ground (arith, e), (λ d. ground (arith, e, d)))

module _ {S : Type 0} (Absorbed : S → List ℕ → Type 0) (sink : Sink S) (hash : List ℕ → List ℕ)
    (law : Hashes sink.sha Absorbed hash) (seen : List Chunk) where
  abbrev Stops : Error → Work S → Type 0
  Stops = Quits Absorbed seen

  -- What is known where `handle` returns SALTS_OK.
  abbrev pub Answered : Chunk → Work S → Type 0
  Answered c w =
      IsSound Absorbed seen w.receiver w.history
      × (w.installed ≡ true → Handed hash seen c w.history)

  -- A chunk that has been absorbed moves the offset, and where it is the last one ends the transfer.
  onward :
      (c : Chunk) (w : Work S) (n : ℕ)
      → Fits c
      → c.snapshot_offset ≡ n
      → Going Absorbed seen c n (n + length c.bytes) w
      → let next = w.receiver.next_offset + length c.bytes in
        let w' : Work S =
          acked next true (record w { receiver = record (w.receiver) { next_offset = next } }) in
        Ends (Answered c) Stops (if not c.is_done then done w' else finish_transfer sink w')
  unfolding Ends
  onward c w n fits at (t, s, e, i) =
      Ends-if (Answered c) Stops (not c.is_done) _ _
        (λ _. (
          record {
            tracks = λ _ _. (tracked next refl, omega (arith, fits.0, s.same_size, at, e));
            complete = λ q. absurd (ground (arith, t.going_on, q));
            idle = λ q. absurd (ground (arith, s.is_active, q));
          },
          (λ q. absurd (ground (arith, i, q))),
        ))
        (λ d.
          let last : next ≡ c.snapshot_size = omega (arith, fits.1 (ground (arith, d)), at, e) in
          Ends-mono (Installs Absorbed sink hash law seen c) (Answered c) Stops Stops
            (finish_transfer sink after) (λ w p. (p.0, λ _. p.1)) (λ e w q. q)
            (finish_transfer-Handed Absorbed sink hash law seen c after
              (tracked c.snapshot_size last, s, last, i)))
    where
      next : ℕ
      next = w.receiver.next_offset + length c.bytes

      after : Work S
      after = acked next true (record w { receiver = record (w.receiver) { next_offset = next } })

      tracked : (m : ℕ) → next ≡ m → Tracks Absorbed seen after.receiver after.history m
      tracked m q = record {
        going_on = t.going_on;
        opener = t.opener;
        opens = t.opens;
        bytes = t.bytes;
        absorbed = t.absorbed;
        kept = t.kept;
        length_eq = t.length_eq ∙ ap (λ k. k + length c.bytes) (sym e) ∙ q;
      }

  receive-Answered :
      (c : Chunk) (w : Work S)
      → Fits c
      → Opened Absorbed seen c w
      → Ends (Answered c) Stops (receive sink c w)
  unfolding receive Ends
  receive-Answered c w fits (v, s, i) =
      Ends-if (Answered c) Stops
        (w.receiver.completed || ltb c.snapshot_offset w.receiver.next_offset) _ _
        (λ _. (v, (λ q. absurd (ground (arith, i, q)))))
        (λ p.
          Ends-if (Answered c) Stops (not (c.snapshot_offset == w.receiver.next_offset))
            (err eproto, acked w.receiver.next_offset false w) _ (λ _. (v, i))
            (λ q.
              let n = w.receiver.next_offset in
              let (t, _) = v.tracks s.is_active (ground (arith, p)) in
              let at : c.snapshot_offset ≡ n = ground (arith, q) in
              Ends-then (Going Absorbed seen c n (n + length c.bytes)) (Answered c) Stops
                (absorb sink c w) _ (absorb-Going Absorbed seen sink hash law c n w (t, s, refl, i))
                (λ w' g. onward c w' n fits at g)))

-- What a receiver makes of a chunk, whatever the chunk and whatever the callbacks return: the digest's state
-- stays that of the bytes received so far, whose number is the next offset, which are within the snapshot,
-- and which are in the buffer, or were written, each at the offset that those before had come to, to a stream
-- that was begun for the snapshot. A snapshot is reported installed only by a call that returns SALTS_OK,
-- where all of it has been handed over, with the digest that the chunk carries, and as the snapshot of a chunk
-- at offset 0 that was handled: of the same sender, term, index, snapshot term, size and digest as this chunk,
-- and with the configuration that the chunk at offset 0 carries.
pub handle-Answered :
    {S : Type 0} (Absorbed : S → List ℕ → Type 0) (sink : Sink S) (hash : List ℕ → List ℕ)
    (law : Hashes sink.sha Absorbed hash) (seen : List Chunk) (c : Chunk) (r : Receiver S)
    (history : History)
    → IsSound Absorbed seen r history
    → Ends
        (Answered Absorbed sink hash law (c ∷ seen) c)
        (Quits Absorbed (c ∷ seen))
        (handle sink c r history)
unfolding handle Ends
handle-Answered {S = S} Absorbed sink hash law seen c r history v =
    let w : Work S = record {
      receiver = r;
      ack = prepare_ack r c;
      installed = false;
      history = history;
    } in
    let v' = IsSound-more Absorbed c seen r history v in
    elim (Bool-cases (chunk_valid r c)) [
      | inl p ↦ rw p (
          Ends-then (Opened Absorbed (c ∷ seen) c) (Answered Absorbed sink hash law (c ∷ seen) c)
            (Quits Absorbed (c ∷ seen)) (open_transfer sink c w) (receive sink c)
            (open_transfer-Opened Absorbed sink hash law (c ∷ seen) c w (inl refl) v' refl)
            (λ w' o.
              receive-Answered Absorbed sink hash law (c ∷ seen) c w' (chunk_valid-Fits r c p) o))
      | inr p ↦ rw p (v', refl)
    ]
