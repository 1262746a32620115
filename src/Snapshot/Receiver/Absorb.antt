-- ===== src/Snapshot/Receiver/Absorb.antt =====
-- The bytes of a chunk, in `tr_raft_snapshot_receiver_handle` of src/snapshot/raft_snapshot_receiver.c.
use turboraft.Prelude.{
  ℕ, ◌+◌, ◌≡◌, refl, sym, ap, subst, ◌∙◌, true, false, List, ◌∷◌, ◌++◌, ◌==◌, if◌then◌else◌, length,
  arith, length-append,
}
use turboraft.Calls.{◌▸◌, done, on_error, Ends, Ends-if}
use turboraft.Status.{Result, ok, err, eproto}
use turboraft.Snapshot.{Chunk}
use turboraft.Snapshot.Receiver.{write, Sink, Work, clear_transfer, call, absorb}
use turboraft.Snapshot.Receiver.Sound.{
  StagedAs, KeptIn, Hashes, Tracks, Same, Quits, clear_transfer-Quits,
}

module _ {S : Type 0} (Absorbed : S → List ℕ → Type 0) (seen : List Chunk) where
  -- A chunk that is going into the transfer, which has come to an offset.
  abbrev pub Going : Chunk → ℕ → ℕ → Work S → Type 0
  Going c next offset w =
      Tracks Absorbed seen w.receiver w.history offset
      × Same c w.receiver
      × (w.receiver.next_offset ≡ next)
      × (w.installed ≡ false)

  module _ (sink : Sink S) (hash : List ℕ → List ℕ) (law : Hashes sink.sha Absorbed hash) where
    pub absorb-Going :
        (c : Chunk) (n : ℕ) (w : Work S)
        → Going c n n w
        → Ends (Going c n (n + length c.bytes)) (Quits Absorbed seen) (absorb sink c w)
    unfolding absorb Ends call StagedAs
    absorb-Going c n w (t, s, e, i) =
        Ends-if (Going c n (n + length c.bytes)) (Quits Absorbed seen) (length c.bytes == 0) _ _
          (λ z. (subst (Tracks Absorbed seen w.receiver w.history) (ground (arith, z)) t, s, e, i))
          (λ _. updated (sink.sha.update c.bytes w.receiver.sha256).0 refl)
      where
        after : Work S
        after = record w {
          receiver = record (w.receiver) { sha256 = (sink.sha.update c.bytes w.receiver.sha256).1 };
        }

        next : Work S → Result (Unit {0}) × Work S
        next w =
            if w.receiver.stream_started
            then on_error (λ e w. (err e, clear_transfer w))
                (call sink (write w.receiver.next_offset c.bytes) w)
            else done (record w {
              receiver = record (w.receiver) { buffer = w.receiver.buffer ++ c.bytes };
            })

        in_stream : w.receiver.stream_started ≡ true → StagedAs t.opener t.bytes w.history
        in_stream st = subst (λ b. KeptIn b t.opener t.bytes w.receiver.buffer w.history) st t.kept

        in_buffer : w.receiver.stream_started ≡ false → w.receiver.buffer ≡ t.bytes
        in_buffer st = subst (λ b. KeptIn b t.opener t.bytes w.receiver.buffer w.history) st t.kept

        longer : length (t.bytes ++ c.bytes) ≡ n + length c.bytes
        longer = length-append t.bytes c.bytes ∙ ap (λ k. k + length c.bytes) t.length_eq

        hashed :
            (sink.sha.update c.bytes w.receiver.sha256).0 ≡ ok tt
            → Absorbed (sink.sha.update c.bytes w.receiver.sha256).1 (t.bytes ++ c.bytes)
        hashed u = law.update_more w.receiver.sha256 t.bytes c.bytes t.absorbed u

        written :
            (r : Result (Unit {0}))
            → (sink.sha.update c.bytes w.receiver.sha256).0 ≡ ok tt
            → w.receiver.stream_started ≡ true
            → Ends (Going c n (n + length c.bytes)) (Quits Absorbed seen) (
                on_error
                  (λ e w. (err e, clear_transfer w))
                  (
                    r,
                    record after {
                      history = (write w.receiver.next_offset c.bytes, r) ∷ w.history;
                    },
                  ))
        written (ok _) u st = (
          record {
            going_on = t.going_on;
            opener = t.opener;
            opens = t.opens;
            bytes = t.bytes ++ c.bytes;
            absorbed = hashed u;
            kept = rw st (t.bytes, refl, e ∙ sym t.length_eq, in_stream st);
            length_eq = longer;
          },
          s,
          e,
          i,
        )
        written (err x) u st =
            clear_transfer-Quits Absorbed seen x
              (record after { history = (write w.receiver.next_offset c.bytes, err x) ∷ w.history })
              i

        updated :
            (r : Result (Unit {0}))
            → (sink.sha.update c.bytes w.receiver.sha256).0 ≡ r
            → Ends
                (Going c n (n + length c.bytes))
                (Quits Absorbed seen)
                (on_error (λ e w. (err eproto, clear_transfer w)) (r, after) ▸ next)
        updated (ok _) u =
            Ends-if (Going c n (n + length c.bytes)) (Quits Absorbed seen) w.receiver.stream_started
              _ _
              (λ st. written (sink.answer w.history (write w.receiver.next_offset c.bytes)) u st)
              (λ st. (
                record {
                  going_on = t.going_on;
                  opener = t.opener;
                  opens = t.opens;
                  bytes = t.bytes ++ c.bytes;
                  absorbed = hashed u;
                  kept = rw st (ap (λ b. b ++ c.bytes) (in_buffer st));
                  length_eq = longer;
                },
                s,
                e,
                i,
              ))
        updated (err x) u = clear_transfer-Quits Absorbed seen eproto after i
