-- ===== src/Snapshot/Receiver/Open.antt =====
-- `tr_raft_snapshot_receiver_handle` in src/snapshot/raft_snapshot_receiver.c, up to the transfer that a chunk
-- belongs to.
use turboraft.Prelude.{
  ℕ, ◌≡◌, refl, sym, true, false, ◌||◌, ◌&&◌, not, List, [], ◌∷◌, ltb, leb, ◌==◌, arith,
}
use turboraft.Calls.{◌▸◌, done, on_error, Ends, Ends-then, Ends-if}
use turboraft.Status.{Result, ok, err, eproto, efbig, enomem}
use turboraft.Snapshot.{Chunk}
use turboraft.Snapshot.Receiver.{
  Effect, begin, Sink, Work, clear_transfer, call, adopted, reset_digest, begin_stream, start,
  open_transfer, identity_matches, acked,
}
use turboraft.Snapshot.Receiver.Sound.{
  StagedAs, Among, KeptIn, Same, Opens, Hashes, IsSound, Quits, clear_transfer-Quits,
  bytes_equal_lem,
}

module _ {S : Type 0} (Absorbed : S → List ℕ → Type 0) where
  -- A transfer that the chunk belongs to.
  abbrev pub Opened : List Chunk → Chunk → Work S → Type 0
  Opened seen c w =
      IsSound Absorbed seen w.receiver w.history × Same c w.receiver × (w.installed ≡ false)

  just-Opened :
      (seen : List Chunk) (c : Chunk) (w : Work S)
      → Opens c seen w.receiver
      → w.installed ≡ false
      → w.receiver.completed ≡ false
      → Absorbed w.receiver.sha256 []
      → KeptIn w.receiver.stream_started c [] w.receiver.buffer w.history
      → w.receiver.next_offset ≡ 0
      → Opened seen c w
  just-Opened seen c w o i n a k z = (
    record {
      tracks = λ _ _. (
        record {
          going_on = n;
          opener = c;
          opens = o;
          bytes = [];
          absorbed = a;
          kept = k;
          length_eq = sym z;
        },
        omega (arith, z),
      );
      complete = λ q. absurd (ground (arith, n, q));
      idle = λ q. absurd (ground (arith, o.2.is_active, q));
    },
    o.2,
    i,
  )

  module _ (sink : Sink S) (hash : List ℕ → List ℕ) (law : Hashes sink.sha Absorbed hash)
      (seen : List Chunk) where
    abbrev Ready : Chunk → Work S → Type 0
    Ready c w =
        Opens c seen w.receiver
        × (w.installed ≡ false)
        × (w.receiver.completed ≡ false)
        × Absorbed w.receiver.sha256 []
        × (w.receiver.stream_started ≡ false)
        × (w.receiver.buffer ≡ [])
        × (w.receiver.next_offset ≡ 0)

    reset_digest-Ready :
        (c : Chunk) (w : Work S)
        → Opens c seen w.receiver
        → w.installed ≡ false
        → w.receiver.completed ≡ false
        → w.receiver.stream_started ≡ false
        → w.receiver.buffer ≡ []
        → w.receiver.next_offset ≡ 0
        → Ends (Ready c) (Quits Absorbed seen) (reset_digest sink w)
    unfolding reset_digest Ends
    reset_digest-Ready c w o i n st b z = go (sink.sha.reset w.receiver.sha256).0 refl
      where
        after : Work S
        after = record w {
          receiver = record (w.receiver) { sha256 = (sink.sha.reset w.receiver.sha256).1 };
        }

        go :
            (r : Result (Unit {0}))
            → (sink.sha.reset w.receiver.sha256).0 ≡ r
            → Ends
                (Ready c)
                (Quits Absorbed seen)
                (on_error (λ e w. (err eproto, clear_transfer w)) (r, after))
        go (ok _) e = (o, i, n, law.reset_empty w.receiver.sha256 e, st, b, z)
        go (err x) e = clear_transfer-Quits Absorbed seen eproto after i

    begin_stream-Opened :
        (c : Chunk) (w : Work S)
        → Ready c w
        → Ends (Opened seen c) (Quits Absorbed seen) (begin_stream sink w)
    unfolding begin_stream call Ends StagedAs
    begin_stream-Opened c w (o, i, n, a, st, b, z) =
        Ends-if (Opened seen c) (Quits Absorbed seen) (not sink.streams) _ _
          (λ _. just-Opened seen c w o i n a (rw st b) z) (λ _. go (sink.answer w.history asked))
      where
        asked : Effect
        asked =
            begin w.receiver.leader_term w.receiver.snapshot_index w.receiver.snapshot_term
              w.receiver.configuration w.receiver.snapshot_size

        go :
            (r : Result (Unit {0}))
            → Ends (Opened seen c) (Quits Absorbed seen) (
                on_error
                  (λ e w. (err e, clear_transfer w))
                  (r, record w { history = (asked, r) ∷ w.history })
                ▸ λ w. done (record w { receiver = record (w.receiver) { stream_started = true } }))
        go (ok _) =
            let w' : Work S = record w {
              receiver = record (w.receiver) { stream_started = true };
              history = (asked, ok tt) ∷ w.history;
            } in
            let s = o.2 in
            just-Opened seen c w' o i n a
              (refl, s.same_term, s.same_index, s.same_snapshot_term, o.3, s.same_size) z
        go (err e) =
            clear_transfer-Quits Absorbed seen e (record w { history = (asked, err e) ∷ w.history })
              i

    start-Opened :
        (c : Chunk) (w : Work S)
        → Among c seen
        → c.snapshot_offset ≡ 0
        → IsSound Absorbed seen w.receiver w.history
        → w.installed ≡ false
        → Ends (Opened seen c) (Quits Absorbed seen) (start sink c w)
    unfolding start Ends
    start-Opened c w here first v i =
        Ends-if (Opened seen c) (Quits Absorbed seen)
          (not sink.streams
            && not (c.snapshot_size == 0)
            && (ltb w.receiver.max_buffered_snapshot_bytes c.snapshot_size
                || ltb sink.size_max c.snapshot_size))
          (err efbig, w) _ (λ _. (v, i))
          (λ _.
            Ends-if (Opened seen c) (Quits Absorbed seen)
              (not sink.streams
                && not (c.snapshot_size == 0)
                && not (sink.malloc_ok c.snapshot_size))
              (err enomem, w) _ (λ _. (v, i)) (λ _. opened))
      where
        fresh : Work S
        fresh =
            let cleared = clear_transfer w in
            record cleared { receiver = adopted sink c cleared.receiver }

        same : Same c fresh.receiver
        same = record {
          is_active = refl;
          sender = refl;
          same_term = refl;
          same_index = refl;
          same_snapshot_term = refl;
          same_size = refl;
          same_digest = refl;
        }

        opened :
            Ends (Opened seen c) (Quits Absorbed seen) (reset_digest sink fresh ▸ begin_stream sink)
        opened =
            Ends-then (Ready c) (Opened seen c) (Quits Absorbed seen) (reset_digest sink fresh)
              (begin_stream sink)
              (reset_digest-Ready c fresh (here, first, same, refl) i refl refl refl refl)
              (begin_stream-Opened c)

    identity_matches-Same :
        (c : Chunk) (w : Work S)
        → w.receiver.active ≡ true
        → identity_matches w.receiver c ≡ true
        → Same c w.receiver
    unfolding identity_matches
    identity_matches-Same c w a e = record {
      is_active = a;
      sender = ground (arith, e);
      same_term = ground (arith, e);
      same_index = ground (arith, e);
      same_snapshot_term = ground (arith, e);
      same_size = ground (arith, e);
      same_digest = bytes_equal_lem w.receiver.digest c.snapshot_digest (ground (arith, e));
    }

    pub open_transfer-Opened :
        (c : Chunk) (w : Work S)
        → Among c seen
        → IsSound Absorbed seen w.receiver w.history
        → w.installed ≡ false
        → Ends (Opened seen c) (Quits Absorbed seen) (open_transfer sink c w)
    unfolding open_transfer Ends
    open_transfer-Opened c w here v i =
        Ends-if (Opened seen c) (Quits Absorbed seen) (not w.receiver.active) _ _
          (λ _.
            Ends-if (Opened seen c) (Quits Absorbed seen) (not (c.snapshot_offset == 0))
              (err eproto, w) _ (λ _. (v, i)) (λ z. start-Opened c w here (ground (arith, z)) v i))
          (λ a.
            Ends-if (Opened seen c) (Quits Absorbed seen) (identity_matches w.receiver c) _ _
              (λ m. (v, identity_matches-Same c w (ground (arith, a)) m, i))
              (λ _.
                Ends-if (Opened seen c) (Quits Absorbed seen)
                  (not (c.snapshot_offset == 0)
                    || leb c.snapshot_index w.receiver.snapshot_index
                    || ltb c.term w.receiver.leader_term)
                  (err eproto, acked w.receiver.next_offset false w) _ (λ _. (v, i))
                  (λ z. start-Opened c w here (ground (arith, z)) v i)))
