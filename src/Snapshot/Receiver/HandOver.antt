-- ===== src/Snapshot/Receiver/HandOver.antt =====
-- The end of a transfer, in `tr_raft_snapshot_receiver_handle` of src/snapshot/raft_snapshot_receiver.c.
use turboraft.Prelude.{
  ℕ, ◌≡◌, refl, sym, subst, ◌∙◌, Bool, true, false, List, ◌∷◌, if◌then◌else◌, length, arith, inl,
  inr, Bool-cases,
}
use turboraft.Calls.{◌▸◌, on_error, Ends, Ends-then, Ends-if, Ends-elim}
use turboraft.Status.{Error, Result, ok, err, eproto}
use turboraft.Snapshot.{Chunk}
use turboraft.Snapshot.Receiver.{
  Effect, commit, install, History, Sink, Receiver, Work, clear_transfer, call, acked, check_digest,
  hand_over, finish_transfer,
}
use turboraft.Snapshot.Receiver.Sound.{
  StagedAs, Among, KeptIn, IsOf, Opens, Hashes, IsSound, Same, Quits, clear_transfer-Quits,
  bytes_equal_lem,
}
use turboraft.Snapshot.Receiver.Absorb.{Going}
use turboraft.Log.Reconcile.{bytes_equal}

-- The call just made hands over the bytes as the snapshot of a chunk, with its configuration.
unfoldable pub Handing : Chunk → List ℕ → History → Type 0
Handing o bytes ((commit, ok _) ∷ history) = StagedAs o bytes history
Handing o bytes ((install term index snapshot_term configuration bs, ok _) ∷ history) =
    (bs ≡ bytes)
    × (term ≡ o.term)
    × (index ≡ o.snapshot_index)
    × (snapshot_term ≡ o.snapshot_term)
    × (configuration ≡ o.configuration)
Handing o bytes _ = ⊥

-- All of the chunk's snapshot is handed over, with the digest that the chunk carries, as that of a chunk
-- at offset 0 of the same snapshot, which was handled.
pub record Handed (hash : List ℕ → List ℕ) (seen : List Chunk) (c : Chunk) (history : History)
    : Type 0 where
  pub opener : Chunk
  pub among : Among opener seen
  pub first : opener.snapshot_offset ≡ 0
  pub alike :
      IsOf c true opener.from opener.term opener.snapshot_index opener.snapshot_term
        opener.snapshot_size opener.snapshot_digest
  pub bytes : List ℕ
  pub whole : length bytes ≡ c.snapshot_size
  pub genuine : c.snapshot_digest ≡ hash bytes
  pub handing : Handing opener bytes history

module _ {S : Type 0} (Absorbed : S → List ℕ → Type 0) (sink : Sink S) (hash : List ℕ → List ℕ)
    (law : Hashes sink.sha Absorbed hash) (seen : List Chunk) where
  abbrev Stops : Error → Work S → Type 0
  Stops = Quits Absorbed seen

  -- All has been received, and has the digest.
  record Whole (c : Chunk) (r : Receiver S) (history : History) : Type 0 where
    pub opener : Chunk
    pub opens : Opens opener seen r
    pub bytes : List ℕ
    pub kept : KeptIn r.stream_started opener bytes r.buffer history
    pub whole : length bytes ≡ c.snapshot_size
    pub genuine : c.snapshot_digest ≡ hash bytes

  abbrev Checked : Chunk → Work S → Type 0
  Checked c w =
      Whole c w.receiver w.history
      × Same c w.receiver
      × (w.receiver.next_offset ≡ c.snapshot_size)
      × (w.installed ≡ false)

  check_digest-Checked :
      (c : Chunk) (w : Work S)
      → Going Absorbed seen c c.snapshot_size c.snapshot_size w
      → Ends (Checked c) Stops (check_digest sink w)
  unfolding check_digest Ends
  check_digest-Checked c w (t, s, e, i) =
      Ends-elim (Checked c) Stops (sink.sha.finish w.receiver.sha256).0 _ _
        (λ x _. clear_transfer-Quits Absorbed seen eproto (acked 0 false after) i)
        (λ d f.
          Ends-if (Checked c) Stops (bytes_equal d w.receiver.digest) _ _
            (λ q. (
              record {
                opener = t.opener;
                opens = t.opens;
                bytes = t.bytes;
                kept = t.kept;
                whole = t.length_eq;
                genuine =
                    sym s.same_digest
                    ∙ sym (bytes_equal_lem d w.receiver.digest q)
                    ∙ law.finish_hash w.receiver.sha256 t.bytes d t.absorbed f;
              },
              s,
              e,
              i,
            ))
            (λ _. clear_transfer-Quits Absorbed seen eproto (acked 0 false after) i))
    where
      after : Work S
      after = record w {
        receiver = record (w.receiver) { sha256 = (sink.sha.finish w.receiver.sha256).1 };
      }

  -- The opening chunk and the one at hand are of one snapshot.
  opener_alike :
      (c o : Chunk) (r : Receiver S)
      → Same c r
      → Same o r
      → IsOf c true o.from o.term o.snapshot_index o.snapshot_term o.snapshot_size o.snapshot_digest
  opener_alike c o r s t = record {
    is_active = refl;
    sender = sym t.sender ∙ s.sender;
    same_term = sym t.same_term ∙ s.same_term;
    same_index = sym t.same_index ∙ s.same_index;
    same_snapshot_term = sym t.same_snapshot_term ∙ s.same_snapshot_term;
    same_size = sym t.same_size ∙ s.same_size;
    same_digest = sym t.same_digest ∙ s.same_digest;
  }

  -- The sink has taken all.
  abbrev Over : Chunk → Work S → Type 0
  Over c w =
      Handed hash seen c w.history × Same c w.receiver × (w.receiver.next_offset ≡ c.snapshot_size)

  hand_over-Over : (c : Chunk) (w : Work S) → Checked c w → Ends (Over c) Stops (hand_over sink w)
  unfolding hand_over call Ends Handing
  hand_over-Over c w (a, s, e, i) =
      taken
        (if w.receiver.stream_started
          then commit
          else install w.receiver.leader_term w.receiver.snapshot_index w.receiver.snapshot_term
              w.receiver.configuration w.receiver.buffer)
        _
        (elim (Bool-cases w.receiver.stream_started) [
          | inl st ↦ rw st (kept_in true st)
          | inr st ↦
              rw st (kept_in false st, o.same_term, o.same_index, o.same_snapshot_term, a.opens.3)
        ])
    where
      o : Same a.opener w.receiver
      o = a.opens.2

      kept_in :
          (b : Bool)
          → w.receiver.stream_started ≡ b
          → KeptIn b a.opener a.bytes w.receiver.buffer w.history
      kept_in b st = subst (λ b. KeptIn b a.opener a.bytes w.receiver.buffer w.history) st a.kept

      taken :
          (effect : Effect) (r : Result (Unit {0}))
          → Handing a.opener a.bytes ((effect, ok tt) ∷ w.history)
          → Ends (Over c) Stops (
              on_error
                (λ e w. (err e, clear_transfer (acked 0 false w)))
                (r, record w { history = (effect, r) ∷ w.history }))
      taken effect (ok _) h = (
        record {
          opener = a.opener;
          among = a.opens.0;
          first = a.opens.1;
          alike = opener_alike c a.opener w.receiver s o;
          bytes = a.bytes;
          whole = a.whole;
          genuine = a.genuine;
          handing = h;
        },
        s,
        e,
      )
      taken effect (err x) h =
          clear_transfer-Quits Absorbed seen x
            (acked 0 false (record w { history = (effect, err x) ∷ w.history })) i

  -- The transfer has ended, and the snapshot is handed over.
  abbrev pub Installs : Chunk → Work S → Type 0
  Installs c w = IsSound Absorbed seen w.receiver w.history × Handed hash seen c w.history

  pub finish_transfer-Handed :
      (c : Chunk) (w : Work S)
      → Going Absorbed seen c c.snapshot_size c.snapshot_size w
      → Ends (Installs c) Stops (finish_transfer sink w)
  unfolding finish_transfer Ends
  finish_transfer-Handed c w g =
      Ends-then (Over c) (Installs c) Stops (check_digest sink w ▸ hand_over sink) _
        (Ends-then (Checked c) (Over c) Stops (check_digest sink w) (hand_over sink)
          (check_digest-Checked c w g) (hand_over-Over c))
        (λ w' (h, s, e). (
          record {
            tracks = λ a q. absurd (ground arith);
            complete = λ q. e ∙ sym s.same_size;
            idle = λ q. absurd (ground (arith, s.is_active, q));
          },
          h,
        ))
