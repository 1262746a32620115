-- ===== src/Snapshot/Receiver/Sound.antt =====
-- What is known of a receiver between its calls: the digest's state is that of the bytes received.
use turboraft.Prelude.{
  ℕ, ◌≤◌, ◌≡◌, refl, ap₂, ◌⊎◌, inr, Bool, true, false, List, [], ◌∷◌, ◌++◌, length, arith,
}
use turboraft.Status.{Error, ok}
use turboraft.Snapshot.{Chunk}
use turboraft.Snapshot.Receiver.{begin, write, History, Sha, Receiver, Work, clear_transfer}
use turboraft.Log.Reconcile.{bytes_equal}

-- What is known of the stream: it was begun as the snapshot of a chunk, and has then been given bytes, each
-- write at the offset that those before have come to.
unfoldable pub StagedAs : Chunk → List ℕ → History → Type 0
StagedAs o bytes [] = ⊥
StagedAs o bytes ((begin term index snapshot_term configuration size, ok _) ∷ history) =
    (bytes ≡ [])
    × (term ≡ o.term)
    × (index ≡ o.snapshot_index)
    × (snapshot_term ≡ o.snapshot_term)
    × (configuration ≡ o.configuration)
    × (size ≡ o.snapshot_size)
StagedAs o bytes ((write offset more, ok _) ∷ history) =
    (before : List ℕ) × (bytes ≡ before ++ more)
    × (offset ≡ length before)
    × StagedAs o before history
StagedAs o bytes (_ ∷ history) = ⊥

-- A chunk is one of those handled.
abbrev pub Among : Chunk → List Chunk → Type 0
Among c [] = ⊥
Among c (x ∷ xs) = (x ≡ c) ⊎ Among c xs

-- The bytes are in the stream, or in the buffer.
abbrev pub KeptIn : Bool → Chunk → List ℕ → List ℕ → History → Type 0
KeptIn true o bytes buffer history = StagedAs o bytes history
KeptIn false o bytes buffer history = buffer ≡ bytes

-- A receiver's transfer is that of a chunk.
pub record IsOf (c : Chunk) (active : Bool) (from term index snapshot_term size : ℕ)
    (digest : List ℕ) : Type 0 where
  pub is_active : active ≡ true
  pub sender : from ≡ c.from
  pub same_term : term ≡ c.term
  pub same_index : index ≡ c.snapshot_index
  pub same_snapshot_term : snapshot_term ≡ c.snapshot_term
  pub same_size : size ≡ c.snapshot_size
  pub same_digest : digest ≡ c.snapshot_digest

abbrev pub Same : {S : Type 0} → Chunk → Receiver S → Type 0
Same c r =
    IsOf c r.active r.leader_id r.leader_term r.snapshot_index r.snapshot_term r.snapshot_size
      r.digest

-- A chunk at offset 0, of those handled, has begun the transfer, with its configuration.
abbrev pub Opens : {S : Type 0} → Chunk → List Chunk → Receiver S → Type 0
Opens o seen r =
    Among o seen × (o.snapshot_offset ≡ 0) × Same o r × (r.configuration ≡ o.configuration)

-- The library's calls compute `hash` of what they are given, where they succeed.
pub record Hashes {S : Type 0} (sha : Sha S) (Absorbed : S → List ℕ → Type 0)
    (hash : List ℕ → List ℕ) : Type 0 where
  pub reset_empty : (s : S) → (sha.reset s).0 ≡ ok tt → Absorbed (sha.reset s).1 []
  pub update_more :
      (s : S) (bytes more : List ℕ)
      → Absorbed s bytes
      → (sha.update more s).0 ≡ ok tt
      → Absorbed (sha.update more s).1 (bytes ++ more)
  pub finish_hash :
      (s : S) (bytes digest : List ℕ)
      → Absorbed s bytes
      → (sha.finish s).0 ≡ ok digest
      → digest ≡ hash bytes

pub bytes_equal_lem : (xs ys : List ℕ) → bytes_equal xs ys ≡ true → xs ≡ ys
unfolding bytes_equal
bytes_equal_lem [] [] e = refl
bytes_equal_lem [] (y ∷ ys) e = absurd (ground (arith, e))
bytes_equal_lem (x ∷ xs) [] e = absurd (ground (arith, e))
bytes_equal_lem (x ∷ xs) (y ∷ ys) e =
    let h : x ≡ y = ground (arith, e) in
    let t : bytes_equal xs ys ≡ true = ground (arith, e) in ap₂ ◌∷◌ h (bytes_equal_lem xs ys t)

module _ {S : Type 0} (Absorbed : S → List ℕ → Type 0) where
  -- A transfer that is going on, and has come to an offset.
  pub record Tracks (seen : List Chunk) (r : Receiver S) (history : History) (offset : ℕ)
      : Type 0 where
    pub going_on : r.completed ≡ false
    pub opener : Chunk
    pub opens : Opens opener seen r
    pub bytes : List ℕ
    pub absorbed : Absorbed r.sha256 bytes
    pub kept : KeptIn r.stream_started opener bytes r.buffer history
    pub length_eq : length bytes ≡ offset

  -- What holds between the calls of a receiver that has handled the chunks `seen`.
  pub record IsSound (seen : List Chunk) (r : Receiver S) (history : History) : Type 0 where
    pub tracks :
        r.active ≡ true
        → r.completed ≡ false
        → Tracks seen r history r.next_offset × (r.next_offset ≤ r.snapshot_size)
    pub complete : r.completed ≡ true → r.next_offset ≡ r.snapshot_size
    pub idle : r.active ≡ false → (r.completed ≡ false) × (r.stream_started ≡ false)

  -- One more chunk is handled.
  pub IsSound-more :
      (c : Chunk) (seen : List Chunk) (r : Receiver S) (history : History)
      → IsSound seen r history
      → IsSound (c ∷ seen) r history
  IsSound-more c seen r history v = record {
    tracks = λ a q.
        let (t, le) = v.tracks a q in
        (
          record {
            going_on = t.going_on;
            opener = t.opener;
            opens = (inr (t.opens.0), t.opens.1, t.opens.2, t.opens.3);
            bytes = t.bytes;
            absorbed = t.absorbed;
            kept = t.kept;
            length_eq = t.length_eq;
          },
          le,
        );
    complete = v.complete;
    idle = v.idle;
  }

  -- Nothing has been installed by this call.
  abbrev pub Quits : List Chunk → Error → Work S → Type 0
  Quits seen e w = IsSound seen w.receiver w.history × (w.installed ≡ false)

  pub clear_transfer-IsSound :
      (seen : List Chunk) (w : Work S)
      → IsSound seen (clear_transfer w).receiver (clear_transfer w).history
  unfolding clear_transfer
  clear_transfer-IsSound seen w = record {
    tracks = λ a c. absurd (ground arith);
    complete = λ c. refl;
    idle = λ a. (refl, refl);
  }

  pub clear_transfer-Quits :
      (seen : List Chunk) (e : Error) (w : Work S)
      → w.installed ≡ false
      → Quits seen e (clear_transfer w)
  unfolding clear_transfer
  clear_transfer-Quits seen e w i = (clear_transfer-IsSound seen w, i)
