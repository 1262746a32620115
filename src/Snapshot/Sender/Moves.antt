-- ===== src/Snapshot/Sender/Moves.antt =====
-- What is known of a sender between its calls, and that each call keeps it.
use turboraft.Prelude.{
  ℕ, ◌+◌, ◌-◌, ◌≤◌, ◌<◌, ◌≡◌, ◌≢◌, ◌∙◌, refl, sym, ap, subst, Bool, true, ◌||◌, ◌&&◌, not, Option,
  none, some, List, [], ◌∷◌, ◌++◌, leb, ◌==◌, if◌then◌else◌, length, min, arith, Bool-cases,
  Option-cases, inl, inr, ◌⊎◌,
}
use turboraft.Status.{Result, ok, err, Result-cases}
use turboraft.Conf.{Conf, validate}
use turboraft.Snapshot.{Chunk, Ack, max_chunk_bytes}
use turboraft.Snapshot.Sender.{
  Claim, Source, Sender, create, clear_transfer, begin_source, next_chunk, claim_next, read_chunk,
  cancel_chunk, prepare_resume, acknowledge, advance, find_free_slot, sender_config_valid,
  ends_claim, last_claim, behind,
}
use turboraft.Snapshot.Sender.Window.{IsWindow-behind, last_claim-IsWindow}
use turboraft.Snapshot.Sender.Chain.{
  IsWindow, IsWindow-le, NoSlot, no_claims-IsWindow, IsWindow-append, free_slot_from-NoSlot,
}

-- The transfer that is offered.
pub record IsOffer (s : Sender) : Type 0 where
  pub term_set : s.leader_term ≢ 0
  pub index_set : s.snapshot_index ≢ 0
  pub snapshot_term_set : s.snapshot_term ≢ 0
  pub snapshot_term_le : s.snapshot_term ≤ s.leader_term
  pub configuration_valid : validate s.configuration ≡ ok tt
  pub size_le : s.size ≤ s.max_snapshot_bytes

-- The claims follow each other from the acknowledged offset to the next one, which is within the
-- snapshot; their slots hold their bytes, and are apart.
pub record IsValid (s : Sender) : Type 0 where
  pub self_set : s.self_id ≢ 0
  pub chunk_pos : s.chunk_size ≢ 0
  pub chunk_le : s.chunk_size ≤ max_chunk_bytes
  pub next_le : s.next_offset ≤ s.size
  pub window :
      IsWindow s.chunk_size s.max_inflight_chunks s.acknowledged_offset s.claims s.next_offset
  pub offer : s.active ≡ true → IsOffer s

pub clear_transfer-IsValid : (s : Sender) → IsValid s → IsValid (clear_transfer s)
unfolding clear_transfer
clear_transfer-IsValid s v = record {
  self_set = v.self_set;
  chunk_pos = v.chunk_pos;
  chunk_le = v.chunk_le;
  next_le = omega arith;
  window = no_claims-IsWindow s.chunk_size s.max_inflight_chunks 0;
  offer = λ a. absurd (ground (arith, a));
}

pub create-IsValid :
    (s : Sender) (size_max self_id peer_id max_snapshot_bytes chunk_size inflight : ℕ)
    → create size_max true self_id peer_id max_snapshot_bytes chunk_size inflight ≡ ok s
    → IsValid s
unfolding create sender_config_valid
create-IsValid s size_max self_id peer_id max_snapshot_bytes chunk_size inflight e =
    let claims : s.claims ≡ [] = ground (arith, e) in
    let acked : s.acknowledged_offset ≡ 0 = ground (arith, e) in
    let next : s.next_offset ≡ 0 = ground (arith, e) in
    record {
      self_set = ground (arith, e);
      chunk_pos = ground (arith, e);
      chunk_le = ground (arith, e);
      next_le = omega (arith, next);
      window = rw (claims, acked, next) (no_claims-IsWindow s.chunk_size s.max_inflight_chunks 0);
      offer = λ a. absurd (ground (arith, e, a));
    }

-- A change of the window of a transfer only.
moved-IsValid :
    (s : Sender) (a n : ℕ) (claims : List Claim) (complete : Bool) (source : Option Source)
    → IsValid s
    → n ≤ s.size
    → IsWindow s.chunk_size s.max_inflight_chunks a claims n
    → IsValid (record s {
      acknowledged_offset = a;
      next_offset = n;
      claims = claims;
      complete = complete;
      source = source;
    })
moved-IsValid s a n claims complete source v le w = record {
  self_set = v.self_set;
  chunk_pos = v.chunk_pos;
  chunk_le = v.chunk_le;
  next_le = le;
  window = w;
  offer = λ a. record {
    term_set = (v.offer a).term_set;
    index_set = (v.offer a).index_set;
    snapshot_term_set = (v.offer a).snapshot_term_set;
    snapshot_term_le = (v.offer a).snapshot_term_le;
    configuration_valid = (v.offer a).configuration_valid;
    size_le = (v.offer a).size_le;
  };
}

pub begin_source-IsValid :
    (s s' : Sender) (leader_term snapshot_index snapshot_term : ℕ) (configuration : Conf)
    (source : Source) (r : Result (Unit {0}))
    → IsValid s
    → begin_source leader_term snapshot_index snapshot_term configuration source s ≡ (r, s')
    → IsValid s'
unfolding begin_source clear_transfer
begin_source-IsValid s s' leader_term snapshot_index snapshot_term configuration source (err x) v
      e =
    subst IsValid {x = s} (ground (arith, e)) v
begin_source-IsValid s s' leader_term snapshot_index snapshot_term configuration source (ok _) v e =
    let claims : s'.claims ≡ [] = ground (arith, e) in
    let acked : s'.acknowledged_offset ≡ 0 = ground (arith, e) in
    let next : s'.next_offset ≡ 0 = ground (arith, e) in
    let conf : configuration ≡ s'.configuration = ground (arith, e) in
    record {
      self_set = ground (arith, e, v.self_set);
      chunk_pos = ground (arith, e, v.chunk_pos);
      chunk_le = ground (arith, e, v.chunk_le);
      next_le = omega (arith, next);
      window = rw (claims, acked, next) (no_claims-IsWindow s'.chunk_size s'.max_inflight_chunks 0);
      offer = λ _. record {
        term_set = ground (arith, e);
        index_set = ground (arith, e);
        snapshot_term_set = ground (arith, e);
        snapshot_term_le = ground (arith, e);
        configuration_valid =
            subst (λ c. validate c ≡ ok tt) conf
              (elim (Result-cases (validate configuration)) [
                | inl bad ↦ absurd (ground (arith, e, bad.1))
                | inr fine ↦ fine.1
              ]);
        size_le = ground (arith, e);
      };
    }

pub read_chunk_lem :
    (s : Sender) (size : ℕ) (bytes : List ℕ) → read_chunk s size ≡ ok bytes → length bytes ≡ size
unfolding read_chunk
read_chunk_lem s size bytes e = elim (Bool-cases (size == 0)) [
  | inl z ↦
      let empty : [] ≡ bytes = ground (arith, e, z) in ap length (sym empty) ∙ ground (arith, z)
  | inr nz ↦ elim (Option-cases s.source) [
    | inl miss ↦ absurd (ground (arith, e, nz, miss))
    | inr found ↦
        let (source, at) = found in
        elim (Result-cases (source.read_at s.next_offset size)) [
          | inl bad ↦ absurd (ground (arith, e, nz, at, bad.1))
          | inr fine ↦
              let (bs, p) = fine in
              elim (Bool-cases (length bs == size)) [
                | inl h ↦
                    let q : bs ≡ bytes = ground (arith, e, nz, at, p, h) in
                    ap length (sym q) ∙ ground (arith, h)
                | inr h ↦ absurd (ground (arith, e, nz, at, p, h))
              ]
        ]
  ]
]

claim_next-IsValid :
    (s s' : Sender) (r : Result Chunk)
    → IsValid s
    → length s.claims < s.max_inflight_chunks
    → claim_next s ≡ (r, s')
    → IsValid s'
unfolding claim_next
claim_next-IsValid s s' r v room e = elim (Option-cases (find_free_slot s)) [
  | inl miss ↦ subst IsValid {x = s} (ground (arith, e, miss)) v
  | inr found ↦
      let (slot, at) = found in
      let size = min (s.size - s.next_offset) s.chunk_size in
      elim (Result-cases (read_chunk s size)) [
        | inl bad ↦ subst IsValid {x = s} (ground (arith, e, at, bad.1)) v
        | inr fine ↦
            let (bytes, p) = fine in
            let claim : Claim = record {
              offset = s.next_offset;
              length = size;
              slot = slot;
              bytes = bytes;
            } in
            let (free, lt) = found_free s slot at in
            let w =
              IsWindow-append s.chunk_size s.max_inflight_chunks s.acknowledged_offset s.claims
                s.next_offset claim v.window refl (read_chunk_lem s size bytes p, omega arith, lt)
                free room in
            subst IsValid (ground (arith, e, at, p)) (
              moved-IsValid s s.acknowledged_offset (s.next_offset + size) (s.claims ++ claim ∷ [])
                s.complete s.source v (omega (arith, v.next_le)) w)
      ]
]
  where
    found_free :
        (s : Sender) (slot : ℕ)
        → find_free_slot s ≡ some slot
        → NoSlot slot s.claims × (slot < s.max_inflight_chunks)
    found_free s slot at =
        let (q, l) =
          free_slot_from-NoSlot s.max_inflight_chunks 0 s.claims slot
            (unfold find_free_slot in at) in
        (q, omega (arith, l))

pub next_chunk-IsValid :
    (s s' : Sender) (r : Result Chunk) → IsValid s → next_chunk s ≡ (r, s') → IsValid s'
unfolding next_chunk
next_chunk-IsValid s s' r v e =
    elim (Bool-cases (
      (not s.active || s.complete)
      || leb s.max_inflight_chunks (length s.claims)
      || (s.next_offset == s.size && not (length s.claims == 0)))) [
        | inl stay ↦ subst IsValid {x = s} (stays stay) v
        | inr go ↦ claim_next-IsValid s s' r v (ground (arith, go)) (ground (arith, e, go))
      ]
  where
    stays :
        ((not s.active || s.complete)
            || leb s.max_inflight_chunks (length s.claims)
            || (s.next_offset == s.size && not (length s.claims == 0)))
          ≡ true
        → s ≡ s'
    stays h = repeated s.claims refl
      where
        repeated : (cs : List Claim) → s.claims ≡ cs → s ≡ s'
        repeated [] q = ground (arith, e, h, q)
        repeated (c ∷ cs) q = ground (arith, e, h, q)

pub cancel_chunk-IsValid :
    (s s' : Sender) (offset : ℕ) (r : Result (Unit {0}))
    → IsValid s
    → cancel_chunk offset s ≡ (r, s')
    → IsValid s'
unfolding cancel_chunk
cancel_chunk-IsValid s s' offset r v e = elim (Option-cases (last_claim s.claims)) [
  | inl miss ↦ subst IsValid {x = s} (ground (arith, e, miss)) v
  | inr found ↦
      let (p, at) = found in
      let (w, le) =
        last_claim-IsWindow s.chunk_size s.max_inflight_chunks s.acknowledged_offset s.claims
          s.next_offset p v.window at in
      elim (Bool-cases ((p.1).offset == offset)) [
        | inl z ↦ subst IsValid (ground (arith, e, at, z)) (
            moved-IsValid s s.acknowledged_offset (p.1).offset p.0 s.complete s.source v
              (omega (arith, le, v.next_le)) w)
        | inr z ↦ subst IsValid {x = s} (ground (arith, e, at, z)) v
      ]
]

pub prepare_resume-IsValid :
    (s s' : Sender) (r : Result (Unit {0})) → IsValid s → prepare_resume s ≡ (r, s') → IsValid s'
unfolding prepare_resume
prepare_resume-IsValid s s' r v e = elim (Bool-cases (not s.active || s.complete)) [
  | inl z ↦ subst IsValid {x = s} (ground (arith, e, z)) v
  | inr z ↦
      let le =
        IsWindow-le s.chunk_size s.max_inflight_chunks s.acknowledged_offset s.claims s.next_offset
          v.window in
      subst IsValid (ground (arith, e, z)) (
        moved-IsValid s s.acknowledged_offset s.acknowledged_offset [] s.complete s.source v
          (omega (arith, le, v.next_le))
          (no_claims-IsWindow s.chunk_size s.max_inflight_chunks s.acknowledged_offset))
]

pub acknowledge-IsValid :
    (s s' : Sender) (a : Ack) (r : Result (Unit {0}))
    → IsValid s
    → acknowledge a s ≡ (r, s')
    → IsValid s'
unfolding acknowledge advance
acknowledge-IsValid s s' a (err x) v e = subst IsValid {x = s} (ground (arith, e)) v
acknowledge-IsValid s s' a (ok _) v e = elim (Bool-cases s.complete) [
  | inl c ↦ subst IsValid {x = s} (ground (arith, e, c)) v
  | inr c ↦ elim (Bool-cases a.accepted) [
    | inl y ↦
        let boundary : (ends_claim a.next_offset s.claims ≡ true)
            ⊎ (s.acknowledged_offset ≡ a.next_offset) =
          elim (Bool-cases (ends_claim a.next_offset s.claims)) [
            | inl z ↦ inl z
            | inr z ↦ inr (ground (arith, e, c, y, z))
          ] in
        subst IsValid (ground (arith, e, c, y)) (
          moved-IsValid s a.next_offset s.next_offset (behind a.next_offset s.claims)
            (a.next_offset == s.size) (if a.next_offset == s.size then none else s.source) v
            v.next_le
            (IsWindow-behind s.chunk_size s.max_inflight_chunks a.next_offset s.acknowledged_offset
              s.claims s.next_offset v.window boundary))
    | inr y ↦ subst IsValid (ground (arith, e, c, y)) (
        moved-IsValid s a.next_offset a.next_offset [] s.complete s.source v
          (ground (arith, e, c, y, v.next_le))
          (no_claims-IsWindow s.chunk_size s.max_inflight_chunks a.next_offset))
  ]
]
