-- ===== src/Snapshot/Sender.antt =====
-- src/snapshot/raft_snapshot_sender.c: a window of chunks of a snapshot that are on their way to a peer.
-- The source of the bytes is a parameter. What the slots of `chunk_storage` hold stands in the claims.
pub mod Window
pub mod Chain
pub mod Reach
pub mod Moves
use turboraft.Prelude.{
  take, drop, ℕ, zero, suc, ◌+◌, ◌-◌, ◌*◌, ◌/◌, ◌%◌, min, Bool, true, false, ◌||◌, ◌&&◌, not,
  Option, none, some, List, [], ◌∷◌, ◌++◌, ltb, leb, ◌==◌, if◌then◌else◌, length,
}
use turboraft.Status.{Error, crashed, einval, eproto, ebusy, enomem, Result, ok, err}
use turboraft.Conf.{Conf, zero_conf, validate}
use turboraft.Log.Reconcile.{bytes_equal}
use turboraft.Snapshot.{Chunk, Ack, max_chunk_bytes}
use turboraft.Snapshot.Receiver.{zero_bytes}

-- `tr_snapshot_claim_t` with the bytes that its slot holds.
pub record Claim : Type 0 where
  pub offset : ℕ
  pub length : ℕ
  pub slot : ℕ
  pub bytes : List ℕ

-- `tr_raft_snapshot_source_t`; `read_at` gives bytes for an offset and a capacity.
pub record Source : Type 0 where
  pub size : ℕ
  pub digest : List ℕ
  pub read_at : ℕ → ℕ → Result (List ℕ)

-- `struct tr_raft_snapshot_sender` with its configuration; `source_owned` says whether there is a source,
-- and `claim_count` is a length.
pub record Sender : Type 0 where
  pub self_id : ℕ
  pub peer_id : ℕ
  pub max_snapshot_bytes : ℕ
  pub chunk_size : ℕ
  pub max_inflight_chunks : ℕ
  pub source : Option Source
  pub size : ℕ
  pub digest : List ℕ
  pub leader_term : ℕ
  pub snapshot_index : ℕ
  pub snapshot_term : ℕ
  pub configuration : Conf
  pub acknowledged_offset : ℕ
  pub next_offset : ℕ
  pub claims : List Claim
  pub active : Bool
  pub complete : Bool

abbrev pub max_inflight : ℕ
max_inflight = 4

unfoldable pub sender_config_valid : ℕ → ℕ → ℕ → ℕ → ℕ → ℕ → Bool
sender_config_valid size_max self_id peer_id max_snapshot_bytes chunk_size inflight =
    not (self_id == 0 || peer_id == 0 || self_id == peer_id || max_snapshot_bytes == 0)
    && not (
        chunk_size == 0
        || ltb max_chunk_bytes chunk_size
        || inflight == 0
        || ltb max_inflight inflight
        || ltb (size_max / inflight) chunk_size)

-- What the memory's calls leave where it is there: a sender without a transfer.
unfoldable pub create : ℕ → Bool → ℕ → ℕ → ℕ → ℕ → ℕ → Result Sender
unfolding sender_config_valid
create size_max memory_ok self_id peer_id max_snapshot_bytes chunk_size inflight =
    if not (sender_config_valid size_max self_id peer_id max_snapshot_bytes chunk_size inflight)
    then err einval
    else if not memory_ok
    then err enomem
    else ok (record {
      self_id = self_id;
      peer_id = peer_id;
      max_snapshot_bytes = max_snapshot_bytes;
      chunk_size = chunk_size;
      max_inflight_chunks = inflight;
      source = none;
      size = 0;
      digest = zero_bytes 32;
      leader_term = 0;
      snapshot_index = 0;
      snapshot_term = 0;
      configuration = zero_conf;
      acknowledged_offset = 0;
      next_offset = 0;
      claims = [];
      active = false;
      complete = false;
    })

-- `tr_raft_snapshot_sender_clear_transfer`, and `tr_raft_snapshot_sender_reset`.
unfoldable pub clear_transfer : Sender → Sender
clear_transfer s = record s {
  source = none;
  size = 0;
  digest = zero_bytes 32;
  leader_term = 0;
  snapshot_index = 0;
  snapshot_term = 0;
  configuration = zero_conf;
  acknowledged_offset = 0;
  next_offset = 0;
  claims = [];
  active = false;
  complete = false;
}

unfoldable pub slot_in_use : ℕ → List Claim → Bool
slot_in_use slot [] = false
slot_in_use slot (c ∷ cs) = if c.slot == slot then true else slot_in_use slot cs

-- The search of a free slot, over the slots that are left.
unfoldable pub free_slot_from : ℕ → ℕ → List Claim → Option ℕ
unfolding slot_in_use
free_slot_from zero slot claims = none
free_slot_from (suc n) slot claims =
    let rest = free_slot_from n (slot + 1) claims in
    if not (slot_in_use slot claims) then some slot else rest

unfoldable pub find_free_slot : Sender → Option ℕ
unfolding free_slot_from
find_free_slot s = free_slot_from s.max_inflight_chunks 0 s.claims

unfoldable pub fill_chunk : Sender → Claim → Chunk
fill_chunk s claim = record {
  from = s.self_id;
  to = s.peer_id;
  term = s.leader_term;
  snapshot_index = s.snapshot_index;
  snapshot_term = s.snapshot_term;
  snapshot_offset = claim.offset;
  snapshot_size = s.size;
  snapshot_digest = s.digest;
  has_configuration = claim.offset == 0;
  configuration = (if claim.offset == 0 then s.configuration else zero_conf);
  bytes = claim.bytes;
  is_done = claim.offset + claim.length == s.size;
}

unfoldable pub begin_source : ℕ → ℕ → ℕ → Conf → Source → Sender → Result (Unit {0}) × Sender
unfolding validate clear_transfer
begin_source leader_term snapshot_index snapshot_term configuration source s =
    if (elim (validate configuration) [ ok _ ↦ false | err _ ↦ true ])
      || leader_term == 0
      || snapshot_index == 0
      || snapshot_term == 0
      || ltb leader_term snapshot_term
      || ltb s.max_snapshot_bytes source.size
    then (err einval, s)
    else if s.active && not s.complete
    then (err ebusy, s)
    else (
      ok tt,
      record (clear_transfer s) {
        source = some source;
        size = source.size;
        digest = source.digest;
        leader_term = leader_term;
        snapshot_index = snapshot_index;
        snapshot_term = snapshot_term;
        configuration = configuration;
        active = true;
      },
    )

-- `tr_snapshot_memory_read_at` of the bytes that `tr_raft_snapshot_sender_begin` copies.
unfoldable pub memory_source : List ℕ → List ℕ → Source
memory_source bytes digest = record {
  size = length bytes;
  digest = digest;
  read_at = λ offset capacity.
      if ltb (length bytes) offset || ltb (length bytes - offset) capacity
      then err einval
      else ok (take capacity (drop offset bytes));
}

-- `sha256` is what `cmeta_sha256` gives for the bytes.
unfoldable pub begin :
    ℕ
    → ℕ
    → ℕ
    → Conf
    → List ℕ
    → Bool
    → (List ℕ → Result (List ℕ))
    → Sender
    → Result (Unit {0}) × Sender
unfolding begin_source memory_source
begin leader_term snapshot_index snapshot_term configuration bytes memory_ok sha256 s =
    if ltb s.max_snapshot_bytes (length bytes)
    then (err einval, s)
    else if not memory_ok
    then (err enomem, s)
    else elim (sha256 bytes) [
      | err e ↦ (err e, s)
      | ok digest ↦
          begin_source leader_term snapshot_index snapshot_term configuration
            (memory_source bytes digest) s
    ]

-- The bytes of the next chunk, where there are any.
unfoldable pub read_chunk : Sender → ℕ → Result (List ℕ)
read_chunk s size = if size == 0 then ok [] else elim s.source [
  | none ↦ err crashed
  | some source ↦ elim (source.read_at s.next_offset size) [
    | err e ↦ err e
    | ok bytes ↦ if not (length bytes == size) then err eproto else ok bytes
  ]
]

unfoldable pub claim_next : Sender → Result Chunk × Sender
unfolding find_free_slot read_chunk fill_chunk
claim_next s =
    let size = min (s.size - s.next_offset) s.chunk_size in
    elim (find_free_slot s) [
      | none ↦ (err ebusy, s)
      | some slot ↦ elim (read_chunk s size) [
        | err e ↦ (err e, s)
        | ok bytes ↦
            let claim : Claim = record {
              offset = s.next_offset;
              length = size;
              slot = slot;
              bytes = bytes;
            } in
            (
              ok (fill_chunk s claim),
              record s { claims = s.claims ++ claim ∷ []; next_offset = s.next_offset + size },
            )
      ]
    ]

unfoldable pub next_chunk : Sender → Result Chunk × Sender
unfolding claim_next fill_chunk
next_chunk s =
    if not s.active || s.complete
    then (err ebusy, s)
    else if leb s.max_inflight_chunks (length s.claims)
    then (if not (s.max_inflight_chunks == 1)
        then (err ebusy, s)
        else elim s.claims [ [] ↦ (err crashed, s) | c ∷ _ ↦ (ok (fill_chunk s c), s) ])
    else if s.next_offset == s.size && not (length s.claims == 0)
    then (err ebusy, s)
    else claim_next s

-- The last claim, with those before it.
unfoldable pub last_claim : List Claim → Option (List Claim × Claim)
last_claim [] = none
last_claim (c ∷ cs) = elim (last_claim cs) [ none ↦ some ([], c) | some p ↦ some (c ∷ p.0, p.1) ]

unfoldable pub cancel_chunk : ℕ → Sender → Result (Unit {0}) × Sender
unfolding last_claim
cancel_chunk offset s = elim (last_claim s.claims) [
  | none ↦ (err einval, s)
  | some p ↦
      if not ((p.1).offset == offset)
      then (err eproto, s)
      else (ok tt, record s { next_offset = (p.1).offset; claims = p.0 })
]

unfoldable pub prepare_resume : Sender → Result (Unit {0}) × Sender
prepare_resume s =
    if not s.active || s.complete
    then (err ebusy, s)
    else (ok tt, record s { next_offset = s.acknowledged_offset; claims = [] })

abbrev pub end_of : Claim → ℕ
end_of c = c.offset + c.length

-- Whether a claim ends at an offset.
unfoldable pub ends_claim : ℕ → List Claim → Bool
ends_claim offset [] = false
ends_claim offset (c ∷ cs) = if end_of c == offset then true else ends_claim offset cs

-- The claims behind those that an offset covers.
unfoldable pub behind : ℕ → List Claim → List Claim
behind offset [] = []
behind offset (c ∷ cs) =
    let rest = behind offset cs in if leb (end_of c) offset then rest else c ∷ cs

unfoldable pub ack_of : Sender → Ack → Bool
unfolding bytes_equal
ack_of s a =
    a.from == s.peer_id
    && a.to == s.self_id
    && a.term == s.leader_term
    && a.snapshot_index == s.snapshot_index
    && a.snapshot_size == s.size
    && bytes_equal a.snapshot_digest s.digest

-- The acknowledgement of an offset that a claim ends at.
unfoldable pub advance : ℕ → Sender → Sender
unfolding behind
advance offset s = record s {
  acknowledged_offset = offset;
  claims = behind offset s.claims;
  complete = offset == s.size;
  source = (if offset == s.size then none else s.source);
}

unfoldable pub acknowledge : Ack → Sender → Result (Unit {0}) × Sender
unfolding ack_of ends_claim advance
acknowledge a s =
    if not s.active
    then (err ebusy, s)
    else if not (ack_of s a)
    then (err eproto, s)
    else if s.complete
    then ((if a.accepted && a.next_offset == s.size then ok tt else err eproto), s)
    else if ltb s.next_offset a.next_offset
        || (not (a.next_offset == s.size) && not (a.next_offset % s.chunk_size == 0))
    then (err eproto, s)
    else if not a.accepted
    then (if ltb s.acknowledged_offset a.next_offset then (err eproto, s) else (
      ok tt,
      record s { acknowledged_offset = a.next_offset; next_offset = a.next_offset; claims = [] },
    ))
    else if ltb a.next_offset s.acknowledged_offset
    then (err eproto, s)
    else if not (a.next_offset == s.acknowledged_offset) && not (ends_claim a.next_offset s.claims)
    then (err eproto, s)
    else (ok tt, advance a.next_offset s)

-- `tr_raft_snapshot_sender_status_t`
pub record SenderStatus : Type 0 where
  pub active : Bool
  pub complete : Bool
  pub leader_term : ℕ
  pub snapshot_index : ℕ
  pub snapshot_term : ℕ
  pub snapshot_size : ℕ
  pub acknowledged_offset : ℕ
  pub next_offset : ℕ
  pub inflight_chunks : ℕ
  pub max_inflight_chunks : ℕ

unfoldable pub get_status : Sender → SenderStatus
get_status s = record {
  active = s.active;
  complete = s.complete;
  leader_term = s.leader_term;
  snapshot_index = s.snapshot_index;
  snapshot_term = s.snapshot_term;
  snapshot_size = s.size;
  acknowledged_offset = s.acknowledged_offset;
  next_offset = s.next_offset;
  inflight_chunks = length s.claims;
  max_inflight_chunks = s.max_inflight_chunks;
}
