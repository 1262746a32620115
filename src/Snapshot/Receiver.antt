-- ===== src/Snapshot/Receiver.antt =====
-- src/snapshot/raft_snapshot_receiver.c: a transfer that is taken chunk by chunk, checked, and installed.
-- The digest's code and the callbacks are parameters.
pub mod Sound
pub mod Open
pub mod Absorb
pub mod HandOver
pub mod Install
pub mod Create
use turboraft.Prelude.{
  ℕ, zero, suc, ◌+◌, ◌-◌, Bool, true, false, ◌||◌, ◌&&◌, not, List, [], ◌∷◌, ◌++◌, ltb, leb, ◌==◌,
  if◌then◌else◌, length,
}
use turboraft.Calls.{◌▸◌, done, on_error}
use turboraft.Status.{Error, einval, eproto, efbig, enomem, Result, ok, err}
use turboraft.Conf.{Conf, zero_conf, validate}
use turboraft.Transition.{membership_equal}
use turboraft.Log.Reconcile.{bytes_equal}
use turboraft.Snapshot.{Chunk, Ack, max_chunk_bytes}

-- A callback with its arguments.
pub data Effect : Type 0 where
  begin : ℕ → ℕ → ℕ → Conf → ℕ → Effect
  write : ℕ → List ℕ → Effect
  commit abort : Effect
  install : ℕ → ℕ → ℕ → Conf → List ℕ → Effect

-- The calls that have been made with what they returned, the last one first.
abbrev pub History : Type 0
History = List (Effect × Result (Unit {0}))

-- The calls `cmeta_sha256_stream_*` of a state that is the library's.
pub record Sha (S : Type 0) : Type 0 where
  pub reset : S → Result (Unit {0}) × S
  pub update : List ℕ → S → Result (Unit {0}) × S
  pub finish : S → Result (List ℕ) × S

-- Whether a stream is set or else `install`, the memory that there is, and what callbacks return.
pub record Sink (S : Type 0) : Type 0 where
  pub streams : Bool
  pub malloc_ok : ℕ → Bool
  pub size_max : ℕ
  pub sha : Sha S
  pub answer : History → Effect → Result (Unit {0})

-- `struct tr_raft_snapshot_receiver`, but for the callbacks; `buffer` is what has been copied to the buffer.
pub record Receiver (S : Type 0) : Type 0 where
  pub self_id : ℕ
  pub max_snapshot_bytes : ℕ
  pub max_buffered_snapshot_bytes : ℕ
  pub leader_id : ℕ
  pub leader_term : ℕ
  pub snapshot_index : ℕ
  pub snapshot_term : ℕ
  pub configuration : Conf
  pub snapshot_size : ℕ
  pub next_offset : ℕ
  pub digest : List ℕ
  pub buffer : List ℕ
  pub sha256 : S
  pub stream_started : Bool
  pub active : Bool
  pub completed : Bool

-- What a call works on: the receiver, `tr_raft_snapshot_receive_result_t`, and the calls made.
pub record Work (S : Type 0) : Type 0 where
  pub receiver : Receiver S
  pub ack : Ack
  pub installed : Bool
  pub history : History

abbrev pub zero_bytes : ℕ → List ℕ
zero_bytes zero = []
zero_bytes (suc n) = 0 ∷ zero_bytes n

module _ {S : Type 0} where
  abbrev pub no_transfer : Receiver S → Receiver S
  no_transfer r = record r {
    stream_started = false;
    buffer = [];
    leader_id = 0;
    leader_term = 0;
    snapshot_index = 0;
    snapshot_term = 0;
    configuration = zero_conf;
    snapshot_size = 0;
    next_offset = 0;
    digest = zero_bytes 32;
    active = false;
    completed = false;
  }

  -- `abort` returns nothing.
  unfoldable pub clear_transfer : Work S → Work S
  clear_transfer w = record w {
    receiver = no_transfer w.receiver;
    history = (if w.receiver.stream_started then (abort, ok tt) ∷ w.history else w.history);
  }

  unfoldable pub chunk_valid : Receiver S → Chunk → Bool
  chunk_valid r c =
      not (
        c.from == 0
        || not (c.to == r.self_id)
        || c.term == 0
        || c.snapshot_index == 0
        || c.snapshot_term == 0
        || ltb c.term c.snapshot_term
        || ltb r.max_snapshot_bytes c.snapshot_size
        || ltb c.snapshot_size c.snapshot_offset
        || ltb max_chunk_bytes (length c.bytes)
        || ltb (c.snapshot_size - c.snapshot_offset) (length c.bytes)
        || (c.snapshot_offset == 0
            && (not c.has_configuration
                || (elim (validate c.configuration) [ ok _ ↦ false | err _ ↦ true ])))
        || (not (c.snapshot_offset == 0) && c.has_configuration))
      && (if c.is_done
          then c.snapshot_offset + length c.bytes == c.snapshot_size
          else not (c.snapshot_offset + length c.bytes == c.snapshot_size)
            && not (length c.bytes == 0))

  unfoldable pub identity_matches : Receiver S → Chunk → Bool
  unfolding membership_equal bytes_equal
  identity_matches r c =
      (if c.snapshot_offset == 0
        then c.has_configuration && membership_equal r.configuration c.configuration
        else true)
      && r.leader_id == c.from
      && r.leader_term == c.term
      && r.snapshot_index == c.snapshot_index
      && r.snapshot_term == c.snapshot_term
      && r.snapshot_size == c.snapshot_size
      && bytes_equal r.digest c.snapshot_digest

  unfoldable pub prepare_ack : Receiver S → Chunk → Ack
  prepare_ack r c = record {
    from = r.self_id;
    to = c.from;
    term = c.term;
    snapshot_index = c.snapshot_index;
    snapshot_size = c.snapshot_size;
    next_offset = 0;
    snapshot_digest = c.snapshot_digest;
    accepted = false;
  }

  abbrev pub acked : ℕ → Bool → Work S → Work S
  acked next accepted w = record w {
    ack = record (w.ack) { next_offset = next; accepted = accepted };
  }

  module _ (sink : Sink S) where
    unfoldable pub call : Effect → Work S → Result (Unit {0}) × Work S
    call effect w =
        let r = sink.answer w.history effect in (r, record w { history = (effect, r) ∷ w.history })

    -- The receiver with the identity of a transfer.
    unfoldable pub adopted : Chunk → Receiver S → Receiver S
    adopted c r = record r {
      leader_id = c.from;
      leader_term = c.term;
      snapshot_index = c.snapshot_index;
      snapshot_term = c.snapshot_term;
      configuration = c.configuration;
      snapshot_size = c.snapshot_size;
      digest = c.snapshot_digest;
      buffer = [];
      active = true;
      completed = false;
    }

    unfoldable pub reset_digest : Work S → Result (Unit {0}) × Work S
    unfolding clear_transfer
    reset_digest w =
        let (r, sha) = sink.sha.reset w.receiver.sha256 in
        on_error (λ e w. (err eproto, clear_transfer w))
          (r, record w { receiver = record (w.receiver) { sha256 = sha } })

    unfoldable pub begin_stream : Work S → Result (Unit {0}) × Work S
    unfolding call clear_transfer
    begin_stream w =
        if not sink.streams
        then done w
        else on_error (λ e w. (err e, clear_transfer w))
            (call
              (begin w.receiver.leader_term w.receiver.snapshot_index w.receiver.snapshot_term
                w.receiver.configuration w.receiver.snapshot_size)
              w)
          ▸ λ w. done (record w { receiver = record (w.receiver) { stream_started = true } })

    unfoldable pub start : Chunk → Work S → Result (Unit {0}) × Work S
    unfolding clear_transfer adopted reset_digest begin_stream
    start c w =
        if not sink.streams
          && not (c.snapshot_size == 0)
          && (ltb w.receiver.max_buffered_snapshot_bytes c.snapshot_size
              || ltb sink.size_max c.snapshot_size)
        then (err efbig, w)
        else if not sink.streams
            && not (c.snapshot_size == 0)
            && not (sink.malloc_ok c.snapshot_size)
        then (err enomem, w)
        else (let cleared = clear_transfer w in
            reset_digest (record cleared { receiver = adopted c cleared.receiver }) ▸ begin_stream)

    -- The transfer that a chunk belongs to, begun where it is not.
    unfoldable pub open_transfer : Chunk → Work S → Result (Unit {0}) × Work S
    unfolding start identity_matches
    open_transfer c w =
        if not w.receiver.active
        then (if not (c.snapshot_offset == 0) then (err eproto, w) else start c w)
        else if identity_matches w.receiver c
        then done w
        else if not (c.snapshot_offset == 0)
            || leb c.snapshot_index w.receiver.snapshot_index
            || ltb c.term w.receiver.leader_term
        then (err eproto, acked w.receiver.next_offset false w)
        else start c w

    -- A chunk's bytes go into the digest and to the stream or the buffer.
    unfoldable pub absorb : Chunk → Work S → Result (Unit {0}) × Work S
    unfolding call clear_transfer
    absorb c w =
        if length c.bytes == 0
        then done w
        else (let (r, sha) = sink.sha.update c.bytes w.receiver.sha256 in
            on_error (λ e w. (err eproto, clear_transfer w))
              (r, record w { receiver = record (w.receiver) { sha256 = sha } })
            ▸ λ w.
                if w.receiver.stream_started
                then on_error (λ e w. (err e, clear_transfer w))
                    (call (write w.receiver.next_offset c.bytes) w)
                else done (record w {
                  receiver = record (w.receiver) { buffer = w.receiver.buffer ++ c.bytes };
                }))

    unfoldable pub check_digest : Work S → Result (Unit {0}) × Work S
    unfolding clear_transfer bytes_equal
    check_digest w =
        let (r, sha) = sink.sha.finish w.receiver.sha256 in
        let w' : Work S = record w { receiver = record (w.receiver) { sha256 = sha } } in
        elim r [
          | err _ ↦ (err eproto, clear_transfer (acked 0 false w'))
          | ok calculated ↦
              if bytes_equal calculated w'.receiver.digest
              then done w'
              else (err eproto, clear_transfer (acked 0 false w'))
        ]

    -- `commit` of the stream, or `install` of the buffer.
    unfoldable pub hand_over : Work S → Result (Unit {0}) × Work S
    unfolding call clear_transfer
    hand_over w =
        on_error (λ e w. (err e, clear_transfer (acked 0 false w)))
          (call
            (if w.receiver.stream_started
              then commit
              else install w.receiver.leader_term w.receiver.snapshot_index w.receiver.snapshot_term
                  w.receiver.configuration w.receiver.buffer)
            w)

    unfoldable pub finish_transfer : Work S → Result (Unit {0}) × Work S
    unfolding check_digest hand_over
    finish_transfer w = check_digest w ▸ hand_over ▸ λ w. done (record w {
      installed = true;
      receiver = record (w.receiver) { stream_started = false; buffer = []; completed = true };
    })

    unfoldable pub receive : Chunk → Work S → Result (Unit {0}) × Work S
    unfolding absorb finish_transfer
    receive c w =
        if w.receiver.completed || ltb c.snapshot_offset w.receiver.next_offset
        then done (acked w.receiver.next_offset true w)
        else if not (c.snapshot_offset == w.receiver.next_offset)
        then (err eproto, acked w.receiver.next_offset false w)
        else absorb c w ▸ λ w.
            let next = w.receiver.next_offset + length c.bytes in
            let w' : Work S =
              acked next true
                (record w { receiver = record (w.receiver) { next_offset = next } }) in
            if not c.is_done then done w' else finish_transfer w'

    unfoldable pub handle : Chunk → Receiver S → History → Result (Unit {0}) × Work S
    unfolding chunk_valid open_transfer receive prepare_ack
    handle c r history =
        let w : Work S = record {
          receiver = r;
          ack = prepare_ack r c;
          installed = false;
          history = history;
        } in
        if not (chunk_valid r c) then (err eproto, w) else open_transfer c w ▸ receive c

    -- `tr_raft_snapshot_receiver_reset`, and `destroy` before the memory is given back.
    unfoldable pub reset : Receiver S → History → Receiver S × History
    unfolding clear_transfer
    reset r history =
        (no_transfer r, (if r.stream_started then (abort, ok tt) ∷ history else history))
