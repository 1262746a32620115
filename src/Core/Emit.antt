-- ===== src/Core/Emit.antt =====
-- src/core/raft_core.c: the frame of a call, and the messages that it emits. A message is appended
-- whole, with the fields that the code sets behind `tr_emit`.
use turboraft.Prelude.{
  ℕ, ◌+◌, ◌-◌, Bool, true, false, ◌||◌, ◌&&◌, not, List, [], ◌∷◌, ◌++◌, ltb, leb, ◌==◌,
  if◌then◌else◌, length, take, drop,
}
use turboraft.Status.{eproto, enospc, Result, ok, err}
use turboraft.Entry.{Entry}
use turboraft.Membership.Vote.{is_voter}
use turboraft.Log.{Log, last_index, last_term}
use turboraft.Core.{
  Role, follower, pre_candidate, candidate, leader, MessageType, Message, Core, Ready, Call,
  SnapshotRequest, read_index_request,
}
use turboraft.Core.Peers.{membership, peer_id, peer_paused, peer_index_paused}

-- `tr_raft_before_t`
pub record Before : Type 0 where
  pub role : Role
  pub term : ℕ
  pub voted_for : ℕ

unfoldable pub reset_ready : Ready → Ready
reset_ready ready = record {
  message_capacity = ready.message_capacity;
  messages = [];
  hard_state_changed = false;
  term = 0;
  voted_for = 0;
  role_changed = false;
  role = follower;
  log_changed = false;
  log_truncate_from = 0;
  log_entries = [];
  commit_changed = false;
  commit_index = 0;
  committed_entries = [];
  read_states = [];
  snapshot_requests = [];
}

abbrev pub before_of : Core → Before
before_of core = record { role = core.role; term = core.term; voted_for = core.voted_for }

-- `tr_begin`; `before` is `before_of` the core at the start.
unfoldable pub begin : Call → Result (Unit {0}) × Call
unfolding reset_ready
begin call = if call.core.in_call || call.core.ready_outstanding then (err eproto, call) else (
  ok tt,
  record { core = record (call.core) { in_call = true }; ready = reset_ready call.ready },
)

-- A call that returns an error, after the state that it has changed.
unfoldable pub leave : Call → Call
leave call = record { core = record (call.core) { in_call = false }; ready = call.ready }

unfoldable pub leave_empty : Call → Call
unfolding reset_ready
leave_empty call = record {
  core = record (call.core) { in_call = false };
  ready = reset_ready call.ready;
}

unfoldable pub require_capacity : ℕ → Call → Result (Unit {0}) × Call
unfolding leave_empty
require_capacity required call =
    if leb required call.ready.message_capacity
    then (ok tt, call)
    else (err enospc, leave_empty call)

-- `n` entries of the log from an index on.
unfoldable pub entries_from : Log → ℕ → ℕ → List Entry
entries_from log index n = take n (drop (index - log.base_index - 1) log.entries)

abbrev pub same_role : Role → Role → Bool
same_role follower follower = true
same_role pre_candidate pre_candidate = true
same_role candidate candidate = true
same_role leader leader = true
same_role _ _ = false

unfoldable pub finish_apply : Call → Call
unfolding entries_from
finish_apply call =
    if ltb call.core.apply_admitted_index call.core.commit_index
    then record {
      core = record (call.core) { pending_apply_index = call.core.commit_index };
      ready = record (call.ready) {
        committed_entries =
            entries_from call.core.log (call.core.apply_admitted_index + 1)
              (call.core.commit_index - call.core.apply_admitted_index);
      };
    }
    else call

unfoldable pub finish_ready : Before → Core → Ready → Ready
finish_ready before core ready = record ready {
  hard_state_changed = not (before.term == core.term) || not (before.voted_for == core.voted_for);
  term = core.term;
  voted_for = core.voted_for;
  role_changed = not (same_role before.role core.role);
  role = core.role;
}

unfoldable pub has_effects : Ready → Bool
has_effects ready =
    not (length ready.messages == 0)
    || ready.hard_state_changed
    || ready.role_changed
    || ready.log_changed
    || ready.commit_changed
    || not (length ready.committed_entries == 0)
    || not (length ready.read_states == 0)
    || not (length ready.snapshot_requests == 0)

unfoldable pub finish : Before → Call → Call
unfolding finish_apply finish_ready has_effects
finish before call =
    let applied = finish_apply call in
    let ready = finish_ready before applied.core applied.ready in
    record {
      core = record (applied.core) { ready_outstanding = has_effects ready; in_call = false };
      ready = ready;
    }

-- The message that `tr_emit` fills in.
unfoldable pub fresh_message : Core → MessageType → ℕ → Bool → Message
fresh_message core type to granted = record {
  type = type;
  from = core.self_id;
  to = to;
  term = core.term;
  campaign_term = core.campaign_term;
  last_log_index = last_index core.log;
  last_log_term = last_term core.log;
  leader_commit = 0;
  previous_log_index = 0;
  previous_log_term = 0;
  match_index = 0;
  reject_hint = 0;
  entries = [];
  granted = granted;
  context_id = 0;
}

-- `tr_emit`: a message to its receiver, unless that is paused. The code does not test the capacity.
unfoldable pub emit : Core → Message → Ready → Ready
emit core message ready =
    if peer_paused core message.to
    then ready
    else record ready { messages = ready.messages ++ message ∷ [] }

unfoldable pub requested : ℕ → List SnapshotRequest → Bool
requested peer_id [] = false
requested peer_id (r ∷ rs) = if r.peer_id == peer_id then true else requested peer_id rs

unfoldable pub emit_snapshot_request : Core → ℕ → Ready → Ready
unfolding requested
emit_snapshot_request core i ready =
    if peer_index_paused core i
    then ready
    else if requested (peer_id core i) ready.snapshot_requests
    then ready
    else record ready {
      snapshot_requests =
          ready.snapshot_requests
          ++ record {
            peer_id = peer_id core i;
            leader_term = core.term;
            snapshot_index = core.log.base_index;
            snapshot_term = core.log.base_term;
          }
            ∷ [];
    }

-- The loop of `tr_broadcast` and `tr_broadcast_read_index`, over the peers that are left.
unfoldable pub broadcast_to : Core → MessageType → ℕ → List ℕ → Ready → Ready
broadcast_to core type context_id [] ready = ready
broadcast_to core type context_id (id ∷ ids) ready = broadcast_to core type context_id ids (
    if not (id == core.self_id) && is_voter (membership core) id
    then emit core (record (fresh_message core type id false) { context_id = context_id }) ready
    else ready)

unfoldable pub broadcast : MessageType → Call → Call
unfolding broadcast_to
broadcast type call = record call {
  ready = broadcast_to call.core type 0 call.core.peers call.ready;
}

unfoldable pub broadcast_read_index : ℕ → Call → Call
unfolding broadcast_to
broadcast_read_index context_id call = record call {
  ready = broadcast_to call.core read_index_request context_id call.core.peers call.ready;
}
