-- ===== src/Core/Step.antt =====
-- src/core/raft_core.c: `tr_raft_core_step`, a message from a peer.
pub mod Terms
use turboraft.Prelude.{
  ℕ, zero, suc, ◌+◌, Bool, true, false, ◌||◌, ◌&&◌, not, Option, none, some, ltb, leb, ◌==◌,
  if◌then◌else◌, length,
}
use turboraft.Status.{Error, einval, Result, ok, err}
use turboraft.Conf.{u64_max}
use turboraft.Log.{last_index}
use turboraft.Vec.{Vec}
use turboraft.Core.{
  MessageType, pre_vote_request, pre_vote_response, vote_request, vote_response, heartbeat_request,
  heartbeat_response, append_request, append_response, timeout_now, read_index_request,
  read_index_response, unknown_type, follower, Message, Core, Ready, Call, max_append_entries,
}
use turboraft.Core.Peers.{
  peer_index, voter_index, known, peer_paused, leads, unpaused_remote_peer_count,
  unpaused_remote_voter_count,
}
use turboraft.Core.Emit.{
  Before, before_of, begin, leave, leave_empty, require_capacity, finish, same_role,
}
use turboraft.Core.Election.{
  will_pre_vote_win, will_vote_win, step_pre_vote_request, step_pre_vote_response,
  step_vote_request, step_vote_response,
}
use turboraft.Core.Follow.{step_heartbeat_request}
use turboraft.Calls.{◌▸◌, done}
use turboraft.Core.Leader.{
  step_heartbeat_response, step_timeout_now, answers_read, step_read_index_request,
  step_read_index_response,
}

abbrev pub is_progress_response : MessageType → Bool
is_progress_response heartbeat_response = true
is_progress_response append_response = true
is_progress_response _ = false

abbrev pub one_unless_paused : Core → ℕ → ℕ
one_unless_paused core node_id = if peer_paused core node_id then 0 else 1

-- The first `switch`: the messages that the step may need, for the voter index `i`.
unfoldable pub required_for : MessageType → Core → Message → ℕ → ℕ
required_for pre_vote_request core m i = one_unless_paused core m.from
required_for vote_request core m i = one_unless_paused core m.from
required_for heartbeat_request core m i = one_unless_paused core m.from
required_for append_request core m i = one_unless_paused core m.from
required_for pre_vote_response core m i =
    if will_pre_vote_win core m i then unpaused_remote_peer_count core else 0
required_for vote_response core m i =
    if will_vote_win core m i then unpaused_remote_peer_count core else 0
required_for heartbeat_response core m i =
    if leads core.role
      && m.term == core.term
      && m.granted
      && not core.leadership_transfer_sent
      && core.leadership_transfer_target == m.from
      && m.match_index == last_index core.log
    then 1
    else 0
required_for append_response core m i =
    if leads core.role
      && m.term == core.term
      && m.granted
      && not core.leadership_transfer_sent
      && core.leadership_transfer_target == m.from
      && m.match_index == last_index core.log
    then 1
    else 0
required_for timeout_now core m i =
    if core.self_is_voter
      && same_role core.role follower
      && m.term == core.term
      && core.leader_id == m.from
      && not (core.term == u64_max)
    then unpaused_remote_voter_count core
    else 0
required_for read_index_request core m i =
    if answers_read core m then one_unless_paused core m.from else 0
required_for read_index_response core m i = 0
required_for (unknown_type n) core m i = 0

-- The `default` of the first `switch`.
abbrev pub is_known : MessageType → Bool
is_known (unknown_type n) = false
is_known _ = true

-- An error of a handler that resets what is reported.
abbrev pub or_leave_empty : Result (Unit {0}) × Call → Result (Unit {0}) × Call
or_leave_empty (ok _, call) = (ok tt, call)
or_leave_empty (err e, call) = (err e, leave_empty call)

unfoldable pub take_entries : Vec → Bool → Message → Call → Result (Unit {0}) × Call
take_entries v is_heartbeat m call =
    if ltb max_append_entries (length m.entries) || (is_heartbeat && not (length m.entries == 0))
    then (err einval, leave call)
    else or_leave_empty (step_heartbeat_request v m call)

-- The second `switch`.
unfoldable pub handle : Vec → MessageType → Message → ℕ → ℕ → Call → Result (Unit {0}) × Call
unfolding take_entries
handle v pre_vote_request m peer voter call = done (step_pre_vote_request m call)
handle v pre_vote_response m peer voter call = done (step_pre_vote_response m voter call)
handle v vote_request m peer voter call = done (step_vote_request m call)
handle v vote_response m peer voter call = done (step_vote_response m voter call)
handle v heartbeat_request m peer voter call = take_entries v true m call
handle v append_request m peer voter call = take_entries v false m call
handle v heartbeat_response m peer voter call = or_leave_empty (step_heartbeat_response m peer call)
handle v append_response m peer voter call = or_leave_empty (step_heartbeat_response m peer call)
handle v timeout_now m peer voter call = done (step_timeout_now m call)
handle v read_index_request m peer voter call = done (step_read_index_request m call)
handle v read_index_response m peer voter call = done (step_read_index_response m voter call)
handle v (unknown_type n) m peer voter call = (err einval, leave call)

-- The step of an admitted message.
unfoldable pub admitted : Vec → Message → ℕ → ℕ → Call → Result (Unit {0}) × Call
unfolding handle required_for
admitted v m peer voter call = begin call ▸ λ begun.
    (if is_known m.type then done begun else (err einval, leave begun)) ▸ λ begun.
    require_capacity (required_for m.type begun.core m voter) begun ▸ λ ready.
    handle v m.type m peer voter ready ▸ λ handled. done (finish (before_of call.core) handled)

unfoldable pub step : Vec → Message → Call → Result (Unit {0}) × Call
unfolding admitted
step v m call =
    if not (m.to == call.core.self_id) || m.from == call.core.self_id
    then (err einval, call)
    else elim (peer_index call.core m.from) [
      | none ↦ (err einval, call)
      | some peer ↦ elim (voter_index call.core m.from) [
        | none ↦
            if not (is_progress_response m.type)
            then (err einval, call)
            else admitted v m peer 0 call
        | some voter ↦ admitted v m peer voter call
      ]
    ]
