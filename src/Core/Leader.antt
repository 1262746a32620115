-- ===== src/Core/Leader.antt =====
-- src/core/raft_core.c: the responses that a leader takes, and the requests that it makes of followers
-- besides entries.
pub mod Terms
use turboraft.Prelude.{
  ℕ, zero, suc, ◌+◌, ◌-◌, Bool, true, false, ◌||◌, ◌&&◌, not, Option, none, some, List, [], ◌∷◌,
  ltb, leb, ◌==◌, if◌then◌else◌, length, test_bit, set_bit,
}
use turboraft.Status.{Result, ok, err}
use turboraft.Conf.{u64_max, add64}
use turboraft.Membership.Vote.{is_voter}
use turboraft.Log.{last_index}
use turboraft.Core.{
  MessageType, append_response, timeout_now, read_index_response, leader, follower, Message, Core,
  Ready, Call, AppendWindow, update,
}
use turboraft.Core.Window.{reset, at, find, release_through}
use turboraft.Core.Peers.{
  membership, peer_paused, core_has_quorum, leads, unpaused_remote_voter_count,
}
use turboraft.Core.Emit.{fresh_message, emit, same_role}
use turboraft.Core.Replicate.{fill_peer_replication_window}
use turboraft.Core.Reads.{read_emit_active, read_move_waiting_to_active, read_start_active_barrier}
use turboraft.Core.Election.{become_follower, start_election}
use turboraft.Calls.{◌▸◌, done}
use turboraft.Core.Commit.{update_commit}

abbrev pub is_append_response : MessageType → Bool
is_append_response append_response = true
is_append_response _ = false

-- The request in flight that an append response answers.
abbrev pub answered : Message → AppendWindow → Option ℕ
answered response window =
    if is_append_response response.type then find window response.previous_log_index else none

abbrev pub is_none : Option ℕ → Bool
is_none none = true
is_none (some _) = false

abbrev pub mismatch : Message → AppendWindow → Option ℕ → Bool
mismatch response window none = true
mismatch response window (some k) =
    response.granted && not (response.match_index == (at window k).last_index)

-- Whether the response is dropped before it changes the leader's progress.
unfoldable pub ignores : Core → Message → ℕ → Bool
ignores core response i =
    not (leads core.role)
    || not (response.term == core.term)
    || (response.granted && ltb (last_index core.log) response.match_index)
    || (is_append_response response.type
        && mismatch response (core.append_windows i)
            (find (core.append_windows i) response.previous_log_index))

unfoldable pub note_active : Message → ℕ → Core → Core
note_active response i core =
    if is_voter (membership core) response.from
    then record core { recent_active = set_bit core.recent_active i }
    else core

unfoldable pub advance_match : Message → ℕ → Core → Core
advance_match response i core = record core {
  match_index = update core.match_index i response.match_index;
  next_index =
      (if ltb (core.next_index i) (add64 response.match_index 1)
        then update core.next_index i (add64 response.match_index 1)
        else core.next_index);
}

unfoldable pub release_window : Message → ℕ → Core → Core
release_window response i core = record core {
  append_windows =
      update core.append_windows i
        (record (release_through (core.append_windows i) response.match_index) { probe = false });
}

unfoldable pub take_grant : Message → ℕ → Call → Result (Unit {0}) × Call
unfolding release_window advance_match
take_grant response i call =
    let released = release_window response i call.core in
    if ltb (released.match_index i) response.match_index
    then update_commit (record call { core = advance_match response i released })
    else (ok tt, record call { core = released })

abbrev pub probe_from : Core → ℕ → Option ℕ → ℕ
probe_from core i none =
    if ltb (add64 core.log.base_index 1) (core.next_index i)
    then core.next_index i - 1
    else core.next_index i
probe_from core i (some k) = (at (core.append_windows i) k).previous_index

abbrev pub hinted : Message → ℕ → ℕ
hinted response next =
    if not (response.reject_hint == 0) && ltb response.reject_hint next
    then response.reject_hint
    else next

unfoldable pub take_rejection : Message → ℕ → Core → Core
take_rejection response i core =
    let next = hinted response (probe_from core i (answered response (core.append_windows i))) in
    record core {
      next_index =
          update core.next_index i (
            if ltb next (add64 (core.match_index i) 1) then add64 (core.match_index i) 1 else next);
      append_windows = update core.append_windows i (reset true);
    }

abbrev pub transfer_due : Core → Message → ℕ → ℕ → Bool
transfer_due core response i last =
    response.granted
    && not core.leadership_transfer_sent
    && core.leadership_transfer_target == response.from
    && leb last (core.match_index i)

-- `leadership_transfer_sent` is what `tr_emit` returns.
unfoldable pub send_timeout_now : ℕ → Call → Call
send_timeout_now node_id call = record {
  core = record (call.core) { leadership_transfer_sent = not (peer_paused call.core node_id) };
  ready = emit call.core (fresh_message call.core timeout_now node_id false) call.ready;
}

-- The end of `tr_step_heartbeat_response`; `last` is the last index at its start.
unfoldable pub go_on : Message → ℕ → ℕ → Call → Call
unfolding send_timeout_now
go_on response i last call =
    if transfer_due call.core response i last
    then send_timeout_now response.from call
    else if leb (call.core.next_index i) last || not response.granted
    then fill_peer_replication_window i call
    else call

unfoldable pub step_heartbeat_response : Message → ℕ → Call → Result (Unit {0}) × Call
unfolding ignores note_active take_grant take_rejection go_on
step_heartbeat_response response i call =
    let active = record call { core = note_active response i call.core } in
    if ltb call.core.term response.term
    then (ok tt, record call { core = become_follower response.term call.core })
    else if ignores call.core response i
    then (ok tt, call)
    else (if response.granted
        then take_grant response i active
        else done (record active { core = take_rejection response i active.core }))
      ▸ λ taken. done (go_on response i (last_index call.core.log) taken)

unfoldable pub step_timeout_now : Message → Call → Call
step_timeout_now request call =
    let core = call.core in
    if not core.self_is_voter
      || not (same_role core.role follower)
      || not (request.term == core.term)
      || not (core.leader_id == request.from)
      || core.term == u64_max
    then call
    else start_election (record call {
      core = record core { campaign_term = add64 core.term 1; election_elapsed_ticks = 0 };
    })

unfoldable pub answers_read : Core → Message → Bool
answers_read core request =
    core.self_is_voter
    && not (request.context_id == 0)
    && same_role core.role follower
    && request.term == core.term
    && core.leader_id == request.from

unfoldable pub step_read_index_request : Message → Call → Call
unfolding answers_read
step_read_index_request request call =
    if not (answers_read call.core request) then call else record call {
      ready =
          emit call.core
            (record (fresh_message call.core read_index_response request.from false) {
              context_id = request.context_id;
            })
            call.ready;
    }

-- The next barrier starts where the messages that are left hold it. `required` was counted before.
unfoldable pub next_barrier : ℕ → Call → Call
next_barrier required call =
    if not (length call.core.waiting_reads == 0)
      && leb required (call.ready.message_capacity - length call.ready.messages)
    then read_start_active_barrier (record call { core = read_move_waiting_to_active call.core })
    else call

unfoldable pub step_read_index_response : Message → ℕ → Call → Call
unfolding next_barrier
step_read_index_response response i call =
    let core = call.core in
    let counted = record core { pending_read_acks = set_bit core.pending_read_acks i } in
    if ltb core.term response.term
    then record call { core = become_follower response.term core }
    else if not (leads core.role)
        || not (response.term == core.term)
        || response.context_id == 0
        || not (response.context_id == core.pending_read_context_id)
        || length core.pending_reads == 0
        || test_bit core.pending_read_acks i
    then call
    else if core_has_quorum counted counted.pending_read_acks
    then next_barrier (unpaused_remote_voter_count counted)
        (read_emit_active (record call { core = counted }))
    else record call { core = counted }
