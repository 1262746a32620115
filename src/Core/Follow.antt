-- ===== src/Core/Follow.antt =====
-- src/core/raft_core.c: a heartbeat or append request from a leader.
pub mod Commits
pub mod Terms
use turboraft.Prelude.{
  ℕ, ◌+◌, ◌-◌, Bool, true, false, ◌||◌, ◌&&◌, not, List, [], ◌∷◌, ltb, leb, ◌==◌, if◌then◌else◌,
  length,
}
use turboraft.Status.{Error, eproto, crashed, Result, ok, err}
use turboraft.Conf.{add64}
use turboraft.Entry.{Entry}
use turboraft.Transition.{Transition, commit_limit, apply}
use turboraft.Vec.{Vec}
use turboraft.Log.{Log, last_index, log_matches}
use turboraft.Log.Reconcile.{Reconciled, Outcome, undefined, returns, reconcile}
use turboraft.Core.{
  MessageType, append_request, append_response, heartbeat_response, Message, Core, Ready, Call,
}
use turboraft.Core.Peers.{build_peer_set, refresh_peers}
use turboraft.Core.Emit.{fresh_message, emit, entries_from}
use turboraft.Core.Election.{become_follower}
use turboraft.Core.Sync.{sync_membership, rebuild_pending_transition}

abbrev pub response_type : MessageType → MessageType
response_type append_request = append_response
response_type _ = heartbeat_response

-- A request of an older term.
unfoldable pub refuse_stale : Message → Call → Call
refuse_stale request call = record call {
  ready =
      emit call.core
        (record (fresh_message call.core (response_type request.type) request.from false) {
          reject_hint = add64 (last_index call.core.log) 1;
        })
        call.ready;
}

-- The core behind the log's update.
unfoldable pub follow_leader : Message → Log → Core → Core
follow_leader request log core = record (become_follower request.term (record core { log = log })) {
  leader_id = request.from;
  election_elapsed_ticks = 0;
}

unfoldable pub adopt_transition : Bool → Transition → Core → Result Core
adopt_transition false rebuilt core = ok core
adopt_transition true rebuilt core =
    let adopted = record core { membership_transition = rebuilt } in
    elim (build_peer_set rebuilt) [
      | err _ ↦ err eproto
      | ok peers ↦ ok (refresh_peers adopted peers)
    ]

-- The commit index that a matched request moves the core to.
unfoldable pub commit_candidate : Message → Core → ℕ
commit_candidate request core =
    if ltb request.leader_commit (last_index core.log)
    then request.leader_commit
    else last_index core.log

unfoldable pub committing : Message → Core → Core
unfolding commit_candidate
committing request core =
    let commit = commit_limit core.membership_transition (commit_candidate request core) in
    record core {
      commit_index = commit;
      membership_transition = apply core.membership_transition commit;
    }

unfoldable pub advance_commit : Bool → Message → Core → Result Core
unfolding committing
advance_commit matched request core =
    if matched && ltb core.commit_index request.leader_commit
    then sync_membership (committing request core)
    else ok core

unfoldable pub report_log : Reconciled → Core → Ready → Ready
report_log r core ready =
    if r.changed
    then record ready {
      log_changed = true;
      log_truncate_from = r.truncate_from;
      log_entries = entries_from core.log r.append_from r.append_count;
    }
    else ready

unfoldable pub report_commit : ℕ → Core → Ready → Ready
report_commit old_commit core ready =
    if not (core.commit_index == old_commit)
    then record ready { commit_changed = true; commit_index = core.commit_index }
    else ready

unfoldable pub answer : Message → Reconciled → Core → Message
answer request r core =
    record (fresh_message core (response_type request.type) request.from r.matched) {
      match_index =
          (if r.matched then add64 request.previous_log_index (length request.entries) else 0);
      reject_hint = r.hint;
      previous_log_index = request.previous_log_index;
    }

unfoldable pub report : Message → Reconciled → ℕ → Core → Ready → Ready
unfolding report_log report_commit answer
report request r old_commit core ready =
    emit core (answer request r core) (report_commit old_commit core (report_log r core ready))

-- What follows a reconciliation that returns SALTS_OK: an error keeps what has been changed so far.
unfoldable pub accept_log :
    Message → Transition → Reconciled → Log → Call → Result (Unit {0}) × Call
unfolding follow_leader adopt_transition report
accept_log request rebuilt r log call =
    let followed = follow_leader request log call.core in
    elim (adopt_transition r.matched rebuilt followed) [
      | err e ↦ (err e, record call { core = record followed { membership_transition = rebuilt } })
      | ok adopted ↦ elim (advance_commit r.matched request adopted) [
        | err e ↦ (err e, record call { core = committing request adopted })
        | ok core ↦ (
          ok tt,
          record { core = core; ready = report request r call.core.commit_index core call.ready },
        )
      ]
    ]

unfoldable pub rebuilt_transition : Message → Core → Result Transition
rebuilt_transition request core =
    if log_matches core.log request.previous_log_index request.previous_log_term
    then rebuild_pending_transition core request.previous_log_index request.entries
    else ok core.membership_transition

unfoldable pub step_heartbeat_request : Vec → Message → Call → Result (Unit {0}) × Call
unfolding refuse_stale rebuilt_transition accept_log
step_heartbeat_request v request call =
    if ltb request.term call.core.term
    then (ok tt, refuse_stale request call)
    else elim (rebuilt_transition request call.core) [
      | err e ↦ (err e, call)
      | ok rebuilt ↦
          elim (reconcile v call.core.log request.previous_log_index request.previous_log_term
            request.entries call.core.commit_index) [
              | undefined ↦ (err crashed, call)
              | returns (err e) ↦ (err e, call)
              | returns (ok (r, log)) ↦ accept_log request rebuilt r log call
            ]
    ]
