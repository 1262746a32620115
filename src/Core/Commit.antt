-- ===== src/Core/Commit.antt =====
-- src/core/raft_core.c: a leader commits what a quorum has, and appends a configuration.
pub mod Rule
pub mod Reached
use turboraft.Prelude.{
  ℕ, zero, suc, ◌+◌, ◌-◌, Bool, true, false, ◌||◌, ◌&&◌, not, List, [], ◌∷◌, ltb, leb, ◌==◌,
  if◌then◌else◌, length,
}
use turboraft.Calls.{◌▸◌, done}
use turboraft.Status.{Error, Result, ok, err}
use turboraft.Conf.{Conf, add64}
use turboraft.Entry.{Entry}
use turboraft.Transition.{Transition, commit_limit, apply, stage}
use turboraft.Vec.{Vec}
use turboraft.Log.{Log, last_index, get}
use turboraft.Log.Append.{append_configuration}
use turboraft.Log.Reconcile.{term_of}
use turboraft.PeerSet.{PeerSet}
use turboraft.Core.{Core, Ready, Call, update}
use turboraft.Core.Peers.{
  build_peer_set, refresh_peers, core_match_quorum, peer_index, known,
  peer_set_unpaused_remote_count,
}
use turboraft.Core.Emit.{require_capacity}
use turboraft.Core.Replicate.{broadcast_replication}
use turboraft.Core.Sync.{sync_membership}

-- The loop of `tr_update_commit`: the index that is committed, or the commit index where there is
-- none. The distance from the commit index is the fuel.
unfoldable pub commit_search : ℕ → Core → ℕ → ℕ
commit_search zero core candidate = core.commit_index
commit_search (suc fuel) core candidate =
    let rest = commit_search fuel core (candidate - 1) in
    if leb candidate core.commit_index
    then core.commit_index
    else if not (term_of (get core.log candidate) == core.term)
    then rest
    else if core_match_quorum core candidate
    then candidate
    else rest

unfoldable pub commit_target : Core → ℕ
unfolding commit_search
commit_target core =
    let candidate = commit_limit core.membership_transition (last_index core.log) in
    commit_search (candidate - core.commit_index) core candidate

unfoldable pub committed_to : ℕ → Core → Core
committed_to index core = record core {
  commit_index = index;
  membership_transition = apply core.membership_transition index;
}

unfoldable pub update_commit : Call → Result (Unit {0}) × Call
unfolding commit_target committed_to
update_commit call =
    let target = commit_target call.core in
    let committed = committed_to target call.core in
    if target == call.core.commit_index then (ok tt, call) else elim (sync_membership committed) [
      | err e ↦ (err e, record call { core = committed })
      | ok core ↦ (
        ok tt,
        record {
          core = core;
          ready = record (call.ready) { commit_changed = true; commit_index = target };
        },
      )
    ]

-- This node's own progress, and the entries that the call reports.
unfoldable pub appended : ℕ → ℕ → List Entry → Call → Call
appended self_index index entries call = record {
  core = record (call.core) {
    match_index = update call.core.match_index self_index index;
    next_index = update call.core.next_index self_index (add64 index 1);
  };
  ready = record (call.ready) { log_changed = true; log_entries = entries };
}

unfoldable pub core_append_configuration : Vec → Conf → Call → Result (Unit {0}) × Call
unfolding appended
core_append_configuration v configuration call =
    elim (stage call.core.membership_transition configuration
      (add64 (last_index call.core.log) 1)) [
        | err e ↦ (err e, call)
        | ok staged ↦ elim (build_peer_set staged) [
          | err e ↦ (err e, call)
          | ok peers ↦
              require_capacity (peer_set_unpaused_remote_count call.core peers) call ▸ λ call'.
              elim (append_configuration v call'.core.log call'.core.term configuration) [
                | err e ↦ (err e, call')
                | ok (entry, log) ↦
                    let core =
                      refresh_peers
                        (record (call'.core) { log = log; membership_transition = staged }) peers in
                    update_commit (
                      appended (known (peer_index core core.self_id)) entry.index (entry ∷ [])
                        (record call' { core = core }))
                    ▸ λ committed. done (broadcast_replication committed)
              ]
        ]
      ]
