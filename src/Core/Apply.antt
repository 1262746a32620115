-- ===== src/Core/Apply.antt =====
-- src/core/raft_core.c: the host's acknowledgements, snapshots, and the pausing of a peer.
pub mod Order
use turboraft.Prelude.{
  ℕ, ◌+◌, ◌-◌, Bool, true, false, ◌||◌, ◌&&◌, not, Option, none, some, ltb, leb, ◌==◌,
  if◌then◌else◌, set_bit, clear_bit,
}
use turboraft.Status.{Error, einval, eproto, ebusy, enoent, ealready, Result, ok, err, ◌>>=◌}
use turboraft.Conf.{Conf, u64_max, add64}
use turboraft.Transition.{membership_equal}
use turboraft.Vec.{Vec}
use turboraft.Log.{get, compact}
use turboraft.Core.{Core, Call, update}
use turboraft.Core.Window.{reset}
use turboraft.Core.Peers.{membership, peer_index, peer_index_paused, leads}
use turboraft.Core.Emit.{before_of, begin, leave, require_capacity, finish}
use turboraft.Core.Replicate.{fill_peer_replication_window}
use turboraft.Calls.{◌▸◌, done}

-- The entries that wait for admission.
abbrev pub pending_count : Core → ℕ
pending_count core =
    if core.pending_apply_index == 0
    then 0
    else core.pending_apply_index - core.apply_admitted_index

unfoldable pub ack_ready : ℕ → Core → Result Core
ack_ready admitted_entry_count core =
    if core.in_call || not core.ready_outstanding
    then err eproto
    else if not (core.pending_apply_index == 0)
        && ltb core.pending_apply_index core.apply_admitted_index
    then err eproto
    else if ltb (pending_count core) admitted_entry_count
    then err einval
    else ok (record core {
      apply_admitted_index = add64 core.apply_admitted_index admitted_entry_count;
      pending_apply_index = 0;
      ready_outstanding = false;
    })

unfoldable pub ack_applied : ℕ → Core → Result Core
ack_applied index core =
    if index == 0
    then err einval
    else if core.in_call
    then err eproto
    else if leb index core.applied_index
    then err ealready
    else if core.applied_index == u64_max || not (index == add64 core.applied_index 1)
    then err eproto
    else if ltb core.apply_admitted_index index
    then err ebusy
    else ok (record core { applied_index = index })

unfoldable pub advance : Core → Result Core
advance core =
    if core.in_call || not core.ready_outstanding
    then err eproto
    else if not (core.pending_apply_index == 0)
    then (if not (core.apply_admitted_index == core.applied_index)
          || ltb core.pending_apply_index core.apply_admitted_index
        then err ebusy
        else ok (record core {
          apply_admitted_index = core.pending_apply_index;
          applied_index = core.pending_apply_index;
          pending_apply_index = 0;
          ready_outstanding = false;
        }))
    else ok (record core { ready_outstanding = false })

-- `tr_raft_snapshot_point_t`
pub record SnapshotPoint : Type 0 where
  pub index : ℕ
  pub term : ℕ
  pub configuration : Conf

unfoldable pub snapshot_point : Core → Result SnapshotPoint
snapshot_point core =
    if core.in_call || core.ready_outstanding || not (core.applied_index == core.commit_index)
    then err ebusy
    else if leb core.applied_index core.log.base_index
    then err enoent
    else elim (get core.log core.applied_index) [
      | none ↦ err eproto
      | some entry ↦ ok (record {
        index = core.applied_index;
        term = entry.term;
        configuration = membership core;
      })
    ]

-- `tr_snapshot_configuration_equal` is `membership_equal` once more.
unfoldable pub compact_core : Vec → SnapshotPoint → Core → Result (Unit {0}) × Core
compact_core v point core = elim (snapshot_point core) [
  | err e ↦ (err e, core)
  | ok current ↦
      if not (point.index == current.index)
        || not (point.term == current.term)
        || not (membership_equal point.configuration current.configuration)
      then (err eproto, core)
      else (let (status, log) = compact v core.log point.index point.term in
          (status, record core { log = log }))
]

unfoldable pub installed : ℕ → ℕ → Core → Core
installed i snapshot_index core = record core {
  match_index =
      (if ltb (core.match_index i) snapshot_index
        then update core.match_index i snapshot_index
        else core.match_index);
  next_index = update core.next_index i (add64 snapshot_index 1);
  append_windows = update core.append_windows i (reset true);
}

unfoldable pub complete_snapshot : ℕ → ℕ → Call → Result (Unit {0}) × Call
unfolding installed
complete_snapshot i snapshot_index call = begin call ▸ λ begun.
    if not (leads begun.core.role)
    then (err ebusy, leave begun)
    else require_capacity (if peer_index_paused begun.core i then 0 else 1) begun ▸ λ roomy. done (
        finish (before_of call.core) (
          fill_peer_replication_window i
            (record roomy { core = installed i snapshot_index roomy.core })))

unfoldable pub snapshot_completed : ℕ → ℕ → Call → Result (Unit {0}) × Call
unfolding complete_snapshot
snapshot_completed peer_id snapshot_index call =
    if peer_id == 0 || peer_id == call.core.self_id || snapshot_index == 0
    then (err einval, call)
    else elim (peer_index call.core peer_id) [
      | none ↦ (err einval, call)
      | some i ↦
          if ltb call.core.log.base_index snapshot_index
          then (err einval, call)
          else complete_snapshot i snapshot_index call
    ]

unfoldable pub set_peer_paused : ℕ → Bool → Core → Result Core
set_peer_paused peer_id paused core =
    if peer_id == 0 || peer_id == core.self_id
    then err einval
    else if core.in_call
    then err ebusy
    else elim (peer_index core peer_id) [
      | none ↦ err enoent
      | some i ↦ ok (record core {
        paused_peers =
            (if paused then set_bit core.paused_peers i else clear_bit core.paused_peers i);
      })
    ]

unfoldable pub peer_paused_state : ℕ → Core → Result Bool
peer_paused_state peer_id core =
    if peer_id == 0 || peer_id == core.self_id then err einval else elim (peer_index core peer_id) [
      | none ↦ err enoent
      | some i ↦ ok (peer_index_paused core i)
    ]
