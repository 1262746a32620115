-- ===== src/Core/Inspect.antt =====
-- src/core/raft_core.c: what a host can ask of a core without changing it.
use turboraft.Prelude.{
  ℕ, zero, suc, ◌+◌, Bool, ◌||◌, ◌&&◌, not, none, some, List, [], ◌∷◌, ltb, leb, ◌==◌,
  if◌then◌else◌, test_bit, length,
}
use turboraft.Status.{einval, eproto, Result, ok, err}
use turboraft.Conf.{Conf, joint_phase}
use turboraft.Log.{last_index, last_term, get}
use turboraft.Core.{Core}
use turboraft.Core.Window.{oldest_elapsed}
use turboraft.Core.Peers.{membership, peer_count, peer_id, leads, voter_count_of, learner_count_of}
use turboraft.Core.Reads.{read_total_count}

-- `tr_raft_operation_state_t`
pub data OperationState : Type 0 where
  pending committed applied lost expired : OperationState

pub record OperationStatus : Type 0 where
  pub state : OperationState
  pub term : ℕ
  pub index : ℕ
  pub commit_index : ℕ
  pub applied_index : ℕ

abbrev pub status_of : Core → ℕ → ℕ → OperationState → OperationStatus
status_of core term index state = record {
  state = state;
  term = term;
  index = index;
  commit_index = core.commit_index;
  applied_index = core.applied_index;
}

-- The state of an entry that the log holds with the term asked for.
unfoldable pub progress_state : Core → ℕ → OperationState
progress_state core index =
    if leb index core.applied_index
    then applied
    else if leb index core.commit_index
    then committed
    else pending

unfoldable pub operation_status : Core → ℕ → ℕ → Result OperationStatus
unfolding progress_state
operation_status core term index =
    if term == 0 || index == 0
    then err einval
    else if ltb index core.log.base_index
    then ok (status_of core term index expired)
    else if index == core.log.base_index
    then ok (status_of core term index (if term == core.log.base_term then applied else lost))
    else if ltb (last_index core.log) index
    then (if ltb core.term term then err einval else ok (status_of core term index lost))
    else elim (get core.log index) [
      | none ↦ err eproto
      | some entry ↦
          if not (entry.term == term)
          then ok (status_of core term index lost)
          else ok (status_of core term index (progress_state core index))
    ]

-- `tr_raft_peer_progress_t`
pub record PeerProgress : Type 0 where
  pub node_id : ℕ
  pub match_index : ℕ
  pub next_index : ℕ
  pub append_inflight_elapsed_ticks : ℕ
  pub inflight_append_count : ℕ
  pub max_inflight_append_requests : ℕ
  pub recent_active : Bool
  pub append_inflight : Bool
  pub append_probe : Bool
  pub snapshot_required : Bool

unfoldable pub needs_snapshot : Core → ℕ → Bool
needs_snapshot core i =
    leads core.role
    && not (peer_id core i == core.self_id)
    && leb (core.next_index i) core.log.base_index

-- The loop of `tr_raft_core_progress`, over the `n` peers from `i` on.
unfoldable pub progress_from : ℕ → ℕ → Core → List PeerProgress
unfolding needs_snapshot
progress_from zero i core = []
progress_from (suc n) i core =
    record {
      node_id = peer_id core i;
      match_index = core.match_index i;
      next_index = core.next_index i;
      append_inflight_elapsed_ticks = oldest_elapsed (core.append_windows i);
      inflight_append_count = (core.append_windows i).count;
      max_inflight_append_requests = core.max_inflight_append_requests;
      recent_active = (peer_id core i == core.self_id) || test_bit core.recent_active i;
      append_inflight = not ((core.append_windows i).count == 0);
      append_probe = (core.append_windows i).probe;
      snapshot_required = needs_snapshot core i;
    }
    ∷ progress_from n (i + 1) core

unfoldable pub progress : Core → List PeerProgress
unfolding progress_from
progress core = progress_from (peer_count core) 0 core

-- `tr_raft_core_configuration`
unfoldable pub configuration : Core → Conf
configuration core = membership core

unfoldable pub inflight_total : ℕ → ℕ → Core → ℕ
inflight_total zero i core = 0
inflight_total (suc n) i core = (core.append_windows i).count + inflight_total n (i + 1) core

unfoldable pub snapshots_required : ℕ → ℕ → Core → ℕ
snapshots_required zero i core = 0
snapshots_required (suc n) i core =
    (if needs_snapshot core i then 1 else 0) + snapshots_required n (i + 1) core

-- `tr_raft_status_t`, the fields that are computed; the others repeat fields of the core.
pub record CoreStatus : Type 0 where
  pub last_log_index : ℕ
  pub last_log_term : ℕ
  pub log_entry_count : ℕ
  pub pending_read_count : ℕ
  pub inflight_append_count : ℕ
  pub voter_count : ℕ
  pub learner_count : ℕ
  pub joint_configuration : Bool
  pub pending_configuration_count : ℕ
  pub snapshot_required_peer_count : ℕ

unfoldable pub core_status : Core → CoreStatus
unfolding inflight_total snapshots_required
core_status core = record {
  last_log_index = last_index core.log;
  last_log_term = last_term core.log;
  log_entry_count = length core.log.entries;
  pending_read_count = read_total_count core;
  inflight_append_count = inflight_total (peer_count core) 0 core;
  voter_count = voter_count_of (membership core) (membership core).members;
  learner_count = learner_count_of (membership core).members;
  joint_configuration = (membership core).phase == joint_phase;
  pending_configuration_count = length core.membership_transition.pending;
  snapshot_required_peer_count = snapshots_required (peer_count core) 0 core;
}
