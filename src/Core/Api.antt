-- ===== src/Core/Api.antt =====
-- src/core/raft_core.c: the requests of the host: proposals, membership changes, leadership transfer
-- and reads.
use turboraft.Prelude.{
  ℕ, Bool, false, ◌||◌, ◌&&◌, not, none, some, List, [], ◌∷◌, ◌++◌, ltb, leb, ◌==◌, if◌then◌else◌,
  length,
}
use turboraft.Status.{einval, eproto, ebusy, enospc, eperm, ealready, Result, ok, err}
use turboraft.Entry.{Entry}
use turboraft.Transition.{propose}
use turboraft.Vec.{Vec}
use turboraft.Log.{Log, last_index, get}
use turboraft.Log.Append.{
  Proposal, max_proposal_batch, proposals_valid, append_local_batch, last_entry_index,
}
use turboraft.Core.{Core, Call}
use turboraft.Core.Peers.{
  peer_index_paused, voter_index, known, leads, unpaused_remote_peer_count,
  unpaused_remote_voter_count,
}
use turboraft.Core.Emit.{before_of, begin, leave, leave_empty, require_capacity, finish}
use turboraft.Core.Replicate.{broadcast_replication, emit_replication, fill_replication_windows}
use turboraft.Core.Reads.{
  read_total_count, read_context_exists, read_move_waiting_to_active, read_start_active_barrier,
}
use turboraft.Calls.{◌▸◌, done}
use turboraft.Core.Commit.{appended, update_commit, core_append_configuration}
use turboraft.Core.Leader.{send_timeout_now}
use turboraft.Core.Step.{or_leave_empty}

-- The batch is in the log: it is replicated, and committed where this node is the quorum.
unfoldable pub replicate : List Entry → Log → Call → Result (Unit {0}) × Call
replicate entries log call =
    or_leave_empty (
      update_commit (
        appended (known (voter_index call.core call.core.self_id)) (last_entry_index 0 entries)
          entries (record call { core = record (call.core) { log = log } })))
    ▸ λ committed. done (broadcast_replication committed)

unfoldable pub append_batch : Vec → List Proposal → Call → Result (Unit {0}) × Call
unfolding replicate
append_batch v proposals call = elim (append_local_batch v call.core.log call.core.term proposals) [
  | err e ↦ (err e, leave_empty call)
  | ok (entries, log) ↦ replicate entries log call
]

unfoldable pub propose_batch : Vec → List Proposal → Call → Result (Unit {0}) × Call
unfolding append_batch
propose_batch v proposals call =
    if length proposals == 0
      || ltb max_proposal_batch (length proposals)
      || not (proposals_valid proposals)
    then (err einval, call)
    else begin call ▸ λ begun.
        if not (leads begun.core.role)
        then (err eproto, leave begun)
        else if not (begun.core.leadership_transfer_target == 0)
        then (err ebusy, leave begun)
        else require_capacity (unpaused_remote_peer_count begun.core) begun ▸ λ roomy.
            append_batch v proposals roomy ▸ λ replicated.
            done (finish (before_of call.core) replicated)

-- `tr_raft_core_propose`
unfoldable pub propose_one : Vec → Proposal → Call → Result (Unit {0}) × Call
propose_one v proposal call = propose_batch v (proposal ∷ []) call

-- `tr_raft_membership_change_t`
pub record MembershipChange : Type 0 where
  pub transition_id : ℕ
  pub voters : List ℕ
  pub learners : List ℕ

unfoldable pub append_change : Vec → MembershipChange → Call → Result (Unit {0}) × Call
append_change v change call =
    elim (propose call.core.membership_transition change.voters change.learners
      change.transition_id) [
        | err e ↦ (err e, leave_empty call)
        | ok joint ↦ or_leave_empty (core_append_configuration v joint call)
      ]

unfoldable pub change_membership : Vec → MembershipChange → Call → Result (Unit {0}) × Call
unfolding append_change
change_membership v change call =
    if change.transition_id == 0
    then (err einval, call)
    else begin call ▸ λ begun.
        if not (leads begun.core.role)
        then (err eperm, leave begun)
        else if not (begun.core.leadership_transfer_target == 0)
            || not (read_total_count begun.core == 0)
        then (err ebusy, leave begun)
        else append_change v change begun ▸ λ changed. done (finish (before_of call.core) changed)

unfoldable pub start_transfer : ℕ → ℕ → Call → Call
start_transfer transferee_id i call =
    let target = record call {
      core = record (call.core) {
        leadership_transfer_target = transferee_id;
        leadership_transfer_elapsed_ticks = 0;
      };
    } in
    if leb (last_index call.core.log) (call.core.match_index i)
    then send_timeout_now transferee_id target
    else (let sent = (emit_replication i false target).1 in
        record sent { core = record (sent.core) { leadership_transfer_sent = false } })

unfoldable pub transfer_leadership : ℕ → Call → Result (Unit {0}) × Call
unfolding start_transfer
transfer_leadership transferee_id call =
    if transferee_id == 0 || transferee_id == call.core.self_id
    then (err einval, call)
    else elim (voter_index call.core transferee_id) [
      | none ↦ (err einval, call)
      | some i ↦ begin call ▸ λ begun.
          if not (leads begun.core.role)
          then (err eproto, leave begun)
          else if not (begun.core.leadership_transfer_target == 0)
              || not (read_total_count begun.core == 0)
              || peer_index_paused begun.core i
          then (err ebusy, leave begun)
          else require_capacity 1 begun ▸ λ roomy.
              done (finish (before_of call.core) (start_transfer transferee_id i roomy))
    ]

unfoldable pub has_committed_current_term : Core → Bool
has_committed_current_term core =
    if core.commit_index == 0
    then false
    else if core.commit_index == core.log.base_index
    then core.log.base_term == core.term
    else elim (get core.log core.commit_index) [
      | none ↦ false
      | some entry ↦ entry.term == core.term
    ]

-- A read joins the active barrier or waits for the next one.
unfoldable pub join_read : ℕ → Core → Core
join_read context_id core =
    if core.commit_index == core.pending_read_index
    then record core { pending_reads = core.pending_reads ++ context_id ∷ [] }
    else record core { waiting_reads = core.waiting_reads ++ context_id ∷ [] }

abbrev pub queue_read : ℕ → Core → Core
queue_read context_id core = record core { waiting_reads = core.waiting_reads ++ context_id ∷ [] }

abbrev pub start_reads : Call → Call
start_reads call =
    read_start_active_barrier (record call { core = read_move_waiting_to_active call.core })

unfoldable pub read_index : ℕ → Call → Result (Unit {0}) × Call
unfolding join_read
read_index context_id call =
    if context_id == 0
    then (err einval, call)
    else begin call ▸ λ begun.
        if not (leads begun.core.role)
        then (err eproto, leave begun)
        else if not (begun.core.leadership_transfer_target == 0)
            || not (has_committed_current_term begun.core)
        then (err ebusy, leave begun)
        else if read_context_exists begun.core context_id
        then (err ealready, leave begun)
        else if leb begun.core.max_pending_reads (read_total_count begun.core)
        then (err enospc, leave begun)
        else if not (length begun.core.pending_reads == 0)
        then done
            (finish (before_of call.core) (record begun { core = join_read context_id begun.core }))
        else require_capacity (unpaused_remote_voter_count begun.core) begun ▸ λ roomy. done (
            finish (before_of call.core)
              (start_reads (record roomy { core = queue_read context_id roomy.core })))

unfoldable pub poll_reads : Call → Result (Unit {0}) × Call
poll_reads call =
    if leads call.core.role
      && length call.core.pending_reads == 0
      && not (length call.core.waiting_reads == 0)
    then (require_capacity (unpaused_remote_voter_count call.core) call ▸ λ roomy.
        done (start_reads roomy))
    else done call

unfoldable pub poll : Call → Result (Unit {0}) × Call
unfolding poll_reads
poll call = begin call ▸ λ begun.
    poll_reads begun ▸ λ read. done (finish (before_of call.core) (fill_replication_windows read))
