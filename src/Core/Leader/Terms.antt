-- ===== src/Core/Leader/Terms.antt =====
-- What a response does to the term and the vote of a core of src/core/raft_core.c.
use turboraft.Prelude.{
  ℕ, refl, ltb, leb, ◌==◌, ◌&&◌, ◌||◌, not, arith, length, ◌-◌, test_bit, set_bit,
}
use turboraft.Status.{Result, ok, err}
use turboraft.Log.{last_index}
use turboraft.Core.{Core, Call, Message}
use turboraft.Core.Outcome.{OnOk-weaken}
use turboraft.Core.Peers.{core_has_quorum, leads, unpaused_remote_voter_count}
use turboraft.Core.Emit.{broadcast_read_index}
use turboraft.Core.Reads.{
  read_emit_active, read_clear_active, read_start_active_barrier, read_move_waiting_to_active,
}
use turboraft.Core.Election.Frames.{Same, Same-refl, Same-if, fill_peer_replication_window-Same}
use turboraft.Core.Election.Safety.{
  Keeps, Keeps-refl, Same-Keeps, Keeps-trans, Keeps-if, become_follower-Keeps,
}
use turboraft.Core.Sync.{sync_membership}
use turboraft.Core.Follow.Terms.{after_elim-Keeps, branch_Keeps, sync_membership-Same}
use turboraft.Calls.{◌▸◌}
use turboraft.Core.Commit.{update_commit, committed_to, commit_target}
use turboraft.Core.Leader.{
  note_active, advance_match, release_window, take_grant, take_rejection, transfer_due,
  send_timeout_now, go_on, ignores, step_heartbeat_response, next_barrier, step_read_index_response,
}

pub update_commit-Keeps : (call : Call) → Keeps call.core (update_commit call).1.core
unfolding update_commit committed_to
update_commit-Keeps call =
    let committed = committed_to (commit_target call.core) call.core in
    branch_Keeps call.core (commit_target call.core == call.core.commit_index) _ _
      (Keeps-refl call.core)
      (after_elim-Keeps call.core (sync_membership committed) _ _
        (OnOk-weaken (Same committed) (Keeps call.core) (sync_membership committed)
          (λ c s. Same-Keeps (record { same_term = s.same_term; same_vote = s.same_vote }))
          (sync_membership-Same committed))
        (λ e. record { term_le = omega arith; vote_stays = λ q nz. refl }) (λ c k. k))

-- Two statements, one behind the other.
pub then_Keeps :
    (before : Core) (x : Result (Unit {0}) × Call) (f : Call → Result (Unit {0}) × Call)
    → Keeps before x.1.core
    → ((c : Call) → Keeps before c.core → Keeps before (f c).1.core)
    → Keeps before (x ▸ f).1.core
then_Keeps before (ok u, call) f h k = k call h
then_Keeps before (err e, call) f h k = h

note_active-Same :
    (response : Message) (i : ℕ) (core : Core) → Same core (note_active response i core)
unfolding note_active
note_active-Same response i core = record { same_term = ground arith; same_vote = ground arith }

take_grant-Keeps :
    (response : Message) (i : ℕ) (call : Call) → Keeps call.core (take_grant response i call).1.core
unfolding take_grant release_window advance_match
take_grant-Keeps response i call =
    let released = release_window response i call.core in
    let k = update_commit-Keeps (record call { core = advance_match response i released }) in
    branch_Keeps call.core (ltb (released.match_index i) response.match_index) _ _
      (record { term_le = k.term_le; vote_stays = λ e nz. k.vote_stays e nz })
      (record { term_le = omega arith; vote_stays = λ e nz. refl })

go_on-Same :
    (response : Message) (i last : ℕ) (call : Call)
    → Same call.core (go_on response i last call).core
unfolding go_on send_timeout_now
go_on-Same response i last call =
    Same-if call.core (transfer_due call.core response i last) _ _
      (record { same_term = refl; same_vote = refl })
      (Same-if call.core (leb (call.core.next_index i) last || not response.granted) _ _
        (fill_peer_replication_window-Same i call) (Same-refl call.core))

pub step_heartbeat_response-Keeps :
    (response : Message) (i : ℕ) (call : Call)
    → Keeps call.core (step_heartbeat_response response i call).1.core
unfolding step_heartbeat_response take_rejection
step_heartbeat_response-Keeps response i call =
    let core = call.core in
    let a = Same-Keeps (note_active-Same response i core) in
    branch_Keeps core (ltb core.term response.term) _ _ (become_follower-Keeps response.term core) (
      branch_Keeps core (ignores core response i) _ _ (Keeps-refl core) (
        then_Keeps core _ _
          (branch_Keeps core response.granted _ _
            (Keeps-trans a
              (take_grant-Keeps response i (record call { core = note_active response i core })))
            (record { term_le = a.term_le; vote_stays = λ e nz. a.vote_stays e nz }))
          (λ c k. Keeps-trans k (Same-Keeps (go_on-Same response i (last_index core.log) c)))))

read_start_active_barrier-Same :
    (call : Call) → Same call.core (read_start_active_barrier call).core
unfolding read_start_active_barrier read_emit_active read_clear_active broadcast_read_index
read_start_active_barrier-Same call = record { same_term = ground arith; same_vote = ground arith }

next_barrier-Same : (required : ℕ) (call : Call) → Same call.core (next_barrier required call).core
unfolding next_barrier read_move_waiting_to_active
next_barrier-Same required call =
    let s =
      read_start_active_barrier-Same
        (record call { core = read_move_waiting_to_active call.core }) in
    Same-if call.core
      (not (length call.core.waiting_reads == 0)
        && leb required (call.ready.message_capacity - length call.ready.messages))
      _ _ (record { same_term = s.same_term; same_vote = s.same_vote }) (Same-refl call.core)

pub step_read_index_response-Keeps :
    (response : Message) (i : ℕ) (call : Call)
    → Keeps call.core (step_read_index_response response i call).core
unfolding step_read_index_response read_emit_active read_clear_active
step_read_index_response-Keeps response i call =
    let core = call.core in
    let counted : Core = record core { pending_read_acks = set_bit core.pending_read_acks i } in
    let s =
      next_barrier-Same (unpaused_remote_voter_count counted)
        (read_emit_active (record call { core = counted })) in
    Keeps-if core (ltb core.term response.term) _ _ (λ _. become_follower-Keeps response.term core)
      (λ _.
        Keeps-if core
          (not (leads core.role)
            || not (response.term == core.term)
            || response.context_id == 0
            || not (response.context_id == core.pending_read_context_id)
            || length core.pending_reads == 0
            || test_bit core.pending_read_acks i)
          _ _ (λ _. Keeps-refl core)
          (λ _.
            Keeps-if core (core_has_quorum counted counted.pending_read_acks) _ _
              (λ _. Same-Keeps (record { same_term = s.same_term; same_vote = s.same_vote }))
              (λ _. record { term_le = omega arith; vote_stays = λ e nz. refl })))
