-- ===== src/Core/Step/Terms.antt =====
-- Terms and votes across `tr_raft_core_step` of src/core/raft_core.c.
use turboraft.Prelude.{
  ℕ, ◌≤◌, ◌≡◌, ◌≢◌, refl, true, false, Bool, Option, none, some, ltb, leb, ◌==◌, if◌then◌else◌,
  ◌&&◌, ◌||◌, not, arith, length,
}
use turboraft.Status.{Result, ok, err, einval}
use turboraft.Conf.{u64_max}
use turboraft.Vec.{Vec}
use turboraft.Core.{
  MessageType, pre_vote_request, pre_vote_response, vote_request, vote_response, heartbeat_request,
  heartbeat_response, append_request, append_response, timeout_now, read_index_request,
  read_index_response, unknown_type, Message, Core, Call, max_append_entries,
}
use turboraft.Core.Peers.{peer_index, voter_index}
use turboraft.Core.Emit.{
  before_of, begin, leave, leave_empty, require_capacity, finish, finish_apply, reset_ready,
}
use turboraft.Core.Election.Frames.{Same}
use turboraft.Core.Election.Safety.{
  Keeps, Keeps-refl, Same-Keeps, Keeps-trans, IsAhead, step_vote_response-Keeps,
  step_pre_vote_response-Keeps, step_timeout_now-Keeps, step_vote_request-Keeps,
  step_pre_vote_request-Keeps,
}
use turboraft.Core.Follow.Terms.{branch_Keeps, step_heartbeat_request-Keeps}
use turboraft.Core.Leader.{step_read_index_request}
use turboraft.Core.Leader.Terms.{
  then_Keeps, step_heartbeat_response-Keeps, step_read_index_response-Keeps,
}
use turboraft.Calls.{◌▸◌}
use turboraft.Core.Step.{
  take_entries, or_leave_empty, handle, required_for, is_known, admitted, is_progress_response,
  step,
}

or_leave_empty-Keeps :
    (before : Core) (x : Result (Unit {0}) × Call)
    → Keeps before x.1.core
    → Keeps before (or_leave_empty x).1.core
unfolding leave_empty
or_leave_empty-Keeps before (ok u, call) h = h
or_leave_empty-Keeps before (err e, call) h = record {
  term_le = h.term_le;
  vote_stays = λ q nz. h.vote_stays q nz;
}

take_entries-Keeps :
    (v : Vec) (is_heartbeat : Bool) (m : Message) (call : Call)
    → Keeps call.core (take_entries v is_heartbeat m call).1.core
unfolding take_entries leave
take_entries-Keeps v is_heartbeat m call =
    branch_Keeps call.core
      (ltb max_append_entries (length m.entries) || (is_heartbeat && not (length m.entries == 0))) _
      _ (record { term_le = omega arith; vote_stays = λ q nz. refl })
      (or_leave_empty-Keeps call.core _ (step_heartbeat_request-Keeps v m call))

step_read_index_request-Keeps :
    (m : Message) (call : Call) → Keeps call.core (step_read_index_request m call).core
unfolding step_read_index_request
step_read_index_request-Keeps m call = record {
  term_le = ground arith;
  vote_stays = λ q nz. ground arith;
}

leave-Keeps : (call : Call) → Keeps call.core (leave call).core
unfolding leave
leave-Keeps call = record { term_le = omega arith; vote_stays = λ q nz. refl }

handle-Keeps :
    (v : Vec) (type : MessageType) (m : Message) (peer voter : ℕ) (call : Call)
    → IsAhead call.core
    → call.core.term ≤ u64_max
    → (type ≡ pre_vote_response → m.granted ≡ true → m.campaign_term ≢ 0)
    → Keeps call.core (handle v type m peer voter call).1.core
unfolding handle
handle-Keeps v pre_vote_request m peer voter call a b c = step_pre_vote_request-Keeps m call
handle-Keeps v pre_vote_response m peer voter call a b c =
    step_pre_vote_response-Keeps m voter call a (c refl)
handle-Keeps v vote_request m peer voter call a b c = step_vote_request-Keeps m call
handle-Keeps v vote_response m peer voter call a b c = step_vote_response-Keeps m voter call
handle-Keeps v heartbeat_request m peer voter call a b c = take_entries-Keeps v true m call
handle-Keeps v append_request m peer voter call a b c = take_entries-Keeps v false m call
handle-Keeps v heartbeat_response m peer voter call a b c =
    or_leave_empty-Keeps call.core _ (step_heartbeat_response-Keeps m peer call)
handle-Keeps v append_response m peer voter call a b c =
    or_leave_empty-Keeps call.core _ (step_heartbeat_response-Keeps m peer call)
handle-Keeps v timeout_now m peer voter call a b c = step_timeout_now-Keeps m call b
handle-Keeps v read_index_request m peer voter call a b c = step_read_index_request-Keeps m call
handle-Keeps v read_index_response m peer voter call a b c =
    step_read_index_response-Keeps m voter call
handle-Keeps v (unknown_type n) m peer voter call a b c = leave-Keeps call

then_branch_Keeps :
    (before : Core) (b : Bool) (x y : Result (Unit {0}) × Call)
    (f : Call → Result (Unit {0}) × Call)
    → Keeps before (x ▸ f).1.core
    → Keeps before (y ▸ f).1.core
    → Keeps before ((if b then x else y) ▸ f).1.core
then_branch_Keeps before true x y f h k = h
then_branch_Keeps before false x y f h k = k

finish-Same : (before : Core) (call : Call) → Same call.core (finish (before_of before) call).core
unfolding finish finish_apply
finish-Same before call = record { same_term = ground arith; same_vote = ground arith }

admitted-Keeps :
    (v : Vec) (m : Message) (peer voter : ℕ) (call : Call)
    → IsAhead call.core
    → call.core.term ≤ u64_max
    → (m.type ≡ pre_vote_response → m.granted ≡ true → m.campaign_term ≢ 0)
    → Keeps call.core (admitted v m peer voter call).1.core
unfolding admitted begin require_capacity leave leave_empty IsAhead
admitted-Keeps v m peer voter call a b c =
    let core = call.core in
    let begun : Call = record {
      core = record core { in_call = true };
      ready = reset_ready call.ready;
    } in
    let h = handle-Keeps v m.type m peer voter begun a b c in
    then_branch_Keeps core (core.in_call || core.ready_outstanding) _ _ _ (Keeps-refl core) (
      then_branch_Keeps core (is_known m.type) _ _ _
        (then_branch_Keeps core
          (leb (required_for m.type begun.core m voter) begun.ready.message_capacity) _ _ _
          (then_Keeps core (handle v m.type m peer voter begun) _
            (record { term_le = h.term_le; vote_stays = λ q nz. h.vote_stays q nz })
            (λ handled k. Keeps-trans k (Same-Keeps (finish-Same core handled))))
          (record { term_le = omega arith; vote_stays = λ q nz. refl }))
        (record { term_le = omega arith; vote_stays = λ q nz. refl }))

-- The step of a message, errors included, does not lower the term and keeps a vote cast in it: where
-- a pre-candidate's campaign term, if it has one, is above its term, the term fits 64 bits, and a
-- granted pre-vote response names a campaign term.
pub step-Keeps :
    (v : Vec) (m : Message) (call : Call)
    → IsAhead call.core
    → call.core.term ≤ u64_max
    → (m.type ≡ pre_vote_response → m.granted ≡ true → m.campaign_term ≢ 0)
    → Keeps call.core (step v m call).1.core
unfolding step
step-Keeps v m call a b c =
    branch_Keeps call.core (not (m.to == call.core.self_id) || m.from == call.core.self_id) _ _
      (Keeps-refl call.core)
      (elim (peer_index call.core m.from) as (λ p. Keeps call.core (received p).1.core) [
        | none ↦ Keeps-refl call.core
        | some peer ↦ from_voter_Keeps peer (voter_index call.core m.from)
      ])
  where
    from_voter : ℕ → Option ℕ → Result (Unit {0}) × Call
    from_voter peer none =
        if not (is_progress_response m.type) then (err einval, call) else admitted v m peer 0 call
    from_voter peer (some voter) = admitted v m peer voter call

    received : Option ℕ → Result (Unit {0}) × Call
    received none = (err einval, call)
    received (some peer) = from_voter peer (voter_index call.core m.from)

    from_voter_Keeps : (peer : ℕ) (o : Option ℕ) → Keeps call.core (from_voter peer o).1.core
    from_voter_Keeps peer none =
        branch_Keeps call.core (not (is_progress_response m.type)) _ _ (Keeps-refl call.core)
          (admitted-Keeps v m peer 0 call a b c)
    from_voter_Keeps peer (some voter) = admitted-Keeps v m peer voter call a b c
