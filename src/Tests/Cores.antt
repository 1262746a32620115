-- ===== src/Tests/Cores.antt =====
-- A core at concrete inputs.
use turboraft.Prelude.{ℕ, ◌≡◌, ◌<◌, ◌≤◌, refl, true, false, [], arith}
use turboraft.Status.{ok}
use turboraft.Log.{last_index, last_term, last_term_of}
use turboraft.Core.{
  Core, Call, follower, pre_candidate, leader, vote_request, append_request, pre_vote_request,
  pre_vote_response,
}
use turboraft.Core.Peers.{log_is_up_to_date}
use turboraft.Core.Election.{vote, step_pre_vote_request, step_pre_vote_response, grants_vote}
use turboraft.Core.Election.Safety.{Keeps, Keeps-refl, IsAhead}
use turboraft.Core.Election.Ballot.{
  Granted, IsBallot, grants_vote-IsBallot, vote_once, step_pre_vote_request_forgets,
}
use turboraft.Core.Step.{step}
use turboraft.Core.Step.Terms.{step-Keeps}
use turboraft.Core.Commit.{commit_target}
use turboraft.Core.Commit.Reached.{IsLeading}
use turboraft.Core.Commit.Rule.{IsTarget, commit_target-IsTarget}
use turboraft.Core.Follow.{committing}
use turboraft.Core.Follow.Commits.{IsFollowed, committing-IsFollowed, committing_beyond, IsAbove}
use turboraft.Core.Apply.{ack_ready, ack_applied}
use turboraft.Core.Apply.Order.{IsOrdered, Admits, Applies, ack_ready-Admits, ack_applied-Applies}
use turboraft.Tests.Logs.{plenty}
use turboraft.Tests.Nodes.{four_entries, node, no_ready, message}

node-IsLeading : IsLeading (node leader)
node-IsLeading = record {
  peers_rise = (omega arith, (omega arith, (omega arith, tt)));
  members_fit = omega arith;
  term_set = λ z. absurd (omega arith);
}

commit_target-IsTarget_example : IsTarget (node leader) (commit_target (node leader))
commit_target-IsTarget_example = commit_target-IsTarget (node leader) node-IsLeading

abbrev received : Call
received = record { core = node follower; ready = no_ready }

node-IsAhead : IsAhead (node follower)
unfolding IsAhead
node-IsAhead e nz = absurd (nz refl)

step-Keeps_example : Keeps (node follower) (step plenty (message vote_request 2) received).1.core
step-Keeps_example =
    step-Keeps plenty (message vote_request 2) received node-IsAhead (omega arith)
      (λ e g z. absurd (omega arith))

node-Granted : Granted (node follower) (message vote_request 2)
unfolding Granted grants_vote log_is_up_to_date last_term last_term_of last_index
node-Granted = refl

voted-Granted : Granted (vote (node follower) (message vote_request 2)) (message vote_request 2)
unfolding Granted vote grants_vote log_is_up_to_date last_term last_term_of last_index
voted-Granted = refl

grants_vote-IsBallot_example : IsBallot (node follower) (message vote_request 2)
grants_vote-IsBallot_example = grants_vote-IsBallot (node follower) (message vote_request 2)

vote_once_example : ◌≡◌ {A = ℕ} 2 2
vote_once_example =
    vote_once (node follower) (message vote_request 2)
      (vote (node follower) (message vote_request 2)) (message vote_request 2) node-Granted
      (Keeps-refl (vote (node follower) (message vote_request 2))) voted-Granted refl
      (λ z. absurd (omega arith))

-- A pre-candidate for term 3.
abbrev campaigning : Call
campaigning = record {
  core = record (node pre_candidate) { campaign_term = 3; pre_votes = 1 };
  ready = no_ready;
}

step_pre_vote_request_forgets_example :
    step_pre_vote_response
      (message pre_vote_response 3)
      2
      (step_pre_vote_request (message pre_vote_request 2) campaigning)
    ≡ step_pre_vote_request (message pre_vote_request 2) campaigning
step_pre_vote_request_forgets_example =
    step_pre_vote_request_forgets (message pre_vote_request 2) (message pre_vote_response 3) 2
      campaigning (omega arith) (λ z. absurd (omega arith))

node-IsAbove : IsAbove 1 []
unfolding IsAbove
node-IsAbove = tt

node-in_log : 1 ≤ last_index four_entries
unfolding last_index
node-in_log = omega arith

committing-IsFollowed_example :
    IsFollowed
      (message append_request 2)
      (node follower)
      (committing (message append_request 2) (node follower))
committing-IsFollowed_example =
    committing-IsFollowed (message append_request 2) (node follower) node-IsAbove (omega arith)
      node-in_log

-- The request matches entry 1 alone, and the follower commits entry 3.
node-beyond : 1 < last_index four_entries
unfolding last_index
node-beyond = omega arith

committing_beyond_example : 1 < (committing (message append_request 2) (node follower)).commit_index
committing_beyond_example =
    committing_beyond (message append_request 2) (node follower) refl (omega arith) node-beyond

-- Entries 2 and 3 are committed and offered; two of them are admitted, then entry 2 is applied.
abbrev offering : Core
offering = record (node follower) {
  commit_index = 3;
  pending_apply_index = 3;
  ready_outstanding = true;
}

offering-IsOrdered : IsOrdered offering
offering-IsOrdered = record {
  applied_admitted = omega arith;
  admitted_committed = omega arith;
  pending_committed = omega arith;
  commit_fits = omega arith;
}

abbrev admitting : Core
admitting = record offering {
  apply_admitted_index = 3;
  pending_apply_index = 0;
  ready_outstanding = false;
}

admitting-IsOrdered : IsOrdered admitting
admitting-IsOrdered = record {
  applied_admitted = omega arith;
  admitted_committed = omega arith;
  pending_committed = omega arith;
  commit_fits = omega arith;
}

ack_ready-offering : ack_ready 2 offering ≡ ok admitting
unfolding ack_ready
ack_ready-offering = refl

ack_ready-Admits_example : Admits 2 offering admitting
ack_ready-Admits_example =
    ack_ready-Admits 2 offering admitting offering-IsOrdered ack_ready-offering

ack_applied-admitting : ack_applied 2 admitting ≡ ok (record admitting { applied_index = 2 })
unfolding ack_applied
ack_applied-admitting = refl

ack_applied-Applies_example : Applies 2 admitting (record admitting { applied_index = 2 })
ack_applied-Applies_example =
    ack_applied-Applies 2 admitting (record admitting { applied_index = 2 }) admitting-IsOrdered
      ack_applied-admitting
